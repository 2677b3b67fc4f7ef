-- ===== src/Slices/Collection/Resume.antt =====
-- collect_reboot_slices.py: a collection that is taken up again, with `--resume`.
use wireless_boot_entropy_ze.Base.{
  ℕ, suc, ◌+◌, ◌≡◌, refl, ap, true, none, List, [], ◌∷◌, arith, ◌==◌, length, nat_eq, map,
}
use mathlib.Core.Path.{subst}
use wireless_boot_entropy_ze.Base.Int.{pos_part}
use wireless_boot_entropy_ze.Python.Result.{ok, >>=-eq-ok, ok-injective}
use wireless_boot_entropy_ze.Python.Dict.{lookup}
use wireless_boot_entropy_ze.Python.Struct.{Bytes}
use wireless_boot_entropy_ze.Python.Text.{Text}
use wireless_boot_entropy_ze.Slices.Plan.{SliceArgs, plan}
use wireless_boot_entropy_ze.Slices.Collection.{
  Files, CaptureScript, RunRow, concatenate, Manifest, obtain, read_back, collect_run, collect_runs,
  manifest_of, finish, collect_slices,
}
use wireless_boot_entropy_ze.Slices.Collection.Complete.{RowHolds, RowsHold, Collects-collect_runs}

abbrev pub without_time : RunRow → RunRow
without_time row = record row { capture_seconds = none }

runs_kept :
    (rows : List RunRow) → map (λ row. row.run) (map without_time rows) ≡ map (λ row. row.run) rows
runs_kept [] = refl
runs_kept (row ∷ rows) = ap (◌∷◌ row.run) (runs_kept rows)

number_kept : (rows : List RunRow) → length (map without_time rows) ≡ length rows
number_kept [] = refl
number_kept (row ∷ rows) = ap suc (number_kept rows)

module _ (sha256_file : Bytes → Text) (script : CaptureScript) where
  obtain-reused :
      (bytes index : ℕ) (files : Files) (row : RunRow)
      → RowHolds sha256_file bytes index files row
      → obtain script sha256_file true bytes index files ≡ ok (files, none)
  obtain-reused bytes index files row h =
      let sized : (length h.content == bytes) ≡ true = ground (arith, h.of_size) in
      rw (h.there, sized) refl

  read_back-reused :
      (bytes index : ℕ) (files : Files) (row : RunRow)
      → RowHolds sha256_file bytes index files row
      → read_back script sha256_file bytes index none (lookup index files) ≡ ok (without_time row)
  read_back-reused bytes index files row h =
      let sized : (length h.content == bytes) ≡ true = ground (arith, h.of_size) in
      rw (h.there, sized, h.numbered, h.said_size, h.digest) refl

  collect_run-reused :
      (bytes index : ℕ) (files : Files) (row : RunRow)
      → RowHolds sha256_file bytes index files row
      → collect_run script sha256_file true bytes index files ≡ ok (files, without_time row)
  unfolding collect_run
  collect_run-reused bytes index files row h =
      rw
        (
          collect_run,
          obtain-reused bytes index files row h,
          read_back-reused bytes index files row h,
        )
        refl

  collect_runs-reused :
      (bytes index : ℕ) (files : Files) (rows : List RunRow)
      → RowsHold sha256_file bytes index files rows
      → collect_runs script sha256_file true bytes index (length rows) files
        ≡ ok (files, map without_time rows)
  unfolding collect_runs
  collect_runs-reused bytes index files [] h = refl
  collect_runs-reused bytes index files (row ∷ rows) (holds, h) =
      rw
        (
          collect_runs,
          collect_run-reused bytes index files row holds,
          collect_runs-reused bytes (index + 1) files rows h,
        )
        refl

  abbrev Resumes : SliceArgs → Files × Manifest → Type 0
  Resumes args end =
      collect_slices script sha256_file (record args { resume = true }) end.0
      ≡ ok (end.0, record end.1 { rows = map without_time end.1.rows })

  Resumes-complete :
      (args : SliceArgs) (bytes : ℕ) (left : Files) (rows : List RunRow) (aggregate : Bytes)
      → plan args ≡ ok bytes
      → RowsHold sha256_file bytes 1 left rows
      → length rows ≡ pos_part args.runs
      → concatenate (map (λ row. row.run) rows) left ≡ ok aggregate
      → Resumes args (left, manifest_of script sha256_file bytes rows aggregate)
  unfolding collect_slices finish plan
  Resumes-complete args bytes left rows aggregate plans hold number concatenates =
      let again : collect_runs script sha256_file true bytes 1 (pos_part args.runs) left
          ≡ ok (left, map without_time rows) =
        subst
          (λ n.
            collect_runs script sha256_file true bytes 1 n left ≡ ok (left, map without_time rows))
          number (collect_runs-reused bytes 1 left rows hold) in
      rw (collect_slices, plans, again, finish, runs_kept rows, concatenates, number_kept rows) refl

  -- Where a collection ended well, the same one with `--resume` captures nothing again: it ends well on
  -- the same files, with the same aggregate, and with rows that differ in the missing times alone.
  pub collect_slices-resumed :
      (args : SliceArgs) (files : Files) (end : Files × Manifest)
      → collect_slices script sha256_file args files ≡ ok end
      → collect_slices script sha256_file (record args { resume = true }) end.0
        ≡ ok (end.0, record end.1 { rows = map without_time end.1.rows })
  unfolding collect_slices finish
  collect_slices-resumed args files end h =
      let (bytes, plans, after) = >>=-eq-ok (plan args) _ h in
      let (collected, collects, finishes) =
        >>=-eq-ok (collect_runs script sha256_file args.resume bytes 1 (pos_part args.runs) files)
          (finish script sha256_file bytes) after in
      let (aggregate, concatenates, same) =
        >>=-eq-ok (concatenate (map (λ row. row.run) collected.1) collected.0) _ finishes in
      let held =
        Collects-collect_runs sha256_file script args.resume bytes 1 (pos_part args.runs) files
          collected collects in
      subst (Resumes args) (ok-injective same) (
        Resumes-complete args bytes collected.0 collected.1 aggregate plans held.hold held.number
          concatenates)
