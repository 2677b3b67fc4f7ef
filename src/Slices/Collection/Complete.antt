-- ===== src/Slices/Collection/Complete.antt =====
-- collect_reboot_slices.py: what a collection that ends well leaves, and that it can be taken up again.
use wireless_boot_entropy_ze.Base.{
  ℕ, zero, suc, ◌+◌, ◌*◌, ◌<◌, ◌≡◌, refl, sym, ap, ◌∙◌, Bool, false, Bool-cases, inl, inr, Option,
  none, some, List, [], ◌∷◌, ◌++◌, arith, ◌==◌, length, length-append, nat_eq, map,
}
use mathlib.Core.Path.{subst}
use wireless_boot_entropy_ze.Base.Int.{ℤ, pos, pos_part}
use wireless_boot_entropy_ze.Python.Result.{ok, >>=-eq-ok, ok-injective}
use wireless_boot_entropy_ze.Python.Dict.{lookup}
use wireless_boot_entropy_ze.Python.Struct.{Bytes}
use wireless_boot_entropy_ze.Python.Text.{Text}
use wireless_boot_entropy_ze.Aeb.Trial.{Time}
use wireless_boot_entropy_ze.Slices.Plan.{SliceArgs, plan, IsPlan, plan-IsPlan}
use wireless_boot_entropy_ze.Slices.Collection.{
  Files, CaptureScript, RunRow, is_reused, timed, content_of, concatenate, Manifest, obtain, row_of,
  read_back, check_size, collect_run, collect_runs, with_row, finish, collect_slices,
}

module _ (sha256_file : Bytes → Text) where
  -- The file of a row is there, with the bytes asked for, and the row is about it.
  pub record RowHolds (bytes index : ℕ) (files : Files) (row : RunRow) : Type 0 where
    pub content : Bytes
    pub numbered : row.run ≡ index
    pub there : lookup index files ≡ some content
    pub of_size : length content ≡ bytes
    pub said_size : row.bytes ≡ bytes
    pub digest : row.sha256 ≡ sha256_file content

  abbrev pub RowsHold : ℕ → ℕ → Files → List RunRow → Type 0
  RowsHold bytes index files [] = Unit
  RowsHold bytes index files (row ∷ rows) =
      RowHolds bytes index files row × RowsHold bytes (index + 1) files rows

  module _ (script : CaptureScript) where
    open script use {run, keeps_others}

    obtain-others :
        (resume : Bool) (bytes index : ℕ) (files : Files) (after : Files × Option Time)
        → obtain script sha256_file resume bytes index files ≡ ok after
        → (other : ℕ) → (other == index) ≡ false
        → lookup other after.0 ≡ lookup other files
    obtain-others resume bytes index files after h other apart =
        elim (Bool-cases (is_reused resume bytes (lookup index files))) [
          | inl reused ↦ ap (λ a. lookup other a.0) (sym (ok-injective (rw reused at h)))
          | inr captured ↦
              let (left, captures, same) =
                >>=-eq-ok (run bytes index files) (λ a. ok (timed a)) (rw captured at h) in
              ap (λ a. lookup other a.0) (sym (ok-injective same))
              ∙ keeps_others bytes index other files left captures apart
        ]

    -- What is read back of a file.
    read_back-content :
        (bytes index : ℕ) (elapsed : Option Time) (found : Option Bytes) (row : RunRow)
        → read_back script sha256_file bytes index elapsed found ≡ ok row
        → (content : Bytes) × (found ≡ some content)
          × (length content ≡ bytes)
          × (row ≡ row_of script sha256_file bytes index elapsed content)
    read_back-content bytes index elapsed none row h = elim (Bool-cases (0 == bytes)) [
      | inl sized ↦ absurd (let e = rw sized at h in cc)
      | inr other ↦ absurd (let e = rw other at h in cc)
    ]
    read_back-content bytes index elapsed (some content) row h =
        elim (Bool-cases (length content == bytes)) [
          | inl sized ↦ (content, refl, ground arith, sym (ok-injective (rw sized at h)))
          | inr other ↦ absurd (let e = rw other at h in cc)
        ]

    check_size-RowHolds :
        (bytes index : ℕ) (obtained : Files × Option Time) (done : Files × RunRow)
        → check_size script sha256_file bytes index obtained ≡ ok done
        → (done.0 ≡ obtained.0) × RowHolds bytes index done.0 done.1
    check_size-RowHolds bytes index (files, elapsed) (after, row) h =
        let (read, reads, same) =
          >>=-eq-ok (read_back script sha256_file bytes index elapsed (lookup index files)) _ h in
        let whole : (files, read) ≡ (after, row) = ok-injective same in
        let files_kept : after ≡ files = ap (λ d. d.0) (sym whole) in
        let row_kept : row ≡ read = ap (λ d. d.1) (sym whole) in
        let (content, found, sized, is_row) =
          read_back-content bytes index elapsed (lookup index files) read reads in
        let of_row = row_kept ∙ is_row in
        (
          files_kept,
          record {
            content = content;
            numbered = ap (λ r. r.run) of_row;
            there = ap (lookup index) files_kept ∙ found;
            of_size = sized;
            said_size = ap (λ r. r.bytes) of_row;
            digest = ap (λ r. r.sha256) of_row;
          },
        )

    collect_run-RowHolds :
        (resume : Bool) (bytes index : ℕ) (files : Files) (done : Files × RunRow)
        → collect_run script sha256_file resume bytes index files ≡ ok done
        → RowHolds bytes index done.0 done.1
          × ((other : ℕ) → (other == index) ≡ false → lookup other done.0 ≡ lookup other files)
    unfolding collect_run
    collect_run-RowHolds resume bytes index files done h =
        let (obtained, obtains, checked) =
          >>=-eq-ok (obtain script sha256_file resume bytes index files)
            (check_size script sha256_file bytes index) h in
        let (kept, holds) = check_size-RowHolds bytes index obtained done checked in
        (
          holds,
          λ other apart.
              ap (lookup other) kept
              ∙ obtain-others resume bytes index files obtained obtains other apart,
        )

    pub record Collects (bytes index left : ℕ) (files : Files) (done : Files × List RunRow)
        : Type 0 where
      pub hold : RowsHold bytes index done.0 done.1
      pub number : length done.1 ≡ left
      pub earlier : (other : ℕ) → other < index → lookup other done.0 ≡ lookup other files

    pub Collects-collect_runs :
        (resume : Bool) (bytes index left : ℕ) (files : Files) (done : Files × List RunRow)
        → collect_runs script sha256_file resume bytes index left files ≡ ok done
        → Collects bytes index left files done
    unfolding collect_runs
    Collects-collect_runs resume bytes index zero files done h =
        subst (Collects bytes index 0 files) (ok-injective h)
          (record { hold = tt; number = refl; earlier = λ other before. refl })
    Collects-collect_runs resume bytes index (suc left) files done h =
        let (first, runs_first, after) =
          >>=-eq-ok (collect_run script sha256_file resume bytes index files) _ h in
        let (rest, runs_rest, same) =
          >>=-eq-ok (collect_runs script sha256_file resume bytes (index + 1) left first.0) _
            after in
        let (holds, others) = collect_run-RowHolds resume bytes index files first runs_first in
        let later = Collects-collect_runs resume bytes (index + 1) left first.0 rest runs_rest in
        let whole : with_row first.1 rest ≡ done = ok-injective same in
        subst (Collects bytes index (suc left) files) whole (record {
          hold = (
            record {
              content = holds.content;
              numbered = holds.numbered;
              there = later.earlier index (omega arith) ∙ holds.there;
              of_size = holds.of_size;
              said_size = holds.said_size;
              digest = holds.digest;
            },
            later.hold,
          );
          number = omega (arith, later.number);
          earlier = λ other before.
              later.earlier other (omega (arith, before)) ∙ others other (ground arith);
        })

    concatenate-length :
        (bytes index : ℕ) (files : Files) (rows : List RunRow) (aggregate : Bytes)
        → RowsHold bytes index files rows
        → concatenate (map (λ row. row.run) rows) files ≡ ok aggregate
        → length aggregate ≡ bytes * length rows
    unfolding concatenate
    concatenate-length bytes index files [] aggregate hold h =
        let nothing : [] ≡ aggregate = ok-injective h in omega (arith, ap length nothing)
    concatenate-length bytes index files (row ∷ rows) aggregate (holds, hold) h =
        let (first, reads_first, after) = >>=-eq-ok (content_of (lookup row.run files)) _ h in
        let (rest, reads_rest, same) =
          >>=-eq-ok (concatenate (map (λ row. row.run) rows) files) _ after in
        let found : lookup row.run files ≡ some holds.content =
          ap (λ i. lookup i files) holds.numbered ∙ holds.there in
        let content : holds.content ≡ first =
          ok-injective (sym (ap content_of found) ∙ reads_first) in
        let whole : first ++ rest ≡ aggregate = ok-injective same in
        let later = concatenate-length bytes (index + 1) files rows rest hold reads_rest in
        let sized : length first ≡ bytes = ap length (sym content) ∙ holds.of_size in
        let sum : length aggregate ≡ bytes + bytes * length rows =
          omega (arith, ap length whole, length-append first rest, sized, later) in
        grind (arith, sum)

    -- What a collection leaves.
    pub record IsComplete (args : SliceArgs) (files : Files) (m : Manifest) : Type 0 where
      pub planned : IsPlan args m.bytes_per_run
      pub rows_hold : RowsHold m.bytes_per_run 1 files m.rows
      pub all_runs : m.runs_captured ≡ pos_part args.runs
      pub all_rows : length m.rows ≡ pos_part args.runs
      pub aggregate_size : length m.aggregate ≡ m.aggregate_bytes
      pub aggregate_digest : m.aggregate_sha256 ≡ sha256_file m.aggregate
      pub as_asked : (total : ℤ) → args.total_bytes ≡ some total → pos (length m.aggregate) ≡ total

    -- A collection that ends well has a row for each of the runs asked for, numbered from 1; the file of
    -- each has the planned size and the digest of its row, also after the later runs; the aggregate has
    -- as many bytes as the manifest says, and as the total asked for.
    pub collect_slices-IsComplete :
        (args : SliceArgs) (files : Files) (end : Files × Manifest)
        → collect_slices script sha256_file args files ≡ ok end
        → IsComplete args end.0 end.1
    unfolding collect_slices finish
    collect_slices-IsComplete args files end h =
        let (bytes, plans, after) = >>=-eq-ok (plan args) _ h in
        let ((left, rows), collects, finishes) =
          >>=-eq-ok (collect_runs script sha256_file args.resume bytes 1 (pos_part args.runs) files)
            (finish script sha256_file bytes) after in
        let (aggregate, concatenates, same) =
          >>=-eq-ok (concatenate (map (λ row. row.run) rows) left) _ finishes in
        let collected =
          Collects-collect_runs args.resume bytes 1 (pos_part args.runs) files (left, rows)
            collects in
        let is_plan = plan-IsPlan args bytes plans in
        let size = concatenate-length bytes 1 left rows aggregate collected.hold concatenates in
        subst (λ e. IsComplete args e.0 e.1) (ok-injective same)
          (record {
            planned = is_plan;
            rows_hold = collected.hold;
            all_runs = collected.number;
            all_rows = collected.number;
            aggregate_size = size;
            aggregate_digest = refl;
            as_asked = λ total asked.
                ap pos (size ∙ ap (◌*◌ bytes) collected.number) ∙ is_plan.adds_up total asked;
          })
