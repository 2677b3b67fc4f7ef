-- ===== src/Tests/Slices.antt =====
-- The slices of a collection of two runs, and small files.
use wireless_boot_entropy_ze.Base.{
  ℕ, ◌≡◌, refl, sym, ap, ◌∙◌, true, false, none, some, [], ◌∷◌, ◌++◌, arith, ◌==◌, nat_eq,
  replicate,
}
use wireless_boot_entropy_ze.Base.Int.{pos}
use wireless_boot_entropy_ze.Python.Result.{ok, ok-injective}
use wireless_boot_entropy_ze.Python.Dict.{lookup, insert, lookup-insert}
use wireless_boot_entropy_ze.Python.Struct.{Bytes}
use wireless_boot_entropy_ze.Python.Text.{Text, codes}
use wireless_boot_entropy_ze.Aeb.Trial.{Time}
use wireless_boot_entropy_ze.Slices.Statistics.{metrics_for_file}
use wireless_boot_entropy_ze.Slices.Statistics.Whole.{MetricsOf, metrics_for_file-MetricsOf}
use wireless_boot_entropy_ze.Slices.Comparison.{compare_aligned_files}
use wireless_boot_entropy_ze.Slices.Comparison.Whole.{Compares, compare_aligned_files-Compares}
use wireless_boot_entropy_ze.Slices.Plan.{
  SliceArgs, plan, derive_bytes_per_run, IsSecretOption, display_command, display_command-secret,
}
use wireless_boot_entropy_ze.Slices.Collection.{
  Files, CaptureScript, RunRow, Manifest, concatenate, collect_run, collect_runs, finish,
  collect_slices,
}
use wireless_boot_entropy_ze.Slices.Collection.Complete.{IsComplete, collect_slices-IsComplete}
use wireless_boot_entropy_ze.Slices.Collection.Resume.{without_time, collect_slices-resumed}
use wireless_boot_entropy_ze.Base.{map, inl, inr}

metrics_for_file-MetricsOf_example :
    MetricsOf (7 ∷ 255 ∷ 7 ∷ []) (metrics_for_file 2 (7 ∷ 255 ∷ 7 ∷ []))
metrics_for_file-MetricsOf_example =
    metrics_for_file-MetricsOf 2 (7 ∷ 255 ∷ 7 ∷ []) (omega arith)
      (omega arith, (omega arith, (omega arith, tt)))

compare_aligned_files-Compares_example :
    Compares
      (1 ∷ 2 ∷ 3 ∷ [])
      (1 ∷ 6 ∷ [])
      (record { compared_bytes = 0; equal_bytes = 0; differing_bits = 0 })
      (compare_aligned_files 2 (1 ∷ 2 ∷ 3 ∷ []) (1 ∷ 6 ∷ []))
compare_aligned_files-Compares_example =
    compare_aligned_files-Compares 2 (1 ∷ 2 ∷ 3 ∷ []) (1 ∷ 6 ∷ []) (omega arith)

script_is_plain : ¬ IsSecretOption (codes "build.sh")
script_is_plain (inl e) = cc
script_is_plain (inr (inl e)) = cc
script_is_plain (inr (inr e)) = cc

display_command-secret_example :
    display_command
      ((codes "build.sh" ∷ []) ++ codes "--pass" ∷ codes "secret" ∷ codes "--clean" ∷ [])
    ≡ display_command
        ((codes "build.sh" ∷ []) ++ codes "--pass" ∷ codes "other" ∷ codes "--clean" ∷ [])
display_command-secret_example =
    display_command-secret (codes "build.sh" ∷ []) (codes "--clean" ∷ []) (codes "--pass")
      (codes "secret") (codes "other") (script_is_plain, tt) (inr (inr refl))

-- A capture script that writes the number of the run as often as it is asked for bytes.
abbrev written : ℕ → ℕ → Files → Files × Time
written bytes index files = (insert index (replicate bytes index) files, 7)

written-others :
    (bytes index other : ℕ) (before : Files) (after : Files × Time)
    → ok (written bytes index before) ≡ ok after
    → (other == index) ≡ false
    → lookup other after.0 ≡ lookup other before
written-others bytes index other before after h apart =
    let back : (index == other) ≡ false = ground (arith, apart) in
    ap (λ a. lookup other a.0) (sym (ok-injective h))
    ∙ lookup-insert index other (replicate bytes index) before
    ∙ rw back refl

abbrev number_script : CaptureScript
number_script = record {
  run = λ bytes index files. ok (written bytes index files);
  keeps_others = written-others;
}

abbrev no_digest : Bytes → Text
no_digest bs = []

abbrev args : SliceArgs
args = record { runs = pos 2; bytes_per_run = none; total_bytes = some (pos 6); resume = false }

abbrev row : ℕ → RunRow
row index = record { run = index; bytes = 3; sha256 = []; capture_seconds = some 7 }

abbrev end : Files × Manifest
end = (
  (1, replicate 3 1) ∷ (2, replicate 3 2) ∷ [],
  record {
    runs_captured = 2;
    bytes_per_run = 3;
    aggregate_bytes = 6;
    rows = row 1 ∷ row 2 ∷ [];
    aggregate = 1 ∷ 1 ∷ 1 ∷ 2 ∷ 2 ∷ 2 ∷ [];
    aggregate_sha256 = [];
  },
)

collected : collect_slices number_script no_digest args [] ≡ ok end
unfolding collect_slices plan derive_bytes_per_run collect_runs collect_run finish concatenate
    lookup insert
collected = refl

collect_slices-IsComplete_example : IsComplete no_digest number_script args end.0 end.1
collect_slices-IsComplete_example =
    collect_slices-IsComplete no_digest number_script args [] end collected

collect_slices-resumed_example :
    collect_slices number_script no_digest (record args { resume = true }) end.0
    ≡ ok (end.0, record end.1 { rows = map without_time end.1.rows })
collect_slices-resumed_example =
    collect_slices-resumed no_digest number_script args [] end collected
