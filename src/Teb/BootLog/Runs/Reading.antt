-- ===== src/Teb/BootLog/Runs/Reading.antt =====
-- A boot log read run by run: each header line opens one, and it ends with its result.
use wireless_boot_entropy_ze.Base.{ℕ, ◌+◌, List, [], ◌∷◌}
use wireless_boot_entropy_ze.Python.Result.{Result, ok, err}
use wireless_boot_entropy_ze.Python.Dict.{insert}
use wireless_boot_entropy_ze.Python.Text.{Text, codes, text_eq}
use wireless_boot_entropy_ze.Teb.BootLog.{
  BootLine, header, entry, ipv4_line, result_line, error_line, profile_line, boot_line,
}
use wireless_boot_entropy_ze.Teb.BootLog.Runs.{Run, text, finalize_run, opened}

-- What a line that ends no run leaves of it.
abbrev pub noted : Run → BootLine → Run
noted run (entry key value) = insert key (text value) run
noted run (error_line value) =
    insert (codes "result") (text (codes "failed")) (insert (codes "error") (text value) run)
noted run (ipv4_line addr gw) =
    insert (codes "ipv4_gateway") (text gw) (insert (codes "ipv4_addr") (text addr) run)
noted run (profile_line value) = insert (codes "profile") (text value) run
noted run _ = run

abbrev pub read_line : Run → BootLine → (Run → Result Run) → Result Run
read_line run (result_line value) rest = finalize_run (insert (codes "result") (text value) run)
read_line run line rest = rest (noted run line)

-- A run from the lines behind its header: those behind its result say nothing.
unfoldable pub read_run : Run → List Text → Result Run
read_run run [] = finalize_run run
read_run run (raw ∷ lines) = read_line run (boot_line raw) (λ next. read_run next lines)

abbrev pub before_line : BootLine → Text → List Text → List Text
before_line header raw rest = []
before_line _ raw rest = raw ∷ rest

-- The lines before the next header.
unfoldable pub before_header : List Text → List Text
before_header [] = []
before_header (raw ∷ lines) = before_line (boot_line raw) raw (before_header lines)

abbrev pub segment_line : BootLine → List Text → List (List Text) → List (List Text)
segment_line header segment rest = segment ∷ rest
segment_line _ segment rest = rest

-- The lines behind each header, up to the next one.
unfoldable pub segments : List Text → List (List Text)
segments [] = []
segments (raw ∷ lines) = segment_line (boot_line raw) (before_header lines) (segments lines)

-- One run, and those behind it.
abbrev pub run_then : Result Run → Result (List Run) → Result (List Run)
run_then (err e) more = err e
run_then (ok run) (err e) = err e
run_then (ok run) (ok runs) = ok (run ∷ runs)

-- The runs, numbered from a first one on.
unfoldable pub runs_from : ℕ → List (List Text) → Result (List Run)
runs_from n [] = ok []
runs_from n (segment ∷ more) = run_then (read_run (opened n) segment) (runs_from (n + 1) more)
