-- ===== src/Teb/BootLog/Runs.antt =====
-- parse_teb_boot_log.py: the runs of a boot log. A run is a dictionary of values of several types; no
-- open run is the empty dictionary of the source.
pub mod Reading
pub mod Segments
use wireless_boot_entropy_ze.Base.{
  ℕ, ◌+◌, Option, none, some, List, [], ◌∷◌, ◌++◌, Bool, list_beq, nat_eq, ◌==◌, if◌then◌else◌,
  length,
}
use wireless_boot_entropy_ze.Base.Int.{ℤ, pos}
use wireless_boot_entropy_ze.Python.Result.{Result, ok, err, ◌>>=◌}
use wireless_boot_entropy_ze.Python.Division.{true_div}
use wireless_boot_entropy_ze.Python.Dict.{Dict, lookup, insert, contains, set_default}
use wireless_boot_entropy_ze.Python.Numbers.{parse_int_base0}
use wireless_boot_entropy_ze.Python.Text.{Text, codes, text_eq}
use wireless_boot_entropy_ze.Teb.BootLog.{
  BootLine, header, noise, entry, ipv4_line, result_line, error_line, profile_line, boot_line,
}

-- A text of the log, a number, or a quotient of two numbers.
pub data Value : Type 0 where
  text : Text → Value
  number : ℤ → Value
  quotient : ℤ → ℕ → Value

abbrev pub Run : Type 0
Run = Dict Text Value

abbrev ok_or_none : Result ℤ → Option ℤ
ok_or_none (ok n) = some n
ok_or_none (err e) = none

-- `int(str(value), 0)`: a quotient is written with a point or an exponent, which is no integer.
unfoldable pub parse_int : Option Value → Option ℤ
unfolding parse_int_base0
parse_int none = none
parse_int (some (text s)) = ok_or_none (parse_int_base0 s)
parse_int (some (number n)) = some n
parse_int (some (quotient a b)) = none

abbrev pub pq_profile : Text
pq_profile = codes "pq-mlkem512-mldsa44"

abbrev pub ed25519_capsule_len : ℤ
ed25519_capsule_len = pos 160

abbrev pub pq_capsule_len : ℤ
pq_capsule_len = pos 3252

-- `profile == "pq-mlkem512-mldsa44"`, where only a text can be it
abbrev pub capsule_len : Option Value → ℤ
capsule_len (some (text s)) = if list_beq s pq_profile then pq_capsule_len else ed25519_capsule_len
capsule_len _ = ed25519_capsule_len

-- `run[key] = n / d`, where there is a number
abbrev pub put_quotient : Text → Option ℤ → ℕ → Run → Result Run
put_quotient key none d run = ok run
put_quotient key (some n) d run = do divided ← true_div n d; ok (insert key (quotient n d) run)

abbrev pub with_sizes : Run → Run
with_sizes run = set_default (codes "application_datagrams") (number (pos 2)) (
    set_default (codes "capsule_rx_bytes") (number (capsule_len (lookup (codes "profile") run)))
      (set_default (codes "hello_tx_bytes") (number (pos 88)) run))

abbrev pub with_result : Run → Run
with_result run =
    if contains (codes "result") run
    then run
    else insert (codes "result") (text (codes "incomplete")) run

abbrev pub with_ones : Run → Result Run
with_ones run =
    put_quotient (codes "sram_one_rate") (parse_int (lookup (codes "sram_ones") run)) 32768 run

abbrev pub with_transitions : Run → Result Run
with_transitions run =
    put_quotient (codes "sram_transition_rate") (parse_int (lookup (codes "sram_transitions") run))
      32767 run

abbrev pub with_timing : Run → Result Run
with_timing run =
    put_quotient (codes "timing_mean_delta") (parse_int (lookup (codes "timing_sum_delta") run)) 512
      run

unfoldable pub finalize_run : Run → Result Run
unfolding lookup insert contains set_default parse_int true_div
finalize_run run = do
  rated ← with_ones (with_result (with_sizes run))
  counted ← with_transitions rated
  with_timing counted

-- `{"run": n}`
abbrev pub opened : ℕ → Run
opened n = (codes "run", number (pos n)) ∷ []

-- `runs` and `current`
pub record Parse : Type 0 where
  pub runs : List Run
  pub current : Option Run

-- `runs.append(finalize_run(current))`
abbrev pub append_run : List Run → Result Run → Result (List Run)
append_run runs (err e) = err e
append_run runs (ok run) = ok (runs ++ run ∷ [])

abbrev pub closed_runs : List Run → Option Run → Result (List Run)
closed_runs runs none = ok runs
closed_runs runs (some run) = append_run runs (finalize_run run)

abbrev pub reopened : List Run → Parse
reopened runs = record { runs = runs; current = some (opened (length runs + 1)) }

abbrev pub closed : List Run → Parse
closed runs = record { runs = runs; current = none }

abbrev pub still_open : List Run → Run → Parse
still_open runs run = record { runs = runs; current = some run }

-- A line in an open run.
abbrev pub go_on : List Run → Run → BootLine → Result Parse
go_on runs run (entry key value) = ok (still_open runs (insert key (text value) run))
go_on runs run (result_line value) = do
  appended ← append_run runs (finalize_run (insert (codes "result") (text value) run))
  ok (closed appended)
go_on runs run (error_line value) = ok (
    still_open runs
      (insert (codes "result") (text (codes "failed")) (insert (codes "error") (text value) run)))
go_on runs run (ipv4_line addr gw) = ok (
    still_open runs
      (insert (codes "ipv4_gateway") (text gw) (insert (codes "ipv4_addr") (text addr) run)))
go_on runs run (profile_line value) =
    ok (still_open runs (insert (codes "profile") (text value) run))
go_on runs run header = do appended ← append_run runs (finalize_run run); ok (reopened appended)
go_on runs run noise = ok (still_open runs run)

abbrev pub parse_line : List Run → Option Run → BootLine → Result Parse
parse_line runs (some run) line = go_on runs run line
parse_line runs none header = ok (reopened runs)
parse_line runs none _ = ok (closed runs)

unfoldable pub parse_lines : List Text → Parse → Result Parse
unfolding boot_line insert finalize_run
parse_lines [] s = ok s
parse_lines (raw ∷ lines) s = do
  next ← parse_line s.runs s.current (boot_line raw)
  parse_lines lines next

abbrev pub finished : Parse → Result (List Run)
finished s = closed_runs s.runs s.current

-- The lines of the log.
unfoldable pub parse_log : List Text → Result (List Run)
unfolding parse_lines
parse_log lines = do s ← parse_lines lines (closed []); finished s
