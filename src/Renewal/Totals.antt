-- ===== src/Renewal/Totals.antt =====
-- parse_renewal_log.py: the counts and the totals of the summary. The mean, the median, the
-- deviation and the rates are `float`: whether they can be computed is a parameter of the ok rows.
-- The metadata and the texts that the summary repeats, and the credit of the first and the last row,
-- are left out.
pub mod Counts
pub mod Accounts
use wireless_boot_entropy_ze.Base.{
  ℕ, ◌+◌, ◌-◌, ◌≤◌, ◌≡◌, refl, sym, ap, ◌∙◌, Bool, true, false, Option, none, some, List, [], ◌∷◌,
  ◌++◌, arith, if◌then◌else◌, length, length-append, All,
}
use wireless_boot_entropy_ze.Base.Int.{ℤ, pos, int_beq, ◌+ℤ◌, ◌-ℤ◌}
use wireless_boot_entropy_ze.Python.Result.{Result, ok, err, value_error, ◌>>=◌}
use wireless_boot_entropy_ze.Python.Division.{true_div}
use wireless_boot_entropy_ze.Slices.Plan.{times}
use wireless_boot_entropy_ze.Python.Dict.{Dict, get_or}
use wireless_boot_entropy_ze.Python.Numbers.{parse_int, parse_int-ValueError}
use wireless_boot_entropy_ze.Python.Text.{Text, codes, split_at}
use wireless_boot_entropy_ze.Renewal.Log.{
  fields, Row, Log, Line, meta_line, iter_line, warn_line, err_line, other_line, line_of, names_of,
  add_iter, add_line, field, inter_ms_of, parse_lines, parse_log, derive_row, derive_rows,
  add_derived_fields, empty_log,
}
use wireless_boot_entropy_ze.Renewal.Log.Fields.{
  IsDerived, LogIsDerived, with_field, parse_log-LogIsDerived,
}

pub record Totals : Type 0 where
  pub rng_output_bytes_total : ℤ
  pub pool_debit_bytes_total : ℤ
  pub local_hw_bytes_total : ℤ
  pub external_bytes_total : ℤ
  pub supply_bytes_total : ℤ
  pub accepted_network_bytes_total : ℤ
  pub rng_errors_total : ℤ

pub record Summary : Type 0 where
  pub iterations_logged : ℕ
  pub iterations_ok : ℕ
  pub iterations_failed : ℕ
  -- there where an iteration is ok
  pub totals : Option Totals

-- `[row for row in rows if row["ret"] == 0]`
unfoldable pub ok_rows : List Row → Result (List Row)
unfolding field
ok_rows [] = ok []
ok_rows (row ∷ rows) = do
  ret ← field (codes "ret") row
  rest ← ok_rows rows
  ok (if int_beq ret (pos 0) then row ∷ rest else rest)

-- `sum(row[key] for row in rows)`
unfoldable pub total : Text → List Row → Result ℤ
unfolding field
total key [] = ok (pos 0)
total key (row ∷ rows) = do value ← field key row; rest ← total key rows; ok (value +ℤ rest)

abbrev pub summary_of : ℕ → ℕ → Option Totals → Summary
summary_of logged fine totals = record {
  iterations_logged = logged;
  iterations_ok = fine;
  iterations_failed = logged - fine;
  totals = totals;
}

module _ (floats : ℤ → List Row → Result (Unit {0})) where
  unfoldable pub totals_of : ℤ → List Row → Result (Option Totals)
  unfolding total true_div
  totals_of inter_ms [] = ok none
  totals_of inter_ms (row ∷ rows) = do
    elapsed_us ← total (codes "elapsed_us") (row ∷ rows)
    elapsed_s_active ← true_div elapsed_us 1000000
    waited_s ← true_div (times inter_ms (length (row ∷ rows))) 1000
    rng_bytes ← total (codes "rng_output_bytes") (row ∷ rows)
    pool_debit ← total (codes "pool_debit_bytes") (row ∷ rows)
    local_hw ← total (codes "local_hw_bytes") (row ∷ rows)
    external ← total (codes "external_bytes") (row ∷ rows)
    accepted_net ← total (codes "accepted_net_bytes") (row ∷ rows)
    rng_errors ← total (codes "rng_errors") (row ∷ rows)
    rates ← floats inter_ms (row ∷ rows)
    ok (
        some (record {
          rng_output_bytes_total = rng_bytes;
          pool_debit_bytes_total = pool_debit;
          local_hw_bytes_total = local_hw;
          external_bytes_total = external;
          supply_bytes_total = local_hw +ℤ external;
          accepted_network_bytes_total = accepted_net;
          rng_errors_total = rng_errors;
        }))

  unfoldable pub summarize : Dict Text Text → List Row → Result Summary
  unfolding ok_rows totals_of get_or
  summarize meta rows = do
    fine ← ok_rows rows
    inter_ms ← inter_ms_of meta
    totals ← totals_of inter_ms fine
    ok (summary_of (length rows) (length fine) totals)

  -- `main`, but for its files: the summary of a log.
  unfoldable pub report : List Text → Result Summary
  unfolding parse_log summarize
  report lines = do s ← parse_log lines; summarize s.meta s.rows
