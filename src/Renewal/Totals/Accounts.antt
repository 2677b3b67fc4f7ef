-- ===== src/Renewal/Totals/Accounts.antt =====
-- parse_renewal_log.py: the counts and the totals of the summary, and that no field is missing for it.
use wireless_boot_entropy_ze.Base.{
  ℕ, ◌+◌, ◌≤◌, ◌≡◌, refl, Bool, true, false, Option, none, some, List, [], ◌∷◌, arith, ◌==◌,
  if◌then◌else◌, length, All, All-mono,
}
use mathlib.Core.Path.{subst}
use wireless_boot_entropy_ze.Base.Int.{ℤ, pos, int_beq, ◌+ℤ◌}
use wireless_boot_entropy_ze.Python.Result.{Result, ok, ◌>>=◌, OkOrNumberError, OkOrNumberError->>=}
use wireless_boot_entropy_ze.Python.Dict.{Dict, get_or}
use wireless_boot_entropy_ze.Python.Division.{true_div, true_div-NumberError}
use wireless_boot_entropy_ze.Slices.Plan.{times}
use wireless_boot_entropy_ze.Python.Text.{Text, codes, text_eq}
use wireless_boot_entropy_ze.Renewal.Log.{Row, Log, field, inter_ms_of, parse_log}
use wireless_boot_entropy_ze.Renewal.Log.Fields.{
  Has, IsDerived, LogIsDerived, parse_int-NumberError, parse_log-LogIsDerived,
}
use wireless_boot_entropy_ze.Renewal.Totals.Counts.{rows_in, OkOrNumberError-map, parse_log-Counted}
use wireless_boot_entropy_ze.Renewal.Totals.{
  Totals, Summary, ok_rows, total, totals_of, summarize, report,
}

-- The integer of a row under a key.
abbrev pub number_of : Text → Row → ℤ
number_of key row = get_or key (pos 0) row

-- The rows whose result is 0, and a sum over rows.
abbrev pub fine_of : List Row → List Row
fine_of [] = []
fine_of (row ∷ rows) =
    if int_beq (number_of (codes "ret") row) (pos 0) then row ∷ fine_of rows else fine_of rows

abbrev pub sum_of : Text → List Row → ℤ
sum_of key [] = pos 0
sum_of key (row ∷ rows) = number_of key row +ℤ sum_of key rows

field-number_of : (key : Text) (row : Row) → Has row key → field key row ≡ ok (number_of key row)
unfolding field get_or
field-number_of key row (value, there) = rw (field, get_or, there) refl

ok_rows-fine_of : (rows : List Row) → All IsDerived rows → ok_rows rows ≡ ok (fine_of rows)
unfolding ok_rows
ok_rows-fine_of [] h = refl
ok_rows-fine_of (row ∷ rows) (is_derived, h) =
    rw (field-number_of (codes "ret") row is_derived.0.1.0, ok_rows-fine_of rows h) refl

total-sum_of :
    (key : Text) (rows : List Row)
    → All (λ row. Has row key) rows
    → total key rows ≡ ok (sum_of key rows)
unfolding total
total-sum_of key [] h = refl
total-sum_of key (row ∷ rows) (has, h) =
    rw (field-number_of key row has, total-sum_of key rows h) refl

-- The rows with a result of 0 are some of the rows.
record Selects (rows fine : List Row) : Type 0 where
  derived : All IsDerived fine
  fewer : length fine ≤ length rows

Selects-if :
    (b : Bool) (row : Row) (rows rest : List Row)
    → IsDerived row
    → Selects rows rest
    → Selects (row ∷ rows) (if b then row ∷ rest else rest)
Selects-if true row rows rest is_derived h = record {
  derived = (is_derived, h.derived);
  fewer = omega (arith, h.fewer);
}
Selects-if false row rows rest is_derived h = record {
  derived = h.derived;
  fewer = omega (arith, h.fewer);
}

fine_of-Selects : (rows : List Row) → All IsDerived rows → Selects rows (fine_of rows)
fine_of-Selects [] h = record { derived = tt; fewer = omega arith }
fine_of-Selects (row ∷ rows) (is_derived, h) =
    Selects-if (int_beq (number_of (codes "ret") row) (pos 0)) row rows (fine_of rows) is_derived
      (fine_of-Selects rows h)

-- A sum over rows that have the field.
with_total :
    {B : Type 0} (Q : B → Type 0) (key : Text) (rows : List Row) (next : ℤ → Result B)
    → All (λ row. Has row key) rows
    → OkOrNumberError Q (next (sum_of key rows))
    → OkOrNumberError Q (total key rows >>= next)
with_total Q key rows next h later = rw (total-sum_of key rows h) later

with_quotient :
    {B : Type 0} (Q : B → Type 0) (n : ℤ) (d : ℕ) (next : Result B)
    → (d == 0) ≡ false
    → OkOrNumberError Q next
    → OkOrNumberError Q (true_div n d >>= λ quotient. next)
with_quotient Q n d next positive later =
    OkOrNumberError->>= (λ u. Unit) Q (true_div n d) _ (true_div-NumberError n d positive)
      (λ quotient divided. later)

-- The totals of rows.
pub record IsTotals (rows : List Row) (t : Totals) : Type 0 where
  pub rng_output : t.rng_output_bytes_total ≡ sum_of (codes "rng_output_bytes") rows
  pub pool_debit : t.pool_debit_bytes_total ≡ sum_of (codes "pool_debit_bytes") rows
  pub local_hw : t.local_hw_bytes_total ≡ sum_of (codes "local_hw_bytes") rows
  pub external : t.external_bytes_total ≡ sum_of (codes "external_bytes") rows
  pub supply :
      t.supply_bytes_total
      ≡ sum_of (codes "local_hw_bytes") rows +ℤ sum_of (codes "external_bytes") rows
  pub accepted_network : t.accepted_network_bytes_total ≡ sum_of (codes "accepted_net_bytes") rows
  pub rng_errors : t.rng_errors_total ≡ sum_of (codes "rng_errors") rows

-- Totals are there exactly where a row is.
abbrev pub TotalsOf : List Row → Option Totals → Type 0
TotalsOf [] none = Unit
TotalsOf [] (some totals) = ⊥
TotalsOf (row ∷ rows) none = ⊥
TotalsOf (row ∷ rows) (some totals) = IsTotals (row ∷ rows) totals

-- The counts and the totals of a summary, by the rows of the log and their number.
pub record IsAccount (logged : ℕ) (rows : List Row) (summary : Summary) : Type 0 where
  pub all_logged : summary.iterations_logged ≡ logged
  pub fine : summary.iterations_ok ≡ length (fine_of rows)
  pub added_up : summary.iterations_ok + summary.iterations_failed ≡ logged
  pub totals_are : TotalsOf (fine_of rows) summary.totals

-- The log that was parsed, and the account of its rows.
abbrev pub Reported : List Text → Summary → Type 0
Reported lines summary =
    (s : Log) × (parse_log lines ≡ ok s) × IsAccount (rows_in lines) s.rows summary

module _ (floats : ℤ → List Row → Result (Unit {0}))
    (floats-NumberError : (inter_ms : ℤ) (rows : List Row)
      → OkOrNumberError (λ u. Unit) (floats inter_ms rows)) where
  totals_of-TotalsOf :
      (inter_ms : ℤ) (rows : List Row)
      → All IsDerived rows
      → OkOrNumberError (TotalsOf rows) (totals_of floats inter_ms rows)
  unfolding totals_of
  totals_of-TotalsOf inter_ms [] h = tt
  totals_of-TotalsOf inter_ms (row ∷ rows) h =
      let all = row ∷ rows in
      let Q = TotalsOf all in
      let each = λ (key : Text) (there : (r : Row) → IsDerived r → Has r key).
        All-mono IsDerived (λ r. Has r key) there all h in
      with_total Q (codes "elapsed_us") all _ (each (codes "elapsed_us") (λ r d. d.0.1.1.0)) (
        with_quotient Q (sum_of (codes "elapsed_us") all) 1000000 _ refl (
          with_quotient Q (times inter_ms (length all)) 1000 _ refl (
            with_total Q (codes "rng_output_bytes") all _
              (each (codes "rng_output_bytes") (λ r d. d.1.0))
              (with_total Q (codes "pool_debit_bytes") all _
                (each (codes "pool_debit_bytes") (λ r d. d.0.1.1.1.1.1.1.1.1.1.1.1.0))
                (with_total Q (codes "local_hw_bytes") all _
                  (each (codes "local_hw_bytes") (λ r d. d.0.1.1.1.1.1.1.1.1.1.0))
                  (with_total Q (codes "external_bytes") all _
                    (each (codes "external_bytes") (λ r d. d.0.1.1.1.1.1.1.1.1.1.1.0))
                    (with_total Q (codes "accepted_net_bytes") all _
                      (each (codes "accepted_net_bytes") (λ r d. d.0.1.1.1.1.0))
                      (with_total Q (codes "rng_errors") all _
                        (each (codes "rng_errors")
                          (λ r d. d.0.1.1.1.1.1.1.1.1.1.1.1.1.1.1.1.1.1.1.1.0))
                        (OkOrNumberError->>= (λ u. Unit) Q (floats inter_ms all) _
                          (floats-NumberError inter_ms all)
                          (λ rates computed. record {
                            rng_output = refl;
                            pool_debit = refl;
                            local_hw = refl;
                            external = refl;
                            supply = refl;
                            accepted_network = refl;
                            rng_errors = refl;
                          }))))))))))

  summarize-IsAccount :
      (meta : Dict Text Text) (rows : List Row)
      → All IsDerived rows
      → OkOrNumberError (IsAccount (length rows) rows) (summarize floats meta rows)
  unfolding summarize
  summarize-IsAccount meta rows h =
      let selects = fine_of-Selects rows h in
      rw (ok_rows-fine_of rows h) (
        OkOrNumberError->>= (λ n. Unit) (IsAccount (length rows) rows) (inter_ms_of meta) _
          (parse_int-NumberError (get_or (codes "inter_handshake_ms") (codes "0") meta))
          (λ inter_ms read.
            OkOrNumberError->>= (TotalsOf (fine_of rows)) (IsAccount (length rows) rows)
              (totals_of floats inter_ms (fine_of rows)) _
              (totals_of-TotalsOf inter_ms (fine_of rows) selects.derived)
              (λ totals there. record {
                all_logged = refl;
                fine = refl;
                added_up = omega (arith, selects.fewer);
                totals_are = there;
              })))

  -- Where the numbers in floating point of the summary can be computed or raise ValueError or
  -- OverflowError, the summary of any log is made, or one of the two is raised: no field is missing. It
  -- logs as many iterations as the log has lines of the tag with one of the two numbers of parts; those
  -- with a result of 0 are ok, and the others failed; and where one is ok, the totals are the sums over
  -- the rows that are ok.
  pub report-IsAccount :
      (lines : List Text) → OkOrNumberError (Reported lines) (report floats lines)
  unfolding report
  report-IsAccount lines =
      OkOrNumberError->>=
        (λ s. (parse_log lines ≡ ok s) × LogIsDerived s × (length s.rows ≡ rows_in lines))
        (Reported lines) (parse_log lines) _
        (OkOrNumberError-map LogIsDerived
          (λ s. (parse_log lines ≡ ok s) × LogIsDerived s × (length s.rows ≡ rows_in lines))
          (parse_log lines) (parse_log-LogIsDerived lines)
          (λ s same derived. (same, derived, parse_log-Counted lines s same)))
        (λ s (parsed, derived, counted).
          OkOrNumberError-map (IsAccount (length s.rows) s.rows) (Reported lines)
            (summarize floats s.meta s.rows) (summarize-IsAccount s.meta s.rows derived)
            (λ summary made account.
              (s, parsed, subst (λ n. IsAccount n s.rows summary) counted account)))
