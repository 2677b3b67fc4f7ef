-- ===== src/Renewal/Totals/Counts.antt =====
-- parse_renewal_log.py: how many rows the log has, by its lines.
use wireless_boot_entropy_ze.Base.{
  ℕ, suc, ◌+◌, ◌≡◌, refl, sym, ap, ◌∙◌, Option, none, some, List, [], ◌∷◌, arith, length,
  length-append,
}
use mathlib.Core.Path.{subst}
use wireless_boot_entropy_ze.Base.Int.{ℤ}
use wireless_boot_entropy_ze.Python.Result.{
  Result, ok, err, >>=-eq-ok, ok-injective, OkOrNumberError, OkOrNumberError->>=,
}
use wireless_boot_entropy_ze.Python.Text.{Text, text_eq, split_at, split_once}
use wireless_boot_entropy_ze.Renewal.Log.{
  fields, Row, Log, Line, meta_line, iter_line, warn_line, err_line, other_line, line_of, names_of,
  zip_row, with_defaults, add_meta, add_iter, add_line, inter_ms_of, parse_lines, parse_log,
  derive_row, derive_rows, add_derived_fields, empty_log,
}
use wireless_boot_entropy_ze.Renewal.Log.Fields.{zip_row-NumberError}

-- The lines that are rows: of the tag, and with one of the two numbers of parts.
abbrev pub weight_of : Option (List Text) → ℕ
weight_of none = 0
weight_of (some names) = 1

abbrev pub row_weight : Line → ℕ
row_weight (iter_line payload) = weight_of (names_of (length (split_at b',' payload)))
row_weight _ = 0

unfoldable pub rows_in : List Text → ℕ
rows_in [] = 0
rows_in (raw ∷ lines) = row_weight (line_of raw) + rows_in lines

-- The log has so many rows.
abbrev Counted : ℕ → Log → Type 0
Counted n s = length s.rows ≡ n

add_iter-Counted :
    (names : Option (List Text)) (payload : Text) (parts : List Text) (s : Log)
    → OkOrNumberError (Counted (length s.rows + weight_of names)) (add_iter names payload parts s)
add_iter-Counted none payload parts s = omega arith
add_iter-Counted (some names) payload parts s =
    OkOrNumberError->>= (λ r. Unit) (Counted (length s.rows + 1)) (zip_row names parts []) _
      (zip_row-NumberError names parts [])
      (λ row read. omega (arith, length-append s.rows (with_defaults fields row ∷ [])))

add_meta-Counted : (o : Option (Text × Text)) (s : Log) → Counted (length s.rows + 0) (add_meta o s)
add_meta-Counted none s = omega arith
add_meta-Counted (some (key, value)) s = omega arith

add_line-Counted :
    (line : Line) (s : Log)
    → OkOrNumberError (Counted (length s.rows + row_weight line)) (add_line line s)
unfolding add_line
add_line-Counted (meta_line payload) s = add_meta-Counted (split_once b',' payload) s
add_line-Counted (iter_line payload) s =
    add_iter-Counted (names_of (length (split_at b',' payload))) payload (split_at b',' payload) s
add_line-Counted (warn_line payload) s = omega arith
add_line-Counted (err_line payload) s = omega arith
add_line-Counted other_line s = omega arith

parse_lines-Counted :
    (lines : List Text) (s : Log)
    → OkOrNumberError (Counted (length s.rows + rows_in lines)) (parse_lines lines s)
unfolding parse_lines rows_in
parse_lines-Counted [] s = omega arith
parse_lines-Counted (raw ∷ lines) s =
    OkOrNumberError->>= (Counted (length s.rows + row_weight (line_of raw)))
      (Counted (length s.rows + rows_in (raw ∷ lines))) (add_line (line_of raw) s) _
      (add_line-Counted (line_of raw) s)
      (λ s₁ counted.
        subst (λ n. OkOrNumberError (Counted n) (parse_lines lines s₁)) (omega (arith, counted))
          (parse_lines-Counted lines s₁))

derive_rows-length :
    (inter_ms : ℤ) (rows : List Row) (items : List Row)
    → derive_rows inter_ms rows ≡ ok items
    → length items ≡ length rows
unfolding derive_rows
derive_rows-length inter_ms [] items h =
    let nothing : [] ≡ items = ok-injective h in ap length (sym nothing)
derive_rows-length inter_ms (row ∷ rows) items h =
    let (item, derives, after) = >>=-eq-ok (derive_row inter_ms row) _ h in
    let (rest, derives_rest, same) = >>=-eq-ok (derive_rows inter_ms rows) _ after in
    let whole : item ∷ rest ≡ items = ok-injective same in
    ap length (sym whole) ∙ ap suc (derive_rows-length inter_ms rows rest derives_rest)

pub OkOrNumberError-map :
    {A : Type 0} (P Q : A → Type 0) (r : Result A)
    → OkOrNumberError P r
    → ((a : A) → r ≡ ok a → P a → Q a)
    → OkOrNumberError Q r
OkOrNumberError-map P Q (ok a) h f = f a refl h
OkOrNumberError-map P Q (err e) h f = h

OkOrNumberError-ok :
    {A : Type 0} (P : A → Type 0) (r : Result A) (a : A) → OkOrNumberError P r → r ≡ ok a → P a
OkOrNumberError-ok P (ok b) a h same = subst P (ok-injective same) h
OkOrNumberError-ok P (err e) a h same = cc

pub parse_log-Counted :
    (lines : List Text) (s : Log) → parse_log lines ≡ ok s → length s.rows ≡ rows_in lines
unfolding parse_log add_derived_fields
parse_log-Counted lines s h =
    let (first, parses, after) = >>=-eq-ok (parse_lines lines empty_log) _ h in
    let (items, derives, same) = >>=-eq-ok (add_derived_fields first.meta first.rows) _ after in
    let (inter_ms, reads, derives_rows) =
      >>=-eq-ok (inter_ms_of first.meta) (λ n. derive_rows n first.rows) derives in
    let counted : length first.rows ≡ 0 + rows_in lines =
      OkOrNumberError-ok (Counted (0 + rows_in lines)) (parse_lines lines empty_log) first
        (parse_lines-Counted lines empty_log) parses in
    let whole : record first { rows = items } ≡ s = ok-injective same in
    ap (λ log. length log.rows) (sym whole)
    ∙ derive_rows-length inter_ms first.rows items derives_rows
    ∙ counted
    ∙ omega arith
