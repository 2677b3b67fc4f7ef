-- ===== src/Renewal/Log/Fields.antt =====
-- The rows that the parser makes have every field, so that only a number that does
-- not parse, or is too large to be divided, raises.
use wireless_boot_entropy_ze.Base.{
  ℕ, false, ◌==◌, ◌≡◌, refl, ◌∙◌, Bool-cases, Option-cases, inl, inr, Option, none, some, List, [],
  ◌∷◌, length, All, All-append, All-mono,
}
use wireless_boot_entropy_ze.Base.Int.{ℤ, pos, ◌+ℤ◌, ◌-ℤ◌}
use wireless_boot_entropy_ze.Python.Result.{
  Result, ◌>>=◌, OkOrNumberError, OkOrNumberError->>=, OkOrNumberError-OkOrValueError,
}
use wireless_boot_entropy_ze.Python.Division.{true_div, true_div-NumberError}
use wireless_boot_entropy_ze.Python.Dict.{
  lookup, insert, contains, set_default, get_or, lookup-insert, beq_refl,
}
use wireless_boot_entropy_ze.Python.Numbers.{parse_int, parse_int-ValueError}
use wireless_boot_entropy_ze.Python.Text.{Text, codes, text_eq, split_at, split_once}
use wireless_boot_entropy_ze.Renewal.Log.{
  fields, Row, Log, Line, meta_line, iter_line, warn_line, err_line, other_line, line_of, add_meta,
  names_of, zip_row, with_defaults, add_iter, add_line, parse_lines, empty_log, field, with_derived,
  derive_row, derive_rows, inter_ms_of, add_derived_fields, parse_log,
}

-- A row has a value for a key.
abbrev pub Has : Row → Text → Type 0
Has row key = (value : ℤ) × (lookup key row ≡ some value)

abbrev pub HasFields : Row → Type 0
HasFields row = All (Has row) fields

Has-insert :
    (key other : Text) (value : ℤ) (row : Row) → Has row key → Has (insert other value row) key
Has-insert key other value row (v, there) = elim (Bool-cases (text_eq.beq other key)) [
  | inl same ↦ (value, lookup-insert other key value row ∙ rw same refl)
  | inr apart ↦ (v, lookup-insert other key value row ∙ rw apart there)
]

Has-inserted : (key : Text) (value : ℤ) (row : Row) → Has (insert key value row) key
Has-inserted key value row = (value, lookup-insert key key value row ∙ rw (beq_refl key) refl)

Has-set_default :
    (key other : Text) (row : Row) → Has row key → Has (set_default other (pos 0) row) key
unfolding set_default contains
Has-set_default key other row h = elim (Bool-cases (contains other row)) [
  | inl there ↦ rw (set_default, there) h
  | inr missing ↦ rw (set_default, missing) (Has-insert key other (pos 0) row h)
]

Has-defaulted : (key : Text) (row : Row) → Has (set_default key (pos 0) row) key
unfolding set_default contains
Has-defaulted key row = elim (Option-cases (lookup key row)) [
  | inl missing ↦ rw (set_default, contains, missing) (Has-inserted key (pos 0) row)
  | inr (value, there) ↦ rw (set_default, contains, there) (value, there)
]

Has-with_defaults :
    (key : Text) (keys : List Text) (row : Row) → Has row key → Has (with_defaults keys row) key
unfolding with_defaults
Has-with_defaults key [] row h = h
Has-with_defaults key (other ∷ keys) row h =
    Has-with_defaults key keys (set_default other (pos 0) row) (Has-set_default key other row h)

All-with_defaults : (keys : List Text) (row : Row) → All (Has (with_defaults keys row)) keys
unfolding with_defaults
All-with_defaults [] row = tt
All-with_defaults (key ∷ keys) row = (
  Has-with_defaults key keys (set_default key (pos 0) row) (Has-defaulted key row),
  All-with_defaults keys (set_default key (pos 0) row),
)

pub parse_int-NumberError : (s : Text) → OkOrNumberError (λ n. Unit) (parse_int s)
parse_int-NumberError s =
    OkOrNumberError-OkOrValueError (λ n. Unit) (parse_int s) (parse_int-ValueError s)

pub zip_row-NumberError :
    (names parts : List Text) (row : Row) → OkOrNumberError (λ r. Unit) (zip_row names parts row)
unfolding zip_row
zip_row-NumberError [] parts row = tt
zip_row-NumberError (name ∷ names) [] row = tt
zip_row-NumberError (name ∷ names) (part ∷ parts) row =
    OkOrNumberError->>= (λ n. Unit) (λ r. Unit) (parse_int part) _ (parse_int-NumberError part)
      (λ value read. zip_row-NumberError names parts (insert name value row))

-- Every row of the log has every field.
abbrev pub RowsHaveFields : Log → Type 0
RowsHaveFields s = All HasFields s.rows

add_iter-RowsHaveFields :
    (names : Option (List Text)) (payload : Text) (parts : List Text) (s : Log)
    → RowsHaveFields s
    → OkOrNumberError RowsHaveFields (add_iter names payload parts s)
add_iter-RowsHaveFields none payload parts s h = h
add_iter-RowsHaveFields (some names) payload parts s h =
    OkOrNumberError->>= (λ r. Unit) RowsHaveFields (zip_row names parts []) _
      (zip_row-NumberError names parts [])
      (λ row read.
        All-append HasFields s.rows (with_defaults fields row ∷ []) h
          (All-with_defaults fields row, tt))

add_meta-RowsHaveFields :
    (o : Option (Text × Text)) (s : Log) → RowsHaveFields s → RowsHaveFields (add_meta o s)
add_meta-RowsHaveFields none s h = h
add_meta-RowsHaveFields (some (key, value)) s h = h

add_line-RowsHaveFields :
    (line : Line) (s : Log) → RowsHaveFields s → OkOrNumberError RowsHaveFields (add_line line s)
unfolding add_line
add_line-RowsHaveFields (meta_line payload) s h =
    add_meta-RowsHaveFields (split_once b',' payload) s h
add_line-RowsHaveFields (iter_line payload) s h =
    add_iter-RowsHaveFields (names_of (length (split_at b',' payload))) payload
      (split_at b',' payload) s h
add_line-RowsHaveFields (warn_line payload) s h = h
add_line-RowsHaveFields (err_line payload) s h = h
add_line-RowsHaveFields other_line s h = h

parse_lines-RowsHaveFields :
    (lines : List Text) (s : Log)
    → RowsHaveFields s
    → OkOrNumberError RowsHaveFields (parse_lines lines s)
unfolding parse_lines
parse_lines-RowsHaveFields [] s h = h
parse_lines-RowsHaveFields (raw ∷ lines) s h =
    OkOrNumberError->>= RowsHaveFields RowsHaveFields (add_line (line_of raw) s) _
      (add_line-RowsHaveFields (line_of raw) s h) (parse_lines-RowsHaveFields lines)

-- A field that is there is read without an exception.
pub with_field :
    {B : Type 0} (Q : B → Type 0) (key : Text) (row : Row) (next : ℤ → Result B)
    → Has row key
    → ((value : ℤ) → OkOrNumberError Q (next value))
    → OkOrNumberError Q (field key row >>= next)
unfolding field
with_field Q key row next (value, there) later = rw (field, there) (later value)

-- A derived row keeps the fields, and has the derived ones.
abbrev pub derived_fields : List Text
derived_fields =
    codes "rng_output_bytes"
    ∷ codes "supply_bytes"
    ∷ codes "pool_credit_delta_bits"
    ∷ codes "out_minus_supply_bytes"
    ∷ []

abbrev pub IsDerived : Row → Type 0
IsDerived item = HasFields item × All (Has item) derived_fields

All-insert :
    (keys : List Text) (other : Text) (value : ℤ) (row : Row)
    → All (Has row) keys
    → All (Has (insert other value row)) keys
All-insert keys other value row h =
    All-mono (Has row) (Has (insert other value row))
      (λ key there. Has-insert key other value row there) keys h

IsDerived-with_derived :
    (a b c d : ℤ) (row : Row) → HasFields row → IsDerived (with_derived a b c d row)
IsDerived-with_derived a b c d row h =
    let r₁ = insert (codes "rng_output_bytes") a row in
    let r₂ = insert (codes "supply_bytes") b r₁ in
    let r₃ = insert (codes "pool_credit_delta_bits") c r₂ in
    let in₂ : All (Has r₂) (codes "rng_output_bytes" ∷ codes "supply_bytes" ∷ []) = (
      Has-insert _ (codes "supply_bytes") b r₁ (Has-inserted (codes "rng_output_bytes") a row),
      (Has-inserted (codes "supply_bytes") b r₁, tt),
    ) in
    let (x, (y, u)) =
      All-insert (codes "rng_output_bytes" ∷ codes "supply_bytes" ∷ [])
        (codes "pool_credit_delta_bits") c r₂ in₂ in
    let (x₁, (y₁, (z₁, u₁))) =
      All-insert
        (codes "rng_output_bytes" ∷ codes "supply_bytes" ∷ codes "pool_credit_delta_bits" ∷ [])
        (codes "out_minus_supply_bytes") d r₃
        (x, (y, (Has-inserted (codes "pool_credit_delta_bits") c r₂, tt))) in
    (
      All-insert fields _ d r₃
          (All-insert fields _ c r₂ (All-insert fields _ b r₁ (All-insert fields _ a row h))),
      (x₁, (y₁, (z₁, (Has-inserted (codes "out_minus_supply_bytes") d r₃, tt)))),
    )

-- A division by a number other than 0 gives a number or raises OverflowError.
divides :
    (n : ℤ) (d : ℕ) (next : Result Row)
    → (d == 0) ≡ false
    → OkOrNumberError IsDerived next
    → OkOrNumberError IsDerived (true_div n d >>= λ quotient. next)
divides n d next positive later =
    OkOrNumberError->>= (λ u. Unit) IsDerived (true_div n d) _ (true_div-NumberError n d positive)
      (λ quotient divided. later)

pub derive_row-IsDerived :
    (inter_ms : ℤ) (row : Row) → HasFields row → OkOrNumberError IsDerived (derive_row inter_ms row)
unfolding derive_row
derive_row-IsDerived inter_ms row h =
    with_field IsDerived (codes "elapsed_us") row _ (h.1.1.0) (λ elapsed_us.
      divides elapsed_us 1000000 _ refl (
        divides inter_ms 1000 _ refl (
          with_field IsDerived (codes "rng_block_bytes") row _ (h.1.1.1.1.1.1.0) (λ block.
            with_field IsDerived (codes "rng_byte_bytes") row _ (h.1.1.1.1.1.1.1.1.0) (λ byte.
              with_field IsDerived (codes "local_hw_bytes") row _ (h.1.1.1.1.1.1.1.1.1.0) (λ local.
                with_field IsDerived (codes "external_bytes") row _ (h.1.1.1.1.1.1.1.1.1.1.0)
                  (λ external.
                    with_field IsDerived (codes "pool_credit_bits_post") row _
                      (h.1.1.1.1.1.1.1.1.1.1.1.1.1.1.1.1.0)
                      (λ post.
                        with_field IsDerived (codes "pool_credit_bits_pre") row _
                          (h.1.1.1.1.1.1.1.1.1.1.1.1.1.1.1.0)
                          (λ pre.
                            with_field IsDerived (codes "pool_debit_bytes") row _
                              (h.1.1.1.1.1.1.1.1.1.1.1.0)
                              (λ debit.
                                IsDerived-with_derived (block +ℤ byte) (local +ℤ external)
                                  (post -ℤ pre) (debit -ℤ (local +ℤ external)) row h))))))))))

derive_rows-IsDerived :
    (inter_ms : ℤ) (rows : List Row)
    → All HasFields rows
    → OkOrNumberError (All IsDerived) (derive_rows inter_ms rows)
unfolding derive_rows
derive_rows-IsDerived inter_ms [] h = tt
derive_rows-IsDerived inter_ms (row ∷ rows) (has, h) =
    OkOrNumberError->>= IsDerived (All IsDerived) (derive_row inter_ms row) _
      (derive_row-IsDerived inter_ms row has)
      (λ item derived.
        OkOrNumberError->>= (All IsDerived) (All IsDerived) (derive_rows inter_ms rows) _
          (derive_rows-IsDerived inter_ms rows h) (λ enriched all_derived. (derived, all_derived)))

abbrev pub LogIsDerived : Log → Type 0
LogIsDerived s = All IsDerived s.rows

-- Whatever the lines are, the parser gives a log of which every row has every field and every derived
-- field in integers, or raises ValueError or OverflowError; no row misses a field that is read of it.
pub parse_log-LogIsDerived : (lines : List Text) → OkOrNumberError LogIsDerived (parse_log lines)
unfolding parse_log add_derived_fields
parse_log-LogIsDerived lines =
    OkOrNumberError->>= RowsHaveFields LogIsDerived (parse_lines lines empty_log) _
      (parse_lines-RowsHaveFields lines empty_log tt)
      (λ s has.
        OkOrNumberError->>= (All IsDerived) LogIsDerived (add_derived_fields s.meta s.rows) _
          (OkOrNumberError->>= (λ n. Unit) (All IsDerived) (inter_ms_of s.meta) _
            (parse_int-NumberError (get_or (codes "inter_handshake_ms") (codes "0") s.meta))
            (λ inter_ms read. derive_rows-IsDerived inter_ms s.rows has))
          (λ rows derived. derived))
