-- ===== src/Renewal/Log.antt =====
-- parse_renewal_log.py: the parser, over the lines of the log. The entries in seconds, which are
-- `float`, are left out of the derived fields, but not the divisions that raise OverflowError.
pub mod Fields
use wireless_boot_entropy_ze.Base.{
  ℕ, Option, none, some, List, [], ◌∷◌, ◌++◌, Bool, ◌==◌, if◌then◌else◌, length,
}
use wireless_boot_entropy_ze.Base.Int.{ℤ, pos, ◌+ℤ◌, ◌-ℤ◌}
use wireless_boot_entropy_ze.Python.Result.{Result, ok, err, key_error, ◌>>=◌}
use wireless_boot_entropy_ze.Python.Division.{true_div}
use wireless_boot_entropy_ze.Python.Dict.{Dict, lookup, insert, get_or, set_default}
use wireless_boot_entropy_ze.Python.Numbers.{parse_int}
use wireless_boot_entropy_ze.Python.Text.{
  Text, codes, text_eq, strip, after_prefix, split_once, split_at,
}

abbrev pub base_fields : List Text
base_fields =
    codes "iter"
    ∷ codes "ret"
    ∷ codes "elapsed_us"
    ∷ codes "response_bytes"
    ∷ codes "accepted_net_bytes"
    ∷ codes "rng_block_calls"
    ∷ codes "rng_block_bytes"
    ∷ codes "rng_byte_calls"
    ∷ codes "rng_byte_bytes"
    ∷ codes "local_hw_bytes"
    ∷ codes "external_bytes"
    ∷ codes "pool_debit_bytes"
    ∷ codes "thread_get_bytes"
    ∷ codes "isr_get_bytes"
    ∷ codes "fast_refill_bytes"
    ∷ codes "pool_credit_bits_pre"
    ∷ codes "pool_credit_bits_post"
    ∷ []

abbrev pub extra_fields_v2 : List Text
extra_fields_v2 =
    codes "rng_block_cycles"
    ∷ codes "rng_byte_cycles"
    ∷ codes "rng_errors"
    ∷ codes "pool_timestamp_us_pre"
    ∷ codes "pool_timestamp_us_post"
    ∷ []

abbrev pub fields : List Text
fields = base_fields ++ extra_fields_v2

abbrev pub Row : Type 0
Row = Dict Text ℤ

-- The variables of `parse_log`.
pub record Log : Type 0 where
  pub meta : Dict Text Text
  pub rows : List Row
  pub warnings : List Text
  pub errors : List Text

-- What a line is, with the text behind its tag.
pub data Line : Type 0 where
  meta_line iter_line warn_line err_line : Text → Line
  other_line : Line

abbrev pub tagged : Option Text → (Text → Line) → Line → Line
tagged (some payload) here next = here payload
tagged none here next = next

unfoldable pub line_of : Text → Line
unfolding strip after_prefix
line_of raw =
    let line = strip raw in
    tagged (after_prefix (codes "[RENEWAL_META] ") line) meta_line (
      tagged (after_prefix (codes "[RENEWAL_ITER] ") line) iter_line (
        tagged (after_prefix (codes "[RENEWAL_WARN] ") line) warn_line
          (tagged (after_prefix (codes "[RENEWAL_ERR] ") line) err_line other_line)))

-- `if "," in payload`
abbrev pub add_meta : Option (Text × Text) → Log → Log
add_meta none s = s
add_meta (some (key, value)) s = record s { meta = insert key value s.meta }

-- The field names of a row with as many parts, or none.
abbrev pub names_of : ℕ → Option (List Text)
names_of n =
    if n == length base_fields
    then some base_fields
    else if n == length fields
    then some fields
    else none

-- `{key: int(value) for key, value in zip(field_names, parts)}`
unfoldable pub zip_row : List Text → List Text → Row → Result Row
unfolding insert
zip_row (name ∷ names) (part ∷ parts) row = do
  value ← parse_int part
  zip_row names parts (insert name value row)
zip_row _ _ row = ok row

-- `for key in FIELDS: row.setdefault(key, 0)`
unfoldable pub with_defaults : List Text → Row → Row
unfolding set_default
with_defaults [] row = row
with_defaults (key ∷ keys) row = with_defaults keys (set_default key (pos 0) row)

abbrev pub add_row : Log → Row → Log
add_row s row = record s { rows = s.rows ++ with_defaults fields row ∷ [] }

abbrev pub add_iter : Option (List Text) → Text → List Text → Log → Result Log
add_iter none payload parts s =
    ok (record s { warnings = s.warnings ++ (codes "malformed_iter_row:" ++ payload) ∷ [] })
add_iter (some names) payload parts s = do row ← zip_row names parts []; ok (add_row s row)

unfoldable pub add_line : Line → Log → Result Log
unfolding split_at split_once zip_row with_defaults
add_line (meta_line payload) s = ok (add_meta (split_once b',' payload) s)
add_line (iter_line payload) s =
    let parts = split_at b',' payload in add_iter (names_of (length parts)) payload parts s
add_line (warn_line payload) s = ok (record s { warnings = s.warnings ++ payload ∷ [] })
add_line (err_line payload) s = ok (record s { errors = s.errors ++ payload ∷ [] })
add_line other_line s = ok s

unfoldable pub parse_lines : List Text → Log → Result Log
unfolding line_of add_line
parse_lines [] s = ok s
parse_lines (raw ∷ lines) s = do s₁ ← add_line (line_of raw) s; parse_lines lines s₁

abbrev pub empty_log : Log
empty_log = record { meta = []; rows = []; warnings = []; errors = [] }

-- `row[key]`
abbrev pub or_key_error {ℓ} : {A : Type ℓ} → Option A → Result A
or_key_error none = err key_error
or_key_error (some a) = ok a

unfoldable pub field : Text → Row → Result ℤ
unfolding lookup
field key row = or_key_error (lookup key row)

abbrev pub with_derived : ℤ → ℤ → ℤ → ℤ → Row → Row
with_derived rng_output_bytes supply_bytes pool_credit_delta_bits out_minus_supply_bytes row =
    insert (codes "out_minus_supply_bytes") out_minus_supply_bytes (
      insert (codes "pool_credit_delta_bits") pool_credit_delta_bits (
        insert (codes "supply_bytes") supply_bytes
          (insert (codes "rng_output_bytes") rng_output_bytes row)))

-- One round of `add_derived_fields`; the first argument is `inter_ms`.
unfoldable pub derive_row : ℤ → Row → Result Row
unfolding field insert true_div
derive_row inter_ms row = do
  elapsed_us ← field (codes "elapsed_us") row
  active_s ← true_div elapsed_us 1000000
  wall_s ← true_div inter_ms 1000
  rng_block_bytes ← field (codes "rng_block_bytes") row
  rng_byte_bytes ← field (codes "rng_byte_bytes") row
  local_hw_bytes ← field (codes "local_hw_bytes") row
  external_bytes ← field (codes "external_bytes") row
  pool_credit_bits_post ← field (codes "pool_credit_bits_post") row
  pool_credit_bits_pre ← field (codes "pool_credit_bits_pre") row
  pool_debit_bytes ← field (codes "pool_debit_bytes") row
  ok (
      with_derived (rng_block_bytes +ℤ rng_byte_bytes) (local_hw_bytes +ℤ external_bytes)
        (pool_credit_bits_post -ℤ pool_credit_bits_pre)
        (pool_debit_bytes -ℤ (local_hw_bytes +ℤ external_bytes)) row)

unfoldable pub derive_rows : ℤ → List Row → Result (List Row)
unfolding derive_row
derive_rows inter_ms [] = ok []
derive_rows inter_ms (row ∷ rows) = do
  item ← derive_row inter_ms row
  enriched ← derive_rows inter_ms rows
  ok (item ∷ enriched)

-- `int(meta.get("inter_handshake_ms", "0"))`
abbrev pub inter_ms_of : Dict Text Text → Result ℤ
inter_ms_of meta = parse_int (get_or (codes "inter_handshake_ms") (codes "0") meta)

unfoldable pub add_derived_fields : Dict Text Text → List Row → Result (List Row)
unfolding derive_rows get_or
add_derived_fields meta rows = do inter_ms ← inter_ms_of meta; derive_rows inter_ms rows

unfoldable pub parse_log : List Text → Result Log
unfolding parse_lines add_derived_fields
parse_log lines = do
  s ← parse_lines lines empty_log
  rows ← add_derived_fields s.meta s.rows
  ok (record s { rows = rows })
