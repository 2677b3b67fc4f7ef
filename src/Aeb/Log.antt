-- ===== src/Aeb/Log.antt =====
-- parse_aeb_log.py: the rows and the raw windows of a serial log, and the losses and ratios that the
-- summary takes from the rows.
pub mod Pairs
pub mod Noise
use wireless_boot_entropy_ze.Base.{
  ℕ, ◌+◌, ◌*◌, Bool, true, false, ◌==◌, Option, none, some, List, [], ◌∷◌, ◌++◌, if◌then◌else◌,
}
use wireless_boot_entropy_ze.Base.Int.{ℤ, pos, int_eq, ltb_ℤ, ◌-ℤ◌, ◌+ℤ◌}
use wireless_boot_entropy_ze.Python.Result.{Result, ok, err, key_error, ◌>>=◌}
use wireless_boot_entropy_ze.Python.Dict.{Dict, lookup, insert, get_or, keys}
use wireless_boot_entropy_ze.Python.Hex.{from_hex}
use wireless_boot_entropy_ze.Python.Numbers.{parse_int}
use wireless_boot_entropy_ze.Python.Struct.{Bytes}
use wireless_boot_entropy_ze.Python.Text.{
  Text, codes, text_eq, strip, split, split_once, drop_while_end,
}
use wireless_boot_entropy_ze.Aeb.ResultLine.{Fields}
use wireless_boot_entropy_ze.Capture.Search.{find_after}

-- One token of a line: the commas at the end of its value are dropped.
abbrev pub add_pair : Option (Text × Text) → Fields → Fields
add_pair none fields = fields
add_pair (some (key, value)) fields = insert key (drop_while_end (λ c. c == b',') value) fields

abbrev pub add_tokens : List Text → Fields → Fields
add_tokens [] fields = fields
add_tokens (token ∷ tokens) fields = add_tokens tokens (add_pair (split_once b'=' token) fields)

unfoldable pub parse_kv_line : Text → Fields
unfolding strip split split_once drop_while_end insert
parse_kv_line line = add_tokens (split (strip line)) []

-- `row[key]`
unfoldable pub value_of : Text → Fields → Result Text
unfolding lookup
value_of key row = elim (lookup key row) [ none ↦ err key_error | some value ↦ ok value ]

-- `try: int(row[key])`
unfoldable pub int_of : Text → Fields → Result ℤ
unfolding value_of parse_int
int_of key row = do value ← value_of key row; parse_int value

abbrev pub keep_ok {ℓ} : {A : Type ℓ} → Result A → List A → List A
keep_ok (ok a) rest = a ∷ rest
keep_ok (err e) rest = rest

-- The numbers of the rows that have one: the others are passed over.
unfoldable pub numeric : List Fields → Text → List ℤ
unfolding int_of
numeric [] key = []
numeric (row ∷ rows) key = keep_ok (int_of key row) (numeric rows key)

-- `raw_chunks`: for each trial, the texts by their offsets
abbrev pub Chunks : Type 0
Chunks = Dict ℤ (Dict ℤ Text)

pub record LogParse : Type 0 where
  pub rows : List Fields
  pub raw_chunks : Chunks

-- What a line of the log is: the first tag that stands in it, and the text behind it.
pub data LogLine : Type 0 where
  result_line chunk_line : Text → LogLine
  noise : LogLine

abbrev pub or_chunk : Option Text → LogLine
or_chunk none = noise
or_chunk (some payload) = chunk_line payload

abbrev pub or_result : Option Text → LogLine → LogLine
or_result none next = next
or_result (some payload) next = result_line payload

unfoldable pub log_line : Text → LogLine
unfolding find_after
log_line line =
    or_result (find_after (codes "[AEB_RESULT]") line)
      (or_chunk (find_after (codes "[AEB_RAW_HEX_CHUNK]") line))

-- The trial, the offset and the text of a chunk line.
unfoldable pub chunk_of : Fields → Result (ℤ × (ℤ × Text))
unfolding int_of value_of
chunk_of fields = do
  trial ← int_of (codes "trial") fields
  offset ← int_of (codes "offset") fields
  hex ← value_of (codes "hex") fields
  ok (trial, (offset, hex))

-- `raw_chunks[trial][offset] = hex`, of a dictionary that makes an empty entry for a new trial
abbrev pub put_chunk : Result (ℤ × (ℤ × Text)) → Chunks → Chunks
put_chunk (err e) chunks = chunks
put_chunk (ok (trial, (offset, hex))) chunks =
    insert trial (insert offset hex (get_or trial [] chunks)) chunks

abbrev pub take_line : LogLine → LogParse → LogParse
take_line (result_line payload) s = record s { rows = s.rows ++ parse_kv_line payload ∷ [] }
take_line (chunk_line payload) s = record s {
  raw_chunks = put_chunk (chunk_of (parse_kv_line payload)) s.raw_chunks;
}
take_line noise s = s

unfoldable pub take_lines : List Text → LogParse → LogParse
unfolding log_line parse_kv_line chunk_of insert get_or
take_lines [] s = s
take_lines (line ∷ lines) s = take_lines lines (take_line (log_line line) s)

-- `sorted` of integers
abbrev pub insert_int : ℤ → List ℤ → List ℤ
insert_int k [] = k ∷ []
insert_int k (j ∷ l) = if ltb_ℤ j k then j ∷ insert_int k l else k ∷ j ∷ l

abbrev pub sorted_ints : List ℤ → List ℤ
sorted_ints [] = []
sorted_ints (k ∷ l) = insert_int k (sorted_ints l)

-- `"".join([chunks[k] for k in sorted(chunks)])`
abbrev pub joined_chunks : List ℤ → Dict ℤ Text → Text
joined_chunks [] chunks = []
joined_chunks (k ∷ ks) chunks = get_or k [] chunks ++ joined_chunks ks chunks

abbrev pub keep_window : ℤ → Result Bytes → Dict ℤ Bytes → Dict ℤ Bytes
keep_window trial (ok window) windows = insert trial window windows
keep_window trial (err e) windows = windows

-- The windows of the trials, in the order of their first chunks; a text that is no hexadecimal is
-- passed over.
unfoldable pub raw_windows_of : Chunks → Dict ℤ Bytes → Dict ℤ Bytes
unfolding insert get_or keys from_hex
raw_windows_of [] windows = windows
raw_windows_of ((trial, chunks) ∷ more) windows =
    raw_windows_of more
      (keep_window trial (from_hex (joined_chunks (sorted_ints (keys chunks)) chunks)) windows)

unfoldable pub parse_log : List Text → List Fields × Dict ℤ Bytes
unfolding take_lines raw_windows_of
parse_log lines =
    let s = take_lines lines (record { rows = []; raw_chunks = [] }) in
    (s.rows, raw_windows_of s.raw_chunks [])

-- `[max(exp - seen, 0) for exp, seen in zip(...)]`
abbrev pub at_least_zero : ℤ → ℤ
at_least_zero n = if ltb_ℤ n (pos 0) then pos 0 else n

abbrev pub losses : List ℤ → List ℤ → List ℤ
losses (exp ∷ expected) (seen ∷ rest) = at_least_zero (exp -ℤ seen) ∷ losses expected rest
losses _ _ = []

unfoldable pub packet_loss : List Fields → List ℤ
unfolding numeric
packet_loss rows =
    losses (numeric rows (codes "packets_expected")) (numeric rows (codes "packets_seen"))
