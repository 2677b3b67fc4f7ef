-- ===== src/Sram/Capture.antt =====
-- run_experiment.py: read_capture. The port and the clock are a list of rounds, each with the clock
-- reading of the loop and the bytes of one readline; `region` is REGION_BYTES.
pub mod Cells
pub mod Whole
use wireless_boot_entropy_ze.Base.{
  ℕ, zero, suc, ◌+◌, ◌*◌, Bool, true, false, not, ◌&&◌, ◌||◌, Option, none, some, List, [], ◌∷◌,
  map, ltb, leb, ◌==◌, if◌then◌else◌, length, replicate, list_beq, nat_eq,
}
use wireless_boot_entropy_ze.Base.Int.{ℤ, pos, negsuc, int_beq}
use wireless_boot_entropy_ze.Python.Result.{
  Result, ok, err, Error, value_error, key_error, runtime_error, ◌>>=◌,
}
use wireless_boot_entropy_ze.Python.Dict.{Dict, lookup, get_or}
use wireless_boot_entropy_ze.Python.Hex.{from_hex}
use wireless_boot_entropy_ze.Python.Numbers.{parse_int, parse_int_base16}
use wireless_boot_entropy_ze.Python.Struct.{Bytes}
use wireless_boot_entropy_ze.Python.Text.{Text, codes, text_eq, strip, starts_with, split}
use wireless_boot_entropy_ze.Aeb.ResultLine.{Fields, collect_fields, without_first}
use wireless_boot_entropy_ze.Aeb.Trial.{Time}

abbrev pub region_bytes : ℕ
region_bytes = 4096

-- `raw.decode("ascii", errors="replace")`
abbrev pub decode_ascii : Bytes → Text
decode_ascii = map (λ c. if ltb c 128 then c else 65533)

-- `dict(token.split("=", 1) for token in line.split()[1:] if "=" in token)`
unfoldable pub fields_of : Text → Fields
unfolding split collect_fields
fields_of line = collect_fields (without_first (split line)) []

-- A line, by the tests of the loop on its text alone.
pub data SramLine : Type 0 where
  begin_line data_line : Text → SramLine
  end_line ready_line other_line : SramLine

unfoldable pub sram_line : Bytes → SramLine
unfolding strip starts_with
sram_line raw =
    let line = strip (decode_ascii raw) in
    if starts_with (codes "[SRAM_CAPTURE_BEGIN]") line
    then begin_line line
    else if starts_with (codes "[SRAM_DATA]") line
    then data_line line
    else if list_beq line (codes "[SRAM_CAPTURE_END]")
    then end_line
    else if starts_with (codes "[SRAM_READY]") line
    then ready_line
    else other_line

-- `fields[key]`
unfoldable pub required : Text → Fields → Result Text
unfolding lookup
required key fields = elim (lookup key fields) [ none ↦ err key_error | some value ↦ ok value ]

-- The address of a begin line, behind the test of the size.
abbrev pub checked_address : ℕ → Fields → ℤ → Result ℤ
checked_address region fields bytes =
    if not (int_beq bytes (pos region))
    then err runtime_error
    else (do address ← required (codes "address") fields; parse_int_base16 address)

unfoldable pub begin_address : ℕ → Text → Result ℤ
unfolding fields_of required get_or
begin_address region line = do
  bytes ← parse_int (get_or (codes "bytes") (codes "0") (fields_of line))
  checked_address region (fields_of line) bytes

-- The offset and the bytes of a data line, behind the test that they fit.
abbrev pub checked_block : ℕ → ℤ → Bytes → Result (ℕ × Bytes)
checked_block region (negsuc n) block = err runtime_error
checked_block region (pos offset) block =
    if ltb region (offset + length block) then err runtime_error else ok (offset, block)

unfoldable pub block_of : ℕ → Text → Result (ℕ × Bytes)
unfolding fields_of required from_hex
block_of region line = do
  offset_text ← required (codes "offset") (fields_of line)
  offset ← parse_int offset_text
  hex ← required (codes "hex") (fields_of line)
  block ← from_hex hex
  checked_block region offset block

-- `cells[offset : offset + len(block)] = block`, of a block that fits
abbrev pub overlay {ℓ} : {A : Type ℓ} → ℕ → List A → List A → List A
overlay offset block [] = []
overlay (suc offset) block (x ∷ cells) = x ∷ overlay offset block cells
overlay zero [] (x ∷ cells) = x ∷ cells
overlay zero (b ∷ block) (x ∷ cells) = b ∷ overlay zero block cells

-- The set of offsets received is a list of the region's length, with `true` at its members.
pub record Capture : Type 0 where
  pub captured : Bytes
  pub received : List Bool
  pub address : Option ℤ
  pub began : Bool
  pub ended : Bool

abbrev pub members : List Bool → ℕ
members [] = 0
members (true ∷ set) = suc (members set)
members (false ∷ set) = members set

pub data CaptureEnd : Type 0 where
  returned : Bytes → ℤ → CaptureEnd
  raised : Error → CaptureEnd
  waiting : CaptureEnd

abbrev pub raise_or {ℓ} : {A : Type ℓ} → Result A → (A → CaptureEnd) → CaptureEnd
raise_or (err e) next = raised e
raise_or (ok a) next = next a

-- `return bytes(captured), address`, behind its test
abbrev pub return_whole : ℕ → Bytes → List Bool → Option ℤ → CaptureEnd
return_whole region captured received none = raised runtime_error
return_whole region captured received (some address) =
    if not (members received == region) then raised runtime_error else returned captured address

-- A round's line, where the rest of the loop is the last argument.
abbrev pub begin_capture : ℕ → Capture → ℤ → Capture
begin_capture region s address = record {
  captured = s.captured;
  received = replicate region false;
  address = some address;
  began = true;
  ended = false;
}

abbrev pub put_block : Capture → ℕ × Bytes → Capture
put_block s (offset, block) = record s {
  captured = overlay offset block s.captured;
  received = overlay offset (replicate (length block) true) s.received;
}

abbrev pub take_data : ℕ → Text → Bool → Capture → (Capture → CaptureEnd) → CaptureEnd
take_data region line false s next = next s
take_data region line true s next =
    raise_or (block_of region line) (λ block. next (put_block s block))

abbrev pub take_ready : ℕ → Bool → Capture → (Capture → CaptureEnd) → CaptureEnd
take_ready region false s next = next s
take_ready region true s next = return_whole region s.captured s.received s.address

abbrev pub take_line : ℕ → SramLine → Capture → (Capture → CaptureEnd) → CaptureEnd
take_line region (begin_line line) s next =
    raise_or (begin_address region line) (λ address. next (begin_capture region s address))
take_line region (data_line line) s next = take_data region line s.began s next
take_line region end_line s next = next (record s { ended = if s.began then true else s.ended })
take_line region ready_line s next = take_ready region s.ended s next
take_line region other_line s next = next s

pub record Round : Type 0 where
  pub now : Time
  pub raw : Bytes

-- What a round does: the deadline, a readline that timed out, or a line.
abbrev pub in_time : Bool → Bytes → CaptureEnd → (SramLine → CaptureEnd) → CaptureEnd
in_time false raw rest take_one = raised runtime_error
in_time true [] rest take_one = rest
in_time true (c ∷ more) rest take_one = take_one (sram_line (c ∷ more))

unfoldable pub read_rounds : ℕ → Time → List Round → Capture → CaptureEnd
unfolding sram_line begin_address block_of
read_rounds region deadline [] s = waiting
read_rounds region deadline (round ∷ rounds) s =
    in_time (ltb round.now deadline) round.raw (read_rounds region deadline rounds s)
      (λ line. take_line region line s (λ s₁. read_rounds region deadline rounds s₁))

abbrev pub first_capture : ℕ → Capture
first_capture region = record {
  captured = replicate region 0;
  received = replicate region false;
  address = none;
  began = false;
  ended = false;
}

-- The deadline is the clock at the start and the time-out.
unfoldable pub read_capture : ℕ → Time → List Round → CaptureEnd
unfolding read_rounds
read_capture region deadline rounds = read_rounds region deadline rounds (first_capture region)
