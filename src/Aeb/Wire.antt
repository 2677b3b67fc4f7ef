-- ===== src/Aeb/Wire.antt =====
-- aeb_collector.py: the 40-byte header "<IHHIIII16s", `parse_message` and `make_message`.
pub mod RoundTrip
use wireless_boot_entropy_ze.Base.{
  ℕ, ◌≡◌, Bool, ◌||◌, not, Option, none, some, List, [], ◌∷◌, ◌++◌, ltb, ◌==◌, if◌then◌else◌,
  length, take, drop,
}
use wireless_boot_entropy_ze.Base.Int.{ℤ, pos}
use wireless_boot_entropy_ze.Python.Result.{Result, ok, ◌>>=◌}
use wireless_boot_entropy_ze.Python.Struct.{Bytes, pack_le, pack_string, read_le}

abbrev pub magic : ℕ
magic = 0x31424541

abbrev pub version : ℕ
version = 1

abbrev pub type_start : ℕ
type_start = 1

abbrev pub type_burst : ℕ
type_burst = 2

abbrev pub type_hello : ℕ
type_hello = 3

abbrev pub type_raw_begin : ℕ
type_raw_begin = 4

abbrev pub type_raw_chunk : ℕ
type_raw_chunk = 5

abbrev pub type_raw_end : ℕ
type_raw_end = 6

abbrev pub type_jitter_chunk : ℕ
type_jitter_chunk = 7

-- `HEADER.size`
abbrev pub header_size : ℕ
header_size = 40

pub record Message : Type 0 where
  pub msg_type : ℕ
  pub trial : ℕ
  pub seq_or_count : ℕ
  pub interval_us : ℕ
  pub sample_bytes : ℕ
  pub nonce : Bytes
  pub payload : Bytes

unfoldable pub parse_message : Bytes → Option Message
parse_message buffer =
    let (found_magic, r₁) = read_le 4 buffer in
    let (found_version, r₂) = read_le 2 r₁ in
    let (msg_type, r₃) = read_le 2 r₂ in
    let (trial, r₄) = read_le 4 r₃ in
    let (seq, r₅) = read_le 4 r₄ in
    let (interval_us, r₆) = read_le 4 r₅ in
    let (sample_bytes, r₇) = read_le 4 r₆ in
    if ltb (length buffer) header_size
    then none
    else if not (found_magic == magic) || not (found_version == version)
    then none
    else some (record {
      msg_type = msg_type;
      trial = trial;
      seq_or_count = seq;
      interval_us = interval_us;
      sample_bytes = sample_bytes;
      nonce = take 16 r₇;
      payload = drop 16 r₇;
    })

-- `HEADER.pack` raises on a field that is out of range.
unfoldable pub make_message : ℤ → ℤ → ℤ → ℤ → ℤ → Bytes → Bytes → Result Bytes
make_message msg_type trial seq_or_count interval_us sample_bytes nonce payload = do
  b₁ ← pack_le 4 (pos magic)
  b₂ ← pack_le 2 (pos version)
  b₃ ← pack_le 2 msg_type
  b₄ ← pack_le 4 trial
  b₅ ← pack_le 4 seq_or_count
  b₆ ← pack_le 4 interval_us
  b₇ ← pack_le 4 sample_bytes
  ok ((b₁ ++ (b₂ ++ (b₃ ++ (b₄ ++ (b₅ ++ (b₆ ++ (b₇ ++ pack_string 16 nonce))))))) ++ payload)
