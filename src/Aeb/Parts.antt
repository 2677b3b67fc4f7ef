-- ===== src/Aeb/Parts.antt =====
-- aeb_collector.py: what `finalize_trial` reads off a trial, what its parts leave in their
-- variables, and the line of the table.
use Prim.Native.String.{String}
use wireless_boot_entropy_ze.Base.{
  ℕ, zero, suc, ◌+◌, Bool, true, false, not, ◌&&◌, Option, none, some, List, [], ◌∷◌, ◌++◌,
  if◌then◌else◌, length, nat_eq, list_beq, leb,
}
use wireless_boot_entropy_ze.Base.Int.{ℤ, pos, ◌-ℤ◌, sub_ℕ}
use wireless_boot_entropy_ze.Python.Result.{Result, ok, ◌>>=◌}
use wireless_boot_entropy_ze.Python.Struct.{Bytes}
use wireless_boot_entropy_ze.Python.Text.{Text, text_eq, codes}
use wireless_boot_entropy_ze.Python.Numbers.{parse_int}
use wireless_boot_entropy_ze.Python.Dict.{Dict, lookup, contains, get_or}
use wireless_boot_entropy_ze.Aeb.ResultLine.{Fields}
use wireless_boot_entropy_ze.Aeb.Jitter.{pack_jitter_delta_u32le, pack_jitter_residual_s32le}
use wireless_boot_entropy_ze.Aeb.Trial.{
  Time, TrialState, FileName, jitter_csv, jitter_delta, jitter_residual, JitterRow, Row,
}

-- `state.result.get(key, "")`
abbrev pub reported : String → Fields → Text
reported key result = get_or (codes key) [] result

-- `int(text or default)`
abbrev pub int_or : ℤ → Text → Result ℤ
int_or default [] = ok default
int_or default (c ∷ s) = parse_int (c ∷ s)

-- `int(result.get(key, default) or default)`
unfoldable pub int_field : String → ℤ → Fields → Result ℤ
int_field key default result = elim (lookup (codes key) result) [
  | none ↦ ok default
  | some text ↦ int_or default text
]

-- `max(d.keys(), default=-1) + 1`
unfoldable pub next_key : Dict ℕ Bytes → ℕ
next_key [] = 0
next_key ((k, _) ∷ d) = let n = next_key d in if leb n k then k + 1 else n

-- `[i for i in range(start, start + n) if i not in chunks]`
unfoldable pub missing_from : ℕ → ℕ → Dict ℕ Bytes → List ℕ
missing_from zero start chunks = []
missing_from (suc n) start chunks =
    let rest = missing_from n (start + 1) chunks in
    if contains start chunks then rest else start ∷ rest

-- `b"".join(chunks[i] for i in indices)`, which is run where every index is there.
unfoldable pub join_chunks : List ℕ → Dict ℕ Bytes → Bytes
join_chunks [] chunks = []
join_chunks (i ∷ is) chunks = get_or i [] chunks ++ join_chunks is chunks

-- `range(start, start + n)`
unfoldable pub range_from : ℕ → ℕ → List ℕ
range_from zero start = []
range_from (suc n) start = start ∷ range_from n (start + 1)

abbrev pub is_empty {ℓ} : {A : Type ℓ} → List A → Bool
is_empty [] = true
is_empty (_ ∷ _) = false

-- `str(bool(reported and reported == computed))`
abbrev pub hash_match : Text → Text → Bool
hash_match claimed computed = not (is_empty claimed) && list_beq claimed computed

-- What the raw part leaves in its variables.
pub record RawPart : Type 0 where
  pub complete : Bool
  pub raw : Bytes
  pub raw_file : Option FileName
  pub raw_bytes : ℕ
  pub raw_hash : Text
  pub raw_match : Option Bool

pub record JitterPart : Type 0 where
  pub jitters : List ℕ
  pub written : Bool
  pub delta_bytes : Bytes
  pub delta_hash : Text
  pub delta_match : Option Bool

pub record ResponsePart : Type 0 where
  pub response_file : Option FileName
  pub response_len : ℕ
  pub response_hash : Text
  pub response_match : Option Bool

unfoldable pub expected_chunks : TrialState → ℕ
expected_chunks state = elim state.raw_chunks_expected [
  | none ↦ next_key state.raw_chunks
  | some n ↦ n
]

unfoldable pub expected_len : TrialState → Result ℤ
unfolding int_field
expected_len state = elim state.raw_len [
  | none ↦ int_field "sample_bytes" (pos 0) state.result
  | some n ↦ ok (pos n)
]

-- The lines of a trial's jitter table.
unfoldable pub jitter_rows : ℕ → ℤ → List ℕ → List JitterRow
jitter_rows index interval_us [] = []
jitter_rows index interval_us (value ∷ values) =
    (index, value, pos value -ℤ interval_us) ∷ jitter_rows (index + 1) interval_us values

abbrev pub no_jitter : JitterPart
no_jitter = record {
  jitters = [];
  written = false;
  delta_bytes = [];
  delta_hash = [];
  delta_match = none;
}

-- The interval, and the two packed forms of the deltas.
unfoldable pub pack_jitter : TrialState → List ℕ → Result (ℤ × Bytes × Bytes)
unfolding int_field
pack_jitter state jitters = do
  interval_us ← int_field "interval_us" state.interval_us state.result
  delta ← pack_jitter_delta_u32le jitters
  residual ← pack_jitter_residual_s32le jitters interval_us
  ok (interval_us, delta, residual)

-- The difference of two clock readings that are both there.
abbrev pub elapsed : Option Time → Option Time → Option ℤ
elapsed (some a) (some b) = some (sub_ℕ b a)
elapsed _ _ = none

abbrev pub when_written : Bool → FileName → Option FileName
when_written written name = if written then some name else none

-- The line of the table.
unfoldable pub trial_row : TrialState → ℕ → RawPart → JitterPart → ResponsePart → Row
trial_row state expected r j p = record {
  capture_id = state.capture_id;
  protocol_trial = state.protocol_trial;
  peer = state.peer;
  complete = r.complete;
  raw_file = r.raw_file;
  raw_bytes = r.raw_bytes;
  raw_chunks_expected = expected;
  raw_chunks_seen = length state.raw_chunks;
  missing_chunks = missing_from expected 0 state.raw_chunks;
  raw_sha256_file = r.raw_hash;
  raw_sha256_reported = reported "raw_sha256" state.result;
  raw_sha256_match = r.raw_match;
  jitter_file = when_written j.written (jitter_csv state.capture_id);
  jitter_delta_file = when_written j.written (jitter_delta state.capture_id);
  jitter_residual_file = when_written j.written (jitter_residual state.capture_id);
  jitter_delta_bytes = length j.delta_bytes;
  jitter_sha256_file = j.delta_hash;
  jitter_sha256_reported = reported "jitter_sha256" state.result;
  jitter_sha256_match = j.delta_match;
  jitter_count = length j.jitters;
  response_file = p.response_file;
  response_bytes = p.response_len;
  response_sha256_file = p.response_hash;
  response_sha256_reported = reported "response_sha256" state.result;
  response_sha256_match = p.response_match;
  host_hello_to_start = elapsed (some state.hello_time) state.start_send_time;
  host_start_to_last_burst = elapsed state.start_send_time state.last_burst_send_time;
  host_first_to_last_burst = elapsed state.first_burst_send_time state.last_burst_send_time;
  host_hello_to_result = elapsed (some state.hello_time) state.result_time;
  reported = state.result;
  interval_default = state.interval_us;
  hello_nonce = state.hello_nonce;
  start_nonce = state.start_nonce;
}
