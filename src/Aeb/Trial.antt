-- ===== src/Aeb/Trial.antt =====
-- aeb_collector.py: `TrialState`, and the files that a capture is written to. The clock is read in
-- whole microseconds, and a file is named by its kind and its capture id, which its path prints.
use wireless_boot_entropy_ze.Base.{ℕ, Bool, Option, List, ◌∷◌, nat_eq, pair_eq, list_eq}
use wireless_boot_entropy_ze.Base.Int.{ℤ, int_eq}
use wireless_boot_entropy_ze.Python.Struct.{Bytes}
use wireless_boot_entropy_ze.Python.Text.{Text, text_eq}
use wireless_boot_entropy_ze.Python.Dict.{Dict}
use wireless_boot_entropy_ze.Aeb.ResultLine.{Fields}

-- `Tuple[str, int]`
abbrev pub Peer : Type 0
Peer = Text × ℕ

-- `Tuple[Peer, int]`
abbrev pub StateKey : Type 0
StateKey = Peer × ℤ

-- A reading of `time.time()`, in microseconds.
abbrev pub Time : Type 0
Time = ℕ

pub record TrialState : Type 0 where
  pub capture_id : ℕ
  pub peer : Peer
  pub protocol_trial : ℕ
  pub hello_nonce : Bytes
  pub start_nonce : Bytes
  pub bursts : ℤ
  pub interval_us : ℤ
  pub requested_sample_bytes : ℤ
  pub raw_chunks_expected : Option ℕ
  pub raw_len : Option ℕ
  pub raw_chunks : Dict ℕ Bytes
  pub jitter_chunks : Dict ℕ Bytes
  pub result : Fields
  pub hello_time : Time
  pub start_send_time : Option Time
  pub first_burst_send_time : Option Time
  pub last_burst_send_time : Option Time
  pub result_time : Option Time

-- The files of one capture, each with the capture id in its name.
pub data FileName : Type 0 where
  raw_trial raw_partial jitter_csv jitter_delta jitter_residual response stimulus : ℕ → FileName

-- A line of a trial's jitter table: index, delta and residual.
abbrev pub JitterRow : Type 0
JitterRow = ℕ × ℕ × ℤ

-- A line of a trial's stimulus table, less the constant mode.
pub record StimulusRow : Type 0 where
  pub seq : ℕ
  pub sleep_us : ℤ
  pub payload : Bytes
  pub payload_sha256 : Text

pub data Content : Type 0 where
  binary : Bytes → Content
  jitter_table : List JitterRow → Content
  stimulus_table : List StimulusRow → Content

-- A line of `aeb_trials.csv`. `none` is the empty text; the four times are in microseconds, and the
-- file prints them in milliseconds.
pub record Row : Type 0 where
  pub capture_id : ℕ
  pub protocol_trial : ℕ
  pub peer : Peer
  pub complete : Bool
  pub raw_file : Option FileName
  pub raw_bytes : ℕ
  pub raw_chunks_expected : ℕ
  pub raw_chunks_seen : ℕ
  pub missing_chunks : List ℕ
  pub raw_sha256_file : Text
  pub raw_sha256_reported : Text
  pub raw_sha256_match : Option Bool
  pub jitter_file : Option FileName
  pub jitter_delta_file : Option FileName
  pub jitter_residual_file : Option FileName
  pub jitter_delta_bytes : ℕ
  pub jitter_sha256_file : Text
  pub jitter_sha256_reported : Text
  pub jitter_sha256_match : Option Bool
  pub jitter_count : ℕ
  pub response_file : Option FileName
  pub response_bytes : ℕ
  pub response_sha256_file : Text
  pub response_sha256_reported : Text
  pub response_sha256_match : Option Bool
  pub host_hello_to_start : Option ℤ
  pub host_start_to_last_burst : Option ℤ
  pub host_first_to_last_burst : Option ℤ
  pub host_hello_to_result : Option ℤ
  -- The columns that copy `state.result`; `interval_us` has the state's value where it is missing.
  pub reported : Fields
  pub interval_default : ℤ
  pub hello_nonce : Bytes
  pub start_nonce : Bytes

-- The output directory: the four streams that grow, the files of each capture, the newest first,
-- and the lines of the table.
pub record Disk : Type 0 where
  pub all_bin : Bytes
  pub all_jitter_delta : Bytes
  pub all_jitter_residual : Bytes
  pub all_joint : Bytes
  pub files : List (FileName × Content)
  pub rows : List Row

-- `path.write_bytes(...)`, or a table written in full.
abbrev pub write_file : FileName → Content → Disk → Disk
write_file name content disk = record disk { files = (name, content) ∷ disk.files }
