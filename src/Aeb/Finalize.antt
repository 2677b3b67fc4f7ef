-- ===== src/Aeb/Finalize.antt =====
-- aeb_collector.py: `finalize_trial`, in its four parts: the raw bytes, the jitter, the joint
-- response, and the line of the table. A part that raises leaves what was written before it.
pub mod Reassembly
pub mod Streams
pub mod Reports
pub mod Whole
unfoldable pub use wireless_boot_entropy_ze.Aeb.Parts.{
  reported, int_or, int_field, next_key, missing_from, join_chunks, range_from, is_empty,
  hash_match, expected_chunks, expected_len, jitter_rows, no_jitter, pack_jitter, elapsed,
  when_written, trial_row,
}
pub use wireless_boot_entropy_ze.Aeb.Parts.{RawPart, JitterPart, ResponsePart}
use Prim.Native.String.{String}
use wireless_boot_entropy_ze.Base.{
  ℕ, zero, suc, ◌+◌, Bool, true, false, not, ◌&&◌, Option, none, some, List, [], ◌∷◌, ◌++◌, ltb,
  ◌==◌, if◌then◌else◌, length, take, nat_eq, list_beq, leb,
}
use wireless_boot_entropy_ze.Base.Int.{ℤ, pos, negsuc, ◌-ℤ◌, ltb_ℤ, int_beq, sub_ℕ, pos_part}
use wireless_boot_entropy_ze.Python.Result.{Result, ok, err, ◌>>=◌}
use wireless_boot_entropy_ze.Python.Struct.{Bytes}
use wireless_boot_entropy_ze.Python.Text.{Text, text_eq, codes}
use wireless_boot_entropy_ze.Python.Numbers.{parse_int}
use wireless_boot_entropy_ze.Python.Dict.{Dict, lookup, contains, get_or, keys}
use wireless_boot_entropy_ze.Python.Sorting.{sorted}
use wireless_boot_entropy_ze.Aeb.ResultLine.{Fields}
use wireless_boot_entropy_ze.Aeb.Jitter.{
  jitter_values, pack_jitter_delta_u32le, pack_jitter_residual_s32le,
}
use wireless_boot_entropy_ze.Aeb.Trial.{
  Time, TrialState, FileName, raw_trial, raw_partial, jitter_csv, jitter_delta, jitter_residual,
  response, JitterRow, binary, jitter_table, Row, Disk, write_file,
}

module _ (sha256_hex : Bytes → Text) where
  -- The chunks in order, where there are missing or surplus bytes: a partial file.
  unfoldable pub write_partial : TrialState → Bytes → Disk → RawPart × Disk
  write_partial state raw disk =
      let partial = join_chunks (sorted (keys state.raw_chunks)) state.raw_chunks in
      let name = raw_partial state.capture_id in
      (
        record {
          complete = false;
          raw = raw;
          raw_file = some name;
          raw_bytes = length partial;
          raw_hash = sha256_hex partial;
          raw_match = none;
        },
        write_file name (binary partial) disk,
      )

  -- Nothing is written where no chunk was received.
  unfoldable pub write_incomplete : TrialState → Bytes → ℕ → Disk → RawPart × Disk
  unfolding write_partial
  write_incomplete state raw raw_bytes disk =
      if is_empty state.raw_chunks
      then (
        record {
          complete = false;
          raw = raw;
          raw_file = none;
          raw_bytes = raw_bytes;
          raw_hash = [];
          raw_match = none;
        },
        disk,
      )
      else write_partial state raw disk

  unfoldable pub write_complete : TrialState → Bytes → Disk → RawPart × Disk
  write_complete state raw disk =
      let name = raw_trial state.capture_id in
      let digest = sha256_hex raw in
      (
        record {
          complete = true;
          raw = raw;
          raw_file = some name;
          raw_bytes = length raw;
          raw_hash = digest;
          raw_match = some (hash_match (reported "raw_sha256" state.result) digest);
        },
        write_file name (binary raw) (record disk { all_bin = disk.all_bin ++ raw }),
      )

  -- The raw part, from the number of chunks and the length that are expected.
  unfoldable pub write_raw : TrialState → ℕ → ℤ → Disk → RawPart × Disk
  unfolding write_incomplete write_complete
  write_raw state expected raw_len disk =
      let missing = missing_from expected 0 state.raw_chunks in
      let all_there = ltb 0 expected && ltb_ℤ (pos 0) raw_len && is_empty missing in
      let raw = take (pos_part raw_len) (join_chunks (range_from expected 0) state.raw_chunks) in
      if all_there
      then (if int_beq (pos (length raw)) raw_len
          then write_complete state raw disk
          else write_incomplete state raw (length raw) disk)
      else write_incomplete state [] 0 disk

  -- The jitter table, the two jitter files, and the streams that grow by them.
  unfoldable pub save_jitter : TrialState → List ℕ → ℤ → Bytes → Bytes → Disk → JitterPart × Disk
  unfolding jitter_rows
  save_jitter state jitters interval_us delta residual disk =
      let id = state.capture_id in
      let digest = sha256_hex delta in
      let table = jitter_table (jitter_rows 0 interval_us jitters) in
      let disk₁ = write_file (jitter_csv id) table disk in
      let disk₂ = write_file (jitter_delta id) (binary delta) disk₁ in
      let disk₃ = write_file (jitter_residual id) (binary residual) disk₂ in
      (
        record {
          jitters = jitters;
          written = true;
          delta_bytes = delta;
          delta_hash = digest;
          delta_match = some (hash_match (reported "jitter_sha256" state.result) digest);
        },
        record disk₃ {
          all_jitter_delta = disk₃.all_jitter_delta ++ delta;
          all_jitter_residual = disk₃.all_jitter_residual ++ residual;
        },
      )

  -- Nothing is written where nothing was measured, or where packing raises.
  unfoldable pub write_jitter : TrialState → Disk → Result JitterPart × Disk
  unfolding save_jitter
  write_jitter state disk =
      let jitters = jitter_values state.jitter_chunks in
      if is_empty jitters then (ok no_jitter, disk) else elim (pack_jitter state jitters) [
        | err e ↦ (err e, disk)
        | ok (interval_us, delta, residual) ↦
            let (part, disk₁) = save_jitter state jitters interval_us delta residual disk in
            (ok part, disk₁)
      ]

  -- The raw bytes and the deltas of a complete trial in one file.
  unfoldable pub write_response : TrialState → RawPart → JitterPart → Disk → ResponsePart × Disk
  write_response state r j disk =
      let joint = r.raw ++ j.delta_bytes in
      let name = response state.capture_id in
      let digest = sha256_hex joint in
      if r.complete
      then (
        record {
          response_file = some name;
          response_len = length joint;
          response_hash = digest;
          response_match = some (hash_match (reported "response_sha256" state.result) digest);
        },
        write_file name (binary joint) (record disk { all_joint = disk.all_joint ++ joint }),
      )
      else (
        record {
          response_file = none;
          response_len = 0;
          response_hash = [];
          response_match = none;
        },
        disk,
      )

module _ (sha256_hex : Bytes → Text) where
  -- The response and the line, once the jitter is done.
  unfoldable pub after_jitter :
      TrialState → ℕ → RawPart → Result JitterPart × Disk → Result Bool × Disk
  unfolding write_response trial_row
  after_jitter state expected r (err e, disk) = (err e, disk)
  after_jitter state expected r (ok j, disk) =
      let (p, disk₁) = write_response sha256_hex state r j disk in
      (ok r.complete, record disk₁ { rows = disk₁.rows ++ trial_row state expected r j p ∷ [] })

  -- What is done once the raw bytes are written.
  unfoldable pub finish_trial : TrialState → ℕ → RawPart → Disk → Result Bool × Disk
  unfolding after_jitter
  finish_trial state expected r disk =
      after_jitter state expected r (write_jitter sha256_hex state disk)

  unfoldable pub finalize_trial : TrialState → Disk → Result Bool × Disk
  finalize_trial state disk =
      let expected = expected_chunks state in
      elim (expected_len state) [
        | err e ↦ (err e, disk)
        | ok raw_len ↦
            let (r, disk₁) = write_raw sha256_hex state expected raw_len disk in
            finish_trial state expected r disk₁
      ]
