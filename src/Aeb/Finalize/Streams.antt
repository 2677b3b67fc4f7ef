-- ===== src/Aeb/Finalize/Streams.antt =====
-- The four streams that grow are the files of the captures, one after another.
use wireless_boot_entropy_ze.Base.{
  ℕ, ◌≡◌, ap, Option, none, some, List, [], ◌∷◌, ◌++◌, Bool-cases, inl, inr, take, ltb, ◌&&◌,
  length,
}
use wireless_boot_entropy_ze.Base.Int.{ℤ, pos, pos_part, ltb_ℤ, int_beq}
use wireless_boot_entropy_ze.Python.Result.{Result, ok, err, Result-cases}
use wireless_boot_entropy_ze.Python.Struct.{Bytes}
use wireless_boot_entropy_ze.Python.Text.{Text}
use wireless_boot_entropy_ze.Aeb.Jitter.{jitter_values}
use wireless_boot_entropy_ze.Aeb.Trial.{
  TrialState, FileName, raw_trial, jitter_delta, jitter_residual, response, Content, binary, Disk,
}
use wireless_boot_entropy_ze.Aeb.Finalize.{
  RawPart, JitterPart, write_incomplete, write_complete, write_raw, write_jitter, write_response,
  after_jitter, finish_trial, finalize_trial, is_empty, save_jitter, pack_jitter, expected_len,
  expected_chunks, missing_from, join_chunks, range_from,
}

abbrev pub raw_of : FileName → Content → Option Bytes
raw_of (raw_trial _) (binary bs) = some bs
raw_of _ _ = none

abbrev pub delta_of : FileName → Content → Option Bytes
delta_of (jitter_delta _) (binary bs) = some bs
delta_of _ _ = none

abbrev pub residual_of : FileName → Content → Option Bytes
residual_of (jitter_residual _) (binary bs) = some bs
residual_of _ _ = none

abbrev pub joint_of : FileName → Content → Option Bytes
joint_of (response _) (binary bs) = some bs
joint_of _ _ = none

abbrev pub extend : Bytes → Option Bytes → Bytes
extend bs none = bs
extend bs (some more) = bs ++ more

-- The files of one kind, the oldest first.
abbrev pub stream : (FileName → Content → Option Bytes) → List (FileName × Content) → Bytes
stream part [] = []
stream part ((name, content) ∷ files) = extend (stream part files) (part name content)

pub record StreamsMatch (disk : Disk) : Type 0 where
  pub raws : disk.all_bin ≡ stream raw_of disk.files
  pub deltas : disk.all_jitter_delta ≡ stream delta_of disk.files
  pub residuals : disk.all_jitter_residual ≡ stream residual_of disk.files
  pub joints : disk.all_joint ≡ stream joint_of disk.files

module _ (sha256_hex : Bytes → Text) where
  write_incomplete-StreamsMatch :
      (state : TrialState) (raw : Bytes) (n : ℕ) (disk : Disk)
      → StreamsMatch disk
      → StreamsMatch (write_incomplete sha256_hex state raw n disk).1
  unfolding write_incomplete
  write_incomplete-StreamsMatch state raw n disk h = elim (Bool-cases (is_empty state.raw_chunks)) [
    | inl none_there ↦ rw none_there h
    | inr some_there ↦
        rw some_there
          (record { raws = h.raws; deltas = h.deltas; residuals = h.residuals; joints = h.joints })
  ]

  write_complete-StreamsMatch :
      (state : TrialState) (raw : Bytes) (disk : Disk)
      → StreamsMatch disk
      → StreamsMatch (write_complete sha256_hex state raw disk).1
  unfolding write_complete
  write_complete-StreamsMatch state raw disk h = record {
    raws = ap (λ bs. bs ++ raw) h.raws;
    deltas = h.deltas;
    residuals = h.residuals;
    joints = h.joints;
  }

  pub write_raw-StreamsMatch :
      (state : TrialState) (expected : ℕ) (raw_len : ℤ) (disk : Disk)
      → StreamsMatch disk
      → StreamsMatch (write_raw sha256_hex state expected raw_len disk).1
  write_raw-StreamsMatch state expected raw_len disk h =
      let raw = take (pos_part raw_len) (join_chunks (range_from expected 0) state.raw_chunks) in
      let incomplete = λ (bs : Bytes) (n : ℕ). write_incomplete-StreamsMatch state bs n disk h in
      elim (Bool-cases (
        ltb 0 expected
        && ltb_ℤ (pos 0) raw_len
        && is_empty (missing_from expected 0 state.raw_chunks))) [
          | inl there ↦ elim (Bool-cases (int_beq (pos (length raw)) raw_len)) [
            | inl full ↦
                unfold write_raw in rw (there, full) (write_complete-StreamsMatch state raw disk h)
            | inr short ↦ unfold write_raw in rw (there, short) (incomplete raw (length raw))
          ]
          | inr gap ↦ unfold write_raw in rw gap (incomplete [] 0)
        ]

  save_jitter-StreamsMatch :
      (state : TrialState) (jitters : List ℕ) (interval_us : ℤ) (delta residual : Bytes)
      (disk : Disk)
      → StreamsMatch disk
      → StreamsMatch (save_jitter sha256_hex state jitters interval_us delta residual disk).1
  unfolding save_jitter
  save_jitter-StreamsMatch state jitters interval_us delta residual disk h = record {
    raws = h.raws;
    deltas = ap (λ bs. bs ++ delta) h.deltas;
    residuals = ap (λ bs. bs ++ residual) h.residuals;
    joints = h.joints;
  }

  pub write_jitter-StreamsMatch :
      (state : TrialState) (disk : Disk)
      → StreamsMatch disk
      → StreamsMatch (write_jitter sha256_hex state disk).1
  unfolding write_jitter
  write_jitter-StreamsMatch state disk h =
      elim (Bool-cases (is_empty (jitter_values state.jitter_chunks))) [
        | inl quiet ↦ rw quiet h
        | inr measured ↦
            Result-cases (pack_jitter state (jitter_values state.jitter_chunks)) _
              (λ packed e.
                rw (measured, e)
                  (save_jitter-StreamsMatch state _ packed.0 packed.1 packed.2 disk h))
              (λ raised e. rw (measured, e) h)
      ]

  pub write_response-StreamsMatch :
      (state : TrialState) (r : RawPart) (j : JitterPart) (disk : Disk)
      → StreamsMatch disk
      → StreamsMatch (write_response sha256_hex state r j disk).1
  unfolding write_response
  write_response-StreamsMatch state r j disk h = elim (Bool-cases r.complete) [
    | inl full ↦ rw full (record {
      raws = h.raws;
      deltas = h.deltas;
      residuals = h.residuals;
      joints = ap (λ bs. bs ++ (r.raw ++ j.delta_bytes)) h.joints;
    })
    | inr partial ↦ rw partial h
  ]

  after_jitter-StreamsMatch :
      (state : TrialState) (expected : ℕ) (r : RawPart) (j : Result JitterPart × Disk)
      → StreamsMatch j.1
      → StreamsMatch (after_jitter sha256_hex state expected r j).1
  unfolding after_jitter
  after_jitter-StreamsMatch state expected r (err e, disk) h = h
  after_jitter-StreamsMatch state expected r (ok j, disk) h =
      let all = write_response-StreamsMatch state r j disk h in
      record {
        raws = all.raws;
        deltas = all.deltas;
        residuals = all.residuals;
        joints = all.joints;
      }

  finish_trial-StreamsMatch :
      (state : TrialState) (expected : ℕ) (r : RawPart) (disk : Disk)
      → StreamsMatch disk
      → StreamsMatch (finish_trial sha256_hex state expected r disk).1
  unfolding finish_trial
  finish_trial-StreamsMatch state expected r disk h =
      after_jitter-StreamsMatch state expected r _ (write_jitter-StreamsMatch state disk h)

  -- Closing a trial, complete or not, and also where it raises, keeps every stream the
  -- concatenation of the files that were written for it, in the order of writing, where it was so
  -- before.
  pub finalize_trial-StreamsMatch :
      (state : TrialState) (disk : Disk)
      → StreamsMatch disk
      → StreamsMatch (finalize_trial sha256_hex state disk).1
  unfolding finalize_trial
  finalize_trial-StreamsMatch state disk h =
      Result-cases (expected_len state) _
        (λ raw_len e.
          rw (finalize_trial, e)
            (finish_trial-StreamsMatch state _ _ _
              (write_raw-StreamsMatch state (expected_chunks state) raw_len disk h)))
        (λ raised e. rw (finalize_trial, e) h)
