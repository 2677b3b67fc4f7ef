-- ===== src/Aeb/Finalize/Whole.antt =====
-- When a trial counts as complete, and what reaches the stream of raw bytes.
use wireless_boot_entropy_ze.Base.{
  joined, ℕ, ◌<◌, ◌≤◌, ◌≡◌, refl, ap, ◌∙◌, true, false, some, List, [], ◌∷◌, ◌++◌, arith,
  Bool-cases, ◌⊎◌, inl, inr, take_all, length, ltb, ==_refl,
}
use wireless_boot_entropy_ze.Base.Int.{ℤ, pos, ltb_ℤ}
use wireless_boot_entropy_ze.Python.Result.{Error, Result, ok, err}
use wireless_boot_entropy_ze.Python.Struct.{Bytes}
use wireless_boot_entropy_ze.Python.Text.{Text}
use wireless_boot_entropy_ze.Aeb.Jitter.{jitter_values}
use wireless_boot_entropy_ze.Aeb.Trial.{TrialState, Disk}
use wireless_boot_entropy_ze.Aeb.Finalize.{
  RawPart, JitterPart, is_empty, expected_chunks, expected_len, pack_jitter, write_complete,
  write_raw, save_jitter, write_jitter, write_response, after_jitter, finish_trial, finalize_trial,
  no_jitter,
}
use wireless_boot_entropy_ze.Aeb.Finalize.Reassembly.{
  HoldsFrom, missing_from-HoldsFrom, join_chunks-HoldsFrom,
}

-- The chunks of the trial are there, and their number and length were announced.
pub record IsWhole (cs : List Bytes) (state : TrialState) : Type 0 where
  pub announced_chunks : state.raw_chunks_expected ≡ some (length cs)
  pub announced_len : state.raw_len ≡ some (length (joined cs))
  pub not_empty : 0 < length (joined cs)
  pub held : HoldsFrom state.raw_chunks 0 cs

-- The jitter is none, or packs.
abbrev pub JitterPacks : TrialState → Type 0
JitterPacks state =
    (is_empty (jitter_values state.jitter_chunks) ≡ true)
    ⊎ ((p : ℤ × Bytes × Bytes) × (pack_jitter state (jitter_values state.jitter_chunks) ≡ ok p))

ltb_ℤ-pos : (n : ℕ) → 0 < n → ltb_ℤ (pos 0) (pos n) ≡ true
ltb_ℤ-pos n h = ground arith

joined-nonempty : (cs : List Bytes) → 0 < length (joined cs) → ltb 0 (length cs) ≡ true
joined-nonempty [] h = absurd (omega arith)
joined-nonempty (c ∷ cs) h = ground arith

module _ (sha256_hex : Bytes → Text) (cs : List Bytes) (state : TrialState) where
  write_raw-HoldsFrom :
      (disk : Disk)
      → 0 < length (joined cs)
      → HoldsFrom state.raw_chunks 0 cs
      → write_raw sha256_hex state (length cs) (pos (length (joined cs))) disk
        ≡ write_complete sha256_hex state (joined cs) disk
  unfolding write_raw
  write_raw-HoldsFrom disk ne held =
      let whole : length (joined cs) ≤ length (joined cs) = omega arith in
      rw (
        joined-nonempty cs ne,
        ltb_ℤ-pos (length (joined cs)) ne,
        missing_from-HoldsFrom cs state.raw_chunks 0 held,
        join_chunks-HoldsFrom cs state.raw_chunks 0 held,
        take_all (length (joined cs)) (joined cs) whole,
        ==_refl (length (joined cs)),
      )

  write_jitter-packs :
      (disk : Disk)
      → JitterPacks state
      → (j : JitterPart) × ((write_jitter sha256_hex state disk).0 ≡ ok j)
        × ((write_jitter sha256_hex state disk).1.all_bin ≡ disk.all_bin)
  unfolding write_jitter
  write_jitter-packs disk (inl quiet) =
      (no_jitter, rw (write_jitter, quiet), rw (write_jitter, quiet))
  write_jitter-packs disk (inr (p, e)) =
      elim (Bool-cases (is_empty (jitter_values state.jitter_chunks))) [
        | inl quiet ↦ (no_jitter, rw (write_jitter, quiet), rw (write_jitter, quiet))
        | inr measured ↦ (
          (save_jitter sha256_hex state (jitter_values state.jitter_chunks) p.0 p.1 p.2 disk).0,
          rw (write_jitter, measured, e),
          rw (write_jitter, measured, e),
        )
      ]

  all_bin-write_response :
      (r : RawPart) (j : JitterPart) (disk : Disk)
      → (write_response sha256_hex state r j disk).1.all_bin ≡ disk.all_bin
  unfolding write_response
  all_bin-write_response r j disk = ground arith

  after_jitter-ok :
      (expected : ℕ) (r : RawPart) (j : JitterPart) (before : Result JitterPart × Disk)
      → before.0 ≡ ok j
      → ((after_jitter sha256_hex state expected r before).0 ≡ ok r.complete)
        × ((after_jitter sha256_hex state expected r before).1.all_bin ≡ before.1.all_bin)
  unfolding after_jitter
  after_jitter-ok expected r j (ok k, disk) e = (refl, all_bin-write_response r k disk)
  after_jitter-ok expected r j (err raised, disk) e = cc

  finish_trial-packs :
      (expected : ℕ) (r : RawPart) (disk : Disk)
      → JitterPacks state
      → ((finish_trial sha256_hex state expected r disk).0 ≡ ok r.complete)
        × ((finish_trial sha256_hex state expected r disk).1.all_bin ≡ disk.all_bin)
  unfolding finish_trial
  finish_trial-packs expected r disk packs =
      let (j, written, kept) = write_jitter-packs disk packs in
      let (done, same) =
        after_jitter-ok expected r j (write_jitter sha256_hex state disk) written in
      (done, same ∙ kept)

  expected_len_announced : IsWhole cs state → expected_len state ≡ ok (pos (length (joined cs)))
  unfolding expected_len
  expected_len_announced whole = rw (expected_len, whole.announced_len)

  expected_chunks_announced : IsWhole cs state → expected_chunks state ≡ length cs
  unfolding expected_chunks
  expected_chunks_announced whole = rw (expected_chunks, whole.announced_chunks)

  -- A trial that is not empty and whose chunks are all there, with the number and the length that
  -- were announced, is reported complete, and the stream of raw bytes grows by exactly the bytes
  -- that were cut, if the jitter packs.
  pub finalize_trial-IsWhole :
      (disk : Disk)
      → IsWhole cs state
      → JitterPacks state
      → ((finalize_trial sha256_hex state disk).0 ≡ ok true)
        × ((finalize_trial sha256_hex state disk).1.all_bin ≡ disk.all_bin ++ joined cs)
  unfolding finalize_trial write_complete
  finalize_trial-IsWhole disk whole packs =
      let (r, disk₁) = write_complete sha256_hex state (joined cs) disk in
      rw
        (
          finalize_trial,
          expected_len_announced whole,
          expected_chunks_announced whole,
          write_raw-HoldsFrom disk whole.not_empty whole.held,
        )
        (finish_trial-packs (length cs) r disk₁ packs)

  write_jitter-raises :
      (disk : Disk) (e : Error)
      → is_empty (jitter_values state.jitter_chunks) ≡ false
      → pack_jitter state (jitter_values state.jitter_chunks) ≡ err e
      → write_jitter sha256_hex state disk ≡ (err e, disk)
  unfolding write_jitter
  write_jitter-raises disk e measured raised = rw (write_jitter, measured, raised)

  finish_trial-raises :
      (expected : ℕ) (r : RawPart) (disk : Disk) (e : Error)
      → write_jitter sha256_hex state disk ≡ (err e, disk)
      → finish_trial sha256_hex state expected r disk ≡ (err e, disk)
  unfolding finish_trial after_jitter
  finish_trial-raises expected r disk e raised =
      ap (after_jitter sha256_hex state expected r) raised

  -- Where a trial is not empty, its chunks are all there as announced, and its jitter does not
  -- pack, closing it raises after the stream of raw bytes has grown by the trial's bytes: they are
  -- in the stream, and no line tells of them.
  pub finalize_trial-jitter_raises :
      (disk : Disk) (e : Error)
      → IsWhole cs state
      → is_empty (jitter_values state.jitter_chunks) ≡ false
      → pack_jitter state (jitter_values state.jitter_chunks) ≡ err e
      → ((finalize_trial sha256_hex state disk).0 ≡ err e)
        × ((finalize_trial sha256_hex state disk).1.all_bin ≡ disk.all_bin ++ joined cs)
        × ((finalize_trial sha256_hex state disk).1.rows ≡ disk.rows)
  unfolding finalize_trial write_complete
  finalize_trial-jitter_raises disk e whole measured raised =
      let (r, disk₁) = write_complete sha256_hex state (joined cs) disk in
      let same =
        finish_trial-raises (length cs) r disk₁ e (write_jitter-raises disk₁ e measured raised) in
      rw
        (
          finalize_trial,
          expected_len_announced whole,
          expected_chunks_announced whole,
          write_raw-HoldsFrom disk whole.not_empty whole.held,
          same,
        )
        (refl, refl, refl)
