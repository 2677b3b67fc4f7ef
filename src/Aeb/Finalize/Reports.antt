-- ===== src/Aeb/Finalize/Reports.antt =====
-- What closing a trial adds to the table.
use wireless_boot_entropy_ze.Base.{ℕ, ◌≡◌, refl, ap, Bool, List, [], ◌∷◌, ◌++◌, arith}
use mathlib.Core.Path.{subst}
use wireless_boot_entropy_ze.Base.Int.{ℤ}
use wireless_boot_entropy_ze.Python.Result.{Result, ok, err, Result-cases}
use wireless_boot_entropy_ze.Python.Struct.{Bytes}
use wireless_boot_entropy_ze.Python.Text.{Text}
use wireless_boot_entropy_ze.Aeb.Trial.{TrialState, Row, Disk}
use wireless_boot_entropy_ze.Aeb.Finalize.{
  RawPart, JitterPart, expected_chunks, expected_len, write_raw, write_jitter, write_response,
  trial_row, after_jitter, finish_trial, finalize_trial,
}

-- The line that closing a trial adds: none where it raises.
abbrev pub Reports : ℕ → List Row → Result Bool × Disk → Type 0
Reports id rows (ok complete, after) =
    (row : Row) × (after.rows ≡ rows ++ row ∷ [])
    × (row.complete ≡ complete)
    × (row.capture_id ≡ id)
Reports id rows (err e, after) = after.rows ≡ rows

module _ (sha256_hex : Bytes → Text) where
  rows-write_raw :
      (state : TrialState) (expected : ℕ) (raw_len : ℤ) (disk : Disk)
      → (write_raw sha256_hex state expected raw_len disk).1.rows ≡ disk.rows
  unfolding write_raw
  rows-write_raw state expected raw_len disk = ground arith

  rows-write_jitter :
      (state : TrialState) (disk : Disk) → (write_jitter sha256_hex state disk).1.rows ≡ disk.rows
  unfolding write_jitter
  rows-write_jitter state disk = ground arith

  rows-write_response :
      (state : TrialState) (r : RawPart) (j : JitterPart) (disk : Disk)
      → (write_response sha256_hex state r j disk).1.rows ≡ disk.rows
  unfolding write_response
  rows-write_response state r j disk = ground arith

  after_jitter-Reports :
      (state : TrialState) (expected : ℕ) (r : RawPart) (j : Result JitterPart × Disk)
      → Reports state.capture_id j.1.rows (after_jitter sha256_hex state expected r j)
  unfolding after_jitter trial_row
  after_jitter-Reports state expected r (err e, disk) = refl
  after_jitter-Reports state expected r (ok j, disk) =
      let row = trial_row state expected r j (write_response sha256_hex state r j disk).0 in
      (row, ap (λ rows. rows ++ row ∷ []) (rows-write_response state r j disk), refl, refl)

  Reports-finish_trial :
      (state : TrialState) (expected : ℕ) (r : RawPart) (disk : Disk)
      → Reports state.capture_id disk.rows (finish_trial sha256_hex state expected r disk)
  unfolding finish_trial
  Reports-finish_trial state expected r disk =
      subst
        (λ rows.
          Reports state.capture_id rows
            (after_jitter sha256_hex state expected r (write_jitter sha256_hex state disk)))
        (rows-write_jitter state disk)
        (after_jitter-Reports state expected r (write_jitter sha256_hex state disk))

  -- Closing a trial adds one line to the table, with the trial's capture id and with the result that
  -- is returned; where it raises, it adds none.
  pub finalize_trial-Reports :
      (state : TrialState) (disk : Disk)
      → Reports state.capture_id disk.rows (finalize_trial sha256_hex state disk)
  unfolding finalize_trial
  finalize_trial-Reports state disk =
      Result-cases (expected_len state) _
        (λ raw_len e.
          let (r, disk₁) = write_raw sha256_hex state (expected_chunks state) raw_len disk in
          rw (finalize_trial, e)
            (subst
              (λ rows.
                Reports state.capture_id rows
                  (finish_trial sha256_hex state (expected_chunks state) r disk₁))
              (rows-write_raw state (expected_chunks state) raw_len disk)
              (Reports-finish_trial state (expected_chunks state) r disk₁)))
        (λ raised e. rw (finalize_trial, e) refl)
