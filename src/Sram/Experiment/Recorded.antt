-- ===== src/Sram/Experiment/Recorded.antt =====
-- run_experiment.py: the rows and the captures of an experiment, against its schedule.
use wireless_boot_entropy_ze.Base.{
  ℕ, zero, suc, ◌+◌, ◌≡◌, refl, sym, ◌∙◌, List, [], ◌∷◌, ◌++◌, append-nil, append_assoc, arith,
  length, length-append,
}
use mathlib.Core.Path.{subst}
use wireless_boot_entropy_ze.Base.Int.{ℤ}
use wireless_boot_entropy_ze.Python.Result.{ok, >>=-eq-ok, ok-injective}
use wireless_boot_entropy_ze.Python.Struct.{Bytes}
use wireless_boot_entropy_ze.Python.Text.{Text}
use wireless_boot_entropy_ze.Sram.Experiment.{
  patterns, Board, CaptureRow, differing, Setting, Experiment, row_of, add_capture, capture_pattern,
  for_patterns, for_repetitions, for_conditions, first_experiment, run_captures,
}

-- The settings in their order: for each condition and repetition, the patterns one after the other.
abbrev pub pattern_settings : Text → ℕ → List ℕ → List Setting
pattern_settings condition repetition [] = []
pattern_settings condition repetition (pattern ∷ more) =
    (condition, (repetition, pattern)) ∷ pattern_settings condition repetition more

abbrev pub repetition_settings : Text → ℕ → ℕ → List Setting
repetition_settings condition repetition zero = []
repetition_settings condition repetition (suc left) =
    pattern_settings condition repetition patterns
    ++ repetition_settings condition (repetition + 1) left

abbrev pub schedule : List Text → ℕ → List Setting
schedule [] repetitions = []
schedule (condition ∷ more) repetitions =
    repetition_settings condition 0 repetitions ++ schedule more repetitions

module _ (sha256 : Bytes → Text) (b : Board) where
  open b use {World, arm_pattern, perform_transition, read_capture}

  -- A row that was written for a setting and a capture, where the board went from the one world to the
  -- other: the pattern was armed, then the transition made, then the capture read.
  pub record IsRowOf (index : ℕ) (before : World) (setting : Setting) (block : Bytes)
      (row : CaptureRow) (after : World) : Type 0 where
    pub armed : World
    pub restarted : World
    pub arms : arm_pattern setting.1.1 before ≡ ok armed
    pub restarts : perform_transition setting.0 armed ≡ ok restarted
    pub reads : read_capture restarted ≡ ok ((block, row.runtime_address), after)
    pub numbered : row.capture_index ≡ index
    pub of_condition : row.condition ≡ setting.0
    pub of_repetition : row.repetition ≡ setting.1.0
    pub of_pattern : row.pattern ≡ setting.1.1
    pub digest : row.sha256 ≡ sha256 block
    pub agreement : row.differing_bits ≡ differing block setting.1.1

  -- Each capture starts in the world that the one before it left.
  abbrev pub RowsOf : ℕ → World → List Setting → List Bytes → List CaptureRow → World → Type 0
  RowsOf index before [] [] [] after = before ≡ after
  RowsOf index before (setting ∷ settings) (block ∷ payloads) (row ∷ rows) after =
      (next : World) × IsRowOf index before setting block row next
      × RowsOf (index + 1) next settings payloads rows after
  RowsOf index before _ _ _ after = ⊥

  RowsOf-append :
      (index : ℕ) (before middle after : World) (settings : List Setting) (payloads : List Bytes)
      (rows : List CaptureRow) (setting : Setting) (block : Bytes) (row : CaptureRow)
      → RowsOf index before settings payloads rows middle
      → IsRowOf (index + length rows) middle setting block row after
      → RowsOf index before
          (settings ++ setting ∷ [])
          (payloads ++ block ∷ [])
          (rows ++ row ∷ [])
          after
  RowsOf-append index before middle after [] [] [] setting block row h one = (
    after,
    subst (λ n. IsRowOf n before setting block row after) (omega arith)
        (subst (λ w. IsRowOf (index + 0) w setting block row after) (sym h) one),
    refl,
  )
  RowsOf-append index before middle after (t ∷ settings) (p ∷ payloads) (r ∷ rows) setting block row
        (next, h, more) one =
      (
        next,
        h,
        RowsOf-append (index + 1) next middle after settings payloads rows setting block row more
            (subst (λ n. IsRowOf n middle setting block row after) (omega arith) one),
      )
  RowsOf-append index before middle after [] [] (r ∷ rows) setting block row h one = absurd h
  RowsOf-append index before middle after [] (p ∷ payloads) rows setting block row h one = absurd h
  RowsOf-append index before middle after (t ∷ settings) [] rows setting block row h one = absurd h
  RowsOf-append index before middle after (t ∷ settings) (p ∷ payloads) [] setting block row h one =
      absurd h

  module _ (start : World) where
    -- The rows and the captures of the settings done so far, by a board that began in `start`.
    pub record Recorded (done : List Setting) (s : Experiment b sha256) : Type 0 where
      pub counted : s.capture_index ≡ length s.rows
      pub rows_of : RowsOf 0 start done s.payloads s.rows s.world

    add_capture-Recorded :
        (done : List Setting) (setting : Setting) (s : Experiment b sha256)
        (armed restarted : World) (read : (Bytes × ℤ) × World)
        → Recorded done s
        → arm_pattern setting.1.1 s.world ≡ ok armed
        → perform_transition setting.0 armed ≡ ok restarted
        → read_capture restarted ≡ ok read
        → Recorded (done ++ setting ∷ []) (add_capture b sha256 setting s read)
    add_capture-Recorded done setting s armed restarted read h arms restarts reads =
        let row = row_of b sha256 s.capture_index setting read.0.0 read.0.1 in
        record {
          counted = omega (arith, h.counted, length-append s.rows (row ∷ []));
          rows_of =
              RowsOf-append 0 start s.world read.1 done s.payloads s.rows setting read.0.0 row
                h.rows_of
                (record {
                  armed = armed;
                  restarted = restarted;
                  arms = arms;
                  restarts = restarts;
                  reads = reads;
                  numbered = h.counted ∙ omega arith;
                  of_condition = refl;
                  of_repetition = refl;
                  of_pattern = refl;
                  digest = refl;
                  agreement = refl;
                });
        }

    capture_pattern-Recorded :
        (done : List Setting) (setting : Setting) (s s₁ : Experiment b sha256)
        → Recorded done s
        → capture_pattern b sha256 setting s ≡ ok s₁
        → Recorded (done ++ setting ∷ []) s₁
    unfolding capture_pattern
    capture_pattern-Recorded done setting s s₁ h e =
        let (armed, arms, after) = >>=-eq-ok (arm_pattern setting.1.1 s.world) _ e in
        let (restarted, restarts, after₁) =
          >>=-eq-ok (perform_transition setting.0 armed) _ after in
        let (read, reads, same) = >>=-eq-ok (read_capture restarted) _ after₁ in
        subst (Recorded (done ++ setting ∷ [])) (ok-injective same)
          (add_capture-Recorded done setting s armed restarted read h arms restarts reads)

    for_patterns-Recorded :
        (condition : Text) (repetition : ℕ) (left : List ℕ) (done : List Setting)
        (s s₁ : Experiment b sha256)
        → Recorded done s
        → for_patterns b sha256 condition repetition left s ≡ ok s₁
        → Recorded (done ++ pattern_settings condition repetition left) s₁
    unfolding for_patterns
    for_patterns-Recorded condition repetition [] done s s₁ h e =
        subst (λ d. Recorded d s₁) (sym (append-nil done))
          (subst (Recorded done) (ok-injective e) h)
    for_patterns-Recorded condition repetition (pattern ∷ left) done s s₁ h e =
        let setting : Setting = (condition, (repetition, pattern)) in
        let (next, first, rest) = >>=-eq-ok (capture_pattern b sha256 setting s) _ e in
        subst (λ d. Recorded d s₁)
          (append_assoc done (setting ∷ []) (pattern_settings condition repetition left))
          (for_patterns-Recorded condition repetition left (done ++ setting ∷ []) next s₁
            (capture_pattern-Recorded done setting s next h first) rest)

    for_repetitions-Recorded :
        (condition : Text) (repetition left : ℕ) (done : List Setting) (s s₁ : Experiment b sha256)
        → Recorded done s
        → for_repetitions b sha256 condition repetition left s ≡ ok s₁
        → Recorded (done ++ repetition_settings condition repetition left) s₁
    unfolding for_repetitions
    for_repetitions-Recorded condition repetition zero done s s₁ h e =
        subst (λ d. Recorded d s₁) (sym (append-nil done))
          (subst (Recorded done) (ok-injective e) h)
    for_repetitions-Recorded condition repetition (suc left) done s s₁ h e =
        let now = pattern_settings condition repetition patterns in
        let (next, first, rest) =
          >>=-eq-ok (for_patterns b sha256 condition repetition patterns s) _ e in
        subst (λ d. Recorded d s₁)
          (append_assoc done now (repetition_settings condition (repetition + 1) left))
          (for_repetitions-Recorded condition (repetition + 1) left (done ++ now) next s₁
            (for_patterns-Recorded condition repetition patterns done s next h first) rest)

    for_conditions-Recorded :
        (conditions : List Text) (repetitions : ℕ) (done : List Setting)
        (s s₁ : Experiment b sha256)
        → Recorded done s
        → for_conditions b sha256 conditions repetitions s ≡ ok s₁
        → Recorded (done ++ schedule conditions repetitions) s₁
    unfolding for_conditions
    for_conditions-Recorded [] repetitions done s s₁ h e =
        subst (λ d. Recorded d s₁) (sym (append-nil done))
          (subst (Recorded done) (ok-injective e) h)
    for_conditions-Recorded (condition ∷ more) repetitions done s s₁ h e =
        let now = repetition_settings condition 0 repetitions in
        let (next, first, rest) =
          >>=-eq-ok (for_repetitions b sha256 condition 0 repetitions s) _ e in
        subst (λ d. Recorded d s₁) (append_assoc done now (schedule more repetitions))
          (for_conditions-Recorded more repetitions (done ++ now) next s₁
            (for_repetitions-Recorded condition 0 repetitions done s next h first) rest)

  -- Where no step raises, the experiment has one row and one capture for each setting of the schedule,
  -- in its order and numbered from 0. The pattern of the setting was armed, then the transition of its
  -- condition was made, and then the capture was read, each on the board as the step before left it,
  -- and the first on the board as it was given. Each row has the address that was read, the digest of
  -- its own capture and the number of bits in which that differs from the pattern.
  pub run_captures-Recorded :
      (conditions : List Text) (repetitions : ℕ) (world : World) (s : Experiment b sha256)
      → run_captures b sha256 conditions repetitions world ≡ ok s
      → Recorded world (schedule conditions repetitions) s
  unfolding run_captures
  run_captures-Recorded conditions repetitions world s e =
      for_conditions-Recorded world conditions repetitions [] (first_experiment b sha256 world) s
        (record { counted = refl; rows_of = refl }) e
