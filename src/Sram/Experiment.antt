-- ===== src/Sram/Experiment.antt =====
-- run_experiment.py: the loop of main over conditions, repetitions and patterns. The board is a
-- parameter: arming a pattern, the transition, and a capture may each raise. The ratios of a row are
-- their numerators here, since each is over the bits or the bytes of the capture.
pub mod Recorded
use wireless_boot_entropy_ze.Base.{
  ℕ, zero, suc, ◌+◌, ◌*◌, ◌≡◌, refl, sym, ap, ◌∙◌, List, [], ◌∷◌, ◌++◌, append-nil, append_assoc,
  map, arith, ◌==◌, if◌then◌else◌, length, length-append, none, some, Option,
}
use mathlib.Core.Path.{subst}
use wireless_boot_entropy_ze.Base.Int.{ℤ}
use wireless_boot_entropy_ze.Python.Result.{Result, ok, err, ◌>>=◌, >>=-eq-ok, ok-injective}
use wireless_boot_entropy_ze.Python.Struct.{Bytes}
use wireless_boot_entropy_ze.Python.Text.{Text}
use wireless_boot_entropy_ze.Slices.Statistics.{bit_count}
use wireless_boot_entropy_ze.Slices.Comparison.{xor}

abbrev pub patterns : List ℕ
patterns = 0x00 ∷ 0xff ∷ 0xaa ∷ 0x55 ∷ []

pub record Board : Type 1 where
  pub World : Type 0
  pub arm_pattern : ℕ → World → Result World
  pub perform_transition : Text → World → Result World
  pub read_capture : World → Result ((Bytes × ℤ) × World)

pub record CaptureRow : Type 0 where
  pub capture_index : ℕ
  pub condition : Text
  pub repetition : ℕ
  pub pattern : ℕ
  pub runtime_address : ℤ
  pub sha256 : Text
  pub one_bits : ℕ
  pub differing_bits : ℕ
  pub byte_matches : ℕ

-- `sum((value ^ pattern).bit_count() for value in data)`
abbrev pub differing : Bytes → ℕ → ℕ
differing [] pattern = 0
differing (value ∷ rest) pattern = bit_count (xor 8 value pattern) + differing rest pattern

abbrev pub ones : Bytes → ℕ
ones [] = 0
ones (value ∷ rest) = bit_count value + ones rest

-- `data.count(pattern)`
abbrev pub count_of : Bytes → ℕ → ℕ
count_of [] pattern = 0
count_of (value ∷ rest) pattern = (if value == pattern then 1 else 0) + count_of rest pattern

-- What a capture is of.
abbrev pub Setting : Type 0
Setting = Text × (ℕ × ℕ)

module _ (b : Board) (sha256 : Bytes → Text) where
  open b use {World, arm_pattern, perform_transition, read_capture}

  pub record Experiment : Type 0 where
    pub world : World
    pub capture_index : ℕ
    pub rows : List CaptureRow
    pub payloads : List Bytes

  abbrev pub row_of : ℕ → Setting → Bytes → ℤ → CaptureRow
  row_of index setting block address = record {
    capture_index = index;
    condition = setting.0;
    repetition = setting.1.0;
    pattern = setting.1.1;
    runtime_address = address;
    sha256 = sha256 block;
    one_bits = ones block;
    differing_bits = differing block setting.1.1;
    byte_matches = count_of block setting.1.1;
  }

  abbrev pub add_capture : Setting → Experiment → (Bytes × ℤ) × World → Experiment
  add_capture setting s read = record {
    world = read.1;
    capture_index = s.capture_index + 1;
    rows = s.rows ++ row_of s.capture_index setting read.0.0 read.0.1 ∷ [];
    payloads = s.payloads ++ read.0.0 ∷ [];
  }

  -- One round of the inner loop.
  unfoldable pub capture_pattern : Setting → Experiment → Result Experiment
  capture_pattern setting s = do
    armed ← arm_pattern setting.1.1 s.world
    restarted ← perform_transition setting.0 armed
    read ← read_capture restarted
    ok (add_capture setting s read)

  unfoldable pub for_patterns : Text → ℕ → List ℕ → Experiment → Result Experiment
  unfolding capture_pattern
  for_patterns condition repetition [] s = ok s
  for_patterns condition repetition (pattern ∷ more) s = do
    s₁ ← capture_pattern (condition, (repetition, pattern)) s
    for_patterns condition repetition more s₁

  -- The repetitions from one on, as many as the third argument says.
  unfoldable pub for_repetitions : Text → ℕ → ℕ → Experiment → Result Experiment
  unfolding for_patterns
  for_repetitions condition repetition zero s = ok s
  for_repetitions condition repetition (suc left) s = do
    s₁ ← for_patterns condition repetition patterns s
    for_repetitions condition (repetition + 1) left s₁

  unfoldable pub for_conditions : List Text → ℕ → Experiment → Result Experiment
  unfolding for_repetitions
  for_conditions [] repetitions s = ok s
  for_conditions (condition ∷ more) repetitions s = do
    s₁ ← for_repetitions condition 0 repetitions s
    for_conditions more repetitions s₁

  abbrev pub first_experiment : World → Experiment
  first_experiment world = record { world = world; capture_index = 0; rows = []; payloads = [] }

  -- The loops, behind the first capture, which is thrown away.
  unfoldable pub run_captures : List Text → ℕ → World → Result Experiment
  unfolding for_conditions
  run_captures conditions repetitions world =
      for_conditions conditions repetitions (first_experiment world)
