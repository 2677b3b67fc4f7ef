-- ===== src/Tests/Sram.antt =====
-- A memory of three bytes, a power cycle that fails half way, and an experiment of one condition.
use wireless_boot_entropy_ze.Base.{ℕ, ◌≡◌, ◌≢◌, refl, some, List, [], ◌∷◌, false, replicate}
use wireless_boot_entropy_ze.Base.Int.{pos}
use wireless_boot_entropy_ze.Python.Result.{ok, err, runtime_error, Result}
use wireless_boot_entropy_ze.Python.Struct.{Bytes}
use wireless_boot_entropy_ze.Python.Text.{Text, codes}
use wireless_boot_entropy_ze.Aeb.Trial.{Time}
use wireless_boot_entropy_ze.Sram.Capture.{Round, read_capture}
use wireless_boot_entropy_ze.Sram.Power.{
  Outcomes, last_switch, perform_transition, perform_transition-on,
}
use wireless_boot_entropy_ze.Sram.Experiment.{
  Board, Experiment, CaptureRow, capture_pattern, for_patterns, for_repetitions, for_conditions,
  run_captures,
}
use wireless_boot_entropy_ze.Sram.Experiment.Recorded.{Recorded, schedule, run_captures-Recorded}

abbrev round : Bytes → Round
round raw = record { now = 5; raw = raw }

-- A begin line in the middle makes the first byte unknown again.
abbrev rounds : List Round
rounds =
    round (codes "[SRAM_CAPTURE_BEGIN] bytes=3 address=0x3ffb0000")
    ∷ round (codes "[SRAM_DATA] offset=0 hex=0a")
    ∷ round (codes "[SRAM_CAPTURE_BEGIN] bytes=3 address=0x3ffb0000")
    ∷ round (codes "[SRAM_DATA] offset=1 hex=0b0c")
    ∷ round (codes "[SRAM_DATA] offset=0 hex=0d")
    ∷ round (codes "[SRAM_CAPTURE_END]")
    ∷ round (codes "[SRAM_READY]")
    ∷ []

-- The wait is interrupted, and the command that switches the power on fails.
abbrev outcomes : Outcomes
outcomes = record {
  off_split = ok tt;
  on_split = ok tt;
  pulse = ok tt;
  off = ok tt;
  slept = err runtime_error;
  on = err runtime_error;
  waited = ok tt;
  opened_port = ok tt;
}

abbrev some_float : Text → Result Time
some_float s = ok 2000000

perform_transition-on_example :
    last_switch
      (perform_transition some_float (codes "power-2") (codes "off") (codes "on") outcomes).0
    ≢ some false
perform_transition-on_example =
    perform_transition-on some_float (codes "power-2") (codes "off") (codes "on") outcomes refl refl

-- A board that answers with its pattern, twice.
abbrev echo : Board
echo = record {
  World = ℕ;
  arm_pattern = λ pattern world. ok pattern;
  perform_transition = λ condition world. ok world;
  read_capture = λ world. ok ((world ∷ world ∷ [], pos 7), world);
}

abbrev no_digest : Bytes → Text
no_digest bs = []

abbrev row : ℕ → ℕ → ℕ → CaptureRow
row index pattern one_bits = record {
  capture_index = index;
  condition = codes "rts";
  repetition = 0;
  pattern = pattern;
  runtime_address = pos 7;
  sha256 = [];
  one_bits = one_bits;
  differing_bits = 0;
  byte_matches = 2;
}

abbrev ended : Experiment echo no_digest
ended = record {
  world = 0x55;
  capture_index = 4;
  rows = row 0 0x00 0 ∷ row 1 0xff 16 ∷ row 2 0xaa 8 ∷ row 3 0x55 8 ∷ [];
  payloads = replicate 2 0x00 ∷ replicate 2 0xff ∷ replicate 2 0xaa ∷ replicate 2 0x55 ∷ [];
}

echoed : run_captures echo no_digest (codes "rts" ∷ []) 1 0 ≡ ok ended
unfolding run_captures for_conditions for_repetitions for_patterns capture_pattern
echoed = refl

run_captures-Recorded_example : Recorded no_digest echo 0 (schedule (codes "rts" ∷ []) 1) ended
run_captures-Recorded_example =
    run_captures-Recorded no_digest echo (codes "rts" ∷ []) 1 0 ended echoed
