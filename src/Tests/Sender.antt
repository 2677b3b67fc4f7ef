-- ===== src/Tests/Sender.antt =====
-- The stimulus sender at concrete arguments.
use wireless_boot_entropy_ze.Base.{ℕ, ◌≡◌, refl, none, All, length, map}
use wireless_boot_entropy_ze.Base.Int.{pos}
use wireless_boot_entropy_ze.Python.Result.{ok, err, system_exit}
use wireless_boot_entropy_ze.Python.Struct.{pack_le}
use wireless_boot_entropy_ze.Aeb.Wire.{parse_message, make_message}
use wireless_boot_entropy_ze.Aeb.Sender.{SenderArgs, TrialDraws, check_args, run_sender}
use wireless_boot_entropy_ze.Aeb.Sender.Trials.{trials_heard, run_sender-heard}
use wireless_boot_entropy_ze.Aeb.Sender.Sizes.{length-run_sender}
use wireless_boot_entropy_ze.Tests.Inputs.{nonce}

abbrev two_trials : SenderArgs
two_trials = record {
  trials = pos 2;
  bursts = pos 2;
  interval_us = pos 1000;
  payload_bytes = pos 44;
  sample_bytes = pos 64;
  start_gap_ms = pos 20;
  trial_gap_ms = pos 250;
}

abbrev drawn : ℕ → TrialDraws
drawn trial = record { fresh_nonce = nonce; start_time_ns = 0; end_time_ns = 1 }

two_trials_end : (run_sender two_trials none drawn).0 ≡ ok tt
unfolding run_sender make_message pack_le
two_trials_end = refl

run_sender-heard_example :
    map parse_message (run_sender two_trials none drawn).1.packets
    ≡ trials_heard two_trials none drawn 2 0
run_sender-heard_example = run_sender-heard two_trials none drawn (λ trial. refl) two_trials_end

length-run_sender_example :
    All (λ p. pos (length p) ≡ pos 44) (run_sender two_trials none drawn).1.packets
length-run_sender_example = length-run_sender two_trials none drawn (λ trial. refl)

short_payload : check_args (record two_trials { payload_bytes = pos 39 }) ≡ err system_exit
unfolding check_args
short_payload = refl
