-- ===== src/Aeb/Sender.antt =====
-- stimulus_sender.py: START and BURST packets for a number of trials, with a log. The nonces that
-- os.urandom gives and the clock readings are drawn, one draw for each trial.
pub mod Packets
pub mod Trials
pub mod Sizes
use wireless_boot_entropy_ze.Base.{
  ℕ, zero, suc, ◌+◌, ◌-◌, Option, none, some, List, [], ◌∷◌, ◌++◌, if◌then◌else◌,
}
use wireless_boot_entropy_ze.Base.Int.{ℤ, pos, negsuc, ltb_ℤ, int_beq, pos_part}
use wireless_boot_entropy_ze.Python.Result.{Result, ok, err, value_error, system_exit, ◌>>=◌}
use wireless_boot_entropy_ze.Python.Struct.{Bytes}
use wireless_boot_entropy_ze.Aeb.Wire.{make_message, header_size, type_start, type_burst}
use wireless_boot_entropy_ze.Aeb.Stimulus.{counter_payload}

pub record SenderArgs : Type 0 where
  pub trials : ℤ
  pub bursts : ℤ
  pub interval_us : ℤ
  pub payload_bytes : ℤ
  pub sample_bytes : ℤ
  pub start_gap_ms : ℤ
  pub trial_gap_ms : ℤ

-- What one trial draws: its nonce, and the times in nanoseconds.
pub record TrialDraws : Type 0 where
  pub fresh_nonce : Bytes
  pub start_time_ns : ℕ
  pub end_time_ns : ℕ

pub data Condition : Type 0 where
  idle_condition burst_condition : Condition

-- A line of the log, less the columns that copy the arguments.
pub record LogRow : Type 0 where
  pub trial : ℕ
  pub condition : Condition
  pub nonce : Bytes
  pub start_time_ns : ℕ
  pub end_time_ns : ℕ

-- The packets sent and the lines written so far.
pub record Sender : Type 0 where
  pub packets : List Bytes
  pub log : List LogRow

-- A statement that may raise, and what follows it.
abbrev pub and_then :
    Result (Unit {0}) × Sender → (Sender → Result (Unit {0}) × Sender) → Result (Unit {0}) × Sender
and_then (err e, s) next = (err e, s)
and_then (ok _, s) next = next s

-- The header, filled up to `payload_bytes` bytes in all.
unfoldable pub make_msg : ℤ → ℤ → ℤ → ℤ → ℤ → Bytes → ℤ → Result Bytes
unfolding counter_payload
make_msg msg_type trial seq_or_count interval_us sample_bytes nonce payload_bytes = do
  header ← make_message msg_type trial seq_or_count interval_us sample_bytes nonce []
  ok (header ++ counter_payload (pos_part payload_bytes - header_size) (pos_part seq_or_count))

-- The tests at the start of `main`.
unfoldable pub check_args : SenderArgs → Result (Unit {0})
check_args args =
    if ltb_ℤ args.trials (pos 1)
    then err system_exit
    else if ltb_ℤ args.bursts (pos 0)
    then err system_exit
    else if ltb_ℤ args.sample_bytes (pos 1)
    then err system_exit
    else if ltb_ℤ args.payload_bytes (pos header_size)
    then err system_exit
    else ok tt

-- `time.sleep(ms / 1000.0)`
abbrev pub sleep_ms : ℤ → Sender → Result (Unit {0}) × Sender
sleep_ms (pos n) s = (ok tt, s)
sleep_ms (negsuc n) s = (err value_error, s)

module _ (args : SenderArgs) where
  unfoldable pub send_packet : ℕ → ℕ → ℤ → Bytes → Sender → Result (Unit {0}) × Sender
  unfolding make_msg
  send_packet kind trial seq nonce s =
      elim (make_msg (pos kind) (pos trial) seq args.interval_us args.sample_bytes nonce
        args.payload_bytes) [
          | err e ↦ (err e, s)
          | ok packet ↦ (ok tt, record s { packets = s.packets ++ packet ∷ [] })
        ]

  -- `for seq in range(args.bursts)`, with the number of packets that are left.
  unfoldable pub send_bursts_from : ℕ → ℕ → Bytes → ℕ → Sender → Result (Unit {0}) × Sender
  unfolding send_packet
  send_bursts_from zero trial nonce seq s = (ok tt, s)
  send_bursts_from (suc n) trial nonce seq s =
      and_then (send_packet type_burst trial (pos seq) nonce s)
        (λ s₁. send_bursts_from n trial nonce (seq + 1) s₁)

  abbrev pub log_trial : ℕ → Bytes → TrialDraws → Sender → Sender
  log_trial trial nonce draws s = record s {
    log =
        s.log
        ++ record {
          trial = trial;
          condition = if int_beq args.bursts (pos 0) then idle_condition else burst_condition;
          nonce = nonce;
          start_time_ns = draws.start_time_ns;
          end_time_ns = draws.end_time_ns;
        }
          ∷ [];
  }

  unfoldable pub send_trial : ℕ → Bytes → TrialDraws → Sender → Result (Unit {0}) × Sender
  unfolding send_bursts_from
  send_trial trial nonce draws s =
      and_then (send_packet type_start trial args.bursts nonce s) (λ s₁.
        and_then (sleep_ms args.start_gap_ms s₁) (λ s₂.
          and_then (send_bursts_from (pos_part args.bursts) trial nonce 0 s₂)
            (λ s₃. sleep_ms args.trial_gap_ms (log_trial trial nonce draws s₃))))

  abbrev pub nonce_of : Option Bytes → TrialDraws → Bytes
  nonce_of none draws = draws.fresh_nonce
  nonce_of (some fixed) draws = fixed

  -- `for trial in range(args.trials)`, with the number of trials that are left.
  unfoldable pub send_trials :
      Option Bytes → (ℕ → TrialDraws) → ℕ → ℕ → Sender → Result (Unit {0}) × Sender
  unfolding send_trial
  send_trials fixed draws zero trial s = (ok tt, s)
  send_trials fixed draws (suc n) trial s =
      and_then (send_trial trial (nonce_of fixed (draws trial)) (draws trial) s)
        (λ s₁. send_trials fixed draws n (trial + 1) s₁)

  abbrev pub no_packets : Sender
  no_packets = record { packets = []; log = [] }

  unfoldable pub run_sender : Option Bytes → (ℕ → TrialDraws) → Result (Unit {0}) × Sender
  unfolding check_args send_trials
  run_sender fixed draws =
      and_then (check_args args, no_packets)
        (λ s. send_trials fixed draws (pos_part args.trials) 0 s)
