-- ===== src/Aeb/Collector/Cases.antt =====
-- The ways in which a datagram is handled, as one rule for properties of the outcome.
use wireless_boot_entropy_ze.Base.{
  ◌≡◌, refl, Option, some, Bool-cases, Option-cases, inl, inr, ◌==◌, nat_eq, pair_eq,
}
use wireless_boot_entropy_ze.Base.Int.{ℤ, pos, int_eq}
use wireless_boot_entropy_ze.Python.Result.{Error, Result, ok, err, Result-cases}
use wireless_boot_entropy_ze.Python.Struct.{Bytes}
use wireless_boot_entropy_ze.Python.Text.{Text, text_eq}
use wireless_boot_entropy_ze.Python.Dict.{lookup}
use wireless_boot_entropy_ze.Aeb.Wire.{
  Message, parse_message, type_hello, type_raw_begin, type_raw_chunk, type_raw_end,
  type_jitter_chunk,
}
use wireless_boot_entropy_ze.Aeb.ResultLine.{Fields, parse_result_line}
use wireless_boot_entropy_ze.Aeb.Trial.{Peer, StateKey, Time, TrialState}
use wireless_boot_entropy_ze.Aeb.Stimulus.{Args, Draws}
use wireless_boot_entropy_ze.Aeb.Collector.{
  Collector, put_state, result_trial, handle_result, with_end, close_trial, handle_open,
  handle_hello, handle_message, handle_datagram,
}

abbrev pub Handled : Type 0
Handled = Result (Unit {0}) × Collector

module _ {ℓ} (P : Handled → Type ℓ) (sha256_hex : Bytes → Text) (c : Collector) where
  -- A message of an open trial changes its state, closes it, or is dropped.
  pub handle_open_cases :
      (msg : Message) (key : StateKey) (state : TrialState)
      → ((state' : TrialState)
          → state'.capture_id ≡ state.capture_id
          → P (ok tt, put_state key state' c))
      → P (close_trial sha256_hex key (with_end msg state) c)
      → P (ok tt, c)
      → P (handle_open sha256_hex msg key state c)
  unfolding handle_open
  handle_open_cases msg key state put close drop =
      elim (Bool-cases (msg.msg_type == type_raw_begin)) [
        | inl e ↦ rw (handle_open, e) (put _ refl)
        | inr n₁ ↦ elim (Bool-cases (msg.msg_type == type_raw_chunk)) [
          | inl e ↦ rw (handle_open, n₁, e) (put _ refl)
          | inr n₂ ↦ elim (Bool-cases (msg.msg_type == type_jitter_chunk)) [
            | inl e ↦ rw (handle_open, n₁, n₂, e) (put _ refl)
            | inr n₃ ↦ elim (Bool-cases (msg.msg_type == type_raw_end)) [
              | inl e ↦ rw (handle_open, n₁, n₂, n₃, e) close
              | inr n₄ ↦ rw (handle_open, n₁, n₂, n₃, n₄) drop
            ]
          ]
        ]
      ]

  pub handle_result_cases :
      (result : Fields) (peer : Peer) (rx_time : Time)
      → ((e : Error) → P (err e, c))
      → ((trial : ℤ) (state state' : TrialState)
          → lookup (peer, trial) c.states ≡ some state
          → state'.capture_id ≡ state.capture_id
          → P (ok tt, put_state (peer, trial) state' c))
      → P (ok tt, c)
      → P (handle_result result peer rx_time c)
  unfolding handle_result
  handle_result_cases result peer rx_time raise put drop =
      Result-cases (result_trial result) _
        (λ trial e. elim (Option-cases (lookup (peer, trial) c.states)) [
          | inl unknown ↦ rw (handle_result, e, unknown) drop
          | inr (state, found) ↦ rw (handle_result, e, found) (put trial state _ found refl)
        ])
        (λ raised e. rw (handle_result, e) (raise raised))

module _ {ℓ} (P : Handled → Type ℓ) (sha256_hex : Bytes → Text) (args : Args) (fixed : Option Bytes)
    (peer : Peer) (rx_time : Time) (draws : Draws) (c : Collector) where
  abbrev pub arrived : Collector
  arrived = record c { last_rx = rx_time }

  -- A datagram raises, changes the state of an open trial of its sender, closes one, is a HELLO, or
  -- is dropped.
  pub handle_datagram_cases :
      (buffer : Bytes)
      → ((e : Error) → P (err e, arrived))
      → ((trial : ℤ) (state state' : TrialState)
          → lookup (peer, trial) c.states ≡ some state
          → state'.capture_id ≡ state.capture_id
          → P (ok tt, put_state (peer, trial) state' arrived))
      → ((msg : Message) (state : TrialState)
          → lookup (peer, pos msg.trial) c.states ≡ some state
          → P (close_trial sha256_hex (peer, pos msg.trial) (with_end msg state) arrived))
      → ((msg : Message) → P (handle_hello sha256_hex args fixed msg peer rx_time draws arrived))
      → P (ok tt, arrived)
      → P (handle_datagram sha256_hex args fixed buffer peer rx_time draws c)
  unfolding handle_datagram handle_message
  handle_datagram_cases buffer raise put close hello drop =
      elim (Option-cases (parse_result_line buffer)) [
        | inr (result, line) ↦
            rw (handle_datagram, line)
              (handle_result_cases P sha256_hex arrived result peer rx_time raise put drop)
        | inl no_line ↦ elim (Option-cases (parse_message buffer)) [
          | inl junk ↦ rw (handle_datagram, no_line, junk) drop
          | inr (msg, parsed) ↦ elim (Bool-cases (msg.msg_type == type_hello)) [
            | inl e ↦ rw (handle_datagram, no_line, parsed, e) (hello msg)
            | inr n ↦ elim (Option-cases (lookup (peer, pos msg.trial) c.states)) [
              | inl unknown ↦ rw (handle_datagram, no_line, parsed, n, unknown) drop
              | inr (state, found) ↦
                  rw (handle_datagram, no_line, parsed, n, found)
                    (handle_open_cases P sha256_hex arrived msg (peer, pos msg.trial) state
                      (λ state' same. put (pos msg.trial) state state' found same)
                      (close msg state found) drop)
            ]
          ]
        ]
      ]
