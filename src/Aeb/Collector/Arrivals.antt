-- ===== src/Aeb/Collector/Arrivals.antt =====
-- aeb_collector.py, main: the messages of one open trial, one round of the loop each.
use wireless_boot_entropy_ze.Base.{
  joined, ℕ, ◌≡◌, ◌≤◌, refl, ◌∙◌, true, false, Option, none, some, List, [], ◌∷◌, ◌++◌, ◌==◌, All,
  length, take_all, nat_eq, pair_eq,
}
use mathlib.Core.Path.{subst}
use wireless_boot_entropy_ze.Base.Int.{pos, ltb_ℤ, int_eq}
use wireless_boot_entropy_ze.Python.Result.{ok}
use wireless_boot_entropy_ze.Python.Struct.{Bytes, AreBytes}
use wireless_boot_entropy_ze.Python.Text.{Text, text_eq}
use wireless_boot_entropy_ze.Python.Dict.{lookup, lookup-insert, beq_refl}
use wireless_boot_entropy_ze.Aeb.Wire.{Message, type_hello}
use wireless_boot_entropy_ze.Aeb.Wire.RoundTrip.{
  IsWireMessage, wire_bytes, parse_message-wire_bytes,
}
use wireless_boot_entropy_ze.Aeb.ResultLine.RoundTrip.{message_is_no_result_line}
use wireless_boot_entropy_ze.Aeb.Trial.{Peer, StateKey, Time, TrialState}
use wireless_boot_entropy_ze.Aeb.Finalize.Reassembly.{receive}
use wireless_boot_entropy_ze.Aeb.Stimulus.{Args, Draws}
use wireless_boot_entropy_ze.Aeb.Collector.Firmware.{
  Arrival, arrives, Part, raw_part, jitter_part, begin_message, part_message, end_message,
  CanBeSent, stored, with_parts, with_parts-stored, handle_open-part, part_events, contents,
}
use wireless_boot_entropy_ze.Aeb.Collector.{
  Collector, Event, recv_size, put_state, with_end, close_trial, handle_open, handle_datagram, step,
  run,
}

-- The trial is open under `key`, and since `start` nothing was written or counted.
pub record Open (key : StateKey) (state : TrialState) (start c : Collector) : Type 0 where
  pub found : lookup key c.states ≡ some state
  pub disk : c.disk ≡ start.disk
  pub completed : c.completed ≡ start.completed

abbrev pub at_time : Time → Collector → Collector
at_time time c = record c { last_rx = time }

pub put_state-Open :
    (key : StateKey) (state state' : TrialState) (start c : Collector) (time : Time)
    → Open key state start c
    → Open key state' start (put_state key state' (at_time time c))
put_state-Open key state state' start c time h = record {
  found = rw (lookup-insert key key state' c.states, beq_refl key);
  disk = h.disk;
  completed = h.completed;
}

module _ (sha256_hex : Bytes → Text) (args : Args) (fixed : Option Bytes) (peer : Peer) where
  -- The datagram of a message, for an open trial, is handled as that message.
  handle_datagram-arrives :
      (msg : Message) (time : Time) (draws : Draws) (state : TrialState) (c : Collector)
      → IsWireMessage msg
      → AreBytes (wire_bytes msg)
      → (msg.msg_type == type_hello) ≡ false
      → lookup (peer, pos msg.trial) c.states ≡ some state
      → handle_datagram sha256_hex args fixed (wire_bytes msg) peer time draws c
        ≡ handle_open sha256_hex msg (peer, pos msg.trial) state (at_time time c)
  unfolding handle_datagram
  handle_datagram-arrives msg time draws state c fits bytes other found =
      let parsed = parse_message-wire_bytes msg fits in
      let no_line = message_is_no_result_line (wire_bytes msg) bytes parsed in
      rw (handle_datagram, no_line, parsed, other, found)

  -- One round of the loop with such a message.
  pub run-arrives :
      (msg : Message) (time : Time) (draws : Draws) (state : TrialState) (rest : List Event)
      (c c₁ : Collector)
      → IsWireMessage msg
      → AreBytes (wire_bytes msg)
      → length (wire_bytes msg) ≤ recv_size
      → (msg.msg_type == type_hello) ≡ false
      → lookup (peer, pos msg.trial) c.states ≡ some state
      → ltb_ℤ (pos c.completed) args.trials ≡ true
      → handle_open sha256_hex msg (peer, pos msg.trial) state (at_time time c) ≡ (ok tt, c₁)
      → run sha256_hex args fixed (arrives peer msg time draws ∷ rest) c
        ≡ run sha256_hex args fixed rest c₁
  unfolding run step
  run-arrives msg time draws state rest c c₁ fits bytes short other found more handled =
      let done : handle_datagram sha256_hex args fixed (wire_bytes msg) peer time draws c
          ≡ (ok tt, c₁) =
        handle_datagram-arrives msg time draws state c fits bytes other found ∙ handled in
      let stepped : step sha256_hex args fixed (arrives peer msg time draws) c ≡ (none, c₁) =
        rw (step, take_all recv_size (wire_bytes msg) short, done) in
      rw (run, more, stepped)

module _ (sha256_hex : Bytes → Text) (args : Args) (fixed : Option Bytes) (peer : Peer) (trial : ℕ)
    (nonce : Bytes) (interval : ℕ) where
  pub target_ahead :
      {key : StateKey} {state : TrialState} {start c : Collector}
      → Open key state start c
      → ltb_ℤ (pos start.completed) args.trials ≡ true
      → ltb_ℤ (pos c.completed) args.trials ≡ true
  target_ahead h more = rw h.completed more

  -- One chunk, for the open trial.
  run-part :
      (part : Part) (time : Time) (draws : Draws) (state : TrialState) (rest : List Event)
      (c : Collector)
      → CanBeSent (part_message trial nonce interval part)
      → lookup (peer, pos trial) c.states ≡ some state
      → ltb_ℤ (pos c.completed) args.trials ≡ true
      → run sha256_hex args fixed
          (arrives peer (part_message trial nonce interval part) time draws ∷ rest)
          c
        ≡ run sha256_hex args fixed rest
            (put_state (peer, pos trial) (stored part state) (at_time time c))
  run-part (raw_part d) time draws state rest c fits found more =
      run-arrives sha256_hex args fixed peer (part_message trial nonce interval (raw_part d)) time
        draws state rest c _ fits.0 fits.1 fits.2 refl found more
        (handle_open-part sha256_hex (raw_part d) trial nonce interval (peer, pos trial) state _)
  run-part (jitter_part d) time draws state rest c fits found more =
      run-arrives sha256_hex args fixed peer (part_message trial nonce interval (jitter_part d))
        time draws state rest c _ fits.0 fits.1 fits.2 refl found more
        (handle_open-part sha256_hex (jitter_part d) trial nonce interval (peer, pos trial) state _)

  -- The chunks, one round each, leave the trial open with what they delivered.
  pub run-parts :
      (arrivals : List (Arrival Part)) (state : TrialState) (rest : List Event)
      (start c : Collector)
      → All (λ part. CanBeSent (part_message trial nonce interval part)) (contents arrivals)
      → Open (peer, pos trial) state start c
      → ltb_ℤ (pos start.completed) args.trials ≡ true
      → (c₁ : Collector) × Open (peer, pos trial) (with_parts (contents arrivals) state) start c₁
        × (run sha256_hex args fixed (part_events peer trial nonce interval arrivals ++ rest) c
            ≡ run sha256_hex args fixed rest c₁)
  unfolding receive
  run-parts [] state rest start c fits h more = (c, h, refl)
  run-parts (a ∷ arrivals) state rest start c (fits, later) h more =
      let state₁ = stored a.content state in
      let c₁ = put_state (peer, pos trial) state₁ (at_time a.time c) in
      let (c₂, open₂, ran) =
        run-parts arrivals state₁ rest start c₁ later
          (put_state-Open (peer, pos trial) state state₁ start c a.time h) more in
      (
        c₂,
        subst (λ last. Open (peer, pos trial) last start c₂)
            (with_parts-stored a.content (contents arrivals) state) open₂,
        run-part a.content a.time a.draws state
              (part_events peer trial nonce interval arrivals ++ rest) c fits h.found
              (target_ahead h more)
            ∙ ran,
      )

  pub handle_open-begin :
      (cs : List Bytes) (state : TrialState) (c : Collector)
      → handle_open sha256_hex (begin_message trial nonce interval cs) (peer, pos trial) state c ≡ (
        ok tt,
        put_state
            (peer, pos trial)
            (record state {
              raw_chunks_expected = some (length cs);
              raw_len = some (length (joined cs));
            })
            c,
      )
  unfolding handle_open
  handle_open-begin cs state c = refl

  pub handle_open-end :
      (cs : List Bytes) (state : TrialState) (c : Collector)
      → handle_open sha256_hex (end_message trial nonce interval cs) (peer, pos trial) state c
        ≡ close_trial sha256_hex
            (peer, pos trial)
            (with_end (end_message trial nonce interval cs) state)
            c
  unfolding handle_open
  handle_open-end cs state c = refl
