-- ===== src/Aeb/Collector/Firmware.antt =====
-- What the firmware sends for one trial (send_raw_stream and send_binary_msg of src/main.c beside the
-- scripts), as arrivals in aeb_collector.py's loop, and what a trial stores of it.
use wireless_boot_entropy_ze.Base.{
  joined, ℕ, ◌≡◌, ◌≤◌, refl, List, [], ◌∷◌, arith, length, take_all, nat_eq, pair_eq,
}
use wireless_boot_entropy_ze.Base.Int.{int_eq}
use wireless_boot_entropy_ze.Python.Result.{ok}
use wireless_boot_entropy_ze.Python.Struct.{Bytes, AreBytes}
use wireless_boot_entropy_ze.Python.Text.{Text, text_eq}
use wireless_boot_entropy_ze.Python.Dict.{insert}
use wireless_boot_entropy_ze.Aeb.Wire.{
  Message, type_raw_begin, type_raw_chunk, type_jitter_chunk, type_raw_end,
}
use wireless_boot_entropy_ze.Aeb.Wire.RoundTrip.{IsWireMessage, wire_bytes}
use wireless_boot_entropy_ze.Aeb.Trial.{Peer, StateKey, Time, TrialState}
use wireless_boot_entropy_ze.Aeb.Finalize.Reassembly.{Delivery, receive}
use wireless_boot_entropy_ze.Aeb.Stimulus.{Draws}
use wireless_boot_entropy_ze.Aeb.Collector.{
  Collector, Event, recv_size, received, put_state, handle_open,
}

-- A message with the time of its arrival, and draws that nothing but a HELLO uses.
pub record Arrival (A : Type 0) : Type 0 where
  pub content : A
  pub time : Time
  pub draws : Draws

abbrev pub arrives : Peer → Message → Time → Draws → Event
arrives peer msg time draws = received (wire_bytes msg) peer time draws

-- A chunk of raw bytes, or of jitter.
pub data Part : Type 0 where
  raw_part jitter_part : Delivery → Part

-- What the firmware sends for one trial, each message with the interval of the START.
module _ (trial : ℕ) (nonce : Bytes) (interval : ℕ) where
  abbrev pub message_with : ℕ → ℕ → ℕ → Bytes → Message
  message_with kind seq n payload = record {
    msg_type = kind;
    trial = trial;
    seq_or_count = seq;
    interval_us = interval;
    sample_bytes = n;
    nonce = nonce;
    payload = payload;
  }

  abbrev pub begin_message : List Bytes → Message
  begin_message cs = message_with type_raw_begin (length cs) (length (joined cs)) []

  abbrev pub part_message : Part → Message
  part_message (raw_part (i, payload)) = message_with type_raw_chunk i (length payload) payload
  part_message (jitter_part (i, payload)) =
      message_with type_jitter_chunk i (length payload) payload

  abbrev pub end_message : List Bytes → Message
  end_message cs = message_with type_raw_end (length cs) (length (joined cs)) []

-- The fields fit their places on the wire, the parts are bytes, and one call receives them all.
abbrev pub CanBeSent : Message → Type 0
CanBeSent msg =
    IsWireMessage msg × AreBytes (wire_bytes msg) × (length (wire_bytes msg) ≤ recv_size)

abbrev pub raw_of : List Part → List Delivery
raw_of [] = []
raw_of (raw_part d ∷ parts) = d ∷ raw_of parts
raw_of (jitter_part d ∷ parts) = raw_of parts

abbrev pub jitter_of : List Part → List Delivery
jitter_of [] = []
jitter_of (raw_part d ∷ parts) = jitter_of parts
jitter_of (jitter_part d ∷ parts) = d ∷ jitter_of parts

abbrev pub stored : Part → TrialState → TrialState
stored (raw_part (index, payload)) state = record state {
  raw_chunks = insert index payload state.raw_chunks;
}
stored (jitter_part (index, payload)) state = record state {
  jitter_chunks = insert index payload state.jitter_chunks;
}

-- What a trial has once parts were delivered.
abbrev pub with_parts : List Part → TrialState → TrialState
with_parts parts state = record state {
  raw_chunks = receive (raw_of parts) state.raw_chunks;
  jitter_chunks = receive (jitter_of parts) state.jitter_chunks;
}

pub with_parts-stored :
    (part : Part) (parts : List Part) (state : TrialState)
    → with_parts parts (stored part state) ≡ with_parts (part ∷ parts) state
unfolding receive
with_parts-stored (raw_part d) parts state = refl
with_parts-stored (jitter_part d) parts state = refl

-- A chunk in its message is stored whole.
pub handle_open-part :
    (sha256_hex : Bytes → Text) (part : Part) (trial : ℕ) (nonce : Bytes) (interval : ℕ)
    (key : StateKey) (state : TrialState) (c : Collector)
    → handle_open sha256_hex (part_message trial nonce interval part) key state c
      ≡ (ok tt, put_state key (stored part state) c)
unfolding handle_open
handle_open-part sha256_hex (raw_part (index, payload)) trial nonce interval key state c =
    rw (take_all (length payload) payload (omega arith))
handle_open-part sha256_hex (jitter_part (index, payload)) trial nonce interval key state c =
    rw (take_all (length payload) payload (omega arith))

abbrev pub part_events : Peer → ℕ → Bytes → ℕ → List (Arrival Part) → List Event
part_events peer trial nonce interval [] = []
part_events peer trial nonce interval (a ∷ arrivals) =
    arrives peer (part_message trial nonce interval a.content) a.time a.draws
    ∷ part_events peer trial nonce interval arrivals

abbrev pub contents : {A : Type 0} → List (Arrival A) → List A
contents [] = []
contents (a ∷ arrivals) = a.content ∷ contents arrivals
