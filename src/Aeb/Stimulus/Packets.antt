-- ===== src/Aeb/Stimulus/Packets.antt =====
-- What a HELLO is answered with.
use mathlib.Core.List.{map-append}
use wireless_boot_entropy_ze.Base.{
  ℕ, zero, suc, ◌+◌, ◌<◌, ◌^◌, ◌≡◌, refl, ap, sym, ◌∙◌, Option, some, List, [], ◌∷◌, ◌++◌,
  append_assoc, append-nil, Bool-cases, inl, inr, length, ltb, ltb→lt, map,
}
use wireless_boot_entropy_ze.Base.Int.{ℤ, pos, negsuc, pos_part, ltb_ℤ}
use wireless_boot_entropy_ze.Python.Result.{ok, Result-cases, >>=-eq-ok, ok-injective}
use wireless_boot_entropy_ze.Python.Struct.{Bytes, pack_le}
use wireless_boot_entropy_ze.Python.Text.{Text}
use wireless_boot_entropy_ze.Aeb.Wire.{
  Message, magic, version, parse_message, make_message, type_start, type_burst,
}
use wireless_boot_entropy_ze.Aeb.Wire.RoundTrip.{
  IsWireMessage, send_message, wire_bytes, make_message-wire_bytes, parse_message-wire_bytes,
}
use wireless_boot_entropy_ze.Aeb.Trial.{Peer, Time, TrialState, Disk}
use wireless_boot_entropy_ze.Aeb.Stimulus.{
  Args, Draws, Sent, nothing_sent, burst_count, burst_interval, requested_bytes, sleep_of,
  payload_of, send_burst, send_bursts, send_schedule, send_stimulus,
}

-- What packs is a number in range.
pack_le_inv :
    (w : ℕ) (z : ℤ) {bs : Bytes}
    → pack_le w z ≡ ok bs
    → (z ≡ pos (pos_part z)) × (pos_part z < 256 ^ w)
unfolding pack_le
pack_le_inv w (pos n) h = elim (Bool-cases (ltb n (256 ^ w))) [
  | inl fits ↦ (refl, ltb→lt _ _ fits)
  | inr large ↦ cc
]
pack_le_inv w (negsuc n) h = cc

record FieldsFit (t tr sq iv sb : ℤ) : Type 0 where
  type_ok : (t ≡ pos (pos_part t)) × (pos_part t < 256 ^ 2)
  trial_ok : (tr ≡ pos (pos_part tr)) × (pos_part tr < 256 ^ 4)
  seq_ok : (sq ≡ pos (pos_part sq)) × (pos_part sq < 256 ^ 4)
  interval_ok : (iv ≡ pos (pos_part iv)) × (pos_part iv < 256 ^ 4)
  sample_ok : (sb ≡ pos (pos_part sb)) × (pos_part sb < 256 ^ 4)

make_message_inv :
    (t tr sq iv sb : ℤ) (nonce payload : Bytes) {packet : Bytes}
    → make_message t tr sq iv sb nonce payload ≡ ok packet
    → FieldsFit t tr sq iv sb
unfolding make_message
make_message_inv t tr sq iv sb nonce payload h =
    let (b₁, e₁, h₁) = >>=-eq-ok (pack_le 4 (pos magic)) _ h in
    let (b₂, e₂, h₂) = >>=-eq-ok (pack_le 2 (pos version)) _ h₁ in
    let (b₃, e₃, h₃) = >>=-eq-ok (pack_le 2 t) _ h₂ in
    let (b₄, e₄, h₄) = >>=-eq-ok (pack_le 4 tr) _ h₃ in
    let (b₅, e₅, h₅) = >>=-eq-ok (pack_le 4 sq) _ h₄ in
    let (b₆, e₆, h₆) = >>=-eq-ok (pack_le 4 iv) _ h₅ in
    let (b₇, e₇, h₇) = >>=-eq-ok (pack_le 4 sb) _ h₆ in
    record {
      type_ok = pack_le_inv 2 t e₃;
      trial_ok = pack_le_inv 4 tr e₄;
      seq_ok = pack_le_inv 4 sq e₅;
      interval_ok = pack_le_inv 4 iv e₆;
      sample_ok = pack_le_inv 4 sb e₇;
    }

-- The message that a receiver reads.
abbrev pub heard : ℤ → ℤ → ℤ → ℤ → ℤ → Bytes → Bytes → Message
heard t tr sq iv sb nonce payload = record {
  msg_type = pos_part t;
  trial = pos_part tr;
  seq_or_count = pos_part sq;
  interval_us = pos_part iv;
  sample_bytes = pos_part sb;
  nonce = nonce;
  payload = payload;
}

-- Whatever is packed, with a nonce of 16 bytes, has fields that fit, and is the datagram of the
-- message.
pub heard-IsWireMessage :
    (t tr sq iv sb : ℤ) (nonce payload after : Bytes) {packet : Bytes}
    → length nonce ≡ 16
    → make_message t tr sq iv sb nonce payload ≡ ok packet
    → IsWireMessage (heard t tr sq iv sb nonce after)
heard-IsWireMessage t tr sq iv sb nonce payload after sized h =
    let f = make_message_inv t tr sq iv sb nonce payload h in
    record {
      type_fits = f.type_ok.1;
      trial_fits = f.trial_ok.1;
      seq_fits = f.seq_ok.1;
      interval_fits = f.interval_ok.1;
      sample_fits = f.sample_ok.1;
      nonce_fits = sized;
    }

pub make_message-heard_bytes :
    (t tr sq iv sb : ℤ) (nonce payload : Bytes) {packet : Bytes}
    → length nonce ≡ 16
    → make_message t tr sq iv sb nonce payload ≡ ok packet
    → wire_bytes (heard t tr sq iv sb nonce payload) ≡ packet
make_message-heard_bytes t tr sq iv sb nonce payload {packet} sized h =
    let f = make_message_inv t tr sq iv sb nonce payload h in
    let m = heard t tr sq iv sb nonce payload in
    let same : send_message m ≡ make_message t tr sq iv sb nonce payload =
      rw (← f.type_ok.0, ← f.trial_ok.0, ← f.seq_ok.0, ← f.interval_ok.0, ← f.sample_ok.0) refl in
    let fits = heard-IsWireMessage t tr sq iv sb nonce payload payload sized h in
    ok-injective (sym (make_message-wire_bytes m fits) ∙ same ∙ h)

make_message-heard :
    (t tr sq iv sb : ℤ) (nonce payload : Bytes) {packet : Bytes}
    → length nonce ≡ 16
    → make_message t tr sq iv sb nonce payload ≡ ok packet
    → parse_message packet ≡ some (heard t tr sq iv sb nonce payload)
make_message-heard t tr sq iv sb nonce payload sized h =
    ap parse_message (sym (make_message-heard_bytes t tr sq iv sb nonce payload sized h))
    ∙ parse_message-wire_bytes (heard t tr sq iv sb nonce payload)
        (heard-IsWireMessage t tr sq iv sb nonce payload payload sized h)

module _ (sha256_hex : Bytes → Text) (args : Args) (msg : Message) (nonce : Bytes) where
  -- The BURST that a receiver reads at packet `seq`.
  abbrev pub burst_heard : Draws → ℕ → Message
  burst_heard draws seq =
      heard (pos type_burst) (pos msg.trial) (pos seq)
        (sleep_of args (burst_interval sha256_hex args msg nonce) (draws.jitter seq))
        (requested_bytes sha256_hex args msg nonce) nonce
        (payload_of args.payload_mode (pos_part args.payload_bytes) seq (draws.random_payload seq))

  abbrev pub start_heard : Message
  start_heard =
      heard (pos type_start) (pos msg.trial) (burst_count sha256_hex args msg nonce)
        (burst_interval sha256_hex args msg nonce) (requested_bytes sha256_hex args msg nonce) nonce
        []

  -- The packets that are left, as a receiver reads them.
  abbrev pub bursts_heard : Draws → ℕ → ℕ → List (Option Message)
  bursts_heard draws zero seq = []
  bursts_heard draws (suc n) seq = some (burst_heard draws seq) ∷ bursts_heard draws n (seq + 1)

  module _ (sized : length nonce ≡ 16) (draws : Draws) where
    send_burst-heard :
        (seq : ℕ) (sent : Sent)
        → (send_burst sha256_hex args msg nonce draws seq sent).0 ≡ ok tt
        → map parse_message (send_burst sha256_hex args msg nonce draws seq sent).1.packets
          ≡ map parse_message sent.packets ++ some (burst_heard draws seq) ∷ []
    unfolding send_burst
    send_burst-heard seq sent =
        Result-cases
          (make_message (pos type_burst) (pos msg.trial) (pos seq)
            (sleep_of args (burst_interval sha256_hex args msg nonce) (draws.jitter seq))
            (requested_bytes sha256_hex args msg nonce) nonce
            (payload_of args.payload_mode (pos_part args.payload_bytes) seq
              (draws.random_payload seq)))
          _
          (λ packet e.
            rw (send_burst, e)
              (λ done.
                map-append parse_message sent.packets (packet ∷ [])
                ∙ ap (λ p. map parse_message sent.packets ++ p ∷ [])
                    (make_message-heard _ _ _ _ _ nonce _ sized e)))
          (λ raised e. rw (send_burst, e) (λ done. cc))

    send_bursts-heard :
        (n seq : ℕ) (sent : Sent)
        → (send_bursts sha256_hex args msg nonce draws n seq sent).0 ≡ ok tt
        → map parse_message (send_bursts sha256_hex args msg nonce draws n seq sent).1.packets
          ≡ map parse_message sent.packets ++ bursts_heard draws n seq
    unfolding send_bursts
    send_bursts-heard zero seq sent = λ done. sym (append-nil (map parse_message sent.packets))
    send_bursts-heard (suc n) seq sent =
        let sent₁ = (send_burst sha256_hex args msg nonce draws seq sent).1 in
        Result-cases (send_burst sha256_hex args msg nonce draws seq sent).0 _
          (λ done e.
            let first = send_burst-heard seq sent e in
            rw (send_bursts, e)
              (λ all_done.
                send_bursts-heard n (seq + 1) sent₁ all_done
                ∙ ap (λ ps. ps ++ bursts_heard draws n (seq + 1)) first
                ∙ append_assoc (map parse_message sent.packets) (some (burst_heard draws seq) ∷ [])
                    (bursts_heard draws n (seq + 1))))
          (λ raised e. rw (send_bursts, e) (λ done. cc))

    module _ (peer : Peer) (capture_id : ℕ) (hello_time : Time) (disk : Disk) where
      send_schedule-heard :
          {state : TrialState}
          → (send_schedule sha256_hex args msg nonce peer capture_id hello_time draws disk).0
            ≡ ok state
          → map parse_message
              (send_schedule sha256_hex args msg nonce peer capture_id hello_time draws disk).1
            ≡ bursts_heard draws (pos_part (burst_count sha256_hex args msg nonce)) 0
      unfolding send_schedule
      send_schedule-heard {state} =
          let n = pos_part (burst_count sha256_hex args msg nonce) in
          elim (Bool-cases (ltb_ℤ args.start_delay_ms (pos 0))) [
            | inl early ↦ rw (send_schedule, early) (λ opened. cc)
            | inr waits ↦
                Result-cases (send_bursts sha256_hex args msg nonce draws n 0 nothing_sent).0 _
                  (λ done e.
                    rw (send_schedule, waits, e) (λ opened. send_bursts-heard n 0 nothing_sent e))
                  (λ raised e. rw (send_schedule, waits, e) (λ opened. cc))
          ]

      -- Where a HELLO opens a trial, a receiver reads the packets that answer it as one START with
      -- the number of packets, the interval and the bytes in force, and then as the BURST packets of
      -- that number, numbered from 0, each with its own interval and payload, and every one with the
      -- trial and the nonce. The nonce has its 16 bytes.
      pub send_stimulus-heard :
          {state : TrialState}
          → (send_stimulus sha256_hex args msg nonce peer capture_id hello_time draws disk).0
            ≡ ok state
          → map parse_message
              (send_stimulus sha256_hex args msg nonce peer capture_id hello_time draws disk).1
            ≡ some start_heard
              ∷ bursts_heard draws (pos_part (burst_count sha256_hex args msg nonce)) 0
      unfolding send_stimulus
      send_stimulus-heard {state} =
          Result-cases
            (make_message (pos type_start) (pos msg.trial) (burst_count sha256_hex args msg nonce)
              (burst_interval sha256_hex args msg nonce) (requested_bytes sha256_hex args msg nonce)
              nonce [])
            _
            (λ start e.
              rw (send_stimulus, e)
                (λ opened.
                  ap
                    (λ p.
                      p
                      ∷ map parse_message
                          (send_schedule sha256_hex args msg nonce peer capture_id hello_time draws
                            disk).1)
                    (make_message-heard _ _ _ _ _ nonce [] sized e)
                  ∙ ap (λ ps. some start_heard ∷ ps) (send_schedule-heard opened)))
            (λ raised e. rw (send_stimulus, e) (λ opened. cc))
