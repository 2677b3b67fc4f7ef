-- ===== src/Aeb/Sender/Packets.antt =====
-- One packet: what it is on the wire, and how long it is.
use wireless_boot_entropy_ze.Base.{
  ℕ, zero, suc, ◌+◌, ◌-◌, ◌≤◌, ◌≡◌, refl, ap, ◌∙◌, [], ◌++◌, append_assoc, arith, length,
  length-append,
}
use wireless_boot_entropy_ze.Base.Int.{ℤ, pos, pos_part}
use wireless_boot_entropy_ze.Python.Result.{Result, ok, err, >>=-eq-ok, ok-injective}
use wireless_boot_entropy_ze.Python.Struct.{Bytes}
use wireless_boot_entropy_ze.Python.Struct.Laws.{length-le_bytes}
use wireless_boot_entropy_ze.Aeb.Wire.{header_size, make_message}
use wireless_boot_entropy_ze.Aeb.Stimulus.{counter_payload}
use wireless_boot_entropy_ze.Aeb.Stimulus.Packets.{
  heard, heard-IsWireMessage, make_message-heard_bytes,
}
use wireless_boot_entropy_ze.Aeb.Wire.RoundTrip.{IsWireMessage, wire_bytes}
use wireless_boot_entropy_ze.Aeb.Sender.{Sender, and_then, make_msg}

-- Where a sequence of statements ends well, its first part did, and it is the rest from there.
pub and_then-ok :
    (r : Result (Unit {0}) × Sender) (next : Sender → Result (Unit {0}) × Sender)
    → (and_then r next).0 ≡ ok tt
    → (r.0 ≡ ok tt) × (and_then r next ≡ next r.1)
and_then-ok (ok done, s) next h = (refl, refl)
and_then-ok (err e, s) next h = cc

length-counter_payload : (n next : ℕ) → length (counter_payload n next) ≡ n
unfolding counter_payload
length-counter_payload zero next = refl
length-counter_payload (suc n) next = ap suc (length-counter_payload n (next + 1))

-- The padding of a packet.
abbrev pub padding : ℤ → ℤ → Bytes
padding payload_bytes seq_or_count =
    counter_payload (pos_part payload_bytes - header_size) (pos_part seq_or_count)

-- A packet that was made is the datagram of its header with the padding.
pub make_msg-heard_bytes :
    (t tr sq iv sb pb : ℤ) (nonce : Bytes) {packet : Bytes}
    → length nonce ≡ 16
    → make_msg t tr sq iv sb nonce pb ≡ ok packet
    → IsWireMessage (heard t tr sq iv sb nonce (padding pb sq))
      × (wire_bytes (heard t tr sq iv sb nonce (padding pb sq)) ≡ packet)
unfolding make_msg
make_msg-heard_bytes t tr sq iv sb pb nonce {packet} sized h =
    let (header, made, filled) = >>=-eq-ok (make_message t tr sq iv sb nonce []) _ h in
    let front : wire_bytes (heard t tr sq iv sb nonce []) ++ padding pb sq ≡ packet =
      ap (λ bs. bs ++ padding pb sq) (make_message-heard_bytes t tr sq iv sb nonce [] sized made)
      ∙ ok-injective filled in
    (
      heard-IsWireMessage t tr sq iv sb nonce [] (padding pb sq) sized made,
      simp (append_assoc) at front,
    )

pub length-make_msg :
    (t tr sq iv sb : ℤ) (n : ℕ) (nonce : Bytes) {packet : Bytes}
    → length nonce ≡ 16
    → header_size ≤ n
    → make_msg t tr sq iv sb nonce (pos n) ≡ ok packet
    → length packet ≡ n
length-make_msg t tr sq iv sb n nonce sized large h =
    let (fits, same) = make_msg-heard_bytes t tr sq iv sb (pos n) nonce sized h in
    let pad = length-counter_payload (n - header_size) (pos_part sq) in
    let front : length (wire_bytes (heard t tr sq iv sb nonce (padding (pos n) sq)))
        ≡ 24 + (length nonce + length (padding (pos n) sq)) =
      simp (length-append, length-le_bytes) (omega arith) in
    omega (arith, ap length same, front, pad, sized)
