-- ===== src/Aeb/Wire/RoundTrip.antt =====
-- A datagram and the message that it carries determine one another.
use wireless_boot_entropy_ze.Base.{
  ℕ, ◌+◌, ◌-◌, ◌*◌, ◌^◌, ◌≤◌, ◌<◌, ◌≡◌, ◌∙◌, ap, some, ◌∷◌, ◌++◌, append_assoc, arith, length,
  length-append, length-take, length-drop, take, drop, take-append, drop-append, take-append-drop,
  All-drop,
}
use wireless_boot_entropy_ze.Base.Int.{pos}
use wireless_boot_entropy_ze.Python.Result.{Result, ok}
use wireless_boot_entropy_ze.Python.Struct.{Bytes, IsByte, AreBytes, le_bytes, of_le_bytes, read_le}
use wireless_boot_entropy_ze.Python.Struct.Laws.{
  length-le_bytes, pack_le_pos, read_le-append, append-read_le, read_le-lt, pack_string_exact,
}
use wireless_boot_entropy_ze.Aeb.Wire.{
  Message, magic, version, header_size, parse_message, make_message,
}

pub record IsWireMessage (m : Message) : Type 0 where
  pub type_fits : m.msg_type < 256 ^ 2
  pub trial_fits : m.trial < 256 ^ 4
  pub seq_fits : m.seq_or_count < 256 ^ 4
  pub interval_fits : m.interval_us < 256 ^ 4
  pub sample_fits : m.sample_bytes < 256 ^ 4
  pub nonce_fits : length m.nonce ≡ 16

abbrev pub send_message : Message → Result Bytes
send_message m =
    make_message (pos m.msg_type) (pos m.trial) (pos m.seq_or_count) (pos m.interval_us)
      (pos m.sample_bytes) m.nonce m.payload

-- The bytes of a message whose fields fit.
abbrev pub wire_bytes : Message → Bytes
wire_bytes m =
    le_bytes 4 magic
    ++ (le_bytes 2 version
        ++ (le_bytes 2 m.msg_type
            ++ (le_bytes 4 m.trial
                ++ (le_bytes 4 m.seq_or_count
                    ++ (le_bytes 4 m.interval_us
                        ++ (le_bytes 4 m.sample_bytes ++ (m.nonce ++ m.payload)))))))

pub make_message-wire_bytes : (m : Message) → IsWireMessage m → send_message m ≡ ok (wire_bytes m)
unfolding make_message
make_message-wire_bytes m f =
    rw
      (
        pack_le_pos 4 magic (omega arith),
        pack_le_pos 2 version (omega arith),
        pack_le_pos 2 m.msg_type f.type_fits,
        pack_le_pos 4 m.trial f.trial_fits,
        pack_le_pos 4 m.seq_or_count f.seq_fits,
        pack_le_pos 4 m.interval_us f.interval_fits,
        pack_le_pos 4 m.sample_bytes f.sample_fits,
        pack_string_exact 16 m.nonce f.nonce_fits,
      )
      (simp append_assoc)

length-wire_bytes : (m : Message) → length m.nonce ≡ 16 → header_size ≤ length (wire_bytes m)
length-wire_bytes m h = simp (length-append, length-le_bytes) (omega arith)

pub parse_message-wire_bytes :
    (m : Message) → IsWireMessage m → parse_message (wire_bytes m) ≡ some m
unfolding parse_message
parse_message-wire_bytes m f =
    rw
      (
        read_le-append 4 magic _ (omega arith),
        read_le-append 2 version _ (omega arith),
        read_le-append 2 m.msg_type _ f.type_fits,
        read_le-append 4 m.trial _ f.trial_fits,
        read_le-append 4 m.seq_or_count _ f.seq_fits,
        read_le-append 4 m.interval_us _ f.interval_fits,
        read_le-append 4 m.sample_bytes _ f.sample_fits,
        take-append 16 m.nonce m.payload f.nonce_fits,
        drop-append 16 m.nonce m.payload f.nonce_fits,
      )
      (ground (arith, length-wire_bytes m f.nonce_fits))

-- A message whose fields fit is sent as one datagram, and that datagram is read back as the message.
pub parse-make_message :
    (m : Message)
    → IsWireMessage m
    → (buffer : Bytes) × (send_message m ≡ ok buffer) × (parse_message buffer ≡ some m)
parse-make_message m f = (wire_bytes m, make_message-wire_bytes m f, parse_message-wire_bytes m f)

-- The seven numbers of a buffer, and what follows them.
abbrev tail₁ : Bytes → Bytes
tail₁ d = (read_le 4 d).1

abbrev tail₂ : Bytes → Bytes
tail₂ d = (read_le 2 (tail₁ d)).1

abbrev tail₃ : Bytes → Bytes
tail₃ d = (read_le 2 (tail₂ d)).1

abbrev tail₄ : Bytes → Bytes
tail₄ d = (read_le 4 (tail₃ d)).1

abbrev tail₅ : Bytes → Bytes
tail₅ d = (read_le 4 (tail₄ d)).1

abbrev tail₆ : Bytes → Bytes
tail₆ d = (read_le 4 (tail₅ d)).1

abbrev tail₇ : Bytes → Bytes
tail₇ d = (read_le 4 (tail₆ d)).1

abbrev message_of : Bytes → Message
message_of d = record {
  msg_type = (read_le 2 (tail₂ d)).0;
  trial = (read_le 4 (tail₃ d)).0;
  seq_or_count = (read_le 4 (tail₄ d)).0;
  interval_us = (read_le 4 (tail₅ d)).0;
  sample_bytes = (read_le 4 (tail₆ d)).0;
  nonce = take 16 (tail₇ d);
  payload = drop 16 (tail₇ d);
}

parse_message_inv :
    (d : Bytes) {m : Message}
    → parse_message d ≡ some m
    → (header_size ≤ length d)
      × ((read_le 4 d).0 ≡ magic)
      × ((read_le 2 (tail₁ d)).0 ≡ version)
      × (m ≡ message_of d)
unfolding parse_message
parse_message_inv d h = ground arith

-- A field taken from a buffer of bytes: the rest is shorter, and bytes too.
length-tail : (w : ℕ) (d : Bytes) → length (read_le w d).1 ≡ length d - w
unfolding read_le
length-tail w d = length-drop w d

tail-AreBytes : (w : ℕ) (d : Bytes) → AreBytes d → AreBytes (read_le w d).1
unfolding read_le
tail-AreBytes w d h = All-drop IsByte w d h

-- Bytes with their number: what `read_le` needs of a buffer.
record Holds (n : ℕ) (d : Bytes) : Type 0 where
  bytes : AreBytes d
  enough : n ≤ length d

step-Holds : (w n : ℕ) (d : Bytes) → Holds (w + n) d → Holds n (read_le w d).1
step-Holds w n d h = record {
  bytes = tail-AreBytes w d h.bytes;
  enough = omega (arith, length-tail w d, h.enough);
}

field-Holds :
    (w n : ℕ) (d : Bytes) → Holds (w + n) d → le_bytes w (read_le w d).0 ++ (read_le w d).1 ≡ d
field-Holds w n d h = append-read_le w d h.bytes (omega (arith, h.enough))

fits-Holds : (w n : ℕ) (d : Bytes) → Holds (w + n) d → (read_le w d).0 < 256 ^ w
fits-Holds w n d h = read_le-lt w d h.bytes (omega (arith, h.enough))

module _ (d : Bytes) (h : Holds 40 d) where
  h₁ : Holds 36 (tail₁ d)
  h₁ = step-Holds 4 36 d h

  h₂ : Holds 34 (tail₂ d)
  h₂ = step-Holds 2 34 (tail₁ d) h₁

  h₃ : Holds 32 (tail₃ d)
  h₃ = step-Holds 2 32 (tail₂ d) h₂

  h₄ : Holds 28 (tail₄ d)
  h₄ = step-Holds 4 28 (tail₃ d) h₃

  h₅ : Holds 24 (tail₅ d)
  h₅ = step-Holds 4 24 (tail₄ d) h₄

  h₆ : Holds 20 (tail₆ d)
  h₆ = step-Holds 4 20 (tail₅ d) h₅

  h₇ : Holds 16 (tail₇ d)
  h₇ = step-Holds 4 16 (tail₆ d) h₆

  message_of-IsWireMessage : IsWireMessage (message_of d)
  message_of-IsWireMessage = record {
    type_fits = fits-Holds 2 32 (tail₂ d) h₂;
    trial_fits = fits-Holds 4 28 (tail₃ d) h₃;
    seq_fits = fits-Holds 4 24 (tail₄ d) h₄;
    interval_fits = fits-Holds 4 20 (tail₅ d) h₅;
    sample_fits = fits-Holds 4 16 (tail₆ d) h₆;
    nonce_fits = omega (arith, length-take 16 (tail₇ d), h₇.enough);
  }

  wire_bytes-message_of :
      (read_le 4 d).0 ≡ magic → (read_le 2 (tail₁ d)).0 ≡ version → wire_bytes (message_of d) ≡ d
  wire_bytes-message_of e v =
      rw
        (
          ← e,
          ← v,
          take-append-drop 16 (tail₇ d),
          field-Holds 4 16 (tail₆ d) h₆,
          field-Holds 4 20 (tail₅ d) h₅,
          field-Holds 4 24 (tail₄ d) h₄,
          field-Holds 4 28 (tail₃ d) h₃,
          field-Holds 2 32 (tail₂ d) h₂,
          field-Holds 2 34 (tail₁ d) h₁,
        )
        (field-Holds 4 36 d h)

-- An accepted datagram is exactly the datagram of the message that is read from it, and the fields
-- of that message fit.
pub make-parse_message :
    (buffer : Bytes) {m : Message}
    → AreBytes buffer
    → parse_message buffer ≡ some m
    → IsWireMessage m × (send_message m ≡ ok buffer)
make-parse_message buffer {m} bytes parsed =
    let (enough, e, v, same) = parse_message_inv buffer parsed in
    let holds : Holds 40 buffer = record { bytes = bytes; enough = enough } in
    let fits : IsWireMessage (message_of buffer) = message_of-IsWireMessage buffer holds in
    rw same (
      fits,
      make_message-wire_bytes (message_of buffer) fits
          ∙ ap ok (wire_bytes-message_of buffer holds e v),
    )

-- A message begins with the byte "A".
pub parse_message-first_byte :
    (b : ℕ) (rest : Bytes) {m : Message}
    → AreBytes (b ∷ rest)
    → parse_message (b ∷ rest) ≡ some m
    → b ≡ b'A'
parse_message-first_byte b rest (p, bytes) parsed =
    let (enough, e, v, same) = parse_message_inv (b ∷ rest) parsed in
    let low : b + 256 * of_le_bytes (take 3 rest) ≡ magic = unfold read_le of_le_bytes in e in
    omega arith
