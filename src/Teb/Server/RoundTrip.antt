-- ===== src/Teb/Server/RoundTrip.antt =====
-- A HELLO and its fields determine one another, and a capsule is what the board expects.
use wireless_boot_entropy_ze.Base.{
  ℕ, ◌+◌, ◌^◌, ◌<◌, ◌≡◌, refl, sym, ap, ◌∙◌, true, ◌++◌, arith, length, length-append, length-take,
  length-drop, take, drop, take-append, drop-append, take-append-drop, All-drop, list_beq,
  list_beq_iff, nat_eq,
}
use wireless_boot_entropy_ze.Python.Result.{ok}
use wireless_boot_entropy_ze.Python.Struct.{Bytes, IsByte, AreBytes, be_bytes, read_be}
use wireless_boot_entropy_ze.Python.Struct.BigEndian.{
  length-be_bytes, read_be-append, append-read_be, read_be-lt,
}
use wireless_boot_entropy_ze.Teb.Server.{
  Hello, hello_magic, capsule_version, profile_dev_ed25519_puf_beacon, hello_len, parse_hello,
}

-- The fields of a HELLO fit their places.
pub record IsHello (h : Hello) : Type 0 where
  pub flags_fits : h.flags < 256 ^ 2
  pub device_fits : h.device_id < 256 ^ 8
  pub counter_fits : h.counter < 256 ^ 4
  pub uptime_fits : h.uptime < 256 ^ 4
  pub sram_fits : length h.sram_commitment ≡ 32
  pub timing_fits : length h.timing_commitment ≡ 32

-- The datagram of a HELLO.
abbrev pub hello_bytes : Hello → Bytes
hello_bytes h =
    hello_magic
    ++ (be_bytes 1 capsule_version
        ++ (be_bytes 1 profile_dev_ed25519_puf_beacon
            ++ (be_bytes 2 h.flags
                ++ (be_bytes 8 h.device_id
                    ++ (be_bytes 4 h.counter
                        ++ (be_bytes 4 h.uptime ++ (h.sram_commitment ++ h.timing_commitment)))))))

length-hello_bytes : (h : Hello) → IsHello h → length (hello_bytes h) ≡ hello_len
length-hello_bytes h f =
    simp (length-append, length-be_bytes) (omega (arith, f.sram_fits, f.timing_fits))

module _ (sha256 : Bytes → Bytes) where
  -- A HELLO whose fields fit is read back, with the hash of its datagram.
  pub parse_hello-hello_bytes :
      (h : Hello)
      → IsHello h
      → parse_hello sha256 (hello_bytes h) ≡ ok (record h { hello_hash = sha256 (hello_bytes h) })
  unfolding parse_hello
  parse_hello-hello_bytes h f = rw (
    parse_hello,
    length-hello_bytes h f,
    read_be-append 1 capsule_version _ (omega arith),
    read_be-append 1 profile_dev_ed25519_puf_beacon _ (omega arith),
    read_be-append 2 h.flags _ f.flags_fits,
    read_be-append 8 h.device_id _ f.device_fits,
    read_be-append 4 h.counter _ f.counter_fits,
    read_be-append 4 h.uptime _ f.uptime_fits,
    take-append 32 h.sram_commitment h.timing_commitment f.sram_fits,
    drop-append 32 h.sram_commitment h.timing_commitment f.sram_fits,
  )

-- What is left of a datagram behind each field.
abbrev behind_version : Bytes → Bytes
behind_version d = (read_be 1 (drop 4 d)).1

abbrev behind_profile : Bytes → Bytes
behind_profile d = (read_be 1 (behind_version d)).1

abbrev behind_flags : Bytes → Bytes
behind_flags d = (read_be 2 (behind_profile d)).1

abbrev behind_device : Bytes → Bytes
behind_device d = (read_be 8 (behind_flags d)).1

abbrev behind_counter : Bytes → Bytes
behind_counter d = (read_be 4 (behind_device d)).1

abbrev behind_uptime : Bytes → Bytes
behind_uptime d = (read_be 4 (behind_counter d)).1

abbrev hello_of : Bytes → Bytes → Hello
hello_of d hash = record {
  flags = (read_be 2 (behind_profile d)).0;
  device_id = (read_be 8 (behind_flags d)).0;
  counter = (read_be 4 (behind_device d)).0;
  uptime = (read_be 4 (behind_counter d)).0;
  sram_commitment = take 32 (behind_uptime d);
  timing_commitment = drop 32 (behind_uptime d);
  hello_hash = hash;
}

parse_hello_inv :
    (sha256 : Bytes → Bytes) (d : Bytes) {h : Hello}
    → parse_hello sha256 d ≡ ok h
    → (length d ≡ hello_len)
      × (list_beq (take 4 d) hello_magic ≡ true)
      × ((read_be 1 (drop 4 d)).0 ≡ capsule_version)
      × ((read_be 1 (behind_version d)).0 ≡ profile_dev_ed25519_puf_beacon)
      × (h ≡ hello_of d (sha256 d))
unfolding parse_hello
parse_hello_inv sha256 d h = ground arith

-- Bytes of a known number.
record Holds (n : ℕ) (d : Bytes) : Type 0 where
  bytes : AreBytes d
  exactly : length d ≡ n

after-Holds : (w n : ℕ) (d : Bytes) → Holds (w + n) d → Holds n (read_be w d).1
unfolding read_be
after-Holds w n d h = record {
  bytes = All-drop IsByte w d h.bytes;
  exactly = omega (arith, length-drop w d, h.exactly);
}

field-Holds :
    (w n : ℕ) (d : Bytes) → Holds (w + n) d → be_bytes w (read_be w d).0 ++ (read_be w d).1 ≡ d
field-Holds w n d h = append-read_be w d h.bytes (omega (arith, h.exactly))

fits-Holds : (w n : ℕ) (d : Bytes) → Holds (w + n) d → (read_be w d).0 < 256 ^ w
fits-Holds w n d h = read_be-lt w d h.bytes (omega (arith, h.exactly))

module _ (d hash : Bytes) (h : Holds 84 (drop 4 d)) where
  h₁ : Holds 83 (behind_version d)
  h₁ = after-Holds 1 83 (drop 4 d) h

  h₂ : Holds 82 (behind_profile d)
  h₂ = after-Holds 1 82 (behind_version d) h₁

  h₃ : Holds 80 (behind_flags d)
  h₃ = after-Holds 2 80 (behind_profile d) h₂

  h₄ : Holds 72 (behind_device d)
  h₄ = after-Holds 8 72 (behind_flags d) h₃

  h₅ : Holds 68 (behind_counter d)
  h₅ = after-Holds 4 68 (behind_device d) h₄

  h₆ : Holds 64 (behind_uptime d)
  h₆ = after-Holds 4 64 (behind_counter d) h₅

  hello_of-IsHello : IsHello (hello_of d hash)
  hello_of-IsHello = record {
    flags_fits = fits-Holds 2 80 (behind_profile d) h₂;
    device_fits = fits-Holds 8 72 (behind_flags d) h₃;
    counter_fits = fits-Holds 4 68 (behind_device d) h₄;
    uptime_fits = fits-Holds 4 64 (behind_counter d) h₅;
    sram_fits = omega (arith, length-take 32 (behind_uptime d), h₆.exactly);
    timing_fits = omega (arith, length-drop 32 (behind_uptime d), h₆.exactly);
  }

  hello_bytes-hello_of :
      take 4 d ≡ hello_magic
      → (read_be 1 (drop 4 d)).0 ≡ capsule_version
      → (read_be 1 (behind_version d)).0 ≡ profile_dev_ed25519_puf_beacon
      → hello_bytes (hello_of d hash) ≡ d
  hello_bytes-hello_of m v p =
      let fields : be_bytes 1 (read_be 1 (drop 4 d)).0
            ++ (be_bytes 1 (read_be 1 (behind_version d)).0
                ++ (be_bytes 2 (read_be 2 (behind_profile d)).0
                    ++ (be_bytes 8 (read_be 8 (behind_flags d)).0
                        ++ (be_bytes 4 (read_be 4 (behind_device d)).0
                            ++ (be_bytes 4 (read_be 4 (behind_counter d)).0
                                ++ (take 32 (behind_uptime d) ++ drop 32 (behind_uptime d)))))))
          ≡ drop 4 d =
        rw
          (
            take-append-drop 32 (behind_uptime d),
            field-Holds 4 64 (behind_counter d) h₅,
            field-Holds 4 68 (behind_device d) h₄,
            field-Holds 8 72 (behind_flags d) h₃,
            field-Holds 2 80 (behind_profile d) h₂,
            field-Holds 1 82 (behind_version d) h₁,
          )
          (field-Holds 1 83 (drop 4 d) h) in
      ap (λ tail. hello_magic ++ tail) (rw (v, p) at fields)
      ∙ ap (λ front. front ++ drop 4 d) (sym m)
      ∙ take-append-drop 4 d

-- A datagram that is accepted is exactly the datagram of the HELLO that is read from it: the fields
-- fit, and the hash is the datagram's.
pub hello_bytes-parse_hello :
    (sha256 : Bytes → Bytes) (buffer : Bytes) {h : Hello}
    → AreBytes buffer
    → parse_hello sha256 buffer ≡ ok h
    → IsHello h × (hello_bytes h ≡ buffer) × (h.hello_hash ≡ sha256 buffer)
hello_bytes-parse_hello sha256 buffer {h} bytes parsed =
    let (n, m, v, p, same) = parse_hello_inv sha256 buffer parsed in
    let magic = (list_beq_iff (take 4 buffer) hello_magic).0 m in
    let holds : Holds 84 (drop 4 buffer) = record {
      bytes = All-drop IsByte 4 buffer bytes;
      exactly = omega (arith, length-drop 4 buffer, n);
    } in
    rw same (
      hello_of-IsHello buffer (sha256 buffer) holds,
      hello_bytes-hello_of buffer (sha256 buffer) holds magic v p,
      refl,
    )
