-- ===== src/Teb/Server/Capsule.antt =====
-- A capsule is the signed fields with their signature.
use wireless_boot_entropy_ze.Base.{
  ℕ, ◌^◌, ◌<◌, ◌≡◌, refl, ap, ◌∙◌, ◌++◌, arith, length, length-append, take, drop, take-append,
  drop-append, nat_eq,
}
use wireless_boot_entropy_ze.Base.Int.{pos}
use wireless_boot_entropy_ze.Python.Result.{Result, ok}
use wireless_boot_entropy_ze.Python.Struct.{Bytes, AreBytes, be_bytes, pack_be}
use wireless_boot_entropy_ze.Python.Struct.Laws.{pack_string_exact}
use wireless_boot_entropy_ze.Python.Struct.BigEndian.{length-be_bytes, pack_be_pos}
use wireless_boot_entropy_ze.Teb.Server.{
  Hello, Beacon, capsule_magic, capsule_version, profile_dev_ed25519_puf_beacon, capsule_signed_len,
  parse_hello, pack_signed, build_capsule,
}
use wireless_boot_entropy_ze.Python.Result.{>>=-eq-ok}
use wireless_boot_entropy_ze.Teb.Server.RoundTrip.{IsHello, hello_bytes-parse_hello}

-- What is signed.
abbrev pub signed_bytes : Hello → ℕ → Beacon → Bytes
signed_bytes h sequence beacon =
    capsule_magic
    ++ (be_bytes 1 capsule_version
        ++ (be_bytes 1 profile_dev_ed25519_puf_beacon
            ++ (be_bytes 2 capsule_signed_len
                ++ (be_bytes 8 h.device_id
                    ++ (be_bytes 4 h.counter
                        ++ (be_bytes 8 beacon.gateway_time_ms
                            ++ (be_bytes 4 sequence ++ (beacon.random ++ h.hello_hash))))))))

-- The draws: 32 random bytes, and a time that fits its place.
pub record IsBeacon (beacon : Beacon) : Type 0 where
  pub random_fits : length beacon.random ≡ 32
  pub time_fits : beacon.gateway_time_ms < 256 ^ 8

module _ (h : Hello) (sequence : ℕ) (beacon : Beacon) where
  pack_signed-signed_bytes :
      IsHello h
      → length h.hello_hash ≡ 32
      → sequence < 256 ^ 4
      → IsBeacon beacon
      → pack_signed h sequence beacon ≡ ok (signed_bytes h sequence beacon)
  unfolding pack_signed
  pack_signed-signed_bytes f hashed small drawn = rw (
    pack_be_pos 1 capsule_version (omega arith),
    pack_be_pos 2 capsule_signed_len (omega arith),
    pack_be_pos 8 h.device_id f.device_fits,
    pack_be_pos 4 h.counter f.counter_fits,
    pack_be_pos 8 beacon.gateway_time_ms drawn.time_fits,
    pack_be_pos 4 sequence small,
    pack_string_exact 4 capsule_magic refl,
    pack_string_exact 32 beacon.random drawn.random_fits,
    pack_string_exact 32 h.hello_hash hashed,
  )

  length-signed_bytes :
      length h.hello_hash ≡ 32
      → IsBeacon beacon
      → length (signed_bytes h sequence beacon) ≡ capsule_signed_len
  length-signed_bytes hashed drawn =
      simp (length-append, length-be_bytes) (omega (arith, hashed, drawn.random_fits))

-- For a HELLO that was accepted, a sequence number and a time that fit, 32 random bytes, a digest
-- of 32 bytes and a signature of 64, the capsule is built: 160 bytes, the first 96 of them the
-- signed fields, with the device, the counter and the hash of that HELLO, and the rest the
-- signature.
pub build_capsule-signed_bytes :
    (sha256 : Bytes → Bytes) (sign_message : Bytes → Result Bytes) (buffer : Bytes) (h : Hello)
    (sequence : ℕ) (beacon : Beacon) (sig : Bytes)
    → AreBytes buffer
    → parse_hello sha256 buffer ≡ ok h
    → length (sha256 buffer) ≡ 32
    → sequence < 256 ^ 4
    → IsBeacon beacon
    → sign_message (signed_bytes h sequence beacon) ≡ ok sig
    → length sig ≡ 64
    → (capsule : Bytes) × (build_capsule sign_message h sequence beacon ≡ ok capsule)
      × (length capsule ≡ 160)
      × (take 96 capsule ≡ signed_bytes h sequence beacon)
      × (drop 96 capsule ≡ sig)
unfolding build_capsule
build_capsule-signed_bytes sha256 sign_message buffer h sequence beacon sig bytes parsed hashed
      small drawn signs sized =
    let (f, same, hash) = hello_bytes-parse_hello sha256 buffer bytes parsed in
    let hash_sized = ap length hash ∙ hashed in
    let signed = signed_bytes h sequence beacon in
    let signed_len : length signed ≡ 96 = length-signed_bytes h sequence beacon hash_sized drawn in
    (
      signed ++ sig,
      rw (
        pack_signed-signed_bytes h sequence beacon f hash_sized small drawn,
        signs,
        signed_len,
        sized,
      ),
      omega (arith, length-append signed sig, signed_len, sized),
      take-append 96 signed sig signed_len,
      drop-append 96 signed sig signed_len,
    )

pack_be-lt : (w n : ℕ) {bs : Bytes} → pack_be w (pos n) ≡ ok bs → n < 256 ^ w
unfolding pack_be
pack_be-lt w n h = ground arith

-- A sequence number that was packed fits its four bytes.
pub build_capsule-lt :
    (sign_message : Bytes → Result Bytes) (h : Hello) (sequence : ℕ) (beacon : Beacon)
    {capsule : Bytes}
    → build_capsule sign_message h sequence beacon ≡ ok capsule
    → sequence < 256 ^ 4
unfolding build_capsule pack_signed
build_capsule-lt sign_message h sequence beacon built =
    let (signed, e, built₁) = >>=-eq-ok (pack_signed h sequence beacon) _ built in
    let (b₁, e₁, r₁) = >>=-eq-ok (pack_be 1 (pos capsule_version)) _ e in
    let (b₂, e₂, r₂) = >>=-eq-ok (pack_be 1 (pos profile_dev_ed25519_puf_beacon)) _ r₁ in
    let (b₃, e₃, r₃) = >>=-eq-ok (pack_be 2 (pos capsule_signed_len)) _ r₂ in
    let (b₄, e₄, r₄) = >>=-eq-ok (pack_be 8 (pos h.device_id)) _ r₃ in
    let (b₅, e₅, r₅) = >>=-eq-ok (pack_be 4 (pos h.counter)) _ r₄ in
    let (b₆, e₆, r₆) = >>=-eq-ok (pack_be 8 (pos beacon.gateway_time_ms)) _ r₅ in
    let (b₇, e₇, r₇) = >>=-eq-ok (pack_be 4 (pos sequence)) _ r₆ in pack_be-lt 4 sequence e₇
