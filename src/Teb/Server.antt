-- ===== src/Teb/Server.antt =====
-- entropy-capsule-bootstrap/server/teb_beacon_server.py. SHA-256 and the Ed25519 signature are
-- arguments; what os.urandom and the clock give is drawn, one draw for each datagram.
pub mod RoundTrip
pub mod Capsule
pub mod Sequence
use wireless_boot_entropy_ze.Base.{
  ℕ, ◌+◌, ◌||◌, Bool, not, List, [], ◌∷◌, ◌++◌, ◌==◌, if◌then◌else◌, length, take, drop, nat_eq,
  list_beq,
}
use wireless_boot_entropy_ze.Base.Int.{ℤ, pos}
use wireless_boot_entropy_ze.Python.Result.{Result, ok, err, value_error, assertion_error, ◌>>=◌}
use wireless_boot_entropy_ze.Python.Struct.{Bytes, pack_be, pack_string, read_be}
use wireless_boot_entropy_ze.Aeb.Trial.{Peer}

abbrev pub hello_magic : Bytes
hello_magic = b'T' ∷ b'E' ∷ b'B' ∷ b'H' ∷ []

abbrev pub capsule_magic : Bytes
capsule_magic = b'T' ∷ b'E' ∷ b'B' ∷ b'C' ∷ []

abbrev pub capsule_version : ℕ
capsule_version = 1

abbrev pub profile_dev_ed25519_puf_beacon : ℕ
profile_dev_ed25519_puf_beacon = 1

abbrev pub hello_len : ℕ
hello_len = 88

abbrev pub capsule_signed_len : ℕ
capsule_signed_len = 96

pub record Hello : Type 0 where
  pub flags : ℕ
  pub device_id : ℕ
  pub counter : ℕ
  pub uptime : ℕ
  pub sram_commitment : Bytes
  pub timing_commitment : Bytes
  pub hello_hash : Bytes

-- `os.urandom(32)` and `int(time.time() * 1000)`
pub record Beacon : Type 0 where
  pub random : Bytes
  pub gateway_time_ms : ℕ

module _ (sha256 : Bytes → Bytes) where
  -- "!4sBBH Q I I" and the two commitments
  unfoldable pub parse_hello : Bytes → Result Hello
  parse_hello buffer =
      let magic = take 4 buffer in
      let (version, r₁) = read_be 1 (drop 4 buffer) in
      let (profile, r₂) = read_be 1 r₁ in
      let (flags, r₃) = read_be 2 r₂ in
      let (device_id, r₄) = read_be 8 r₃ in
      let (counter, r₅) = read_be 4 r₄ in
      let (uptime, r₆) = read_be 4 r₅ in
      if not (length buffer == hello_len)
      then err value_error
      else if not (list_beq magic hello_magic)
      then err value_error
      else if not (version == capsule_version)
      then err value_error
      else if not (profile == profile_dev_ed25519_puf_beacon)
      then err value_error
      else ok (record {
        flags = flags;
        device_id = device_id;
        counter = counter;
        uptime = uptime;
        sram_commitment = take 32 r₆;
        timing_commitment = drop 32 r₆;
        hello_hash = sha256 buffer;
      })

-- `struct.pack("!4sBBH Q I Q I 32s 32s", ...)`
unfoldable pub pack_signed : Hello → ℕ → Beacon → Result Bytes
pack_signed hello sequence beacon = do
  b₁ ← pack_be 1 (pos capsule_version)
  b₂ ← pack_be 1 (pos profile_dev_ed25519_puf_beacon)
  b₃ ← pack_be 2 (pos capsule_signed_len)
  b₄ ← pack_be 8 (pos hello.device_id)
  b₅ ← pack_be 4 (pos hello.counter)
  b₆ ← pack_be 8 (pos beacon.gateway_time_ms)
  b₇ ← pack_be 4 (pos sequence)
  ok (
      pack_string 4 capsule_magic
      ++ (b₁
          ++ (b₂
              ++ (b₃
                  ++ (b₄
                      ++ (b₅
                          ++ (b₆
                              ++ (b₇
                                  ++ (pack_string 32 beacon.random
                                      ++ pack_string 32 hello.hello_hash)))))))))

-- The sizes are tested after signing.
abbrev pub sized_capsule : Bytes → Bytes → Result Bytes
sized_capsule signed sig =
    if not (length signed == capsule_signed_len) || not (length sig == 64)
    then err assertion_error
    else ok (signed ++ sig)

module _ (sign_message : Bytes → Result Bytes) where
  unfoldable pub build_capsule : Hello → ℕ → Beacon → Result Bytes
  unfolding pack_signed
  build_capsule hello sequence beacon = do
    signed ← pack_signed hello sequence beacon
    sig ← sign_message signed
    sized_capsule signed sig

-- The variable of the loop, and the capsules sent, each with the sequence number it was built for.
pub record Server : Type 0 where
  pub sequence : ℕ
  pub served : List (Peer × ℕ × Bytes)

-- After `sequence += 1`: an exception is printed, and nothing is sent.
abbrev pub reply : Peer → ℕ → Result Bytes → Server → Server
reply peer sequence (err e) s = record s { sequence = sequence }
reply peer sequence (ok capsule) s = record {
  sequence = sequence;
  served = s.served ++ (peer, sequence, capsule) ∷ [];
}

module _ (sha256 : Bytes → Bytes) (sign_message : Bytes → Result Bytes) where
  -- One round of the loop.
  unfoldable pub serve : Bytes → Peer → Beacon → Server → Server
  unfolding parse_hello build_capsule
  serve buffer peer beacon s = elim (parse_hello sha256 buffer) [
    | err e ↦ s
    | ok hello ↦
        let sequence = s.sequence + 1 in
        reply peer sequence (build_capsule sign_message hello sequence beacon) s
  ]

  -- `while True`, for the datagrams given.
  unfoldable pub serve_all : List (Bytes × Peer × Beacon) → Server → Server
  unfolding serve
  serve_all [] s = s
  serve_all ((buffer, peer, beacon) ∷ rest) s = serve_all rest (serve buffer peer beacon s)
