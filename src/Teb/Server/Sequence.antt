-- ===== src/Teb/Server/Sequence.antt =====
-- The sequence numbers that the server gives out.
use wireless_boot_entropy_ze.Base.{
  ℕ, ◌+◌, ◌^◌, ◌<◌, ◌≤◌, ◌≡◌, refl, ◌∙◌, List, [], ◌∷◌, ◌++◌, arith, All, All-append,
}
use wireless_boot_entropy_ze.Python.Result.{Result, ok, err, Result-cases}
use wireless_boot_entropy_ze.Python.Struct.{Bytes}
use wireless_boot_entropy_ze.Aeb.Trial.{Peer}
use wireless_boot_entropy_ze.Teb.Server.Capsule.{build_capsule-lt}
use wireless_boot_entropy_ze.Teb.Server.{
  Hello, Beacon, Server, parse_hello, build_capsule, reply, serve, serve_all,
}

-- The numbers of the capsules rise from above `low`, and none is above `high`.
abbrev pub RiseBetween : ℕ → List (Peer × ℕ × Bytes) → ℕ → Type 0
RiseBetween low [] high = low ≤ high
RiseBetween low ((_, n, _) ∷ served) high = (low < n) × RiseBetween n served high

RiseBetween-next :
    (low : ℕ) (served : List (Peer × ℕ × Bytes)) (high : ℕ)
    → RiseBetween low served high
    → RiseBetween low served (high + 1)
RiseBetween-next low [] high h = omega arith
RiseBetween-next low ((_, n, _) ∷ served) high (p, h) = (p, RiseBetween-next n served high h)

RiseBetween-append :
    (low : ℕ) (served : List (Peer × ℕ × Bytes)) (high : ℕ) (peer : Peer) (capsule : Bytes)
    → RiseBetween low served high
    → RiseBetween low (served ++ (peer, high + 1, capsule) ∷ []) (high + 1)
RiseBetween-append low [] high peer capsule h = (omega arith, omega arith)
RiseBetween-append low ((_, n, _) ∷ served) high peer capsule (p, h) =
    (p, RiseBetween-append n served high peer capsule h)

module _ (sha256 : Bytes → Bytes) (sign_message : Bytes → Result Bytes) where
  -- The capsule was built for its number, from a datagram that was accepted.
  abbrev pub IsBuilt : Peer × ℕ × Bytes → Type 0
  IsBuilt (peer, n, capsule) =
      (buffer : Bytes) × (hello : Hello) × (beacon : Beacon) × (parse_hello sha256 buffer
        ≡ ok hello)
      × (build_capsule sign_message hello n beacon ≡ ok capsule)

  -- What holds of a server that began at `low`.
  pub record Serves (low : ℕ) (s : Server) : Type 0 where
    pub rise : RiseBetween low s.served s.sequence
    pub built : All IsBuilt s.served

  -- The datagrams that are HELLOs.
  abbrev pub accepted : List (Bytes × Peer × Beacon) → ℕ
  accepted [] = 0
  accepted ((buffer, _, _) ∷ rest) = elim (parse_hello sha256 buffer) [
    | err e ↦ accepted rest
    | ok hello ↦ accepted rest + 1
  ]

  serve-Serves :
      (low : ℕ) (buffer : Bytes) (peer : Peer) (beacon : Beacon) (s : Server)
      → Serves low s
      → Serves low (serve sha256 sign_message buffer peer beacon s)
  unfolding serve
  serve-Serves low buffer peer beacon s h =
      Result-cases (parse_hello sha256 buffer) _
        (λ hello e.
          Result-cases (build_capsule sign_message hello (s.sequence + 1) beacon) _
            (λ capsule f.
              rw (serve, e, f)
                (record {
                  rise = RiseBetween-append low s.served s.sequence peer capsule h.rise;
                  built = All-append IsBuilt s.served _ h.built ((buffer, hello, beacon, e, f), tt);
                }))
            (λ raised f.
              rw (serve, e, f)
                (record {
                  rise = RiseBetween-next low s.served s.sequence h.rise;
                  built = h.built;
                })))
        (λ raised e. rw (serve, e) h)

  serve_all-Serves :
      (datagrams : List (Bytes × Peer × Beacon)) (low : ℕ) (s : Server)
      → Serves low s
      → Serves low (serve_all sha256 sign_message datagrams s)
  unfolding serve_all
  serve_all-Serves [] low s h = h
  serve_all-Serves ((buffer, peer, beacon) ∷ rest) low s h =
      serve_all-Serves rest low (serve sha256 sign_message buffer peer beacon s)
        (serve-Serves low buffer peer beacon s h)

  sequence-reply :
      (peer : Peer) (n : ℕ) (r : Result Bytes) (s : Server) → (reply peer n r s).sequence ≡ n
  sequence-reply peer n (ok capsule) s = refl
  sequence-reply peer n (err e) s = refl

  sequence-serve_all :
      (datagrams : List (Bytes × Peer × Beacon)) (s : Server)
      → (serve_all sha256 sign_message datagrams s).sequence ≡ s.sequence + accepted datagrams
  unfolding serve_all serve
  sequence-serve_all [] s = omega arith
  sequence-serve_all ((buffer, peer, beacon) ∷ rest) s =
      let more = sequence-serve_all rest (serve sha256 sign_message buffer peer beacon s) in
      Result-cases (parse_hello sha256 buffer) _
        (λ hello e.
          let next : (serve sha256 sign_message buffer peer beacon s).sequence ≡ s.sequence + 1 =
            rw (serve, e) (sequence-reply peer (s.sequence + 1) _ s) in
          more ∙ rw (accepted, e) (omega (arith, next)))
        (λ raised e.
          let next : (serve sha256 sign_message buffer peer beacon s).sequence ≡ s.sequence =
            rw (serve, e) refl in
          more ∙ rw (accepted, e) (omega (arith, next)))

  serve-exhausted :
      (buffer : Bytes) (peer : Peer) (beacon : Beacon) (s : Server)
      → 256 ^ 4 ≤ s.sequence + 1
      → let after = serve sha256 sign_message buffer peer beacon s in
        (after.served ≡ s.served) × (s.sequence ≤ after.sequence)
  unfolding serve
  serve-exhausted buffer peer beacon s large =
      Result-cases (parse_hello sha256 buffer) _
        (λ hello e.
          Result-cases (build_capsule sign_message hello (s.sequence + 1) beacon) _
            (λ capsule f.
              absurd (omega (arith, build_capsule-lt sign_message hello (s.sequence + 1) beacon f)))
            (λ raised f. rw (serve, e, f) (refl, omega arith)))
        (λ raised e. rw (serve, e) (refl, omega arith))

  -- From a sequence number of 2^32 - 1 on, no capsule is sent any more, whatever arrives.
  pub serve_all-exhausted :
      (datagrams : List (Bytes × Peer × Beacon)) (s : Server)
      → 256 ^ 4 ≤ s.sequence + 1
      → (serve_all sha256 sign_message datagrams s).served ≡ s.served
  unfolding serve_all
  serve_all-exhausted [] s large = refl
  serve_all-exhausted ((buffer, peer, beacon) ∷ rest) s large =
      let (same, grows) = serve-exhausted buffer peer beacon s large in
      serve_all-exhausted rest (serve sha256 sign_message buffer peer beacon s) (omega arith) ∙ same

  -- Whatever arrives: the counter has grown by the number of datagrams that are HELLOs; and where
  -- the numbers of the capsules sent before rise strictly, and each was built for its number from a
  -- datagram that was accepted, the same holds after, so that no number is given twice.
  pub serve_all-rises :
      (datagrams : List (Bytes × Peer × Beacon)) (low : ℕ) (s : Server)
      → Serves low s
      → Serves low (serve_all sha256 sign_message datagrams s)
        × ((serve_all sha256 sign_message datagrams s).sequence ≡ s.sequence + accepted datagrams)
  serve_all-rises datagrams low s h =
      (serve_all-Serves datagrams low s h, sequence-serve_all datagrams s)
