-- ===== src/Aeb/Nonce.antt =====
-- The nonce that the command line fixes: `fixed_nonce` of aeb_collector.py, `nonce_from_args` of
-- stimulus_sender.py, and the tests of both `main` functions that call them.
use wireless_boot_entropy_ze.Base.{
  ℕ, ◌<◌, ◌≡◌, refl, Bool, true, false, ◌||◌, Option, none, some, [], ◌∷◌, ◌==◌, arith,
  if◌then◌else◌, length, replicate, Bool-cases, inl, inr,
}
use wireless_boot_entropy_ze.Python.Result.{
  Result, ok, err, system_exit, ◌>>=◌, >>=-eq-ok, ok-injective,
}
use wireless_boot_entropy_ze.Python.Struct.{Bytes, AreBytes}
use wireless_boot_entropy_ze.Python.Hex.{from_hex, from_hex-AreBytes}
use wireless_boot_entropy_ze.Python.Text.{Text}

-- `--nonce-hex`, which counts as missing where it is empty
abbrev pub is_given : Option Text → Bool
is_given none = false
is_given (some []) = false
is_given (some (_ ∷ _)) = true

-- `bytes.fromhex(args.nonce_hex)`, with the test of its length
unfoldable pub nonce_of_hex : Text → Result Bytes
nonce_of_hex hex = do raw ← from_hex hex; (if length raw == 16 then ok raw else err system_exit)

unfoldable pub fixed_nonce : Option Text → Result Bytes
unfolding nonce_of_hex
fixed_nonce none = ok (replicate 16 0)
fixed_nonce (some []) = ok (replicate 16 0)
fixed_nonce (some (c ∷ s)) = nonce_of_hex (c ∷ s)

-- `fixed_nonce(args) if args.fixed_nonce else None`, where `--nonce-hex` sets the flag
unfoldable pub collector_nonce : Option Text → Bool → Result (Option Bytes)
unfolding fixed_nonce
collector_nonce hex flag =
    if is_given hex || flag then fixed_nonce hex >>= (λ nonce. ok (some nonce)) else ok none

-- The flag and `os.urandom(16)` where no nonce is given.
unfoldable pub nonce_from_args : Option Text → Bool → Bytes → Result Bytes
unfolding nonce_of_hex
nonce_from_args none flag drawn = ok (if flag then replicate 16 0xa3 else drawn)
nonce_from_args (some []) flag drawn = ok (if flag then replicate 16 0xa3 else drawn)
nonce_from_args (some (c ∷ s)) flag drawn = nonce_of_hex (c ∷ s)

-- `nonce_from_args(args) if args.fixed_nonce or args.nonce_hex else None`
unfoldable pub sender_nonce : Option Text → Bool → Bytes → Result (Option Bytes)
unfolding nonce_from_args
sender_nonce hex flag drawn =
    if flag || is_given hex
    then nonce_from_args hex flag drawn >>= (λ nonce. ok (some nonce))
    else ok none

-- Sixteen bytes.
pub record IsNonce (nonce : Bytes) : Type 0 where
  pub sized : length nonce ≡ 16
  pub bytes : AreBytes nonce

nonce_of_hex-IsNonce : (hex : Text) {nonce : Bytes} → nonce_of_hex hex ≡ ok nonce → IsNonce nonce
unfolding nonce_of_hex
nonce_of_hex-IsNonce hex {nonce} h =
    let (raw, read, tested) = >>=-eq-ok (from_hex hex) _ h in
    let bytes = from_hex-AreBytes hex read in
    let sized : length raw ≡ 16 = ground arith in
    let same : raw ≡ nonce = ground arith in rw (← same) (record { sized = sized; bytes = bytes })

constant-IsNonce :
    (b : ℕ) {nonce : Bytes} → b < 256 → ok (replicate 16 b) ≡ ok nonce → IsNonce nonce
constant-IsNonce b {nonce} small h =
    let same : replicate 16 b ≡ nonce = ok-injective h in
    rw (← same) (record { sized = refl; bytes = ground arith })

fixed_nonce-IsNonce :
    (hex : Option Text) {nonce : Bytes} → fixed_nonce hex ≡ ok nonce → IsNonce nonce
unfolding fixed_nonce
fixed_nonce-IsNonce none h = constant-IsNonce 0 (ground arith) h
fixed_nonce-IsNonce (some []) h = constant-IsNonce 0 (ground arith) h
fixed_nonce-IsNonce (some (c ∷ s)) h = nonce_of_hex-IsNonce (c ∷ s) h

some_nonce :
    (r : Result Bytes) {nonce : Bytes} → (r >>= (λ n. ok (some n))) ≡ ok (some nonce) → r ≡ ok nonce
some_nonce (ok n) h = ground arith
some_nonce (err e) h = cc

-- A nonce that the collector's command line fixes, by --fixed-nonce or by --nonce-hex, is 16 bytes.
pub collector_nonce-IsNonce :
    (hex : Option Text) (flag : Bool) {nonce : Bytes}
    → collector_nonce hex flag ≡ ok (some nonce)
    → IsNonce nonce
unfolding collector_nonce
collector_nonce-IsNonce hex flag = elim (Bool-cases (is_given hex || flag)) [
  | inl fixed ↦
      rw (collector_nonce, fixed) (λ h. fixed_nonce-IsNonce hex (some_nonce (fixed_nonce hex) h))
  | inr free ↦ rw (collector_nonce, free) (λ h. cc)
]

nonce_from_args-IsNonce :
    (hex : Option Text) (flag : Bool) (drawn : Bytes) {nonce : Bytes}
    → (flag || is_given hex) ≡ true
    → nonce_from_args hex flag drawn ≡ ok nonce
    → IsNonce nonce
unfolding nonce_from_args
nonce_from_args-IsNonce (some (c ∷ s)) flag drawn asked h = nonce_of_hex-IsNonce (c ∷ s) h
nonce_from_args-IsNonce none true drawn asked h = constant-IsNonce 0xa3 (ground arith) h
nonce_from_args-IsNonce none false drawn asked h = cc
nonce_from_args-IsNonce (some []) true drawn asked h = constant-IsNonce 0xa3 (ground arith) h
nonce_from_args-IsNonce (some []) false drawn asked h = cc

-- A nonce that the sender's command line fixes is 16 bytes; none is drawn for all trials.
pub sender_nonce-IsNonce :
    (hex : Option Text) (flag : Bool) (drawn : Bytes) {nonce : Bytes}
    → sender_nonce hex flag drawn ≡ ok (some nonce)
    → IsNonce nonce
unfolding sender_nonce
sender_nonce-IsNonce hex flag drawn = elim (Bool-cases (flag || is_given hex)) [
  | inl fixed ↦
      rw (sender_nonce, fixed)
        (λ h.
          nonce_from_args-IsNonce hex flag drawn fixed
            (some_nonce (nonce_from_args hex flag drawn) h))
  | inr free ↦ rw (sender_nonce, free) (λ h. cc)
]
