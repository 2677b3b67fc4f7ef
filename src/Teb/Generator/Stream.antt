-- ===== src/Teb/Generator/Stream.antt =====
-- generate_pq_keys.py: what the generator fills a buffer with is a prefix of one stream of bytes.
use wireless_boot_entropy_ze.Base.{
  ℕ, zero, suc, ◌-◌, ◌*◌, ◌/◌, ◌%◌, ◌^◌, ◌≤◌, ◌<◌, ◌≡◌, refl, sym, ap, ◌∙◌, [], ◌∷◌, ◌++◌, arith,
  length, take, length-append, length-take, ◌==◌, if◌then◌else◌,
}
use native.Mathlib.Nat.{pow-suc}
use wireless_boot_entropy_ze.Python.Struct.{Bytes, le_bytes}
use wireless_boot_entropy_ze.Python.Struct.Laws.{length-le_bytes}
use wireless_boot_entropy_ze.Slices.Comparison.{xor}
use wireless_boot_entropy_ze.Teb.Generator.{
  xor_shifted, next_state, mixed, next_u64, fill_left, fill,
}

xor-lt : (w a b : ℕ) → xor w a b < 2 ^ w
xor-lt zero a b = omega arith
xor-lt (suc w) a b =
    let d = if a % 2 == b % 2 then 0 else 1 in
    let small : d ≤ 1 = ground arith in omega (arith, small, xor-lt w (a / 2) (b / 2), pow-suc 2 w)

mixed-lt : (state : ℕ) → mixed state < 2 ^ 64
unfolding mixed
mixed-lt state =
    let z = (xor_shifted 30 state * 0xbf58476d1ce4e5b9) % 2 ^ 64 in
    let z₁ = (xor_shifted 27 z * 0x94d049bb133111eb) % 2 ^ 64 in xor-lt 64 z₁ (z₁ / 2 ^ 31)

-- The bytes of so many words.
unfoldable pub stream : ℕ → ℕ → Bytes
stream zero state = []
stream (suc words) state = le_bytes 8 (next_u64 state).0 ++ stream words (next_u64 state).1

length-stream : (words state : ℕ) → length (stream words state) ≡ words * 8
unfolding stream
length-stream zero state = refl
length-stream (suc words) state = omega (
  arith,
  length-append (le_bytes 8 (next_u64 state).0) (stream words (next_u64 state).1),
  length-le_bytes 8 (next_u64 state).0,
  length-stream words (next_u64 state).1,
)

take-append_cut : (n : ℕ) (xs ys : Bytes) → take n (xs ++ ys) ≡ take n xs ++ take (n - length xs) ys
take-append_cut zero xs ys = let none_left : 0 - length xs ≡ 0 = omega arith in rw none_left refl
take-append_cut (suc n) [] ys = let all_left : suc n - 0 ≡ suc n = omega arith in rw all_left refl
take-append_cut (suc n) (x ∷ xs) ys =
    let fewer : suc n - suc (length xs) ≡ n - length xs = omega arith in
    rw fewer (ap (◌∷◌ x) (take-append_cut n xs ys))

fill_left-stream :
    (fuel left words state : ℕ)
    → left ≤ fuel
    → left ≤ words * 8
    → (fill_left fuel left state).0 ≡ take left (stream words state)
unfolding fill_left stream
fill_left-stream zero zero words state enough fits = refl
fill_left-stream (suc fuel) zero words state enough fits = refl
fill_left-stream zero (suc left) words state enough fits = absurd (omega (arith, enough))
fill_left-stream (suc fuel) (suc left) zero state enough fits = absurd (omega (arith, fits))
fill_left-stream (suc fuel) (suc left) (suc words) state enough fits =
    let block = le_bytes 8 (next_u64 state).0 in
    let after =
      fill_left-stream fuel (suc left - 8) words (next_u64 state).1 (omega (arith, enough))
        (omega (arith, fits)) in
    let eight : suc left - 8 ≡ suc left - length block =
      omega (arith, length-le_bytes 8 (next_u64 state).0) in
    ap (λ bs. take (suc left) block ++ bs)
      (after ∙ ap (λ m. take m (stream words (next_u64 state).1)) eight)
    ∙ sym (take-append_cut (suc left) block (stream words (next_u64 state).1))

-- Every word is below 2^64, so that `to_bytes(8)` does not raise, and a buffer is filled with exactly as
-- many bytes as it has: the first ones of the stream of words that starts at the state.
pub fill-stream :
    (size words state : ℕ)
    → size ≤ words * 8
    → ((next_u64 state).0 < 2 ^ 64)
      × (length (fill size state).0 ≡ size)
      × ((fill size state).0 ≡ take size (stream words state))
unfolding fill
fill-stream size words state fits =
    let same = fill_left-stream size size words state (omega arith) fits in
    (
      mixed-lt (next_state state),
      omega
          (arith, ap length same, length-take size (stream words state), length-stream words state),
      same,
    )
