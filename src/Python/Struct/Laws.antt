-- ===== src/Python/Struct/Laws.antt =====
-- Fields of a packed buffer are read back, and bytes that are read are written again.
use wireless_boot_entropy_ze.Base.{
  ℕ, zero, suc, ◌+◌, ◌-◌, ◌*◌, ◌/◌, ◌%◌, ◌^◌, ◌≤◌, ◌<◌, ◌≡◌, refl, ap, [], ◌∷◌, ◌++◌, append-nil,
  arith, length, length-take, take, take-append, drop-append, take-append-drop, take_all, All-take,
  lt→ltb,
}
use wireless_boot_entropy_ze.Base.Int.{pos}
use wireless_boot_entropy_ze.Python.Result.{ok}
use wireless_boot_entropy_ze.Python.Struct.{
  Bytes, IsByte, AreBytes, le_bytes, of_le_bytes, pack_le, pack_string, read_le,
}
use native.Mathlib.Nat.{pow-suc}

pub length-le_bytes : (w n : ℕ) → length (le_bytes w n) ≡ w
unfolding le_bytes
length-le_bytes zero n = refl
length-le_bytes (suc w) n = ap suc (length-le_bytes w (n / 256))

pub le_bytes-AreBytes : (w n : ℕ) → AreBytes (le_bytes w n)
unfolding le_bytes
le_bytes-AreBytes zero n = tt
le_bytes-AreBytes (suc w) n = (omega arith, le_bytes-AreBytes w (n / 256))

pub of_le_bytes-le_bytes : (w n : ℕ) → n < 256 ^ w → of_le_bytes (le_bytes w n) ≡ n
unfolding le_bytes of_le_bytes
of_le_bytes-le_bytes zero n h = omega arith
of_le_bytes-le_bytes (suc w) n h =
    omega (arith, of_le_bytes-le_bytes w (n / 256) (omega (arith, pow-suc 256 w)))

pub le_bytes-of_le_bytes : (bs : Bytes) → AreBytes bs → le_bytes (length bs) (of_le_bytes bs) ≡ bs
unfolding le_bytes of_le_bytes
le_bytes-of_le_bytes [] h = refl
le_bytes-of_le_bytes (b ∷ bs) (p, h) =
    let low : (b + 256 * of_le_bytes bs) % 256 ≡ b = omega arith in
    let high : (b + 256 * of_le_bytes bs) / 256 ≡ of_le_bytes bs = omega arith in
    rw (low, high, le_bytes-of_le_bytes bs h)

pub of_le_bytes-lt : (bs : Bytes) → AreBytes bs → of_le_bytes bs < 256 ^ length bs
unfolding of_le_bytes
of_le_bytes-lt [] h = omega arith
of_le_bytes-lt (b ∷ bs) (p, h) = omega (arith, of_le_bytes-lt bs h, pow-suc 256 (length bs))

-- A packed number in range is its little-endian bytes.
pub pack_le_pos : (w n : ℕ) → n < 256 ^ w → pack_le w (pos n) ≡ ok (le_bytes w n)
unfolding pack_le
pack_le_pos w n h = rw (lt→ltb _ _ h)

pub read_le-append :
    (w n : ℕ) (rest : Bytes) → n < 256 ^ w → read_le w (le_bytes w n ++ rest) ≡ (n, rest)
unfolding read_le
read_le-append w n rest h = rw (
  take-append w (le_bytes w n) rest (length-le_bytes w n),
  drop-append w (le_bytes w n) rest (length-le_bytes w n),
  of_le_bytes-le_bytes w n h,
)

-- What `read_le` took from a long enough buffer packs to the bytes that it took.
pub append-read_le :
    (w : ℕ) (bs : Bytes)
    → AreBytes bs
    → w ≤ length bs
    → le_bytes w (read_le w bs).0 ++ (read_le w bs).1 ≡ bs
unfolding read_le
append-read_le w bs h fits =
    let n : length (take w bs) ≡ w = omega (arith, length-take w bs) in
    let same : le_bytes w (of_le_bytes (take w bs)) ≡ take w bs =
      rw n at (le_bytes-of_le_bytes (take w bs) (All-take IsByte w bs h)) in
    rw same (take-append-drop w bs)

pub read_le-lt : (w : ℕ) (bs : Bytes) → AreBytes bs → w ≤ length bs → (read_le w bs).0 < 256 ^ w
unfolding read_le
read_le-lt w bs h fits =
    let n : length (take w bs) ≡ w = omega (arith, length-take w bs) in
    rw n at (of_le_bytes-lt (take w bs) (All-take IsByte w bs h))

pub pack_string_exact : (w : ℕ) (bs : Bytes) → length bs ≡ w → pack_string w bs ≡ bs
unfolding pack_string
pack_string_exact w bs h =
    let none_left : w - length bs ≡ 0 = omega (arith, h) in
    rw (take_all w bs (omega (arith, h)), none_left) (append-nil bs)
