-- ===== src/Python/Struct/BigEndian.antt =====
-- The same for fields in network order.
use wireless_boot_entropy_ze.Base.{
  ℕ, ◌^◌, ◌≤◌, ◌<◌, ◌≡◌, refl, ap, ◌∙◌, List, [], ◌∷◌, ◌++◌, arith, length, length-append,
  length-take, take, drop, take-append, drop-append, take-append-drop, All-append, All-take, lt→ltb,
}
use mathlib.Core.List.{reverse, reverse-reverse, reverse-cons}
use wireless_boot_entropy_ze.Base.Int.{pos}
use wireless_boot_entropy_ze.Python.Result.{ok}
use wireless_boot_entropy_ze.Python.Struct.{
  Bytes, IsByte, AreBytes, le_bytes, be_bytes, of_be_bytes, pack_be, read_be,
}
use wireless_boot_entropy_ze.Python.Struct.Laws.{
  length-le_bytes, of_le_bytes-le_bytes, le_bytes-of_le_bytes, of_le_bytes-lt,
}

length-reverse {ℓ} : {A : Type ℓ} (xs : List A) → length (reverse xs) ≡ length xs
length-reverse [] = refl
length-reverse (x ∷ xs) =
    rw (reverse-cons x xs) (omega (arith, length-append (reverse xs) (x ∷ []), length-reverse xs))

AreBytes-reverse : (bs : Bytes) → AreBytes bs → AreBytes (reverse bs)
AreBytes-reverse [] h = tt
AreBytes-reverse (b ∷ bs) (p, h) =
    rw (reverse-cons b bs) (All-append IsByte (reverse bs) (b ∷ []) (AreBytes-reverse bs h) (p, tt))

pub length-be_bytes : (w n : ℕ) → length (be_bytes w n) ≡ w
unfolding be_bytes
length-be_bytes w n = length-reverse (le_bytes w n) ∙ length-le_bytes w n

pub pack_be_pos : (w n : ℕ) → n < 256 ^ w → pack_be w (pos n) ≡ ok (be_bytes w n)
unfolding pack_be
pack_be_pos w n h = rw (lt→ltb _ _ h)

pub read_be-append :
    (w n : ℕ) (rest : Bytes) → n < 256 ^ w → read_be w (be_bytes w n ++ rest) ≡ (n, rest)
unfolding read_be of_be_bytes be_bytes
read_be-append w n rest h = rw (
  take-append w (be_bytes w n) rest (length-be_bytes w n),
  drop-append w (be_bytes w n) rest (length-be_bytes w n),
  reverse-reverse (le_bytes w n),
  of_le_bytes-le_bytes w n h,
)

-- A number that is read and written again gives its bytes.
pub be_bytes-of_be_bytes : (bs : Bytes) → AreBytes bs → be_bytes (length bs) (of_be_bytes bs) ≡ bs
unfolding be_bytes of_be_bytes
be_bytes-of_be_bytes bs h =
    let same = le_bytes-of_le_bytes (reverse bs) (AreBytes-reverse bs h) in
    let n = length-reverse bs in ap reverse (rw n at same) ∙ reverse-reverse bs

pub append-read_be :
    (w : ℕ) (bs : Bytes)
    → AreBytes bs
    → w ≤ length bs
    → be_bytes w (read_be w bs).0 ++ (read_be w bs).1 ≡ bs
unfolding read_be
append-read_be w bs h fits =
    let n : length (take w bs) ≡ w = omega (arith, length-take w bs) in
    let field = be_bytes-of_be_bytes (take w bs) (All-take IsByte w bs h) in
    ap (λ front. front ++ drop w bs) (rw n at field) ∙ take-append-drop w bs

pub read_be-lt : (w : ℕ) (bs : Bytes) → AreBytes bs → w ≤ length bs → (read_be w bs).0 < 256 ^ w
unfolding read_be of_be_bytes
read_be-lt w bs h fits =
    let n : length (reverse (take w bs)) ≡ w =
      omega (arith, length-take w bs, length-reverse (take w bs)) in
    rw n at (of_le_bytes-lt (reverse (take w bs)) (AreBytes-reverse _ (All-take IsByte w bs h)))
