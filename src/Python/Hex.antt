-- ===== src/Python/Hex.antt =====
-- `bytes.fromhex`: pairs of hexadecimal digits, with ASCII white space before each pair.
use wireless_boot_entropy_ze.Base.{
  ℕ, ◌+◌, ◌-◌, ◌*◌, ◌≡◌, refl, ◌&&◌, [], ◌∷◌, arith, ltb, leb, if◌then◌else◌, Bool-cases, inl, inr,
}
use wireless_boot_entropy_ze.Python.Result.{
  Result, ok, err, value_error, ◌>>=◌, >>=-eq-ok, ok-injective,
}
use wireless_boot_entropy_ze.Python.Struct.{Bytes, IsByte, AreBytes}
use wireless_boot_entropy_ze.Python.Text.{Text, codes, is_ascii_space}

-- The value of a hexadecimal digit; 16 where the character is none.
unfoldable pub nibble : ℕ → ℕ
nibble c =
    if leb b'0' c && leb c b'9'
    then c - b'0'
    else if leb b'a' c && leb c b'f'
    then c - b'a' + 10
    else if leb b'A' c && leb c b'F'
    then c - b'A' + 10
    else 16

unfoldable pub from_hex : Text → Result Bytes
unfolding is_ascii_space nibble
from_hex [] = ok []
from_hex (c ∷ []) = if is_ascii_space c then ok [] else err value_error
from_hex (c ∷ d ∷ s) =
    let skipped = from_hex (d ∷ s) in
    let rest = from_hex s in
    if is_ascii_space c
    then skipped
    else if ltb (nibble c) 16 && ltb (nibble d) 16
    then rest >>= (λ bs. ok ((16 * nibble c + nibble d) ∷ bs))
    else err value_error

reads_pairs : from_hex (codes "0a Ff") ≡ ok (10 ∷ 255 ∷ [])
unfolding from_hex
reads_pairs = refl

nil-AreBytes : {bs : Bytes} → ok [] ≡ ok bs → AreBytes bs
nil-AreBytes h = let e : [] ≡ _ = ok-injective h in rw (← e) tt

-- What is read are bytes.
pub from_hex-AreBytes : (s : Text) {bs : Bytes} → from_hex s ≡ ok bs → AreBytes bs
unfolding from_hex
from_hex-AreBytes [] = nil-AreBytes
from_hex-AreBytes (c ∷ []) = elim (Bool-cases (is_ascii_space c)) [
  | inl space ↦ rw (from_hex, space) nil-AreBytes
  | inr other ↦ rw (from_hex, other) (λ h. cc)
]
from_hex-AreBytes (c ∷ d ∷ s) = elim (Bool-cases (is_ascii_space c)) [
  | inl space ↦ rw (from_hex, space) (from_hex-AreBytes (d ∷ s))
  | inr other ↦ elim (Bool-cases (ltb (nibble c) 16 && ltb (nibble d) 16)) [
    | inl digits ↦
        rw (from_hex, other, digits)
          (λ h.
            let (rest, read, joined) = >>=-eq-ok (from_hex s) _ h in
            let small : IsByte (16 * nibble c + nibble d) = ground arith in
            let e : (16 * nibble c + nibble d) ∷ rest ≡ _ = ok-injective joined in
            rw (← e) (small, from_hex-AreBytes s read))
    | inr no_pair ↦ rw (from_hex, other, no_pair) (λ h. cc)
  ]
]
