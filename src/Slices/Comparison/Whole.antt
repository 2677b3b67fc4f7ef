-- ===== src/Slices/Comparison/Whole.antt =====
-- The comparison of two files does not depend on the blocks, and counts what differs.
use Prim.Native.Nat.{min}
use wireless_boot_entropy_ze.Base.{
  ℕ, zero, suc, ◌+◌, ◌*◌, ◌/◌, ◌%◌, ◌≤◌, ◌<◌, ◌≡◌, refl, ap, true, false, Bool-cases, inl, inr, [],
  ◌∷◌, arith, ◌==◌, if◌then◌else◌, length, take, drop, length-take, length-drop,
}
use wireless_boot_entropy_ze.Python.Struct.{Bytes}
use wireless_boot_entropy_ze.Slices.Statistics.{bits, bit_count}
use wireless_boot_entropy_ze.Slices.Comparison.{
  Comparison, xor, compare_bytes, kept, compare_block, compare_from, compare_aligned_files,
}

-- The binary digits, of `w`, in which two numbers differ.
abbrev pub distance : ℕ → ℕ → ℕ → ℕ
distance zero a b = 0
distance (suc w) a b = (if a % 2 == b % 2 then 0 else 1) + distance w (a / 2) (b / 2)

pub bits-xor : (w a b : ℕ) → bits w (xor w a b) ≡ distance w a b
bits-xor zero a b = refl
bits-xor (suc w) a b =
    let d = if a % 2 == b % 2 then 0 else 1 in
    let small : d ≤ 1 = ground arith in
    let q = xor w (a / 2) (b / 2) in
    let low : (d + 2 * q) % 2 ≡ d = omega (arith, small) in
    let high : (d + 2 * q) / 2 ≡ q = omega (arith, small) in
    rw (low, high, bits-xor w (a / 2) (b / 2)) refl

-- Both files at the offsets that they share.
abbrev pub zip_total : (ℕ → ℕ → ℕ) → Bytes → Bytes → ℕ
zip_total f (x ∷ a) (y ∷ b) = f x y + zip_total f a b
zip_total f _ _ = 0

abbrev pub equal_one : ℕ → ℕ → ℕ
equal_one x y = if x == y then 1 else 0

-- What the loop over two blocks adds.
record Grows (a b : Bytes) (r r₁ : Comparison) : Type 0 where
  compared : r₁.compared_bytes ≡ r.compared_bytes
  equals : r₁.equal_bytes ≡ r.equal_bytes + zip_total equal_one a b
  differs : r₁.differing_bits ≡ r.differing_bits + zip_total (distance 8) a b

Grows-compare_bytes : (a b : Bytes) (r : Comparison) → Grows a b r (compare_bytes a b r)
Grows-compare_bytes [] b r = record { compared = refl; equals = omega arith; differs = omega arith }
Grows-compare_bytes (x ∷ a) [] r = record {
  compared = refl;
  equals = omega arith;
  differs = omega arith;
}
Grows-compare_bytes (x ∷ a) (y ∷ b) r =
    let r₁ : Comparison = record r {
      equal_bytes = r.equal_bytes + (if x == y then 1 else 0);
      differing_bits = r.differing_bits + bit_count (xor 8 x y);
    } in
    let rest = Grows-compare_bytes a b r₁ in
    record {
      compared = rest.compared;
      equals = omega (arith, rest.equals);
      differs = omega (arith, rest.differs, bits-xor 8 x y);
    }

zip_total-take :
    (f : ℕ → ℕ → ℕ) (k m : ℕ) (a b : Bytes)
    → min (length a) (length b) ≤ k
    → min (length a) (length b) ≤ m
    → zip_total f (take k a) (take m b) ≡ zip_total f a b
zip_total-take f zero m [] b h g = refl
zip_total-take f (suc k) m [] b h g = refl
zip_total-take f zero zero (x ∷ a) [] h g = refl
zip_total-take f zero (suc m) (x ∷ a) [] h g = refl
zip_total-take f (suc k) zero (x ∷ a) [] h g = refl
zip_total-take f (suc k) (suc m) (x ∷ a) [] h g = refl
zip_total-take f zero m (x ∷ a) (y ∷ b) h g = absurd (omega (arith, h))
zip_total-take f (suc k) zero (x ∷ a) (y ∷ b) h g = absurd (omega (arith, g))
zip_total-take f (suc k) (suc m) (x ∷ a) (y ∷ b) h g =
    ap (◌+◌ (f x y)) (zip_total-take f k m a b (omega (arith, h)) (omega (arith, g)))

zip_total-nothing : (f : ℕ → ℕ → ℕ) (a : Bytes) → zip_total f a [] ≡ 0
zip_total-nothing f [] = refl
zip_total-nothing f (x ∷ a) = refl

zip_total-cut :
    (f : ℕ → ℕ → ℕ) (k : ℕ) (a b : Bytes)
    → zip_total f a b ≡ zip_total f (take k a) (take k b) + zip_total f (drop k a) (drop k b)
zip_total-cut f zero a b = omega arith
zip_total-cut f (suc k) [] b = omega arith
zip_total-cut f (suc k) (x ∷ a) [] = omega (arith, zip_total-nothing f (drop k a))
zip_total-cut f (suc k) (x ∷ a) (y ∷ b) = omega (arith, zip_total-cut f k a b)

kept_whole : (a b : Bytes) → (length a == length b) ≡ true → kept a b ≡ a
kept_whole a b same = rw same refl

kept_cut :
    (a b : Bytes) → (length a == length b) ≡ false → kept a b ≡ take (min (length a) (length b)) a
kept_cut a b other = rw other refl

length-kept : (a b : Bytes) → length (kept a b) ≡ min (length a) (length b)
length-kept a b = elim (Bool-cases (length a == length b)) [
  | inl same ↦ rw (kept_whole a b same) (ground arith)
  | inr other ↦ rw (kept_cut a b other) (omega (arith, length-take (min (length a) (length b)) a))
]

zip_total-kept : (f : ℕ → ℕ → ℕ) (a b : Bytes) → zip_total f (kept a b) (kept b a) ≡ zip_total f a b
zip_total-kept f a b = elim (Bool-cases (length a == length b)) [
  | inl same ↦
      let back : (length b == length a) ≡ true = ground arith in
      rw (kept_whole a b same, kept_whole b a back) refl
  | inr other ↦
      let back : (length b == length a) ≡ false = ground arith in
      rw (kept_cut a b other, kept_cut b a back)
        (zip_total-take f (min (length a) (length b)) (min (length b) (length a)) a b (omega arith)
          (omega arith))
]

-- The comparison of two files, as the numbers of offsets that both have, of offsets with equal bytes,
-- and of binary digits that differ.
pub record Compares (a b : Bytes) (r r₁ : Comparison) : Type 0 where
  pub compared : r₁.compared_bytes ≡ r.compared_bytes + min (length a) (length b)
  pub equals : r₁.equal_bytes ≡ r.equal_bytes + zip_total equal_one a b
  pub differs : r₁.differing_bits ≡ r.differing_bits + zip_total (distance 8) a b

Compares-block : (a b : Bytes) (r : Comparison) → Compares a b r (compare_block a b r)
Compares-block a b r =
    let r₀ : Comparison = record r { compared_bytes = r.compared_bytes + length (kept a b) } in
    let grown = Grows-compare_bytes (kept a b) (kept b a) r₀ in
    record {
      compared = omega (arith, grown.compared, length-kept a b);
      equals = omega (arith, grown.equals, zip_total-kept equal_one a b);
      differs = omega (arith, grown.differs, zip_total-kept (distance 8) a b);
    }

Compares-compare_from :
    (fuel size : ℕ) (a b : Bytes) (r : Comparison)
    → 0 < size
    → length a ≤ fuel
    → Compares a b r (compare_from fuel size a b r)
unfolding compare_from
Compares-compare_from fuel zero a b r some_size enough = absurd (omega (arith, some_size))
Compares-compare_from zero (suc size) (x ∷ a) b r some_size enough = absurd (omega (arith, enough))
Compares-compare_from zero (suc size) [] b r some_size enough = record {
  compared = omega arith;
  equals = omega arith;
  differs = omega arith;
}
Compares-compare_from (suc fuel) (suc size) [] b r some_size enough = record {
  compared = omega arith;
  equals = omega arith;
  differs = omega arith;
}
Compares-compare_from (suc fuel) (suc size) (x ∷ a) [] r some_size enough = record {
  compared = omega arith;
  equals = omega arith;
  differs = omega arith;
}
Compares-compare_from (suc fuel) (suc size) (x ∷ a) (y ∷ b) r some_size enough =
    let block = Compares-block (x ∷ take size a) (y ∷ take size b) r in
    let rest =
      Compares-compare_from fuel (suc size) (drop size a) (drop size b)
        (compare_block (x ∷ take size a) (y ∷ take size b) r) some_size
        (omega (arith, enough, length-drop size a)) in
    record {
      compared = omega (
        arith,
        block.compared,
        rest.compared,
        length-take size a,
        length-take size b,
        length-drop size a,
        length-drop size b,
      );
      equals =
          omega
            (arith, block.equals, rest.equals, zip_total-cut equal_one (suc size) (x ∷ a) (y ∷ b));
      differs = omega (
        arith,
        block.differs,
        rest.differs,
        zip_total-cut (distance 8) (suc size) (x ∷ a) (y ∷ b),
      );
    }

-- For every block size that is not zero, the comparison counts the offsets that both files have, those
-- of them with equal bytes, and the binary digits in which the bytes at them differ.
pub compare_aligned_files-Compares :
    (size : ℕ) (a b : Bytes)
    → 0 < size
    → Compares a b
        (record { compared_bytes = 0; equal_bytes = 0; differing_bits = 0 })
        (compare_aligned_files size a b)
unfolding compare_aligned_files
compare_aligned_files-Compares size a b some_size =
    Compares-compare_from (length a) size a b _ some_size (omega arith)
