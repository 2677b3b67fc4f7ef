-- ===== src/Teb/Puf/Spread.antt =====
-- analyze_puf_captures.py: the distances of all pairs and the counts of ones in the columns agree.
use wireless_boot_entropy_ze.Base.{
  length-replicate, ℕ, zero, suc, ◌+◌, ◌-◌, ◌*◌, ◌≤◌, ◌≡◌, refl, sym, ap, ◌∙◌, true, Bool-cases,
  false, inl, inr, List, [], ◌∷◌, ◌++◌, map, arith, ◌==◌, if◌then◌else◌, length, length-append,
  replicate, All, All-append,
}
use mathlib.Core.Path.{subst}
use wireless_boot_entropy_ze.Python.Result.{ok, ok-injective}
use wireless_boot_entropy_ze.Python.Struct.{Bytes}
use wireless_boot_entropy_ze.Slices.Comparison.Whole.{bits-xor}
use wireless_boot_entropy_ze.Teb.Puf.{
  bits_below, bits_of, hamming, distances_to, pairwise_distances, sum, same_sizes, add_row, ones_of,
  PufSummary, summary_of, summarize,
}

-- The number of columns in which two rows differ.
abbrev pub row_distance : List ℕ → List ℕ → ℕ
row_distance (x ∷ row) (y ∷ other) = (if x == y then 0 else 1) + row_distance row other
row_distance _ _ = 0

hamming-row_distance : (a b : Bytes) → hamming a b ≡ row_distance (bits_of a) (bits_of b)
unfolding hamming bits_of
hamming-row_distance [] [] = refl
hamming-row_distance [] (y ∷ b) = refl
hamming-row_distance (x ∷ a) [] = refl
hamming-row_distance (x ∷ a) (y ∷ b) = omega (arith, bits-xor 8 x y, hamming-row_distance a b)

-- Digits.
abbrev IsBits : List ℕ → Type 0
IsBits = All (λ b. b ≤ 1)

bits_of-IsBits : (sample : Bytes) → IsBits (bits_of sample)
unfolding bits_of
bits_of-IsBits [] = tt
bits_of-IsBits (b ∷ sample) =
    All-append (λ b. b ≤ 1) (bits_below 8 b) (bits_of sample)
      (
        omega arith,
        (
          omega arith,
          (
            omega arith,
            (omega arith, (omega arith, (omega arith, (omega arith, (omega arith, tt))))),
          ),
        ),
      )
      (bits_of-IsBits sample)

length-bits_of : (sample : Bytes) → length (bits_of sample) ≡ length sample * 8
unfolding bits_of
length-bits_of [] = refl
length-bits_of (b ∷ sample) =
    omega (arith, length-append (bits_below 8 b) (bits_of sample), length-bits_of sample)

-- The pairs of a row with `n` others, of which each column has so many ones, that differ in the column.
abbrev crossing : ℕ → List ℕ → List ℕ → ℕ
crossing n (b ∷ row) (c ∷ ones) = (if b == 0 then c else n - c) + crossing n row ones
crossing n _ _ = 0

-- The pairs of `n` rows that differ in a column, from the ones in it.
abbrev pub spread : ℕ → List ℕ → ℕ
spread n [] = 0
spread n (c ∷ ones) = c * (n - c) + spread n ones

abbrev AtMost : ℕ → List ℕ → Type 0
AtMost n = All (λ c. c ≤ n)

AtMost-add_row :
    (n : ℕ) (row ones : List ℕ) → IsBits row → AtMost n ones → AtMost (suc n) (add_row row ones)
AtMost-add_row n [] ones h g = tt
AtMost-add_row n (b ∷ row) [] h g = tt
AtMost-add_row n (b ∷ row) (c ∷ ones) (p, h) (q, g) =
    (omega (arith, p, q), AtMost-add_row n row ones h g)

crossing-add_row :
    (n : ℕ) (row other ones : List ℕ)
    → IsBits row
    → IsBits other
    → AtMost n ones
    → length row ≡ length ones
    → length other ≡ length ones
    → crossing (suc n) row (add_row other ones) ≡ row_distance row other + crossing n row ones
crossing-add_row n [] [] [] h g k s t = refl
crossing-add_row n [] other (c ∷ ones) h g k s t = absurd (omega (arith, s))
crossing-add_row n row [] (c ∷ ones) h g k s t = absurd (omega (arith, t))
crossing-add_row n (b ∷ row) other [] h g k s t = absurd (omega (arith, s))
crossing-add_row n [] (d ∷ other) [] h g k s t = absurd (omega (arith, t))
crossing-add_row n (b ∷ row) (d ∷ other) (c ∷ ones) (p, h) (q, g) (m, k) s t =
    ground (
      arith,
      p,
      q,
      m,
      crossing-add_row n row other ones h g k (omega (arith, s)) (omega (arith, t)),
    )

one_more : (c d : ℕ) → (c + 1) * d ≡ d + c * d
one_more c d = grind arith

spread_one :
    (n b c : ℕ)
    → b ≤ 1
    → c ≤ n
    → (b + c) * (suc n - (b + c)) ≡ (if b == 0 then c else n - c) + c * (n - c)
spread_one n zero c p m =
    let left : suc n - (0 + c) ≡ (n - c) + 1 = omega (arith, m) in rw left (grind arith)
spread_one n (suc zero) c p m =
    let left : suc n - (1 + c) ≡ n - c = omega (arith, m) in
    rw left (grind (arith, one_more c (n - c)))
spread_one n (suc (suc b)) c p m = absurd (omega (arith, p))

spread-add_row :
    (n : ℕ) (row ones : List ℕ)
    → IsBits row
    → AtMost n ones
    → length row ≡ length ones
    → spread (suc n) (add_row row ones) ≡ crossing n row ones + spread n ones
spread-add_row n [] [] h k s = refl
spread-add_row n [] (c ∷ ones) h k s = absurd (omega (arith, s))
spread-add_row n (b ∷ row) [] h k s = absurd (omega (arith, s))
spread-add_row n (b ∷ row) (c ∷ ones) (p, h) (m, k) s =
    omega (arith, spread_one n b c p m, spread-add_row n row ones h k (omega (arith, s)))

length-add_row :
    (row ones : List ℕ) → length row ≡ length ones → length (add_row row ones) ≡ length ones
length-add_row [] [] h = refl
length-add_row [] (c ∷ ones) h = absurd (omega (arith, h))
length-add_row (b ∷ row) [] h = refl
length-add_row (b ∷ row) (c ∷ ones) h = ap suc (length-add_row row ones (omega (arith, h)))

-- Samples of one size.
abbrev AllSized : ℕ → List Bytes → Type 0
AllSized size = All (λ sample. length sample ≡ size)

columns : ℕ → List Bytes → List ℕ
columns size samples = ones_of (size * 8) (map bits_of samples)

row_fits :
    (size : ℕ) (sample : Bytes) (ones : List ℕ)
    → length sample ≡ size
    → length ones ≡ size * 8
    → length (bits_of sample) ≡ length ones
row_fits size sample ones sized long = omega (arith, length-bits_of sample, sized, long)

length-columns :
    (size : ℕ) (samples : List Bytes)
    → AllSized size samples
    → length (columns size samples) ≡ size * 8
unfolding columns
length-columns size [] h = length-replicate (size * 8) 0
length-columns size (sample ∷ samples) (sized, h) =
    let rest = length-columns size samples h in
    length-add_row (bits_of sample) (columns size samples)
      (row_fits size sample (columns size samples) sized rest)
    ∙ rest

AtMost-columns :
    (size : ℕ) (samples : List Bytes)
    → AllSized size samples
    → AtMost (length samples) (columns size samples)
unfolding columns
AtMost-columns size [] h = AtMost-zeros (size * 8)
  where
    AtMost-zeros : (n : ℕ) → AtMost 0 (replicate n 0)
    AtMost-zeros zero = tt
    AtMost-zeros (suc n) = (omega arith, AtMost-zeros n)
AtMost-columns size (sample ∷ samples) (sized, h) =
    AtMost-add_row (length samples) (bits_of sample) (columns size samples) (bits_of-IsBits sample)
      (AtMost-columns size samples h)

sum-distances_to :
    (size : ℕ) (sample : Bytes) (samples : List Bytes)
    → length sample ≡ size
    → AllSized size samples
    → sum (distances_to sample samples)
      ≡ crossing (length samples) (bits_of sample) (columns size samples)
unfolding columns
sum-distances_to size sample [] sized h = sym (crossing-zeros (bits_of sample) (size * 8))
  where
    crossing-zeros : (row : List ℕ) (n : ℕ) → crossing 0 row (replicate n 0) ≡ 0
    crossing-zeros [] n = refl
    crossing-zeros (b ∷ row) zero = refl
    crossing-zeros (b ∷ row) (suc n) = ground (arith, crossing-zeros row n)
sum-distances_to size sample (other ∷ samples) sized (sized₁, h) =
    let ones = columns size samples in
    let long = length-columns size samples h in
    omega (
      arith,
      hamming-row_distance sample other,
      sum-distances_to size sample samples sized h,
      crossing-add_row (length samples) (bits_of sample) (bits_of other) ones
          (bits_of-IsBits sample) (bits_of-IsBits other) (AtMost-columns size samples h)
          (row_fits size sample ones sized long) (row_fits size other ones sized₁ long),
    )

sum-append : (xs ys : List ℕ) → sum (xs ++ ys) ≡ sum xs + sum ys
sum-append [] ys = omega arith
sum-append (x ∷ xs) ys = omega (arith, sum-append xs ys)

sum-pairwise_distances :
    (size : ℕ) (samples : List Bytes)
    → AllSized size samples
    → sum (pairwise_distances samples) ≡ spread (length samples) (columns size samples)
unfolding pairwise_distances columns
sum-pairwise_distances size [] h = sym (spread-zeros (size * 8))
  where
    spread-zeros : (n : ℕ) → spread 0 (replicate n 0) ≡ 0
    spread-zeros zero = refl
    spread-zeros (suc n) = omega (arith, spread-zeros n)
sum-pairwise_distances size (sample ∷ samples) (sized, h) =
    let ones = columns size samples in
    omega (
      arith,
      sum-append (distances_to sample samples) (pairwise_distances samples),
      sum-distances_to size sample samples sized h,
      sum-pairwise_distances size samples h,
      spread-add_row (length samples) (bits_of sample) ones (bits_of-IsBits sample)
          (AtMost-columns size samples h)
          (row_fits size sample ones sized (length-columns size samples h)),
    )

AllSized-same_sizes :
    (size : ℕ) (samples : List Bytes) → same_sizes size samples ≡ true → AllSized size samples
AllSized-same_sizes size [] h = tt
AllSized-same_sizes size (sample ∷ samples) h =
    let rest : same_sizes size samples ≡ true = ground arith in
    (ground arith, AllSized-same_sizes size samples rest)

-- The distances of a summary and its columns describe the same samples.
pub record IsConsistent (samples : List Bytes) (r : PufSummary) : Type 0 where
  pub number : r.samples ≡ length samples
  pub columns_of : length r.ones ≡ r.bits_per_sample
  pub total_distance : sum r.distances ≡ spread r.samples r.ones

-- Where the samples are summarised, the distances of all pairs of samples add up to the sum, over the
-- columns of bits, of the number of ones times the number of zeros in the column.
pub summarize-IsConsistent :
    (samples : List Bytes) (r : PufSummary) → summarize samples ≡ ok r → IsConsistent samples r
unfolding summarize columns
summarize-IsConsistent [] r h = cc
summarize-IsConsistent (sample ∷ samples) r h =
    elim (Bool-cases (same_sizes (length sample) samples)) [
      | inr other ↦ absurd (let e = rw other at h in cc)
      | inl same ↦
          let all = AllSized-same_sizes (length sample) samples same in
          let some_bits : (length sample == 0) ≡ false = elim (Bool-cases (length sample == 0)) [
            | inl none ↦ absurd (let e = rw (same, none) at h in cc)
            | inr bits ↦ bits
          ] in
          let whole : summary_of (length sample) (sample ∷ samples) ≡ r =
            ok-injective (rw (same, some_bits) at h) in
          subst (IsConsistent (sample ∷ samples)) whole (record {
            number = refl;
            columns_of = length-columns (length sample) (sample ∷ samples) (refl, all);
            total_distance = sum-pairwise_distances (length sample) (sample ∷ samples) (refl, all);
          })
    ]
