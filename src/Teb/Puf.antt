-- ===== src/Teb/Puf.antt =====
-- analyze_puf_captures.py: the distances of samples, and the counts of the summary. Its ratios and
-- entropies are floating point and left out.
pub mod Spread
use wireless_boot_entropy_ze.Base.{
  ℕ, zero, suc, ◌+◌, ◌*◌, ◌/◌, ◌%◌, Bool, true, false, ◌||◌, ◌&&◌, List, [], ◌∷◌, ◌++◌, map, ◌==◌,
  if◌then◌else◌, length, replicate,
}
use wireless_boot_entropy_ze.Python.Result.{Result, ok, err, system_exit, zero_division_error}
use wireless_boot_entropy_ze.Python.Struct.{Bytes}
use wireless_boot_entropy_ze.Slices.Statistics.{bit_count}
use wireless_boot_entropy_ze.Slices.Comparison.{xor}

-- `b >> k`
abbrev pub shifted : ℕ → ℕ → ℕ
shifted zero b = b
shifted (suc k) b = shifted k (b / 2)

-- `(b >> (7 - i)) & 1` for the `w` lowest digits, the highest of them first
abbrev pub bits_below : ℕ → ℕ → List ℕ
bits_below zero b = []
bits_below (suc w) b = shifted w b % 2 ∷ bits_below w b

unfoldable pub bits_of : Bytes → List ℕ
bits_of [] = []
bits_of (b ∷ sample) = bits_below 8 b ++ bits_of sample

unfoldable pub hamming : Bytes → Bytes → ℕ
hamming (x ∷ a) (y ∷ b) = bit_count (xor 8 x y) + hamming a b
hamming _ _ = 0

abbrev pub distances_to : Bytes → List Bytes → List ℕ
distances_to sample [] = []
distances_to sample (other ∷ more) = hamming sample other ∷ distances_to sample more

unfoldable pub pairwise_distances : List Bytes → List ℕ
unfolding hamming
pairwise_distances [] = []
pairwise_distances (sample ∷ samples) = distances_to sample samples ++ pairwise_distances samples

abbrev pub sum : List ℕ → ℕ
sum [] = 0
sum (n ∷ ns) = n + sum ns

-- `len({len(s) for s in samples}) == 1`, of samples that start with one
abbrev pub same_sizes : ℕ → List Bytes → Bool
same_sizes size [] = true
same_sizes size (sample ∷ samples) = length sample == size && same_sizes size samples

-- `sum(row[i] for row in bit_samples)` for each column `i`
abbrev pub add_row : List ℕ → List ℕ → List ℕ
add_row (b ∷ row) (c ∷ ones) = (b + c) ∷ add_row row ones
add_row _ _ = []

abbrev pub ones_of : ℕ → List (List ℕ) → List ℕ
ones_of bit_len [] = replicate bit_len 0
ones_of bit_len (row ∷ rows) = add_row row (ones_of bit_len rows)

-- A column with a probability of 0 or 1.
abbrev pub stable : ℕ → List ℕ → ℕ
stable n [] = 0
stable n (c ∷ ones) = (if c == 0 || c == n then 1 else 0) + stable n ones

pub record PufSummary : Type 0 where
  pub samples : ℕ
  pub bytes_per_sample : ℕ
  pub bits_per_sample : ℕ
  pub ones : List ℕ
  pub stable_bits : ℕ
  pub distances : List ℕ

abbrev pub summary_of : ℕ → List Bytes → PufSummary
summary_of size samples =
    let ones = ones_of (size * 8) (map bits_of samples) in
    record {
      samples = length samples;
      bytes_per_sample = size;
      bits_per_sample = size * 8;
      ones = ones;
      stable_bits = stable (length samples) ones;
      distances = pairwise_distances samples;
    }

unfoldable pub summarize : List Bytes → Result PufSummary
unfolding bits_of pairwise_distances
summarize [] = err system_exit
summarize (sample ∷ samples) =
    if same_sizes (length sample) samples
    then (if length sample == 0
        then err zero_division_error
        else ok (summary_of (length sample) (sample ∷ samples)))
    else err system_exit
