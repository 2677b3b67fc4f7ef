-- ===== src/Slices/Statistics.antt =====
-- analyze_reboot_slices.py: the running statistics of a file, and what is computed from its counts in
-- integers. The sums of pairs are `float` in the source, which holds them exactly below 2^53. numpy
-- adds up the same numbers where it is installed; the code for Python alone is modelled.
pub mod Whole
use wireless_boot_entropy_ze.Base.{
  ℕ, zero, suc, ◌+◌, ◌*◌, ◌/◌, ◌%◌, Option, none, some, List, [], ◌∷◌, leb, ◌==◌, if◌then◌else◌,
  length, replicate,
}
use wireless_boot_entropy_ze.Python.Result.{Result, ok, err, value_error}
use wireless_boot_entropy_ze.Python.Struct.{Bytes}
use wireless_boot_entropy_ze.Slices.Blocks.{read_blocks}

-- The entries of the state that `add_pair` changes.
pub record Pairs : Type 0 where
  pub pair_n : ℕ
  pub pair_sum_x : ℕ
  pub pair_sum_y : ℕ
  pub pair_sum_x2 : ℕ
  pub pair_sum_y2 : ℕ
  pub pair_sum_xy : ℕ

pub record Statistics : Type 0 where
  pub counts : List ℕ
  pub n : ℕ
  pub prev : Option ℕ
  pub pairs : Pairs

abbrev pub empty_state : Statistics
empty_state = record {
  counts = replicate 256 0;
  n = 0;
  prev = none;
  pairs = record {
    pair_n = 0;
    pair_sum_x = 0;
    pair_sum_y = 0;
    pair_sum_x2 = 0;
    pair_sum_y2 = 0;
    pair_sum_xy = 0;
  };
}

abbrev pub add_pair : Pairs → ℕ → ℕ → Pairs
add_pair p x y = record {
  pair_n = p.pair_n + 1;
  pair_sum_x = p.pair_sum_x + x;
  pair_sum_y = p.pair_sum_y + y;
  pair_sum_x2 = p.pair_sum_x2 + x * x;
  pair_sum_y2 = p.pair_sum_y2 + y * y;
  pair_sum_xy = p.pair_sum_xy + x * y;
}

-- `counts[value] += 1`: a byte is below the 256 counts.
abbrev pub count_one : ℕ → List ℕ → List ℕ
count_one v [] = []
count_one zero (k ∷ counts) = (k + 1) ∷ counts
count_one (suc v) (k ∷ counts) = k ∷ count_one v counts

abbrev pub count_all : Bytes → List ℕ → List ℕ
count_all [] counts = counts
count_all (v ∷ values) counts = count_all values (count_one v counts)

-- `if prev is not None: add_pair(state, int(prev), seq[0])`
abbrev pub pair_with : Option ℕ → ℕ → Pairs → Pairs
pair_with none y p = p
pair_with (some x) y p = add_pair p x y

-- `for x, y in zip(seq[:-1], seq[1:])`, of a sequence with a first byte
abbrev pub add_pairs : ℕ → Bytes → Pairs → Pairs
add_pairs x [] p = p
add_pairs x (y ∷ values) p = add_pairs y values (add_pair p x y)

-- `seq[-1]`
abbrev pub last_of : ℕ → Bytes → ℕ
last_of x [] = x
last_of x (y ∷ values) = last_of y values

unfoldable pub update_stats_from_bytes : Bytes → Statistics → Statistics
update_stats_from_bytes [] s = s
update_stats_from_bytes (c ∷ more) s = record {
  counts = count_all (c ∷ more) s.counts;
  n = s.n + length (c ∷ more);
  prev = some (last_of c more);
  pairs = add_pairs c more (pair_with s.prev c s.pairs);
}

unfoldable pub update_all : List Bytes → Statistics → Statistics
unfolding update_stats_from_bytes
update_all [] s = s
update_all (chunk ∷ chunks) s = update_all chunks (update_stats_from_bytes chunk s)

-- The loop of `metrics_for_file`; the block is of 1024 * 1024 bytes there.
unfoldable pub state_of_file : ℕ → Bytes → Statistics
unfolding update_all read_blocks
state_of_file block bs = update_all (read_blocks block bs) empty_state

-- `bin(i).count("1")` of a byte
abbrev pub bits : ℕ → ℕ → ℕ
bits zero i = 0
bits (suc w) i = i % 2 + bits w (i / 2)

abbrev pub bit_count : ℕ → ℕ
bit_count = bits 8

-- `sum(weight(i) * count for i, count in enumerate(counts))`
abbrev pub weighted : (ℕ → ℕ) → ℕ → List ℕ → ℕ
weighted weight i [] = 0
weighted weight i (count ∷ counts) = weight i * count + weighted weight (suc i) counts

-- `max(counts)`
abbrev pub max_of : ℕ → List ℕ → ℕ
max_of m [] = m
max_of m (k ∷ counts) = max_of (if leb k m then m else k) counts

-- What is computed in integers; the quotients by `n` are left out.
pub record Metrics : Type 0 where
  pub bytes : ℕ
  pub byte_sum : ℕ
  pub ones : ℕ
  pub most_common_byte_count : ℕ

unfoldable pub metrics_from_counts : Statistics → Result Metrics
metrics_from_counts s =
    if s.n == 0
    then err value_error
    else ok (record {
      bytes = s.n;
      byte_sum = weighted (λ i. i) 0 s.counts;
      ones = weighted bit_count 0 s.counts;
      most_common_byte_count = max_of 0 s.counts;
    })

unfoldable pub metrics_for_file : ℕ → Bytes → Result Metrics
unfolding state_of_file metrics_from_counts
metrics_for_file block bs = metrics_from_counts (state_of_file block bs)
