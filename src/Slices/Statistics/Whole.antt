-- ===== src/Slices/Statistics/Whole.antt =====
-- The statistics of a file: they do not depend on the blocks it is read in, and are the counts of it.
use wireless_boot_entropy_ze.Base.{
  ℕ, zero, suc, ◌+◌, ◌≤◌, ◌<◌, ◌≡◌, refl, ap, ◌∙◌, false, some, List, [], ◌∷◌, ◌++◌, arith, leb,
  ◌==◌, if◌then◌else◌, length, joined, replicate, length-append, append-nil,
}
use wireless_boot_entropy_ze.Python.Result.{Result, ok, err}
use wireless_boot_entropy_ze.Python.Struct.{Bytes, AreBytes}
use wireless_boot_entropy_ze.Slices.Blocks.{read_blocks, joined-read_blocks}
use wireless_boot_entropy_ze.Slices.Statistics.{
  Pairs, Statistics, empty_state, add_pair, count_one, count_all, pair_with, add_pairs, last_of,
  update_stats_from_bytes, update_all, state_of_file, bit_count, weighted, max_of, Metrics,
  metrics_from_counts, metrics_for_file,
}

count_all-append :
    (xs ys : Bytes) (counts : List ℕ)
    → count_all (xs ++ ys) counts ≡ count_all ys (count_all xs counts)
count_all-append [] ys counts = refl
count_all-append (x ∷ xs) ys counts = count_all-append xs ys (count_one x counts)

last_of-append : (x y : ℕ) (xs ys : Bytes) → last_of x (xs ++ y ∷ ys) ≡ last_of y ys
last_of-append x y [] ys = refl
last_of-append x y (z ∷ xs) ys = last_of-append z y xs ys

add_pairs-append :
    (x y : ℕ) (xs ys : Bytes) (p : Pairs)
    → add_pairs x (xs ++ y ∷ ys) p ≡ add_pairs y ys (add_pair (add_pairs x xs p) (last_of x xs) y)
add_pairs-append x y [] ys p = refl
add_pairs-append x y (z ∷ xs) ys p = add_pairs-append z y xs ys (add_pair p x z)

update-append :
    (xs ys : Bytes) (s : Statistics)
    → update_stats_from_bytes ys (update_stats_from_bytes xs s)
      ≡ update_stats_from_bytes (xs ++ ys) s
unfolding update_stats_from_bytes
update-append [] ys s = refl
update-append (x ∷ xs) [] s = rw (append-nil xs) refl
update-append (x ∷ xs) (y ∷ ys) s =
    rw
      (
        count_all-append xs (y ∷ ys) (count_one x s.counts),
        last_of-append x y xs ys,
        add_pairs-append x y xs ys (pair_with s.prev x s.pairs),
        length-append xs (y ∷ ys),
      )
      (ap
        (λ n. record {
          counts = count_all ys (count_one y (count_all xs (count_one x s.counts)));
          n = n;
          prev = some (last_of y ys);
          pairs =
              add_pairs y ys
                (add_pair (add_pairs x xs (pair_with s.prev x s.pairs)) (last_of x xs) y);
        })
        (omega arith))

update_all-joined :
    (chunks : List Bytes) (s : Statistics)
    → update_all chunks s ≡ update_stats_from_bytes (joined chunks) s
unfolding update_all update_stats_from_bytes
update_all-joined [] s = refl
update_all-joined (chunk ∷ chunks) s =
    update_all-joined chunks (update_stats_from_bytes chunk s)
    ∙ update-append chunk (joined chunks) s

-- The state that a file is read into block by block is the state of one update with all its bytes,
-- for every block size that is not zero.
pub state_of_file-update :
    (block : ℕ) (bs : Bytes)
    → 0 < block
    → state_of_file block bs ≡ update_stats_from_bytes bs empty_state
unfolding state_of_file
state_of_file-update block bs some_block =
    update_all-joined (read_blocks block bs) empty_state
    ∙ ap (λ b. update_stats_from_bytes b empty_state) (joined-read_blocks block bs some_block)

abbrev pub total : (ℕ → ℕ) → Bytes → ℕ
total weight [] = 0
total weight (v ∷ values) = weight v + total weight values

abbrev pub occurrences : ℕ → Bytes → ℕ
occurrences v [] = 0
occurrences v (x ∷ values) = (if x == v then 1 else 0) + occurrences v values

abbrev pub count_at : ℕ → List ℕ → ℕ
count_at v [] = 0
count_at zero (k ∷ counts) = k
count_at (suc v) (k ∷ counts) = count_at v counts

length-count_one : (v : ℕ) (counts : List ℕ) → length (count_one v counts) ≡ length counts
length-count_one v [] = refl
length-count_one zero (k ∷ counts) = refl
length-count_one (suc v) (k ∷ counts) = omega (arith, length-count_one v counts)

weighted-count_one :
    (weight : ℕ → ℕ) (i v : ℕ) (counts : List ℕ)
    → v < length counts
    → weighted weight i (count_one v counts) ≡ weight (i + v) + weighted weight i counts
weighted-count_one weight i v [] h = absurd (omega (arith, h))
weighted-count_one weight i zero (k ∷ counts) h =
    let here : weight (i + zero) ≡ weight i = ap weight (omega arith) in grind (arith, here)
weighted-count_one weight i (suc v) (k ∷ counts) h =
    let there : weight (i + suc v) ≡ weight (suc i + v) = ap weight (omega arith) in
    omega (arith, weighted-count_one weight (suc i) v counts (omega (arith, h)), there)

count_at-count_one :
    (j v : ℕ) (counts : List ℕ)
    → v < length counts
    → count_at j (count_one v counts) ≡ (if v == j then 1 else 0) + count_at j counts
count_at-count_one j v [] h = absurd (omega (arith, h))
count_at-count_one zero zero (k ∷ counts) h = ground arith
count_at-count_one (suc j) zero (k ∷ counts) h = ground arith
count_at-count_one zero (suc v) (k ∷ counts) h = ground arith
count_at-count_one (suc j) (suc v) (k ∷ counts) h =
    ground (arith, count_at-count_one j v counts (omega (arith, h)))

count_at-count_all :
    (j : ℕ) (bs : Bytes) (counts : List ℕ)
    → AreBytes bs
    → length counts ≡ 256
    → count_at j (count_all bs counts) ≡ occurrences j bs + count_at j counts
count_at-count_all j [] counts h size = omega arith
count_at-count_all j (v ∷ bs) counts (below, h) size =
    let size₁ : length (count_one v counts) ≡ 256 = length-count_one v counts ∙ size in
    omega (
      arith,
      count_at-count_all j bs (count_one v counts) h size₁,
      count_at-count_one j v counts (omega (arith, size, below)),
    )

weighted-count_all :
    (weight : ℕ → ℕ) (bs : Bytes) (counts : List ℕ)
    → AreBytes bs
    → length counts ≡ 256
    → weighted weight 0 (count_all bs counts) ≡ total weight bs + weighted weight 0 counts
weighted-count_all weight [] counts h size = omega arith
weighted-count_all weight (v ∷ bs) counts (below, h) size =
    let size₁ : length (count_one v counts) ≡ 256 = length-count_one v counts ∙ size in
    let first : weighted weight 0 (count_one v counts) ≡ weight (0 + v) + weighted weight 0 counts =
      weighted-count_one weight 0 v counts (omega (arith, size, below)) in
    let same : weight (0 + v) ≡ weight v = ap weight (omega arith) in
    omega (arith, weighted-count_all weight bs (count_one v counts) h size₁, first, same)

weighted-zeros : (weight : ℕ → ℕ) (i m : ℕ) → weighted weight i (replicate m 0) ≡ 0
weighted-zeros weight i zero = refl
weighted-zeros weight i (suc m) = omega (arith, weighted-zeros weight (suc i) m)

count_at-zeros : (j m : ℕ) → count_at j (replicate m 0) ≡ 0
count_at-zeros j zero = refl
count_at-zeros zero (suc m) = refl
count_at-zeros (suc j) (suc m) = count_at-zeros j m

max_of-start : (m : ℕ) (counts : List ℕ) → m ≤ max_of m counts
max_of-start m [] = omega arith
max_of-start m (k ∷ counts) = ground (arith, max_of-start (if leb k m then m else k) counts)

max_of-bound : (m j : ℕ) (counts : List ℕ) → count_at j counts ≤ max_of m counts
max_of-bound m j [] = omega arith
max_of-bound m zero (k ∷ counts) = ground (arith, max_of-start (if leb k m then m else k) counts)
max_of-bound m (suc j) (k ∷ counts) = max_of-bound (if leb k m then m else k) j counts

-- The metrics agree with a direct reading of the file.
pub record Describes (bs : Bytes) (m : Metrics) : Type 0 where
  pub of_length : m.bytes ≡ length bs
  pub of_sum : m.byte_sum ≡ total (λ v. v) bs
  pub of_ones : m.ones ≡ total bit_count bs
  pub most_common : (v : ℕ) → occurrences v bs ≤ m.most_common_byte_count

abbrev pub MetricsOf : Bytes → Result Metrics → Type 0
MetricsOf bs (ok m) = Describes bs m
MetricsOf bs (err e) = bs ≡ []

MetricsOf-update :
    (bs : Bytes)
    → AreBytes bs
    → MetricsOf bs (metrics_from_counts (update_stats_from_bytes bs empty_state))
unfolding metrics_from_counts update_stats_from_bytes
MetricsOf-update [] h = refl
MetricsOf-update (c ∷ more) h =
    let some_bytes : (0 + length (c ∷ more) == 0) ≡ false = ground arith in
    rw (metrics_from_counts, some_bytes)
      (record {
        of_length = omega arith;
        of_sum = omega (
          arith,
          weighted-count_all (λ v. v) (c ∷ more) (replicate 256 0) h refl,
          weighted-zeros (λ v. v) 0 256,
        );
        of_ones = omega (
          arith,
          weighted-count_all bit_count (c ∷ more) (replicate 256 0) h refl,
          weighted-zeros bit_count 0 256,
        );
        most_common = λ v. omega (
          arith,
          max_of-bound 0 v (count_all (c ∷ more) (replicate 256 0)),
          count_at-count_all v (c ∷ more) (replicate 256 0) h refl,
          count_at-zeros v 256,
        );
      })

-- The metrics of a file of bytes, for every block size that is not zero: its length, the sum of its
-- bytes, the number of one bits in it, and a number that no byte occurs more often than. Only the
-- empty file raises.
pub metrics_for_file-MetricsOf :
    (block : ℕ) (bs : Bytes) → 0 < block → AreBytes bs → MetricsOf bs (metrics_for_file block bs)
unfolding metrics_for_file
metrics_for_file-MetricsOf block bs some_block h =
    rw (state_of_file-update block bs some_block) (MetricsOf-update bs h)
