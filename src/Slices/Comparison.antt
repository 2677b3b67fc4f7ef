-- ===== src/Slices/Comparison.antt =====
-- analyze_reboot_slices.py: two files compared byte by byte, read in blocks of the same size. The loop
-- in Python is modelled; numpy adds up the same numbers where it is installed.
pub mod Whole
use Prim.Native.Nat.{min}
use wireless_boot_entropy_ze.Base.{
  ℕ, zero, suc, ◌+◌, ◌*◌, ◌/◌, ◌%◌, List, [], ◌∷◌, ◌==◌, if◌then◌else◌, length, take, drop,
}
use wireless_boot_entropy_ze.Python.Struct.{Bytes}
use wireless_boot_entropy_ze.Slices.Statistics.{bit_count}

pub record Comparison : Type 0 where
  pub compared_bytes : ℕ
  pub equal_bytes : ℕ
  pub differing_bits : ℕ

-- `a ^ b` of `w` bits
abbrev pub xor : ℕ → ℕ → ℕ → ℕ
xor zero a b = 0
xor (suc w) a b = (if a % 2 == b % 2 then 0 else 1) + 2 * xor w (a / 2) (b / 2)

-- `zip` ends with the shorter list.
abbrev pub compare_bytes : Bytes → Bytes → Comparison → Comparison
compare_bytes (a_byte ∷ a_data) (b_byte ∷ b_data) r = compare_bytes a_data b_data (record r {
  equal_bytes = r.equal_bytes + (if a_byte == b_byte then 1 else 0);
  differing_bits = r.differing_bits + bit_count (xor 8 a_byte b_byte);
})
compare_bytes _ _ r = r

-- The first of two blocks, cut to the length of the other.
abbrev pub kept : Bytes → Bytes → Bytes
kept block other =
    if length block == length other then block else take (min (length block) (length other)) block

abbrev pub compare_block : Bytes → Bytes → Comparison → Comparison
compare_block a_data b_data r =
    compare_bytes (kept a_data b_data) (kept b_data a_data)
      (record r { compared_bytes = r.compared_bytes + length (kept a_data b_data) })

-- One round of the loop: what follows it is not done where one of the blocks is empty.
abbrev pub unless_empty : Bytes → Bytes → Comparison → Comparison → Comparison
unless_empty (a ∷ a_data) (b ∷ b_data) rest r = rest
unless_empty _ _ rest r = r

-- The blocks are cut to one length, so that the test at the end of the round never ends the loop.
unfoldable pub compare_from : ℕ → ℕ → Bytes → Bytes → Comparison → Comparison
compare_from zero size a b r = r
compare_from (suc fuel) size a b r =
    let rest =
      compare_from fuel size (drop size a) (drop size b)
        (compare_block (take size a) (take size b) r) in
    unless_empty (take size a) (take size b) rest r

-- The files, and the size of the blocks: 1024 * 1024 where the caller gives none. There are at most as
-- many rounds as the first file has bytes.
unfoldable pub compare_aligned_files : ℕ → Bytes → Bytes → Comparison
unfolding compare_from
compare_aligned_files size a b =
    compare_from (length a) size a b
      (record { compared_bytes = 0; equal_bytes = 0; differing_bits = 0 })
