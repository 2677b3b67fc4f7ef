-- ===== src/Slices/Blocks.antt =====
-- A file that is read block by block, until a read gives no byte.
use wireless_boot_entropy_ze.Base.{
  ℕ, zero, suc, ◌<◌, ◌≤◌, ◌≡◌, refl, ap, ◌∙◌, List, [], ◌∷◌, ◌++◌, arith, length, take, drop,
  joined, take-append-drop, length-drop,
}
use wireless_boot_entropy_ze.Python.Struct.{Bytes}

abbrev pub keep_block : Bytes → List Bytes → List Bytes
keep_block [] rest = []
keep_block (c ∷ block) rest = (c ∷ block) ∷ rest

unfoldable pub blocks_from : ℕ → ℕ → Bytes → List Bytes
blocks_from zero size bs = []
blocks_from (suc fuel) size bs = keep_block (take size bs) (blocks_from fuel size (drop size bs))

-- `iter(lambda: fh.read(size), b"")`, for a size that is not negative: a file of `n` bytes has at most
-- `n` blocks.
unfoldable pub read_blocks : ℕ → Bytes → List Bytes
unfolding blocks_from
read_blocks size bs = blocks_from (length bs) size bs

joined-blocks_from :
    (fuel size : ℕ) (bs : Bytes)
    → 0 < size
    → length bs ≤ fuel
    → joined (blocks_from fuel size bs) ≡ bs
unfolding blocks_from
joined-blocks_from zero size [] some_size enough = refl
joined-blocks_from zero size (c ∷ bs) some_size enough = absurd (omega (arith, enough))
joined-blocks_from (suc fuel) zero bs some_size enough = absurd (omega (arith, some_size))
joined-blocks_from (suc fuel) (suc size) [] some_size enough = refl
joined-blocks_from (suc fuel) (suc size) (c ∷ bs) some_size enough =
    ap (λ rest. c ∷ (take size bs ++ rest))
      (joined-blocks_from fuel (suc size) (drop size bs) some_size
        (omega (arith, enough, length-drop size bs)))
    ∙ ap (◌∷◌ c) (take-append-drop size bs)

pub joined-read_blocks : (size : ℕ) (bs : Bytes) → 0 < size → joined (read_blocks size bs) ≡ bs
unfolding read_blocks
joined-read_blocks size bs some_size =
    joined-blocks_from (length bs) size bs some_size (omega arith)
