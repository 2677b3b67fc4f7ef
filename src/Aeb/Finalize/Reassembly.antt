-- ===== src/Aeb/Finalize/Reassembly.antt =====
-- Chunks that arrive in any order, some of them more than once, join to the bytes that were cut.
use wireless_boot_entropy_ze.Base.{
  joined, ℕ, zero, suc, ◌+◌, ◌<◌, ◌≡◌, refl, sym, ap, ◌∙◌, ◌⊎◌, inl, inr, Option, none, some, List,
  [], ◌∷◌, arith, ◌==◌, ==_iff, length, nat_eq, All, Bool-cases,
}
use wireless_boot_entropy_ze.Python.Struct.{Bytes}
use wireless_boot_entropy_ze.Python.Dict.{Dict, lookup, contains, insert, get_or, lookup-insert}
use wireless_boot_entropy_ze.Aeb.Finalize.{missing_from, join_chunks, range_from}

abbrev pub chunk_at : List Bytes → ℕ → Option Bytes
chunk_at [] i = none
chunk_at (c ∷ cs) zero = some c
chunk_at (c ∷ cs) (suc i) = chunk_at cs i

-- The dictionary holds the chunks at the indices from `start`.
abbrev pub HoldsFrom : Dict ℕ Bytes → ℕ → List Bytes → Type 0
HoldsFrom d start [] = Unit
HoldsFrom d start (c ∷ cs) = (lookup start d ≡ some c) × HoldsFrom d (start + 1) cs

pub missing_from-HoldsFrom :
    (cs : List Bytes) (d : Dict ℕ Bytes) (start : ℕ)
    → HoldsFrom d start cs
    → missing_from (length cs) start d ≡ []
unfolding missing_from contains
missing_from-HoldsFrom [] d start h = refl
missing_from-HoldsFrom (c ∷ cs) d start (e, h) =
    rw (contains, e) (missing_from-HoldsFrom cs d (start + 1) h)

pub join_chunks-HoldsFrom :
    (cs : List Bytes) (d : Dict ℕ Bytes) (start : ℕ)
    → HoldsFrom d start cs
    → join_chunks (range_from (length cs) start) d ≡ joined cs
unfolding join_chunks range_from get_or
join_chunks-HoldsFrom [] d start h = refl
join_chunks-HoldsFrom (c ∷ cs) d start (e, h) =
    rw (get_or, e, join_chunks-HoldsFrom cs d (start + 1) h)

HoldsFrom-chunk_at :
    (cs : List Bytes) (d : Dict ℕ Bytes) (start : ℕ)
    → ((i : ℕ) → i < length cs → lookup (start + i) d ≡ chunk_at cs i)
    → HoldsFrom d start cs
HoldsFrom-chunk_at [] d start h = tt
HoldsFrom-chunk_at (c ∷ cs) d start h =
    let here : start ≡ start + 0 = omega arith in
    (
      ap (λ k. lookup k d) here ∙ h 0 (omega arith),
      HoldsFrom-chunk_at cs d (start + 1) λ i lt.
          let next : start + 1 + i ≡ start + suc i = omega arith in
          ap (λ k. lookup k d) next ∙ h (suc i) (omega arith),
    )

-- The deliveries, in the order of their arrival.
abbrev pub Delivery : Type 0
Delivery = ℕ × Bytes

-- `state.raw_chunks[index] = payload` for each.
unfoldable pub receive : List Delivery → Dict ℕ Bytes → Dict ℕ Bytes
receive [] d = d
receive ((i, payload) ∷ ds) d = receive ds (insert i payload d)

abbrev pub Delivers : ℕ → List Delivery → Type 0
Delivers i [] = ⊥
Delivers i ((j, _) ∷ ds) = (j ≡ i) ⊎ Delivers i ds

-- Every index below `n` is delivered.
abbrev pub DeliversBelow : ℕ → List Delivery → Type 0
DeliversBelow zero ds = Unit
DeliversBelow (suc n) ds = Delivers n ds × DeliversBelow n ds

-- Every delivery is one of the chunks, under its index.
abbrev pub AreOf : List Bytes → List Delivery → Type 0
AreOf cs = All (λ d. chunk_at cs d.0 ≡ some d.1)

module _ (cs : List Bytes) where
  abbrev Agrees : ℕ → Dict ℕ Bytes → Type 0
  Agrees i d = lookup i d ≡ chunk_at cs i

  insert-Agrees_self :
      (i j : ℕ) (payload : Bytes) (d : Dict ℕ Bytes)
      → chunk_at cs j ≡ some payload
      → j ≡ i
      → Agrees i (insert j payload d)
  insert-Agrees_self i j payload d e same =
      rw (lookup-insert j i payload d, (==_iff j i).1 same, ← same) (sym e)

  insert-Agrees :
      (i j : ℕ) (payload : Bytes) (d : Dict ℕ Bytes)
      → chunk_at cs j ≡ some payload
      → Agrees i d
      → Agrees i (insert j payload d)
  insert-Agrees i j payload d e held = elim (Bool-cases (j == i)) [
    | inl same ↦ insert-Agrees_self i j payload d e ((==_iff j i).0 same)
    | inr other ↦ rw (lookup-insert j i payload d, other) held
  ]

  receive-Agrees :
      (i : ℕ) (ds : List Delivery) (d : Dict ℕ Bytes)
      → AreOf cs ds
      → Agrees i d ⊎ Delivers i ds
      → Agrees i (receive ds d)
  unfolding receive
  receive-Agrees i [] d h (inl held) = held
  receive-Agrees i [] d h (inr none_left) = absurd none_left
  receive-Agrees i ((j, p) ∷ ds) d (e, h) (inl held) =
      receive-Agrees i ds (insert j p d) h (inl (insert-Agrees i j p d e held))
  receive-Agrees i ((j, p) ∷ ds) d (e, h) (inr (inl same)) =
      receive-Agrees i ds (insert j p d) h (inl (insert-Agrees_self i j p d e same))
  receive-Agrees i ((j, p) ∷ ds) d (e, h) (inr (inr later)) =
      receive-Agrees i ds (insert j p d) h (inr later)

Delivers-of_below : (n i : ℕ) (ds : List Delivery) → i < n → DeliversBelow n ds → Delivers i ds
Delivers-of_below zero i ds lt h = absurd (omega arith)
Delivers-of_below (suc n) i ds lt (here, h) = elim (Bool-cases (n == i)) [
  | inl e ↦ rw (← (==_iff n i).0 e) here
  | inr ne ↦ Delivers-of_below n i ds (ground arith) h
]

-- Chunks that are delivered under their numbers, in any order and any number of times, each at
-- least once, leave each chunk under its number, whatever was there before.
pub receive-HoldsFrom :
    (cs : List Bytes) (ds : List Delivery) (d : Dict ℕ Bytes)
    → AreOf cs ds
    → DeliversBelow (length cs) ds
    → HoldsFrom (receive ds d) 0 cs
receive-HoldsFrom cs ds d h all = HoldsFrom-chunk_at cs (receive ds d) 0 λ i lt.
    let start : 0 + i ≡ i = omega arith in
    ap (λ k. lookup k (receive ds d)) start
    ∙ receive-Agrees cs i ds d h (inr (Delivers-of_below (length cs) i ds lt all))
