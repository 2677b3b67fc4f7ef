-- ===== src/Python/Dict.antt =====
-- `dict`: an association list in insertion order. The operations keep every key once.
use wireless_boot_entropy_ze.Base.{
  ◌≡◌, refl, Bool, true, false, Option, none, some, List, [], ◌∷◌, arith, if◌then◌else◌, Eq,
  Bool-cases, inl, inr, some_inj,
}
use mathlib.Core.Path.{subst}

abbrev pub Dict {ℓ κ} : Type ℓ → Type κ → Type (ℓ ⊔ κ)
Dict K V = List (K × V)

module _ {ℓ κ} {K : Type ℓ} {V : Type κ} ⦃e : Eq K⦄ where
  -- `d.get(k)`
  unfoldable pub lookup : K → Dict K V → Option V
  lookup k [] = none
  lookup k ((j, v) ∷ d) = if e.beq j k then some v else lookup k d

  -- `k in d`
  unfoldable pub contains : K → Dict K V → Bool
  unfolding lookup
  contains k d = elim (lookup k d) [ none ↦ false | some _ ↦ true ]

  -- `d[k] = v`
  unfoldable pub insert : K → V → Dict K V → Dict K V
  insert k v [] = (k, v) ∷ []
  insert k v ((j, w) ∷ d) = if e.beq j k then (j, v) ∷ d else (j, w) ∷ insert k v d

  -- `d.pop(k, None)`
  unfoldable pub erase : K → Dict K V → Dict K V
  erase k [] = []
  erase k ((j, w) ∷ d) = let rest = erase k d in if e.beq j k then rest else (j, w) ∷ rest

  -- `d.get(k, default)`
  unfoldable pub get_or : K → V → Dict K V → V
  unfolding lookup
  get_or k default d = elim (lookup k d) [ none ↦ default | some v ↦ v ]

  -- `d.setdefault(k, v)`
  unfoldable pub set_default : K → V → Dict K V → Dict K V
  unfolding contains insert
  set_default k v d = if contains k d then d else insert k v d

  -- `d.update(other)`
  unfoldable pub update : Dict K V → Dict K V → Dict K V
  unfolding insert
  update [] d = d
  update ((k, v) ∷ other) d = update other (insert k v d)

  -- `list(d)`
  unfoldable pub keys : Dict K V → List K
  keys [] = []
  keys ((k, v) ∷ d) = k ∷ keys d

  pub lookup-insert :
      (k j : K) (v : V) (d : Dict K V)
      → lookup j (insert k v d) ≡ (if e.beq k j then some v else lookup j d)
  unfolding lookup insert
  lookup-insert k j v [] = refl
  lookup-insert k j v ((i, w) ∷ d) =
      ground (arith, e.beq_iff k j, e.beq_iff i k, e.beq_iff i j, lookup-insert k j v d)

  pub lookup-erase :
      (k j : K) (d : Dict K V) → lookup j (erase k d) ≡ (if e.beq k j then none else lookup j d)
  unfolding lookup erase
  lookup-erase k j [] = ground arith
  lookup-erase k j ((i, w) ∷ d) =
      ground (arith, e.beq_iff k j, e.beq_iff i k, e.beq_iff i j, lookup-erase k j d)

module _ {ℓ} {K : Type ℓ} ⦃e : Eq K⦄ where
  pub beq_refl : (k : K) → e.beq k k ≡ true
  beq_refl k = (e.beq_iff k k).1 refl

-- A property of every value.
abbrev pub AllValues {ℓ κ μ} : {K : Type ℓ} {V : Type κ} → (V → Type μ) → Dict K V → Type μ
AllValues P [] = Unit
AllValues P ((k, v) ∷ d) = P v × AllValues P d

module _ {ℓ κ μ} {K : Type ℓ} {V : Type κ} ⦃e : Eq K⦄ (P : V → Type μ) where
  pub AllValues-insert :
      (k : K) (v : V) (d : Dict K V) → P v → AllValues P d → AllValues P (insert k v d)
  unfolding insert
  AllValues-insert k v [] p h = (p, tt)
  AllValues-insert k v ((j, w) ∷ d) p (q, h) = elim (Bool-cases (e.beq j k)) [
    | inl same ↦ rw (insert, same) (p, h)
    | inr other ↦ rw (insert, other) (q, AllValues-insert k v d p h)
  ]

  pub AllValues-erase : (k : K) (d : Dict K V) → AllValues P d → AllValues P (erase k d)
  unfolding erase
  AllValues-erase k [] h = tt
  AllValues-erase k ((j, w) ∷ d) (q, h) = elim (Bool-cases (e.beq j k)) [
    | inl same ↦ rw (erase, same) (AllValues-erase k d h)
    | inr other ↦ rw (erase, other) (q, AllValues-erase k d h)
  ]

  pub AllValues-lookup : (k : K) (d : Dict K V) {v : V} → AllValues P d → lookup k d ≡ some v → P v
  unfolding lookup
  AllValues-lookup k [] h found = cc
  AllValues-lookup k ((j, w) ∷ d) (q, h) found = elim (Bool-cases (e.beq j k)) [
    | inl same ↦ subst P (some_inj (rw (lookup, same) at found)) q
    | inr other ↦ AllValues-lookup k d h (rw (lookup, other) at found)
  ]

pub AllValues-mono {ℓ κ μ ν} :
    {K : Type ℓ} {V : Type κ} (P : V → Type μ) (Q : V → Type ν)
    → ((v : V) → P v → Q v)
    → (d : Dict K V) → AllValues P d
    → AllValues Q d
AllValues-mono P Q f [] h = tt
AllValues-mono P Q f ((k, v) ∷ d) (p, h) = (f v p, AllValues-mono P Q f d h)
