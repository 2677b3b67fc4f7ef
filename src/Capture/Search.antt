-- ===== src/Capture/Search.antt =====
-- `find` and `in` on bytes: what follows the first place where a pattern stands.
use wireless_boot_entropy_ze.Base.{
  ℕ, ◌≤◌, ◌≡◌, refl, ◌∙◌, Bool, true, false, Option, none, some, [], ◌∷◌, ◌++◌, arith, length,
  length-append, Option-cases, ◌==◌, Bool-cases, inl, inr,
}
use wireless_boot_entropy_ze.Python.Struct.{Bytes}
use wireless_boot_entropy_ze.Python.Text.{after_prefix}
use wireless_boot_entropy_ze.Python.Text.Laws.{Lacks}

-- `buffer.find(pattern)`, and the slice behind the pattern; `none` stands for -1.
unfoldable pub find_after : Bytes → Bytes → Option Bytes
find_after pattern [] = after_prefix pattern []
find_after pattern (c ∷ s) = elim (after_prefix pattern (c ∷ s)) [
  | some rest ↦ some rest
  | none ↦ find_after pattern s
]

-- `pattern in buffer`
abbrev pub is_some {ℓ} : {A : Type ℓ} → Option A → Bool
is_some none = false
is_some (some a) = true

find_after-step :
    (m : Bytes) (c : ℕ) (s : Bytes)
    → after_prefix m (c ∷ s) ≡ none
    → find_after m (c ∷ s) ≡ find_after m s
unfolding find_after
find_after-step m c s h = rw (find_after, h)

find_after-none :
    (m : Bytes) (c : ℕ) (s : Bytes)
    → find_after m (c ∷ s) ≡ none
    → (after_prefix m (c ∷ s) ≡ none) × (find_after m s ≡ none)
unfolding find_after
find_after-none m c s = elim (Option-cases (after_prefix m (c ∷ s))) [
  | inl absent ↦ rw (find_after, absent) (λ h. (refl, h))
  | inr (rest, found) ↦ rw (find_after, found) (λ h. cc)
]

-- A pattern that does not stand at the front of a long enough buffer does not stand there later.
after_prefix-longer :
    (m s more : Bytes)
    → length m ≤ length s
    → after_prefix m s ≡ none
    → after_prefix m (s ++ more) ≡ none
unfolding after_prefix
after_prefix-longer [] s more n = λ h. cc
after_prefix-longer (p ∷ m) [] more n = λ h. absurd (omega arith)
after_prefix-longer (p ∷ m) (c ∷ s) more n = elim (Bool-cases (p == c)) [
  | inl same ↦ rw same (λ h. after_prefix-longer m s more (omega arith) h)
  | inr other ↦ rw other (λ h. refl)
]

-- Nor one that would have to reach over a byte that it lacks.
after_prefix-over :
    (m u s more : Bytes) (sep : ℕ)
    → Lacks sep m
    → after_prefix m (u ++ sep ∷ s) ≡ none
    → after_prefix m (u ++ sep ∷ more) ≡ none
unfolding after_prefix
after_prefix-over [] u s more sep lacks = λ h. cc
after_prefix-over (p ∷ m) [] s more sep (q, lacks) = λ h. rw q refl
after_prefix-over (p ∷ m) (c ∷ u) s more sep (q, lacks) = elim (Bool-cases (p == c)) [
  | inl same ↦ rw same (λ h. after_prefix-over m u s more sep lacks h)
  | inr other ↦ rw other (λ h. refl)
]

-- What stands before the last bytes, as many as the pattern has, is not needed any more.
pub find_after-trim :
    (m xs ys more : Bytes)
    → find_after m (xs ++ ys) ≡ none
    → length m ≤ length ys
    → find_after m ((xs ++ ys) ++ more) ≡ find_after m (ys ++ more)
find_after-trim m [] ys more h n = refl
find_after-trim m (x ∷ xs) ys more h n =
    let (no_front, later) = find_after-none m x (xs ++ ys) h in
    let long : length m ≤ length (x ∷ (xs ++ ys)) = omega (arith, length-append xs ys) in
    find_after-step m x ((xs ++ ys) ++ more)
      (after_prefix-longer m (x ∷ (xs ++ ys)) more long no_front)
    ∙ find_after-trim m xs ys more later n

-- Nor is a line that has ended, where the pattern has no end of line.
pub find_after-line :
    (m line s more : Bytes) (sep : ℕ)
    → Lacks sep m
    → find_after m (line ++ sep ∷ s) ≡ none
    → find_after m (line ++ sep ∷ (s ++ more)) ≡ find_after m (s ++ more)
find_after-line m [] s more sep lacks h =
    let (no_front, later) = find_after-none m sep s h in
    find_after-step m sep (s ++ more) (after_prefix-over m [] s (s ++ more) sep lacks no_front)
find_after-line m (x ∷ line) s more sep lacks h =
    let (no_front, later) = find_after-none m x (line ++ sep ∷ s) h in
    find_after-step m x (line ++ sep ∷ (s ++ more))
      (after_prefix-over m (x ∷ line) s (s ++ more) sep lacks no_front)
    ∙ find_after-line m line s more sep lacks later

-- Behind a line that has ended there is none either.
pub find_after-rest : (m line s : Bytes) → find_after m (line ++ s) ≡ none → find_after m s ≡ none
find_after-rest m [] s h = h
find_after-rest m (x ∷ line) s h = find_after-rest m line s (find_after-none m x (line ++ s) h).1
