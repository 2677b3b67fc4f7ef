-- ===== src/Slices/Plan.antt =====
-- collect_reboot_slices.py: how many bytes each run captures, and the commands as they are shown.
use wireless_boot_entropy_ze.Base.{
  ℕ, zero, suc, ◌+◌, ◌*◌, ◌/◌, ◌%◌, ◌<◌, ◌≡◌, ◌⊎◌, refl, Bool, true, false, not, ◌||◌, Bool-cases,
  inl, inr, Option, none, some, List, [], ◌∷◌, ◌++◌, arith, ◌==◌, sym, ◌∙◌, list_beq, nat_eq,
  ==_iff, if◌then◌else◌, ap, All,
}
use native.Mathlib.Nat.{div-add-mod'}
use wireless_boot_entropy_ze.Base.Int.{ℤ, pos, negsuc, ltb_ℤ, int_beq, int_beq_iff, pos_part, sub_ℕ}
use wireless_boot_entropy_ze.Python.Result.{
  Result, ok, err, value_error, system_exit, ◌>>=◌, >>=-eq-ok, ok-injective,
}
use wireless_boot_entropy_ze.Python.Text.{Text, codes, text_eq}

-- The arguments that decide what is collected.
pub record SliceArgs : Type 0 where
  pub runs : ℤ
  pub bytes_per_run : Option ℤ
  pub total_bytes : Option ℤ
  pub resume : Bool

abbrev pub default_bytes_per_run : ℤ
default_bytes_per_run = pos 8388608

-- The product with the number of runs, which is positive.
abbrev pub times : ℤ → ℕ → ℤ
times (pos a) runs = pos (a * runs)
times (negsuc a) runs = sub_ℕ 0 ((a + 1) * runs)

abbrev pub given_or_default : Option ℤ → ℤ
given_or_default none = default_bytes_per_run
given_or_default (some n) = if int_beq n (pos 0) then default_bytes_per_run else n

-- The branch where the total is given, and is positive.
abbrev pub share_of : ℕ → Option ℤ → ℕ → Result ℤ
share_of total (some given) runs =
    if not (int_beq (times given runs) (pos total)) then err value_error else ok given
share_of total none runs =
    if not (total % runs == 0) then err value_error else ok (pos (total / runs))

-- The number of runs was found positive before.
unfoldable pub derive_bytes_per_run : Option ℤ → Option ℤ → ℕ → Result ℤ
derive_bytes_per_run (some total) given runs =
    if not (ltb_ℤ (pos 0) total) then err value_error else share_of (pos_part total) given runs
derive_bytes_per_run none given runs = ok (given_or_default given)

-- `if bytes_per_run <= 0`
abbrev pub positive_or_exit : ℤ → Result ℕ
positive_or_exit (pos (suc n)) = ok (suc n)
positive_or_exit _ = err system_exit

-- The tests at the start of `main`.
unfoldable pub plan : SliceArgs → Result ℕ
unfolding derive_bytes_per_run
plan args = if not (ltb_ℤ (pos 0) args.runs) then err system_exit else do
  derived ← derive_bytes_per_run args.total_bytes args.bytes_per_run (pos_part args.runs)
  positive_or_exit derived

-- What a plan promises.
pub record IsPlan (args : SliceArgs) (bytes : ℕ) : Type 0 where
  pub some_bytes : 0 < bytes
  pub some_runs : 0 < pos_part args.runs
  pub adds_up :
      (total : ℤ) → args.total_bytes ≡ some total → pos (bytes * pos_part args.runs) ≡ total

positive_or_exit-pos : (n : ℤ) (m : ℕ) → positive_or_exit n ≡ ok m → (n ≡ pos m) × (0 < m)
positive_or_exit-pos (pos zero) m h = cc
positive_or_exit-pos (pos (suc n)) m h =
    let same : suc n ≡ m = ok-injective h in (ap pos same, omega (arith, same))
positive_or_exit-pos (negsuc n) m h = cc

share_of-times :
    (total : ℕ) (given : Option ℤ) (runs : ℕ) (n : ℤ)
    → 0 < runs
    → share_of total given runs ≡ ok n
    → times n runs ≡ pos total
share_of-times total (some given) runs n some_runs h =
    elim (Bool-cases (int_beq (times given runs) (pos total))) [
      | inl same ↦
          let kept : given ≡ n = ok-injective (rw same at h) in
          ap (λ m. times m runs) (sym kept) ∙ (int_beq_iff (times given runs) (pos total)).0 same
      | inr other ↦ cc
    ]
share_of-times total none runs n some_runs h = elim (Bool-cases (total % runs == 0)) [
  | inl even ↦
      let kept : pos (total / runs) ≡ n = ok-injective (rw even at h) in
      ap (λ m. times m runs) (sym kept)
      ∙ ap pos (omega (arith, div-add-mod' total runs, (==_iff (total % runs) 0).0 even))
  | inr other ↦ cc
]

derive_bytes_per_run-times :
    (total : ℤ) (given : Option ℤ) (runs : ℕ) (n : ℤ)
    → 0 < runs
    → derive_bytes_per_run (some total) given runs ≡ ok n
    → times n runs ≡ total
unfolding derive_bytes_per_run
derive_bytes_per_run-times (pos total) given runs n some_runs h =
    elim (Bool-cases (ltb_ℤ (pos 0) (pos total))) [
      | inl positive ↦ share_of-times total given runs n some_runs (rw positive at h)
      | inr other ↦ absurd (let e = rw other at h in cc)
    ]
derive_bytes_per_run-times (negsuc total) given runs n some_runs h =
    let other : ltb_ℤ (pos 0) (negsuc total) ≡ false = ground arith in
    absurd (let e = rw other at h in cc)

-- A plan is made for a positive number of runs and of bytes for each run only, and where a total is
-- asked for, the runs together have as many bytes.
pub plan-IsPlan : (args : SliceArgs) (bytes : ℕ) → plan args ≡ ok bytes → IsPlan args bytes
unfolding plan
plan-IsPlan args bytes h = elim (Bool-cases (ltb_ℤ (pos 0) args.runs)) [
  | inr none_asked ↦ absurd (let e = rw none_asked at h in cc)
  | inl some_asked ↦
      let some_runs : 0 < pos_part args.runs = ground arith in
      let (derived, derives, positive) = >>=-eq-ok _ positive_or_exit (rw some_asked at h) in
      let (same, some_bytes) = positive_or_exit-pos derived bytes positive in
      record {
        some_bytes = some_bytes;
        some_runs = some_runs;
        adds_up = λ total asked.
            ap (λ m. times m (pos_part args.runs)) (sym same)
            ∙ derive_bytes_per_run-times total args.bytes_per_run (pos_part args.runs) derived
                some_runs
                (ap (λ t. derive_bytes_per_run t args.bytes_per_run (pos_part args.runs))
                    (sym asked)
                  ∙ derives);
      }
]

abbrev pub redacted : Text
redacted = codes "<redacted>"

-- The options whose value is not shown.
abbrev pub hides : Text → Bool
hides token =
    list_beq token (codes "--wifi-pass")
    || list_beq token (codes "--password")
    || list_beq token (codes "--pass")

-- The tokens as they are shown; the first argument is `hide_next`.
unfoldable pub shown_tokens : Bool → List Text → List Text
shown_tokens hide_next [] = []
shown_tokens true (token ∷ cmd) = redacted ∷ shown_tokens false cmd
shown_tokens false (token ∷ cmd) = token ∷ shown_tokens (hides token) cmd

-- `" ".join(redacted)`
abbrev pub joined_with : Text → List Text → Text
joined_with sep [] = []
joined_with sep (w ∷ []) = w
joined_with sep (w ∷ v ∷ ws) = w ++ sep ++ joined_with sep (v ∷ ws)

unfoldable pub display_command : List Text → Text
unfolding shown_tokens
display_command cmd = joined_with (codes " ") (shown_tokens false cmd)

-- The options for passwords.
abbrev pub IsSecretOption : Text → Type 0
IsSecretOption token =
    (token ≡ codes "--wifi-pass") ⊎ (token ≡ codes "--password") ⊎ (token ≡ codes "--pass")

hides-secret : (token : Text) → IsSecretOption token → hides token ≡ true
hides-secret token (inl e) = rw e refl
hides-secret token (inr (inl e)) = rw e refl
hides-secret token (inr (inr e)) = rw e refl

hides-plain : (token : Text) → ¬ IsSecretOption token → hides token ≡ false
hides-plain token plain = elim (Bool-cases (hides token)) [
  | inr shown ↦ shown
  | inl hidden ↦ absurd (plain (secret hidden))
]
  where
    secret : hides token ≡ true → IsSecretOption token
    secret hidden = elim (Bool-cases (list_beq token (codes "--wifi-pass"))) [
      | inl e ↦ inl ((text_eq.beq_iff token (codes "--wifi-pass")).0 e)
      | inr no_wifi ↦ elim (Bool-cases (list_beq token (codes "--password"))) [
        | inl e ↦ inr (inl ((text_eq.beq_iff token (codes "--password")).0 e))
        | inr no_password ↦
            inr (
              inr
                ((text_eq.beq_iff token (codes "--pass")).0 (rw (no_wifi, no_password) at hidden)))
      ]
    ]

-- What stands before the first option for a password is shown as it is.
shown_tokens-plain :
    (front rest : List Text)
    → All (λ token. ¬ IsSecretOption token) front
    → shown_tokens false (front ++ rest) ≡ front ++ shown_tokens false rest
unfolding shown_tokens
shown_tokens-plain [] rest h = refl
shown_tokens-plain (token ∷ front) rest (plain, h) =
    rw (hides-plain token plain) (ap (◌∷◌ token) (shown_tokens-plain front rest h))

-- What is shown of a command does not depend on the token that follows its first option for a
-- password: `--wifi-pass`, `--password` or `--pass`.
pub display_command-secret :
    (front rest : List Text) (flag secret other : Text)
    → All (λ token. ¬ IsSecretOption token) front
    → IsSecretOption flag
    → display_command (front ++ flag ∷ secret ∷ rest)
      ≡ display_command (front ++ flag ∷ other ∷ rest)
unfolding display_command shown_tokens
display_command-secret front rest flag secret other plain hidden = ap (joined_with (codes " ")) (
    shown_tokens-plain front (flag ∷ secret ∷ rest) plain
    ∙ rw (hides-secret flag hidden) refl
    ∙ sym (shown_tokens-plain front (flag ∷ other ∷ rest) plain))
