-- ===== src/Python/Result.antt =====
-- A computation that may raise. The constructors name the exception types the scripts meet.
use wireless_boot_entropy_ze.Base.{◌≡◌, ◌⊎◌, inl, refl}

pub data Error : Type 0 where
  struct_error value_error key_error system_exit timeout_error runtime_error : Error
  assertion_error file_not_found keyboard_interrupt overflow_error zero_division_error : Error

-- What a statement leaves: a value, or an exception on its way to a handler.
pub data Result {ℓ} (A : Type ℓ) : Type ℓ where
  err : Error → Result A
  ok : A → Result A

-- An exception skips what follows.
infixl 5 ◌>>=◌
abbrev pub ◌>>=◌ {ℓ κ} : {B : Type ℓ} {C : Type κ} → Result B → (B → Result C) → Result C
err raised >>= next = err raised
ok value >>= next = next value

-- Where a sequence gave a value, its first part did.
pub >>=-eq-ok {ℓ κ} :
    {B : Type ℓ} {C : Type κ} (first : Result B) (next : B → Result C) {c : C}
    → (first >>= next) ≡ ok c
    → (b : B) × (first ≡ ok b) × (next b ≡ ok c)
>>=-eq-ok (err raised) next same = cc
>>=-eq-ok (ok value) next same = (value, refl, same)

pub Result-cases {ℓ κ} :
    {A : Type ℓ} (r : Result A) (P : Type κ)
    → ((a : A) → r ≡ ok a → P)
    → ((e : Error) → r ≡ err e → P)
    → P
Result-cases (ok a) P f g = f a refl
Result-cases (err e) P f g = g e refl

pub ok-injective {ℓ} : {A : Type ℓ} {a b : A} → ok a ≡ ok b → a ≡ b
ok-injective h = cc

-- What a step may end in: a value with a property, or a ValueError.
abbrev pub OkOrValueError : {A : Type 0} → (A → Type 0) → Result A → Type 0
OkOrValueError P (ok a) = P a
OkOrValueError P (err e) = e ≡ value_error

pub OkOrValueError->>= :
    {A B : Type 0} (P : A → Type 0) (Q : B → Type 0) (first : Result A) (next : A → Result B)
    → OkOrValueError P first
    → ((a : A) → P a → OkOrValueError Q (next a))
    → OkOrValueError Q (first >>= next)
OkOrValueError->>= P Q (ok a) next h later = later a h
OkOrValueError->>= P Q (err e) next h later = h

-- The same with the OverflowError of a division of integers.
abbrev pub OkOrNumberError : {A : Type 0} → (A → Type 0) → Result A → Type 0
OkOrNumberError P (ok a) = P a
OkOrNumberError P (err e) = (e ≡ value_error) ⊎ (e ≡ overflow_error)

pub OkOrNumberError->>= :
    {A B : Type 0} (P : A → Type 0) (Q : B → Type 0) (first : Result A) (next : A → Result B)
    → OkOrNumberError P first
    → ((a : A) → P a → OkOrNumberError Q (next a))
    → OkOrNumberError Q (first >>= next)
OkOrNumberError->>= P Q (ok a) next h later = later a h
OkOrNumberError->>= P Q (err e) next h later = h

pub OkOrNumberError-OkOrValueError :
    {A : Type 0} (P : A → Type 0) (r : Result A) → OkOrValueError P r → OkOrNumberError P r
OkOrNumberError-OkOrValueError P (ok a) h = h
OkOrNumberError-OkOrValueError P (err e) h = inl h
