-- ===== src/Python/Numbers.antt =====
-- `int(text)`, `int(text, 0)` and `int(text, 16)`, with the decimal digits of every script in Unicode
-- 14 (Python 3.11) and the limit on the digits of a decimal number.
use wireless_boot_entropy_ze.Base.{
  ℕ, zero, suc, ◌+◌, ◌-◌, ◌*◌, ◌≡◌, refl, Bool, true, false, List, ◌&&◌, ◌||◌, [], ◌∷◌, ltb, leb,
  ◌==◌, if◌then◌else◌, if_keeps,
}
use wireless_boot_entropy_ze.Base.Int.{ℤ, pos, negsuc}
use wireless_boot_entropy_ze.Python.Result.{
  Result, ok, err, value_error, ◌>>=◌, OkOrValueError, OkOrValueError->>=,
}
use wireless_boot_entropy_ze.Python.Text.{Text, codes, strip, bytes_strip}

-- The character 0 of each other script that has decimal digits; 1 to 9 follow it.
abbrev zeros : List ℕ
zeros =
    0x660 ∷ 0x6f0 ∷ 0x7c0 ∷ 0x966 ∷ 0x9e6 ∷ 0xa66 ∷ 0xae6 ∷ 0xb66 ∷ 0xbe6 ∷ 0xc66 ∷ 0xce6 ∷ 0xd66
    ∷ 0xde6 ∷ 0xe50 ∷ 0xed0 ∷ 0xf20 ∷ 0x1040 ∷ 0x1090 ∷ 0x17e0 ∷ 0x1810 ∷ 0x1946 ∷ 0x19d0 ∷ 0x1a80
    ∷ 0x1a90 ∷ 0x1b50 ∷ 0x1bb0 ∷ 0x1c40 ∷ 0x1c50 ∷ 0xa620 ∷ 0xa8d0 ∷ 0xa900 ∷ 0xa9d0 ∷ 0xa9f0
    ∷ 0xaa50 ∷ 0xabf0 ∷ 0xff10 ∷ 0x104a0 ∷ 0x10d30 ∷ 0x11066 ∷ 0x110f0 ∷ 0x11136 ∷ 0x111d0 ∷ 0x112f0
    ∷ 0x11450 ∷ 0x114d0 ∷ 0x11650 ∷ 0x116c0 ∷ 0x11730 ∷ 0x118e0 ∷ 0x11950 ∷ 0x11c50 ∷ 0x11d50
    ∷ 0x11da0 ∷ 0x16a60 ∷ 0x16ac0 ∷ 0x16b50 ∷ 0x1d7ce ∷ 0x1d7d8 ∷ 0x1d7e2 ∷ 0x1d7ec ∷ 0x1d7f6
    ∷ 0x1e140 ∷ 0x1e2f0 ∷ 0x1e950 ∷ 0x1fbf0 ∷ []

-- The value of a decimal digit of such a script, and 36 where the character is none.
unfoldable decimal_of : List ℕ → ℕ → ℕ
decimal_of [] c = 36
decimal_of (z ∷ more) c = if leb z c && leb c (z + 9) then c - z else decimal_of more c

-- The value of a digit; 36 where the character is no digit.
digit : ℕ → ℕ
unfolding decimal_of
digit c =
    if leb b'0' c && leb c b'9'
    then c - b'0'
    else if leb b'a' c && leb c b'z'
    then c - b'a' + 10
    else if leb b'A' c && leb c b'Z'
    then c - b'A' + 10
    else if ltb c 128
    then 36
    else decimal_of zeros c

-- What stands in front of the next character: nothing, a base prefix, a digit or an underscore.
pub data Before : Type 0 where
  start base_prefix a_digit underscore : Before

may_underscore : Before → Bool
may_underscore start = false
may_underscore base_prefix = true
may_underscore a_digit = true
may_underscore underscore = false

ends : Before → ℕ → Result ℕ
ends a_digit n = ok n
ends _ n = err value_error

-- The digits of a number, with single underscores between them.
digits : ℕ → Before → ℕ → Text → Result ℕ
unfolding digit may_underscore ends
digits base before n [] = ends before n
digits base before n (c ∷ s) =
    let skipped = digits base underscore n s in
    let longer = digits base a_digit (n * base + digit c) s in
    if c == b'_'
    then (if may_underscore before then skipped else err value_error)
    else if ltb (digit c) base
    then longer
    else err value_error

count_digits : Text → ℕ
count_digits [] = 0
count_digits (c ∷ s) = if c == b'_' then count_digits s else count_digits s + 1

-- A decimal number, which has 4300 digits at most (`sys.get_int_max_str_digits`).
decimal : Text → Result ℕ
unfolding digits count_digits
decimal s = if ltb 4300 (count_digits s) then err value_error else digits 10 start 0 s

negate : ℕ → ℤ
negate zero = pos 0
negate (suc n) = negsuc n

-- The sign, and the text behind it.
sign : Text → (ℕ → ℤ) × Text
unfolding negate
sign [] = (pos, [])
sign (c ∷ s) = if c == b'-' then (negate, s) else if c == b'+' then (pos, s) else (pos, c ∷ s)

unfoldable pub parse_int : Text → Result ℤ
unfolding decimal sign strip
parse_int s = let (signed, body) = sign (strip s) in do n ← decimal body; ok (signed n)

-- `int(bytes)`, of which only the ASCII white space at both ends is dropped.
unfoldable pub parse_int_bytes : Text → Result ℤ
unfolding decimal sign bytes_strip
parse_int_bytes s = let (signed, body) = sign (bytes_strip s) in do n ← decimal body; ok (signed n)

-- Base 0: a prefix names the base, and a decimal number other than 0 has no leading zero.
prefixed : Text → Result ℕ
unfolding digits decimal
prefixed (c ∷ x ∷ s) =
    if c == b'0'
    then (if x == b'x' || x == b'X'
        then digits 16 base_prefix 0 s
        else if x == b'o' || x == b'O'
        then digits 8 base_prefix 0 s
        else if x == b'b' || x == b'B'
        then digits 2 base_prefix 0 s
        else do n ← decimal (c ∷ x ∷ s); if n == 0 then ok 0 else err value_error)
    else decimal (c ∷ x ∷ s)
prefixed s = decimal s

unfoldable pub parse_int_base0 : Text → Result ℤ
unfolding prefixed sign strip
parse_int_base0 s = let (signed, body) = sign (strip s) in do n ← prefixed body; ok (signed n)

-- Base 16, with or without its prefix.
hex_body : Text → Result ℕ
unfolding digits
hex_body (c ∷ x ∷ s) =
    if c == b'0' && (x == b'x' || x == b'X')
    then digits 16 base_prefix 0 s
    else digits 16 start 0 (c ∷ x ∷ s)
hex_body s = digits 16 start 0 s

unfoldable pub parse_int_base16 : Text → Result ℤ
unfolding hex_body sign strip
parse_int_base16 s = let (signed, body) = sign (strip s) in do n ← hex_body body; ok (signed n)

AnyNumber : {A : Type 0} → A → Type 0
AnyNumber n = Unit

ends-ValueError : (before : Before) (n : ℕ) → OkOrValueError AnyNumber (ends before n)
unfolding ends AnyNumber
ends-ValueError start n = refl
ends-ValueError base_prefix n = refl
ends-ValueError a_digit n = tt
ends-ValueError underscore n = refl

digits-ValueError :
    (base : ℕ) (before : Before) (n : ℕ) (s : Text)
    → OkOrValueError AnyNumber (digits base before n s)
unfolding digits AnyNumber
digits-ValueError base before n [] = ends-ValueError before n
digits-ValueError base before n (c ∷ s) =
    if_keeps (OkOrValueError AnyNumber) (c == b'_') _ _
      (if_keeps (OkOrValueError AnyNumber) (may_underscore before) _ _
        (digits-ValueError base underscore n s) refl)
      (if_keeps (OkOrValueError AnyNumber) (ltb (digit c) base) _ _
        (digits-ValueError base a_digit (n * base + digit c) s) refl)

decimal-ValueError : (s : Text) → OkOrValueError AnyNumber (decimal s)
unfolding decimal
decimal-ValueError s =
    if_keeps (OkOrValueError AnyNumber) (ltb 4300 (count_digits s)) _ _ refl
      (digits-ValueError 10 start 0 s)

-- A text that is no number raises ValueError, and nothing else.
pub parse_int-ValueError : (s : Text) → OkOrValueError (λ n. Unit) (parse_int s)
unfolding parse_int AnyNumber
parse_int-ValueError s =
    OkOrValueError->>= AnyNumber (λ n. Unit) (decimal (sign (strip s)).1) _
      (decimal-ValueError (sign (strip s)).1) (λ n read. tt)

reads :
    (parse_int (codes " -1_0\n") ≡ ok (negsuc 9))
    × (parse_int (codes "1__0") ≡ err value_error)
    × (parse_int (codes "") ≡ err value_error)
    × (parse_int (0x661 ∷ 0xff15 ∷ []) ≡ ok (pos 15))
    × (parse_int_base0 (codes "0x1F") ≡ ok (pos 31))
    × (parse_int_base0 (codes "007") ≡ err value_error)
    × (parse_int_base16 (codes "0x3ffb") ≡ ok (pos 16379))
    × (parse_int_base16 (codes "0x") ≡ err value_error)
unfolding parse_int parse_int_base0 parse_int_base16
reads = (refl, refl, refl, refl, refl, refl, refl, refl)
