-- ===== src/Python/Text.antt =====
-- `str` as a list of code points, and the methods of it that the scripts call.
pub mod Laws
use Prim.Native.Char.{code}
use Prim.Native.String.{String}
use wireless_boot_entropy_ze.Base.{
  ℕ, Bool, true, false, not, ◌&&◌, ◌||◌, Option, none, some, List, [], ◌∷◌, ◌++◌, leb, ◌==◌,
  if◌then◌else◌, Eq, nat_eq, list_beq, list_beq_iff,
}

abbrev pub Text : Type 0
Text = List ℕ

instance abbrev pub text_eq : Eq Text
text_eq = record { beq = list_beq; beq_iff = list_beq_iff }

-- The code points of a literal.
abbrev pub codes : String → Text
codes String.[] = []
codes (String.◌∷◌ c s) = code c ∷ codes s

-- `str.isspace` of one character: all the white space of Unicode.
unfoldable pub is_space : ℕ → Bool
is_space c =
    (leb 9 c && leb c 13)
    || (leb 28 c && leb c 32)
    || c == 133
    || c == 160
    || c == 5760
    || (leb 8192 c && leb c 8202)
    || c == 8232
    || c == 8233
    || c == 8239
    || c == 8287
    || c == 12288

-- `s.lstrip()` by a test on characters.
unfoldable pub drop_while : (ℕ → Bool) → Text → Text
drop_while p [] = []
drop_while p (c ∷ s) = let rest = drop_while p s in if p c then rest else c ∷ s

abbrev pub keep_end : (ℕ → Bool) → ℕ → Text → Text
keep_end p c [] = if p c then [] else c ∷ []
keep_end p c (d ∷ s) = c ∷ d ∷ s

-- `s.rstrip(chars)` by a test on characters.
unfoldable pub drop_while_end : (ℕ → Bool) → Text → Text
drop_while_end p [] = []
drop_while_end p (c ∷ s) = keep_end p c (drop_while_end p s)

-- `s.strip()`
unfoldable pub strip : Text → Text
unfolding drop_while drop_while_end is_space
strip s = drop_while_end is_space (drop_while is_space s)

-- The white space of ASCII, and `bytes.strip()`
unfoldable pub is_ascii_space : ℕ → Bool
is_ascii_space c = c == 32 || (leb 9 c && leb c 13)

unfoldable pub bytes_strip : Text → Text
unfolding drop_while drop_while_end is_ascii_space
bytes_strip s = drop_while_end is_ascii_space (drop_while is_ascii_space s)

-- `s.startswith(prefix)`: what follows the prefix.
unfoldable pub after_prefix : Text → Text → Option Text
after_prefix [] s = some s
after_prefix (p ∷ ps) [] = none
after_prefix (p ∷ ps) (c ∷ s) = if p == c then after_prefix ps s else none

unfoldable pub starts_with : Text → Text → Bool
unfolding after_prefix
starts_with p s = elim (after_prefix p s) [ none ↦ false | some _ ↦ true ]

-- Keep a word that is not empty.
abbrev pub keep_word : Text → List Text → List Text
keep_word [] ws = ws
keep_word (c ∷ w) ws = (c ∷ w) ∷ ws

-- `s.split()`: the words between white space; the first argument is the word read so far.
unfoldable pub words_from : Text → Text → List Text
unfolding is_space
words_from w [] = keep_word w []
words_from w (c ∷ s) =
    let ended = keep_word w (words_from [] s) in
    let longer = words_from (w ++ c ∷ []) s in if is_space c then ended else longer

unfoldable pub split : Text → List Text
unfolding words_from
split s = words_from [] s

-- `s.split(sep, 1)` where `sep in s`; `none` where it is not.
unfoldable pub split_once : ℕ → Text → Option (Text × Text)
split_once sep [] = none
split_once sep (c ∷ s) =
    let rest = split_once sep s in
    if c == sep then some ([], s) else elim rest [ none ↦ none | some (k, v) ↦ some (c ∷ k, v) ]

-- `s.split(sep)`: every part, empty parts too; the second argument is the part read so far.
unfoldable pub split_from : ℕ → Text → Text → List Text
split_from sep w [] = w ∷ []
split_from sep w (c ∷ s) =
    let ended = w ∷ split_from sep [] s in
    let longer = split_from sep (w ++ c ∷ []) s in if c == sep then ended else longer

unfoldable pub split_at : ℕ → Text → List Text
unfolding split_from
split_at sep s = split_from sep [] s
