-- ===== src/Python/Text/Laws.antt =====
-- What splitting does to texts that were put together with separators.
use wireless_boot_entropy_ze.Base.{
  ℕ, ◌≡◌, refl, Bool, true, false, some, [], ◌∷◌, ◌++◌, append-nil, append_assoc, arith, ◌==◌,
  ==_refl, All,
}
use wireless_boot_entropy_ze.Python.Text.{
  Text, is_space, after_prefix, keep_word, words_from, split_once, drop_while_end,
}

-- No character of the text is white space.
abbrev pub IsWord : Text → Type 0
IsWord = All (λ c. is_space c ≡ false)

-- The text does not hold the character.
abbrev pub Lacks : ℕ → Text → Type 0
Lacks sep = All (λ c. (c == sep) ≡ false)

pub after_prefix-append : (p s : Text) → after_prefix p (p ++ s) ≡ some s
unfolding after_prefix
after_prefix-append [] s = refl
after_prefix-append (c ∷ p) s = rw (==_refl c) (after_prefix-append p s)

-- A word grows by the characters in front of the next white space.
pub words_from-append : (v w s : Text) → IsWord v → words_from w (v ++ s) ≡ words_from (w ++ v) s
unfolding words_from
words_from-append [] w s h = rw append-nil
words_from-append (c ∷ v) w s (p, h) =
    rw p (ground (arith, words_from-append v (w ++ c ∷ []) s h, append_assoc w (c ∷ []) v))

pub words_from_space :
    (c : ℕ) (w s : Text) → is_space c ≡ true → words_from w (c ∷ s) ≡ keep_word w (words_from [] s)
unfolding words_from
words_from_space c w s h = rw h

pub split_once-append :
    (sep : ℕ) (k v : Text) → Lacks sep k → split_once sep (k ++ sep ∷ v) ≡ some (k, v)
unfolding split_once
split_once-append sep [] v h = rw (==_refl sep)
split_once-append sep (c ∷ k) v (p, h) = rw (p, split_once-append sep k v h)

-- Trailing white space holds no word.
pub words_from-drop_while_end :
    (w s : Text) → words_from w (drop_while_end is_space s) ≡ words_from w s
unfolding words_from drop_while_end
words_from-drop_while_end w [] = refl
words_from-drop_while_end w (c ∷ s) =
    ground (arith, words_from-drop_while_end [] s, words_from-drop_while_end (w ++ c ∷ []) s)

-- A character that is kept keeps all that stands before it.
pub drop_while_end-append :
    (p : ℕ → Bool) (a : Text) (c : ℕ) (b : Text)
    → p c ≡ false
    → drop_while_end p (a ++ c ∷ b) ≡ a ++ c ∷ drop_while_end p b
unfolding drop_while_end
drop_while_end-append p [] c b h = ground (arith, h)
drop_while_end-append p (x ∷ []) c b h = rw (drop_while_end-append p [] c b h)
drop_while_end-append p (x ∷ y ∷ a) c b h = rw (drop_while_end-append p (y ∷ a) c b h)
