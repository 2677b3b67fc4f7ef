-- ===== src/Aeb/ResultLine/RoundTrip.antt =====
-- A result line gives its fields back, and no binary message is taken for a result line.
use wireless_boot_entropy_ze.Base.{
  ◌<◌, ◌≡◌, refl, ap, ◌∙◌, false, none, some, List, [], ◌∷◌, ◌++◌, arith, All, All-append,
}
use wireless_boot_entropy_ze.Python.Struct.{Bytes, AreBytes}
use wireless_boot_entropy_ze.Python.Text.{
  Text, text_eq, keep_end, codes, is_space, strip, drop_while_end, starts_with, keep_word,
  words_from, split,
}
use wireless_boot_entropy_ze.Python.Text.Laws.{
  IsWord, Lacks, words_from-append, words_from_space, split_once-append, words_from-drop_while_end,
  drop_while_end-append,
}
use wireless_boot_entropy_ze.Python.Utf8.{decode, decode_ascii}
use wireless_boot_entropy_ze.Python.Dict.{insert, update}
use wireless_boot_entropy_ze.Aeb.Wire.{Message, parse_message}
use wireless_boot_entropy_ze.Aeb.Wire.RoundTrip.{parse_message-first_byte}
use wireless_boot_entropy_ze.Aeb.ResultLine.{
  Fields, result_tag, add_token, collect_fields, parse_result_line,
}

abbrev token_of : Text × Text → Text
token_of (key, value) = key ++ b'=' ∷ value

-- Fields as the firmware prints them: no white space, and no "=" in a name.
abbrev pub AreFields : Fields → Type 0
AreFields = All (λ f. IsWord f.0 × Lacks b'=' f.0 × IsWord f.1)

abbrev tokens_of : Fields → List Text
tokens_of [] = []
tokens_of (f ∷ fs) = token_of f ∷ tokens_of fs

-- The text behind the tag, up to the end of the line.
abbrev pub fields_text : Fields → Text
fields_text [] = 10 ∷ []
fields_text (f ∷ fs) = 32 ∷ (token_of f ++ fields_text fs)

-- `printk("[AEB_RESULT] key=value ...\\n")`
abbrev pub result_line : Fields → Text
result_line fields = result_tag ++ fields_text fields

token-IsWord : (f : Text × Text) → IsWord f.0 → IsWord f.1 → IsWord (token_of f)
unfolding is_space
token-IsWord (k, v) h g = All-append _ k (b'=' ∷ v) h (refl, g)

keep_word-token : (f : Text × Text) (ws : List Text) → keep_word (token_of f) ws ≡ token_of f ∷ ws
keep_word-token ([], v) ws = refl
keep_word-token (c ∷ k, v) ws = refl

words_from-fields_text :
    (fs : Fields) (w : Text)
    → AreFields fs
    → words_from w (fields_text fs) ≡ keep_word w (tokens_of fs)
words_from-fields_text [] w h = unfold words_from is_space in refl
words_from-fields_text (f ∷ fs) w ((k, p, v), h) =
    words_from_space 32 w _ (unfold is_space in refl)
    ∙ ap (keep_word w) (
        words_from-append (token_of f) [] (fields_text fs) (token-IsWord f k v)
        ∙ words_from-fields_text fs (token_of f) h
        ∙ keep_word-token f (tokens_of fs))

add_token-token :
    (f : Text × Text) (d : Fields) → Lacks b'=' f.0 → add_token (token_of f) d ≡ insert f.0 f.1 d
unfolding add_token
add_token-token (k, v) d p = rw (split_once-append b'=' k v p, add_token)

collect_fields-tokens_of :
    (fs d : Fields) → AreFields fs → collect_fields (tokens_of fs) d ≡ update fs d
unfolding collect_fields update
collect_fields-tokens_of [] d h = refl
collect_fields-tokens_of (f ∷ fs) d ((k, p, v), h) =
    rw (collect_fields, add_token-token f d p) (collect_fields-tokens_of fs _ h)

-- Stripping keeps the tag, and the words behind it.
abbrev stripped : Fields → Text
stripped fs = result_tag ++ drop_while_end is_space (fields_text fs)

strip-result_line : (fs : Fields) → strip (result_line fs) ≡ stripped fs
unfolding strip
strip-result_line fs =
    drop_while_end-append is_space (codes "[AEB_RESULT") b']' (fields_text fs) refl

result_tag-IsWord : IsWord result_tag
unfolding is_space
result_tag-IsWord = ground arith

split-stripped : (fs : Fields) → AreFields fs → split (stripped fs) ≡ result_tag ∷ tokens_of fs
unfolding split
split-stripped fs h =
    words_from-append result_tag [] (drop_while_end is_space (fields_text fs)) result_tag-IsWord
    ∙ words_from-drop_while_end result_tag (fields_text fs)
    ∙ words_from-fields_text fs result_tag h

-- An ASCII result line of fields without white space, and with no "=" in a name, gives back the
-- fields that it names; of a repeated name the last one counts.
pub parse-result_line :
    (fields : Fields)
    → AreFields fields
    → All (λ b. b < 0x80) (result_line fields)
    → parse_result_line (result_line fields) ≡ some (update fields [])
parse-result_line fs h ascii =
    let parsed : collect_fields (tokens_of fs) [] ≡ update fs [] =
      collect_fields-tokens_of fs [] h in
    unfold parse_result_line starts_with in
    rw (decode_ascii (result_line fs) ascii, strip-result_line fs, split-stripped fs h, parsed)

-- A text that begins with "A" has no tag, with its end stripped or not.
no_tag : (s : Text) → starts_with result_tag (keep_end is_space b'A' s) ≡ false
unfolding starts_with is_space
no_tag [] = refl
no_tag (c ∷ s) = refl

-- No datagram is both a message and a result line: what is accepted as a message is refused as a
-- result line.
pub message_is_no_result_line :
    (buffer : Bytes) {m : Message}
    → AreBytes buffer
    → parse_message buffer ≡ some m
    → parse_result_line buffer ≡ none
unfolding parse_result_line decode strip starts_with
message_is_no_result_line [] bytes h = refl
message_is_no_result_line (b ∷ rest) bytes h =
    let e : b ≡ b'A' = parse_message-first_byte b rest bytes h in
    rw e (unfold parse_result_line decode strip is_space drop_while_end in rw no_tag)
