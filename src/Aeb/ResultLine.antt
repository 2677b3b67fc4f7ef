-- ===== src/Aeb/ResultLine.antt =====
-- aeb_collector.py: `parse_result_line`. The handler of `UnicodeDecodeError` is left out: decoding
-- with `errors="replace"` raises nothing.
pub mod RoundTrip
use wireless_boot_entropy_ze.Base.{ℕ, Option, none, some, List, [], ◌∷◌, if◌then◌else◌}
use wireless_boot_entropy_ze.Python.Struct.{Bytes}
use wireless_boot_entropy_ze.Python.Text.{
  Text, text_eq, codes, strip, starts_with, split, split_once,
}
use wireless_boot_entropy_ze.Python.Utf8.{decode}
use wireless_boot_entropy_ze.Python.Dict.{Dict, insert}

abbrev pub Fields : Type 0
Fields = Dict Text Text

abbrev pub result_tag : Text
result_tag = codes "[AEB_RESULT]"

-- The body of the loop: a token without "=" is skipped.
unfoldable pub add_token : Text → Fields → Fields
add_token token fields = elim (split_once b'=' token) [
  | none ↦ fields
  | some (key, value) ↦ insert key value fields
]

unfoldable pub collect_fields : List Text → Fields → Fields
collect_fields [] fields = fields
collect_fields (token ∷ tokens) fields = collect_fields tokens (add_token token fields)

-- `tokens[1:]`
abbrev pub without_first : List Text → List Text
without_first [] = []
without_first (_ ∷ tokens) = tokens

unfoldable pub parse_result_line : Bytes → Option Fields
unfolding collect_fields add_token
parse_result_line buffer =
    let text = strip (decode buffer) in
    if starts_with result_tag text
    then some (collect_fields (without_first (split text)) [])
    else none
