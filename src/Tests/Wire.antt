-- ===== src/Tests/Wire.antt =====
-- Datagrams of the collector at concrete messages and lines.
use wireless_boot_entropy_ze.Base.{◌<◌, ◌≡◌, refl, none, some, [], ◌∷◌, All, arith}
use wireless_boot_entropy_ze.Python.Result.{ok}
use wireless_boot_entropy_ze.Python.Struct.{Bytes}
use wireless_boot_entropy_ze.Python.Text.{
  codes, text_eq, is_space, starts_with, strip, split, split_once,
}
use wireless_boot_entropy_ze.Python.Dict.{update, insert}
use wireless_boot_entropy_ze.Python.Utf8.{decode}
use wireless_boot_entropy_ze.Aeb.Wire.{parse_message}
use wireless_boot_entropy_ze.Aeb.Wire.RoundTrip.{
  IsWireMessage, send_message, wire_bytes, parse-make_message, make-parse_message,
  parse_message-wire_bytes,
}
use wireless_boot_entropy_ze.Aeb.ResultLine.{Fields, parse_result_line}
use wireless_boot_entropy_ze.Aeb.ResultLine.RoundTrip.{
  AreFields, result_line, parse-result_line, message_is_no_result_line,
}
use wireless_boot_entropy_ze.Tests.Inputs.{hello, hello-CanBeSent}

parse-make_message_example :
    (buffer : Bytes) × (send_message hello ≡ ok buffer) × (parse_message buffer ≡ some hello)
parse-make_message_example = parse-make_message hello (hello-CanBeSent.0)

make-parse_message_example : IsWireMessage hello × (send_message hello ≡ ok (wire_bytes hello))
make-parse_message_example =
    make-parse_message (wire_bytes hello) (hello-CanBeSent.1)
      (parse_message-wire_bytes hello (hello-CanBeSent.0))

message_is_no_result_line_example : parse_result_line (wire_bytes hello) ≡ none
message_is_no_result_line_example =
    message_is_no_result_line (wire_bytes hello) (hello-CanBeSent.1)
      (parse_message-wire_bytes hello (hello-CanBeSent.0))

abbrev fields : Fields
fields = (codes "id", codes "7") ∷ (codes "sha", codes "0f") ∷ []

fields-AreFields : AreFields fields
unfolding is_space
fields-AreFields = ground arith

fields_ascii : All (λ b. b < 0x80) (result_line fields)
fields_ascii = ground arith

parse-result_line_example : parse_result_line (result_line fields) ≡ some (update fields [])
parse-result_line_example = parse-result_line fields fields-AreFields fields_ascii

-- A line that is not closed, and one with another tag.
parse_result_line-trial :
    (parse_result_line (codes "[AEB_RESULT] trial=1 ok") ≡ some ((codes "trial", codes "1") ∷ []))
    × (parse_result_line (codes "[TEB] trial=1") ≡ none)
unfolding parse_result_line starts_with strip decode split split_once insert
parse_result_line-trial = (refl, refl)
