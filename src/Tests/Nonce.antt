-- ===== src/Tests/Nonce.antt =====
-- Nonces of the command line at concrete options.
use wireless_boot_entropy_ze.Base.{◌≡◌, refl, true, false, none, some, [], ◌∷◌, replicate}
use wireless_boot_entropy_ze.Python.Result.{ok, err, system_exit, value_error}
use wireless_boot_entropy_ze.Python.Struct.{Bytes}
use wireless_boot_entropy_ze.Python.Hex.{from_hex}
use wireless_boot_entropy_ze.Python.Text.{Text, codes}
use wireless_boot_entropy_ze.Aeb.Nonce.{collector_nonce, sender_nonce}

abbrev option : Text
option = codes "00112233 44556677 8899aabb ccddeeff"

abbrev given : Bytes
given = 0 ∷ 17 ∷ 34 ∷ 51 ∷ 68 ∷ 85 ∷ 102 ∷ 119 ∷ 136 ∷ 153 ∷ 170 ∷ 187 ∷ 204 ∷ 221 ∷ 238 ∷ 255 ∷ []

given_read : collector_nonce (some option) false ≡ ok (some given)
unfolding collector_nonce from_hex
given_read = refl

flag_read : sender_nonce none true [] ≡ ok (some (replicate 16 0xa3))
unfolding sender_nonce
flag_read = refl

-- A nonce of the wrong length, one that is no hexadecimal text, and none at all.
refused :
    (collector_nonce (some (codes "00")) true ≡ err system_exit)
    × (collector_nonce (some (codes "0g")) true ≡ err value_error)
    × (collector_nonce (some []) false ≡ ok none)
unfolding collector_nonce from_hex
refused = (refl, refl, refl)
