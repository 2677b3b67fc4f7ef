-- ===== src/Teb/BootLog.antt =====
-- parse_teb_boot_log.py: the lines of a boot log. Each regular expression is written out as a function
-- of the stripped line.
pub mod Runs
use wireless_boot_entropy_ze.Base.{
  ℕ, Option, none, some, List, [], ◌∷◌, ◌++◌, Bool, true, false, ◌&&◌, ◌||◌, leb, ◌==◌,
  if◌then◌else◌, list_beq, nat_eq, ◌≡◌, refl,
}
use wireless_boot_entropy_ze.Python.Text.{
  Text, codes, strip, is_space, drop_while, after_prefix, split_once,
}

-- What a line says.
pub data BootLine : Type 0 where
  header noise : BootLine
  entry ipv4_line : Text → Text → BootLine
  result_line error_line profile_line : Text → BootLine

-- `\s+` takes all the white space at the start.
abbrev taken_spaces : Text → Text
taken_spaces [] = []
taken_spaces (c ∷ s) = let rest = taken_spaces s in if is_space c then c ∷ rest else []

abbrev last_space : ℕ → Text → ℕ
last_space c [] = c
last_space c (d ∷ s) = last_space d s

-- `([^,]+),(.+)` behind the white space: where a comma follows it at once, the last space of two or
-- more is the key.
abbrev key_value : Text → Option (Text × Text) → Option (Text × Text)
key_value (t ∷ taken) (some (k ∷ key, v ∷ value)) = some (k ∷ key, v ∷ value)
key_value (t ∷ u ∷ taken) (some ([], v ∷ value)) = some (last_space u taken ∷ [], v ∷ value)
key_value _ _ = none

-- `(.+)` behind the white space; the stripped line does not end with white space.
abbrev text_behind : Text → Text → Option Text
text_behind (t ∷ taken) (c ∷ s) = some (c ∷ s)
text_behind _ _ = none

abbrev then_entry : Option Text → Option (Text × Text)
then_entry none = none
then_entry (some rest) = key_value (taken_spaces rest) (split_once b',' (drop_while is_space rest))

abbrev then_text : Option Text → Option Text
then_text none = none
then_text (some rest) = text_behind (taken_spaces rest) (drop_while is_space rest)

-- `^\[TAG\]\s+([^,]+),(.+)$` and `^TAG\s+(.+)$`
unfoldable pub match_entry : Text → Text → Option (Text × Text)
unfolding after_prefix is_space split_once drop_while
match_entry tag line = then_entry (after_prefix tag line)

unfoldable pub match_text : Text → Text → Option Text
unfolding after_prefix is_space drop_while
match_text tag line = then_text (after_prefix tag line)

-- `[0-9.]+`: the longest such text, and what follows it
abbrev is_address_char : ℕ → Bool
is_address_char c = (leb b'0' c && leb c b'9') || c == b'.'

abbrev address : Text → Text
address [] = []
address (c ∷ s) = let rest = address s in if is_address_char c then c ∷ rest else []

abbrev both_addresses : Text → Option Text → Option (Text × Text)
both_addresses (a ∷ addr) (some rest) = keep_gateway (a ∷ addr) (address rest)
  where
    keep_gateway : Text → Text → Option (Text × Text)
    keep_gateway addr [] = none
    keep_gateway addr (g ∷ gw) = some (addr, g ∷ gw)
both_addresses _ _ = none

abbrev ipv4_here : Option Text → Option (Text × Text)
ipv4_here none = none
ipv4_here (some rest) =
    both_addresses (address rest) (after_prefix (codes " gw=") (drop_while is_address_char rest))

abbrev or_else {ℓ} : {A : Type ℓ} → Option A → Option A → Option A
or_else none later = later
or_else (some a) later = some a

-- The first place where `IPV4_RE` matches.
unfoldable pub search_ipv4 : Text → Option (Text × Text)
unfolding after_prefix drop_while
search_ipv4 [] = none
search_ipv4 (c ∷ s) =
    let later = search_ipv4 s in
    or_else (ipv4_here (after_prefix (codes "IPv4 ready: addr=") (c ∷ s))) later

abbrev on_match {ℓ κ} : {A : Type ℓ} {B : Type κ} → Option A → (A → B) → B → B
on_match (some a) here next = here a
on_match none here next = next

-- The tests of one line, in their order.
unfoldable pub boot_line : Text → BootLine
unfolding match_entry match_text search_ipv4 strip
boot_line raw =
    let line = strip raw in
    let as_entry = λ (kv : Text × Text). entry kv.0 kv.1 in
    if list_beq line (codes "Asymmetric Entropy Capsule Bootstrap")
    then header
    else on_match (match_entry (codes "[TEB_META]") line) as_entry (
        on_match (match_entry (codes "[TEB_METRIC]") line) as_entry (
          on_match (match_entry (codes "[TEB_POOL]") line) as_entry (
            on_match (match_entry (codes "[TEB_PUF]") line) as_entry (
              on_match (match_text (codes "[TEB_RESULT]") line) result_line (
                on_match (match_text (codes "[TEB_ERR]") line) error_line (
                  on_match (search_ipv4 line) (λ (ag : Text × Text). ipv4_line ag.0 ag.1)
                    (on_match (match_text (codes "Profile:") line) profile_line noise)))))))

lines_read :
    (boot_line (codes "  [TEB_METRIC] dhcp_ms,12,5 \n") ≡ entry (codes "dhcp_ms") (codes "12,5"))
    × (boot_line (codes "[TEB_METRIC]  ,5") ≡ entry (codes " ") (codes "5"))
    × (boot_line (codes "[TEB_METRIC] ,5") ≡ noise)
    × (boot_line (codes "[TEB_RESULT] seeded") ≡ result_line (codes "seeded"))
    × (boot_line (codes "x IPv4 ready: addr=10.0.0.2 gw=10.0.0.1.")
        ≡ ipv4_line (codes "10.0.0.2") (codes "10.0.0.1."))
unfolding boot_line is_space
lines_read = (refl, refl, refl, refl, refl)
