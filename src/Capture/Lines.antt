-- ===== src/Capture/Lines.antt =====
-- capture_binary.py: what the scan reads off a line of the firmware, `extract_ipv4_from_line` with its
-- expression "((?:\d{1,3}\.){3}\d{1,3})", and the number of bytes that the firmware announces.
use wireless_boot_entropy_ze.Base.{
  ℕ, zero, suc, Bool, ◌&&◌, Option, none, some, [], ◌∷◌, ◌++◌, leb, ◌==◌, if◌then◌else◌, ◌≡◌, refl,
}
use wireless_boot_entropy_ze.Python.Struct.{Bytes}
use wireless_boot_entropy_ze.Python.Text.{Text, codes, split_once, after_prefix}
use wireless_boot_entropy_ze.Capture.Search.{find_after, is_some}

abbrev pub marker : Bytes
marker = codes "[BENCH_RAW_START]"

abbrev pub armed_marker : Bytes
armed_marker = codes "[BENCH_RAW_ARMED]"

abbrev pub meta_prefix : Bytes
meta_prefix = codes "[BENCH_META] raw_dump_bytes,"

is_digit : ℕ → Bool
is_digit c = leb b'0' c && leb c b'9'

-- "\d{1,3}": up to `n` digits, and what follows them. To take fewer never helps, since neither a "."
-- nor the end of the match can follow where a digit does.
take_digits : ℕ → Text → Text × Text
unfolding is_digit
take_digits zero s = ([], s)
take_digits (suc n) [] = ([], [])
take_digits (suc n) (c ∷ s) =
    let (ds, rest) = take_digits n s in if is_digit c then (c ∷ ds, rest) else ([], c ∷ s)

-- The "." behind some digits, and what `next` matches from there.
abbrev dotted : Text × Text → (Text → Option Text) → Option Text
dotted ([], rest) next = none
dotted (d ∷ ds, []) next = none
dotted (d ∷ ds, c ∷ rest) next =
    if c == b'.'
    then elim (next rest) [ none ↦ none | some more ↦ some ((d ∷ ds) ++ c ∷ more) ]
    else none

abbrev all_digits : Text × Text → Option Text
all_digits ([], rest) = none
all_digits (d ∷ ds, rest) = some (d ∷ ds)

-- "\d{1,3}\.", `n` times, and "\d{1,3}"; what was matched.
octets : ℕ → Text → Option Text
unfolding take_digits
octets zero s = all_digits (take_digits 3 s)
octets (suc n) s = dotted (take_digits 3 s) (octets n)

-- `IPV4_RE.search(line)`: the first place where it matches.
search_ipv4 : Text → Option Text
unfolding octets
search_ipv4 [] = none
search_ipv4 (c ∷ s) = elim (octets 3 (c ∷ s)) [ some found ↦ some found | none ↦ search_ipv4 s ]

unfoldable pub extract_ipv4_from_line : Bytes → Option Text
unfolding search_ipv4 find_after
extract_ipv4_from_line line =
    if is_some (find_after (codes "IPv4") line) then search_ipv4 line else none

-- `line.rsplit(b",", 1)[1]` of a line with a comma: what follows the last one.
unfoldable pub behind_last : ℕ → Text → Text
behind_last sep [] = []
behind_last sep (c ∷ s) =
    let rest = behind_last sep s in
    if is_some (split_once sep s) then rest else if c == sep then s else c ∷ s

lines_read :
    (extract_ipv4_from_line (codes "net: IPv4 ready: 1.2.3 192.168.4.10/24")
      ≡ some (codes "192.168.4.10"))
    × (extract_ipv4_from_line (codes "192.168.4.10") ≡ none)
    × (behind_last b',' (codes "a,b,12") ≡ codes "12")
unfolding extract_ipv4_from_line behind_last after_prefix split_once
lines_read = (refl, refl, refl)
