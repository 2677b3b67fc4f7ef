-- ===== src/Python/Struct.antt =====
-- `bytes` as a list of numbers below 256, and the unsigned fields of the `struct` module.
pub mod Laws
pub mod BigEndian
use wireless_boot_entropy_ze.Base.{
  ℕ, zero, suc, ◌+◌, ◌-◌, ◌*◌, ◌/◌, ◌%◌, ◌^◌, ◌<◌, List, [], ◌∷◌, ◌++◌, ltb, if◌then◌else◌, length,
  take, drop, replicate, All,
}
use wireless_boot_entropy_ze.Base.Int.{ℤ, pos, negsuc}
use wireless_boot_entropy_ze.Python.Result.{Result, ok, err, struct_error}
use mathlib.Core.List.{reverse}

abbrev pub Bytes : Type 0
Bytes = List ℕ

abbrev pub IsByte : ℕ → Type 0
IsByte b = b < 256

abbrev pub AreBytes : Bytes → Type 0
AreBytes = All IsByte

-- The `w` bytes of a number, least significant byte first, and back.
unfoldable pub le_bytes : ℕ → ℕ → Bytes
le_bytes zero n = []
le_bytes (suc w) n = (n % 256) ∷ le_bytes w (n / 256)

unfoldable pub of_le_bytes : Bytes → ℕ
of_le_bytes [] = 0
of_le_bytes (b ∷ bs) = b + 256 * of_le_bytes bs

-- The same, most significant byte first.
unfoldable pub be_bytes : ℕ → ℕ → Bytes
be_bytes w n = reverse (le_bytes w n)

unfoldable pub of_be_bytes : Bytes → ℕ
of_be_bytes bs = of_le_bytes (reverse bs)

-- The formats "<H", "<I" and "<Q" at w = 2, 4, 8: a value out of range raises.
unfoldable pub pack_le : ℕ → ℤ → Result Bytes
pack_le w (pos n) = if ltb n (256 ^ w) then ok (le_bytes w n) else err struct_error
pack_le w (negsuc n) = err struct_error

-- The formats "!B", "!H", "!I" and "!Q".
unfoldable pub pack_be : ℕ → ℤ → Result Bytes
pack_be w (pos n) = if ltb n (256 ^ w) then ok (be_bytes w n) else err struct_error
pack_be w (negsuc n) = err struct_error

-- The format "16s": longer bytes are cut, shorter ones are padded with zeros.
unfoldable pub pack_string : ℕ → Bytes → Bytes
pack_string w bs = take w bs ++ replicate (w - length bs) 0

-- One field of a buffer that is long enough, and what follows it.
unfoldable pub read_le : ℕ → Bytes → ℕ × Bytes
read_le w bs = (of_le_bytes (take w bs), drop w bs)

unfoldable pub read_be : ℕ → Bytes → ℕ × Bytes
read_be w bs = (of_be_bytes (take w bs), drop w bs)
