-- ===== src/Aeb/Jitter.antt =====
-- aeb_collector.py: `jitter_values`, `pack_jitter_delta_u32le` and `pack_jitter_residual_s32le`.
pub mod RoundTrip
use wireless_boot_entropy_ze.Base.{
  ℕ, ◌+◌, ◌-◌, ◌%◌, ◌^◌, List, [], ◌∷◌, ◌++◌, ltb, if◌then◌else◌, length, take, nat_eq,
}
use wireless_boot_entropy_ze.Base.Int.{ℤ, pos, negsuc, ◌-ℤ◌}
use wireless_boot_entropy_ze.Python.Result.{Result, ok, err, struct_error, ◌>>=◌}
use wireless_boot_entropy_ze.Python.Struct.{Bytes, le_bytes, of_le_bytes, pack_le}
use wireless_boot_entropy_ze.Python.Dict.{Dict, get_or, keys}
use wireless_boot_entropy_ze.Python.Sorting.{sorted}

-- `struct.unpack("<" + "I" * n, ...)`
unfoldable pub unpack_u32le : Bytes → List ℕ
unpack_u32le (a ∷ b ∷ c ∷ d ∷ rest) = of_le_bytes (a ∷ b ∷ c ∷ d ∷ []) ∷ unpack_u32le rest
unpack_u32le _ = []

unfoldable pub values_of_chunks : List ℕ → Dict ℕ Bytes → List ℕ
values_of_chunks [] chunks = []
values_of_chunks (index ∷ indices) chunks =
    let payload = get_or index [] chunks in
    let usable = length payload - (length payload % 4) in
    unpack_u32le (take usable payload) ++ values_of_chunks indices chunks

-- `jitter_values(state)` of the chunks in `state.jitter_chunks`.
unfoldable pub jitter_values : Dict ℕ Bytes → List ℕ
jitter_values chunks = values_of_chunks (sorted (keys chunks)) chunks

unfoldable pub pack_jitter_delta_u32le : List ℕ → Result Bytes
pack_jitter_delta_u32le [] = ok []
pack_jitter_delta_u32le (value ∷ values) = do
  word ← pack_le 4 (pos value)
  words ← pack_jitter_delta_u32le values
  ok (word ++ words)

-- `struct.pack("<i", value)`
unfoldable pub pack_s32le : ℤ → Result Bytes
pack_s32le (pos n) = if ltb n (2 ^ 31) then ok (le_bytes 4 n) else err struct_error
pack_s32le (negsuc n) =
    if ltb n (2 ^ 31) then ok (le_bytes 4 (2 ^ 32 - 1 - n)) else err struct_error

unfoldable pub pack_jitter_residual_s32le : List ℕ → ℤ → Result Bytes
unfolding pack_s32le
pack_jitter_residual_s32le [] interval_us = ok []
pack_jitter_residual_s32le (value ∷ values) interval_us = do
  word ← pack_s32le (pos value -ℤ interval_us)
  words ← pack_jitter_residual_s32le values interval_us
  ok (word ++ words)
