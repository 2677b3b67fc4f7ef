-- ===== src/Teb/Generator.antt =====
-- generate_pq_keys.py: DeterministicRng, a generator of 64-bit words. The state comes from a digest,
-- which is no part of this.
pub mod Stream
use wireless_boot_entropy_ze.Base.{
  ℕ, zero, suc, ◌+◌, ◌-◌, ◌*◌, ◌/◌, ◌%◌, ◌^◌, ◌≡◌, refl, [], ◌++◌, take,
}
use wireless_boot_entropy_ze.Python.Struct.{Bytes, le_bytes}
use wireless_boot_entropy_ze.Slices.Comparison.{xor}

-- `z ^ (z >> k)`, of a word
abbrev pub xor_shifted : ℕ → ℕ → ℕ
xor_shifted k z = xor 64 z (z / 2 ^ k)

abbrev pub next_state : ℕ → ℕ
next_state state = (state + 0x9e3779b97f4a7c15) % 2 ^ 64

-- The value of `next_u64` at a state that was advanced.
unfoldable pub mixed : ℕ → ℕ
mixed state =
    let z = (xor_shifted 30 state * 0xbf58476d1ce4e5b9) % 2 ^ 64 in
    let z₁ = (xor_shifted 27 z * 0x94d049bb133111eb) % 2 ^ 64 in xor_shifted 31 z₁

-- The value, and the state after it.
abbrev pub next_u64 : ℕ → ℕ × ℕ
next_u64 state = (mixed (next_state state), next_state state)

-- The bytes that are still to be written are the second argument; the rest of a block is dropped.
unfoldable pub fill_left : ℕ → ℕ → ℕ → Bytes × ℕ
unfolding mixed le_bytes
fill_left fuel zero state = ([], state)
fill_left zero (suc left) state = ([], state)
fill_left (suc fuel) (suc left) state =
    let rest = fill_left fuel (suc left - 8) (next_u64 state).1 in
    (take (suc left) (le_bytes 8 (next_u64 state).0) ++ rest.0, rest.1)

-- Each block writes a byte at least.
unfoldable pub fill : ℕ → ℕ → Bytes × ℕ
unfolding fill_left
fill length state = fill_left length length state

-- The first words of SplitMix64 from the state 0.
first_words :
    (mixed (next_state 0) ≡ 0xe220a8397b1dcdaf)
    × (mixed (next_state (next_state 0)) ≡ 0x6e789e6aa1b965f4)
unfolding mixed
first_words = (refl, refl)
