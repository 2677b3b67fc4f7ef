-- ===== src/Capture/Transfer.antt =====
-- capture_binary.py: the collection of the raw bytes, once the start marker is found. The serial port
-- is a parameter with the behaviour that its documentation gives to `read`.
pub mod Exact
use wireless_boot_entropy_ze.Base.{
  ℕ, zero, suc, ◌+◌, ◌-◌, ◌*◌, ◌≤◌, ◌≡◌, Bool, Option, none, some, List, [], ◌∷◌, ◌++◌, leb,
  if◌then◌else◌, length, take,
}
use Prim.Native.Nat.{min}
use wireless_boot_entropy_ze.Base.Int.{ℤ, pos, negsuc, ltb_ℤ, pos_part, int_beq}
use wireless_boot_entropy_ze.Python.Struct.{Bytes}

-- A port, with the bytes that it is yet to deliver: `read(n)` gives the next of them, at most `n`, and
-- fewer, or none, where its time is out.
pub record SerialPort : Type 1 where
  pub Port : Type 0
  pub read : ℕ → Port → Bytes × Port
  pub pending : Port → Bytes
  pub read_at_most : (n : ℕ) (p : Port) → length (read n p).0 ≤ n
  pub read_in_order : (n : ℕ) (p : Port) → (read n p).0 ++ pending (read n p).1 ≡ pending p

-- `buffer[:stop]`, where a negative stop counts from the end
abbrev pub slice_to : ℤ → Bytes → Bytes
slice_to (pos n) bs = take n bs
slice_to (negsuc n) bs = take (length bs - suc n) bs

abbrev pub default_bytes : ℤ
default_bytes = pos 268435456

-- `firmware_bytes or DEFAULT_BYTES`
abbrev pub announced_or_default : Option ℤ → ℤ
announced_or_default none = default_bytes
announced_or_default (some n) = if int_beq n (pos 0) then default_bytes else n

abbrev pub target_of : Option ℤ → Option ℤ → ℤ
target_of (some asked) firmware_bytes = asked
target_of none firmware_bytes = announced_or_default firmware_bytes

abbrev pub chunk_size : ℕ
chunk_size = 65536

-- Three reads for each byte, and three more, are always enough.
abbrev pub fuel_for : ℤ → ℕ
fuel_for target = 3 * pos_part target + 3

module _ (s : SerialPort) where
  open s use {Port, read}

  -- The file and the variables of the loop.
  pub record Transfer : Type 0 where
    pub file : Bytes
    pub collected : ℕ
    pub consecutive_timeouts : ℕ
    pub port : Port

  pub data TransferEnd : Type 0 where
    -- the target is reached; the third read in a row without a byte; the fuel is used up
    complete stopped running : Transfer → TransferEnd

  abbrev pub after_read : Transfer → (Transfer → TransferEnd) → Bytes × Port → TransferEnd
  after_read t next ([], port) =
      if leb 3 (t.consecutive_timeouts + 1)
      then stopped (record t { consecutive_timeouts = t.consecutive_timeouts + 1; port = port })
      else next (record t { consecutive_timeouts = t.consecutive_timeouts + 1; port = port })
  after_read t next (c ∷ more, port) = next (record {
    file = t.file ++ c ∷ more;
    collected = t.collected + length (c ∷ more);
    consecutive_timeouts = 0;
    port = port;
  })

  abbrev pub to_read : ℤ → Transfer → ℕ
  to_read target t = min chunk_size (pos_part target - t.collected)

  -- `while collected < target_bytes`
  unfoldable pub transfer : ℕ → ℤ → Transfer → TransferEnd
  transfer zero target t = if ltb_ℤ (pos t.collected) target then running t else complete t
  transfer (suc fuel) target t =
      if ltb_ℤ (pos t.collected) target
      then after_read t (λ t₁. transfer fuel target t₁) (read (to_read target t) t.port)
      else complete t

  abbrev pub first_chunk : ℤ → Bytes → Port → Transfer
  first_chunk target initial port = record {
    file = slice_to target initial;
    collected = length (slice_to target initial);
    consecutive_timeouts = 0;
    port = port;
  }

  unfoldable pub collect : ℤ → Bytes → Port → TransferEnd
  unfolding transfer
  collect target initial port = transfer (fuel_for target) target (first_chunk target initial port)
