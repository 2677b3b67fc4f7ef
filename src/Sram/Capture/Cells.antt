-- ===== src/Sram/Capture/Cells.antt =====
-- read_capture as a memory whose cells are unknown until a line says what they hold.
use wireless_boot_entropy_ze.Base.{
  ℕ, zero, suc, ◌≤◌, ◌≡◌, refl, ap, Bool, true, false, Option, none, some, List, [], ◌∷◌, map,
  arith, ltb, ◌==◌, if◌then◌else◌, length, replicate,
}
use wireless_boot_entropy_ze.Base.Int.{ℤ}
use wireless_boot_entropy_ze.Python.Result.{runtime_error}
use wireless_boot_entropy_ze.Python.Struct.{Bytes}
use wireless_boot_entropy_ze.Aeb.Trial.{Time}
use wireless_boot_entropy_ze.Sram.Capture.{
  SramLine, begin_line, data_line, end_line, ready_line, other_line, begin_address, block_of,
  overlay, members, CaptureEnd, returned, raised, waiting, raise_or, in_time, Round,
}

-- A cell is known where a line wrote it since the last begin line.
pub record Memory : Type 0 where
  pub cells : List (Option ℕ)
  pub address : Option ℤ
  pub began : Bool
  pub ended : Bool

abbrev pub with_value : ℕ → Option Bytes → Option Bytes
with_value b none = none
with_value b (some bs) = some (b ∷ bs)

-- The contents, where every cell is known.
abbrev pub known : List (Option ℕ) → Option Bytes
known [] = some []
known (none ∷ cells) = none
known (some b ∷ cells) = with_value b (known cells)

abbrev pub return_known : Option Bytes → Option ℤ → CaptureEnd
return_known (some bs) (some address) = returned bs address
return_known _ _ = raised runtime_error

abbrev pub write_block : Memory → ℕ × Bytes → Memory
write_block c (offset, block) = record c { cells = overlay offset (map some block) c.cells }

module _ (region : ℕ) where
  abbrev pub begin_memory : ℤ → Memory
  begin_memory address = record {
    cells = replicate region none;
    address = some address;
    began = true;
    ended = false;
  }

  abbrev pub take_cells : SramLine → Memory → (Memory → CaptureEnd) → CaptureEnd
  take_cells (begin_line line) c next =
      raise_or (begin_address region line) (λ address. next (begin_memory address))
  take_cells (data_line line) c next =
      if c.began
      then raise_or (block_of region line) (λ block. next (write_block c block))
      else next c
  take_cells end_line c next = next (record c { ended = if c.began then true else c.ended })
  take_cells ready_line c next = if c.ended then return_known (known c.cells) c.address else next c
  take_cells other_line c next = next c

  unfoldable pub read_memory : Time → List Round → Memory → CaptureEnd
  read_memory deadline [] c = waiting
  read_memory deadline (round ∷ rounds) c =
      in_time (ltb round.now deadline) round.raw (read_memory deadline rounds c)
        (λ line. take_cells line c (λ c₁. read_memory deadline rounds c₁))

  abbrev pub empty_memory : Memory
  empty_memory = record {
    cells = replicate region none;
    address = none;
    began = false;
    ended = false;
  }

-- The cells that the bytes and the set of offsets stand for.
abbrev pub view : Bytes → List Bool → List (Option ℕ)
view (b ∷ captured) (true ∷ received) = some b ∷ view captured received
view (b ∷ captured) (false ∷ received) = none ∷ view captured received
view _ _ = []

pub length-overlay {ℓ} :
    {A : Type ℓ} (offset : ℕ) (block cells : List A)
    → length (overlay offset block cells) ≡ length cells
length-overlay offset block [] = refl
length-overlay zero [] (x ∷ cells) = refl
length-overlay zero (b ∷ block) (x ∷ cells) = ap suc (length-overlay zero block cells)
length-overlay (suc offset) block (x ∷ cells) = ap suc (length-overlay offset block cells)

pub view-overlay :
    (offset : ℕ) (block captured : Bytes) (received : List Bool)
    → length captured ≡ length received
    → view (overlay offset block captured) (overlay offset (replicate (length block) true) received)
      ≡ overlay offset (map some block) (view captured received)
view-overlay offset block [] [] h = refl
view-overlay offset block [] (r ∷ received) h = absurd (omega (arith, h))
view-overlay offset block (b ∷ captured) [] h = absurd (omega (arith, h))
view-overlay (suc offset) block (b ∷ captured) (true ∷ received) h =
    ap (◌∷◌ (some b)) (view-overlay offset block captured received (omega (arith, h)))
view-overlay (suc offset) block (b ∷ captured) (false ∷ received) h =
    ap (◌∷◌ none) (view-overlay offset block captured received (omega (arith, h)))
view-overlay zero [] (b ∷ captured) (true ∷ received) h = refl
view-overlay zero [] (b ∷ captured) (false ∷ received) h = refl
view-overlay zero (d ∷ block) (b ∷ captured) (true ∷ received) h =
    ap (◌∷◌ (some d)) (view-overlay zero block captured received (omega (arith, h)))
view-overlay zero (d ∷ block) (b ∷ captured) (false ∷ received) h =
    ap (◌∷◌ (some d)) (view-overlay zero block captured received (omega (arith, h)))

pub view-nothing :
    (n : ℕ) (captured : Bytes)
    → length captured ≡ n
    → view captured (replicate n false) ≡ replicate n none
view-nothing zero [] h = refl
view-nothing (suc n) [] h = absurd (omega (arith, h))
view-nothing zero (b ∷ captured) h = absurd (omega (arith, h))
view-nothing (suc n) (b ∷ captured) h = ap (◌∷◌ none) (view-nothing n captured (omega (arith, h)))

members_at_most : (received : List Bool) → members received ≤ length received
members_at_most [] = omega arith
members_at_most (true ∷ received) = omega (arith, members_at_most received)
members_at_most (false ∷ received) = omega (arith, members_at_most received)

pub known_whole :
    (captured : Bytes) (received : List Bool)
    → length captured ≡ length received
    → members received ≡ length received
    → known (view captured received) ≡ some captured
known_whole [] [] h all = refl
known_whole [] (r ∷ received) h all = absurd (omega (arith, h))
known_whole (b ∷ captured) [] h all = absurd (omega (arith, h))
known_whole (b ∷ captured) (true ∷ received) h all =
    ap (with_value b) (known_whole captured received (omega (arith, h)) (omega (arith, all)))
known_whole (b ∷ captured) (false ∷ received) h all =
    absurd (omega (arith, all, members_at_most received))

pub known_partial :
    (captured : Bytes) (received : List Bool)
    → length captured ≡ length received
    → (members received == length received) ≡ false
    → known (view captured received) ≡ none
known_partial [] [] h some_missing = absurd (ground arith)
known_partial [] (r ∷ received) h some_missing = absurd (omega (arith, h))
known_partial (b ∷ captured) [] h some_missing = absurd (omega (arith, h))
known_partial (b ∷ captured) (true ∷ received) h some_missing =
    let missing : (members received == length received) ≡ false = ground arith in
    ap (with_value b) (known_partial captured received (omega (arith, h)) missing)
known_partial (b ∷ captured) (false ∷ received) h some_missing = refl
