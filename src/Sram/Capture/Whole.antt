-- ===== src/Sram/Capture/Whole.antt =====
-- The loop of read_capture and the memory of known cells, side by side.
use wireless_boot_entropy_ze.Base.{ℕ, ◌≡◌, length}
use wireless_boot_entropy_ze.Python.Result.{Result}
use wireless_boot_entropy_ze.Python.Text.{Text}
use wireless_boot_entropy_ze.Sram.Capture.{Capture}
use wireless_boot_entropy_ze.Sram.Capture.Cells.{Memory, view}

-- The memory that the variables of the loop stand for.
abbrev memory_of : Capture → Memory
memory_of s = record {
  cells = view s.captured s.received;
  address = s.address;
  began = s.began;
  ended = s.ended;
}

record IsSized (region : ℕ) (s : Capture) : Type 0 where
  bytes : length s.captured ≡ region
  set : length s.received ≡ region
