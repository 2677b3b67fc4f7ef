-- ===== src/Capture/Session.antt =====
-- capture_binary.py: the scan and the collection, one after the other.
use wireless_boot_entropy_ze.Base.{ℕ, ◌≡◌, ◌∙◌, take, Option, some, List, [], ◌++◌}
use mathlib.Core.Path.{subst}
use wireless_boot_entropy_ze.Base.Int.{ℤ, pos}
use wireless_boot_entropy_ze.Python.Struct.{Bytes}
use wireless_boot_entropy_ze.Aeb.Trial.{Time}
use wireless_boot_entropy_ze.Capture.Scan.{
  ScanArgs, Read, ScanEnd, detected, timed_out, waiting, scan_reads, first_scan,
}
use wireless_boot_entropy_ze.Capture.Scan.Detect.{
  found, outcome, search_reads, scan_reads-search_reads,
}
use wireless_boot_entropy_ze.Capture.Transfer.{
  SerialPort, TransferEnd, complete, stopped, running, collect, target_of,
}
use wireless_boot_entropy_ze.Capture.Transfer.Exact.{Ends, collect-Ends}

module _ (s : SerialPort) where
  open s use {Port, pending}

  pub data CaptureEnd : Type 0 where
    -- the collection was begun; the scan ended without the marker, or still waits
    collected : TransferEnd s → CaptureEnd
    no_marker : CaptureEnd

  abbrev pub collect_after : Option ℤ → Port → ScanEnd → CaptureEnd
  collect_after asked port (detected initial scan) =
      collected (collect s (target_of asked scan.firmware_bytes) initial port)
  collect_after asked port (timed_out scan) = no_marker
  collect_after asked port (waiting scan) = no_marker

  -- The port is the one that is left after the reads of the scan.
  unfoldable pub capture : ScanArgs → Option ℤ → Time → List Read → Port → CaptureEnd
  unfolding scan_reads collect
  capture args asked start_time reads port =
      collect_after asked port (scan_reads args start_time reads (first_scan args))

  -- How a capture of `n` bytes that is begun ends.
  abbrev pub Captures : ℕ → Bytes → CaptureEnd → Type 0
  Captures n stream (collected end) = Ends s n stream end
  Captures n stream no_marker = ⊥

  Captures-outcome :
      (n : ℕ) (initial : Bytes) (port : Port) (end : ScanEnd)
      → outcome end ≡ found initial
      → Captures n (initial ++ pending port) (collect_after (some (pos n)) port end)
  Captures-outcome n initial port (detected behind scan) h =
      let same : behind ≡ initial = cc in
      subst
        (λ b.
          Captures n (b ++ pending port) (collect_after (some (pos n)) port (detected behind scan)))
        same (collect-Ends s n behind port)
  Captures-outcome n initial port (timed_out scan) h = absurd (cc)
  Captures-outcome n initial port (waiting scan) h = absurd (cc)

  -- Where a search of all the bytes read finds the marker, the capture of `n` bytes ends: with exactly
  -- the first `n` of the bytes that follow the marker and its line ends, or, after three reads in a row
  -- without a byte, with fewer of them; however the reads cut the bytes.
  pub capture-Captures :
      (args : ScanArgs) (n : ℕ) (start_time : Time) (reads : List Read) (port : Port)
      (initial : Bytes)
      → search_reads args start_time reads [] ≡ found initial
      → Captures n (initial ++ pending port) (capture args (some (pos n)) start_time reads port)
  unfolding capture
  capture-Captures args n start_time reads port initial h =
      Captures-outcome n initial port (scan_reads args start_time reads (first_scan args))
        (scan_reads-search_reads args start_time reads ∙ h)

  -- A capture that has the bytes `kept`, and in place of as many others the first `missing` of `tail`;
  -- or one that was given up.
  abbrev pub IsShifted : Bytes → Bytes → ℕ → CaptureEnd → Type 0
  IsShifted kept tail missing (collected (complete t)) = t.file ≡ kept ++ take missing tail
  IsShifted kept tail missing (collected (stopped t)) = Unit
  IsShifted kept tail missing (collected (running t)) = ⊥
  IsShifted kept tail missing no_marker = ⊥
