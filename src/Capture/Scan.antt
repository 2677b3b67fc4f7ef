-- ===== src/Capture/Scan.antt =====
-- capture_binary.py: the loop that waits for the start marker. What the serial port and the clock
-- give is a list of reads, each with the bytes of one `ser.read(256)` and the time after it, in
-- microseconds; an address that is missing is the empty text.
pub mod Detect
pub mod Trigger
use wireless_boot_entropy_ze.Base.{
  ℕ, ◌+◌, ◌-◌, Bool, true, false, not, ◌&&◌, ◌||◌, Option, none, some, List, [], ◌∷◌, ◌++◌, ltb,
  ◌==◌, if◌then◌else◌, length, drop,
}
use wireless_boot_entropy_ze.Base.Int.{ℤ}
use wireless_boot_entropy_ze.Python.Result.{Result, ok, err}
use wireless_boot_entropy_ze.Python.Struct.{Bytes}
use wireless_boot_entropy_ze.Python.Text.{Text, starts_with, bytes_strip, drop_while}
use wireless_boot_entropy_ze.Python.Numbers.{parse_int_bytes}
use wireless_boot_entropy_ze.Aeb.Trial.{Time}
use wireless_boot_entropy_ze.Capture.Search.{find_after, is_some}
use wireless_boot_entropy_ze.Capture.Lines.{
  marker, armed_marker, meta_prefix, extract_ipv4_from_line, behind_last,
}

pub record ScanArgs : Type 0 where
  pub udp_burst : Bool
  pub udp_target_ip : Text
  pub startup_timeout : Time

pub record Read : Type 0 where
  pub content : Bytes
  pub now : Time

-- What the loop does beside the reading.
pub data ScanEvent : Type 0 where
  -- `udp_sender.start()` of a new sender, with its target
  sender_started : Text → ScanEvent
  -- `ser.write(b"G")`
  trigger_written : ScanEvent

-- The variables of the loop, and what it did so far, in order.
pub record Scan : Type 0 where
  pub scan_buf : Bytes
  pub firmware_bytes : Option ℤ
  pub last_trigger_time : Time
  pub firmware_ipv4 : Text
  pub raw_armed : Bool
  pub trigger_sent : Bool
  pub udp_wait_reported : Bool
  -- the target of the UDP sender, once it is started
  pub udp_sender : Option Text
  pub events : List ScanEvent

pub data ScanEnd : Type 0 where
  -- the bytes behind the marker; the time-out; the reads given are used up
  detected : Bytes → Scan → ScanEnd
  timed_out : Scan → ScanEnd
  waiting : Scan → ScanEnd

-- `a or b` of texts
abbrev pub or_text : Text → Text → Text
or_text [] b = b
or_text (c ∷ s) b = c ∷ s

abbrev pub is_crlf : ℕ → Bool
is_crlf c = c == 13 || c == 10

-- `b"\r\n"` at the front of what follows the marker
abbrev pub without_crlf : Bytes → Bytes
without_crlf = drop_while is_crlf

-- `if parsed_ipv4 is not None: firmware_ipv4 = firmware_ipv4 or parsed_ipv4`
abbrev pub keep_ipv4 : Option Text → Text → Text
keep_ipv4 none known = known
keep_ipv4 (some parsed) known = or_text known parsed

-- `try: firmware_bytes = int(...)`, where a ValueError is passed over
abbrev pub keep_number : Result ℤ → Option ℤ → Option ℤ
keep_number (ok n) known = some n
keep_number (err e) known = known

-- One line of the firmware, without its end.
unfoldable pub scan_line : Bytes → Scan → Scan
scan_line raw_line s =
    let line = bytes_strip raw_line in
    record s {
      firmware_ipv4 = keep_ipv4 (extract_ipv4_from_line line) s.firmware_ipv4;
      firmware_bytes =
          if starts_with meta_prefix line
          then keep_number (parse_int_bytes (behind_last b',' line)) s.firmware_bytes
          else s.firmware_bytes;
      raw_armed = if starts_with armed_marker line then true else s.raw_armed;
    }

-- `while b"\n" in scan_buf`: the first argument is the line read so far, and what follows the last end
-- of line stays in the buffer.
unfoldable pub scan_lines : Bytes → Bytes → Scan → Scan
unfolding scan_line
scan_lines line [] s = record s { scan_buf = line }
scan_lines line (c ∷ rest) s =
    let ended = scan_lines [] rest (scan_line line s) in
    let longer = scan_lines (line ++ c ∷ []) rest s in if c == 10 then ended else longer

-- `del scan_buf[: -len(marker)]` of a long buffer
unfoldable pub trim : Scan → Scan
trim s =
    if ltb 4096 (length s.scan_buf)
    then record s { scan_buf = drop (length s.scan_buf - length marker) s.scan_buf }
    else s

-- `ser.write(b"G")`
abbrev pub send_trigger : Time → Scan → Scan
send_trigger now s = record s {
  events = s.events ++ trigger_written ∷ [];
  trigger_sent = true;
  last_trigger_time = now;
}

-- A sender that is running is kept.
abbrev pub start_unless : Option Text → Text → Scan → Scan
start_unless none target s = record s {
  udp_sender = some target;
  events = s.events ++ sender_started target ∷ [];
}
start_unless (some running) target s = s

abbrev pub start_sender : Text → Scan → Scan
start_sender target s = start_unless s.udp_sender target s

-- With UDP bursts there is a trigger only with an address to send to. A round that waits for the
-- address goes on without trimming the buffer.
unfoldable pub burst_trigger : Time → Text → Scan → Scan
unfolding trim
burst_trigger now [] s = record s { udp_wait_reported = true; last_trigger_time = now }
burst_trigger now (c ∷ target) s = trim (send_trigger now (start_sender (c ∷ target) s))

-- The first argument is `args.udp_burst`.
unfoldable pub fire : Bool → Time → Text → Scan → Scan
unfolding trim burst_trigger
fire true now target s = burst_trigger now target s
fire false now target s = trim (send_trigger now s)

-- The trigger, once the firmware is armed.
unfoldable pub poll_trigger : ScanArgs → Time → Scan → Scan
unfolding trim fire
poll_trigger args now s =
    if s.raw_armed && not s.trigger_sent && ltb (s.last_trigger_time + 250000) now
    then fire args.udp_burst now (or_text args.udp_target_ip s.firmware_ipv4) s
    else trim s

-- The round where the marker is not there yet.
unfoldable pub scan_on : ScanArgs → Time → Bytes → Scan → Scan
unfolding scan_lines poll_trigger
scan_on args now buffer s = poll_trigger args now (
    scan_lines [] buffer (record s {
      raw_armed = if is_some (find_after armed_marker buffer) then true else s.raw_armed;
    }))

-- One read: whether the marker is there, or the time is out.
unfoldable pub scan_content : ScanArgs → Time → Bytes → Time → Scan → ScanEnd
unfolding scan_on find_after
scan_content args start_time [] now s =
    if ltb (start_time + args.startup_timeout) now then timed_out s else waiting s
scan_content args start_time (c ∷ more) now s =
    let buffer = s.scan_buf ++ c ∷ more in
    elim (find_after marker buffer) [
      | some rest ↦ detected (without_crlf rest) (record s { scan_buf = buffer })
      | none ↦ waiting (scan_on args now buffer s)
    ]

-- The loop goes on where no round ended it.
abbrev pub scan_more : ScanEnd → (Scan → ScanEnd) → ScanEnd
scan_more (waiting s) rest = rest s
scan_more (timed_out s) rest = timed_out s
scan_more (detected initial s) rest = detected initial s

unfoldable pub scan_reads : ScanArgs → Time → List Read → Scan → ScanEnd
unfolding scan_content
scan_reads args start_time [] s = waiting s
scan_reads args start_time (read ∷ reads) s =
    scan_more (scan_content args start_time read.content read.now s)
      (λ s₁. scan_reads args start_time reads s₁)

abbrev pub first_scan : ScanArgs → Scan
first_scan args = record {
  scan_buf = [];
  firmware_bytes = none;
  last_trigger_time = 0;
  firmware_ipv4 = args.udp_target_ip;
  raw_armed = false;
  trigger_sent = false;
  udp_wait_reported = false;
  udp_sender = none;
  events = [];
}
