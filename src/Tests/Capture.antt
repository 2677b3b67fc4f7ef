-- ===== src/Tests/Capture.antt =====
-- The capture at concrete reads, with a port that delivers a list of bytes.
use wireless_boot_entropy_ze.Base.{
  ◌≡◌, refl, false, some, [], ◌∷◌, ◌++◌, arith, length-take, take, drop, take-append-drop,
}
use wireless_boot_entropy_ze.Base.Int.{pos}
use wireless_boot_entropy_ze.Python.Struct.{Bytes}
use wireless_boot_entropy_ze.Python.Text.{codes, after_prefix, drop_while}
use wireless_boot_entropy_ze.Capture.Search.{find_after}
use wireless_boot_entropy_ze.Capture.Scan.{ScanArgs, Read, scan_reads, first_scan}
use wireless_boot_entropy_ze.Capture.Scan.Detect.{
  found, outcome, search_content, search_reads, scan_reads-search_reads,
}
use wireless_boot_entropy_ze.Capture.Scan.Trigger.{Triggers, end_state, scan_reads-Triggers}
use wireless_boot_entropy_ze.Capture.Transfer.{SerialPort, collect}
use wireless_boot_entropy_ze.Capture.Transfer.Exact.{Ends, collect-Ends}
use wireless_boot_entropy_ze.Capture.Session.{capture, Captures, capture-Captures}

abbrev list_port : SerialPort
list_port = record {
  Port = Bytes;
  read = λ n p. (take n p, drop n p);
  pending = λ p. p;
  read_at_most = λ n p. omega (arith, length-take n p);
  read_in_order = λ n p. take-append-drop n p;
}

abbrev args : ScanArgs
args = record { udp_burst = false; udp_target_ip = []; startup_timeout = 5000000 }

-- The marker is cut by two reads, behind a line that arms the trigger.
abbrev armed : Read
armed = record { content = codes "[BENCH_RAW_ARMED]\n"; now = 900000 }

-- The marker is cut by two reads.
abbrev first : Read
first = record { content = codes "[BENCH_RAW"; now = 1000000 }

abbrev second : Read
second = record { content = codes "_START]\nAB"; now = 1200000 }

marker_found : search_reads args 0 (armed ∷ first ∷ second ∷ []) [] ≡ found (codes "AB")
unfolding search_reads search_content find_after after_prefix drop_while
marker_found = refl

scan_reads-search_reads_example :
    outcome (scan_reads args 0 (armed ∷ first ∷ second ∷ []) (first_scan args))
    ≡ search_reads args 0 (armed ∷ first ∷ second ∷ []) []
scan_reads-search_reads_example = scan_reads-search_reads args 0 (armed ∷ first ∷ second ∷ [])

scan_reads-Triggers_example :
    Triggers args.udp_burst
      (end_state (scan_reads args 0 (armed ∷ first ∷ second ∷ []) (first_scan args)))
scan_reads-Triggers_example = scan_reads-Triggers args 0 (armed ∷ first ∷ second ∷ [])

collect-Ends_example :
    Ends list_port 4
      (codes "AB" ++ codes "CDE")
      (collect list_port (pos 4) (codes "AB") (codes "CDE"))
collect-Ends_example = collect-Ends list_port 4 (codes "AB") (codes "CDE")

capture-Captures_example :
    Captures list_port 4
      (codes "AB" ++ codes "CDE")
      (capture list_port args (some (pos 4)) 0 (armed ∷ first ∷ second ∷ []) (codes "CDE"))
capture-Captures_example =
    capture-Captures list_port args 4 0 (armed ∷ first ∷ second ∷ []) (codes "CDE") (codes "AB")
      marker_found
