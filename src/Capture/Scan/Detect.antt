-- ===== src/Capture/Scan/Detect.antt =====
-- Where the marker is found, however the reads cut the bytes.
use wireless_boot_entropy_ze.Base.{
  Option, ◌+◌, ◌-◌, ◌≤◌, ◌≡◌, refl, sym, ap, ◌∙◌, Bool, true, false, not, ◌&&◌, none, some, List,
  [], ◌∷◌, ◌++◌, append-nil, append_assoc, arith, Bool-cases, Option-cases, inl, inr, if◌then◌else◌,
  ltb, ◌==◌, length, length-drop, take, drop, take-append-drop, ltb→lt,
}
use wireless_boot_entropy_ze.Python.Struct.{Bytes}
use wireless_boot_entropy_ze.Python.Text.{Text, after_prefix}
use wireless_boot_entropy_ze.Python.Text.Laws.{Lacks}
use wireless_boot_entropy_ze.Aeb.Trial.{Time}
use wireless_boot_entropy_ze.Capture.Search.{
  find_after, find_after-trim, find_after-line, find_after-rest, is_some,
}
use wireless_boot_entropy_ze.Capture.Lines.{marker, armed_marker}
use wireless_boot_entropy_ze.Capture.Scan.{
  ScanArgs, Read, Scan, ScanEnd, detected, timed_out, waiting, or_text, without_crlf, scan_line,
  scan_lines, trim, send_trigger, start_unless, start_sender, burst_trigger, fire, poll_trigger,
  scan_on, scan_content, scan_more, scan_reads, first_scan,
}

-- What the buffer has kept of `seen` finds the marker where `seen` does, whatever follows.
abbrev Kept : Bytes → Scan → Type 0
Kept seen s =
    (more : Bytes) → find_after marker (seen ++ more) ≡ find_after marker (s.scan_buf ++ more)

abbrev Absent : Bytes → Type 0
Absent seen = find_after marker seen ≡ none

Absent-start : Absent []
unfolding find_after after_prefix
Absent-start = refl

marker-Lacks : Lacks 10 marker
marker-Lacks = ground arith

Kept-scan_lines :
    (line buffer : Bytes) (s : Scan)
    → Absent (line ++ buffer)
    → Kept (line ++ buffer) (scan_lines line buffer s)
unfolding scan_lines
Kept-scan_lines line [] s absent more = ap (λ b. find_after marker (b ++ more)) (append-nil line)
Kept-scan_lines line (c ∷ rest) s absent more = elim (Bool-cases (c == 10)) [
  | inl ends ↦
      let c_is : c ≡ 10 = ground arith in
      let absent₁ : Absent (line ++ 10 ∷ rest) = rw c_is at absent in
      let later : Absent rest =
        find_after-rest marker (line ++ 10 ∷ []) rest
          (rw (append_assoc line (10 ∷ []) rest) absent₁) in
      rw (scan_lines, ends)
        (rw c_is (ap (find_after marker) (append_assoc line (10 ∷ rest) more))
          ∙ find_after-line marker line rest more 10 marker-Lacks absent₁
          ∙ Kept-scan_lines [] rest (scan_line line s) later more)
  | inr goes_on ↦
      let joined = append_assoc line (c ∷ []) rest in
      rw (scan_lines, goes_on)
        (ap (λ b. find_after marker (b ++ more)) (sym joined)
          ∙ Kept-scan_lines (line ++ c ∷ []) rest s (rw joined absent) more)
]

module _ (seen : Bytes) (absent : Absent seen) where
  Absent-Kept : (s : Scan) → Kept seen s → Absent s.scan_buf
  Absent-Kept s kept =
      ap (find_after marker) (sym (append-nil s.scan_buf))
      ∙ sym (kept [])
      ∙ ap (find_after marker) (append-nil seen)
      ∙ absent

  Kept-trim : (s : Scan) → Kept seen s → Kept seen (trim s)
  unfolding trim
  Kept-trim s kept more = elim (Bool-cases (ltb 4096 (length s.scan_buf))) [
    | inr short ↦ rw (trim, short) (kept more)
    | inl long ↦
        let cut = length s.scan_buf - 17 in
        let split = take-append-drop cut s.scan_buf in
        let big = ltb→lt 4096 (length s.scan_buf) long in
        let rest_long : length marker ≤ length (drop cut s.scan_buf) =
          omega (arith, length-drop cut s.scan_buf, big) in
        rw (trim, long)
          (kept more
            ∙ ap (λ b. find_after marker (b ++ more)) (sym split)
            ∙ find_after-trim marker (take cut s.scan_buf) (drop cut s.scan_buf) more
                (ap (find_after marker) split ∙ Absent-Kept s kept) rest_long)
  ]

  Kept-start_unless :
      (running : Option Text) (target : Text) (s : Scan)
      → Kept seen s
      → Kept seen (start_unless running target s)
  Kept-start_unless none target s kept = kept
  Kept-start_unless (some t) target s kept = kept

  Kept-burst_trigger :
      (now : Time) (target : Text) (s : Scan) → Kept seen s → Kept seen (burst_trigger now target s)
  unfolding burst_trigger
  Kept-burst_trigger now [] s kept = kept
  Kept-burst_trigger now (c ∷ target) s kept =
      Kept-trim (send_trigger now (start_sender (c ∷ target) s))
        (Kept-start_unless s.udp_sender (c ∷ target) s kept)

  Kept-fire :
      (burst : Bool) (now : Time) (target : Text) (s : Scan)
      → Kept seen s
      → Kept seen (fire burst now target s)
  unfolding fire
  Kept-fire true now target s kept = Kept-burst_trigger now target s kept
  Kept-fire false now target s kept = Kept-trim (send_trigger now s) kept

  Kept-poll_trigger :
      (args : ScanArgs) (now : Time) (s : Scan) → Kept seen s → Kept seen (poll_trigger args now s)
  unfolding poll_trigger
  Kept-poll_trigger args now s kept more =
      elim (Bool-cases
        (s.raw_armed && not s.trigger_sent && ltb (s.last_trigger_time + 250000) now)) [
          | inr later ↦ rw (poll_trigger, later) (Kept-trim s kept more)
          | inl fires ↦
              rw (poll_trigger, fires)
                (Kept-fire args.udp_burst now (or_text args.udp_target_ip s.firmware_ipv4) s kept
                  more)
        ]

Kept-scan_on :
    (args : ScanArgs) (now : Time) (buffer : Bytes) (s : Scan)
    → Absent buffer
    → Kept buffer (scan_on args now buffer s)
unfolding scan_on
Kept-scan_on args now buffer s absent =
    let armed = record s {
      raw_armed = if is_some (find_after armed_marker buffer) then true else s.raw_armed;
    } in
    Kept-poll_trigger buffer absent args now (scan_lines [] buffer armed)
      (Kept-scan_lines [] buffer armed absent)

-- What is seen of the end of the scan.
pub data Outcome : Type 0 where
  found : Bytes → Outcome
  expired pending : Outcome

abbrev pub outcome : ScanEnd → Outcome
outcome (detected initial s) = found initial
outcome (timed_out s) = expired
outcome (waiting s) = pending

-- The scan that keeps every byte: the marker is looked for in all that was read.
module _ (args : ScanArgs) (start_time : Time) where
  unfoldable pub search_content : Bytes → Bytes → Time → (Bytes → Outcome) → Outcome
  search_content seen [] now next =
      if ltb (start_time + args.startup_timeout) now then expired else next seen
  search_content seen (c ∷ more) now next = elim (find_after marker (seen ++ c ∷ more)) [
    | some rest ↦ found (without_crlf rest)
    | none ↦ next (seen ++ c ∷ more)
  ]

  unfoldable pub search_reads : List Read → Bytes → Outcome
  unfolding search_content
  search_reads [] seen = pending
  search_reads (read ∷ reads) seen =
      search_content seen read.content read.now (λ seen₁. search_reads reads seen₁)

  scan_content-search_content :
      (content : Bytes) (now : Time) (seen : Bytes) (s : Scan) (rest : Scan → ScanEnd)
      (next : Bytes → Outcome)
      → Absent seen
      → Kept seen s
      → ((seen₁ : Bytes) (s₁ : Scan)
          → Absent seen₁
          → Kept seen₁ s₁
          → outcome (rest s₁) ≡ next seen₁)
      → outcome (scan_more (scan_content args start_time content now s) rest)
        ≡ search_content seen content now next
  unfolding scan_content search_content
  scan_content-search_content [] now seen s rest next absent kept later =
      elim (Bool-cases (ltb (start_time + args.startup_timeout) now)) [
        | inl late ↦ rw (scan_content, search_content, late) refl
        | inr early ↦ rw (scan_content, search_content, early) (later seen s absent kept)
      ]
  scan_content-search_content (c ∷ more) now seen s rest next absent kept later =
      let same = kept (c ∷ more) in
      elim (Option-cases (find_after marker (s.scan_buf ++ c ∷ more))) [
        | inr (behind, there) ↦
            let there₁ = same ∙ there in rw (scan_content, search_content, there, there₁) refl
        | inl nowhere ↦
            let nowhere₁ = same ∙ nowhere in
            let kept₁ : Kept (seen ++ c ∷ more) (scan_on args now (s.scan_buf ++ c ∷ more) s) =
              λ after.
                ap (find_after marker) (append_assoc seen (c ∷ more) after)
                ∙ kept ((c ∷ more) ++ after)
                ∙ ap (find_after marker) (sym (append_assoc s.scan_buf (c ∷ more) after))
                ∙ Kept-scan_on args now (s.scan_buf ++ c ∷ more) s nowhere after in
            rw (scan_content, search_content, nowhere, nowhere₁)
              (later (seen ++ c ∷ more) (scan_on args now (s.scan_buf ++ c ∷ more) s) nowhere₁
                kept₁)
      ]

  scan_reads-Kept :
      (reads : List Read) (seen : Bytes) (s : Scan)
      → Absent seen
      → Kept seen s
      → outcome (scan_reads args start_time reads s) ≡ search_reads reads seen
  unfolding scan_reads search_reads
  scan_reads-Kept [] seen s absent kept = refl
  scan_reads-Kept (read ∷ reads) seen s absent kept =
      scan_content-search_content read.content read.now seen s _ _ absent kept
        (scan_reads-Kept reads)

  -- However the reads cut the bytes: the scan, which drops finished lines and trims its buffer, ends at
  -- the same read as a search of all the bytes read so far, with the bytes behind the first marker in
  -- them, less the line ends in front.
  pub scan_reads-search_reads :
      (reads : List Read)
      → outcome (scan_reads args start_time reads (first_scan args)) ≡ search_reads reads []
  scan_reads-search_reads reads =
      scan_reads-Kept reads [] (first_scan args) Absent-start (λ more. refl)
