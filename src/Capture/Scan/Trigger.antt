-- ===== src/Capture/Scan/Trigger.antt =====
-- capture_binary.py: when the sender is started and the trigger byte written.
use wireless_boot_entropy_ze.Base.{
  ◌+◌, ◌≡◌, ◌≢◌, refl, ap, sym, ◌∙◌, append-nil, Bool, true, false, not, ◌&&◌, Option, none, some,
  List, [], ◌∷◌, ◌++◌, arith, Bool-cases, Option-cases, inl, inr, if◌then◌else◌, ltb, ◌==◌, length,
}
use mathlib.Core.Path.{subst}
use wireless_boot_entropy_ze.Python.Struct.{Bytes}
use wireless_boot_entropy_ze.Python.Text.{Text, starts_with, bytes_strip}
use wireless_boot_entropy_ze.Aeb.Trial.{Time}
use wireless_boot_entropy_ze.Capture.Search.{find_after, is_some}
use wireless_boot_entropy_ze.Capture.Lines.{marker, armed_marker}
use wireless_boot_entropy_ze.Capture.Scan.{
  ScanArgs, Read, Scan, ScanEnd, detected, timed_out, waiting, or_text, scan_line, scan_lines, trim,
  ScanEvent, sender_started, trigger_written, send_trigger, start_unless, start_sender,
  burst_trigger, fire, poll_trigger, scan_on, scan_content, scan_more, scan_reads, first_scan,
}

abbrev pub sender_events : Option Text → List ScanEvent
sender_events none = []
sender_events (some target) = sender_started target ∷ []

abbrev pub trigger_events : Bool → List ScanEvent
trigger_events sent = if sent then trigger_written ∷ [] else []

-- What happened, in order: at most one start of a sender, and behind it at most one trigger, which
-- waits for the firmware, and with bursts for the sender.
pub record Triggers (burst : Bool) (s : Scan) : Type 0 where
  pub in_order : s.events ≡ sender_events s.udp_sender ++ trigger_events s.trigger_sent
  pub armed : s.trigger_sent ≡ true → s.raw_armed ≡ true
  pub sending : s.trigger_sent ≡ true → burst ≡ true → s.udp_sender ≢ none
  pub no_sender : burst ≡ false → s.udp_sender ≡ none

abbrev pub end_state : ScanEnd → Scan
end_state (detected initial s) = s
end_state (timed_out s) = s
end_state (waiting s) = s

sent_and_not : {b : Bool} → b ≡ true → b ≢ false
sent_and_not e f = cc

module _ (burst : Bool) where
  Triggers-scan_line :
      (line : Bytes) (s : Scan) → Triggers burst s → Triggers burst (scan_line line s)
  unfolding scan_line
  Triggers-scan_line line s h = record {
    in_order = h.in_order;
    armed = λ e.
        let was = h.armed e in
        elim (Bool-cases (starts_with armed_marker (bytes_strip line))) [
          | inl now ↦ rw now refl
          | inr other ↦ rw other was
        ];
    sending = h.sending;
    no_sender = h.no_sender;
  }

  Triggers-scan_lines :
      (line buffer : Bytes) (s : Scan)
      → Triggers burst s
      → Triggers burst (scan_lines line buffer s)
  unfolding scan_lines
  Triggers-scan_lines line [] s h = record {
    in_order = h.in_order;
    armed = h.armed;
    sending = h.sending;
    no_sender = h.no_sender;
  }
  Triggers-scan_lines line (c ∷ rest) s h = elim (Bool-cases (c == 10)) [
    | inl ends ↦
        rw (scan_lines, ends)
          (Triggers-scan_lines [] rest (scan_line line s) (Triggers-scan_line line s h))
    | inr goes_on ↦ rw (scan_lines, goes_on) (Triggers-scan_lines (line ++ c ∷ []) rest s h)
  ]

  Triggers-trim : (s : Scan) → Triggers burst s → Triggers burst (trim s)
  unfolding trim
  Triggers-trim s h = elim (Bool-cases (ltb 4096 (length s.scan_buf))) [
    | inr short ↦ rw (trim, short) h
    | inl long ↦
        rw (trim, long)
          (record {
            in_order = h.in_order;
            armed = h.armed;
            sending = h.sending;
            no_sender = h.no_sender;
          })
  ]

  sent_trigger :
      (now : Time) (s : Scan)
      → Triggers burst s
      → s.trigger_sent ≡ false
      → s.raw_armed ≡ true
      → (burst ≡ true → s.udp_sender ≢ none)
      → Triggers burst (send_trigger now s)
  sent_trigger now s h unsent armed sending = record {
    in_order =
        ap (λ es. es ++ trigger_written ∷ [])
          (subst (λ sent. s.events ≡ sender_events s.udp_sender ++ trigger_events sent) unsent
              h.in_order
            ∙ append-nil (sender_events s.udp_sender));
    armed = λ e. armed;
    sending = λ e. sending;
    no_sender = h.no_sender;
  }

  -- Before the trigger, a sender that was not running is started.
  Triggers-start :
      (running : Option Text) (target : Text) (s : Scan)
      → s.udp_sender ≡ running
      → burst ≡ true
      → Triggers burst s
      → s.trigger_sent ≡ false
      → Triggers burst (start_unless running target s)
        × ((start_unless running target s).udp_sender ≢ none)
  Triggers-start (some t) target s same asked h unsent = (h, λ e. cc)
  Triggers-start none target s same asked h unsent = (
    record {
      in_order =
          ap (λ es. es ++ sender_started target ∷ [])
            (subst (λ sent. s.events ≡ sender_events s.udp_sender ++ trigger_events sent) unsent
                h.in_order
              ∙ append-nil (sender_events s.udp_sender)
              ∙ ap sender_events same)
          ∙ ap (λ sent. sender_started target ∷ trigger_events sent) (sym unsent);
      armed = h.armed;
      sending = λ e asked₁. absurd (sent_and_not e unsent);
      no_sender = λ e. absurd (sent_and_not asked e);
    },
    λ e. cc,
  )

  start_unless-same :
      (running : Option Text) (target : Text) (s : Scan)
      → ((start_unless running target s).trigger_sent ≡ s.trigger_sent)
        × ((start_unless running target s).raw_armed ≡ s.raw_armed)
  start_unless-same none target s = (refl, refl)
  start_unless-same (some t) target s = (refl, refl)

  Triggers-burst_trigger :
      (now : Time) (target : Text) (s : Scan)
      → burst ≡ true
      → Triggers burst s
      → s.trigger_sent ≡ false
      → s.raw_armed ≡ true
      → Triggers burst (burst_trigger now target s)
  unfolding burst_trigger
  Triggers-burst_trigger now [] s asked h unsent armed = record {
    in_order = h.in_order;
    armed = h.armed;
    sending = h.sending;
    no_sender = h.no_sender;
  }
  Triggers-burst_trigger now (c ∷ target) s asked h unsent armed =
      let s₁ = start_sender (c ∷ target) s in
      let (h₁, running) = Triggers-start s.udp_sender (c ∷ target) s refl asked h unsent in
      let (sent_same, armed_same) = start_unless-same s.udp_sender (c ∷ target) s in
      Triggers-trim (send_trigger now s₁)
        (sent_trigger now s₁ h₁ (sent_same ∙ unsent) (armed_same ∙ armed) (λ asked₁. running))

  Triggers-fire :
      (asked : Bool)
      → asked ≡ burst
      → (now : Time) (target : Text) (s : Scan) → Triggers burst s
      → s.trigger_sent ≡ false
      → s.raw_armed ≡ true
      → Triggers burst (fire asked now target s)
  unfolding fire
  Triggers-fire true same now target s h unsent armed =
      Triggers-burst_trigger now target s (sym same) h unsent armed
  Triggers-fire false same now target s h unsent armed =
      Triggers-trim (send_trigger now s) (sent_trigger now s h unsent armed (λ e. cc))

  Triggers-poll_trigger :
      (args : ScanArgs) (now : Time) (s : Scan)
      → args.udp_burst ≡ burst
      → Triggers burst s
      → Triggers burst (poll_trigger args now s)
  unfolding poll_trigger fire
  Triggers-poll_trigger args now s same h =
      elim (Bool-cases
        (s.raw_armed && not s.trigger_sent && ltb (s.last_trigger_time + 250000) now)) [
          | inr later ↦ rw (poll_trigger, later) (Triggers-trim s h)
          | inl fires ↦
              let armed : s.raw_armed ≡ true = ground arith in
              let unsent : s.trigger_sent ≡ false = ground arith in
              rw (poll_trigger, fires)
                (Triggers-fire args.udp_burst same now (or_text args.udp_target_ip s.firmware_ipv4)
                  s h unsent armed)
        ]

  Triggers-scan_on :
      (args : ScanArgs) (now : Time) (buffer : Bytes) (s : Scan)
      → args.udp_burst ≡ burst
      → Triggers burst s
      → Triggers burst (scan_on args now buffer s)
  unfolding scan_on
  Triggers-scan_on args now buffer s same h =
      let armed_now = if is_some (find_after armed_marker buffer) then true else s.raw_armed in
      let kept : Triggers burst (record s { raw_armed = armed_now }) = record {
        in_order = h.in_order;
        armed = λ e. let was = h.armed e in ground arith;
        sending = h.sending;
        no_sender = h.no_sender;
      } in
      Triggers-poll_trigger args now (scan_lines [] buffer (record s { raw_armed = armed_now }))
        same (Triggers-scan_lines [] buffer (record s { raw_armed = armed_now }) kept)

  Triggers-scan_content :
      (args : ScanArgs) (start_time : Time) (content : Bytes) (now : Time) (s : Scan)
      (rest : Scan → ScanEnd)
      → args.udp_burst ≡ burst
      → Triggers burst s
      → ((s₁ : Scan) → Triggers burst s₁ → Triggers burst (end_state (rest s₁)))
      → Triggers burst (end_state (scan_more (scan_content args start_time content now s) rest))
  unfolding scan_content
  Triggers-scan_content args start_time [] now s rest same h keep =
      elim (Bool-cases (ltb (start_time + args.startup_timeout) now)) [
        | inl late ↦ rw (scan_content, late) h
        | inr early ↦ rw (scan_content, early) (keep s h)
      ]
  Triggers-scan_content args start_time (c ∷ more) now s rest same h keep =
      elim (Option-cases (find_after marker (s.scan_buf ++ c ∷ more))) [
        | inr (behind, there) ↦
            rw (scan_content, there)
              (record {
                in_order = h.in_order;
                armed = h.armed;
                sending = h.sending;
                no_sender = h.no_sender;
              })
        | inl nowhere ↦
            rw (scan_content, nowhere)
              (keep _ (Triggers-scan_on args now (s.scan_buf ++ c ∷ more) s same h))
      ]

  Triggers-scan_reads :
      (args : ScanArgs) (start_time : Time) (reads : List Read) (s : Scan)
      → args.udp_burst ≡ burst
      → Triggers burst s
      → Triggers burst (end_state (scan_reads args start_time reads s))
  unfolding scan_reads
  Triggers-scan_reads args start_time [] s same h = h
  Triggers-scan_reads args start_time (read ∷ reads) s same h =
      Triggers-scan_content args start_time read.content read.now s _ same h
        (λ s₁ h₁. Triggers-scan_reads args start_time reads s₁ same h₁)

-- However the scan ends, it started at most one sender and wrote the trigger byte at most once, and
-- the start came first. The byte was not written before the firmware was armed; with UDP bursts not
-- before the sender was started, and without them no sender was started.
pub scan_reads-Triggers :
    (args : ScanArgs) (start_time : Time) (reads : List Read)
    → Triggers args.udp_burst (end_state (scan_reads args start_time reads (first_scan args)))
scan_reads-Triggers args start_time reads =
    Triggers-scan_reads args.udp_burst args start_time reads (first_scan args) refl
      (record { in_order = refl; armed = λ e. cc; sending = λ e. cc; no_sender = λ e. refl })
