-- ===== src/Aeb/Collector/Session.antt =====
-- aeb_collector.py, main: a whole session of one board: HELLO, result lines, and the upload of the
-- trial that it opens.
use wireless_boot_entropy_ze.Aeb.Collector.Firmware.{arrives, contents, jitter_of, CanBeSent}
use wireless_boot_entropy_ze.Base.{
  refl, All, joined, ◌+◌, ◌≡◌, ap, ◌∙◌, true, Option, none, some, List, [], ◌∷◌, ◌++◌, arith, map,
  ◌==◌, nat_eq, pair_eq, sym, take_all,
}
use mathlib.Core.Path.{subst}
use wireless_boot_entropy_ze.Aeb.Finalize.Reassembly.{receive}
use wireless_boot_entropy_ze.Base.Int.{pos, ltb_ℤ, int_eq}
use wireless_boot_entropy_ze.Python.Result.{Result, ok}
use wireless_boot_entropy_ze.Python.Struct.{Bytes}
use wireless_boot_entropy_ze.Python.Text.{Text, text_eq}
use wireless_boot_entropy_ze.Python.Dict.{lookup, lookup-insert, beq_refl}
use wireless_boot_entropy_ze.Aeb.Wire.{Message, type_hello}
use wireless_boot_entropy_ze.Aeb.Wire.RoundTrip.{wire_bytes, parse_message-wire_bytes}
use wireless_boot_entropy_ze.Aeb.ResultLine.RoundTrip.{message_is_no_result_line}
use wireless_boot_entropy_ze.Aeb.Trial.{Peer, StateKey, Time, TrialState, Disk}
use wireless_boot_entropy_ze.Aeb.Finalize.Whole.{JitterPacks}
use wireless_boot_entropy_ze.Aeb.Stimulus.{Args, Draws, send_stimulus}
use wireless_boot_entropy_ze.Aeb.Collector.Reports.{
  Report, IsReportOf, report_events, with_reports, jitter_chunks-with_reports, run-reports,
}
use wireless_boot_entropy_ze.Aeb.Collector.{
  Collector, Event, recv_size, put_state, start_nonce_of, handle_hello, handle_message,
  handle_datagram, step, run,
}
use wireless_boot_entropy_ze.Aeb.Collector.Delivery.{Upload, upload_events, run-upload}

module _ (sha256_hex : Bytes → Text) (args : Args) (fixed : Option Bytes) (hello : Message)
    (peer : Peer) (time : Time) (draws : Draws) where
  abbrev pub answer : Collector → Result TrialState × List Bytes × Disk
  answer c =
      send_stimulus sha256_hex args hello (start_nonce_of sha256_hex args fixed hello) peer
        c.capture_counter time draws c.disk

  -- The stimulus leaves the stream of raw bytes, and a new trial has no jitter yet.
  all_bin-answer : (c : Collector) → (answer c).2.all_bin ≡ c.disk.all_bin
  unfolding send_stimulus
  all_bin-answer c = ground arith

  jitter_chunks-answer :
      (c : Collector) {state : TrialState} → (answer c).0 ≡ ok state → state.jitter_chunks ≡ []
  unfolding send_stimulus
  jitter_chunks-answer c h = ground arith

  abbrev after_hello : Collector → TrialState → Collector
  after_hello c state =
      put_state (peer, pos hello.trial) state
        (record c {
          last_rx = time;
          capture_counter = c.capture_counter + 1;
          disk = (answer c).2;
          sent = c.sent ++ map (λ packet. (peer, packet)) (answer c).1;
        })

  run-hello :
      (c : Collector) (rest : List Event) {state : TrialState}
      → CanBeSent hello
      → hello.msg_type ≡ type_hello
      → (answer c).0 ≡ ok state
      → ltb_ℤ (pos c.completed) args.trials ≡ true
      → run sha256_hex args fixed (arrives peer hello time draws ∷ rest) c
        ≡ run sha256_hex args fixed rest (after_hello c state)
  unfolding run step handle_datagram handle_message handle_hello
  run-hello c rest {state} (fits, bytes, short) greets answered more =
      let parsed = parse_message-wire_bytes hello fits in
      let no_line = message_is_no_result_line (wire_bytes hello) bytes parsed in
      let is_hello : (hello.msg_type == type_hello) ≡ true = ground arith in
      let greeted : handle_hello sha256_hex args fixed hello peer time draws
            (record c { last_rx = time })
          ≡ (ok tt, after_hello c state) =
        rw (handle_hello, answered) in
      let done : handle_datagram sha256_hex args fixed (wire_bytes hello) peer time draws c
          ≡ (ok tt, after_hello c state) =
        rw (handle_datagram, no_line, parsed, handle_message, is_hello, greeted) in
      let stepped : step sha256_hex args fixed (arrives peer hello time draws) c
          ≡ (none, after_hello c state) =
        rw (step, take_all recv_size (wire_bytes hello) short, done) in
      rw (run, more, stepped)

  -- A HELLO whose fields fit and whose answer can be packed, after it any number of result lines of
  -- its trial, and then the upload of the trial, whose chunks of raw bytes and of jitter come in any
  -- order and any number of times, each of raw bytes at least once: the stream of raw bytes grows by
  -- the bytes that were cut, the trial is counted and closed, an older one of the same number included,
  -- and the loop goes on. The sample is not empty, each message fits one call of `recvfrom`, the jitter
  -- of the upload packs with the interval that the trial then has, and the target is not reached before.
  pub run-session :
      {cs : List Bytes} (reports : List Report) (u : Upload peer hello.trial cs) (c : Collector)
      (rest : List Event) {state : TrialState}
      → CanBeSent hello
      → hello.msg_type ≡ type_hello
      → (answer c).0 ≡ ok state
      → All (IsReportOf hello.trial) reports
      → JitterPacks (record (with_reports reports state) {
        jitter_chunks = receive (jitter_of (contents u.arrivals)) [];
      })
      → ltb_ℤ (pos c.completed) args.trials ≡ true
      → (c' : Collector) × (run sha256_hex args fixed
            (arrives peer hello time draws ∷ report_events peer reports ++ upload_events u rest)
            c
          ≡ run sha256_hex args fixed rest c')
        × (c'.disk.all_bin ≡ c.disk.all_bin ++ joined cs)
        × (c'.completed ≡ c.completed + 1)
        × (lookup (peer, pos hello.trial) c'.states ≡ none)
  run-session {cs} reports u c rest {state} sendable greets answered are packs more =
      let c₁ = after_hello c state in
      let key : StateKey = (peer, pos hello.trial) in
      let jitter = jitter_of (contents u.arrivals) in
      let found : lookup (peer, pos hello.trial) c₁.states ≡ some state =
        rw (lookup-insert key key state c.states, beq_refl key) in
      let (c₂, open₂, reported) =
        run-reports sha256_hex args fixed peer hello.trial reports state (upload_events u rest) c₁
          c₁ are (record { found = found; disk = refl; completed = refl }) more in
      let state₂ = with_reports reports state in
      let no_jitter : state₂.jitter_chunks ≡ [] =
        jitter_chunks-with_reports reports state ∙ jitter_chunks-answer c answered in
      let packs₂ : JitterPacks
          (record state₂ { jitter_chunks = receive jitter state₂.jitter_chunks }) =
        subst (λ chunks. JitterPacks (record state₂ { jitter_chunks = receive jitter chunks }))
          (sym no_jitter) packs in
      let more₂ : ltb_ℤ (pos c₂.completed) args.trials ≡ true = rw open₂.completed more in
      let (c', ran, grown, counted, closed) =
        run-upload sha256_hex args fixed u state₂ c₂ rest open₂.found packs₂ more₂ in
      (
        c',
        run-hello c (report_events peer reports ++ upload_events u rest) sendable greets answered
              more
            ∙ reported
            ∙ ran,
        grown
            ∙ ap (λ (d : Disk). d.all_bin ++ joined cs) open₂.disk
            ∙ ap (λ bs. bs ++ joined cs) (all_bin-answer c),
        counted ∙ ap (λ n. n + 1) open₂.completed,
        closed,
      )
