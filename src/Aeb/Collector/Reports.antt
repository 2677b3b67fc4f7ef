-- ===== src/Aeb/Collector/Reports.antt =====
-- aeb_collector.py, main: the result lines of an open trial, one round of the loop each.
use wireless_boot_entropy_ze.Base.{
  ◌≡◌, refl, ◌∙◌, true, Option, none, some, List, [], ◌∷◌, ◌++◌, All, take, nat_eq, pair_eq, ℕ,
}
use wireless_boot_entropy_ze.Base.Int.{pos, ltb_ℤ, int_eq}
use wireless_boot_entropy_ze.Python.Result.{ok}
use wireless_boot_entropy_ze.Python.Struct.{Bytes}
use wireless_boot_entropy_ze.Python.Text.{Text, text_eq}
use wireless_boot_entropy_ze.Python.Dict.{lookup, update}
use wireless_boot_entropy_ze.Aeb.ResultLine.{Fields, parse_result_line}
use wireless_boot_entropy_ze.Aeb.Trial.{Peer, Time, TrialState}
use wireless_boot_entropy_ze.Aeb.Stimulus.{Args, Draws}
use wireless_boot_entropy_ze.Aeb.Collector.{
  Collector, Event, received, recv_size, put_state, result_trial, handle_result, handle_datagram,
  step, run,
}
use wireless_boot_entropy_ze.Aeb.Collector.Arrivals.{Open, at_time, put_state-Open}

-- A datagram of the firmware's result line, and what is read of it.
pub record Report : Type 0 where
  pub line : Bytes
  pub fields : Fields
  pub time : Time
  pub draws : Draws

-- As one call of `recvfrom` gives it, it is a result line of the trial.
abbrev pub IsReportOf : ℕ → Report → Type 0
IsReportOf trial r =
    (parse_result_line (take recv_size r.line) ≡ some r.fields)
    × (result_trial r.fields ≡ ok (pos trial))

abbrev pub report_events : Peer → List Report → List Event
report_events peer [] = []
report_events peer (r ∷ reports) = received r.line peer r.time r.draws ∷ report_events peer reports

abbrev with_report : Report → TrialState → TrialState
with_report r state = record state {
  result = update r.fields state.result;
  result_time = some r.time;
}

abbrev pub with_reports : List Report → TrialState → TrialState
with_reports [] state = state
with_reports (r ∷ reports) state = with_reports reports (with_report r state)

pub jitter_chunks-with_reports :
    (reports : List Report) (state : TrialState)
    → (with_reports reports state).jitter_chunks ≡ state.jitter_chunks
jitter_chunks-with_reports [] state = refl
jitter_chunks-with_reports (r ∷ reports) state =
    jitter_chunks-with_reports reports (with_report r state)

module _ (sha256_hex : Bytes → Text) (args : Args) (fixed : Option Bytes) (peer : Peer)
    (trial : ℕ) where
  -- A result line is kept in the trial, and nothing else changes.
  run-report :
      (r : Report) (state : TrialState) (rest : List Event) (c : Collector)
      → IsReportOf trial r
      → lookup (peer, pos trial) c.states ≡ some state
      → ltb_ℤ (pos c.completed) args.trials ≡ true
      → run sha256_hex args fixed (received r.line peer r.time r.draws ∷ rest) c
        ≡ run sha256_hex args fixed rest
            (put_state (peer, pos trial) (with_report r state) (at_time r.time c))
  unfolding run step
  run-report r state rest c (parsed, of_trial) found more =
      let c₁ = put_state (peer, pos trial) (with_report r state) (at_time r.time c) in
      let handled : handle_result r.fields peer r.time (at_time r.time c) ≡ (ok tt, c₁) =
        rw (handle_result, of_trial, found) in
      let done : handle_datagram sha256_hex args fixed (take recv_size r.line) peer r.time r.draws c
          ≡ (ok tt, c₁) =
        rw (handle_datagram, parsed, handled) in
      let stepped : step sha256_hex args fixed (received r.line peer r.time r.draws) c
          ≡ (none, c₁) =
        rw (step, done) in
      rw (run, more, stepped)

  pub run-reports :
      (reports : List Report) (state : TrialState) (rest : List Event) (start c : Collector)
      → All (IsReportOf trial) reports
      → Open (peer, pos trial) state start c
      → ltb_ℤ (pos start.completed) args.trials ≡ true
      → (c₁ : Collector) × Open (peer, pos trial) (with_reports reports state) start c₁
        × (run sha256_hex args fixed (report_events peer reports ++ rest) c
            ≡ run sha256_hex args fixed rest c₁)
  run-reports [] state rest start c are h more = (c, h, refl)
  run-reports (r ∷ reports) state rest start c (is_report, are) h more =
      let state₁ = with_report r state in
      let (c₂, open₂, ran) =
        run-reports reports state₁ rest start
          (put_state (peer, pos trial) state₁ (at_time r.time c)) are
          (put_state-Open (peer, pos trial) state state₁ start c r.time h) more in
      let ahead : ltb_ℤ (pos c.completed) args.trials ≡ true = rw h.completed more in
      (
        c₂,
        open₂,
        run-report r state (report_events peer reports ++ rest) c is_report h.found ahead ∙ ran,
      )
