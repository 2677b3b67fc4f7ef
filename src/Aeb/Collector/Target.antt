-- ===== src/Aeb/Collector/Target.antt =====
-- The loop stops at its target, and what can stop it early.
use wireless_boot_entropy_ze.Base.{
  take, ℕ, ◌+◌, ◌≤◌, ◌≡◌, ap, ◌≢◌, Bool, true, false, Option, none, some, List, [], ◌∷◌, arith,
  Bool-cases, inl, inr, pair_eq, nat_eq,
}
use wireless_boot_entropy_ze.Base.Int.{ℤ, pos, negsuc, ltb_ℤ, int_eq}
use wireless_boot_entropy_ze.Python.Result.{Result, ok, err}
use wireless_boot_entropy_ze.Python.Struct.{Bytes}
use wireless_boot_entropy_ze.Python.Text.{Text, text_eq}
use wireless_boot_entropy_ze.Aeb.Wire.{Message}
use wireless_boot_entropy_ze.Aeb.Trial.{Peer, StateKey, Time, TrialState, Disk}
use wireless_boot_entropy_ze.Aeb.Stimulus.{Args, Draws}
use wireless_boot_entropy_ze.Aeb.Collector.Cases.{Handled, handle_datagram_cases}
use wireless_boot_entropy_ze.Aeb.Collector.{
  recv_size, Collector, Event, received, timeout, interrupt, Exit, finished, go_on, exit_of,
  with_end, after_finalize, close_trial, handle_hello, step, run,
}

-- A handler counts at most one trial.
abbrev CountsOne : Collector → Collector → Type 0
CountsOne c c' = (c.completed ≤ c'.completed) × (c'.completed ≤ c.completed + 1)

after_finalize-CountsOne :
    (key : StateKey) (state : TrialState) (c : Collector) (r : Result Bool × Disk)
    → CountsOne c (after_finalize key state c r).1
unfolding after_finalize
after_finalize-CountsOne key state c (ok complete, disk) = ground arith
after_finalize-CountsOne key state c (err e, disk) = ground arith

exit_of-CountsOne : (c : Collector) (r : Handled) → CountsOne c r.1 → CountsOne c (exit_of r).1
exit_of-CountsOne c (ok done, c₁) h = h
exit_of-CountsOne c (err e, c₁) h = h

-- The target is not passed.
abbrev pub Within : Args → Collector → Type 0
Within args c = ltb_ℤ args.trials (pos c.completed) ≡ false

one_more :
    (trials : ℤ) (n m : ℕ) → ltb_ℤ (pos n) trials ≡ true → m ≤ n + 1 → ltb_ℤ trials (pos m) ≡ false
one_more (pos t) n m less h = ground arith
one_more (negsuc t) n m less h = ground arith

exactly :
    (trials : ℤ) (n : ℕ)
    → ltb_ℤ trials (pos n) ≡ false
    → ltb_ℤ (pos n) trials ≡ false
    → trials ≡ pos n
exactly (pos t) n h k = ground arith
exactly (negsuc t) n h k = ground arith

-- How the loop ended: at its target, or for another reason below or at it.
abbrev pub EndsWithin : Args → Exit × Collector → Type 0
EndsWithin args (exit, c) = Within args c × (exit ≡ finished → args.trials ≡ pos c.completed)

exit_of-ne-finished : (r : Handled) → (exit_of r).0 ≢ some finished
exit_of-ne-finished (ok done, c) e = cc
exit_of-ne-finished (err raise, c) e = cc

go_on-EndsWithin :
    (args : Args) (round : Option Exit × Collector) (rest : Collector → Exit × Collector)
    → Within args round.1
    → round.0 ≢ some finished
    → ((c : Collector) → Within args c → EndsWithin args (rest c))
    → EndsWithin args (go_on round rest)
go_on-EndsWithin args (none, c) rest h other keep = keep c h
go_on-EndsWithin args (some exit, c) rest h other keep = (h, λ e. absurd (other (ap some e)))

module _ (sha256_hex : Bytes → Text) (args : Args) (fixed : Option Bytes) where
  handle_hello-CountsOne :
      (msg : Message) (peer : Peer) (rx_time : Time) (draws : Draws) (c : Collector)
      → CountsOne c (handle_hello sha256_hex args fixed msg peer rx_time draws c).1
  unfolding handle_hello
  handle_hello-CountsOne msg peer rx_time draws c = ground arith

  step-CountsOne :
      (event : Event) (c : Collector) → CountsOne c (step sha256_hex args fixed event c).1
  unfolding step close_trial
  step-CountsOne (received buffer peer rx_time draws) c =
      let c₁ = record c { last_rx = rx_time } in
      let same : CountsOne c c₁ = (omega arith, omega arith) in
      exit_of-CountsOne c _ (
        handle_datagram_cases (λ r. CountsOne c r.1) sha256_hex args fixed peer rx_time draws c
          (take recv_size buffer) (λ e. same) (λ trial state state' found id. same)
          (λ msg state found.
            after_finalize-CountsOne (peer, pos msg.trial) (with_end msg state) c₁ _)
          (λ msg. handle_hello-CountsOne msg peer rx_time draws c₁) same)
  step-CountsOne (timeout now) c = (omega arith, omega arith)
  step-CountsOne interrupt c = (omega arith, omega arith)

  step-ne-finished :
      (event : Event) (c : Collector) → (step sha256_hex args fixed event c).0 ≢ some finished
  unfolding step
  step-ne-finished (received buffer peer rx_time draws) c e = exit_of-ne-finished _ e
  step-ne-finished (timeout now) c e = ground arith
  step-ne-finished interrupt c e = cc

  -- A loop that has not counted past its target never does, and where it ends by reaching the
  -- target it has counted exactly that many trials.
  pub run-EndsWithin :
      (events : List Event) (c : Collector)
      → Within args c
      → EndsWithin args (run sha256_hex args fixed events c)
  unfolding run
  run-EndsWithin [] c h = elim (Bool-cases (ltb_ℤ (pos c.completed) args.trials)) [
    | inl more ↦ rw (run, more) (h, λ e. cc)
    | inr reached ↦ rw (run, reached) (h, λ e. exactly args.trials c.completed h reached)
  ]
  run-EndsWithin (event ∷ events) c h = elim (Bool-cases (ltb_ℤ (pos c.completed) args.trials)) [
    | inr reached ↦ rw (run, reached) (h, λ e. exactly args.trials c.completed h reached)
    | inl more ↦
        rw (run, more)
          (go_on-EndsWithin args (step sha256_hex args fixed event c) _
            (one_more args.trials c.completed _ more (step-CountsOne event c).1)
            (step-ne-finished event c) (run-EndsWithin events))
  ]
