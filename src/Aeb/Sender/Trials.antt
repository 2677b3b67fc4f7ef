-- ===== src/Aeb/Sender/Trials.antt =====
-- What a board reads of the packets, and how long they are.
use mathlib.Core.List.{map-append}
use wireless_boot_entropy_ze.Base.{
  ℕ, zero, suc, ◌+◌, ◌≡◌, refl, ap, sym, ◌∙◌, Option, some, List, [], ◌∷◌, ◌++◌, append_assoc,
  append-nil, length, map,
}
use wireless_boot_entropy_ze.Base.Int.{ℤ, pos, negsuc, pos_part}
use wireless_boot_entropy_ze.Python.Result.{ok, Result-cases}
use wireless_boot_entropy_ze.Python.Struct.{Bytes}
use wireless_boot_entropy_ze.Aeb.Wire.{Message, parse_message, type_start, type_burst}
use wireless_boot_entropy_ze.Aeb.Stimulus.Packets.{heard}
use wireless_boot_entropy_ze.Aeb.Wire.RoundTrip.{parse_message-wire_bytes}
use wireless_boot_entropy_ze.Aeb.Sender.{
  SenderArgs, TrialDraws, Sender, and_then, make_msg, check_args, sleep_ms, send_packet,
  send_bursts_from, log_trial, send_trial, nonce_of, send_trials, no_packets, run_sender,
}
use wireless_boot_entropy_ze.Aeb.Sender.Packets.{and_then-ok, padding, make_msg-heard_bytes}

module _ (args : SenderArgs) where
  -- The packet that a board reads.
  abbrev pub packet_heard : ℕ → ℕ → ℤ → Bytes → Message
  packet_heard kind trial seq nonce =
      heard (pos kind) (pos trial) seq args.interval_us args.sample_bytes nonce
        (padding args.payload_bytes seq)

  abbrev pub bursts_from_heard : ℕ → ℕ → Bytes → ℕ → List (Option Message)
  bursts_from_heard zero trial nonce seq = []
  bursts_from_heard (suc n) trial nonce seq =
      some (packet_heard type_burst trial (pos seq) nonce)
      ∷ bursts_from_heard n trial nonce (seq + 1)

  abbrev pub trial_heard : ℕ → Bytes → List (Option Message)
  trial_heard trial nonce =
      some (packet_heard type_start trial args.bursts nonce)
      ∷ bursts_from_heard (pos_part args.bursts) trial nonce 0

  abbrev pub trials_heard : Option Bytes → (ℕ → TrialDraws) → ℕ → ℕ → List (Option Message)
  trials_heard fixed draws zero trial = []
  trials_heard fixed draws (suc n) trial =
      trial_heard trial (nonce_of args fixed (draws trial))
      ++ trials_heard fixed draws n (trial + 1)

  -- What the packets sent so far read as.
  abbrev Reads : List (Option Message) → Sender → Type 0
  Reads ms s = map parse_message s.packets ≡ ms

  Reads-send_packet :
      (kind trial : ℕ) (seq : ℤ) (nonce : Bytes) (s : Sender) (ms : List (Option Message))
      → length nonce ≡ 16
      → Reads ms s
      → (send_packet args kind trial seq nonce s).0 ≡ ok tt
      → Reads
          (ms ++ some (packet_heard kind trial seq nonce) ∷ [])
          (send_packet args kind trial seq nonce s).1
  unfolding send_packet
  Reads-send_packet kind trial seq nonce s ms sized reads =
      Result-cases
        (make_msg (pos kind) (pos trial) seq args.interval_us args.sample_bytes nonce
          args.payload_bytes)
        _
        (λ packet e.
          let (fits, same) =
            make_msg-heard_bytes (pos kind) (pos trial) seq args.interval_us args.sample_bytes
              args.payload_bytes nonce sized e in
          let parsed = ap parse_message (sym same) ∙ parse_message-wire_bytes _ fits in
          rw (send_packet, e)
            (λ done.
              map-append parse_message s.packets (packet ∷ [])
              ∙ ap (λ front. front ++ parse_message packet ∷ []) reads
              ∙ ap (λ p. ms ++ p ∷ []) parsed))
        (λ raised e. rw (send_packet, e) (λ done. cc))

  Reads-send_bursts_from :
      (n trial : ℕ) (nonce : Bytes) (seq : ℕ) (s : Sender) (ms : List (Option Message))
      → length nonce ≡ 16
      → Reads ms s
      → (send_bursts_from args n trial nonce seq s).0 ≡ ok tt
      → Reads
          (ms ++ bursts_from_heard n trial nonce seq)
          (send_bursts_from args n trial nonce seq s).1
  unfolding send_bursts_from
  Reads-send_bursts_from zero trial nonce seq s ms sized reads done = reads ∙ sym (append-nil ms)
  Reads-send_bursts_from (suc n) trial nonce seq s ms sized reads done =
      let first = send_packet args type_burst trial (pos seq) nonce s in
      let (sent, same) =
        and_then-ok first (λ s₁. send_bursts_from args n trial nonce (seq + 1) s₁) done in
      let here = Reads-send_packet type_burst trial (pos seq) nonce s ms sized reads sent in
      let rest =
        Reads-send_bursts_from n trial nonce (seq + 1) first.1 _ sized here
          (ap (λ r. r.0) (sym same) ∙ done) in
      ap (λ r. map parse_message r.1.packets) same
      ∙ rest
      ∙ append_assoc ms (some (packet_heard type_burst trial (pos seq) nonce) ∷ [])
          (bursts_from_heard n trial nonce (seq + 1))

  Reads-sleep_ms :
      (ms : ℤ) (s : Sender) (sent : List (Option Message))
      → Reads sent s
      → Reads sent (sleep_ms ms s).1
  Reads-sleep_ms (pos n) s sent reads = reads
  Reads-sleep_ms (negsuc n) s sent reads = reads

  Reads-send_trial :
      (trial : ℕ) (nonce : Bytes) (draws : TrialDraws) (s : Sender) (ms : List (Option Message))
      → length nonce ≡ 16
      → Reads ms s
      → (send_trial args trial nonce draws s).0 ≡ ok tt
      → Reads (ms ++ trial_heard trial nonce) (send_trial args trial nonce draws s).1
  unfolding send_trial
  Reads-send_trial trial nonce draws s ms sized reads done =
      let first = send_packet args type_start trial args.bursts nonce s in
      let after_bursts =
        λ (s₃ : Sender). sleep_ms args.trial_gap_ms (log_trial args trial nonce draws s₃) in
      let after_gap = λ (s₂ : Sender).
        and_then (send_bursts_from args (pos_part args.bursts) trial nonce 0 s₂) after_bursts in
      let (sent, same) =
        and_then-ok first (λ s₁. and_then (sleep_ms args.start_gap_ms s₁) after_gap) done in
      let start = Reads-send_packet type_start trial args.bursts nonce s ms sized reads sent in
      let done₁ = ap (λ r. r.0) (sym same) ∙ done in
      let gap = sleep_ms args.start_gap_ms first.1 in
      let (slept, same₁) = and_then-ok gap after_gap done₁ in
      let done₂ = ap (λ r. r.0) (sym same₁) ∙ done₁ in
      let bursts = send_bursts_from args (pos_part args.bursts) trial nonce 0 gap.1 in
      let (burst, same₂) = and_then-ok bursts after_bursts done₂ in
      let all =
        Reads-send_bursts_from (pos_part args.bursts) trial nonce 0 gap.1 _ sized
          (Reads-sleep_ms args.start_gap_ms first.1 _ start) burst in
      ap (λ r. map parse_message r.1.packets) (same ∙ same₁ ∙ same₂)
      ∙ Reads-sleep_ms args.trial_gap_ms (log_trial args trial nonce draws bursts.1) _ all
      ∙ append_assoc ms (some (packet_heard type_start trial args.bursts nonce) ∷ [])
          (bursts_from_heard (pos_part args.bursts) trial nonce 0)

  module _ (fixed : Option Bytes) (draws : ℕ → TrialDraws)
      (sized : (trial : ℕ) → length (nonce_of args fixed (draws trial)) ≡ 16) where
    Reads-send_trials :
        (n trial : ℕ) (s : Sender) (ms : List (Option Message))
        → Reads ms s
        → (send_trials args fixed draws n trial s).0 ≡ ok tt
        → Reads (ms ++ trials_heard fixed draws n trial) (send_trials args fixed draws n trial s).1
    unfolding send_trials
    Reads-send_trials zero trial s ms reads done = reads ∙ sym (append-nil ms)
    Reads-send_trials (suc n) trial s ms reads done =
        let nonce = nonce_of args fixed (draws trial) in
        let first = send_trial args trial nonce (draws trial) s in
        let (sent, same) =
          and_then-ok first (λ s₁. send_trials args fixed draws n (trial + 1) s₁) done in
        let here = Reads-send_trial trial nonce (draws trial) s ms (sized trial) reads sent in
        let rest =
          Reads-send_trials n (trial + 1) first.1 _ here (ap (λ r. r.0) (sym same) ∙ done) in
        ap (λ r. map parse_message r.1.packets) same
        ∙ rest
        ∙ append_assoc ms (trial_heard trial nonce) (trials_heard fixed draws n (trial + 1))

    -- Where a run ends without an exception, a board reads its packets as, for each trial in turn, one
    -- START and then the BURST packets numbered from 0, with the nonce of the trial, which has 16
    -- bytes, and the padding that counts up from the number of the packet.
    pub run_sender-heard :
        (run_sender args fixed draws).0 ≡ ok tt
        → map parse_message (run_sender args fixed draws).1.packets
          ≡ trials_heard fixed draws (pos_part args.trials) 0
    unfolding run_sender
    run_sender-heard done =
        let trials = λ (s : Sender). send_trials args fixed draws (pos_part args.trials) 0 s in
        let (checked, same) = and_then-ok (check_args args, no_packets args) trials done in
        ap (λ r. map parse_message r.1.packets) same
        ∙ Reads-send_trials (pos_part args.trials) 0 (no_packets args) [] refl
            (ap (λ r. r.0) (sym same) ∙ done)
