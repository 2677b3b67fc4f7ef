-- ===== src/Aeb/Sender/Sizes.antt =====
-- The length of every packet.
use wireless_boot_entropy_ze.Base.{
  ℕ, zero, suc, ◌+◌, ◌≤◌, ◌≡◌, refl, ap, sym, ◌∙◌, false, Option, [], ◌∷◌, arith, length, All,
  All-append, All-mono,
}
use wireless_boot_entropy_ze.Base.Int.{ℤ, pos, negsuc, pos_part, ltb_ℤ}
use wireless_boot_entropy_ze.Python.Result.{Result, ok, err, Result-cases}
use wireless_boot_entropy_ze.Python.Struct.{Bytes}
use wireless_boot_entropy_ze.Aeb.Wire.{header_size, type_start, type_burst}
use wireless_boot_entropy_ze.Aeb.Sender.{
  SenderArgs, TrialDraws, Sender, and_then, make_msg, check_args, sleep_ms, send_packet,
  send_bursts_from, log_trial, send_trial, nonce_of, send_trials, no_packets, run_sender,
}
use wireless_boot_entropy_ze.Aeb.Sender.Packets.{length-make_msg}

-- Every packet sent so far has `n` bytes.
abbrev AllSized : ℕ → Sender → Type 0
AllSized n s = All (λ p. length p ≡ n) s.packets

and_then-AllSized :
    (n : ℕ) (r : Result (Unit {0}) × Sender) (next : Sender → Result (Unit {0}) × Sender)
    → AllSized n r.1
    → ((s : Sender) → AllSized n s → AllSized n (next s).1)
    → AllSized n (and_then r next).1
and_then-AllSized n (err e, s) next h keep = h
and_then-AllSized n (ok done, s) next h keep = keep s h

sleep_ms-AllSized : (n : ℕ) (ms : ℤ) (s : Sender) → AllSized n s → AllSized n (sleep_ms ms s).1
sleep_ms-AllSized n (pos m) s h = h
sleep_ms-AllSized n (negsuc m) s h = h

module _ (args : SenderArgs) (n : ℕ) (large : header_size ≤ n)
    (asked : args.payload_bytes ≡ pos n) where
  send_packet-AllSized :
      (kind trial : ℕ) (seq : ℤ) (nonce : Bytes) (s : Sender)
      → length nonce ≡ 16
      → AllSized n s
      → AllSized n (send_packet args kind trial seq nonce s).1
  unfolding send_packet
  send_packet-AllSized kind trial seq nonce s sized h =
      Result-cases
        (make_msg (pos kind) (pos trial) seq args.interval_us args.sample_bytes nonce
          args.payload_bytes)
        _
        (λ packet e.
          let made =
            ap (make_msg (pos kind) (pos trial) seq args.interval_us args.sample_bytes nonce)
              (sym asked)
            ∙ e in
          rw (send_packet, e)
            (All-append (λ p. length p ≡ n) s.packets (packet ∷ []) h
              (
                length-make_msg (pos kind) (pos trial) seq args.interval_us args.sample_bytes n
                    nonce sized large made,
                tt,
              )))
        (λ raised e. rw (send_packet, e) h)

  send_bursts_from-AllSized :
      (k trial : ℕ) (nonce : Bytes) (seq : ℕ) (s : Sender)
      → length nonce ≡ 16
      → AllSized n s
      → AllSized n (send_bursts_from args k trial nonce seq s).1
  unfolding send_bursts_from
  send_bursts_from-AllSized zero trial nonce seq s sized h = h
  send_bursts_from-AllSized (suc k) trial nonce seq s sized h =
      and_then-AllSized n (send_packet args type_burst trial (pos seq) nonce s) _
        (send_packet-AllSized type_burst trial (pos seq) nonce s sized h)
        (λ s₁ h₁. send_bursts_from-AllSized k trial nonce (seq + 1) s₁ sized h₁)

  send_trial-AllSized :
      (trial : ℕ) (nonce : Bytes) (draws : TrialDraws) (s : Sender)
      → length nonce ≡ 16
      → AllSized n s
      → AllSized n (send_trial args trial nonce draws s).1
  unfolding send_trial
  send_trial-AllSized trial nonce draws s sized h =
      and_then-AllSized n (send_packet args type_start trial args.bursts nonce s) _
        (send_packet-AllSized type_start trial args.bursts nonce s sized h)
        (λ s₁ h₁.
          and_then-AllSized n (sleep_ms args.start_gap_ms s₁) _
            (sleep_ms-AllSized n args.start_gap_ms s₁ h₁)
            (λ s₂ h₂.
              and_then-AllSized n (send_bursts_from args (pos_part args.bursts) trial nonce 0 s₂) _
                (send_bursts_from-AllSized (pos_part args.bursts) trial nonce 0 s₂ sized h₂)
                (λ s₃ h₃.
                  sleep_ms-AllSized n args.trial_gap_ms (log_trial args trial nonce draws s₃) h₃)))

  module _ (fixed : Option Bytes) (draws : ℕ → TrialDraws)
      (sized : (trial : ℕ) → length (nonce_of args fixed (draws trial)) ≡ 16) where
    send_trials-AllSized :
        (k trial : ℕ) (s : Sender)
        → AllSized n s
        → AllSized n (send_trials args fixed draws k trial s).1
    unfolding send_trials
    send_trials-AllSized zero trial s h = h
    send_trials-AllSized (suc k) trial s h =
        let nonce = nonce_of args fixed (draws trial) in
        and_then-AllSized n (send_trial args trial nonce (draws trial) s) _
          (send_trial-AllSized trial nonce (draws trial) s (sized trial) h)
          (λ s₁ h₁. send_trials-AllSized k (trial + 1) s₁ h₁)

at_least_header :
    (z : ℤ) → ltb_ℤ z (pos header_size) ≡ false → (n : ℕ) × (header_size ≤ n) × (z ≡ pos n)
at_least_header (pos n) h = (n, ground arith, refl)
at_least_header (negsuc n) h = absurd (ground arith)

checked_payload :
    (args : SenderArgs)
    → check_args args ≡ ok tt
    → (n : ℕ) × (header_size ≤ n) × (args.payload_bytes ≡ pos n)
unfolding check_args
checked_payload args checked =
    let large : ltb_ℤ args.payload_bytes (pos header_size) ≡ false = ground arith in
    at_least_header args.payload_bytes large

-- Where every nonce has its 16 bytes, and whatever the other arguments, also where the run ends by
-- an exception: every packet that was sent, START or BURST, has as many bytes as --payload-bytes
-- asks for.
pub length-run_sender :
    (args : SenderArgs) (fixed : Option Bytes) (draws : ℕ → TrialDraws)
    → ((trial : ℕ) → length (nonce_of args fixed (draws trial)) ≡ 16)
    → All (λ p. pos (length p) ≡ args.payload_bytes) (run_sender args fixed draws).1.packets
unfolding run_sender
length-run_sender args fixed draws sized =
    Result-cases (check_args args) _
      (λ done e.
        let (n, large, asked) = checked_payload args e in
        rw (run_sender, e)
          (All-mono (λ p. length p ≡ n) _ (λ p same. ap pos same ∙ sym asked) _
            (send_trials-AllSized args n large asked fixed draws sized (pos_part args.trials) 0
              (no_packets args) tt)))
      (λ raised e. rw (run_sender, e) tt)
