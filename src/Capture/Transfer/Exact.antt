-- ===== src/Capture/Transfer/Exact.antt =====
-- The loop ends, and the file holds exactly the bytes that were asked for, in order.
use wireless_boot_entropy_ze.Base.{
  ℕ, zero, suc, ◌+◌, ◌-◌, ◌*◌, ◌≤◌, ◌<◌, ◌≡◌, refl, sym, ap, ◌∙◌, false, [], ◌∷◌, ◌++◌,
  append_assoc, arith, leb, Bool-cases, inl, inr, length, length-append, length-take, take,
  take-append, take-append_long, take_all,
}
use wireless_boot_entropy_ze.Base.Int.{ℤ, pos, ltb_ℤ}
use wireless_boot_entropy_ze.Python.Struct.{Bytes}
use wireless_boot_entropy_ze.Capture.Transfer.{
  SerialPort, Transfer, TransferEnd, complete, stopped, running, after_read, to_read, transfer,
  first_chunk, fuel_for, collect,
}

below_itself : (n : ℕ) → ltb_ℤ (pos n) (pos n) ≡ false
below_itself n = ground arith

module _ (s : SerialPort) where
  open s use {Port, read, pending, read_at_most, read_in_order}

  -- A capture of `n` bytes of `stream` ended: with exactly the first `n` bytes, or, stopped by three
  -- time-outs, with fewer bytes, after which the port still has the rest.
  abbrev pub Ends : ℕ → Bytes → TransferEnd s → Type 0
  Ends n stream (complete t) = (t.file ≡ take n stream) × (length t.file ≡ n)
  Ends n stream (stopped t) = (t.file ++ pending t.port ≡ stream) × (length t.file < n)
  Ends n stream (running t) = ⊥

  record Keeps (n : ℕ) (stream : Bytes) (t : Transfer s) : Type 0 where
    counted : t.collected ≡ length t.file
    order : t.file ++ pending t.port ≡ stream
    within : t.collected ≤ n
    patient : t.consecutive_timeouts < 3

  Ends-complete :
      (n : ℕ) (stream : Bytes) (t : Transfer s)
      → Keeps n stream t
      → n ≤ t.collected
      → Ends n stream (complete t)
  Ends-complete n stream t h full =
      let exact : length t.file ≡ n = omega (arith, h.counted, h.within) in
      (sym (take-append n t.file (pending t.port) exact) ∙ ap (take n) h.order, exact)

  Ends-after_read :
      (n : ℕ) (stream : Bytes) (t : Transfer s) (next : Transfer s → TransferEnd s) (fuel : ℕ)
      (r : Bytes × Port)
      → Keeps n stream t
      → t.collected < n
      → length r.0 ≤ n - t.collected
      → r.0 ++ pending r.1 ≡ pending t.port
      → 3 * (n - t.collected) + 3 ≤ suc fuel + t.consecutive_timeouts
      → ((t₁ : Transfer s)
          → Keeps n stream t₁
          → 3 * (n - t₁.collected) + 3 ≤ fuel + t₁.consecutive_timeouts
          → Ends n stream (next t₁))
      → Ends n stream (after_read s t next r)
  Ends-after_read n stream t next fuel ([], port) h less few same enough go =
      let kept : t.file ++ pending port ≡ stream = ap (λ b. t.file ++ b) same ∙ h.order in
      elim (Bool-cases (leb 3 (t.consecutive_timeouts + 1))) [
        | inl third ↦ rw third (kept, omega (arith, h.counted))
        | inr again ↦
            let t₁ : Transfer s = record t {
              consecutive_timeouts = t.consecutive_timeouts + 1;
              port = port;
            } in
            let h₁ : Keeps n stream t₁ = record {
              counted = h.counted;
              order = kept;
              within = h.within;
              patient = ground arith;
            } in
            rw again (go t₁ h₁ (omega arith))
      ]
  Ends-after_read n stream t next fuel (c ∷ more, port) h less few same enough go =
      let t₁ : Transfer s = record {
        file = t.file ++ c ∷ more;
        collected = t.collected + length (c ∷ more);
        consecutive_timeouts = 0;
        port = port;
      } in
      go t₁
        (record {
          counted = omega (arith, h.counted, length-append t.file (c ∷ more));
          order =
              append_assoc t.file (c ∷ more) (pending port) ∙ ap (λ b. t.file ++ b) same ∙ h.order;
          within = omega arith;
          patient = omega arith;
        })
        (omega (arith, h.patient))

  Ends-transfer :
      (fuel n : ℕ) (stream : Bytes) (t : Transfer s)
      → Keeps n stream t
      → 3 * (n - t.collected) + 3 ≤ fuel + t.consecutive_timeouts
      → Ends n stream (transfer s fuel (pos n) t)
  unfolding transfer
  Ends-transfer zero n stream t h enough = absurd (omega (arith, h.patient))
  Ends-transfer (suc fuel) n stream t h enough =
      elim (Bool-cases (ltb_ℤ (pos t.collected) (pos n))) [
        | inr full ↦ rw (transfer, full) (Ends-complete n stream t h (ground arith))
        | inl less ↦
            let below : t.collected < n = ground arith in
            let asked = read_at_most (to_read s (pos n) t) t.port in
            rw (transfer, less)
              (Ends-after_read n stream t (λ t₁. transfer s fuel (pos n) t₁) fuel
                (read (to_read s (pos n) t) t.port) h below (omega (arith, asked))
                (read_in_order (to_read s (pos n) t) t.port) enough (Ends-transfer fuel n stream))
      ]

  transfer_done :
      (fuel : ℕ) (target : ℤ) (t : Transfer s)
      → ltb_ℤ (pos t.collected) target ≡ false
      → transfer s fuel target t ≡ complete t
  unfolding transfer
  transfer_done zero target t full = rw (transfer, full)
  transfer_done (suc fuel) target t full = rw (transfer, full)

  -- For a target that is not negative, and whatever the port does, the collection ends: with exactly the
  -- first `n` of the bytes behind the marker and those that the port delivers, or, after three reads in
  -- a row without a byte, with fewer, none of them lost or out of order.
  pub collect-Ends :
      (n : ℕ) (initial : Bytes) (port : Port)
      → Ends n (initial ++ pending port) (collect s (pos n) initial port)
  unfolding collect
  collect-Ends n initial port = elim (Bool-cases (leb n (length initial))) [
    | inr short ↦
        let less : length initial ≤ n = ground arith in
        let all = take_all n initial less in
        Ends-transfer (fuel_for (pos n)) n (initial ++ pending port)
          (first_chunk s (pos n) initial port)
          (record {
            counted = refl;
            order = ap (λ b. b ++ pending port) all;
            within = omega (arith, length-take n initial);
            patient = omega arith;
          })
          (omega arith)
    | inl long ↦
        let enough : n ≤ length initial = ground arith in
        let exact : length (take n initial) ≡ n = omega (arith, length-take n initial) in
        let first = first_chunk s (pos n) initial port in
        let full : ltb_ℤ (pos first.collected) (pos n) ≡ false = rw exact (below_itself n) in
        rw (transfer_done (fuel_for (pos n)) (pos n) first full)
          (sym (take-append_long n initial (pending port) enough), exact)
  ]
