-- ===== src/Aeb/Collector/Delivery.antt =====
-- aeb_collector.py, main: a whole upload. RAW_BEGIN, the chunks of raw bytes and of jitter in any order
-- and with repetitions, and RAW_END.
use wireless_boot_entropy_ze.Aeb.Collector.Firmware.{
  Arrival, arrives, Part, begin_message, part_message, raw_of, jitter_of, with_parts, end_message,
  CanBeSent, part_events, contents,
}
use wireless_boot_entropy_ze.Base.{
  joined, ℕ, ◌+◌, ◌<◌, ◌≡◌, refl, ap, ◌∙◌, Bool, true, Option, none, some, List, ◌∷◌, ◌++◌, All,
  length, nat_eq, pair_eq,
}
use wireless_boot_entropy_ze.Base.Int.{pos, ltb_ℤ, int_eq}
use wireless_boot_entropy_ze.Python.Result.{Result, ok, err, ok-injective}
use wireless_boot_entropy_ze.Python.Struct.{Bytes}
use wireless_boot_entropy_ze.Python.Text.{Text, text_eq}
use wireless_boot_entropy_ze.Python.Dict.{lookup, erase, lookup-erase, beq_refl}
use wireless_boot_entropy_ze.Aeb.Trial.{Peer, StateKey, TrialState, Disk}
use wireless_boot_entropy_ze.Aeb.Finalize.{finalize_trial, pack_jitter}
use wireless_boot_entropy_ze.Aeb.Finalize.Reassembly.{
  receive, AreOf, DeliversBelow, receive-HoldsFrom,
}
use wireless_boot_entropy_ze.Aeb.Finalize.Whole.{IsWhole, JitterPacks, finalize_trial-IsWhole}
use wireless_boot_entropy_ze.Aeb.Stimulus.{Args}
use wireless_boot_entropy_ze.Aeb.Collector.{
  Collector, Event, put_state, close_trial, after_finalize, run,
}
use wireless_boot_entropy_ze.Aeb.Collector.Arrivals.{
  Open, at_time, put_state-Open, run-arrives, target_ahead, run-parts, handle_open-begin,
  handle_open-end,
}

after_finalize_complete :
    (key : StateKey) (state : TrialState) (c : Collector) (r : Result Bool × Disk)
    → r.0 ≡ ok true
    → after_finalize key state c r
      ≡ (ok tt, record c { states = erase key c.states; completed = c.completed + 1; disk = r.1 })
unfolding after_finalize
after_finalize_complete key state c (ok b, disk) h = rw (ok-injective h)
after_finalize_complete key state c (err e, disk) h = cc

-- How an upload of one open trial is made: RAW_BEGIN, the chunks as they arrive, RAW_END.
pub record Upload (peer : Peer) (trial : ℕ) (cs : List Bytes) : Type 0 where
  pub nonce : Bytes
  pub interval : ℕ
  pub begin : Arrival (Unit {0})
  pub arrivals : List (Arrival Part)
  pub end : Arrival (Unit {0})
  pub begin_fits : CanBeSent (begin_message trial nonce interval cs)
  pub parts_fit :
      All (λ part. CanBeSent (part_message trial nonce interval part)) (contents arrivals)
  pub end_fits : CanBeSent (end_message trial nonce interval cs)
  -- Each delivery of raw bytes is one of the chunks under its number, and each number is delivered.
  pub are_chunks : AreOf cs (raw_of (contents arrivals))
  pub all_delivered : DeliversBelow (length cs) (raw_of (contents arrivals))
  pub not_empty : 0 < length (joined cs)

abbrev pub upload_events :
    {peer : Peer} {trial : ℕ} {cs : List Bytes} → Upload peer trial cs → List Event → List Event
upload_events {peer} {trial} {cs} u rest =
    arrives peer (begin_message trial u.nonce u.interval cs) u.begin.time u.begin.draws
    ∷ (part_events peer trial u.nonce u.interval u.arrivals
        ++ arrives peer (end_message trial u.nonce u.interval cs) u.end.time u.end.draws ∷ rest)

module _ (sha256_hex : Bytes → Text) (args : Args) (fixed : Option Bytes) {peer : Peer} {trial : ℕ}
    {cs : List Bytes} (u : Upload peer trial cs) where
  abbrev key_of : StateKey
  key_of = (peer, pos trial)

  abbrev announced : TrialState → TrialState
  announced state = record state {
    raw_chunks_expected = some (length cs);
    raw_len = some (length (joined cs));
  }

  abbrev delivered : TrialState → TrialState
  delivered state = with_parts (contents u.arrivals) (announced state)

  abbrev end_event : Event
  end_event = arrives peer (end_message trial u.nonce u.interval cs) u.end.time u.end.draws

  -- RAW_BEGIN announces the number and the length.
  run-begin :
      (state : TrialState) (c : Collector) (rest : List Event)
      → lookup key_of c.states ≡ some state
      → ltb_ℤ (pos c.completed) args.trials ≡ true
      → (c₁ : Collector) × Open key_of (announced state) c c₁
        × (run sha256_hex args fixed
              (arrives peer (begin_message trial u.nonce u.interval cs) u.begin.time u.begin.draws
                ∷ rest)
              c
            ≡ run sha256_hex args fixed rest c₁)
  run-begin state c rest found more =
      let c₁ = put_state key_of (announced state) (at_time u.begin.time c) in
      (
        c₁,
        put_state-Open key_of state (announced state) c c u.begin.time
            (record { found = found; disk = refl; completed = refl }),
        run-arrives sha256_hex args fixed peer (begin_message trial u.nonce u.interval cs)
            u.begin.time u.begin.draws state rest c c₁ u.begin_fits.0 u.begin_fits.1 u.begin_fits.2
            refl found more
            (handle_open-begin sha256_hex args fixed peer trial u.nonce u.interval cs state _),
      )

  delivered-IsWhole : (state : TrialState) → IsWhole cs (delivered state)
  delivered-IsWhole state = record {
    announced_chunks = refl;
    announced_len = refl;
    not_empty = u.not_empty;
    held =
        receive-HoldsFrom cs (raw_of (contents u.arrivals)) state.raw_chunks u.are_chunks
          u.all_delivered;
  }

  -- RAW_END closes the trial, and counts it.
  run-end :
      (state : TrialState) (c c₂ : Collector) (rest : List Event)
      → Open key_of (delivered state) c c₂
      → JitterPacks (delivered state)
      → ltb_ℤ (pos c.completed) args.trials ≡ true
      → (c₃ : Collector) × (run sha256_hex args fixed (end_event ∷ rest) c₂
          ≡ run sha256_hex args fixed rest c₃)
        × (c₃.disk.all_bin ≡ c.disk.all_bin ++ joined cs)
        × (c₃.completed ≡ c.completed + 1)
        × (lookup key_of c₃.states ≡ none)
  unfolding close_trial
  run-end state c c₂ rest open₂ packs more =
      let c₂' = at_time u.end.time c₂ in
      let (done, grown) =
        finalize_trial-IsWhole sha256_hex cs (delivered state) c₂'.disk (delivered-IsWhole state)
          packs in
      let c₃ = record c₂' {
        states = erase key_of c₂'.states;
        completed = c₂'.completed + 1;
        disk = (finalize_trial sha256_hex (delivered state) c₂'.disk).1;
      } in
      (
        c₃,
        run-arrives sha256_hex args fixed peer (end_message trial u.nonce u.interval cs) u.end.time
            u.end.draws (delivered state) rest c₂ c₃ u.end_fits.0 u.end_fits.1 u.end_fits.2 refl
            open₂.found
            (target_ahead sha256_hex args fixed peer trial u.nonce u.interval open₂ more)
            (handle_open-end sha256_hex args fixed peer trial u.nonce u.interval cs
                (delivered state) c₂'
              ∙ after_finalize_complete key_of (delivered state) c₂' _ done),
        grown ∙ ap (λ (d : Disk). d.all_bin ++ joined cs) open₂.disk,
        ap (λ n. n + 1) open₂.completed,
        rw (lookup-erase key_of key_of c₂.states, beq_refl key_of),
      )

  -- An upload of an open trial, while the target is not reached, is stored whole: whatever the
  -- order of the chunks of raw bytes and of jitter between RAW_BEGIN and RAW_END, and however often
  -- each of them comes, each of raw bytes at least once, the stream of raw bytes grows by the bytes
  -- that were cut, the trial is counted and closed, and the loop goes on. The sample is not empty, each
  -- datagram fits one call of `recvfrom`, and the jitter that was received, with the one of the upload,
  -- packs.
  pub run-upload :
      (state : TrialState) (c : Collector) (rest : List Event)
      → lookup (peer, pos trial) c.states ≡ some state
      → JitterPacks (record state {
        jitter_chunks = receive (jitter_of (contents u.arrivals)) state.jitter_chunks;
      })
      → ltb_ℤ (pos c.completed) args.trials ≡ true
      → (c' : Collector) × (run sha256_hex args fixed (upload_events u rest) c
          ≡ run sha256_hex args fixed rest c')
        × (c'.disk.all_bin ≡ c.disk.all_bin ++ joined cs)
        × (c'.completed ≡ c.completed + 1)
        × (lookup (peer, pos trial) c'.states ≡ none)
  unfolding pack_jitter
  run-upload state c rest found packs more =
      let (c₁, open₁, began) =
        run-begin state c (part_events peer trial u.nonce u.interval u.arrivals ++ end_event ∷ rest)
          found more in
      let (c₂, open₂, parts) =
        run-parts sha256_hex args fixed peer trial u.nonce u.interval u.arrivals (announced state)
          (end_event ∷ rest) c c₁ u.parts_fit open₁ more in
      let (c₃, ended, grown, counted, closed) = run-end state c c₂ rest open₂ packs more in
      (c₃, began ∙ parts ∙ ended, grown, counted, closed)
