-- ===== src/Aeb/Collector/Invariant.antt =====
-- What the loop keeps, whatever arrives and also where it ends by an exception.
use wireless_boot_entropy_ze.Base.{
  take, ℕ, ◌+◌, ◌<◌, ◌≡◌, ap, sym, ◌∙◌, Bool, Option, none, some, List, [], ◌∷◌, ◌++◌, arith,
  Bool-cases, inl, inr, if◌then◌else◌, map, All, All-append, All-mono, pair_eq, nat_eq,
}
use wireless_boot_entropy_ze.Base.Int.{pos, ltb_ℤ, int_eq}
use wireless_boot_entropy_ze.Python.Result.{Result, ok, err, Result-cases}
use wireless_boot_entropy_ze.Python.Struct.{Bytes}
use wireless_boot_entropy_ze.Python.Text.{Text, text_eq}
use wireless_boot_entropy_ze.Python.Dict.{
  AllValues, AllValues-insert, AllValues-erase, AllValues-lookup, AllValues-mono,
}
use wireless_boot_entropy_ze.Aeb.Wire.{Message}
use wireless_boot_entropy_ze.Aeb.Trial.{Peer, StateKey, Time, TrialState, Row, Disk}
use wireless_boot_entropy_ze.Aeb.Finalize.{finalize_trial}
use wireless_boot_entropy_ze.Aeb.Finalize.Streams.{StreamsMatch, finalize_trial-StreamsMatch}
use wireless_boot_entropy_ze.Aeb.Finalize.Reports.{Reports, finalize_trial-Reports}
use wireless_boot_entropy_ze.Aeb.Stimulus.{Args, Draws, send_stimulus}
use wireless_boot_entropy_ze.Aeb.Collector.Cases.{handle_datagram_cases}
use wireless_boot_entropy_ze.Aeb.Collector.{
  recv_size, Collector, Event, received, timeout, interrupt, Exit, put_state, with_end,
  after_finalize, close_trial, handle_hello, handle_datagram, exit_of, go_on, step, run,
  start_nonce_of,
}

-- The lines of the table that say "True" under `complete`.
abbrev pub complete_rows : List Row → ℕ
complete_rows [] = 0
complete_rows (row ∷ rows) = (if row.complete then 1 else 0) + complete_rows rows

abbrev pub IdBelow : ℕ → TrialState → Type 0
IdBelow n state = state.capture_id < n

abbrev pub RowBelow : ℕ → Row → Type 0
RowBelow n row = row.capture_id < n

pub record IsConsistent (c : Collector) : Type 0 where
  pub streams : StreamsMatch c.disk
  pub counted : c.completed ≡ complete_rows c.disk.rows
  pub open_ids : AllValues (IdBelow c.capture_counter) c.states
  pub row_ids : All (RowBelow c.capture_counter) c.disk.rows

complete_rows-append :
    (rows : List Row) (row : Row)
    → complete_rows (rows ++ row ∷ []) ≡ complete_rows rows + (if row.complete then 1 else 0)
complete_rows-append [] row = omega arith
complete_rows-append (r ∷ rows) row = omega (arith, complete_rows-append rows row)

counted_after :
    (n : ℕ) (complete : Bool) (rows : List Row) (row : Row)
    → row.complete ≡ complete
    → n ≡ complete_rows rows
    → (if complete then n + 1 else n) ≡ complete_rows (rows ++ row ∷ [])
counted_after n complete rows row e h = ground (arith, complete_rows-append rows row)

put_state-IsConsistent :
    (key : StateKey) (state : TrialState) (c : Collector)
    → state.capture_id < c.capture_counter
    → IsConsistent c
    → IsConsistent (put_state key state c)
put_state-IsConsistent key state c p h = record {
  streams = h.streams;
  counted = h.counted;
  open_ids = AllValues-insert (IdBelow c.capture_counter) key state c.states p h.open_ids;
  row_ids = h.row_ids;
}

after_finalize-IsConsistent :
    (key : StateKey) (state : TrialState) (c : Collector) (r : Result Bool × Disk)
    → state.capture_id < c.capture_counter
    → IsConsistent c
    → StreamsMatch r.1
    → Reports state.capture_id c.disk.rows r
    → IsConsistent (after_finalize key state c r).1
unfolding after_finalize
after_finalize-IsConsistent key state c (err e, disk) p h s same = record {
  streams = s;
  counted = rw same h.counted;
  open_ids = (put_state-IsConsistent key state c p h).open_ids;
  row_ids = rw same h.row_ids;
}
after_finalize-IsConsistent key state c (ok complete, disk) p h s (row, grown, agrees, id) =
    record {
      streams = s;
      counted =
          counted_after c.completed complete c.disk.rows row agrees h.counted
          ∙ ap complete_rows (sym grown);
      open_ids = AllValues-erase (IdBelow c.capture_counter) key c.states h.open_ids;
      row_ids = rw grown (All-append _ c.disk.rows (row ∷ []) h.row_ids (rw id p, tt));
    }

-- The stimulus writes one file, of no stream, and no line.
send_stimulus-disk :
    (sha256_hex : Bytes → Text) (args : Args) (msg : Message) (nonce : Bytes) (peer : Peer) (id : ℕ)
    (hello_time : Time) (draws : Draws) (disk : Disk)
    → StreamsMatch disk
    → let (result, packets, after) =
        send_stimulus sha256_hex args msg nonce peer id hello_time draws disk in
      StreamsMatch after × (after.rows ≡ disk.rows)
unfolding send_stimulus
send_stimulus-disk sha256_hex args msg nonce peer id hello_time draws disk h = ground arith

-- A trial that HELLO opens has the capture id that it was given.
send_stimulus-capture_id :
    (sha256_hex : Bytes → Text) (args : Args) (msg : Message) (nonce : Bytes) (peer : Peer) (id : ℕ)
    (hello_time : Time) (draws : Draws) (disk : Disk) {state : TrialState}
    → (send_stimulus sha256_hex args msg nonce peer id hello_time draws disk).0 ≡ ok state
    → state.capture_id ≡ id
unfolding send_stimulus
send_stimulus-capture_id sha256_hex args msg nonce peer id hello_time draws disk h = ground arith

-- The next capture id is given out, and no line is added.
next_capture-IsConsistent :
    (c : Collector) (disk : Disk) (sent : List (Peer × Bytes))
    → IsConsistent c
    → StreamsMatch disk
    → disk.rows ≡ c.disk.rows
    → IsConsistent (record c { capture_counter = c.capture_counter + 1; disk = disk; sent = sent })
next_capture-IsConsistent c disk sent h streams rows = record {
  streams = streams;
  counted = rw rows h.counted;
  open_ids = AllValues-mono (IdBelow c.capture_counter) _ (λ s p. omega arith) c.states h.open_ids;
  row_ids =
      rw rows (All-mono (RowBelow c.capture_counter) _ (λ r p. omega arith) c.disk.rows h.row_ids);
}

exit_of-IsConsistent :
    (r : Result (Unit {0}) × Collector) → IsConsistent r.1 → IsConsistent (exit_of r).1
exit_of-IsConsistent (ok done, c) h = h
exit_of-IsConsistent (err e, c) h = h

go_on-IsConsistent :
    (round : Option Exit × Collector) (rest : Collector → Exit × Collector)
    → IsConsistent round.1
    → ((c : Collector) → IsConsistent c → IsConsistent (rest c).1)
    → IsConsistent (go_on round rest).1
go_on-IsConsistent (some exit, c) rest h keep = h
go_on-IsConsistent (none, c) rest h keep = keep c h

module _ (sha256_hex : Bytes → Text) where
  close_trial-IsConsistent :
      (key : StateKey) (state : TrialState) (c : Collector)
      → state.capture_id < c.capture_counter
      → IsConsistent c
      → IsConsistent (close_trial sha256_hex key state c).1
  close_trial-IsConsistent key state c p h =
      unfold close_trial in
      after_finalize-IsConsistent key state c (finalize_trial sha256_hex state c.disk) p h
        (finalize_trial-StreamsMatch sha256_hex state c.disk h.streams)
        (finalize_trial-Reports sha256_hex state c.disk)

  module _ (args : Args) (fixed : Option Bytes) where
    handle_hello-IsConsistent :
        (msg : Message) (peer : Peer) (rx_time : Time) (draws : Draws) (c : Collector)
        → IsConsistent c
        → IsConsistent (handle_hello sha256_hex args fixed msg peer rx_time draws c).1
    unfolding handle_hello
    handle_hello-IsConsistent msg peer rx_time draws c h =
        let nonce = start_nonce_of sha256_hex args fixed msg in
        let reply =
          send_stimulus sha256_hex args msg nonce peer c.capture_counter rx_time draws c.disk in
        let (streams, rows) =
          send_stimulus-disk sha256_hex args msg nonce peer c.capture_counter rx_time draws c.disk
            h.streams in
        let h₁ =
          next_capture-IsConsistent c reply.2 (c.sent ++ map (λ packet. (peer, packet)) reply.1) h
            streams rows in
        Result-cases reply.0 _
          (λ state e.
            let id =
              send_stimulus-capture_id sha256_hex args msg nonce peer c.capture_counter rx_time
                draws c.disk e in
            rw (handle_hello, e)
              (put_state-IsConsistent (peer, pos msg.trial) state _ (omega (arith, id)) h₁))
          (λ raised e. rw (handle_hello, e) h₁)

    handle_datagram-IsConsistent :
        (buffer : Bytes) (peer : Peer) (rx_time : Time) (draws : Draws) (c : Collector)
        → IsConsistent c
        → IsConsistent (handle_datagram sha256_hex args fixed buffer peer rx_time draws c).1
    handle_datagram-IsConsistent buffer peer rx_time draws c h =
        let c₁ = record c { last_rx = rx_time } in
        let h₁ : IsConsistent c₁ = record {
          streams = h.streams;
          counted = h.counted;
          open_ids = h.open_ids;
          row_ids = h.row_ids;
        } in
        handle_datagram_cases (λ r. IsConsistent r.1) sha256_hex args fixed peer rx_time draws c
          buffer (λ e. h₁)
          (λ trial state state' found same.
            put_state-IsConsistent (peer, trial) state' c₁
              (rw same (
                AllValues-lookup (IdBelow c.capture_counter) (peer, trial) c.states h.open_ids
                  found))
              h₁)
          (λ msg state found.
            close_trial-IsConsistent (peer, pos msg.trial) (with_end msg state) c₁
              (AllValues-lookup (IdBelow c.capture_counter) (peer, pos msg.trial) c.states
                h.open_ids found)
              h₁)
          (λ msg. handle_hello-IsConsistent msg peer rx_time draws c₁ h₁) h₁

    step-IsConsistent :
        (event : Event) (c : Collector)
        → IsConsistent c
        → IsConsistent (step sha256_hex args fixed event c).1
    unfolding step
    step-IsConsistent (received buffer peer rx_time draws) c h =
        exit_of-IsConsistent _
          (handle_datagram-IsConsistent (take recv_size buffer) peer rx_time draws c h)
    step-IsConsistent (timeout now) c h = h
    step-IsConsistent interrupt c h = h

    -- From a consistent state, whatever arrives, in whatever order, and however the loop ends, the
    -- state is consistent: each growing stream is the concatenation of the files written for it,
    -- the counter is the number of complete lines in the table, and every capture id in use was
    -- given out.
    pub run-IsConsistent :
        (events : List Event) (c : Collector)
        → IsConsistent c
        → IsConsistent (run sha256_hex args fixed events c).1
    unfolding run
    run-IsConsistent [] c h = h
    run-IsConsistent (event ∷ events) c h =
        elim (Bool-cases (ltb_ℤ (pos c.completed) args.trials)) [
          | inr reached ↦ rw (run, reached) h
          | inl open_target ↦
              rw (run, open_target)
                (go_on-IsConsistent _ _ (step-IsConsistent event c h) (run-IsConsistent events))
        ]
