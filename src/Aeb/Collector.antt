-- ===== src/Aeb/Collector.antt =====
-- aeb_collector.py: the loop of `main`, as a machine that is fed one event at a time.
pub mod Cases
pub mod Invariant
pub mod Firmware
pub mod Arrivals
pub mod Delivery
pub mod Reports
pub mod Session
pub mod Target
pub mod Isolation
use Prim.Native.String.{String}
use wireless_boot_entropy_ze.Base.{
  ℕ, ◌+◌, Bool, true, false, Option, none, some, List, [], ◌∷◌, ◌++◌, map, ◌==◌, if◌then◌else◌,
  take, nat_eq, pair_eq,
}
use wireless_boot_entropy_ze.Base.Int.{ℤ, pos, negsuc, int_eq, ltb_ℤ, sub_ℕ}
use wireless_boot_entropy_ze.Python.Result.{Error, Result, ok, err}
use wireless_boot_entropy_ze.Python.Struct.{Bytes}
use wireless_boot_entropy_ze.Python.Text.{Text, text_eq, codes}
use wireless_boot_entropy_ze.Python.Numbers.{parse_int}
use wireless_boot_entropy_ze.Python.Dict.{Dict, lookup, insert, erase, update}
use wireless_boot_entropy_ze.Aeb.Wire.{
  Message, parse_message, type_hello, type_raw_begin, type_raw_chunk, type_raw_end,
  type_jitter_chunk,
}
use wireless_boot_entropy_ze.Aeb.ResultLine.{Fields, parse_result_line}
use wireless_boot_entropy_ze.Aeb.Trial.{Peer, StateKey, Time, TrialState, Disk}
use wireless_boot_entropy_ze.Aeb.Finalize.{finalize_trial}
use wireless_boot_entropy_ze.Aeb.Stimulus.{Args, Draws, send_stimulus}

-- The variables of the loop, the files, and the packets sent so far.
pub record Collector : Type 0 where
  pub states : Dict StateKey TrialState
  pub completed : ℕ
  pub capture_counter : ℕ
  pub last_rx : Time
  pub disk : Disk
  pub sent : List (Peer × Bytes)

-- What a call of `recvfrom` meets: a datagram and the draws that its handling makes, a timeout and
-- the time read after it, or Ctrl-C.
pub data Event : Type 0 where
  received : Bytes → Peer → Time → Draws → Event
  timeout : Time → Event
  interrupt : Event

pub data Exit : Type 0 where
  -- the target is reached; no traffic; Ctrl-C; an exception that nothing catches
  finished idle_timeout interrupted : Exit
  raised : Error → Exit
  -- the events given are used up, and the loop still runs
  running : Exit

-- `sock.recvfrom(4096)`
abbrev pub recv_size : ℕ
recv_size = 4096

abbrev pub put_state : StateKey → TrialState → Collector → Collector
put_state key state c = record c { states = insert key state c.states }

-- `int(result.get("trial", "-1"))`
unfoldable pub result_trial : Fields → Result ℤ
result_trial result = elim (lookup (codes "trial") result) [
  | none ↦ ok (negsuc 0)
  | some text ↦ parse_int text
]

-- A result line of a trial that is open; any other is dropped.
unfoldable pub handle_result : Fields → Peer → Time → Collector → Result (Unit {0}) × Collector
unfolding result_trial
handle_result result peer rx_time c = elim (result_trial result) [
  | err e ↦ (err e, c)
  | ok trial ↦ elim (lookup (peer, trial) c.states) [
    | none ↦ (ok tt, c)
    | some state ↦ (
      ok tt,
      put_state (peer, trial)
          (record state { result = update result state.result; result_time = some rx_time }) c,
    )
  ]
]

-- `if state.raw_chunks_expected is None: ...`, and the same for the length.
abbrev pub or_value : Option ℕ → ℕ → Option ℕ
or_value none n = some n
or_value (some m) n = some m

abbrev pub with_end : Message → TrialState → TrialState
with_end msg state = record state {
  raw_chunks_expected = or_value state.raw_chunks_expected msg.seq_or_count;
  raw_len = or_value state.raw_len msg.sample_bytes;
}

-- After `finalize_trial`: the trial leaves the table of states, unless an exception is on its way.
unfoldable pub after_finalize :
    StateKey → TrialState → Collector → Result Bool × Disk → Result (Unit {0}) × Collector
after_finalize key state c (err e, disk) = (err e, record (put_state key state c) { disk = disk })
after_finalize key state c (ok complete, disk) = (
  ok tt,
  record c {
    states = erase key c.states;
    completed = if complete then c.completed + 1 else c.completed;
    disk = disk;
  },
)

-- The loop goes on where no round ended it.
abbrev pub go_on : Option Exit × Collector → (Collector → Exit × Collector) → Exit × Collector
go_on (some exit, c) rest = (exit, c)
go_on (none, c) rest = rest c

-- An exception of a handler ends the loop.
abbrev pub exit_of : Result (Unit {0}) × Collector → Option Exit × Collector
exit_of (err e, c) = (some (raised e), c)
exit_of (ok _, c) = (none, c)

module _ (sha256_hex : Bytes → Text) where
  -- RAW_END
  unfoldable pub close_trial : StateKey → TrialState → Collector → Result (Unit {0}) × Collector
  unfolding after_finalize
  close_trial key state c = after_finalize key state c (finalize_trial sha256_hex state c.disk)

  -- A message of a trial that is open.
  unfoldable pub handle_open :
      Message → StateKey → TrialState → Collector → Result (Unit {0}) × Collector
  unfolding close_trial
  handle_open msg key state c =
      let cut = take msg.sample_bytes msg.payload in
      if msg.msg_type == type_raw_begin
      then (
        ok tt,
        put_state key
            (record state {
              raw_chunks_expected = some msg.seq_or_count;
              raw_len = some msg.sample_bytes;
            })
            c,
      )
      else if msg.msg_type == type_raw_chunk
      then (
        ok tt,
        put_state key (record state { raw_chunks = insert msg.seq_or_count cut state.raw_chunks })
            c,
      )
      else if msg.msg_type == type_jitter_chunk
      then (
        ok tt,
        put_state key
            (record state { jitter_chunks = insert msg.seq_or_count cut state.jitter_chunks }) c,
      )
      else if msg.msg_type == type_raw_end
      then close_trial key (with_end msg state) c
      else (ok tt, c)

  module _ (args : Args) (fixed : Option Bytes) where
    abbrev pub start_nonce_of : Message → Bytes
    start_nonce_of msg = elim fixed [ none ↦ msg.nonce | some nonce ↦ nonce ]

    -- HELLO: a new capture, which replaces an open trial of the same peer and number.
    unfoldable pub handle_hello :
        Message → Peer → Time → Draws → Collector → Result (Unit {0}) × Collector
    handle_hello msg peer rx_time draws c =
        let (result, packets, disk) =
          send_stimulus sha256_hex args msg (start_nonce_of msg) peer c.capture_counter rx_time
            draws c.disk in
        let c₁ = record c {
          capture_counter = c.capture_counter + 1;
          disk = disk;
          sent = c.sent ++ map (λ packet. (peer, packet)) packets;
        } in
        elim result [
          | err e ↦ (err e, c₁)
          | ok state ↦ (ok tt, put_state (peer, pos msg.trial) state c₁)
        ]

    unfoldable pub handle_message :
        Message → Peer → Time → Draws → Collector → Result (Unit {0}) × Collector
    unfolding handle_hello handle_open
    handle_message msg peer rx_time draws c =
        let key : StateKey = (peer, pos msg.trial) in
        if msg.msg_type == type_hello
        then handle_hello msg peer rx_time draws c
        else elim (lookup key c.states) [
          | none ↦ (ok tt, c)
          | some state ↦ handle_open msg key state c
        ]

    -- One datagram: a result line first, then a message; anything else is dropped.
    unfoldable pub handle_datagram :
        Bytes → Peer → Time → Draws → Collector → Result (Unit {0}) × Collector
    unfolding handle_result handle_message
    handle_datagram buffer peer rx_time draws c =
        let c₁ = record c { last_rx = rx_time } in
        elim (parse_result_line buffer) [
          | some result ↦ handle_result result peer rx_time c₁
          | none ↦ elim (parse_message buffer) [
            | none ↦ (ok tt, c₁)
            | some msg ↦ handle_message msg peer rx_time draws c₁
          ]
        ]

    -- One round of the loop: `none` goes on. Of a datagram, `sock.recvfrom(4096)` gives 4096 bytes at most.
    unfoldable pub step : Event → Collector → Option Exit × Collector
    unfolding handle_datagram
    step (received buffer peer rx_time draws) c =
        exit_of (handle_datagram (take recv_size buffer) peer rx_time draws c)
    step (timeout now) c =
        (if ltb_ℤ args.idle_timeout (sub_ℕ now c.last_rx) then some idle_timeout else none, c)
    step interrupt c = (some interrupted, c)

    -- `while completed < args.trials`
    unfoldable pub run : List Event → Collector → Exit × Collector
    unfolding step
    run [] c = (if ltb_ℤ (pos c.completed) args.trials then running else finished, c)
    run (event ∷ events) c =
        if ltb_ℤ (pos c.completed) args.trials
        then go_on (step event c) (λ c₁. run events c₁)
        else (finished, c)
