-- ===== src/Aeb/Stimulus.antt =====
-- aeb_collector.py: `send_stimulus`, which answers a HELLO with a START and the BURST packets.
-- What the host's clock and random generators give is an argument, one draw for each packet.
pub mod Packets
use wireless_boot_entropy_ze.Base.{
  ℕ, zero, suc, ◌+◌, ◌%◌, Bool, Option, none, some, List, [], ◌∷◌, ◌++◌, if◌then◌else◌, replicate,
}
use wireless_boot_entropy_ze.Base.Int.{ℤ, pos, negsuc, ◌+ℤ◌, int_beq, ltb_ℤ, pos_part}
use wireless_boot_entropy_ze.Python.Result.{Result, ok, err, value_error}
use wireless_boot_entropy_ze.Python.Struct.{Bytes}
use wireless_boot_entropy_ze.Python.Text.{Text}
use wireless_boot_entropy_ze.Aeb.Wire.{Message, make_message, type_start, type_burst}
use wireless_boot_entropy_ze.Aeb.Finalize.{is_empty}
use wireless_boot_entropy_ze.Aeb.Trial.{
  Peer, Time, TrialState, stimulus, StimulusRow, stimulus_table, Disk, write_file,
}

pub data PayloadMode : Type 0 where
  constant counter random : PayloadMode

-- The arguments of the command line that the collector's loop reads.
pub record Args : Type 0 where
  pub trials : ℤ
  pub sample_bytes : Option ℤ
  pub bursts : Option ℤ
  pub interval_us : Option ℤ
  pub payload_bytes : ℤ
  pub payload_mode : PayloadMode
  pub interval_jitter_us : ℤ
  pub start_delay_ms : ℤ
  -- in microseconds
  pub idle_timeout : ℤ

-- What one HELLO draws: the time of START, and for each packet its time, its
-- `rng.randint(-jitter, jitter)` and its random payload.
pub record Draws : Type 0 where
  pub start_time : Time
  pub burst_time : ℕ → Time
  pub jitter : ℕ → ℤ
  pub random_payload : ℕ → Bytes

-- `override if override is not None else requested`
abbrev pub override : Option ℤ → ℕ → ℤ
override none requested = pos requested
override (some value) requested = value

-- `max(0, value)`
abbrev pub at_least_zero : ℤ → ℤ
at_least_zero (pos n) = pos n
at_least_zero (negsuc n) = pos 0

unfoldable pub sleep_of : Args → ℤ → ℤ → ℤ
sleep_of args interval_us drawn =
    if int_beq args.interval_jitter_us (pos 0)
    then interval_us
    else at_least_zero (interval_us +ℤ drawn)

-- `bytes((seq + i) & 0xFF for i in range(n))`
unfoldable pub counter_payload : ℕ → ℕ → Bytes
counter_payload zero next = []
counter_payload (suc n) next = (next % 256) ∷ counter_payload n (next + 1)

unfoldable pub payload_of : PayloadMode → ℕ → ℕ → Bytes → Bytes
unfolding counter_payload
payload_of random n seq drawn = drawn
payload_of counter n seq drawn = counter_payload n seq
payload_of constant n seq drawn = replicate n b'S'

-- The packets sent, and the table written, so far.
pub record Sent : Type 0 where
  pub packets : List Bytes
  pub table : List StimulusRow
  pub first_burst : Option Time
  pub last_burst : Option Time

abbrev pub nothing_sent : Sent
nothing_sent = record { packets = []; table = []; first_burst = none; last_burst = none }

abbrev first_of_times : Option Time → Time → Option Time
first_of_times none now = some now
first_of_times (some t) now = some t

module _ (sha256_hex : Bytes → Text) (args : Args) (msg : Message) (nonce : Bytes) where
  abbrev pub burst_count : ℤ
  burst_count = override args.bursts msg.seq_or_count

  abbrev pub burst_interval : ℤ
  burst_interval = override args.interval_us msg.interval_us

  abbrev pub requested_bytes : ℤ
  requested_bytes = override args.sample_bytes msg.sample_bytes

  -- The body of the loop at packet `seq`: a packet that cannot be packed is not sent.
  unfoldable pub send_burst : Draws → ℕ → Sent → Result (Unit {0}) × Sent
  unfolding sleep_of payload_of
  send_burst draws seq sent =
      let sleep_us = sleep_of args burst_interval (draws.jitter seq) in
      let payload =
        payload_of args.payload_mode (pos_part args.payload_bytes) seq (draws.random_payload seq) in
      let now = draws.burst_time seq in
      elim (make_message (pos type_burst) (pos msg.trial) (pos seq) sleep_us requested_bytes nonce
        payload) [
          | err e ↦ (err e, sent)
          | ok packet ↦ (
            ok tt,
            record {
              packets = sent.packets ++ packet ∷ [];
              table =
                  sent.table
                  ++ record {
                    seq = seq;
                    sleep_us = sleep_us;
                    payload = payload;
                    payload_sha256 = if is_empty payload then [] else sha256_hex payload;
                  }
                    ∷ [];
              first_burst = first_of_times sent.first_burst now;
              last_burst = some now;
            },
          )
        ]

  -- `for seq in range(...)`, with the number of packets that are left.
  unfoldable pub send_bursts : Draws → ℕ → ℕ → Sent → Result (Unit {0}) × Sent
  unfolding send_burst
  send_bursts draws zero seq sent = (ok tt, sent)
  send_bursts draws (suc n) seq sent =
      let (result, sent₁) = send_burst draws seq sent in
      elim result [ err e ↦ (err e, sent₁) | ok _ ↦ send_bursts draws n (seq + 1) sent₁ ]

  -- The state of the new trial.
  unfoldable pub new_trial : Peer → ℕ → Time → Draws → Sent → TrialState
  new_trial peer capture_id hello_time draws sent = record {
    capture_id = capture_id;
    peer = peer;
    protocol_trial = msg.trial;
    hello_nonce = msg.nonce;
    start_nonce = nonce;
    bursts = burst_count;
    interval_us = burst_interval;
    requested_sample_bytes = requested_bytes;
    raw_chunks_expected = none;
    raw_len = none;
    raw_chunks = [];
    jitter_chunks = [];
    result = [];
    hello_time = hello_time;
    start_send_time = some draws.start_time;
    first_burst_send_time = sent.first_burst;
    last_burst_send_time = sent.last_burst;
    result_time = none;
  }

  -- After START: the delay, the packets and the table of the schedule.
  unfoldable pub send_schedule :
      Peer → ℕ → Time → Draws → Disk → Result TrialState × List Bytes × Disk
  unfolding send_bursts new_trial
  send_schedule peer capture_id hello_time draws disk =
      let (result, sent) = send_bursts draws (pos_part burst_count) 0 nothing_sent in
      let disk₁ = write_file (stimulus capture_id) (stimulus_table sent.table) disk in
      if ltb_ℤ args.start_delay_ms (pos 0) then (err value_error, [], disk) else elim result [
        | err e ↦ (err e, sent.packets, disk₁)
        | ok _ ↦ (ok (new_trial peer capture_id hello_time draws sent), sent.packets, disk₁)
      ]

  -- The packets are those sent to the peer, START first.
  unfoldable pub send_stimulus :
      Peer → ℕ → Time → Draws → Disk → Result TrialState × List Bytes × Disk
  unfolding send_schedule
  send_stimulus peer capture_id hello_time draws disk =
      let (result, packets, disk₁) = send_schedule peer capture_id hello_time draws disk in
      elim (make_message (pos type_start) (pos msg.trial) burst_count burst_interval requested_bytes
        nonce []) [ err e ↦ (err e, [], disk) | ok start ↦ (result, start ∷ packets, disk₁) ]
