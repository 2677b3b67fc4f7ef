-- ===== src/Tests/Inputs.antt =====
-- A collector with one open trial, the messages of its upload, and decisions for what they need.
use wireless_boot_entropy_ze.Aeb.Collector.Firmware.{CanBeSent}
use wireless_boot_entropy_ze.Base.{
  ◌+◌, ◌^◌, ◌≡◌, refl, Bool, true, ◌&&◌, none, some, List, [], ◌∷◌, arith, ltb, leb, ◌==◌, length,
  replicate,
}
use wireless_boot_entropy_ze.Base.Int.{pos}
use wireless_boot_entropy_ze.Python.Struct.{Bytes, AreBytes, le_bytes}
use wireless_boot_entropy_ze.Python.Text.{Text, codes}
use wireless_boot_entropy_ze.Aeb.Wire.{Message, type_hello}
use wireless_boot_entropy_ze.Aeb.Wire.RoundTrip.{wire_bytes}
use wireless_boot_entropy_ze.Aeb.Trial.{Peer, TrialState, Disk}
use wireless_boot_entropy_ze.Aeb.Stimulus.{Args, Draws, counter}
use wireless_boot_entropy_ze.Aeb.Collector.{Collector, recv_size}

unfoldable pub are_bytes : Bytes → Bool
are_bytes [] = true
are_bytes (b ∷ bs) = ltb b 256 && are_bytes bs

pub are_bytes-AreBytes : (bs : Bytes) → are_bytes bs ≡ true → AreBytes bs
unfolding are_bytes
are_bytes-AreBytes [] h = tt
are_bytes-AreBytes (b ∷ bs) h =
    let tail : are_bytes bs ≡ true = ground arith in (ground arith, are_bytes-AreBytes bs tail)

unfoldable pub fits : Message → Bool
unfolding are_bytes
fits m =
    ltb m.msg_type (256 ^ 2)
    && ltb m.trial (256 ^ 4)
    && ltb m.seq_or_count (256 ^ 4)
    && ltb m.interval_us (256 ^ 4)
    && ltb m.sample_bytes (256 ^ 4)
    && (length m.nonce == 16)
    && are_bytes (wire_bytes m)
    && leb (length (wire_bytes m)) recv_size

pub fits-CanBeSent : (m : Message) → fits m ≡ true → CanBeSent m
unfolding fits
fits-CanBeSent m h =
    let bytes : are_bytes (wire_bytes m) ≡ true = ground arith in
    (
      record {
        type_fits = ground arith;
        trial_fits = ground arith;
        seq_fits = ground arith;
        interval_fits = ground arith;
        sample_fits = ground arith;
        nonce_fits = ground arith;
      },
      are_bytes-AreBytes (wire_bytes m) bytes,
      ground arith,
    )

abbrev pub nonce : Bytes
nonce = replicate 16 7

abbrev pub hello : Message
hello = record {
  msg_type = type_hello;
  trial = 1;
  seq_or_count = 3;
  interval_us = 1000;
  sample_bytes = 8;
  nonce = nonce;
  payload = [];
}

pub hello-CanBeSent : CanBeSent hello
unfolding fits le_bytes
hello-CanBeSent = fits-CanBeSent hello refl

abbrev pub peer : Peer
peer = (codes "192.168.4.2", 4300)

-- For a digest.
abbrev pub no_digest : Bytes → Text
no_digest bs = []

abbrev pub args : Args
args = record {
  trials = pos 2;
  sample_bytes = none;
  bursts = some (pos 2);
  interval_us = none;
  payload_bytes = pos 4;
  payload_mode = counter;
  interval_jitter_us = pos 0;
  start_delay_ms = pos 100;
  idle_timeout = pos 30000000;
}

abbrev pub draws : Draws
draws = record {
  start_time = 50;
  burst_time = λ i. 60 + i;
  jitter = λ i. pos 0;
  random_payload = λ i. [];
}

abbrev pub empty_disk : Disk
empty_disk = record {
  all_bin = [];
  all_jitter_delta = [];
  all_jitter_residual = [];
  all_joint = [];
  files = [];
  rows = [];
}

-- A trial that a HELLO has opened.
abbrev pub opened : TrialState
opened = record {
  capture_id = 0;
  peer = peer;
  protocol_trial = 1;
  hello_nonce = nonce;
  start_nonce = nonce;
  bursts = pos 2;
  interval_us = pos 1000;
  requested_sample_bytes = pos 8;
  raw_chunks_expected = none;
  raw_len = none;
  raw_chunks = [];
  jitter_chunks = [];
  result = [];
  hello_time = 10;
  start_send_time = some 50;
  first_burst_send_time = some 60;
  last_burst_send_time = some 61;
  result_time = none;
}

abbrev pub chunks : List Bytes
chunks = (1 ∷ 2 ∷ 3 ∷ 4 ∷ 5 ∷ []) ∷ (6 ∷ 7 ∷ 8 ∷ []) ∷ []

abbrev pub started : Collector
started = record {
  states = [];
  completed = 0;
  capture_counter = 0;
  last_rx = 0;
  disk = empty_disk;
  sent = [];
}

abbrev pub serving : Collector
serving = record started { states = ((peer, pos 1), opened) ∷ []; capture_counter = 1 }
