-- ===== src/Tests/Collector.antt =====
-- The loop of the collector at concrete events.
use wireless_boot_entropy_ze.Aeb.Collector.Reports.{Report, IsReportOf, report_events, with_reports}
use wireless_boot_entropy_ze.Aeb.Collector.{result_trial}
use wireless_boot_entropy_ze.Aeb.ResultLine.{parse_result_line}
use wireless_boot_entropy_ze.Python.Numbers.{parse_int}
use wireless_boot_entropy_ze.Python.Text.{starts_with, strip, split, split_once}
use wireless_boot_entropy_ze.Python.Utf8.{decode}
use wireless_boot_entropy_ze.Aeb.Collector.Firmware.{
  raw_part, jitter_part, begin_message, part_message, contents, jitter_of, end_message, arrives,
}
use wireless_boot_entropy_ze.Base.{
  joined, ◌+◌, ◌≡◌, refl, none, some, [], ◌∷◌, ◌++◌, arith, inl, inr, map, nat_eq, pair_eq,
}
use wireless_boot_entropy_ze.Base.Int.{pos, int_eq, pos_part}
use wireless_boot_entropy_ze.Python.Result.{ok}
use wireless_boot_entropy_ze.Python.Struct.{Bytes, le_bytes, pack_le}
use wireless_boot_entropy_ze.Python.Dict.{lookup, insert, keys}
use wireless_boot_entropy_ze.Python.Sorting.{sorted}
use wireless_boot_entropy_ze.Python.Text.{codes, text_eq}
use wireless_boot_entropy_ze.Aeb.Wire.{parse_message, make_message}
use wireless_boot_entropy_ze.Aeb.Wire.RoundTrip.{wire_bytes}
use wireless_boot_entropy_ze.Aeb.Jitter.{jitter_values, values_of_chunks}
use wireless_boot_entropy_ze.Aeb.Finalize.Whole.{JitterPacks}
use wireless_boot_entropy_ze.Aeb.Stimulus.{send_stimulus, burst_count}
use wireless_boot_entropy_ze.Aeb.Stimulus.Packets.{start_heard, bursts_heard, send_stimulus-heard}
use wireless_boot_entropy_ze.Aeb.Collector.{Collector, received, timeout, run, handle_datagram}
use wireless_boot_entropy_ze.Aeb.Collector.Invariant.{IsConsistent, run-IsConsistent}
use wireless_boot_entropy_ze.Aeb.Collector.Target.{EndsWithin, run-EndsWithin}
use wireless_boot_entropy_ze.Aeb.Collector.Isolation.{OthersKept, handle_datagram-OthersKept}
use wireless_boot_entropy_ze.Aeb.Collector.Session.{run-session}
use wireless_boot_entropy_ze.Aeb.Collector.Delivery.{Upload, upload_events, run-upload}
use wireless_boot_entropy_ze.Aeb.Finalize.Reassembly.{receive}
use wireless_boot_entropy_ze.Tests.Inputs.{hello-CanBeSent}
use wireless_boot_entropy_ze.Aeb.Finalize.{pack_jitter}
use wireless_boot_entropy_ze.Aeb.Jitter.{
  pack_jitter_delta_u32le, unpack_u32le, pack_jitter_residual_s32le,
}
use wireless_boot_entropy_ze.Python.Dict.{get_or, update}
use wireless_boot_entropy_ze.Python.Struct.{of_le_bytes}
use wireless_boot_entropy_ze.Base.Int.{◌-ℤ◌}
use wireless_boot_entropy_ze.Tests.Inputs.{
  are_bytes, fits, fits-CanBeSent, nonce, hello, peer, no_digest, args, draws, empty_disk, opened,
  chunks, started, serving,
}

-- Two measured intervals, of 1000 and 1001 microseconds.
abbrev jitter_payload : Bytes
jitter_payload = 232 ∷ 3 ∷ 0 ∷ 0 ∷ 233 ∷ 3 ∷ 0 ∷ 0 ∷ []

-- The second chunk comes twice, and before the first one; a chunk of jitter stands between them.
upload : Upload peer 1 chunks
unfolding fits are_bytes le_bytes
upload = record {
  nonce = nonce;
  interval = 1000;
  begin = record { content = tt; time = 100; draws = draws };
  arrivals =
      record { content = raw_part (1, 6 ∷ 7 ∷ 8 ∷ []); time = 101; draws = draws }
      ∷ record { content = raw_part (1, 6 ∷ 7 ∷ 8 ∷ []); time = 102; draws = draws }
      ∷ record { content = jitter_part (0, jitter_payload); time = 103; draws = draws }
      ∷ record { content = raw_part (0, 1 ∷ 2 ∷ 3 ∷ 4 ∷ 5 ∷ []); time = 104; draws = draws }
      ∷ [];
  end = record { content = tt; time = 105; draws = draws };
  begin_fits = fits-CanBeSent (begin_message 1 nonce 1000 chunks) refl;
  parts_fit = (
    fits-CanBeSent (part_message 1 nonce 1000 (raw_part (1, 6 ∷ 7 ∷ 8 ∷ []))) refl,
    (
      fits-CanBeSent (part_message 1 nonce 1000 (raw_part (1, 6 ∷ 7 ∷ 8 ∷ []))) refl,
      (
        fits-CanBeSent (part_message 1 nonce 1000 (jitter_part (0, jitter_payload))) refl,
        (
          fits-CanBeSent (part_message 1 nonce 1000 (raw_part (0, 1 ∷ 2 ∷ 3 ∷ 4 ∷ 5 ∷ []))) refl,
          tt,
        ),
      ),
    ),
  );
  end_fits = fits-CanBeSent (end_message 1 nonce 1000 chunks) refl;
  are_chunks = (refl, (refl, (refl, tt)));
  all_delivered = (inl refl, (inr (inr (inl refl)), tt));
  not_empty = omega arith;
}

uploaded-JitterPacks :
    JitterPacks
      (record opened { jitter_chunks = receive (jitter_of (contents upload.arrivals)) [] })
unfolding upload jitter_values values_of_chunks sorted keys pack_jitter receive lookup
    pack_jitter_delta_u32le insert unpack_u32le get_or pack_le of_le_bytes
    pack_jitter_residual_s32le ◌-ℤ◌
uploaded-JitterPacks = inr (_, refl)

serving_opened : lookup (peer, pos 1) serving.states ≡ some opened
unfolding lookup
serving_opened = refl

run-upload_example :
    (c' : Collector) × (run no_digest args none (upload_events upload (timeout 200 ∷ [])) serving
      ≡ run no_digest args none (timeout 200 ∷ []) c')
    × (c'.disk.all_bin ≡ [] ++ joined chunks)
    × (c'.completed ≡ 0 + 1)
    × (lookup (peer, pos 1) c'.states ≡ none)
run-upload_example =
    run-upload no_digest args none upload opened serving (timeout 200 ∷ []) serving_opened
      uploaded-JitterPacks refl

started-IsConsistent : IsConsistent started
started-IsConsistent = record {
  streams = record { raws = refl; deltas = refl; residuals = refl; joints = refl };
  counted = refl;
  open_ids = tt;
  row_ids = tt;
}

run-IsConsistent_example :
    IsConsistent
      (run no_digest args none
        (received (wire_bytes hello) peer 10 draws ∷ upload_events upload [])
        started).1
run-IsConsistent_example =
    run-IsConsistent no_digest args none
      (received (wire_bytes hello) peer 10 draws ∷ upload_events upload []) started
      started-IsConsistent

run-EndsWithin_example : EndsWithin args (
    run no_digest args none
      (received (wire_bytes hello) peer 10 draws ∷ upload_events upload [])
      started)
run-EndsWithin_example =
    run-EndsWithin no_digest args none
      (received (wire_bytes hello) peer 10 draws ∷ upload_events upload []) started refl

handle_datagram-OthersKept_example :
    OthersKept
      (codes "10.0.0.9", 4300)
      serving
      (handle_datagram no_digest args none
        (wire_bytes hello)
        (codes "10.0.0.9", 4300)
        20
        draws
        serving).1
handle_datagram-OthersKept_example =
    handle_datagram-OthersKept no_digest args none (wire_bytes hello) (codes "10.0.0.9", 4300) 20
      draws serving

hello_answered : (send_stimulus no_digest args hello nonce peer 0 10 draws empty_disk).0 ≡ ok opened
unfolding send_stimulus make_message pack_le
hello_answered = refl

send_stimulus-heard_example :
    map parse_message (send_stimulus no_digest args hello nonce peer 0 10 draws empty_disk).1
    ≡ some (start_heard no_digest args hello nonce)
      ∷ bursts_heard no_digest args hello nonce draws
          (pos_part (burst_count no_digest args hello nonce))
          0
send_stimulus-heard_example =
    send_stimulus-heard no_digest args hello nonce refl draws peer 0 10 empty_disk hello_answered

abbrev report : Report
report = record {
  line = codes "[AEB_RESULT] trial=1 interval_us=999";
  fields = (codes "trial", codes "1") ∷ (codes "interval_us", codes "999") ∷ [];
  time = 90;
  draws = draws;
}

report-IsReportOf : IsReportOf 1 report
unfolding parse_result_line result_trial lookup parse_int starts_with strip decode split split_once
    insert
report-IsReportOf = (refl, refl)

reported-JitterPacks : JitterPacks (record (with_reports (report ∷ []) opened) {
  jitter_chunks = receive (jitter_of (contents upload.arrivals)) [];
})
unfolding upload jitter_values values_of_chunks sorted keys pack_jitter receive lookup
    pack_jitter_delta_u32le insert unpack_u32le get_or pack_le of_le_bytes
    pack_jitter_residual_s32le ◌-ℤ◌ update parse_int
reported-JitterPacks = inr (_, refl)

run-session_example :
    (c' : Collector) × (run no_digest args none
        (arrives peer hello 10 draws ∷ report_events peer (report ∷ [])
          ++ upload_events upload (timeout 200 ∷ []))
        started
      ≡ run no_digest args none (timeout 200 ∷ []) c')
    × (c'.disk.all_bin ≡ [] ++ joined chunks)
    × (c'.completed ≡ 0 + 1)
    × (lookup (peer, pos 1) c'.states ≡ none)
run-session_example =
    run-session no_digest args none hello peer 10 draws (report ∷ []) upload started
      (timeout 200 ∷ []) hello-CanBeSent refl hello_answered (report-IsReportOf, tt)
      reported-JitterPacks refl
