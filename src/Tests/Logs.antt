-- ===== src/Tests/Logs.antt =====
-- Small logs of the renewal, of the boot, and of the trials, and samples of a memory.
use wireless_boot_entropy_ze.Base.{◌≡◌, refl, List, [], ◌∷◌}
use wireless_boot_entropy_ze.Base.Int.{ℤ, pos, ◌-ℤ◌}
use wireless_boot_entropy_ze.Aeb.ResultLine.{Fields}
use wireless_boot_entropy_ze.Aeb.Log.{value_of, int_of, packet_loss, parse_log as parse_trial_log}
use wireless_boot_entropy_ze.Aeb.Log.Pairs.{IsPaired, row_losses, packet_loss-rows}
use wireless_boot_entropy_ze.Aeb.Log.Noise.{only_results, only_chunks, parse_log-apart}
use wireless_boot_entropy_ze.Python.Numbers.{parse_int}
use wireless_boot_entropy_ze.Python.Dict.{lookup}
use wireless_boot_entropy_ze.Python.Result.{Result, OkOrNumberError, ok}
use wireless_boot_entropy_ze.Python.Text.{Text, codes}
use wireless_boot_entropy_ze.Renewal.Log.{Row, parse_log}
use wireless_boot_entropy_ze.Renewal.Log.Fields.{LogIsDerived, parse_log-LogIsDerived}
use wireless_boot_entropy_ze.Renewal.Totals.{report}
use wireless_boot_entropy_ze.Renewal.Totals.Accounts.{Reported, report-IsAccount}
use wireless_boot_entropy_ze.Teb.Puf.{bits_of, hamming, pairwise_distances, PufSummary, summarize}
use wireless_boot_entropy_ze.Teb.Puf.Spread.{IsConsistent, summarize-IsConsistent}
use wireless_boot_entropy_ze.Python.Struct.{Bytes}
use wireless_boot_entropy_ze.Teb.BootLog.Runs.{parse_log as parse_boot_log}
use wireless_boot_entropy_ze.Teb.BootLog.Runs.Reading.{runs_from, segments}
use wireless_boot_entropy_ze.Teb.BootLog.Runs.Segments.{parse_log-segments}

abbrev renewal_lines : List Text
renewal_lines =
    codes "[RENEWAL_META] inter_handshake_ms,50"
    ∷ codes "[RENEWAL_ITER] 1,0,900,32,16,2,64,1,8,40,12,48,0,0,0,256,244"
    ∷ codes "[RENEWAL_ITER] 2,-5,900"
    ∷ codes "[RENEWAL_WARN] low credit"
    ∷ []

parse_log-LogIsDerived_example : OkOrNumberError LogIsDerived (parse_log renewal_lines)
parse_log-LogIsDerived_example = parse_log-LogIsDerived renewal_lines

abbrev no_overflow : ℤ → List Row → Result (Unit {0})
no_overflow inter_ms rows = ok tt

report-IsAccount_example :
    OkOrNumberError (Reported renewal_lines) (report no_overflow renewal_lines)
report-IsAccount_example = report-IsAccount no_overflow (λ inter_ms rows. tt) renewal_lines

abbrev boot_lines : List Text
boot_lines =
    codes "boot noise"
    ∷ codes "Asymmetric Entropy Capsule Bootstrap"
    ∷ codes "[TEB_METRIC] dhcp_ms,120"
    ∷ codes "Asymmetric Entropy Capsule Bootstrap"
    ∷ codes "[TEB_METRIC] sram_ones,16384"
    ∷ codes "[TEB_RESULT] seeded"
    ∷ codes "[TEB_METRIC] dhcp_ms,7"
    ∷ []

parse_log-segments_example : parse_boot_log boot_lines ≡ runs_from 1 (segments boot_lines)
parse_log-segments_example = parse_log-segments boot_lines

abbrev trial_lines : List Text
trial_lines =
    codes "[AEB_RAW_HEX_CHUNK] trial=1 offset=2 hex=0c"
    ∷ codes "wifi: connected"
    ∷ codes "[AEB_RESULT] trial=1 packets_expected=10, packets_seen=9"
    ∷ codes "[AEB_RAW_HEX_CHUNK] trial=1 offset=0 hex=0a0b"
    ∷ []

parse_log-apart_example : parse_trial_log trial_lines ≡ (
  (parse_trial_log (only_results trial_lines)).0,
  (parse_trial_log (only_chunks trial_lines)).1,
)
parse_log-apart_example = parse_log-apart trial_lines

-- The first row has neither number; the second one lost two.
abbrev bare_row : Fields
bare_row = (codes "trial", codes "1") ∷ []

abbrev whole_row : Fields
whole_row = (codes "packets_expected", codes "5") ∷ (codes "packets_seen", codes "3") ∷ []

bare_row-IsPaired : IsPaired bare_row
unfolding int_of value_of lookup
bare_row-IsPaired = tt

whole_row-IsPaired : IsPaired whole_row
unfolding int_of value_of lookup parse_int
whole_row-IsPaired = tt

packet_loss-rows_example :
    packet_loss (bare_row ∷ whole_row ∷ []) ≡ row_losses (bare_row ∷ whole_row ∷ [])
packet_loss-rows_example =
    packet_loss-rows (bare_row ∷ whole_row ∷ []) (bare_row-IsPaired, (whole_row-IsPaired, tt))

two_lost : row_losses (bare_row ∷ whole_row ∷ []) ≡ pos 2 ∷ []
unfolding row_losses int_of value_of lookup parse_int ◌-ℤ◌
two_lost = refl

abbrev puf_samples : List Bytes
puf_samples = (0xf0 ∷ []) ∷ (0xf1 ∷ []) ∷ (0xf0 ∷ []) ∷ []

abbrev puf_summary : PufSummary
puf_summary = record {
  samples = 3;
  bytes_per_sample = 1;
  bits_per_sample = 8;
  ones = 3 ∷ 3 ∷ 3 ∷ 3 ∷ 0 ∷ 0 ∷ 0 ∷ 1 ∷ [];
  stable_bits = 7;
  distances = 1 ∷ 0 ∷ 1 ∷ [];
}

summarized : summarize puf_samples ≡ ok puf_summary
unfolding summarize bits_of pairwise_distances hamming
summarized = refl

summarize-IsConsistent_example : IsConsistent puf_samples puf_summary
summarize-IsConsistent_example = summarize-IsConsistent puf_samples puf_summary summarized
