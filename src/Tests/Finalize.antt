-- ===== src/Tests/Finalize.antt =====
-- Closing trials, and their jitter, at concrete inputs.
use wireless_boot_entropy_ze.Base.{
  joined, ℕ, ◌≡◌, refl, true, false, some, List, [], ◌∷◌, ◌++◌, arith, inl,
}
use wireless_boot_entropy_ze.Base.Int.{◌-ℤ◌}
use wireless_boot_entropy_ze.Python.Result.{ok, err, struct_error}
use wireless_boot_entropy_ze.Python.Struct.{Bytes, of_le_bytes, pack_le}
use wireless_boot_entropy_ze.Python.Dict.{Dict, lookup, get_or, keys}
use wireless_boot_entropy_ze.Python.Text.{text_eq}
use wireless_boot_entropy_ze.Python.Sorting.{sorted}
use wireless_boot_entropy_ze.Aeb.Jitter.{
  unpack_u32le, jitter_values, pack_jitter_delta_u32le, pack_jitter_residual_s32le,
  values_of_chunks,
}
use wireless_boot_entropy_ze.Aeb.Trial.{TrialState}
use wireless_boot_entropy_ze.Aeb.Parts.{is_empty, pack_jitter}
use wireless_boot_entropy_ze.Aeb.Finalize.{finalize_trial}
use wireless_boot_entropy_ze.Aeb.Finalize.Streams.{StreamsMatch, finalize_trial-StreamsMatch}
use wireless_boot_entropy_ze.Aeb.Finalize.Reports.{Reports, finalize_trial-Reports}
use wireless_boot_entropy_ze.Aeb.Finalize.Whole.{
  IsWhole, JitterPacks, finalize_trial-IsWhole, finalize_trial-jitter_raises,
}
use wireless_boot_entropy_ze.Tests.Inputs.{no_digest, empty_disk, opened, chunks}

abbrev deltas : List ℕ
deltas = 1000 ∷ 900 ∷ 4294967295 ∷ []

abbrev jitter_chunks : Dict ℕ Bytes
jitter_chunks = (1, 255 ∷ 255 ∷ 255 ∷ 255 ∷ 9 ∷ []) ∷ (0, 232 ∷ 3 ∷ 0 ∷ 0 ∷ []) ∷ []

-- The chunks are read in the order of their numbers, and a rest of less than four bytes is left.
jitter_values-run : jitter_values jitter_chunks ≡ 1000 ∷ 4294967295 ∷ []
unfolding jitter_values values_of_chunks sorted keys unpack_u32le get_or of_le_bytes
jitter_values-run = refl

abbrev complete : TrialState
complete = record opened {
  raw_chunks_expected = some 2;
  raw_len = some 8;
  raw_chunks = (1, 6 ∷ 7 ∷ 8 ∷ []) ∷ (0, 1 ∷ 2 ∷ 3 ∷ 4 ∷ 5 ∷ []) ∷ [];
}

abbrev partial : TrialState
partial = record complete { raw_chunks = (1, 6 ∷ 7 ∷ 8 ∷ []) ∷ [] }

abbrev overflowing : TrialState
overflowing = record complete { jitter_chunks = (0, 255 ∷ 255 ∷ 255 ∷ 255 ∷ []) ∷ [] }

empty_disk-StreamsMatch : StreamsMatch empty_disk
empty_disk-StreamsMatch = record { raws = refl; deltas = refl; residuals = refl; joints = refl }

finalize_trial-StreamsMatch_example : StreamsMatch (finalize_trial no_digest partial empty_disk).1
finalize_trial-StreamsMatch_example =
    finalize_trial-StreamsMatch no_digest partial empty_disk empty_disk-StreamsMatch

finalize_trial-Reports_example : Reports 0 [] (finalize_trial no_digest partial empty_disk)
finalize_trial-Reports_example = finalize_trial-Reports no_digest partial empty_disk

complete-IsWhole : IsWhole chunks complete
unfolding lookup
complete-IsWhole = record {
  announced_chunks = refl;
  announced_len = refl;
  not_empty = omega arith;
  held = (refl, (refl, tt));
}

overflowing-IsWhole : IsWhole chunks overflowing
unfolding lookup
overflowing-IsWhole = record {
  announced_chunks = refl;
  announced_len = refl;
  not_empty = omega arith;
  held = (refl, (refl, tt));
}

no_jitter-JitterPacks : JitterPacks complete
unfolding jitter_values values_of_chunks sorted keys
no_jitter-JitterPacks = inl refl

finalize_trial-IsWhole_example :
    ((finalize_trial no_digest complete empty_disk).0 ≡ ok true)
    × ((finalize_trial no_digest complete empty_disk).1.all_bin ≡ [] ++ joined chunks)
finalize_trial-IsWhole_example =
    finalize_trial-IsWhole no_digest chunks complete empty_disk complete-IsWhole
      no_jitter-JitterPacks

overflowing_measured : is_empty (jitter_values overflowing.jitter_chunks) ≡ false
unfolding jitter_values values_of_chunks sorted keys unpack_u32le get_or
overflowing_measured = refl

overflowing_raises :
    pack_jitter overflowing (jitter_values overflowing.jitter_chunks) ≡ err struct_error
unfolding pack_jitter jitter_values pack_jitter_delta_u32le pack_jitter_residual_s32le lookup
    values_of_chunks sorted keys unpack_u32le get_or pack_le of_le_bytes ◌-ℤ◌
overflowing_raises = refl

finalize_trial-jitter_raises_example :
    ((finalize_trial no_digest overflowing empty_disk).0 ≡ err struct_error)
    × ((finalize_trial no_digest overflowing empty_disk).1.all_bin ≡ [] ++ joined chunks)
    × ((finalize_trial no_digest overflowing empty_disk).1.rows ≡ [])
finalize_trial-jitter_raises_example =
    finalize_trial-jitter_raises no_digest chunks overflowing empty_disk struct_error
      overflowing-IsWhole overflowing_measured overflowing_raises
