-- ===== src/Aeb/Log/Noise.antt =====
-- parse_aeb_log.py: the lines of the two kinds, and the noise between them, do not disturb each other.
use wireless_boot_entropy_ze.Base.{◌≡◌, refl, ap, ◌∙◌, List, [], ◌∷◌, ◌++◌}
use wireless_boot_entropy_ze.Python.Text.{Text}
use wireless_boot_entropy_ze.Aeb.Log.{
  parse_kv_line, LogParse, LogLine, result_line, chunk_line, noise, log_line, chunk_of, put_chunk,
  take_line, take_lines, raw_windows_of, parse_log,
}

abbrev keep_result : LogLine → Text → List Text → List Text
keep_result (result_line payload) line rest = line ∷ rest
keep_result _ line rest = rest

abbrev keep_chunk : LogLine → Text → List Text → List Text
keep_chunk (chunk_line payload) line rest = line ∷ rest
keep_chunk _ line rest = rest

-- The result lines of a log, and its chunk lines.
unfoldable pub only_results : List Text → List Text
only_results [] = []
only_results (line ∷ lines) = keep_result (log_line line) line (only_results lines)

unfoldable pub only_chunks : List Text → List Text
only_chunks [] = []
only_chunks (line ∷ lines) = keep_chunk (log_line line) line (only_chunks lines)

abbrev SameRows : List Text → List Text → Type 0
SameRows lines kept =
    (s t : LogParse) → s.rows ≡ t.rows → (take_lines lines s).rows ≡ (take_lines kept t).rows

SameRows-line :
    (line : Text) (lines : List Text) (kind : LogLine)
    → log_line line ≡ kind
    → SameRows lines (only_results lines)
    → SameRows (line ∷ lines) (keep_result kind line (only_results lines))
unfolding take_lines
SameRows-line line lines (result_line payload) is_kind same s t h =
    rw (take_lines, is_kind)
      (same (take_line (result_line payload) s) (take_line (result_line payload) t)
        (ap (λ rows. rows ++ parse_kv_line payload ∷ []) h))
SameRows-line line lines (chunk_line payload) is_kind same s t h =
    rw (take_lines, is_kind) (same (take_line (chunk_line payload) s) t h)
SameRows-line line lines noise is_kind same s t h = rw (take_lines, is_kind) (same s t h)

same_rows : (lines : List Text) → SameRows lines (only_results lines)
unfolding take_lines only_results
same_rows [] s t h = h
same_rows (line ∷ lines) s t h =
    SameRows-line line lines (log_line line) refl (same_rows lines) s t h

abbrev SameChunks : List Text → List Text → Type 0
SameChunks lines kept =
    (s t : LogParse)
    → s.raw_chunks ≡ t.raw_chunks
    → (take_lines lines s).raw_chunks ≡ (take_lines kept t).raw_chunks

SameChunks-line :
    (line : Text) (lines : List Text) (kind : LogLine)
    → log_line line ≡ kind
    → SameChunks lines (only_chunks lines)
    → SameChunks (line ∷ lines) (keep_chunk kind line (only_chunks lines))
unfolding take_lines
SameChunks-line line lines (chunk_line payload) is_kind same s t h =
    rw (take_lines, is_kind)
      (same (take_line (chunk_line payload) s) (take_line (chunk_line payload) t)
        (ap (put_chunk (chunk_of (parse_kv_line payload))) h))
SameChunks-line line lines (result_line payload) is_kind same s t h =
    rw (take_lines, is_kind) (same (take_line (result_line payload) s) t h)
SameChunks-line line lines noise is_kind same s t h = rw (take_lines, is_kind) (same s t h)

same_chunks : (lines : List Text) → SameChunks lines (only_chunks lines)
unfolding take_lines only_chunks
same_chunks [] s t h = h
same_chunks (line ∷ lines) s t h =
    SameChunks-line line lines (log_line line) refl (same_chunks lines) s t h

-- The rows are those of the result lines alone, and the raw windows those of the chunk lines alone:
-- other output between them, and the way the two kinds are mixed, change nothing.
pub parse_log-apart :
    (lines : List Text)
    → parse_log lines ≡ ((parse_log (only_results lines)).0, (parse_log (only_chunks lines)).1)
unfolding parse_log
parse_log-apart lines =
    let start : LogParse = record { rows = []; raw_chunks = [] } in
    let rows = same_rows lines start start refl in
    let chunks = same_chunks lines start start refl in
    ap (λ r. (r, raw_windows_of (take_lines lines start).raw_chunks [])) rows
    ∙ ap (λ c. ((take_lines (only_results lines) start).rows, raw_windows_of c [])) chunks
