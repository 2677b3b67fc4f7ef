-- ===== src/Teb/BootLog/Runs/Segments.antt =====
-- parse_teb_boot_log.py: the parser, line by line, against the reading run by run.
use wireless_boot_entropy_ze.Base.{
  ◌+◌, ◌≡◌, refl, sym, ap, ◌∙◌, Option, none, some, List, [], ◌∷◌, ◌++◌, append-nil, append_assoc,
  arith, length, length-append,
}
use wireless_boot_entropy_ze.Python.Result.{Result, ok, err, ◌>>=◌}
use wireless_boot_entropy_ze.Python.Dict.{insert}
use wireless_boot_entropy_ze.Python.Text.{Text, codes, text_eq}
use wireless_boot_entropy_ze.Teb.BootLog.{
  BootLine, header, noise, entry, ipv4_line, result_line, error_line, profile_line, boot_line,
}
use wireless_boot_entropy_ze.Teb.BootLog.Runs.Reading.{
  noted, read_run, before_header, segments, run_then, runs_from,
}
use wireless_boot_entropy_ze.Teb.BootLog.Runs.{
  Run, text, finalize_run, opened, Parse, append_run, closed, reopened, parse_line, parse_lines,
  finished, parse_log,
}

-- Runs that are there, and those behind them.
abbrev behind : List Run → Result (List Run) → Result (List Run)
behind runs (err e) = err e
behind runs (ok more) = ok (runs ++ more)

-- The runs that the state and the lines that follow give.
abbrev expected : List Run → Option Run → List Text → Result (List Run)
expected runs none lines = behind runs (runs_from (length runs + 1) (segments lines))
expected runs (some run) lines = behind runs (
    run_then (read_run run (before_header lines))
      (runs_from (length runs + 1 + 1) (segments lines)))

-- The parser from a state on.
abbrev parsed : List Text → List Run → Option Run → Result (List Run)
parsed lines runs current =
    parse_lines lines (record { runs = runs; current = current }) >>= λ s. finished s

abbrev Reads : List Text → Type 0
Reads lines =
    (runs : List Run) (current : Option Run)
    → parsed lines runs current ≡ expected runs current lines

behind-append :
    (runs : List Run) (run : Run) (more : Result (List Run))
    → behind (runs ++ run ∷ []) more ≡ behind runs (run_then (ok run) more)
behind-append runs run (err e) = refl
behind-append runs run (ok more) = ap ok (append_assoc runs (run ∷ []) more)

after_one :
    (runs : List Run) (run : Run) (more : List (List Text))
    → behind (runs ++ run ∷ []) (runs_from (length (runs ++ run ∷ []) + 1) more)
      ≡ behind runs (run_then (ok run) (runs_from (length runs + 1 + 1) more))
after_one runs run more =
    let number : length (runs ++ run ∷ []) + 1 ≡ length runs + 1 + 1 =
      omega (arith, length-append runs (run ∷ [])) in
    behind-append runs run (runs_from (length (runs ++ run ∷ []) + 1) more)
    ∙ ap (λ n. behind runs (run_then (ok run) (runs_from n more))) number

-- A run that is closed, or raises, before what follows.
after_closed :
    (runs : List Run) (ended : Result Run) (lines : List Text)
    → Reads lines
    → ((append_run runs ended >>= λ appended. ok (closed appended)) >>= λ next.
        parsed lines next.runs next.current)
      ≡ behind runs (run_then ended (runs_from (length runs + 1 + 1) (segments lines)))
after_closed runs (err e) lines reads = refl
after_closed runs (ok run) lines reads =
    reads (runs ++ run ∷ []) none ∙ after_one runs run (segments lines)

after_reopened :
    (runs : List Run) (ended : Result Run) (lines : List Text)
    → Reads lines
    → ((append_run runs ended >>= λ appended. ok (reopened appended)) >>= λ next.
        parsed lines next.runs next.current)
      ≡ behind runs
          (run_then ended (runs_from (length runs + 1 + 1) (before_header lines ∷ segments lines)))
unfolding runs_from
after_reopened runs (err e) lines reads = refl
after_reopened runs (ok run) lines reads =
    reads (runs ++ run ∷ []) (some (opened (length (runs ++ run ∷ []) + 1)))
    ∙ after_one runs run (before_header lines ∷ segments lines)

>>=-assoc :
    (first : Result Parse) (lines : List Text)
    → ((first >>= λ next. parse_lines lines next) >>= λ s. finished s)
      ≡ (first >>= λ next. parsed lines next.runs next.current)
>>=-assoc (err e) lines = refl
>>=-assoc (ok next) lines = refl

-- A line, read from a state, and then the lines behind it.
parsed-line :
    (raw : Text) (lines : List Text) (line : BootLine) (runs : List Run) (current : Option Run)
    → boot_line raw ≡ line
    → parsed (raw ∷ lines) runs current
      ≡ (parse_line runs current line >>= λ next. parsed lines next.runs next.current)
unfolding parse_lines
parsed-line raw lines line runs current is_line =
    rw (parse_lines, is_line) (>>=-assoc (parse_line runs current line) lines)

Reads-line :
    (raw : Text) (lines : List Text) (line : BootLine)
    → boot_line raw ≡ line
    → Reads lines
    → Reads (raw ∷ lines)
unfolding read_run before_header segments runs_from
Reads-line raw lines header is_line reads runs none =
    rw (parsed-line raw lines header runs none is_line, segments, is_line)
      (reads runs (some (opened (length runs + 1))))
Reads-line raw lines header is_line reads runs (some run) =
    rw (parsed-line raw lines header runs (some run) is_line, segments, before_header, is_line)
      (after_reopened runs (finalize_run run) lines reads)
Reads-line raw lines (result_line value) is_line reads runs none =
    rw (parsed-line raw lines (result_line value) runs none is_line, segments, is_line)
      (reads runs none)
Reads-line raw lines (result_line value) is_line reads runs (some run) =
    rw
      (
        parsed-line raw lines (result_line value) runs (some run) is_line,
        segments,
        before_header,
        is_line,
        read_run,
        is_line,
      )
      (after_closed runs (finalize_run (insert (codes "result") (text value) run)) lines reads)
Reads-line raw lines noise is_line reads runs none =
    rw (parsed-line raw lines noise runs none is_line, segments, is_line) (reads runs none)
Reads-line raw lines noise is_line reads runs (some run) =
    rw
      (
        parsed-line raw lines noise runs (some run) is_line,
        segments,
        before_header,
        is_line,
        read_run,
        is_line,
      )
      (reads runs (some run))
Reads-line raw lines (entry key value) is_line reads runs none =
    rw (parsed-line raw lines (entry key value) runs none is_line, segments, is_line)
      (reads runs none)
Reads-line raw lines (entry key value) is_line reads runs (some run) =
    rw
      (
        parsed-line raw lines (entry key value) runs (some run) is_line,
        segments,
        before_header,
        is_line,
        read_run,
        is_line,
      )
      (reads runs (some (noted run (entry key value))))
Reads-line raw lines (error_line value) is_line reads runs none =
    rw (parsed-line raw lines (error_line value) runs none is_line, segments, is_line)
      (reads runs none)
Reads-line raw lines (error_line value) is_line reads runs (some run) =
    rw
      (
        parsed-line raw lines (error_line value) runs (some run) is_line,
        segments,
        before_header,
        is_line,
        read_run,
        is_line,
      )
      (reads runs (some (noted run (error_line value))))
Reads-line raw lines (ipv4_line addr gw) is_line reads runs none =
    rw (parsed-line raw lines (ipv4_line addr gw) runs none is_line, segments, is_line)
      (reads runs none)
Reads-line raw lines (ipv4_line addr gw) is_line reads runs (some run) =
    rw
      (
        parsed-line raw lines (ipv4_line addr gw) runs (some run) is_line,
        segments,
        before_header,
        is_line,
        read_run,
        is_line,
      )
      (reads runs (some (noted run (ipv4_line addr gw))))
Reads-line raw lines (profile_line value) is_line reads runs none =
    rw (parsed-line raw lines (profile_line value) runs none is_line, segments, is_line)
      (reads runs none)
Reads-line raw lines (profile_line value) is_line reads runs (some run) =
    rw
      (
        parsed-line raw lines (profile_line value) runs (some run) is_line,
        segments,
        before_header,
        is_line,
        read_run,
        is_line,
      )
      (reads runs (some (noted run (profile_line value))))

behind-none :
    (runs : List Run) (ended : Result Run)
    → append_run runs ended ≡ behind runs (run_then ended (ok []))
behind-none runs (err e) = refl
behind-none runs (ok run) = refl

behind-nothing : (more : Result (List Run)) → behind [] more ≡ more
behind-nothing (err e) = refl
behind-nothing (ok more) = refl

parse_lines-Reads : (lines : List Text) → Reads lines
unfolding parse_lines before_header segments runs_from read_run
parse_lines-Reads [] runs none = ap ok (sym (append-nil runs))
parse_lines-Reads [] runs (some run) = behind-none runs (finalize_run run)
parse_lines-Reads (raw ∷ lines) runs current =
    Reads-line raw lines (boot_line raw) refl (parse_lines-Reads lines) runs current

-- The parser, line by line, gives the runs of a reading segment by segment: one run for each header
-- line, numbered from 1, from the lines between that header and the next one, of which those behind the
-- first result are passed over; or it raises what the first run raises of which a number is too large.
pub parse_log-segments : (lines : List Text) → parse_log lines ≡ runs_from 1 (segments lines)
unfolding parse_log
parse_log-segments lines =
    parse_lines-Reads lines [] none
    ∙ behind-nothing (runs_from (length {A = Run} [] + 1) (segments lines))
    ∙ ap (λ n. runs_from n (segments lines)) (omega arith)
