-- ===== src/Slices/Collection.antt =====
-- collect_reboot_slices.py: the runs and their aggregate. The files of the runs are named by the number
-- of the run, which stands for the name here; the script that captures one run is a parameter.
pub mod Complete
pub mod Resume
use wireless_boot_entropy_ze.Base.{
  ℕ, zero, suc, ◌+◌, ◌*◌, ◌≡◌, Bool, true, false, ◌&&◌, Option, none, some, List, [], ◌∷◌, ◌++◌,
  ◌==◌, if◌then◌else◌, length, nat_eq, map,
}
use wireless_boot_entropy_ze.Base.Int.{ℤ, pos_part}
use wireless_boot_entropy_ze.Python.Result.{Result, ok, err, runtime_error, file_not_found, ◌>>=◌}
use wireless_boot_entropy_ze.Python.Dict.{Dict, lookup}
use wireless_boot_entropy_ze.Python.Struct.{Bytes}
use wireless_boot_entropy_ze.Python.Text.{Text}
use wireless_boot_entropy_ze.Aeb.Trial.{Time}
use wireless_boot_entropy_ze.Slices.Plan.{SliceArgs, plan}

-- The contents of the files in `raw`.
abbrev pub Files : Type 0
Files = Dict ℕ Bytes

-- `run_command` of the capture script: it raises, or leaves the files as they are then, and the time it
-- took. It is told the number of bytes and writes the file of its own run.
pub record CaptureScript : Type 0 where
  pub run : ℕ → ℕ → Files → Result (Files × Time)
  pub keeps_others :
      (bytes index other : ℕ) (before : Files) (after : Files × Time)
      → run bytes index before ≡ ok after
      → (other == index) ≡ false
      → lookup other after.0 ≡ lookup other before

-- A row of `runs`.
pub record RunRow : Type 0 where
  pub run : ℕ
  pub bytes : ℕ
  pub sha256 : Text
  pub capture_seconds : Option Time

-- `output.stat().st_size if output.exists() else 0`
abbrev pub size_of : Option Bytes → ℕ
size_of none = 0
size_of (some bs) = length bs

-- `args.resume and output.exists() and output.stat().st_size == bytes_per_run`
abbrev pub is_reused : Bool → ℕ → Option Bytes → Bool
is_reused resume bytes none = false
is_reused resume bytes (some bs) = resume && length bs == bytes

abbrev pub timed : Files × Time → Files × Option Time
timed (files, elapsed) = (files, some elapsed)

-- `open("rb")` of a file that must be there
abbrev pub content_of : Option Bytes → Result Bytes
content_of none = err file_not_found
content_of (some bs) = ok bs

-- `concatenate`: the aggregate of the files.
unfoldable pub concatenate : List ℕ → Files → Result Bytes
concatenate [] files = ok []
concatenate (index ∷ captured) files = do
  first ← content_of (lookup index files)
  rest ← concatenate captured files
  ok (first ++ rest)

pub record Manifest : Type 0 where
  pub runs_captured : ℕ
  pub bytes_per_run : ℕ
  pub aggregate_bytes : ℕ
  pub rows : List RunRow
  -- the aggregate file itself, and the digest of it
  pub aggregate : Bytes
  pub aggregate_sha256 : Text

abbrev pub with_row : RunRow → Files × List RunRow → Files × List RunRow
with_row row rest = (rest.0, row ∷ rest.1)

module _ (script : CaptureScript) (sha256_file : Bytes → Text) where
  open script use {run}

  -- The file of a run, captured again unless it is reused.
  abbrev pub obtain : Bool → ℕ → ℕ → Files → Result (Files × Option Time)
  obtain resume bytes index files =
      if is_reused resume bytes (lookup index files)
      then ok (files, none)
      else (do after ← run bytes index files; ok (timed after))

  abbrev pub row_of : ℕ → ℕ → Option Time → Bytes → RunRow
  row_of bytes index elapsed content = record {
    run = index;
    bytes = bytes;
    sha256 = sha256_file content;
    capture_seconds = elapsed;
  }

  -- The size is checked before the file is read.
  abbrev pub read_back : ℕ → ℕ → Option Time → Option Bytes → Result RunRow
  read_back bytes index elapsed found =
      if size_of found == bytes
      then (do content ← content_of found; ok (row_of bytes index elapsed content))
      else err runtime_error

  abbrev pub check_size : ℕ → ℕ → Files × Option Time → Result (Files × RunRow)
  check_size bytes index obtained = do
    row ← read_back bytes index obtained.1 (lookup index obtained.0)
    ok (obtained.0, row)

  unfoldable pub collect_run : Bool → ℕ → ℕ → Files → Result (Files × RunRow)
  collect_run resume bytes index files = do
    obtained ← obtain resume bytes index files
    check_size bytes index obtained

  -- The runs from a first one on, as many as the second argument says.
  unfoldable pub collect_runs : Bool → ℕ → ℕ → ℕ → Files → Result (Files × List RunRow)
  unfolding collect_run
  collect_runs resume bytes index zero files = ok (files, [])
  collect_runs resume bytes index (suc left) files = do
    done ← collect_run resume bytes index files
    rest ← collect_runs resume bytes (index + 1) left done.0
    ok (with_row done.1 rest)

  abbrev pub manifest_of : ℕ → List RunRow → Bytes → Manifest
  manifest_of bytes rows aggregate = record {
    runs_captured = length rows;
    bytes_per_run = bytes;
    aggregate_bytes = bytes * length rows;
    rows = rows;
    aggregate = aggregate;
    aggregate_sha256 = sha256_file aggregate;
  }

  unfoldable pub finish : ℕ → Files × List RunRow → Result (Files × Manifest)
  unfolding concatenate
  finish bytes collected = do
    aggregate ← concatenate (map (λ row. row.run) collected.1) collected.0
    ok (collected.0, manifest_of bytes collected.1 aggregate)

  -- `main`, behind the set-up of the folders and the firmware: the files at the end, and the manifest.
  unfoldable pub collect_slices : SliceArgs → Files → Result (Files × Manifest)
  unfolding plan collect_runs finish
  collect_slices args files = do
    bytes ← plan args
    collected ← collect_runs args.resume bytes 1 (pos_part args.runs) files
    finish bytes collected
