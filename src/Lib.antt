-- ===== src/Lib.antt =====
-- Verification of the host-side Python scripts of wireless-boot-entropy-zephyr.
--
-- The repository measures entropy of wireless boards at boot. The boards run Zephyr firmware, and
-- Python scripts on a host drive the experiments, receive the samples and write the files that are
-- analysed later. This library is about the scripts.
--
-- Base holds the names that every module shares, tests on native numbers, lists measured by native
-- numbers, and integers. Python holds what the scripts use of Python's own library, translated
-- where the scripts depend on it: struct (Struct), str.strip and str.split (Text), decoding with
-- errors="replace" (Utf8), bytes.fromhex (Hex), int() (Numbers), the exceptions of / on integers
-- (Division), dict (Dict) and sorted() (Sorting). An exception is a value of Python.Result. SHA-256
-- is an argument of every definition that uses it; that a digest of it has 32 bytes is a hypothesis
-- where it is needed.
--
-- Aeb is rf-actuated-boot-entropy/scripts/aeb_collector.py, the collector of pre-hash WDEV bytes. A
-- board sends HELLO, the collector answers with START and BURST packets, and the board uploads its
-- sample in chunks between RAW_BEGIN and RAW_END, with chunks of packet arrival times, and a result
-- line of text. One call of recvfrom gives 4096 bytes of a datagram at most.
--   Aeb.Wire        HEADER, parse_message, make_message
--   Aeb.ResultLine  parse_result_line
--   Aeb.Jitter      jitter_values, pack_jitter_delta_u32le, pack_jitter_residual_s32le
--   Aeb.Trial       TrialState, and the output directory as a value: the four streams that grow, the
--                   files of each capture, and the lines of aeb_trials.csv
--   Aeb.Parts       what finalize_trial computes before it writes, and the line of the table
--   Aeb.Finalize    finalize_trial, in four parts that pass the directory on
--   Aeb.Stimulus    send_stimulus, with the clock and the random generators as draws
--   Aeb.Nonce       fixed_nonce, and nonce_from_args of the sender
--   Aeb.Collector   the loop of main. An event is what one call of recvfrom meets, a datagram, a
--                   timeout or Ctrl-C, and run is the loop over a list of events, so that every
--                   order of datagrams is an input. A loop whose events are used up is running.
--                   Firmware and Reports below it say what a board sends, from src/main.c of the same
--                   program: the messages of an upload and the result line
--   Aeb.Log         parse_aeb_log.py of the same folder: parse_log, and the losses of build_summary
-- Aeb.Sender is stimulus_sender.py of the same folder, which sends the packets without an upload:
-- make_msg, the tests of the arguments, and the loops of main as sequences of statements that may
-- raise.
--
-- Teb.Server is entropy-capsule-bootstrap/server/teb_beacon_server.py: parse_hello, build_capsule,
-- and the loop of main over a list of datagrams. The signature is an argument. Teb.BootLog is
-- scripts/parse_teb_boot_log.py beside it: the regular expressions as functions of a line, and
-- parse_log as a machine that a header line, an entry or a result moves on (Runs). Teb.Puf is
-- scripts/analyze_puf_captures.py: the distances of samples of a memory, and the ones in each
-- column. Teb.Generator is DeterministicRng of scripts/generate_pq_keys.py.
--
-- Capture is esp32-rf-rng-state/scripts/capture_binary.py, which waits for a marker on the serial
-- port and then writes raw bytes to a file.
--   Capture.Search    bytes.find and the slice behind what was found
--   Capture.Lines     the markers, and the address in a line of the firmware
--   Capture.Scan      the loop that waits for the marker, over a list of reads of the port: the buffer
--                     that it trims, what it takes from the lines, the trigger and the UDP sender
--   Capture.Transfer  the loop that collects the bytes. The port is a parameter, a record with read and
--                     what its documentation says of it: at most the bytes asked for, none lost, in order
--   Capture.Session   the two loops one after the other
--
-- Slices is about collect_reboot_slices.py and analyze_reboot_slices.py of the same folder.
--   Slices.Plan        derive_bytes_per_run, the tests at the start of main, display_command
--   Slices.Collection  the runs of main with --resume, concatenate and the manifest. The script that
--                      captures one run is a parameter, which writes no file but that of its run
--   Slices.Blocks      a file read block by block
--   Slices.Statistics  update_stats_from_bytes, metrics_from_counts and metrics_for_file, in integers
--   Slices.Comparison  compare_aligned_files
--
-- Renewal is entropy-renewal/scripts/parse_renewal_log.py: the parser and the derived fields (Log),
-- and the counts and totals of the summary (Totals).
--
-- Sram is sram-startup-state/scripts/run_experiment.py, which captures what the memory of a board
-- holds after a power cycle.
--   Sram.Capture     read_capture, over the clock readings and the lines of the port
--   Sram.Power       power_duration and perform_transition, with the actions on the board as a list
--   Sram.Experiment  the loops of main, with the board as a parameter
--
-- Most loops are structural, on the events, the chunks, the packets, the datagrams, the reads or
-- the lines. Four have fuel. Capture.Transfer has three rounds for each byte of the target and
-- three more: a round either reads a byte or is the first, second or third in a row that does not.
-- Slices.Blocks and Slices.Comparison have a round for each byte of the (first) file, since a block
-- that is not empty takes one, and Teb.Generator has one for each byte of the buffer, since a block
-- writes one at least.
--
-- Not modelled: the options of the command line and the set-up of folders, the failures of sockets
-- and of the file system, a Ctrl-C in the middle of a handler, and the difference between two clock
-- readings in one round of a loop. Times are whole microseconds. Numbers that the scripts keep in
-- floating point are left out, or are whole numbers where they are sums of such; the divisions of
-- integers that may raise OverflowError are kept in the parsers of Teb.BootLog and Renewal, and
-- the other floating-point entries of the summary of Renewal are a parameter that may raise. Of the
-- capture, the reset and the draining of the port, the progress display and the thread that sends UDP
-- packets are left out; of the slices, the command lines of the scripts that are called. The
-- firmware and the server in C are no part of it, nor are the plotting scripts, which draw through
-- third-party libraries.
--
-- Tests holds runs at concrete inputs, and the theorems at them.
pub mod Base
pub mod Python
pub mod Aeb
pub mod Teb
pub mod Capture
pub mod Slices
pub mod Renewal
pub mod Sram
pub mod Tests
