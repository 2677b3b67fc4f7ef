-- ===== src/Aeb.antt =====
-- rf-actuated-boot-entropy/scripts: aeb_collector.py, the UDP collector of pre-hash WDEV bytes,
-- stimulus_sender.py, which only sends, and parse_aeb_log.py, which reads the log of the serial port.
pub mod Wire
pub mod ResultLine
pub mod Jitter
pub mod Trial
pub mod Parts
pub mod Finalize
pub mod Nonce
pub mod Stimulus
pub mod Sender
pub mod Collector
pub mod Log
