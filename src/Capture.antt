-- ===== src/Capture.antt =====
-- esp32-rf-rng-state/scripts/capture_binary.py: the capture of raw bytes over a serial line.
pub mod Search
pub mod Lines
pub mod Scan
pub mod Transfer
pub mod Session
