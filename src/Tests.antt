-- ===== src/Tests.antt =====
-- Concrete inputs, runs on them, and the theorems at them.
pub mod Inputs
pub mod Wire
pub mod Finalize
pub mod Collector
pub mod Server
pub mod Sender
pub mod Nonce
pub mod Capture
pub mod Slices
pub mod Logs
pub mod Sram
