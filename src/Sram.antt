-- ===== src/Sram.antt =====
-- sram-startup-state: the experiment on what the memory holds at boot.
pub mod Capture
pub mod Power
pub mod Experiment
