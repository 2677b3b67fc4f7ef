-- ===== src/Slices.antt =====
-- The scripts that collect and analyse one capture for each boot.
pub mod Blocks
pub mod Statistics
pub mod Comparison
pub mod Plan
pub mod Collection
