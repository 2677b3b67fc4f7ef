-- ===== src/Renewal.antt =====
-- The logs of entropy renewal.
pub mod Log
pub mod Totals
