-- ===== src/Teb.antt =====
-- entropy-capsule-bootstrap: the beacon server of the boot capsules, the log of a boot, the samples of
-- a memory, and the generator for its keys.
pub mod Server
pub mod BootLog
pub mod Puf
pub mod Generator
