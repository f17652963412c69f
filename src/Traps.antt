-- ===== src/Traps.antt =====
-- kernel/src/traps.rs: the trap ring and the digest, saved frames, and the trap handler.
pub mod Ring
pub mod Frame
pub mod Report
pub mod Fault
pub mod Handle
