-- ===== src/Payload.antt =====
-- kernel/src/payload.rs: capabilities, images, the process table, checkpoints, the scheduler, the
-- syscall hooks and the operator's keys, a module for each.
pub mod Slot
pub mod Keys
pub mod Kills
pub mod Images
pub mod Table
pub mod Suites
pub mod Checkpoint
pub mod Hooks
pub mod Preempt
pub mod Scheduler
pub mod Lineage
pub mod Attenuation
pub mod Grants
pub mod Soundness
pub mod Report
pub mod Output
