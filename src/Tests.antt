-- ===== src/Tests.antt =====
-- The theorems at concrete inputs.
pub mod Memory
pub mod Spaces
pub mod Loader
pub mod Control
pub mod Processes
pub mod Requests
pub mod Machine
pub mod Harts
pub mod Mappings
