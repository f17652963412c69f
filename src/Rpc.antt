-- ===== src/Rpc.antt =====
-- kernel/src/rpc.rs: the JSON-RPC control plane.
pub mod Ops
pub mod Json
pub mod Answers
pub mod Catalog
pub mod Request
pub mod Names
pub mod Tools
pub mod Dispatch
