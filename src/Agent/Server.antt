-- ===== src/Agent/Server.antt =====
-- crates/ocfleet-agent/src/server.rs: the gate that each request passes before anything runs.
pub mod Clock
pub mod Refusal
pub mod Authorize
pub mod Request
pub mod Gate
