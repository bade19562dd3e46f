-- ===== src/Protocol.antt =====
-- crates/ocfleet-protocol: the wire protocol between controllers and agents.
pub mod Error
pub mod Method
pub mod Json
pub mod Frame
