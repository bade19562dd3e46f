-- ===== src/Agent.antt =====
-- crates/ocfleet-agent: the daemon beside each VPN gateway.
pub mod Nonce
pub mod Authz
pub mod Server
pub mod AuditLimiter
pub mod Limiters
