-- ===== src/Cli/Slo.antt =====
-- crates/ocfleet-cli/src/slo.rs: the service-level report of a node, from its health rollups.
pub mod Data
pub mod Checks
pub mod Report
pub mod Rows
pub mod Sums
pub mod Totals
pub mod Projected
