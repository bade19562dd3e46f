-- ===== src/Cli/Health.antt =====
-- crates/ocfleet-cli/src/health.rs: the health of a node, from its observations, and its rollups.
pub mod Records
pub mod Latest
pub mod Status
pub mod Rollup
pub mod Evidence
pub mod Percentile
pub mod Slots
pub mod Readable
pub mod Counted
pub mod Consistent
pub mod Healthy
