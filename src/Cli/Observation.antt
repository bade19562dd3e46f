-- ===== src/Cli/Observation.antt =====
-- crates/ocfleet-cli/src/observation.rs: the projection of the stored summary of an observation.
pub mod Projection
pub mod Safe
pub mod Budget
