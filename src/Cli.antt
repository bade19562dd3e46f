-- ===== src/Cli.antt =====
-- crates/ocfleet-cli: the controller's command line, its store and its reports.
pub mod Slo
pub mod Input
pub mod Change
pub mod Observation
pub mod Health
pub mod Scheduler
