-- ===== src/Cli/Scheduler.antt =====
-- The scheduler of the controller: the claims, leases and runs of its jobs in
-- crates/ocfleet-cli/src/store.rs.
pub mod Records
pub mod Checks
pub mod Claims
pub mod Leases
pub mod Runs
pub mod Outcomes
pub mod Planning
pub mod Retries
pub mod Steps
pub mod Effects
pub mod RunEffects
pub mod OutcomeEffects
pub mod JobClock
pub mod Changes
pub mod Fence
pub mod Exclusive
pub mod Recovery
