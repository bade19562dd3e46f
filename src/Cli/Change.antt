-- ===== src/Cli/Change.antt =====
-- crates/ocfleet-cli/src/controlled_writes.rs: the change requests of the controller, from a draft
-- through a dry run to an approval by a second person. No state is ever dispatched.
pub mod State
pub mod Records
pub mod Validate
pub mod Table
pub mod Operations
pub mod Commands
pub mod Steps
pub mod Effects
pub mod Machine
pub mod Refines
pub mod Runs
