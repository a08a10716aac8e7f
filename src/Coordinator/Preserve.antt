-- ===== src/Coordinator/Preserve.antt =====
-- crates/team/src/work_coordinator/coordinator.rs: the calls and the invariant.
pub mod Slots
pub mod Batches
pub mod Claim
pub mod Enqueue
pub mod Mailbox
pub mod Selection
pub mod Recovery
pub mod Runtime
pub mod Removal
pub mod Constraint
pub mod CancelActive
pub mod CancelLoop
pub mod CancelQueued
pub mod CancelRun
pub mod Moves
pub mod Effects
pub mod Decisions
