-- ===== src/Coordinator.antt =====
-- crates/team/src/work_coordinator and crates/team/src/work_source.rs: the work of the slots.
pub mod Source
pub mod Model
pub mod Slots
pub mod Snapshot
pub mod Enqueue
pub mod Batches
pub mod Mailbox
pub mod Cancel
pub mod Runtime
pub mod Views
pub mod Invariant
pub mod Filing
pub mod Preserve
pub mod Ownership
pub mod Selection
pub mod Acceptance
pub mod Leases
pub mod Shutdown
pub mod Unread
pub mod Retry
pub mod Summary
pub mod Trace
