-- ===== src/Scheduler.antt =====
-- crates/team/src/scheduler: the members of a team as the scheduler keeps them.
pub mod Names
pub mod Model
pub mod State
pub mod Lifecycle
pub mod Actions
pub mod Recovery
pub mod Wake
pub mod Waking
pub mod Wakes
pub mod Naming
pub mod Turns
pub mod Texts
pub mod Crashes
