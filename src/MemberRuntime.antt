-- ===== src/MemberRuntime.antt =====
-- crates/team/src/member_runtime.rs: the runtimes of the members of a team.
pub mod Model
pub mod Registry
pub mod History
pub mod Changes
pub mod Phases
pub mod Invariant
pub mod Closing
pub mod Preserve
pub mod Outcomes
pub mod Spent
pub mod Refusals
pub mod Leases
