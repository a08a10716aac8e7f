-- ===== src/TeamRun.antt =====
-- crates/team/src/team_run: the run of a team.
pub mod Record
pub mod Payload
pub mod Manager
pub mod Binding
