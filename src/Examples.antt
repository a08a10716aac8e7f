-- ===== src/Examples.antt =====
-- One message of one slot, followed through the program: an example of each property.
pub mod Scenario
pub mod Work
pub mod Commits
pub mod Runs
pub mod Mailboxes
pub mod Members
pub mod Boards
pub mod Teams
pub mod Sessions
