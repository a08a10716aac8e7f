-- ===== src/TeamRun/Record.antt =====
-- crates/team/src/team_run/manager.rs: the record of a run, with the types of
-- crates/api-types/src/team.rs and the events of crates/team/src/events.rs that it uses.
use team_lite.Base.{Ident, ℕ, String, Bool, true, false, Option}
use team_lite.Coordinator.Model.{TeamRunTargetRole, RunWorkSummary}

pub data TeamRunStatus : Type 0 where
  accepted running cancelling completed cancelled failed : TeamRunStatus

pub data TeamRunSource : Type 0 where
  user_message : TeamRunSource

pub data TeamRunEvent : Type 0 where
  run_accepted run_started run_updated run_completed run_cancelled run_failed : TeamRunEvent

pub record TeamRunRecord : Type 0 where
  pub team_run_id : Ident
  pub source : TeamRunSource
  pub has_user_intervention : Bool
  pub target_slot_id : Ident
  pub target_role : TeamRunTargetRole
  pub status : TeamRunStatus
  pub started_at_ms : Option ℕ
  pub completed_at_ms : Option ℕ
  pub cancel_reason : Option String
  pub summary : Option RunWorkSummary
  pub accepted_emitted : Bool

unfoldable pub TeamRunStatus-discrete : Discrete TeamRunStatus
TeamRunStatus-discrete = hlevel

unfoldable pub is_active : TeamRunStatus → Bool
is_active accepted = true
is_active running = true
is_active cancelling = true
is_active _ = false
