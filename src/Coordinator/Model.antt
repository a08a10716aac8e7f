-- ===== src/Coordinator/Model.antt =====
-- crates/team/src/work_coordinator/model.rs: the values that the coordinator keeps and hands out.
use team_lite.Base.{Ident, ℕ, String, Bool, true, false, Option, List}
use team_lite.Coordinator.Source.{WorkPriority, WorkSource}

pub data TeamRunTargetRole : Type 0 where
  lead teammate : TeamRunTargetRole

pub data RuntimeConstraint : Type 0 where
  ready : RuntimeConstraint
  starting : ℕ → RuntimeConstraint
  failed : ℕ → String → RuntimeConstraint
  removing : ℕ → RuntimeConstraint
  session_stopped : RuntimeConstraint

pub data SlotPhase : Type 0 where
  idle queued starting running paused blocked : SlotPhase

-- `starting batch operation`, `running batch operation turn`; the texts are classifications.
pub data WorkIntentState : Type 0 where
  queued : WorkIntentState
  starting : Ident → ℕ → WorkIntentState
  running : Ident → ℕ → Ident → WorkIntentState
  completed : WorkIntentState
  failed cancelled : String → WorkIntentState

unfoldable pub is_terminal : WorkIntentState → Bool
is_terminal WorkIntentState.completed = true
is_terminal (WorkIntentState.failed c) = true
is_terminal (WorkIntentState.cancelled c) = true
is_terminal _ = false

pub record WorkIntent : Type 0 where
  pub intent_id : Ident
  pub session_generation : Ident
  pub slot_id : Ident
  pub role : TeamRunTargetRole
  pub source : WorkSource
  pub priority : WorkPriority
  pub mailbox_message_id : Option Ident
  pub team_run_id : Option Ident
  pub created_at_ms : ℕ
  pub state : WorkIntentState

pub data CausalBinding : Type 0 where
  user_visible : CausalBinding
  inherit_running_batch : Ident → CausalBinding
  active_run_or_background background : CausalBinding

pub record EnqueueRequest : Type 0 where
  pub slot_id : Ident
  pub role : TeamRunTargetRole
  pub source : WorkSource
  pub binding : CausalBinding

pub record EnqueueLease : Type 0 where
  pub lease_id : Ident
  pub session_generation : Ident
  pub slot_id : Ident
  pub role : TeamRunTargetRole
  pub source : WorkSource
  pub team_run_id : Option Ident

pub record WorkBatch : Type 0 where
  pub batch_id : Ident
  pub session_generation : Ident
  pub slot_id : Ident
  pub intent_ids : List Ident
  pub mailbox_message_ids : List Ident
  pub highest_priority : WorkPriority
  pub team_run_ids : List Ident
  pub operation_id : ℕ

pub data ReconcileDecision : Type 0 where
  claim : WorkBatch → ReconcileDecision
  waiting_for_completion : ReconcileDecision
  blocked : RuntimeConstraint → ReconcileDecision
  settle_signals : List Ident → ReconcileDecision
  quiescent : ReconcileDecision

pub data CommitResult : Type 0 where
  committed stale_owner rejected : CommitResult

pub data StartCommitResult : Type 0 where
  accepted cancel_immediately stale_owner : StartCommitResult

pub data EnqueueDisposition : Type 0 where
  accepted queued blocked_runtime_starting : EnqueueDisposition

pub record SlotWorkSnapshot : Type 0 where
  pub slot_id : Ident
  pub role : TeamRunTargetRole
  pub state : SlotPhase
  pub queued_foreground_count : ℕ
  pub queued_background_count : ℕ
  pub active_batch : Option WorkBatch
  pub active_turn_id : Option Ident
  pub active_turn_started_at_ms : Option ℕ
  pub runtime_constraint : RuntimeConstraint
  pub team_run_id : Option Ident

pub record EnqueueCommit : Type 0 where
  pub intent_id : Ident
  pub team_run_id : Option Ident
  pub disposition : EnqueueDisposition
  pub slot : SlotWorkSnapshot

pub record RunWorkSummary : Type 0 where
  pub team_run_id : Ident
  pub queued_intent_count : ℕ
  pub starting_batch_count : ℕ
  pub running_batch_count : ℕ
  pub active_enqueue_lease_count : ℕ
  pub paused_intent_count : ℕ
  pub failed_intent_count : ℕ
  pub slots : List SlotWorkSnapshot

pub record CoordinatorSnapshot : Type 0 where
  pub session_generation : Ident
  pub slots : List SlotWorkSnapshot
  pub active_run_summary : Option RunWorkSummary

pub record ReconcileProjection : Type 0 where
  pub created_recovery_intent_ids : List Ident
  pub retained_intent_ids : List Ident
  pub cleared_stale_intent_ids : List Ident

pub record BatchCancelTarget : Type 0 where
  pub batch : WorkBatch
  pub turn_id : Option Ident

pub record PauseWorkResult : Type 0 where
  pub cancel_target : Option BatchCancelTarget
  pub slot : SlotWorkSnapshot

pub record RemoveWorkResult : Type 0 where
  pub cancel_target : Option BatchCancelTarget
  pub terminal_message_ids : List Ident
  pub affected_run_summaries : List RunWorkSummary

pub record CancelRunWorkResult : Type 0 where
  pub cancel_targets : List BatchCancelTarget
  pub terminal_message_ids : List Ident
  pub summary : RunWorkSummary

pub record RuntimeConstraintUpdate : Type 0 where
  pub slot : SlotWorkSnapshot
  pub terminal_message_ids : List Ident
  pub affected_run_summaries : List RunWorkSummary

pub record RunBinding : Type 0 where
  pub team_run_id : Option Ident
  pub created_new_run : Bool
  pub user_intervention : Bool
