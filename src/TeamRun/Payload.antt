-- ===== src/TeamRun/Payload.antt =====
-- crates/team/src/team_run/manager.rs: what is sent about a run and its slots, with the types of
-- crates/api-types/src/team.rs.
use team_lite.Base.{Ident, ℕ, Bool, Option, none, some, List, map_option, map, leb, ◌-◌}
use team_lite.Coordinator.Model.{
  SlotPhase, SlotWorkSnapshot, RuntimeConstraint, TeamRunTargetRole, RunWorkSummary,
}
use team_lite.TeamRun.Record.{TeamRunStatus, TeamRunSource, TeamRunRecord}

-- `api-types`: what is sent about a slot and about the run.
pub data TeamSlotBlockedReason : Type 0 where
  runtime_starting runtime_failed removing session_stopped : TeamSlotBlockedReason

pub record TeamSlotWorkPayload : Type 0 where
  pub slot_id : Ident
  pub role : TeamRunTargetRole
  pub state : SlotPhase
  pub queued_foreground_count : ℕ
  pub queued_background_count : ℕ
  pub active_turn_id : Option Ident
  pub active_turn_started_at_ms : Option ℕ
  pub active_turn_elapsed_ms : Option ℕ
  pub active_turn_slow : Option Bool
  pub active_turn_slow_threshold_ms : Option ℕ
  pub blocked_reason : Option TeamSlotBlockedReason
  pub team_run_id : Option Ident

pub record TeamRunPayload : Type 0 where
  pub team_id : Ident
  pub team_run_id : Ident
  pub source : TeamRunSource
  pub has_user_intervention : Bool
  pub target_slot_id : Ident
  pub target_role : TeamRunTargetRole
  pub status : TeamRunStatus
  pub queued_intent_count : ℕ
  pub starting_batch_count : ℕ
  pub running_batch_count : ℕ
  pub active_enqueue_lease_count : ℕ
  pub slot_work : List TeamSlotWorkPayload

abbrev pub active_turn_slow_threshold_ms : ℕ
active_turn_slow_threshold_ms = 600000

abbrev pub blocked_reason : RuntimeConstraint → Option TeamSlotBlockedReason
blocked_reason RuntimeConstraint.ready = none
blocked_reason (RuntimeConstraint.starting op) = some runtime_starting
blocked_reason (RuntimeConstraint.failed op c) = some runtime_failed
blocked_reason (RuntimeConstraint.removing op) = some removing
blocked_reason RuntimeConstraint.session_stopped = some session_stopped

-- The two types of phases have the same six cases; the model has one. A subtraction below zero
-- gives 0, here and in the code.
unfoldable pub slot_payload : ℕ → SlotWorkSnapshot → TeamSlotWorkPayload
slot_payload now slot =
    let elapsed : Option ℕ =
      map_option (λ (started : ℕ). now - started) slot.active_turn_started_at_ms in
    record {
      slot_id = slot.slot_id;
      role = slot.role;
      state = slot.state;
      queued_foreground_count = slot.queued_foreground_count;
      queued_background_count = slot.queued_background_count;
      active_turn_id = slot.active_turn_id;
      active_turn_started_at_ms = slot.active_turn_started_at_ms;
      active_turn_elapsed_ms = elapsed;
      active_turn_slow = map_option (λ (e : ℕ). leb active_turn_slow_threshold_ms e) elapsed;
      active_turn_slow_threshold_ms =
          map_option (λ (t : Ident). active_turn_slow_threshold_ms) slot.active_turn_id;
      blocked_reason = blocked_reason slot.runtime_constraint;
      team_run_id = slot.team_run_id;
    }

unfoldable pub payload : Ident → ℕ → TeamRunRecord → RunWorkSummary → TeamRunPayload
unfolding slot_payload
payload team_id now run m = record {
  team_id = team_id;
  team_run_id = run.team_run_id;
  source = run.source;
  has_user_intervention = run.has_user_intervention;
  target_slot_id = run.target_slot_id;
  target_role = run.target_role;
  status = run.status;
  queued_intent_count = m.queued_intent_count;
  starting_batch_count = m.starting_batch_count;
  running_batch_count = m.running_batch_count;
  active_enqueue_lease_count = m.active_enqueue_lease_count;
  slot_work = map (slot_payload now) m.slots;
}
