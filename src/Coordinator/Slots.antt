-- ===== src/Coordinator/Slots.antt =====
-- crates/team/src/work_coordinator/coordinator.rs: the state under the coordinator's lock, and the
-- methods of one slot.
use native.Mathlib.Decide.{ℕ_discrete}
use team_lite.Base.{
  Ident, ℕ, Bool, false, Option, none, some, List, [], ◌∷◌, ◌++◌, Map, without, if◌then◌else◌,
}
use team_lite.Errors.{
  Result, ok, err, invalid_request, slot_was_removed, slot_runtime_failed, slot_being_removed,
  slot_session_stopped,
}
use team_lite.Coordinator.Source.{WorkPriority}
use team_lite.Coordinator.Model.{
  TeamRunTargetRole, RuntimeConstraint, WorkIntentState, WorkIntent, EnqueueLease, WorkBatch,
  RunBinding, RunWorkSummary,
}

pub record EnqueueLeaseRecord : Type 0 where
  pub lease : EnqueueLease
  pub binding : RunBinding

pub record ActiveBatch : Type 0 where
  pub batch : WorkBatch
  pub turn_id : Option Ident
  pub started_at_ms : Option ℕ

pub record SlotState : Type 0 where
  pub role : TeamRunTargetRole
  pub foreground : List Ident
  pub control : List Ident
  pub background : List Ident
  pub active : Option ActiveBatch
  pub paused : Bool
  pub runtime_constraint : RuntimeConstraint
  pub known_unread_message_ids : List Ident
  pub removed : Bool

pub record CoordinatorState : Type 0 where
  pub slots : Map SlotState
  pub intents : Map WorkIntent
  pub enqueue_leases : Map EnqueueLeaseRecord
  pub next_operation_id : ℕ

-- What an operation leaves: its result, the state, and the run summaries that it hands to
-- `apply_work_summary` after the lock is released, in order.
pub record Outcome (A : Type 0) : Type 0 where
  pub result : A
  pub state : CoordinatorState
  pub published : List RunWorkSummary

unfoldable pub EnqueueLease-discrete : Discrete EnqueueLease
EnqueueLease-discrete = hlevel ℕ_discrete

unfoldable pub new_slot : TeamRunTargetRole → SlotState
new_slot role = record {
  role = role;
  foreground = [];
  control = [];
  background = [];
  active = none;
  paused = false;
  runtime_constraint = RuntimeConstraint.starting 0;
  known_unread_message_ids = [];
  removed = false;
}

-- `entry(…).or_insert_with(…)`: the slot found, or a new one.
unfoldable pub slot_or_new : TeamRunTargetRole → Option SlotState → SlotState
unfolding new_slot
slot_or_new role none = new_slot role
slot_or_new role (some slot) = slot

unfoldable pub queue : SlotState → WorkPriority → List Ident
queue slot WorkPriority.foreground = slot.foreground
queue slot WorkPriority.control = slot.control
queue slot WorkPriority.background = slot.background

-- A write through `queue_mut`.
unfoldable pub update_queue : WorkPriority → (List Ident → List Ident) → SlotState → SlotState
update_queue WorkPriority.foreground f slot = record slot { foreground = f slot.foreground }
update_queue WorkPriority.control f slot = record slot { control = f slot.control }
update_queue WorkPriority.background f slot = record slot { background = f slot.background }

unfoldable pub push_back : WorkPriority → Ident → SlotState → SlotState
unfolding update_queue
push_back p i = update_queue p (λ q. q ++ i ∷ [])

unfoldable pub push_front : WorkPriority → Ident → SlotState → SlotState
unfolding update_queue
push_front p i = update_queue p (λ q. i ∷ q)

unfoldable pub queued_ids : SlotState → List Ident
queued_ids slot = slot.foreground ++ (slot.control ++ slot.background)

unfoldable pub remove_queued : Ident → SlotState → SlotState
remove_queued i slot = record slot {
  foreground = without i slot.foreground;
  control = without i slot.control;
  background = without i slot.background;
}

-- The loop that calls `remove_queued` for each identifier.
unfoldable pub remove_queued_each : List Ident → SlotState → SlotState
unfolding remove_queued
remove_queued_each [] slot = slot
remove_queued_each (i ∷ is) slot = remove_queued_each is (remove_queued i slot)

-- `foreground.clear(); control.clear(); background.clear(); active = None`.
unfoldable pub clear_work : SlotState → SlotState
clear_work slot = record slot { foreground = []; control = []; background = []; active = none }

unfoldable pub set_state : WorkIntentState → WorkIntent → WorkIntent
set_state st w = record w { state = st }

-- The second half of `validate_enqueue_constraint`.
unfoldable pub validate_constraint : Ident → RuntimeConstraint → Result (Unit {0})
validate_constraint slot_id RuntimeConstraint.ready = ok tt
validate_constraint slot_id (RuntimeConstraint.starting op) = ok tt
validate_constraint slot_id (RuntimeConstraint.failed op classification) =
    err (invalid_request (slot_runtime_failed classification slot_id))
validate_constraint slot_id (RuntimeConstraint.removing op) =
    err (invalid_request (slot_being_removed slot_id))
validate_constraint slot_id RuntimeConstraint.session_stopped =
    err (invalid_request (slot_session_stopped slot_id))

unfoldable pub validate_enqueue_constraint : Ident → SlotState → Result (Unit {0})
unfolding validate_constraint
validate_enqueue_constraint slot_id slot =
    if slot.removed
    then err (invalid_request (slot_was_removed slot_id))
    else validate_constraint slot_id slot.runtime_constraint
