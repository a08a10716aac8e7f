-- ===== src/Coordinator/Runtime.antt =====
-- crates/team/src/work_coordinator/coordinator.rs: `pause_slot`, `set_runtime_constraint`,
-- `remove_slot` and `stop`.
use team_lite.Base.{
  Ident, String, Bool, true, Option, none, some, List, [], ◌∷◌, ◌++◌, Map, get, insert, modify,
  modify_each, modify_values, values, keep, collect, every, mem, map, map_option, not, to_set, ltb,
  ◌&&◌, ◌||◌, ◌==◌, is_some, if◌then◌else◌,
}
use team_lite.Errors.{Result, ok, panicked}
use team_lite.Coordinator.Source.{WorkPriority}
use team_lite.Coordinator.Model.{
  TeamRunTargetRole, RuntimeConstraint, WorkIntentState, WorkIntent, RunWorkSummary,
  BatchCancelTarget, PauseWorkResult, RemoveWorkResult, RuntimeConstraintUpdate, is_terminal,
}
use team_lite.Coordinator.Slots.{
  ActiveBatch, SlotState, CoordinatorState, Outcome, slot_or_new, queued_ids, push_back, clear_work,
  set_state,
}
use team_lite.Coordinator.Snapshot.{slot_view, run_of, run_summary_locked, all_run_ids}
use team_lite.Coordinator.Batches.{message_of}
use team_lite.Coordinator.Cancel.{present}

abbrev pub cancel_target : SlotState → Option BatchCancelTarget
cancel_target slot =
    map_option (λ (a : ActiveBatch). record { batch = a.batch; turn_id = a.turn_id }) slot.active

unfoldable pub pause_slot : Ident → CoordinatorState → Outcome PauseWorkResult
unfolding slot_or_new slot_view
pause_slot slot_id s =
    let slot : SlotState = record (slot_or_new TeamRunTargetRole.teammate (get slot_id s.slots)) {
      paused = true;
    } in
    record {
      result = record {
        cancel_target = cancel_target slot;
        slot = slot_view s.intents slot_id slot;
      };
      state = record s { slots = insert slot_id slot s.slots };
      published = [];
    }

-- The intents of the slot that are not terminal.
abbrev pub open_in : Ident → WorkIntent → Bool
open_in slot_id w = (w.slot_id == slot_id) && not (is_terminal w.state)

abbrev pub open_ids : Ident → CoordinatorState → List Ident
open_ids slot_id s =
    map (λ (w : WorkIntent). w.intent_id) (keep (open_in slot_id) (values s.intents))

-- A failed runtime puts work without a run back in its queue, and fails the rest.
unfoldable pub fail_intent : String → WorkIntent → WorkIntent
unfolding set_state
fail_intent classification w =
    if is_some w.team_run_id
    then set_state (WorkIntentState.failed classification) w
    else set_state WorkIntentState.queued w

abbrev pub has_run : Map WorkIntent → Ident → Bool
has_run intents i = is_some (run_of intents i)

-- The intents without a run, with their priorities: `requeue_background`.
unfoldable pub requeued_of : Map WorkIntent → List Ident → List (WorkPriority × Ident)
requeued_of intents [] = []
requeued_of intents (i ∷ is) =
    let rest = requeued_of intents is in
    elim (get i intents) [
      | none ↦ rest
      | some w ↦ if is_some w.team_run_id then rest else (w.priority, i) ∷ rest
    ]

unfoldable pub requeue_back : List (WorkPriority × Ident) → SlotState → SlotState
unfolding push_back
requeue_back [] slot = slot
requeue_back ((p, i) ∷ r) slot = requeue_back r (push_back p i slot)

-- The writes of the branch for `Failed`, and of the one for `SessionStopped`.
unfoldable pub fail_slot : Ident → String → SlotState → CoordinatorState → CoordinatorState
unfolding is_terminal fail_intent requeued_of requeue_back clear_work
fail_slot slot_id classification slot s = record s {
  slots =
      insert slot_id (requeue_back (requeued_of s.intents (open_ids slot_id s)) (clear_work slot))
        s.slots;
  intents = modify_each (open_ids slot_id s) (fail_intent classification) s.intents;
}

unfoldable pub stop_slot : Ident → SlotState → CoordinatorState → CoordinatorState
unfolding is_terminal set_state clear_work
stop_slot slot_id slot s = record s {
  slots = insert slot_id (clear_work slot) s.slots;
  intents =
      modify_each (open_ids slot_id s) (set_state (WorkIntentState.cancelled "session_stopped"))
        s.intents;
}

-- The state, the terminal messages and the affected runs.
unfoldable pub constrain :
    RuntimeConstraint
    → Ident
    → SlotState
    → CoordinatorState
    → CoordinatorState × List Ident × List Ident
unfolding is_terminal fail_slot stop_slot
constrain (RuntimeConstraint.failed op classification) slot_id slot s = (
  fail_slot slot_id classification slot s,
  collect (message_of s.intents) (keep (has_run s.intents) (open_ids slot_id s)),
  to_set (collect (run_of s.intents) (open_ids slot_id s)),
)
constrain RuntimeConstraint.session_stopped slot_id slot s = (
  stop_slot slot_id slot s,
  collect (message_of s.intents) (open_ids slot_id s),
  to_set (collect (run_of s.intents) (open_ids slot_id s)),
)
constrain _ slot_id slot s = (record s { slots = insert slot_id slot s.slots }, [], [])

-- The result's slot view is absent only if the slot is, which `expect` excludes.
unfoldable pub set_runtime_constraint :
    Ident → RuntimeConstraint → CoordinatorState → Outcome (Result RuntimeConstraintUpdate)
unfolding slot_or_new constrain run_summary_locked slot_view
set_runtime_constraint slot_id constraint s =
    let slot : SlotState = record (slot_or_new TeamRunTargetRole.teammate (get slot_id s.slots)) {
      runtime_constraint = constraint;
    } in
    let (t, messages, runs) = constrain constraint slot_id slot s in
    let summaries : List RunWorkSummary = map (run_summary_locked t) runs in
    elim (get slot_id t.slots) [
      | none ↦ record { result = panicked; state = t; published = [] }
      | some slot' ↦ record {
        result = ok (record {
          slot = slot_view t.intents slot_id slot';
          terminal_message_ids = messages;
          affected_run_summaries = summaries;
        });
        state = t;
        published = summaries;
      }
    ]

-- `sort_by_key` on the creation time, then on the identifier.
abbrev pub before : WorkIntent → WorkIntent → Bool
before v w =
    ltb v.created_at_ms w.created_at_ms
    || ((v.created_at_ms == w.created_at_ms) && ltb v.intent_id w.intent_id)

unfoldable pub sort_insert : WorkIntent → List WorkIntent → List WorkIntent
sort_insert v [] = v ∷ []
sort_insert v (w ∷ ws) = let rest = sort_insert v ws in if before w v then w ∷ rest else v ∷ w ∷ ws

unfoldable pub sort_by_age : List WorkIntent → List WorkIntent
unfolding sort_insert
sort_by_age [] = []
sort_by_age (w ∷ ws) = sort_insert w (sort_by_age ws)

abbrev pub slot_work : Option SlotState → List Ident
slot_work none = []
slot_work (some slot) =
    elim slot.active [ none ↦ [] | some a ↦ a.batch.intent_ids ] ++ queued_ids slot

-- The work of the slot: its batch, its queues, then any other intent that is open, by age.
unfoldable pub removal_ids : Ident → CoordinatorState → List Ident
unfolding is_terminal queued_ids sort_by_age
removal_ids slot_id s =
    let ordered : List Ident = slot_work (get slot_id s.slots) in
    ordered
    ++ map (λ (w : WorkIntent). w.intent_id)
        (sort_by_age
          (keep (λ w. open_in slot_id w && not (mem w.intent_id ordered)) (values s.intents)))

abbrev pub discard : SlotState → SlotState
discard slot = record (clear_work slot) { removed = true }

unfoldable pub remove_slot : Ident → CoordinatorState → Outcome (Result RemoveWorkResult)
unfolding removal_ids set_state clear_work run_summary_locked
remove_slot slot_id s =
    let ids : List Ident = removal_ids slot_id s in
    let t : CoordinatorState = record s {
      slots = modify slot_id discard s.slots;
      intents = modify_each ids (set_state (WorkIntentState.cancelled "slot_removed")) s.intents;
    } in
    let summaries : List RunWorkSummary =
      map (run_summary_locked t) (to_set (collect (run_of s.intents) ids)) in
    if not (every (present s.intents) ids)
    then record { result = panicked; state = s; published = [] }
    else record {
      result = ok (record {
        cancel_target = elim (get slot_id s.slots) [ none ↦ none | some slot ↦ cancel_target slot ];
        terminal_message_ids = collect (message_of s.intents) ids;
        affected_run_summaries = summaries;
      });
      state = t;
      published = summaries;
    }

unfoldable pub stop_intent : WorkIntent → WorkIntent
unfolding is_terminal set_state
stop_intent w =
    if is_terminal w.state then w else set_state (WorkIntentState.cancelled "session_stopped") w

unfoldable pub halt : SlotState → SlotState
unfolding clear_work
halt slot = record (clear_work slot) { runtime_constraint = RuntimeConstraint.session_stopped }

unfoldable pub stop : CoordinatorState → Outcome (List RunWorkSummary)
unfolding stop_intent halt all_run_ids run_summary_locked
stop s =
    let t : CoordinatorState = record s {
      slots = modify_values halt s.slots;
      intents = modify_values stop_intent s.intents;
      enqueue_leases = [];
    } in
    let summaries : List RunWorkSummary = map (run_summary_locked t) (all_run_ids s) in
    record { result = summaries; state = t; published = summaries }
