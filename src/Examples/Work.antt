-- ===== src/Examples/Work.antt =====
-- The properties of the coordinator, at the states of the scenario.
use team_lite.Base.{
  Ident, get, true, false, some, [], ◌∷◌, ◌≡◌, refl, insert, modify, none, is_empty, keep, ◌+◌,
  arith, if◌then◌else◌, mem, map_option, some_and,
}
use team_lite.Coordinator.Source.{
  WorkPriority, priority, resumes_paused_slot, requires_mailbox_message,
}
use team_lite.Coordinator.Model.{
  TeamRunTargetRole, RuntimeConstraint, RemoveWorkResult, CancelRunWorkResult, WorkIntentState,
  CommitResult,
}
use team_lite.Coordinator.Slots.{
  CoordinatorState, EnqueueLease-discrete, slot_or_new, new_slot, queue, update_queue, push_back,
  queued_ids, validate_constraint, validate_enqueue_constraint, SlotState, set_state,
  remove_queued_each, remove_queued,
}
use team_lite.Coordinator.Enqueue.{
  acquire_enqueue, bind_run, new_lease, grant_lease, disposition, is_own_lease, check_commit,
  new_intent, accept_intent, commit_enqueue,
}
use team_lite.Coordinator.Runtime.{
  set_runtime_constraint, constrain, remove_slot, stop, cancel_target, discard, open_in,
}
use team_lite.Coordinator.Batches.{
  selected_priority, distinct_runs, make_batch, claim_batch, take_queue, take_selected, next_for,
  next, mark_started, start_batch, retry_start, begin_turn, is_current_batch, terminalize_batch,
  has_message,
}
use mathlib.Core.Bool.{decide}
use native.Mathlib.Decide.{ℕ_discrete}
use team_lite.Coordinator.Trace.{initial, perform, perform_batch, Reach}
use team_lite.Coordinator.Trace.Safety.{Good, Reach-Good}
use team_lite.Coordinator.Snapshot.{run_summary_locked}
use team_lite.Coordinator.Retry.{Returned, next-retry}
use team_lite.Errors.{ok}
use team_lite.Coordinator.Unread.{Carried, reconcile_mailbox-Carried}
use team_lite.Coordinator.Selection.{CanStart, IsSelected, Serves, next-progress, next-claims}
use team_lite.Coordinator.Shutdown.{Stopped, stop-Stopped, remove_slot-ok}
use team_lite.Coordinator.Preserve.Recovery.{Fresh}
use team_lite.Coordinator.Cancel.{cancel_run}
use team_lite.Coordinator.Mailbox.{reconcile_mailbox}
use team_lite.Coordinator.Views.{active_batch}
use team_lite.Coordinator.Preserve.CancelRun.{Cancelled, cancel_run-ok}
use team_lite.Coordinator.Ownership.{terminalize_batch-ends}
use team_lite.Examples.Scenario.{
  ready, batch, claimed, working, begun, worked, ready_history, history, begun-Inv, begun-Filed,
}

next-retry_example : Returned 1 batch ready (retry_start 1 batch working)
next-retry_example = next-retry 1 300 1 batch ready (Reach-Good 1 ready_history).inv claimed

Reach-Good_example : Good worked
Reach-Good_example = Reach-Good 1 history

abbrev begun_slot : SlotState
begun_slot = record {
  role = TeamRunTargetRole.lead;
  foreground = [];
  control = [];
  background = [];
  active = some (record { batch = batch; turn_id = some 400; started_at_ms = some 20 });
  paused = false;
  runtime_constraint = RuntimeConstraint.ready;
  known_unread_message_ids = 50 ∷ [];
  removed = false;
}

begun_lem : get 1 begun.slots ≡ some begun_slot
unfolding next next_for take_selected take_queue claim_batch make_batch distinct_runs
    selected_priority queue initial perform acquire_enqueue bind_run new_lease grant_lease
    slot_or_new new_slot validate_enqueue_constraint validate_constraint commit_enqueue check_commit
    disposition is_own_lease new_intent accept_intent push_back update_queue queued_ids
    EnqueueLease-discrete resumes_paused_slot requires_mailbox_message priority
    set_runtime_constraint constrain decide ℕ_discrete insert mark_started perform_batch modify
    start_batch remove_queued_each remove_queued begin_turn is_current_batch
begun_lem = refl

cancel_run-ok_example :
    (r : CancelRunWorkResult) × ((cancel_run 7 begun).result ≡ ok r)
    × ((cancel_run 7 begun).published ≡ run_summary_locked (cancel_run 7 begun).state 7 ∷ [])
    × (r.summary ≡ run_summary_locked (cancel_run 7 begun).state 7)
    × Cancelled 7 begun (cancel_run 7 begun).state
cancel_run-ok_example = cancel_run-ok 7 begun begun-Inv begun-Filed

is_current : is_current_batch 1 begun batch ≡ true
unfolding is_current_batch
is_current = rw begun_lem refl

terminalize_batch-ends_example :
    let s' = (terminalize_batch 1 batch WorkIntentState.completed begun).state in
    ((terminalize_batch 1 batch WorkIntentState.completed begun).result ≡ CommitResult.committed)
    × (active_batch s' 1 ≡ none)
    × ((i : Ident)
        → get i s'.intents ≡ (
            if mem i (200 ∷ [])
            then map_option (set_state WorkIntentState.completed) (get i begun.intents)
            else get i begun.intents))
    × ((terminalize_batch 1 batch (WorkIntentState.failed "late") s').result
        ≡ CommitResult.stale_owner)
    × ((terminalize_batch 1 batch (WorkIntentState.failed "late") s').state ≡ s')
    × ((terminalize_batch 1 batch (WorkIntentState.failed "late") s').published ≡ [])
terminalize_batch-ends_example =
    terminalize_batch-ends 1 batch WorkIntentState.completed (WorkIntentState.failed "late") begun
      is_current

next-claims_example :
    (slot : SlotState) × (get 1 ready.slots ≡ some slot)
    × CanStart slot
    × IsSelected slot WorkPriority.foreground
    × (200 ∷ [] ≡ keep (has_message ready.intents) (queue slot WorkPriority.foreground))
    × (is_empty batch.intent_ids ≡ false)
next-claims_example = next-claims 1 300 1 batch ready claimed

abbrev waiting_slot : SlotState
waiting_slot = record begun_slot { foreground = 200 ∷ []; active = none }

abbrev waiting : CoordinatorState
waiting = record {
  slots = (1, waiting_slot) ∷ [];
  intents = [];
  enqueue_leases = [];
  next_operation_id = 0;
}

work_waits : is_empty (queued_ids waiting_slot) ≡ false
unfolding queued_ids
work_waits = refl

next-progress_example :
    (p : WorkPriority) × IsSelected waiting_slot p
    × Serves waiting waiting_slot p (next 1 300 1 waiting).result
next-progress_example =
    next-progress 1 300 1 waiting_slot waiting refl
      (record { idle = refl; is_up = refl; unpaused = refl }) work_waits

new_ids : Fresh (λ k. k + 500) 0 initial.state
unfolding initial
new_ids = record { unused = λ k h. refl; distinct = λ j k h. omega arith }

reconcile_mailbox-Carried_example :
    Carried 1 50
      (reconcile_mailbox 1 (λ k. k + 500) 10 1 (50 ∷ []) TeamRunTargetRole.lead initial.state).state
reconcile_mailbox-Carried_example =
    reconcile_mailbox-Carried 1 1 TeamRunTargetRole.lead 10 (λ k. k + 500) (50 ∷ []) 50
      initial.state (Reach-Good 1 Reach.here).inv new_ids refl

stop-Stopped_example : Stopped begun (stop begun).state
stop-Stopped_example = stop-Stopped begun

remove_slot-ok_example :
    (r : RemoveWorkResult) × ((remove_slot 1 begun).result ≡ ok r)
    × (r.cancel_target ≡ cancel_target begun_slot)
    × (get 1 (remove_slot 1 begun).state.slots ≡ some (discard begun_slot))
    × ((i : Ident)
        → get i (remove_slot 1 begun).state.intents ≡ (
            if some_and (open_in 1) (get i begun.intents)
            then map_option
                (set_state (WorkIntentState.cancelled "slot_removed"))
                (get i begun.intents)
            else get i begun.intents))
remove_slot-ok_example = remove_slot-ok 1 begun begun_slot begun-Inv begun_lem
