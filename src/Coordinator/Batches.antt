-- ===== src/Coordinator/Batches.antt =====
-- crates/team/src/work_coordinator/coordinator.rs: the life of a batch, from `next`, which claims
-- it, to `complete_batch`, `fail_batch`, `cancel_batch` or `retry_start`.
use team_lite.Base.{
  Ident, ℕ, String, Bool, false, Option, none, some, List, [], ◌∷◌, ◌++◌, ◌+◌, min, Map, get,
  modify, modify_each, keep, collect, every, is_empty, mem, not, ◌&&◌, ◌||◌, ◌==◌, is_some,
  some_and, map_option, if◌then◌else◌,
}
use team_lite.Coordinator.Source.{WorkPriority}
use team_lite.Coordinator.Model.{
  WorkIntentState, WorkIntent, WorkBatch, ReconcileDecision, CommitResult, StartCommitResult,
}
use team_lite.Coordinator.Slots.{
  ActiveBatch, SlotState, CoordinatorState, Outcome, queue, update_queue, remove_queued_each,
  set_state,
}
use team_lite.Coordinator.Snapshot.{is_ready, is_cancelled, run_of, run_summaries_locked}

abbrev pub u64_max : ℕ
u64_max = 18446744073709551615

-- `saturating_add(1)` on a `u64`.
abbrev pub saturating_suc : ℕ → ℕ
saturating_suc n = min (n + 1) u64_max

-- The first priority, in order, whose queue holds something.
unfoldable pub selected_priority : SlotState → Option WorkPriority
selected_priority slot =
    if not (is_empty slot.foreground)
    then some WorkPriority.foreground
    else if not (is_empty slot.control)
    then some WorkPriority.control
    else if not (is_empty slot.background)
    then some WorkPriority.background
    else none

abbrev pub message_of : Map WorkIntent → Ident → Option Ident
message_of intents i = elim (get i intents) [ none ↦ none | some w ↦ w.mailbox_message_id ]

abbrev pub has_message : Map WorkIntent → Ident → Bool
has_message intents i = is_some (message_of intents i)

-- The runs of some intents, each once, in order of first appearance.
unfoldable pub distinct_runs : Map WorkIntent → List Ident → List Ident → List Ident
distinct_runs intents seen [] = seen
distinct_runs intents seen (i ∷ is) =
    distinct_runs intents
      (elim (run_of intents i) [
        | none ↦ seen
        | some run ↦ if mem run seen then seen else seen ++ run ∷ []
      ])
      is

unfoldable pub make_batch :
    Ident → Map WorkIntent → Ident → Ident → WorkPriority → List Ident → ℕ → WorkBatch
unfolding distinct_runs
make_batch generation intents batch_id slot_id p ids op = record {
  batch_id = batch_id;
  session_generation = generation;
  slot_id = slot_id;
  intent_ids = ids;
  mailbox_message_ids = collect (message_of intents) ids;
  highest_priority = p;
  team_run_ids = distinct_runs intents [] ids;
  operation_id = op;
}

-- The slot that works on the batch: its intents leave the queues.
unfoldable pub start_batch : WorkBatch → SlotState → SlotState
unfolding remove_queued_each
start_batch b slot = record (remove_queued_each b.intent_ids slot) {
  active = some (record { batch = b; turn_id = none; started_at_ms = none });
}

abbrev pub decided : ReconcileDecision → CoordinatorState → Outcome ReconcileDecision
decided d s = record { result = d; state = s; published = [] }

unfoldable pub claim_batch :
    Ident → Ident → Ident → WorkPriority → List Ident → CoordinatorState → Outcome ReconcileDecision
unfolding make_batch start_batch set_state run_summaries_locked
claim_batch generation batch_id slot_id p ids s =
    let op : ℕ = saturating_suc s.next_operation_id in
    let b : WorkBatch = make_batch generation s.intents batch_id slot_id p ids op in
    let s' : CoordinatorState = record s {
      slots = modify slot_id (start_batch b) s.slots;
      intents = modify_each ids (set_state (WorkIntentState.starting batch_id op)) s.intents;
      next_operation_id = op;
    } in
    record {
      result = ReconcileDecision.claim b;
      state = s';
      published = run_summaries_locked s' b.team_run_ids;
    }

-- The intents of a queue that carry a message make a batch; a queue of signals alone is settled.
unfoldable pub take_queue :
    Ident → Ident → Ident → WorkPriority → SlotState → CoordinatorState → Outcome ReconcileDecision
unfolding claim_batch queue
take_queue generation batch_id slot_id p slot s =
    let ids : List Ident = keep (has_message s.intents) (queue slot p) in
    if is_empty ids
    then decided (ReconcileDecision.settle_signals (queue slot p)) s
    else claim_batch generation batch_id slot_id p ids s

unfoldable pub take_selected :
    Ident
    → Ident
    → Ident
    → SlotState
    → CoordinatorState
    → Option WorkPriority
    → Outcome ReconcileDecision
take_selected generation batch_id slot_id slot s none = decided ReconcileDecision.quiescent s
take_selected generation batch_id slot_id slot s (some p) =
    take_queue generation batch_id slot_id p slot s

unfoldable pub next_for :
    Ident → Ident → Ident → SlotState → CoordinatorState → Outcome ReconcileDecision
next_for generation batch_id slot_id slot s =
    if is_some slot.active
    then decided ReconcileDecision.waiting_for_completion s
    else if not (is_ready slot.runtime_constraint)
    then decided (ReconcileDecision.blocked slot.runtime_constraint) s
    else if slot.paused
    then decided ReconcileDecision.quiescent s
    else take_selected generation batch_id slot_id slot s (selected_priority slot)

unfoldable pub next : Ident → Ident → Ident → CoordinatorState → Outcome ReconcileDecision
next generation batch_id slot_id s = elim (get slot_id s.slots) [
  | none ↦ decided ReconcileDecision.quiescent s
  | some slot ↦ next_for generation batch_id slot_id slot s
]

abbrev pub owns : WorkBatch → SlotState → Bool
owns b slot = elim slot.active [
  | none ↦ false
  | some a ↦
      (a.batch.batch_id == b.batch_id)
      && ((a.batch.operation_id == b.operation_id)
          && (a.batch.session_generation == b.session_generation))
]

unfoldable pub is_current_batch : Ident → CoordinatorState → WorkBatch → Bool
is_current_batch generation s b =
    (b.session_generation == generation) && some_and (owns b) (get b.slot_id s.slots)

abbrev pub intent_cancelled : CoordinatorState → Ident → Bool
intent_cancelled s i = some_and (λ (w : WorkIntent). is_cancelled w.state) (get i s.intents)

abbrev pub must_cancel : SlotState → Bool
must_cancel slot = slot.paused || not (is_ready slot.runtime_constraint)

unfoldable pub begin_turn : Ident → ℕ → SlotState → SlotState
begin_turn turn_id now slot = record slot {
  active =
      map_option {A = ActiveBatch}
        (λ a. record a { turn_id = some turn_id; started_at_ms = some now }) slot.active;
}

unfoldable pub mark_started :
    Ident → WorkBatch → Ident → ℕ → CoordinatorState → Outcome StartCommitResult
unfolding is_current_batch begin_turn set_state run_summaries_locked
mark_started generation b turn_id now s =
    let s' : CoordinatorState = record s {
      slots = modify b.slot_id (begin_turn turn_id now) s.slots;
      intents =
          modify_each b.intent_ids
            (set_state (WorkIntentState.running b.batch_id b.operation_id turn_id)) s.intents;
    } in
    if not (is_current_batch generation s b)
    then record {
      result =
          if every (intent_cancelled s) b.intent_ids
          then StartCommitResult.cancel_immediately
          else StartCommitResult.stale_owner;
      state = s;
      published = [];
    }
    else record {
      result =
          if some_and must_cancel (get b.slot_id s.slots)
          then StartCommitResult.cancel_immediately
          else StartCommitResult.accepted;
      state = s';
      published = run_summaries_locked s' b.team_run_ids;
    }

-- The batch goes back to the front of its queue: `push_front` of each identifier, the last first.
unfoldable pub return_batch : WorkBatch → SlotState → SlotState
unfolding update_queue
return_batch b slot =
    update_queue b.highest_priority (λ q. b.intent_ids ++ q) (record slot { active = none })

unfoldable pub retry_start : Ident → WorkBatch → CoordinatorState → Outcome CommitResult
unfolding is_current_batch return_batch set_state run_summaries_locked
retry_start generation b s =
    let s' : CoordinatorState = record s {
      slots = modify b.slot_id (return_batch b) s.slots;
      intents = modify_each b.intent_ids (set_state WorkIntentState.queued) s.intents;
    } in
    if not (is_current_batch generation s b)
    then record { result = CommitResult.stale_owner; state = s; published = [] }
    else record {
      result = CommitResult.committed;
      state = s';
      published = run_summaries_locked s' b.team_run_ids;
    }

unfoldable pub drop_active : SlotState → SlotState
drop_active slot = record slot { active = none }

unfoldable pub terminalize_batch :
    Ident → WorkBatch → WorkIntentState → CoordinatorState → Outcome CommitResult
unfolding is_current_batch drop_active set_state run_summaries_locked
terminalize_batch generation b st s =
    let s' : CoordinatorState = record s {
      slots = modify b.slot_id drop_active s.slots;
      intents = modify_each b.intent_ids (set_state st) s.intents;
    } in
    if not (is_current_batch generation s b)
    then record { result = CommitResult.stale_owner; state = s; published = [] }
    else record {
      result = CommitResult.committed;
      state = s';
      published = run_summaries_locked s' b.team_run_ids;
    }

unfoldable pub complete_batch : Ident → WorkBatch → CoordinatorState → Outcome CommitResult
unfolding terminalize_batch
complete_batch generation b = terminalize_batch generation b WorkIntentState.completed

unfoldable pub fail_batch : Ident → WorkBatch → String → CoordinatorState → Outcome CommitResult
unfolding terminalize_batch
fail_batch generation b classification =
    terminalize_batch generation b (WorkIntentState.failed classification)

unfoldable pub cancel_batch : Ident → WorkBatch → String → CoordinatorState → Outcome CommitResult
unfolding terminalize_batch
cancel_batch generation b classification =
    terminalize_batch generation b (WorkIntentState.cancelled classification)
