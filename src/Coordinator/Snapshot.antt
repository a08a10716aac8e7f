-- ===== src/Coordinator/Snapshot.antt =====
-- crates/team/src/work_coordinator/snapshot.rs: views of the state, for results and summaries.
use team_lite.Base.{
  Ident, Bool, true, false, Option, none, some, List, [], ◌∷◌, ◌++◌, ◌+◌, Map, get, keys, values,
  keep, collect, first, is_empty, length, to_set, is_some, some_and, same_option, map_option, map,
  not, ◌&&◌, ◌||◌, ltb, if◌then◌else◌,
}
use team_lite.Coordinator.Model.{
  RuntimeConstraint, SlotPhase, WorkIntentState, WorkIntent, SlotWorkSnapshot, RunWorkSummary,
  CoordinatorSnapshot,
}
use team_lite.Coordinator.Slots.{EnqueueLeaseRecord, SlotState, CoordinatorState, queued_ids}

-- `matches!(state, WorkIntentState::…)`.
abbrev pub is_queued : WorkIntentState → Bool
is_queued WorkIntentState.queued = true
is_queued _ = false

abbrev pub is_failed : WorkIntentState → Bool
is_failed (WorkIntentState.failed c) = true
is_failed _ = false

abbrev pub is_cancelled : WorkIntentState → Bool
is_cancelled (WorkIntentState.cancelled c) = true
is_cancelled _ = false

abbrev pub starting_batch : WorkIntentState → Option Ident
starting_batch (WorkIntentState.starting b op) = some b
starting_batch _ = none

abbrev pub running_batch : WorkIntentState → Option Ident
running_batch (WorkIntentState.running b op t) = some b
running_batch _ = none

abbrev pub is_ready : RuntimeConstraint → Bool
is_ready RuntimeConstraint.ready = true
is_ready _ = false

-- `intent.team_run_id.as_deref() == Some(run)`.
abbrev pub of_run : Ident → Option Ident → Bool
of_run run r = same_option r (some run)

abbrev pub active_turn : SlotState → Option Ident
active_turn slot = elim slot.active [ none ↦ none | some a ↦ a.turn_id ]

unfoldable pub phase : SlotState → SlotPhase
unfolding queued_ids
phase slot =
    if slot.paused
    then SlotPhase.paused
    else if is_some (active_turn slot)
    then SlotPhase.running
    else if is_some slot.active
    then SlotPhase.starting
    else if not (is_ready slot.runtime_constraint)
    then SlotPhase.blocked
    else if not (is_empty (queued_ids slot))
    then SlotPhase.queued
    else SlotPhase.idle

abbrev pub or_else : Option Ident → Option Ident → Option Ident
or_else none y = y
or_else (some x) y = some x

abbrev pub run_of : Map WorkIntent → Ident → Option Ident
run_of intents i = elim (get i intents) [ none ↦ none | some w ↦ w.team_run_id ]

-- The first batch run, or the run of the first queued intent that has one.
unfoldable pub slot_run : Map WorkIntent → SlotState → Option Ident
unfolding queued_ids
slot_run intents slot =
    or_else (elim slot.active [ none ↦ none | some a ↦ first a.batch.team_run_ids ])
      (first (collect (run_of intents) (queued_ids slot)))

unfoldable pub slot_view : Map WorkIntent → Ident → SlotState → SlotWorkSnapshot
unfolding phase slot_run
slot_view intents slot_id slot = record {
  slot_id = slot_id;
  role = slot.role;
  state = phase slot;
  queued_foreground_count = length slot.foreground;
  queued_background_count = length slot.control + length slot.background;
  active_batch = map_option (λ a. a.batch) slot.active;
  active_turn_id = active_turn slot;
  active_turn_started_at_ms = elim slot.active [ none ↦ none | some a ↦ a.started_at_ms ];
  runtime_constraint = slot.runtime_constraint;
  team_run_id = slot_run intents slot;
}

unfoldable pub slot_snapshot_locked : CoordinatorState → Ident → Option SlotWorkSnapshot
unfolding slot_view
slot_snapshot_locked s slot_id = map_option (slot_view s.intents slot_id) (get slot_id s.slots)

-- The intents and the lease records of a run.
abbrev pub run_intents : CoordinatorState → Ident → List WorkIntent
run_intents s run = keep (λ w. of_run run w.team_run_id) (values s.intents)

abbrev pub run_leases : CoordinatorState → Ident → List EnqueueLeaseRecord
run_leases s run = keep (λ r. of_run run r.lease.team_run_id) (values s.enqueue_leases)

abbrev pub slot_paused : CoordinatorState → Ident → Bool
slot_paused s slot_id = some_and (λ (slot : SlotState). slot.paused) (get slot_id s.slots)

unfoldable pub run_summary_locked : CoordinatorState → Ident → RunWorkSummary
unfolding slot_snapshot_locked
run_summary_locked s run = record {
  team_run_id = run;
  queued_intent_count = length (keep (λ w. is_queued w.state) (run_intents s run));
  starting_batch_count =
      length (to_set (collect (λ w. starting_batch w.state) (run_intents s run)));
  running_batch_count = length (to_set (collect (λ w. running_batch w.state) (run_intents s run)));
  active_enqueue_lease_count = length (run_leases s run);
  paused_intent_count =
      length (keep (λ w. is_queued w.state && slot_paused s w.slot_id) (run_intents s run));
  failed_intent_count = length (keep (λ w. is_failed w.state) (run_intents s run));
  slots = collect (slot_snapshot_locked s) (
      to_set (
        map (λ (w : WorkIntent). w.slot_id) (run_intents s run)
        ++ map (λ (r : EnqueueLeaseRecord). r.lease.slot_id) (run_leases s run)));
}

unfoldable pub run_summaries_locked : CoordinatorState → List Ident → List RunWorkSummary
unfolding run_summary_locked
run_summaries_locked s runs = map (run_summary_locked s) (to_set runs)

-- `team_run_id.iter()`: no run or one.
abbrev pub run_list : Option Ident → List Ident
run_list none = []
run_list (some run) = run ∷ []

unfoldable pub all_run_ids : CoordinatorState → List Ident
all_run_ids s = to_set (
    collect (λ (w : WorkIntent). w.team_run_id) (values s.intents)
    ++ collect (λ (r : EnqueueLeaseRecord). r.lease.team_run_id) (values s.enqueue_leases))

abbrev pub has_work : RunWorkSummary → Bool
has_work m =
    ltb 0 m.queued_intent_count
    || (ltb 0 m.starting_batch_count
        || (ltb 0 m.running_batch_count
            || (ltb 0 m.active_enqueue_lease_count || ltb 0 m.paused_intent_count)))

unfoldable pub snapshot : Ident → CoordinatorState → CoordinatorSnapshot
unfolding slot_snapshot_locked run_summary_locked all_run_ids
snapshot generation s = record {
  session_generation = generation;
  slots = collect (slot_snapshot_locked s) (keys s.slots);
  active_run_summary = first (keep has_work (map (run_summary_locked s) (all_run_ids s)));
}
