-- ===== src/Coordinator/Cancel.antt =====
-- crates/team/src/work_coordinator/coordinator.rs: `cancel_run`. A failed `expect` panics; the
-- model then says `panicked` and keeps the state.
use team_lite.Base.{
  Ident, Bool, none, some, List, [], ◌∷◌, ◌++◌, Map, get, modify, modify_each, remove, values, keep,
  collect, any, every, map, ◌&&◌, is_some, if◌then◌else◌,
}
use team_lite.Errors.{Result, ok, err, panicked, ◌>>=◌}
use team_lite.Coordinator.Source.{WorkPriority}
use team_lite.Coordinator.Model.{
  WorkIntentState, WorkIntent, BatchCancelTarget, CancelRunWorkResult,
}
use team_lite.Coordinator.Slots.{
  EnqueueLeaseRecord, ActiveBatch, SlotState, CoordinatorState, Outcome, push_front, remove_queued,
  set_state,
}
use team_lite.Coordinator.Snapshot.{is_queued, of_run, run_of, run_leases, run_summary_locked}
use team_lite.Coordinator.Batches.{message_of}

-- `intents.get(i)` is an intent of the run.
abbrev pub in_run : Ident → Map WorkIntent → Ident → Bool
in_run run intents i = of_run run (run_of intents i)

abbrev pub present : Map WorkIntent → Ident → Bool
present intents i = is_some (get i intents)

-- The slots whose batch holds an intent of the run.
unfoldable pub active_slots : Ident → Map WorkIntent → Map SlotState → List (Ident × ActiveBatch)
active_slots run intents [] = []
active_slots run intents ((slot_id, slot) ∷ m) =
    let rest = active_slots run intents m in
    elim slot.active [
      | none ↦ rest
      | some a ↦ if any (in_run run intents) a.batch.intent_ids then (slot_id, a) ∷ rest else rest
    ]

-- An intent of the run is cancelled, any other goes back to its queue.
unfoldable pub settle : Ident → WorkIntent → WorkIntent
unfolding set_state
settle run w =
    if of_run run w.team_run_id
    then set_state (WorkIntentState.cancelled "run_cancelled") w
    else set_state WorkIntentState.queued w

-- The intents of a batch that are not the run's, with their priorities.
unfoldable pub retained_of : Ident → Map WorkIntent → List Ident → List (WorkPriority × Ident)
retained_of run intents [] = []
retained_of run intents (i ∷ is) =
    let rest = retained_of run intents is in
    elim (get i intents) [
      | none ↦ rest
      | some w ↦ if of_run run w.team_run_id then rest else (w.priority, i) ∷ rest
    ]

-- `push_front` of each, the last first.
unfoldable pub requeue_front : List (WorkPriority × Ident) → SlotState → SlotState
unfolding push_front
requeue_front [] slot = slot
requeue_front ((p, i) ∷ r) slot = push_front p i (requeue_front r slot)

unfoldable pub release_batch : List (WorkPriority × Ident) → SlotState → SlotState
unfolding requeue_front
release_batch r slot = requeue_front r (record slot { active = none })

-- The messages of the intents of the run among these.
abbrev pub run_messages : Ident → Map WorkIntent → List Ident → List Ident
run_messages run intents ids = collect (message_of intents) (keep (in_run run intents) ids)

pub record CancelProgress : Type 0 where
  pub state : CoordinatorState
  pub targets : List BatchCancelTarget
  pub messages : List Ident

unfoldable pub cancel_active :
    Ident → Ident → ActiveBatch → CoordinatorState → Result CoordinatorState
unfolding settle retained_of release_batch
cancel_active run slot_id a s =
    if every (present s.intents) a.batch.intent_ids
    then ok (record s {
      slots = modify slot_id (release_batch (retained_of run s.intents a.batch.intent_ids)) s.slots;
      intents = modify_each a.batch.intent_ids (settle run) s.intents;
    })
    else panicked

-- The loop over the active slots.
unfoldable pub cancel_actives :
    Ident → List (Ident × ActiveBatch) → CancelProgress → Result CancelProgress
unfolding cancel_active
cancel_actives run [] c = ok c
cancel_actives run ((slot_id, a) ∷ rest) c = elim (cancel_active run slot_id a c.state) [
  | ok s ↦ cancel_actives run rest (record {
    state = s;
    targets = c.targets ++ record { batch = a.batch; turn_id = a.turn_id } ∷ [];
    messages = c.messages ++ run_messages run c.state.intents a.batch.intent_ids;
  })
  | err e ↦ err e
  | panicked ↦ panicked
]

abbrev pub queued_of_run : Ident → WorkIntent → Bool
queued_of_run run w = of_run run w.team_run_id && is_queued w.state

-- The loop over the run's queued intents: each is cancelled, and leaves the queues of its slot.
unfoldable pub cancel_queued : List Ident → CancelProgress → Result CancelProgress
unfolding set_state remove_queued
cancel_queued [] c = ok c
cancel_queued (i ∷ is) c = elim (get i c.state.intents) [
  | none ↦ panicked
  | some w ↦ cancel_queued is (record c {
    state = record (c.state) {
      slots = modify w.slot_id (remove_queued i) c.state.slots;
      intents = modify i (set_state (WorkIntentState.cancelled "run_cancelled")) c.state.intents;
    };
    messages = c.messages ++ collect (message_of c.state.intents) (i ∷ []);
  })
]

unfoldable pub remove_leases : List Ident → Map EnqueueLeaseRecord → Map EnqueueLeaseRecord
remove_leases [] m = m
remove_leases (i ∷ is) m = remove_leases is (remove i m)

unfoldable pub queued_ids_of_run : Ident → CoordinatorState → List Ident
queued_ids_of_run run s =
    map (λ (w : WorkIntent). w.intent_id) (keep (queued_of_run run) (values s.intents))

unfoldable pub drop_leases : Ident → CoordinatorState → CoordinatorState
unfolding remove_leases
drop_leases run s = record s {
  enqueue_leases =
      remove_leases (map (λ (r : EnqueueLeaseRecord). r.lease.lease_id) (run_leases s run))
        s.enqueue_leases;
}

-- The parts of `cancel_run` that write, in order.
unfoldable pub cancel_work : Ident → CoordinatorState → Result CancelProgress
unfolding active_slots cancel_actives cancel_queued queued_ids_of_run drop_leases
cancel_work run s = do
  c ←
      cancel_actives run (active_slots run s.intents s.slots)
        (record { state = s; targets = []; messages = [] })
  d ← cancel_queued (queued_ids_of_run run c.state) c
  ok (record d { state = drop_leases run d.state })

unfoldable pub cancel_run : Ident → CoordinatorState → Outcome (Result CancelRunWorkResult)
unfolding cancel_work run_summary_locked
cancel_run run s = elim (cancel_work run s) [
  | ok c ↦ record {
    result = ok (record {
      cancel_targets = c.targets;
      terminal_message_ids = c.messages;
      summary = run_summary_locked c.state run;
    });
    state = c.state;
    published = run_summary_locked c.state run ∷ [];
  }
  | err e ↦ record { result = err e; state = s; published = [] }
  | panicked ↦ record { result = panicked; state = s; published = [] }
]
