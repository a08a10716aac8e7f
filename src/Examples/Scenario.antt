-- ===== src/Examples/Scenario.antt =====
-- One message of one slot, from its lease to the turn that works on it.
use team_lite.Base.{get, true, false, some, [], ◌∷◌, ◌≡◌, refl, insert, none}
use team_lite.Coordinator.Source.{
  WorkSource, WorkPriority, priority, resumes_paused_slot, requires_mailbox_message,
}
use team_lite.Coordinator.Model.{
  TeamRunTargetRole, RuntimeConstraint, CausalBinding, EnqueueRequest, EnqueueLease, WorkBatch,
  ReconcileDecision, RunBinding,
}
use team_lite.Coordinator.Slots.{
  CoordinatorState, EnqueueLease-discrete, slot_or_new, new_slot, queue, update_queue, push_back,
  queued_ids, validate_constraint, validate_enqueue_constraint,
}
use team_lite.Coordinator.Enqueue.{
  acquire_enqueue, bind_run, new_lease, grant_lease, disposition, is_own_lease, check_commit,
  new_intent, accept_intent, commit_enqueue,
}
use team_lite.Coordinator.Runtime.{set_runtime_constraint, constrain}
use team_lite.Coordinator.Batches.{
  selected_priority, distinct_runs, make_batch, claim_batch, take_queue, take_selected, next_for,
  next,
}
use mathlib.Core.Bool.{decide}
use native.Mathlib.Decide.{ℕ_discrete}
use team_lite.Coordinator.Trace.{
  initial, Call, BatchCall, perform, perform_batch, Ledger, Reach, Step,
}
use team_lite.Coordinator.Trace.Safety.{Reach-Good}
use mathlib.Core.List.{Memᴰ}
use team_lite.Coordinator.Filing.{Filed}
use team_lite.Coordinator.Invariant.{Inv}

abbrev pub request : EnqueueRequest
request = record {
  slot_id = 1;
  role = TeamRunTargetRole.lead;
  source = WorkSource.user_message;
  binding = CausalBinding.user_visible;
}

abbrev pub to_run : EnqueueRequest → RunBinding
to_run r = record { team_run_id = some 7; created_new_run = true; user_intervention = false }

abbrev pub lease : EnqueueLease
lease = record {
  lease_id = 100;
  session_generation = 1;
  slot_id = 1;
  role = TeamRunTargetRole.lead;
  source = WorkSource.user_message;
  team_run_id = some 7;
}

abbrev pub leased : CoordinatorState
leased = perform 1 (Call.acquire to_run 100 request) initial.state

abbrev pub enqueued : CoordinatorState
enqueued = perform 1 (Call.commit lease (some 50) 200 10) leased

abbrev pub ready : CoordinatorState
ready = perform 1 (Call.constrain 1 RuntimeConstraint.ready) enqueued

abbrev pub batch : WorkBatch
batch = record {
  batch_id = 300;
  session_generation = 1;
  slot_id = 1;
  intent_ids = 200 ∷ [];
  mailbox_message_ids = 50 ∷ [];
  highest_priority = WorkPriority.foreground;
  team_run_ids = 7 ∷ [];
  operation_id = 1;
}

pub claimed : (next 1 300 1 ready).result ≡ ReconcileDecision.claim batch
unfolding next next_for take_selected take_queue claim_batch make_batch distinct_runs
    selected_priority queue initial perform acquire_enqueue bind_run new_lease grant_lease
    slot_or_new new_slot validate_enqueue_constraint validate_constraint commit_enqueue check_commit
    disposition is_own_lease new_intent accept_intent push_back update_queue queued_ids
    EnqueueLease-discrete resumes_paused_slot requires_mailbox_message priority
    set_runtime_constraint constrain decide ℕ_discrete insert
claimed = refl

abbrev pub working : CoordinatorState
working = (next 1 300 1 ready).state

abbrev pub begun : CoordinatorState
begun = perform_batch 1 (BatchCall.started 400 20) batch working

abbrev pub worked : Ledger
worked = record { state = begun; issued = batch ∷ [] }

pub unused : get 200 leased.intents ≡ none
unfolding next next_for take_selected take_queue claim_batch make_batch distinct_runs
    selected_priority queue initial perform acquire_enqueue bind_run new_lease grant_lease
    slot_or_new new_slot validate_enqueue_constraint validate_constraint commit_enqueue check_commit
    disposition is_own_lease new_intent accept_intent push_back update_queue queued_ids
    EnqueueLease-discrete resumes_paused_slot requires_mailbox_message priority
    set_runtime_constraint constrain decide ℕ_discrete insert
unused = refl

pub leased_history : Reach 1 (record { state = leased; issued = [] })
unfolding initial
leased_history = Reach.there Reach.here (Step.calls initial (Call.acquire to_run 100 request) tt)

pub ready_history : Reach 1 (record { state = ready; issued = [] })
unfolding initial
ready_history =
    Reach.there
      (Reach.there
        (Reach.there Reach.here (Step.calls initial (Call.acquire to_run 100 request) tt))
        (Step.calls (record { state = leased; issued = [] }) (Call.commit lease (some 50) 200 10)
          unused))
      (Step.calls (record { state = enqueued; issued = [] })
        (Call.constrain 1 RuntimeConstraint.ready) tt)

pub history : Reach 1 worked
history =
    Reach.there
      (Reach.there ready_history (
        Step.claims (record { state = ready; issued = [] }) 300 1 batch (λ b m. elim m [ ])
          claimed))
      (Step.works (record { state = working; issued = batch ∷ [] }) batch (BatchCall.started 400 20)
        (Memᴰ.head refl))

pub begun-Inv : Inv begun
begun-Inv = (Reach-Good 1 history).inv

pub begun-Filed : Filed begun
begun-Filed = (Reach-Good 1 history).filed
