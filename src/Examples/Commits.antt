-- ===== src/Examples/Commits.antt =====
-- The properties of enqueue leases, at the lease of the message.
use team_lite.Base.{some, [], ◌≡◌, refl, insert, none}
use team_lite.Coordinator.Source.{priority, resumes_paused_slot, requires_mailbox_message}
use team_lite.Coordinator.Model.{
  TeamRunTargetRole, RuntimeConstraint, EnqueueCommit, EnqueueDisposition, SlotPhase, CommitResult,
}
use team_lite.Coordinator.Slots.{
  EnqueueLease-discrete, slot_or_new, new_slot, queue, update_queue, push_back, queued_ids,
  validate_constraint, validate_enqueue_constraint,
}
use team_lite.Coordinator.Enqueue.{
  acquire_enqueue, bind_run, new_lease, grant_lease, disposition, is_own_lease, check_commit,
  new_intent, accept_intent, commit_enqueue, abort_enqueue,
}
use team_lite.Coordinator.Runtime.{set_runtime_constraint, constrain}
use team_lite.Coordinator.Batches.{
  selected_priority, distinct_runs, make_batch, claim_batch, take_queue, take_selected, next_for,
  next,
}
use mathlib.Core.Bool.{decide}
use native.Mathlib.Decide.{ℕ_discrete}
use team_lite.Coordinator.Trace.{initial, perform, Call, Step}
use team_lite.Coordinator.Snapshot.{slot_view, phase, slot_run}
use team_lite.Errors.{ok, err, invalid_request, lease_inactive}
use team_lite.Coordinator.Acceptance.{Accepted}
use team_lite.Coordinator.Leases.{commit_enqueue-Accepted}
use team_lite.Examples.Scenario.{lease, leased, ready, leased_history, unused, enqueued}
use team_lite.Coordinator.Trace.Once.{commit-once}
use team_lite.Coordinator.Trace.Spent.{Later}

abbrev committed : EnqueueCommit
committed = record {
  intent_id = 200;
  team_run_id = some 7;
  disposition = EnqueueDisposition.blocked_runtime_starting;
  slot = record {
    slot_id = 1;
    role = TeamRunTargetRole.lead;
    state = SlotPhase.blocked;
    queued_foreground_count = 1;
    queued_background_count = 0;
    active_batch = none;
    active_turn_id = none;
    active_turn_started_at_ms = none;
    runtime_constraint = RuntimeConstraint.starting 0;
    team_run_id = some 7;
  };
}

commits : (commit_enqueue 1 lease (some 50) 200 10 leased).result ≡ ok committed
unfolding next next_for take_selected take_queue claim_batch make_batch distinct_runs
    selected_priority queue initial perform acquire_enqueue bind_run new_lease grant_lease
    slot_or_new new_slot validate_enqueue_constraint validate_constraint commit_enqueue check_commit
    disposition is_own_lease new_intent accept_intent push_back update_queue queued_ids
    EnqueueLease-discrete resumes_paused_slot requires_mailbox_message priority
    set_runtime_constraint constrain decide ℕ_discrete insert slot_view phase slot_run
commits = refl

commit_enqueue-Accepted_example :
    Accepted 1 lease
      (some 50)
      200
      10
      leased
      (commit_enqueue 1 lease (some 50) 200 10 leased).state
      committed
commit_enqueue-Accepted_example =
    commit_enqueue-Accepted 1 lease (some 50) 200 10 leased committed commits

commit-once_example :
    (commit_enqueue 1 lease none 201 30 ready
      ≡ record { result = err (invalid_request lease_inactive); state = ready; published = [] })
    × (abort_enqueue 1 lease ready
        ≡ record { result = (CommitResult.stale_owner, none); state = ready; published = [] })
unfolding perform
commit-once_example =
    commit-once 1 lease (some 50) none 200 201 10 30 (record { state = leased; issued = [] })
      (record { state = ready; issued = [] }) committed leased_history unused commits
      (Later.later Later.still
        (Step.calls (record { state = enqueued; issued = [] })
          (Call.constrain 1 RuntimeConstraint.ready) tt)
        tt)
