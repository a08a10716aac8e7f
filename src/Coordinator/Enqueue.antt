-- ===== src/Coordinator/Enqueue.antt =====
-- crates/team/src/work_coordinator/coordinator.rs: `acquire_enqueue`, `commit_enqueue` and
-- `abort_enqueue`. A generated identifier and the time are arguments.
use team_lite.Base.{
  Ident, ℕ, Bool, false, Option, none, some, List, [], ◌∷◌, get, insert, remove, first, is_empty,
  not, ◌&&◌, ◌||◌, ◌==◌, is_some, some_and, if◌then◌else◌, mem,
}
use mathlib.Core.Bool.{decide}
use team_lite.Errors.{
  TeamError, Result, ok, err, panicked, ◌>>=◌, agent_not_found, invalid_request, lease_inactive,
  stale_lease_owner, needs_mailbox_message,
}
use team_lite.Coordinator.Source.{priority, resumes_paused_slot, requires_mailbox_message}
use team_lite.Coordinator.Model.{
  RuntimeConstraint, WorkIntentState, WorkIntent, CausalBinding, EnqueueRequest, EnqueueLease,
  CommitResult, EnqueueDisposition, EnqueueCommit, RunBinding,
}
use team_lite.Coordinator.Slots.{
  SlotState, CoordinatorState, Outcome, EnqueueLease-discrete, slot_or_new, push_back, queued_ids,
  validate_enqueue_constraint, EnqueueLeaseRecord,
}
use team_lite.Coordinator.Snapshot.{
  run_list, slot_view, run_summaries_locked, run_intents, run_leases,
}

-- The first run of the batch that a slot is working on.
abbrev pub running_run : CoordinatorState → Ident → Option Ident
running_run s slot_id = elim (get slot_id s.slots) [
  | none ↦ none
  | some slot ↦ elim slot.active [ none ↦ none | some a ↦ first a.batch.team_run_ids ]
]

abbrev pub no_run : Option Ident → RunBinding
no_run run = record { team_run_id = run; created_new_run = false; user_intervention = false }

-- `bind` is `bind_enqueue` of the causality port, which is asked in two of the four cases.
unfoldable pub bind_run :
    (EnqueueRequest → RunBinding) → CoordinatorState → EnqueueRequest → RunBinding
bind_run bind s r = elim r.binding [
  | CausalBinding.background ↦ no_run none
  | CausalBinding.inherit_running_batch caller ↦ no_run (running_run s caller)
  | CausalBinding.user_visible ↦ bind r
  | CausalBinding.active_run_or_background ↦ bind r
]

-- The slot is created, and its role written, also where the enqueue is refused.
abbrev pub with_slot : CoordinatorState → Ident → SlotState → CoordinatorState
with_slot s slot_id slot = record s { slots = insert slot_id slot s.slots }

unfoldable pub new_lease : Ident → Ident → EnqueueRequest → RunBinding → EnqueueLeaseRecord
new_lease generation lease_id r binding = record {
  lease = record {
    lease_id = lease_id;
    session_generation = generation;
    slot_id = r.slot_id;
    role = r.role;
    source = r.source;
    team_run_id = binding.team_run_id;
  };
  binding = binding;
}

-- The lease is recorded if the slot takes work.
unfoldable pub grant_lease :
    EnqueueLeaseRecord → CoordinatorState → Result (Unit {0}) → Outcome (Result EnqueueLease)
grant_lease q s (err e) = record { result = err e; state = s; published = [] }
grant_lease q s panicked = record { result = panicked; state = s; published = [] }
grant_lease q s (ok _) = record {
  result = ok q.lease;
  state = record s { enqueue_leases = insert q.lease.lease_id q s.enqueue_leases };
  published = [];
}

unfoldable pub acquire_enqueue :
    Ident
    → (EnqueueRequest → RunBinding)
    → Ident
    → EnqueueRequest
    → CoordinatorState
    → Outcome (Result EnqueueLease)
acquire_enqueue generation bind lease_id r s =
    let slot : SlotState = record (slot_or_new r.role (get r.slot_id s.slots)) { role = r.role } in
    let s' : CoordinatorState = with_slot s r.slot_id slot in
    grant_lease (new_lease generation lease_id r (bind_run bind s' r)) s'
      (validate_enqueue_constraint r.slot_id slot)

-- The match on the constraint, where the validation has left two of its cases.
unfoldable pub disposition : SlotState → Result EnqueueDisposition
unfolding queued_ids
disposition slot = elim slot.runtime_constraint [
  | RuntimeConstraint.starting op ↦ ok EnqueueDisposition.blocked_runtime_starting
  | RuntimeConstraint.ready ↦ ok (
      if not (is_some slot.active) && is_empty (queued_ids slot)
      then EnqueueDisposition.accepted
      else EnqueueDisposition.queued)
  | _ ↦ panicked
]

abbrev pub find_or {ℓ} : {A : Type ℓ} → Option A → TeamError → Result A
find_or none e = err e
find_or (some a) e = ok a

-- The lease is one that was recorded in this session.
unfoldable pub is_own_lease : Ident → EnqueueLease → EnqueueLeaseRecord → Bool
unfolding EnqueueLease-discrete
is_own_lease generation lease r =
    decide (EnqueueLease-discrete r.lease lease) && (lease.session_generation == generation)

-- The checks of `commit_enqueue`, in order, up to the slot and the disposition.
unfoldable pub check_commit :
    Ident → EnqueueLease → Option Ident → CoordinatorState → Result (SlotState × EnqueueDisposition)
check_commit generation lease message s = do
  r ← find_or (get lease.lease_id s.enqueue_leases) (invalid_request lease_inactive)
  _ ←
      (if not (decide (EnqueueLease-discrete r.lease lease))
          || not (lease.session_generation == generation)
        then err (invalid_request stale_lease_owner)
        else if requires_mailbox_message lease.source && not (is_some message)
        then err (invalid_request needs_mailbox_message)
        else ok r)
  slot ← find_or (get lease.slot_id s.slots) (agent_not_found lease.slot_id)
  _ ← validate_enqueue_constraint lease.slot_id slot
  d ← disposition slot
  ok (slot, d)

unfoldable pub new_intent : Ident → EnqueueLease → Option Ident → Ident → ℕ → WorkIntent
unfolding priority
new_intent generation lease message intent_id now = record {
  intent_id = intent_id;
  session_generation = generation;
  slot_id = lease.slot_id;
  role = lease.role;
  source = lease.source;
  priority = priority lease.source;
  mailbox_message_id = message;
  team_run_id = lease.team_run_id;
  created_at_ms = now;
  state = WorkIntentState.queued;
}

abbrev pub note_unread : Option Ident → List Ident → List Ident
note_unread none known = known
note_unread (some message) known = if mem message known then known else message ∷ known

-- What the slot becomes: resumed by a user's message, and with the intent at the end of its queue.
unfoldable pub accept_intent : EnqueueLease → Option Ident → Ident → SlotState → SlotState
unfolding resumes_paused_slot push_back priority
accept_intent lease message intent_id slot =
    push_back (priority lease.source) intent_id (record slot {
      paused = if resumes_paused_slot lease.source then false else slot.paused;
      known_unread_message_ids = note_unread message slot.known_unread_message_ids;
    })

unfoldable pub commit_enqueue :
    Ident
    → EnqueueLease
    → Option Ident
    → Ident
    → ℕ
    → CoordinatorState
    → Outcome (Result EnqueueCommit)
commit_enqueue generation lease message intent_id now s =
    elim (check_commit generation lease message s) [
      | err e ↦ record { result = err e; state = s; published = [] }
      | panicked ↦ record { result = panicked; state = s; published = [] }
      | ok (slot, d) ↦
          let slot' : SlotState = accept_intent lease message intent_id slot in
          let s' : CoordinatorState = record s {
            slots = insert lease.slot_id slot' s.slots;
            intents =
                insert intent_id (new_intent generation lease message intent_id now) s.intents;
            enqueue_leases = remove lease.lease_id s.enqueue_leases;
          } in
          record {
            result = ok (record {
              intent_id = intent_id;
              team_run_id = lease.team_run_id;
              disposition = d;
              slot = slot_view s'.intents lease.slot_id slot';
            });
            state = s';
            published = run_summaries_locked s' (run_list lease.team_run_id);
          }
    ]

-- No intent and no lease of the run is left.
unfoldable pub run_is_empty : CoordinatorState → Ident → Bool
run_is_empty s run = is_empty (run_intents s run) && is_empty (run_leases s run)

-- The result also holds the binding that goes to `abort_binding`, before the summaries are
-- published. The record of another owner is put back.
unfoldable pub abort_enqueue :
    Ident → EnqueueLease → CoordinatorState → Outcome (CommitResult × Option RunBinding)
abort_enqueue generation lease s = elim (get lease.lease_id s.enqueue_leases) [
  | none ↦ record { result = (CommitResult.stale_owner, none); state = s; published = [] }
  | some r ↦
      let taken : CoordinatorState = record s {
        enqueue_leases = remove lease.lease_id s.enqueue_leases;
      } in
      if not (is_own_lease generation lease r)
      then record {
        result = (CommitResult.stale_owner, none);
        state = record taken { enqueue_leases = insert r.lease.lease_id r taken.enqueue_leases };
        published = [];
      }
      else record {
        result = (
          CommitResult.committed,
          if some_and (run_is_empty taken) lease.team_run_id then some r.binding else none,
        );
        state = taken;
        published = run_summaries_locked taken (run_list lease.team_run_id);
      }
]
