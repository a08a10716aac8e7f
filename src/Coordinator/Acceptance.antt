-- ===== src/Coordinator/Acceptance.antt =====
-- crates/team/src/work_coordinator/coordinator.rs, `commit_enqueue`: what a commit promises.
use team_lite.Base.{
  Ident, ℕ, true, false, Option, none, some, [], ◌≡◌, refl, get, if◌then◌else◌, arith, ==_refl,
  List, Bool, mem, is_some, ◌++◌, ◌==◌, ◌∷◌, ◌&&◌, not, ◌∙◌, ap,
}
use team_lite.Coordinator.Source.{
  priority, resumes_paused_slot, requires_mailbox_message, WorkPriority,
}
use team_lite.Coordinator.Model.{
  EnqueueLease, EnqueueCommit, RuntimeConstraint, WorkIntent, WorkIntentState,
}
use team_lite.Coordinator.Slots.{
  SlotState, CoordinatorState, queue, push_back, EnqueueLeaseRecord, update_queue,
}
use team_lite.Coordinator.Enqueue.{accept_intent, note_unread}

-- What the intent of a commit is.
abbrev pub filed_intent : Ident → EnqueueLease → Option Ident → Ident → ℕ → WorkIntent
filed_intent g lease message n now = record {
  intent_id = n;
  session_generation = g;
  slot_id = lease.slot_id;
  role = lease.role;
  source = lease.source;
  priority = priority lease.source;
  mailbox_message_id = message;
  team_run_id = lease.team_run_id;
  created_at_ms = now;
  state = WorkIntentState.queued;
}

abbrev pub same_priority : WorkPriority → WorkPriority → Bool
same_priority WorkPriority.foreground WorkPriority.foreground = true
same_priority WorkPriority.control WorkPriority.control = true
same_priority WorkPriority.background WorkPriority.background = true
same_priority _ _ = false

-- The runtime takes work: it is ready, or on its way to be.
abbrev pub takes_work : RuntimeConstraint → Bool
takes_work RuntimeConstraint.ready = true
takes_work (RuntimeConstraint.starting op) = true
takes_work _ = false

-- What a commit makes of the slot: the intent is last in the queue of its priority, the message
-- counts as unread, and the slot is resumed if the source does that.
pub record Enqueued (lease : EnqueueLease) (message : Option Ident) (n : Ident)
    (old new : SlotState) : Type 0 where
  pub last :
      (p : WorkPriority)
      → queue new p
        ≡ (if same_priority p (priority lease.source) then queue old p ++ n ∷ [] else queue old p)
  pub unread : (m : Ident) → message ≡ some m → mem m new.known_unread_message_ids ≡ true
  pub paused : new.paused ≡ (old.paused && not (resumes_paused_slot lease.source))
  pub same_active : new.active ≡ old.active
  pub same_constraint : new.runtime_constraint ≡ old.runtime_constraint

-- A commit that is accepted: the lease was recorded, as it is, for the slot of a runtime that takes
-- work, with the message that its source needs; and what it writes, and no more.
pub record Accepted (g : Ident) (lease : EnqueueLease) (message : Option Ident) (n : Ident)
    (now : ℕ) (s s' : CoordinatorState) (r : EnqueueCommit) : Type 0 where
  pub held :
      (q : EnqueueLeaseRecord) × (get lease.lease_id s.enqueue_leases ≡ some q)
      × (q.lease ≡ lease)
      × (lease.session_generation ≡ g)
  pub has_message : requires_mailbox_message lease.source ≡ true → is_some message ≡ true
  pub slot :
      (old : SlotState) × (new : SlotState) × (get lease.slot_id s.slots ≡ some old)
      × (get lease.slot_id s'.slots ≡ some new)
      × (old.removed ≡ false)
      × (takes_work old.runtime_constraint ≡ true)
      × Enqueued lease message n old new
  pub intents :
      (i : Ident)
      → get i s'.intents
        ≡ (if i == n then some (filed_intent g lease message n now) else get i s.intents)
  pub leases :
      (i : Ident)
      → get i s'.enqueue_leases ≡ (if i == lease.lease_id then none else get i s.enqueue_leases)
  pub other_slots : (t : Ident) → (t == lease.slot_id) ≡ false → get t s'.slots ≡ get t s.slots
  pub named : r.intent_id ≡ n
  pub of_lease : r.team_run_id ≡ lease.team_run_id

last_queued :
    (p q : WorkPriority) (n : Ident) (slot : SlotState)
    → queue (push_back q n slot) p
      ≡ (if same_priority p q then queue slot p ++ n ∷ [] else queue slot p)
unfolding queue push_back update_queue
last_queued p q n slot = ground arith

abbrev resumed : EnqueueLease → Option Ident → SlotState → SlotState
resumed lease message slot = record slot {
  paused = if resumes_paused_slot lease.source then false else slot.paused;
  known_unread_message_ids = note_unread message slot.known_unread_message_ids;
}

noted :
    (message : Option Ident) (m : Ident) (known : List Ident)
    → message ≡ some m
    → mem m (note_unread message known) ≡ true
noted none m known e = ground (arith, e)
noted (some x) m known e = ground (arith, e, ==_refl x)

queue-resumed :
    (lease : EnqueueLease) (message : Option Ident) (slot : SlotState) (p : WorkPriority)
    → queue (resumed lease message slot) p ≡ queue slot p
unfolding queue
queue-resumed lease message slot WorkPriority.foreground = refl
queue-resumed lease message slot WorkPriority.control = refl
queue-resumed lease message slot WorkPriority.background = refl

pub accepted-Enqueued :
    (lease : EnqueueLease) (message : Option Ident) (n : Ident) (slot : SlotState)
    → Enqueued lease message n slot (accept_intent lease message n slot)
unfolding accept_intent push_back update_queue
accepted-Enqueued lease message n slot = record {
  last = λ p.
      last_queued p (priority lease.source) n (resumed lease message slot)
      ∙ ap (λ q. if same_priority p (priority lease.source) then q ++ n ∷ [] else q)
          (queue-resumed lease message slot p);
  unread = λ m e. ground (arith, noted message m slot.known_unread_message_ids e);
  paused = ground arith;
  same_active = ground arith;
  same_constraint = ground arith;
}
