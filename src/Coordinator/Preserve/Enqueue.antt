-- ===== src/Coordinator/Preserve/Enqueue.antt =====
-- crates/team/src/work_coordinator/coordinator.rs: `acquire_enqueue`, `commit_enqueue` and
-- `abort_enqueue`, and the invariant.
use team_lite.Base.{
  Ident, Option, none, some, ◌≡◌, refl, get, ◌==◌, ◌||◌, inl, inr, arith, get-insert, insert,
  insert-Sorted, remove, ◌⊎◌,
}
use team_lite.Errors.{Result, ok, err, panicked}
use team_lite.Coordinator.Source.{priority}
use team_lite.Coordinator.Model.{
  EnqueueDisposition, EnqueueLease, TeamRunTargetRole, EnqueueRequest, RunBinding,
}
use team_lite.Coordinator.Slots.{
  SlotState, CoordinatorState, queued_ids, slot_or_new, EnqueueLeaseRecord,
  validate_enqueue_constraint,
}
use team_lite.Coordinator.Views.{queued_in}
use team_lite.Coordinator.Invariant.{Inv, add-Inv, same-Inv}
use team_lite.Coordinator.Preserve.Slots.{queued-push_back, active-push_back}
use team_lite.Coordinator.Enqueue.{
  acquire_enqueue, commit_enqueue, abort_enqueue, check_commit, accept_intent, new_intent,
  with_slot, grant_lease,
}

-- A slot that is created, or rewritten in its other fields, has the work that it had.
slot_write-Inv :
    (s s' : CoordinatorState) (t : Ident) (role : TeamRunTargetRole) (slot : SlotState)
    → Inv s
    → s'.intents ≡ s.intents
    → s'.slots ≡ insert t slot s.slots
    → ((i : Ident) → queued_in slot i ≡ queued_in (slot_or_new role (get t s.slots)) i)
    → slot.active ≡ (slot_or_new role (get t s.slots)).active
    → Inv s'
unfolding slot_or_new queued_ids
slot_write-Inv s s' t role slot inv ei es q a =
    same-Inv s s' inv ei (λ sl i. ground (arith, es, get-insert t sl slot s.slots, q i))
      (λ sl i. ground (arith, es, get-insert t sl slot s.slots, a))

abbrev pub entered : EnqueueRequest → CoordinatorState → SlotState
entered r s = record (slot_or_new r.role (get r.slot_id s.slots)) { role = r.role }

pub granted :
    (q : EnqueueLeaseRecord) (s : CoordinatorState) (v : Result (Unit {0}))
    → let s' = (grant_lease q s v).state in (s'.intents ≡ s.intents) × (s'.slots ≡ s.slots)
unfolding grant_lease
granted q s (ok _) = (refl, refl)
granted q s (err e) = (refl, refl)
granted q s panicked = (refl, refl)

-- Whatever is decided, the slot is entered and the intents stay.
pub acquired :
    (generation : Ident) (bind : EnqueueRequest → RunBinding) (lease_id : Ident)
    (r : EnqueueRequest) (s : CoordinatorState)
    → let s' = (acquire_enqueue generation bind lease_id r s).state in
      (s'.intents ≡ s.intents) × (s'.slots ≡ insert r.slot_id (entered r s) s.slots)
unfolding acquire_enqueue
acquired generation bind lease_id r s =
    granted _ (with_slot s r.slot_id (entered r s))
      (validate_enqueue_constraint r.slot_id (entered r s))

pub acquire_enqueue-Inv :
    (generation : Ident) (bind : EnqueueRequest → RunBinding) (lease_id : Ident)
    (r : EnqueueRequest) (s : CoordinatorState)
    → Inv s
    → Inv (acquire_enqueue generation bind lease_id r s).state
unfolding queued_ids
acquire_enqueue-Inv generation bind lease_id r s inv =
    slot_write-Inv s _ r.slot_id r.role (entered r s) inv (acquired generation bind lease_id r s).0
      (acquired generation bind lease_id r s).1 (λ i. refl) refl

accepted-queued :
    (lease : EnqueueLease) (message : Option Ident) (n i : Ident) (slot : SlotState)
    → queued_in (accept_intent lease message n slot) i ≡ ((i == n) || queued_in slot i)
unfolding accept_intent queued_ids
accepted-queued lease message n i slot =
    unfold queued_ids in queued-push_back (priority lease.source) n i _

pub accepted-active :
    (lease : EnqueueLease) (message : Option Ident) (n : Ident) (slot : SlotState)
    → (accept_intent lease message n slot).active ≡ slot.active
unfolding accept_intent
accepted-active lease message n slot = active-push_back (priority lease.source) n _

-- The slot that the checks return is the lease's.
pub check_commit-slot :
    (generation : Ident) (lease : EnqueueLease) (message : Option Ident) (s : CoordinatorState)
    {slot : SlotState} {d : EnqueueDisposition}
    → check_commit generation lease message s ≡ ok (slot, d)
    → get lease.slot_id s.slots ≡ some slot
unfolding check_commit
check_commit-slot generation lease message s h = ground arith

-- The writes of an accepted commit.
abbrev pub enqueued :
    Ident
    → EnqueueLease
    → Option Ident
    → Ident
    → Ident
    → SlotState
    → CoordinatorState
    → CoordinatorState
enqueued generation lease message n now slot s = record s {
  slots = insert lease.slot_id (accept_intent lease message n slot) s.slots;
  intents = insert n (new_intent generation lease message n now) s.intents;
  enqueue_leases = remove lease.lease_id s.enqueue_leases;
}

enqueued-Inv :
    (generation : Ident) (lease : EnqueueLease) (message : Option Ident) (n now : Ident)
    (slot : SlotState) (s : CoordinatorState)
    → Inv s
    → get n s.intents ≡ none
    → get lease.slot_id s.slots ≡ some slot
    → Inv (enqueued generation lease message n now slot s)
unfolding new_intent
enqueued-Inv generation lease message n now slot s inv fresh here =
    add-Inv s _ lease.slot_id n (new_intent generation lease message n now) inv fresh
      (λ sl i. ground (
        arith,
        get-insert lease.slot_id sl (accept_intent lease message n slot) s.slots,
        accepted-queued lease message n i slot,
        here,
      ))
      (λ sl i. ground (
        arith,
        get-insert lease.slot_id sl (accept_intent lease message n slot) s.slots,
        accepted-active lease message n slot,
        here,
      ))
      (λ i. get-insert n i _ s.intents) (insert-Sorted n _ s.intents inv.sorted) refl refl refl

-- A commit changes nothing, or makes its writes.
pub commit_cases :
    (generation : Ident) (lease : EnqueueLease) (message : Option Ident) (n now : Ident)
    (s : CoordinatorState)
    → let s' = (commit_enqueue generation lease message n now s).state in
      (s' ≡ s)
      ⊎ ((slot : SlotState) × (d : EnqueueDisposition) × (check_commit generation lease message s
            ≡ ok (slot, d))
          × (s' ≡ enqueued generation lease message n now slot s))
unfolding commit_enqueue
commit_cases generation lease message n now s = go (check_commit generation lease message s) refl
  where
    go :
        (r : Result (SlotState × EnqueueDisposition))
        → check_commit generation lease message s ≡ r
        → let s' = (commit_enqueue generation lease message n now s).state in
          (s' ≡ s)
          ⊎ ((slot : SlotState) × (d : EnqueueDisposition) × (check_commit generation lease message
                  s
                ≡ ok (slot, d))
              × (s' ≡ enqueued generation lease message n now slot s))
    go (ok (slot, d)) e = inr (slot, d, e, rw (e, commit_enqueue))
    go (err x) e = inl (rw (e, commit_enqueue))
    go panicked e = inl (rw (e, commit_enqueue))

-- An abort touches the leases alone.
aborted :
    (generation : Ident) (lease : EnqueueLease) (s : CoordinatorState)
    → let s' = (abort_enqueue generation lease s).state in
      (s'.intents ≡ s.intents) × (s'.slots ≡ s.slots)
unfolding abort_enqueue
aborted generation lease s = (ground arith, ground arith)

pub commit_enqueue-Inv :
    (generation : Ident) (lease : EnqueueLease) (message : Option Ident) (n now : Ident)
    (s : CoordinatorState)
    → Inv s
    → get n s.intents ≡ none
    → Inv (commit_enqueue generation lease message n now s).state
commit_enqueue-Inv generation lease message n now s inv fresh =
    elim (commit_cases generation lease message n now s) [
      | inl e ↦ rw e inv
      | inr (slot, d, c, e) ↦ rw e (
          enqueued-Inv generation lease message n now slot s inv fresh
            (check_commit-slot generation lease message s c))
    ]

pub abort_enqueue-Inv :
    (generation : Ident) (lease : EnqueueLease) (s : CoordinatorState)
    → Inv s
    → Inv (abort_enqueue generation lease s).state
abort_enqueue-Inv generation lease s inv =
    same-Inv s _ inv (aborted generation lease s).0 (λ sl i. rw (aborted generation lease s).1)
      (λ sl i. rw (aborted generation lease s).1)

-- The leases stay, or take the new lease under its own identifier.
pub granted_leases :
    (q : EnqueueLeaseRecord) (s : CoordinatorState) (v : Result (Unit {0}))
    → let s' = (grant_lease q s v).state in
      (s'.enqueue_leases ≡ s.enqueue_leases)
      ⊎ (s'.enqueue_leases ≡ insert q.lease.lease_id q s.enqueue_leases)
unfolding grant_lease
granted_leases q s (ok _) = inr refl
granted_leases q s (err e) = inl refl
granted_leases q s panicked = inl refl
