-- ===== src/Coordinator/Leases.antt =====
-- crates/team/src/work_coordinator/coordinator.rs, `commit_enqueue`: when a commit is accepted.
use mathlib.Core.Bool.{decide, decide_iff}
use team_lite.Base.{
  Ident, ℕ, true, false, Option, none, some, [], ◌≡◌, refl, get, inl, inr, arith, get-insert,
  get-remove, ◌⊎◌, is_some, Option-cases,
}
use team_lite.Errors.{Result, ok, err, panicked, invalid_request, lease_inactive, TeamError}
use team_lite.Coordinator.Source.{requires_mailbox_message}
use team_lite.Coordinator.Model.{EnqueueLease, EnqueueCommit, EnqueueDisposition, RuntimeConstraint}
use team_lite.Coordinator.Slots.{
  SlotState, CoordinatorState, validate_constraint, EnqueueLeaseRecord, validate_enqueue_constraint,
  EnqueueLease-discrete,
}
use team_lite.Coordinator.Enqueue.{commit_enqueue, accept_intent, new_intent, check_commit}
use team_lite.Coordinator.Preserve.Enqueue.{check_commit-slot}
use team_lite.Coordinator.Acceptance.{Accepted, takes_work, accepted-Enqueued}

result_cases :
    {A : Type 0} (r : Result A)
    → (((e : TeamError) × (r ≡ err e)) ⊎ (r ≡ panicked)) ⊎ ((a : A) × (r ≡ ok a))
result_cases (ok a) = inr (a, refl)
result_cases (err e) = inl (inl (e, refl))
result_cases panicked = inl (inr refl)

-- What a commit comes to, by its checks.
check_cases :
    (g : Ident) (lease : EnqueueLease) (message : Option Ident) (n : Ident) (now : ℕ)
    (s : CoordinatorState)
    → ((r : EnqueueCommit) → (commit_enqueue g lease message n now s).result ≡ ok r → ⊥)
      ⊎ ((slot : SlotState) × (d : EnqueueDisposition) × (check_commit g lease message s
            ≡ ok (slot, d)))
unfolding commit_enqueue
check_cases g lease message n now s = elim (result_cases (check_commit g lease message s)) [
  | inl f ↦ inl (λ r e. elim f [ inl (x, f) ↦ ground (arith, e, f) | inr f ↦ ground (arith, e, f) ])
  | inr ((slot, d), f) ↦ inr (slot, d, f)
]

unused_check :
    (g : Ident) (lease : EnqueueLease) (other : Option Ident) (s : CoordinatorState)
    → get lease.lease_id s.enqueue_leases ≡ none
    → check_commit g lease other s ≡ err (invalid_request lease_inactive)
unfolding check_commit
unused_check g lease other s e = rw (e) refl

unused_lem :
    (g : Ident) (lease : EnqueueLease) (other : Option Ident) (k : Ident) (later : ℕ)
    (s : CoordinatorState)
    → get lease.lease_id s.enqueue_leases ≡ none
    → commit_enqueue g lease other k later s
      ≡ record { result = err (invalid_request lease_inactive); state = s; published = [] }
unfolding commit_enqueue
unused_lem g lease other k later s e = rw (unused_check g lease other s e, commit_enqueue) refl

checked_lease :
    (g : Ident) (lease : EnqueueLease) (message : Option Ident) (s : CoordinatorState)
    (slot : SlotState) (d : EnqueueDisposition)
    → check_commit g lease message s ≡ ok (slot, d)
    → (q : EnqueueLeaseRecord) × (get lease.lease_id s.enqueue_leases ≡ some q)
      × (decide (EnqueueLease-discrete q.lease lease) ≡ true)
      × (lease.session_generation ≡ g)
unfolding check_commit
checked_lease g lease message s slot d e =
    elim (Option-cases (get lease.lease_id s.enqueue_leases)) [
      | inl h ↦ absurd (ground (arith, e, h))
      | inr (q, h) ↦ (q, h, ground (arith, e, h), ground (arith, e, h))
    ]

checked_message :
    (g : Ident) (lease : EnqueueLease) (message : Option Ident) (s : CoordinatorState)
    (slot : SlotState) (d : EnqueueDisposition)
    → check_commit g lease message s ≡ ok (slot, d)
    → requires_mailbox_message lease.source ≡ true
    → is_some message ≡ true
unfolding check_commit
checked_message g lease message s slot d e r = ground (arith, e, r)

validated :
    (g : Ident) (lease : EnqueueLease) (message : Option Ident) (s : CoordinatorState)
    (slot : SlotState) (d : EnqueueDisposition)
    → check_commit g lease message s ≡ ok (slot, d)
    → validate_enqueue_constraint lease.slot_id slot ≡ ok tt
unfolding check_commit
validated g lease message s slot d e = ground (arith, e)

open_constraint :
    (t : Ident) (c : RuntimeConstraint) → validate_constraint t c ≡ ok tt → takes_work c ≡ true
unfolding validate_constraint
open_constraint t RuntimeConstraint.ready e = refl
open_constraint t (RuntimeConstraint.starting op) e = refl
open_constraint t (RuntimeConstraint.failed op cl) e = ground (arith, e)
open_constraint t (RuntimeConstraint.removing op) e = ground (arith, e)
open_constraint t RuntimeConstraint.session_stopped e = ground (arith, e)

open_slot :
    (t : Ident) (slot : SlotState)
    → validate_enqueue_constraint t slot ≡ ok tt
    → (slot.removed ≡ false) × (takes_work slot.runtime_constraint ≡ true)
unfolding validate_enqueue_constraint
open_slot t slot e =
    let kept : slot.removed ≡ false = ground (arith, e) in
    (kept, open_constraint t slot.runtime_constraint (ground (arith, e, kept)))

-- A commit that succeeds is of a lease that is recorded for this session, for a slot that is not
-- removed and whose runtime takes work, with the message that the work needs. It files the intent
-- that the lease describes, last in the queue of its priority, counts the message as unread, resumes
-- the slot if a user wrote, and uses the lease up; the other intents, slots and leases stay.
pub commit_enqueue-Accepted :
    (g : Ident) (lease : EnqueueLease) (message : Option Ident) (n : Ident) (now : ℕ)
    (s : CoordinatorState) (r : EnqueueCommit)
    → (commit_enqueue g lease message n now s).result ≡ ok r
    → Accepted g lease message n now s (commit_enqueue g lease message n now s).state r
unfolding commit_enqueue new_intent
commit_enqueue-Accepted g lease message n now s r e = elim (check_cases g lease message n now s) [
  | inl f ↦ absurd (f r e)
  | inr (slot, d, f) ↦
      let named : r.intent_id ≡ n = ground (arith, e, f) in
      let of_lease : r.team_run_id ≡ lease.team_run_id = ground (arith, e, f) in
      let (q, at, same, own) = checked_lease g lease message s slot d f in
      let (kept, up) = open_slot lease.slot_id slot (validated g lease message s slot d f) in
      let slot' : SlotState = accept_intent lease message n slot in
      rw (f, commit_enqueue)
        (record {
          held = (q, at, (decide_iff (EnqueueLease-discrete q.lease lease)).0 same, own);
          has_message = checked_message g lease message s slot d f;
          slot = (
            slot,
            slot',
            check_commit-slot g lease message s f,
            ground (arith, get-insert lease.slot_id lease.slot_id slot' s.slots),
            kept,
            up,
            accepted-Enqueued lease message n slot,
          );
          intents = λ i. get-insert n i (new_intent g lease message n now) s.intents;
          leases = λ i. get-remove lease.lease_id i s.enqueue_leases;
          other_slots = λ t h. ground (arith, h, get-insert lease.slot_id t slot' s.slots);
          named = named;
          of_lease = of_lease;
        })
]
