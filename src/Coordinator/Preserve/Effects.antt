-- ===== src/Coordinator/Preserve/Effects.antt =====
-- crates/team/src/work_coordinator/coordinator.rs: how the calls that write the leases, the
-- constraint or every slot change the maps and the batches of slots.
use team_lite.Base.{
  Ident, ℕ, Option, none, List, [], ◌∷◌, ◌≡◌, refl, sym, get, Sorted, Bool-cases, Option-cases, inl,
  inr, arith, keep, any, values, get-modify_values, modify_values-Sorted, remove, ◌+◌, subst,
}
use team_lite.Errors.{Result}
use team_lite.Coordinator.Source.{WorkPriority}
use team_lite.Coordinator.Model.{
  EnqueueLease, RuntimeConstraint, TeamRunTargetRole, EnqueueRequest, RunBinding,
}
use team_lite.Coordinator.Slots.{
  SlotState, CoordinatorState, queued_ids, push_back, clear_work, slot_or_new, EnqueueLeaseRecord,
  validate_enqueue_constraint,
}
use team_lite.Coordinator.Views.{batch_of}
use team_lite.Coordinator.Filing.{Filed, refiled}
use team_lite.Coordinator.Enqueue.{
  acquire_enqueue, commit_enqueue, abort_enqueue, accept_intent, grant_lease, with_slot,
  is_own_lease, new_lease, bind_run,
}
use team_lite.Coordinator.Mailbox.{
  add_recovery, recover, clear_stale, reconcile_mailbox, owns_message, clears,
}
use team_lite.Coordinator.Runtime.{
  fail_slot, stop_slot, constrain, set_runtime_constraint, halt, stop, requeued_of, open_ids,
}
use team_lite.Coordinator.Preserve.Slots.{active-push_back, active-remove_queued_each}
use team_lite.Coordinator.Preserve.Enqueue.{
  commit_cases, check_commit-slot, accepted-active, entered, granted_leases, granted,
}
use team_lite.Coordinator.Preserve.Constraint.{constrained, constrain-state, requeued_active}
use team_lite.Coordinator.Preserve.Moves.{
  Moves, Moves-refl, Moves-trans, modify-Moves, insert-Moves, removed_leases, added_lease,
}
use team_lite.Coordinator.Preserve.Mailbox.{known_slot}

granted-Filed :
    (q : EnqueueLeaseRecord) (s : CoordinatorState) (v : Result (Unit {0}))
    → Filed s
    → Filed (grant_lease q s v).state
granted-Filed q s v f = elim (granted_leases q s v) [
  | inl e ↦ refiled s _ f (subst Sorted (sym (granted q s v).1) f.slots_sorted) e
  | inr e ↦
      added_lease q.lease.lease_id q s _ refl e
        (subst Sorted (sym (granted q s v).1) f.slots_sorted) f
]

pub acquire_enqueue-Moves :
    (generation : Ident) (bind : EnqueueRequest → RunBinding) (lease_id : Ident)
    (r : EnqueueRequest) (s : CoordinatorState)
    → Moves s (acquire_enqueue generation bind lease_id r s).state
unfolding acquire_enqueue slot_or_new
acquire_enqueue-Moves generation bind lease_id r s =
    let t : CoordinatorState = with_slot s r.slot_id (entered r s) in
    let q : EnqueueLeaseRecord = new_lease generation lease_id r (bind_run bind t r) in
    let v : Result (Unit {0}) = validate_enqueue_constraint r.slot_id (entered r s) in
    Moves-trans s t _
      (insert-Moves r.slot_id (entered r s) s t (λ a h. ground (arith, h)) refl
        (λ f. refiled s _ f f.slots_sorted refl))
      (record {
        filed = granted-Filed q t v;
        shrinks = λ sl a h. ground (arith, (granted q t v).1, h);
      })

pub commit_enqueue-Moves :
    (generation : Ident) (lease : EnqueueLease) (message : Option Ident) (n now : Ident)
    (s : CoordinatorState)
    → Moves s (commit_enqueue generation lease message n now s).state
commit_enqueue-Moves generation lease message n now s =
    elim (commit_cases generation lease message n now s) [
      | inl e ↦ rw e (Moves-refl s)
      | inr (slot, d, c, e) ↦ rw e (
          insert-Moves lease.slot_id (accept_intent lease message n slot) s _
            (λ a h. ground (
              arith,
              accepted-active lease message n slot,
              check_commit-slot generation lease message s c,
              h,
            ))
            refl (λ f. removed_leases lease.lease_id s _ refl f.slots_sorted f))
    ]

pub abort_enqueue-Moves :
    (generation : Ident) (lease : EnqueueLease) (s : CoordinatorState)
    → Moves s (abort_enqueue generation lease s).state
unfolding abort_enqueue
abort_enqueue-Moves generation lease s = elim (Option-cases (get lease.lease_id s.enqueue_leases)) [
  | inl e ↦ rw (e, abort_enqueue) (Moves-refl s)
  | inr (r, e) ↦ elim (Bool-cases (is_own_lease generation lease r)) [
    | inl o ↦
        rw (e, abort_enqueue)
          (rw o (record {
            filed = λ f. removed_leases lease.lease_id s _ refl f.slots_sorted f;
            shrinks = λ sl a h. h;
          }))
    | inr o ↦
        rw (e, abort_enqueue)
          (rw o (record {
            filed = λ f.
                let g =
                  removed_leases lease.lease_id s
                    (record s { enqueue_leases = remove lease.lease_id s.enqueue_leases }) refl
                    f.slots_sorted f in
                added_lease r.lease.lease_id r _ _ refl refl f.slots_sorted g;
            shrinks = λ sl a h. h;
          }))
  ]
]

halted_batch : (slot : SlotState) → batch_of (halt slot) ≡ none
unfolding halt clear_work
halted_batch slot = refl

pub stop-Moves : (s : CoordinatorState) → Moves s (stop s).state
unfolding stop
stop-Moves s = record {
  filed = λ f. record {
    slots_sorted = modify_values-Sorted halt s.slots f.slots_sorted;
    leases_sorted = tt;
    leases_keyed = λ i r g. cc;
  };
  shrinks = λ sl a e. elim (Option-cases (get sl s.slots)) [
    | inl n ↦ absurd (ground (arith, get-modify_values sl halt s.slots, n, e))
    | inr (slot, n) ↦
        absurd (ground (arith, get-modify_values sl halt s.slots, n, e, halted_batch slot))
  ];
}

cleared_none : (slot : SlotState) → (clear_work slot).active ≡ none
unfolding clear_work
cleared_none slot = refl

constrain-Moves :
    (c : RuntimeConstraint) (t : Ident) (s : CoordinatorState)
    → Moves s (constrain c t (constrained c t s) s).0
unfolding constrain fail_slot stop_slot slot_or_new
constrain-Moves (RuntimeConstraint.failed op cl) t s =
    insert-Moves t _ s _
      (λ a h. absurd (
        ground (
          arith,
          requeued_active (requeued_of s.intents (open_ids t s))
              (clear_work (constrained (RuntimeConstraint.failed op cl) t s)),
          cleared_none (constrained (RuntimeConstraint.failed op cl) t s),
          h,
        )))
      refl (λ f. refiled s _ f f.slots_sorted refl)
constrain-Moves RuntimeConstraint.session_stopped t s =
    insert-Moves t _ s _
      (λ a h.
        absurd
          (ground (arith, cleared_none (constrained RuntimeConstraint.session_stopped t s), h)))
      refl (λ f. refiled s _ f f.slots_sorted refl)
constrain-Moves _ t s =
    insert-Moves t _ s _ (λ a h. ground (arith, h)) refl (λ f. refiled s _ f f.slots_sorted refl)

pub set_runtime_constraint-Moves :
    (t : Ident) (c : RuntimeConstraint) (s : CoordinatorState)
    → Moves s (set_runtime_constraint t c s).state
set_runtime_constraint-Moves t c s = rw (constrain-state c t s) (constrain-Moves c t s)

clear_stale-Moves :
    (t : Ident) (unread : List Ident) (role : TeamRunTargetRole) (s : CoordinatorState)
    → Moves s (clear_stale t unread role s).0
unfolding clear_stale
clear_stale-Moves t unread role s =
    insert-Moves t _ s _
      (λ a h.
        unfold slot_or_new in
        ground (
          arith,
          active-remove_queued_each
              (keep (clears unread s.intents) (queued_ids (known_slot role unread t s)))
              (known_slot role unread t s),
          h,
        ))
      refl (λ f. refiled s _ f f.slots_sorted refl)

recover-Moves :
    (generation t : Ident) (role : TeamRunTargetRole) (now : Ident) (ids : ℕ → Ident) (n : ℕ)
    (unread : List Ident) (s : CoordinatorState)
    → Moves s (recover generation t role now ids n unread s).0
unfolding recover add_recovery
recover-Moves generation t role now ids n [] s = Moves-refl s
recover-Moves generation t role now ids n (message ∷ rest) s =
    elim (Bool-cases (any (owns_message t message) (values s.intents))) [
      | inl e ↦ rw (e, recover) (recover-Moves generation t role now ids n rest s)
      | inr e ↦
          rw (e, recover)
            (Moves-trans s (add_recovery generation t role now message (ids n) s) _
              (modify-Moves t (push_back WorkPriority.background (ids n)) s _
                (λ slot a h.
                  ground (arith, active-push_back WorkPriority.background (ids n) slot, h))
                refl refl)
              (recover-Moves generation t role now ids (n + 1) rest
                (add_recovery generation t role now message (ids n) s)))
    ]

pub reconcile_mailbox-Moves :
    (generation : Ident) (ids : ℕ → Ident) (now t : Ident) (unread : List Ident)
    (role : TeamRunTargetRole) (s : CoordinatorState)
    → Moves s (reconcile_mailbox generation ids now t unread role s).state
unfolding reconcile_mailbox
reconcile_mailbox-Moves generation ids now t unread role s =
    Moves-trans s (clear_stale t unread role s).0 _ (clear_stale-Moves t unread role s)
      (recover-Moves generation t role now ids 0 unread (clear_stale t unread role s).0)
