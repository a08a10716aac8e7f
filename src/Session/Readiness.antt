-- ===== src/Session/Readiness.antt =====
-- crates/team/src/session.rs: a slot gets work only while its member's runtime is ready.
use team_lite.Base.{
  Ident, ℕ, Bool, true, false, Option, some, List, [], ◌∷◌, get, insert, modify, values, any,
  map_option, ◌≡◌, refl, sym, ap, ◌∙◌, arith, Option-cases, Bool-cases, inl, inr, get-insert,
  get-modify, ◌+◌, is_some, keep,
}
use team_lite.Coordinator.Model.{RuntimeConstraint, ReconcileDecision, TeamRunTargetRole}
use team_lite.Coordinator.Source.{WorkPriority}
use team_lite.Coordinator.Slots.{
  SlotState, CoordinatorState, push_back, update_queue, remove_queued, remove_queued_each,
  clear_work, slot_or_new, queued_ids,
}
use team_lite.Coordinator.Runtime.{
  requeue_back, fail_slot, stop_slot, constrain, requeued_of, open_ids,
}
use team_lite.Coordinator.Mailbox.{
  recover, add_recovery, clear_stale, reconcile_mailbox, owns_message, clears,
}
use team_lite.Coordinator.Batches.{next, next_for}
use team_lite.Coordinator.Snapshot.{is_ready}

abbrev pub constraint_at : Ident → CoordinatorState → Option RuntimeConstraint
constraint_at slot_id s = map_option (λ (x : SlotState). x.runtime_constraint) (get slot_id s.slots)

abbrev pub is_claim : ReconcileDecision → Bool
is_claim (ReconcileDecision.claim b) = true
is_claim _ = false

constraint-push_back :
    (p : WorkPriority) (i : Ident) (slot : SlotState)
    → (push_back p i slot).runtime_constraint ≡ slot.runtime_constraint
unfolding push_back update_queue
constraint-push_back WorkPriority.foreground i slot = refl
constraint-push_back WorkPriority.control i slot = refl
constraint-push_back WorkPriority.background i slot = refl

constraint-requeue_back :
    (r : List (WorkPriority × Ident)) (slot : SlotState)
    → (requeue_back r slot).runtime_constraint ≡ slot.runtime_constraint
unfolding requeue_back
constraint-requeue_back [] slot = refl
constraint-requeue_back ((p, i) ∷ r) slot =
    constraint-requeue_back r (push_back p i slot) ∙ constraint-push_back p i slot

constraint-remove_queued_each :
    (ids : List Ident) (slot : SlotState)
    → (remove_queued_each ids slot).runtime_constraint ≡ slot.runtime_constraint
unfolding remove_queued_each remove_queued
constraint-remove_queued_each [] slot = refl
constraint-remove_queued_each (i ∷ is) slot =
    constraint-remove_queued_each is (remove_queued i slot)

constraint-insert :
    (slot_id : Ident) (slot : SlotState) (s : CoordinatorState)
    → constraint_at slot_id (record s { slots = insert slot_id slot s.slots })
      ≡ some slot.runtime_constraint
constraint-insert slot_id slot s = ground (arith, get-insert slot_id slot_id slot s.slots)

pub constraint-constrain :
    (c : RuntimeConstraint) (slot_id : Ident) (slot : SlotState) (s : CoordinatorState)
    → slot.runtime_constraint ≡ c
    → constraint_at slot_id (constrain c slot_id slot s).0 ≡ some c
unfolding constrain fail_slot stop_slot clear_work
constraint-constrain (RuntimeConstraint.failed op cl) slot_id slot s e =
    constraint-insert slot_id
      (requeue_back (requeued_of s.intents (open_ids slot_id s)) (clear_work slot)) s
    ∙ ap (λ c. some c)
        (constraint-requeue_back (requeued_of s.intents (open_ids slot_id s)) (clear_work slot) ∙ e)
constraint-constrain RuntimeConstraint.session_stopped slot_id slot s e =
    constraint-insert slot_id (clear_work slot) s ∙ ap (λ c. some c) e
constraint-constrain RuntimeConstraint.ready slot_id slot s e =
    constraint-insert slot_id slot s ∙ ap (λ c. some c) e
constraint-constrain (RuntimeConstraint.starting op) slot_id slot s e =
    constraint-insert slot_id slot s ∙ ap (λ c. some c) e
constraint-constrain (RuntimeConstraint.removing op) slot_id slot s e =
    constraint-insert slot_id slot s ∙ ap (λ c. some c) e

constraint-modify :
    (slot_id : Ident) (f : SlotState → SlotState) (s : CoordinatorState)
    → ((x : SlotState) → (f x).runtime_constraint ≡ x.runtime_constraint)
    → constraint_at slot_id (record s { slots = modify slot_id f s.slots })
      ≡ constraint_at slot_id s
constraint-modify slot_id f s h = elim (Option-cases (get slot_id s.slots)) [
  | inl e ↦ ground (arith, get-modify slot_id slot_id f s.slots, e)
  | inr (x, e) ↦ ground (arith, get-modify slot_id slot_id f s.slots, e, h x)
]

constraint-recover :
    (g slot_id : Ident) (role : TeamRunTargetRole) (now : ℕ) (ids : ℕ → Ident) (n : ℕ)
    (messages : List Ident) (s : CoordinatorState)
    → constraint_at slot_id (recover g slot_id role now ids n messages s).0
      ≡ constraint_at slot_id s
unfolding recover add_recovery
constraint-recover g slot_id role now ids n [] s = refl
constraint-recover g slot_id role now ids n (m ∷ ms) s =
    elim (Bool-cases (any (owns_message slot_id m) (values s.intents))) [
      | inl e ↦ rw e (constraint-recover g slot_id role now ids n ms s)
      | inr e ↦ rw e (
          constraint-recover g slot_id role now ids (n + 1) ms _
          ∙ constraint-modify slot_id (push_back WorkPriority.background (ids n)) s
              (constraint-push_back WorkPriority.background (ids n)))
    ]

pub constraint-reconcile :
    (g slot_id : Ident) (ids : ℕ → Ident) (now : ℕ) (unread : List Ident) (role : TeamRunTargetRole)
    (s : CoordinatorState) (c : RuntimeConstraint)
    → constraint_at slot_id s ≡ some c
    → constraint_at slot_id (reconcile_mailbox g ids now slot_id unread role s).state ≡ some c
unfolding reconcile_mailbox clear_stale slot_or_new
constraint-reconcile g slot_id ids now unread role s c h =
    elim (Option-cases (get slot_id s.slots)) [
      | inl e ↦ ground (arith, h, e)
      | inr (slot, e) ↦
          let base : SlotState = record (slot_or_new role (get slot_id s.slots)) {
            role = role;
            known_unread_message_ids = unread;
          } in
          let cleared : List Ident = keep (clears unread s.intents) (queued_ids base) in
          constraint-recover g slot_id role now ids 0 unread (clear_stale slot_id unread role s).0
          ∙ (constraint-insert slot_id (remove_queued_each cleared base) s
              ∙ (ap (λ x. some x) (constraint-remove_queued_each cleared base)
                  ∙ (ap (λ o. some (slot_or_new role o).runtime_constraint) e
                      ∙ (ap (λ o. map_option (λ (x : SlotState). x.runtime_constraint) o) (sym e)
                          ∙ h))))
    ]

-- A slot that has no ready runtime is offered no batch.
unready-next_for :
    (g batch_id slot_id : Ident) (slot : SlotState) (s : CoordinatorState)
    → is_ready slot.runtime_constraint ≡ false
    → is_claim (next_for g batch_id slot_id slot s).result ≡ false
unfolding next_for
unready-next_for g batch_id slot_id slot s f = elim (Bool-cases (is_some slot.active)) [
  | inl a ↦ rw (is_claim, next_for, a) refl
  | inr a ↦ rw (is_claim, next_for, a, f) refl
]

pub unready-next :
    (g batch_id slot_id : Ident) (s : CoordinatorState) (c : RuntimeConstraint)
    → constraint_at slot_id s ≡ some c
    → is_ready c ≡ false
    → is_claim (next g batch_id slot_id s).result ≡ false
unfolding next
unready-next g batch_id slot_id s c h f = elim (Option-cases (get slot_id s.slots)) [
  | inl e ↦ ground (arith, h, e)
  | inr (slot, e) ↦
      rw (next, e) (unready-next_for g batch_id slot_id slot s (ground (arith, h, e, f)))
]
