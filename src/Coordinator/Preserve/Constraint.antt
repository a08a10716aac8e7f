-- ===== src/Coordinator/Preserve/Constraint.antt =====
-- crates/team/src/work_coordinator/coordinator.rs: `set_runtime_constraint` and the invariant.
use team_lite.Base.{
  Ident, Bool, true, false, none, some, List, [], ◌∷◌, ◌≡◌, refl, sym, get, mem, Map, ◌&&◌, ◌||◌,
  not, Option-cases, inl, inr, arith, get-insert, get-modify_each, insert, modify_each-Sorted,
  is_some, some_and, map, String,
}
use team_lite.Coordinator.Source.{WorkPriority}
use team_lite.Coordinator.Model.{
  WorkIntentState, WorkIntent, RuntimeConstraint, TeamRunTargetRole, is_terminal,
}
use team_lite.Coordinator.Slots.{
  SlotState, CoordinatorState, set_state, queued_ids, push_back, clear_work, slot_or_new,
}
use team_lite.Coordinator.Snapshot.{is_queued}
use team_lite.Coordinator.Views.{in_flight, batch_in, queued_in, queued_at, batch_at}
use team_lite.Coordinator.Invariant.{Inv, Keeps, rewrite-Inv, same-Inv}
use team_lite.Coordinator.Preserve.Slots.{queued-push_back, active-push_back}
use team_lite.Coordinator.Preserve.Batches.{set_state-Keeps, set_state-set_state}
use team_lite.Coordinator.Preserve.Selection.{selected}
use team_lite.Coordinator.Runtime.{
  open_in, open_ids, fail_intent, requeued_of, requeue_back, fail_slot, stop_slot, constrain,
  set_runtime_constraint,
}

abbrev second : WorkPriority × Ident → Ident
second (p, i) = i

requeued_queued :
    (r : List (WorkPriority × Ident)) (i : Ident) (slot : SlotState)
    → queued_in (requeue_back r slot) i ≡ (mem i (map second r) || queued_in slot i)
unfolding requeue_back
requeued_queued [] i slot = refl
requeued_queued ((p, k) ∷ r) i slot =
    ground (arith, requeued_queued r i (push_back p k slot), queued-push_back p k i slot)

pub requeued_active :
    (r : List (WorkPriority × Ident)) (slot : SlotState)
    → (requeue_back r slot).active ≡ slot.active
unfolding requeue_back
requeued_active [] slot = refl
requeued_active ((p, k) ∷ r) slot =
    ground (arith, requeued_active r (push_back p k slot), active-push_back p k slot)

abbrev runless : WorkIntent → Bool
runless w = not (is_some w.team_run_id)

requeued_ids :
    (intents : Map WorkIntent) (ids : List Ident) (i : Ident)
    → mem i (map second (requeued_of intents ids)) ≡ (mem i ids && some_and runless (get i intents))
unfolding requeued_of
requeued_ids intents [] i = refl
requeued_ids intents (k ∷ ks) i = ground (arith, requeued_ids intents ks i)

opened :
    (s : CoordinatorState) (t i : Ident)
    → Inv s
    → mem i (open_ids t s) ≡ some_and (open_in t) (get i s.intents)
opened s t i inv = selected s i (open_in t) inv

opened_lem :
    (s : CoordinatorState) (t i : Ident)
    → Inv s
    → mem i (open_ids t s) ≡ true
    → (w : WorkIntent) × (get i s.intents ≡ some w) × (w.slot_id ≡ t)
opened_lem s t i inv m = elim (Option-cases (get i s.intents)) [
  | inl e ↦ absurd (ground (arith, opened s t i inv, e))
  | inr (w, e) ↦ (w, e, ground (arith, opened s t i inv, e))
]

-- Work of a slot is open.
closed_queued :
    (s : CoordinatorState) (t i : Ident)
    → Inv s
    → mem i (open_ids t s) ≡ false
    → queued_at s t i ≡ false
unfolding is_terminal
closed_queued s t i inv m = ground (arith, opened s t i inv, inv.queues t i)

closed_batch :
    (s : CoordinatorState) (t i : Ident)
    → Inv s
    → mem i (open_ids t s) ≡ false
    → batch_at s t i ≡ none
unfolding is_terminal
closed_batch s t i inv m = ground (arith, opened s t i inv, inv.batches t i)

fail_intent-Keeps : (c : String) → Keeps (fail_intent c)
unfolding fail_intent set_state
fail_intent-Keeps c = record { keeps_id = λ w. ground arith; keeps_slot = λ w. ground arith }

fail_intent_twice :
    (c : String) (w : WorkIntent) → fail_intent c (fail_intent c w) ≡ fail_intent c w
unfolding fail_intent set_state
fail_intent_twice c w = ground arith

failed_queued : (c : String) (w : WorkIntent) → is_queued (fail_intent c w).state ≡ runless w
unfolding fail_intent set_state
failed_queued c w = ground arith

failed_flight : (c : String) (w : WorkIntent) → in_flight (fail_intent c w).state ≡ none
unfolding fail_intent set_state
failed_flight c w = ground arith

cleared_queued : (slot : SlotState) (i : Ident) → queued_in (clear_work slot) i ≡ false
unfolding clear_work queued_ids
cleared_queued slot i = refl

cleared_active : (slot : SlotState) → (clear_work slot).active ≡ none
unfolding clear_work
cleared_active slot = refl

module _ (s : CoordinatorState) (t : Ident) (slot : SlotState) (inv : Inv s) where
  abbrev refilled : SlotState
  refilled = requeue_back (requeued_of s.intents (open_ids t s)) (clear_work slot)

  refilled_queued :
      (i : Ident)
      → queued_in refilled i ≡ (mem i (open_ids t s) && some_and runless (get i s.intents))
  refilled_queued i = ground (
    arith,
    requeued_queued (requeued_of s.intents (open_ids t s)) i (clear_work slot),
    requeued_ids s.intents (open_ids t s) i,
    cleared_queued slot i,
  )

  refilled_batch : (i : Ident) → batch_in refilled i ≡ none
  refilled_batch i = ground (
    arith,
    requeued_active (requeued_of s.intents (open_ids t s)) (clear_work slot),
    cleared_active slot,
  )

  fail_slot-Inv : (c : String) → Inv (fail_slot t c slot s)
  unfolding fail_slot
  fail_slot-Inv c =
      rewrite-Inv s _ t (queued_in refilled) (batch_in refilled) (open_ids t s) (fail_intent c) inv
        (fail_intent-Keeps c) (λ sl i. ground (arith, get-insert t sl refilled s.slots))
        (λ sl i. ground (arith, get-insert t sl refilled s.slots))
        (λ i. get-modify_each (open_ids t s) i _ s.intents (fail_intent_twice c))
        (modify_each-Sorted (open_ids t s) _ s.intents inv.sorted) (λ i m. opened_lem s t i inv m)
        (λ i w m g. ground (arith, refilled_queued i, m, g, failed_queued c w))
        (λ i m. ground (arith, refilled_queued i, m, closed_queued s t i inv m))
        (λ i w m g. ground (arith, refilled_batch i, failed_flight c w))
        (λ i m. ground (arith, refilled_batch i, closed_batch s t i inv m))

  stop_slot-Inv : Inv (stop_slot t slot s)
  unfolding stop_slot
  stop_slot-Inv =
      rewrite-Inv s _ t (λ i. false) (λ i. none) (open_ids t s)
        (set_state (WorkIntentState.cancelled "session_stopped")) inv (set_state-Keeps _)
        (λ sl i. ground (arith, get-insert t sl (clear_work slot) s.slots, cleared_queued slot i))
        (λ sl i. ground (arith, get-insert t sl (clear_work slot) s.slots, cleared_active slot))
        (λ i. get-modify_each (open_ids t s) i _ s.intents (set_state-set_state _))
        (modify_each-Sorted (open_ids t s) _ s.intents inv.sorted) (λ i m. opened_lem s t i inv m)
        (λ i w m g. refl) (λ i m. sym (closed_queued s t i inv m)) (λ i w m g. refl)
        (λ i m. sym (closed_batch s t i inv m))

abbrev pub constrained : RuntimeConstraint → Ident → CoordinatorState → SlotState
constrained c t s = record (slot_or_new TeamRunTargetRole.teammate (get t s.slots)) {
  runtime_constraint = c;
}

-- Where work is neither failed nor cancelled, the slot keeps it.
relabel-Inv :
    (c : RuntimeConstraint) (t : Ident) (s : CoordinatorState)
    → Inv s
    → Inv (record s { slots = insert t (constrained c t s) s.slots })
unfolding slot_or_new queued_ids
relabel-Inv c t s inv =
    same-Inv s _ inv refl (λ sl i. ground (arith, get-insert t sl (constrained c t s) s.slots))
      (λ sl i. ground (arith, get-insert t sl (constrained c t s) s.slots))

constrain-Inv :
    (c : RuntimeConstraint) (t : Ident) (s : CoordinatorState)
    → Inv s
    → Inv (constrain c t (constrained c t s) s).0
unfolding constrain
constrain-Inv (RuntimeConstraint.failed op cl) t s inv =
    fail_slot-Inv s t (constrained _ t s) inv cl
constrain-Inv RuntimeConstraint.session_stopped t s inv = stop_slot-Inv s t (constrained _ t s) inv
constrain-Inv RuntimeConstraint.ready t s inv = relabel-Inv _ t s inv
constrain-Inv (RuntimeConstraint.starting op) t s inv = relabel-Inv _ t s inv
constrain-Inv (RuntimeConstraint.removing op) t s inv = relabel-Inv _ t s inv

-- The state that is left is that of the writes, whether or not the slot is then found.
pub constrain-state :
    (c : RuntimeConstraint) (t : Ident) (s : CoordinatorState)
    → (set_runtime_constraint t c s).state ≡ (constrain c t (constrained c t s) s).0
unfolding set_runtime_constraint
constrain-state c t s = elim (Option-cases (get t (constrain c t (constrained c t s) s).0.slots)) [
  | inl e ↦ rw (e, set_runtime_constraint)
  | inr (slot, e) ↦ rw (e, set_runtime_constraint)
]

pub set_runtime_constraint-Inv :
    (t : Ident) (c : RuntimeConstraint) (s : CoordinatorState)
    → Inv s
    → Inv (set_runtime_constraint t c s).state
set_runtime_constraint-Inv t c s inv = rw (constrain-state c t s) (constrain-Inv c t s inv)
