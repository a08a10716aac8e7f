-- ===== src/Coordinator/Preserve/Removal.antt =====
-- crates/team/src/work_coordinator/coordinator.rs: `remove_slot`, the intents it takes, and the
-- invariant.
use team_lite.Base.{
  Ident, true, false, none, some, List, ◌≡◌, refl, get, mem, if◌then◌else◌, ◌==◌, ◌&&◌, ◌||◌, not,
  Option-cases, inl, inr, arith, get-modify, get-modify_each, modify, modify_each, keep, every,
  modify_each-Sorted, mem-append, is_some, some_and, values, every_intro,
}
use team_lite.Coordinator.Model.{WorkIntentState, WorkIntent, is_terminal}
use team_lite.Coordinator.Slots.{SlotState, CoordinatorState, set_state, queued_ids, clear_work}
use team_lite.Coordinator.Views.{batch_in, queued_in, queued_at, batch_at, in_flight}
use team_lite.Coordinator.Invariant.{Inv, rewrite-Inv}
use team_lite.Coordinator.Preserve.Batches.{set_state-Keeps, set_state-set_state, state-set_state}
use team_lite.Coordinator.Cancel.{present}
use team_lite.Coordinator.Preserve.Selection.{ids_of, selected, sorted_ids}
use team_lite.Coordinator.Runtime.{
  open_in, slot_work, removal_ids, discard, remove_slot, sort_by_age,
}
use team_lite.Coordinator.Snapshot.{is_queued}

worked_on :
    (s : CoordinatorState) (t i : Ident)
    → mem i (slot_work (get t s.slots)) ≡ (is_some (batch_at s t i) || queued_at s t i)
worked_on s t i = elim (Option-cases (get t s.slots)) [
  | inl e ↦ ground (arith, e)
  | inr (slot, e) ↦ elim (Option-cases slot.active) [
    | inl f ↦ ground (arith, e, f)
    | inr (a, f) ↦ ground (arith, e, f, mem-append i a.batch.intent_ids (queued_ids slot))
  ]
]

abbrev others : Ident → CoordinatorState → List WorkIntent
others t s =
    keep (λ w. open_in t w && not (mem w.intent_id (slot_work (get t s.slots)))) (values s.intents)

removed_ids :
    (s : CoordinatorState) (t i : Ident)
    → Inv s
    → mem i (removal_ids t s) ≡ (
        is_some (batch_at s t i)
        || (queued_at s t i
            || some_and
                (λ w. open_in t w && not (mem w.intent_id (slot_work (get t s.slots))))
                (get i s.intents)))
unfolding removal_ids
removed_ids s t i inv = ground (
  arith,
  mem-append i (slot_work (get t s.slots)) (ids_of (sort_by_age (others t s))),
  sorted_ids i (others t s),
  selected s i (λ w. open_in t w && not (mem w.intent_id (slot_work (get t s.slots)))) inv,
  worked_on s t i,
)

-- What a removal takes is an intent of the slot.
removed_lem :
    (s : CoordinatorState) (t i : Ident)
    → Inv s
    → mem i (removal_ids t s) ≡ true
    → (w : WorkIntent) × (get i s.intents ≡ some w) × (w.slot_id ≡ t)
removed_lem s t i inv m = elim (Option-cases (get i s.intents)) [
  | inl e ↦ absurd (ground (arith, removed_ids s t i inv, inv.queues t i, inv.batches t i, e))
  | inr (w, e) ↦ (w, e, ground (arith, removed_ids s t i inv, inv.queues t i, inv.batches t i, e))
]

live_lem :
    (st : WorkIntentState)
    → (is_some (in_flight st) || is_queued st) ≡ true
    → is_terminal st ≡ false
unfolding is_terminal
live_lem WorkIntentState.queued e = refl
live_lem (WorkIntentState.starting b o) e = refl
live_lem (WorkIntentState.running b o u) e = refl
live_lem WorkIntentState.completed e = cc
live_lem (WorkIntentState.failed c) e = cc
live_lem (WorkIntentState.cancelled c) e = cc

-- They are the open intents of the slot.
pub removal_ids-open :
    (s : CoordinatorState) (t i : Ident)
    → Inv s
    → mem i (removal_ids t s) ≡ some_and (open_in t) (get i s.intents)
removal_ids-open s t i inv = elim (Option-cases (get i s.intents)) [
  | inl e ↦ ground (arith, removed_ids s t i inv, inv.queues t i, inv.batches t i, e)
  | inr (w, e) ↦ ground (
    arith,
    removed_ids s t i inv,
    worked_on s t i,
    inv.keyed i w e,
    inv.queues t i,
    inv.batches t i,
    live_lem w.state,
    e,
  )
]

abbrev removed_state : Ident → CoordinatorState → CoordinatorState
removed_state t s = record s {
  slots = modify t discard s.slots;
  intents =
      modify_each (removal_ids t s) (set_state (WorkIntentState.cancelled "slot_removed"))
        s.intents;
}

discard_queued : (slot : SlotState) (i : Ident) → queued_in (discard slot) i ≡ false
unfolding clear_work queued_ids
discard_queued slot i = refl

discard_batch : (slot : SlotState) (i : Ident) → batch_in (discard slot) i ≡ none
unfolding clear_work
discard_batch slot i = refl

removed-queued_at :
    (s : CoordinatorState) (t sl i : Ident)
    → queued_at (removed_state t s) sl i ≡ (if sl == t then false else queued_at s sl i)
removed-queued_at s t sl i = elim (Option-cases (get t s.slots)) [
  | inl e ↦ ground (arith, get-modify t sl discard s.slots, e)
  | inr (slot, e) ↦ ground (arith, get-modify t sl discard s.slots, e, discard_queued slot i)
]

removed-batch_at :
    (s : CoordinatorState) (t sl i : Ident)
    → batch_at (removed_state t s) sl i ≡ (if sl == t then none else batch_at s sl i)
removed-batch_at s t sl i = elim (Option-cases (get t s.slots)) [
  | inl e ↦ ground (arith, get-modify t sl discard s.slots, e)
  | inr (slot, e) ↦ ground (arith, get-modify t sl discard s.slots, e, discard_batch slot i)
]

removed_state-Inv : (s : CoordinatorState) (t : Ident) → Inv s → Inv (removed_state t s)
removed_state-Inv s t inv =
    rewrite-Inv s _ t (λ i. false) (λ i. none) (removal_ids t s)
      (set_state (WorkIntentState.cancelled "slot_removed")) inv (set_state-Keeps _)
      (removed-queued_at s t) (removed-batch_at s t)
      (λ i. get-modify_each (removal_ids t s) i _ s.intents (set_state-set_state _))
      (modify_each-Sorted (removal_ids t s) _ s.intents inv.sorted) (λ i m. removed_lem s t i inv m)
      (λ i w m g. rw (state-set_state (WorkIntentState.cancelled "slot_removed") w))
      (λ i m. ground (arith, removed_ids s t i inv, m))
      (λ i w m g. rw (state-set_state (WorkIntentState.cancelled "slot_removed") w))
      (λ i m. ground (arith, removed_ids s t i inv, m))

-- Every intent that a removal takes is filed.
pub removal_ids-present :
    (s : CoordinatorState) (t : Ident) → Inv s → every (present s.intents) (removal_ids t s) ≡ true
removal_ids-present s t inv =
    every_intro (present s.intents) (removal_ids t s)
      (λ i m. let (w, g, o) = removed_lem s t i inv m in ground (arith, g))

pub remove_slot-Inv : (t : Ident) (s : CoordinatorState) → Inv s → Inv (remove_slot t s).state
unfolding remove_slot
remove_slot-Inv t s inv = rw (removal_ids-present s t inv, remove_slot) (removed_state-Inv s t inv)
