-- ===== src/Coordinator/Preserve/Runtime.antt =====
-- crates/team/src/work_coordinator/coordinator.rs: `pause_slot` and `stop`, and the invariant.
use team_lite.Base.{
  Ident, true, false, none, ◌≡◌, refl, get, ◌==◌, ◌&&◌, Option-cases, inl, inr, arith, get-insert,
  get-modify_values, modify_values-Sorted,
}
use team_lite.Coordinator.Model.{WorkIntent, TeamRunTargetRole, is_terminal}
use team_lite.Coordinator.Slots.{
  SlotState, CoordinatorState, set_state, queued_ids, clear_work, slot_or_new,
}
use team_lite.Coordinator.Snapshot.{is_queued}
use team_lite.Coordinator.Views.{in_flight, batch_in, queued_in, queued_at, batch_at, waits, works}
use team_lite.Coordinator.Invariant.{Inv, same-Inv}
use team_lite.Coordinator.Runtime.{pause_slot, stop_intent, halt, stop}

stopped-waits :
    (w : WorkIntent) (t : Ident) → ((w.slot_id == t) && is_queued (stop_intent w).state) ≡ false
unfolding stop_intent set_state is_terminal
stopped-waits w t = ground arith

stopped-works : (w : WorkIntent) → in_flight (stop_intent w).state ≡ none
unfolding stop_intent set_state is_terminal
stopped-works w = ground arith

stopped_id : (w : WorkIntent) → (stop_intent w).intent_id ≡ w.intent_id
unfolding stop_intent set_state
stopped_id w = ground arith

halted_queued : (slot : SlotState) (i : Ident) → queued_in (halt slot) i ≡ false
unfolding halt clear_work queued_ids
halted_queued slot i = refl

halted_batch : (slot : SlotState) (i : Ident) → batch_in (halt slot) i ≡ none
unfolding halt clear_work
halted_batch slot i = refl

stopped_waits :
    (s : CoordinatorState) (sl i : Ident)
    → queued_at (stop s).state sl i ≡ false
    → queued_at (stop s).state sl i ≡ waits (stop s).state sl i
unfolding stop
stopped_waits s sl i h = elim (Option-cases (get i s.intents)) [
  | inl e ↦ ground (arith, get-modify_values i stop_intent s.intents, e, h)
  | inr (w, e) ↦ ground (arith, get-modify_values i stop_intent s.intents, e, h, stopped-waits w sl)
]

stopped_works :
    (s : CoordinatorState) (sl i : Ident)
    → batch_at (stop s).state sl i ≡ none
    → batch_at (stop s).state sl i ≡ works (stop s).state sl i
unfolding stop
stopped_works s sl i h = elim (Option-cases (get i s.intents)) [
  | inl e ↦ ground (arith, get-modify_values i stop_intent s.intents, e, h)
  | inr (w, e) ↦ ground (arith, get-modify_values i stop_intent s.intents, e, h, stopped-works w)
]

stopped_queues :
    (s : CoordinatorState) (sl i : Ident)
    → queued_at (stop s).state sl i ≡ waits (stop s).state sl i
unfolding stop
stopped_queues s sl i = elim (Option-cases (get sl s.slots)) [
  | inl e ↦ stopped_waits s sl i (ground (arith, get-modify_values sl halt s.slots, e))
  | inr (slot, e) ↦
      stopped_waits s sl i
        (ground (arith, get-modify_values sl halt s.slots, e, halted_queued slot i))
]

stopped_batches :
    (s : CoordinatorState) (sl i : Ident) → batch_at (stop s).state sl i ≡ works (stop s).state sl i
unfolding stop
stopped_batches s sl i = elim (Option-cases (get sl s.slots)) [
  | inl e ↦ stopped_works s sl i (ground (arith, get-modify_values sl halt s.slots, e))
  | inr (slot, e) ↦
      stopped_works s sl i
        (ground (arith, get-modify_values sl halt s.slots, e, halted_batch slot i))
]

pub stop-Inv : (s : CoordinatorState) → Inv s → Inv (stop s).state
unfolding stop
stop-Inv s inv = record {
  sorted = modify_values-Sorted stop_intent s.intents inv.sorted;
  keyed = λ i w h. elim (Option-cases (get i s.intents)) [
    | inl e ↦ absurd (ground (arith, get-modify_values i stop_intent s.intents, e))
    | inr (v, e) ↦
        ground (arith, get-modify_values i stop_intent s.intents, e, inv.keyed i v e, stopped_id v)
  ];
  queues = stopped_queues s;
  batches = stopped_batches s;
}

pub pause_slot-Inv : (t : Ident) (s : CoordinatorState) → Inv s → Inv (pause_slot t s).state
unfolding pause_slot slot_or_new queued_ids
pause_slot-Inv t s inv =
    let slot : SlotState = record (slot_or_new TeamRunTargetRole.teammate (get t s.slots)) {
      paused = true;
    } in
    same-Inv s _ inv refl (λ sl i. ground (arith, get-insert t sl slot s.slots))
      (λ sl i. ground (arith, get-insert t sl slot s.slots))
