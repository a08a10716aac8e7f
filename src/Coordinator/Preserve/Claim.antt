-- ===== src/Coordinator/Preserve/Claim.antt =====
-- crates/team/src/work_coordinator/coordinator.rs: `next` and the invariant.
use team_lite.Base.{
  Ident, true, false, Option, none, some, List, ◌≡◌, refl, get, mem, if◌then◌else◌, Bool-cases,
  Option-cases, inl, inr, arith, get-modify, get-modify_each, keep, modify_each-Sorted, mem-keep,
  is_empty,
}
use team_lite.Coordinator.Source.{WorkPriority}
use team_lite.Coordinator.Model.{WorkIntentState, WorkIntent, WorkBatch}
use team_lite.Coordinator.Slots.{SlotState, CoordinatorState, set_state, queued_ids, queue}
use team_lite.Coordinator.Views.{batch_in, queued_in}
use team_lite.Coordinator.Invariant.{Inv, rewrite-Inv}
use team_lite.Coordinator.Preserve.Slots.{queued-remove_queued_each, waits_lem, mem-queue}
use team_lite.Coordinator.Preserve.Batches.{set_state-Keeps, set_state-set_state, state-set_state}
use team_lite.Coordinator.Batches.{
  has_message, take_selected, selected_priority, make_batch, start_batch, claim_batch, take_queue,
  next_for, next, saturating_suc,
}

module _ (generation batch_id t : Ident) (p : WorkPriority) (ids : List Ident)
    (s : CoordinatorState) (slot : SlotState) (inv : Inv s) (here : get t s.slots ≡ some slot)
    (idle : slot.active ≡ none)
    (from_queue : (i : Ident) → mem i ids ≡ true → queued_in slot i ≡ true) where
  b : WorkBatch
  b = make_batch generation s.intents batch_id t p ids (saturating_suc s.next_operation_id)

  started-queued :
      (i : Ident)
      → queued_in (start_batch b slot) i ≡ (if mem i ids then false else queued_in slot i)
  unfolding start_batch b make_batch queued_ids
  started-queued i = unfold queued_ids in queued-remove_queued_each ids i slot

  started-batch :
      (i : Ident) → batch_in (start_batch b slot) i ≡ (if mem i ids then some batch_id else none)
  unfolding start_batch b make_batch
  started-batch i = refl

  queued_lem :
      (i : Ident)
      → mem i ids ≡ true
      → (w : WorkIntent) × (get i s.intents ≡ some w)
        × (w.slot_id ≡ t)
        × (w.state ≡ WorkIntentState.queued)
  queued_lem i e = waits_lem s t i inv (ground (arith, here, from_queue i e))

  pub claim_batch-Inv : Inv (claim_batch generation batch_id t p ids s).state
  unfolding claim_batch b
  claim_batch-Inv =
      rewrite-Inv s _ t (queued_in (start_batch b slot)) (batch_in (start_batch b slot)) ids
        (set_state (WorkIntentState.starting batch_id (saturating_suc s.next_operation_id))) inv
        (set_state-Keeps _) (λ sl i. ground (arith, get-modify t sl (start_batch b) s.slots, here))
        (λ sl i. ground (arith, get-modify t sl (start_batch b) s.slots, here))
        (λ i. get-modify_each ids i _ s.intents (set_state-set_state _))
        (modify_each-Sorted ids _ s.intents inv.sorted)
        (λ i e. let (w, g, o, q) = queued_lem i e in (w, g, o))
        (λ i w e g. ground (arith, started-queued i, e, state-set_state _ w))
        (λ i e. ground (arith, started-queued i, here))
        (λ i w e g. ground (arith, started-batch i, e, state-set_state _ w))
        (λ i e. ground (arith, started-batch i, here, idle))

take_queue-Inv :
    (generation batch_id t : Ident) (p : WorkPriority) (slot : SlotState) (s : CoordinatorState)
    → Inv s
    → get t s.slots ≡ some slot
    → slot.active ≡ none
    → Inv (take_queue generation batch_id t p slot s).state
unfolding take_queue
take_queue-Inv generation batch_id t p slot s inv here idle =
    let ids : List Ident = keep (has_message s.intents) (queue slot p) in
    elim (Bool-cases (is_empty ids)) [
      | inl e ↦ rw (e, take_queue) inv
      | inr e ↦
          rw (e, take_queue)
            (claim_batch-Inv generation batch_id t p ids s slot inv here idle (λ i m.
              mem-queue p i slot
                (ground (arith, mem-keep i (has_message s.intents) (queue slot p), m))))
    ]

take_selected-Inv :
    (generation batch_id t : Ident) (slot : SlotState) (s : CoordinatorState)
    (o : Option WorkPriority)
    → Inv s
    → get t s.slots ≡ some slot
    → slot.active ≡ none
    → Inv (take_selected generation batch_id t slot s o).state
unfolding take_selected
take_selected-Inv generation batch_id t slot s none inv here idle = inv
take_selected-Inv generation batch_id t slot s (some p) inv here idle =
    take_queue-Inv generation batch_id t p slot s inv here idle

next_for-Inv :
    (generation batch_id t : Ident) (slot : SlotState) (s : CoordinatorState)
    → Inv s
    → get t s.slots ≡ some slot
    → Inv (next_for generation batch_id t slot s).state
unfolding next_for
next_for-Inv generation batch_id t slot s inv here =
    ground (arith, take_selected-Inv generation batch_id t slot s (selected_priority slot) inv here)

pub next-Inv :
    (generation batch_id t : Ident) (s : CoordinatorState)
    → Inv s
    → Inv (next generation batch_id t s).state
unfolding next
next-Inv generation batch_id t s inv = elim (Option-cases (get t s.slots)) [
  | inl e ↦ rw (e, next) inv
  | inr (slot, e) ↦ rw (e, next) (next_for-Inv generation batch_id t slot s inv e)
]
