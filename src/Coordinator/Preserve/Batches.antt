-- ===== src/Coordinator/Preserve/Batches.antt =====
-- crates/team/src/work_coordinator/coordinator.rs: `mark_started`, `retry_start` and the ends of a
-- batch, and the invariant.
use team_lite.Base.{
  Ident, true, false, none, some, List, ◌++◌, ◌≡◌, refl, get, mem, Bool-cases, Option-cases, inl,
  inr, arith, get-modify, get-modify_each, modify, modify_each, modify_each-Sorted, mem-append,
  ◌||◌,
}
use team_lite.Coordinator.Source.{WorkPriority}
use team_lite.Coordinator.Model.{WorkIntentState, WorkIntent, WorkBatch, is_terminal}
use team_lite.Coordinator.Slots.{
  ActiveBatch, SlotState, CoordinatorState, set_state, queued_ids, update_queue,
}
use team_lite.Coordinator.Snapshot.{is_queued}
use team_lite.Coordinator.Batches.{
  is_current_batch, begin_turn, mark_started, return_batch, retry_start, drop_active,
  terminalize_batch,
}
use team_lite.Coordinator.Views.{in_flight, batch_in, queued_in, queued_at, batch_at, Held}
use team_lite.Coordinator.Invariant.{Inv, Keeps, rewrite-Inv}

pub set_state-Keeps : (st : WorkIntentState) → Keeps (set_state st)
unfolding set_state
set_state-Keeps st = record { keeps_id = λ w. refl; keeps_slot = λ w. refl }

pub set_state-set_state :
    (st : WorkIntentState) (w : WorkIntent) → set_state st (set_state st w) ≡ set_state st w
unfolding set_state
set_state-set_state st w = refl

pub state-set_state : (st : WorkIntentState) (w : WorkIntent) → (set_state st w).state ≡ st
unfolding set_state
state-set_state st w = refl

-- The slot and the batch that a current batch names.
pub current_lem :
    (generation : Ident) (s : CoordinatorState) (b : WorkBatch)
    → is_current_batch generation s b ≡ true
    → Held s b
    → (slot : SlotState) × (a : ActiveBatch) × (get b.slot_id s.slots ≡ some slot)
      × (slot.active ≡ some a)
      × (a.batch ≡ b)
unfolding is_current_batch
current_lem generation s b h held = elim (Option-cases (get b.slot_id s.slots)) [
  | inl e ↦ absurd (ground (arith, e))
  | inr (slot, e) ↦ elim (Option-cases slot.active) [
    | inl f ↦ absurd (ground (arith, e, f))
    | inr (a, f) ↦ (slot, a, e, f, held a.batch (ground (arith, e, f)) (ground (arith, e, f)))
  ]
]

-- An intent in a slot's batch is an intent of that slot, starting or running.
pub batch_at_lem :
    (s : CoordinatorState) (t i b : Ident)
    → Inv s
    → batch_at s t i ≡ some b
    → (w : WorkIntent) × (get i s.intents ≡ some w) × (w.slot_id ≡ t) × (in_flight w.state ≡ some b)
batch_at_lem s t i b inv h = elim (Option-cases (get i s.intents)) [
  | inl e ↦ absurd (ground (arith, inv.batches t i, e))
  | inr (w, e) ↦ (w, e, ground (arith, inv.batches t i, e), ground (arith, inv.batches t i, e))
]

-- No intent is both in a batch and in a queue.
pub batch-not-queued :
    (s : CoordinatorState) (t i b : Ident)
    → Inv s
    → batch_at s t i ≡ some b
    → queued_at s t i ≡ false
batch-not-queued s t i b inv h =
    let (w, e, o, f) = batch_at_lem s t i b inv h in ground (arith, inv.queues t i, e, o, f)

-- A batch that ends leaves its intents in the state given, or in its queue again.
module _ (s : CoordinatorState) (b : WorkBatch) (slot : SlotState) (a : ActiveBatch) (inv : Inv s)
    (here : get b.slot_id s.slots ≡ some slot) (active : slot.active ≡ some a) (same : a.batch ≡ b)
    (g : SlotState → SlotState) (st : WorkIntentState)
    (queued_touched : (i : Ident)
      → mem i b.intent_ids ≡ true
      → queued_in slot i ≡ false
      → queued_in (g slot) i ≡ is_queued st)
    (queued_else : (i : Ident)
      → mem i b.intent_ids ≡ false
      → queued_in (g slot) i ≡ queued_in slot i)
    (batch_touched : (i : Ident) → mem i b.intent_ids ≡ true → batch_in (g slot) i ≡ in_flight st)
    (batch_else : (i : Ident) → mem i b.intent_ids ≡ false → batch_in (g slot) i ≡ none) where
  at_batch : (i : Ident) → mem i b.intent_ids ≡ true → batch_at s b.slot_id i ≡ some b.batch_id
  at_batch i e = ground (arith, here, active, same, e)

  off_batch : (i : Ident) → mem i b.intent_ids ≡ false → batch_at s b.slot_id i ≡ none
  off_batch i e = ground (arith, here, active, same, e)

  pub batch_write-Inv : Inv (record s {
    slots = modify b.slot_id g s.slots;
    intents = modify_each b.intent_ids (set_state st) s.intents;
  })
  batch_write-Inv =
      rewrite-Inv s _ b.slot_id (queued_in (g slot)) (batch_in (g slot)) b.intent_ids (set_state st)
        inv (set_state-Keeps st) (λ sl i. ground (arith, get-modify b.slot_id sl g s.slots, here))
        (λ sl i. ground (arith, get-modify b.slot_id sl g s.slots, here))
        (λ i. get-modify_each b.intent_ids i (set_state st) s.intents (set_state-set_state st))
        (modify_each-Sorted b.intent_ids (set_state st) s.intents inv.sorted)
        (λ i e.
          let (w, got, o, f) = batch_at_lem s b.slot_id i b.batch_id inv (at_batch i e) in
          (w, got, o))
        (λ i w e got. ground (
          arith,
          queued_touched i e,
          batch-not-queued s b.slot_id i b.batch_id inv (at_batch i e),
          here,
          state-set_state st w,
        ))
        (λ i e. ground (arith, queued_else i e, here))
        (λ i w e got. ground (arith, batch_touched i e, state-set_state st w))
        (λ i e. ground (arith, batch_else i e, off_batch i e))

ended-queued :
    (st : WorkIntentState) (slot : SlotState) (i : Ident)
    → is_terminal st ≡ true
    → queued_in slot i ≡ false
    → queued_in (drop_active slot) i ≡ is_queued st
unfolding is_terminal drop_active queued_ids
ended-queued st slot i term q = ground (arith, q)

ended-batch :
    (st : WorkIntentState) (slot : SlotState) (i : Ident)
    → is_terminal st ≡ true
    → batch_in (drop_active slot) i ≡ in_flight st
unfolding is_terminal drop_active
ended-batch st slot i term = ground arith

returned :
    (p : WorkPriority) (ids : List Ident) (slot : SlotState) (i : Ident)
    → queued_in (update_queue p (λ q. ids ++ q) (record slot { active = none })) i
      ≡ (mem i ids || queued_in slot i)
unfolding update_queue queued_ids
returned WorkPriority.foreground ids slot i = simp (mem-append) (ground arith)
returned WorkPriority.control ids slot i = simp (mem-append) (ground arith)
returned WorkPriority.background ids slot i = simp (mem-append) (ground arith)

pub kept_active :
    (p : WorkPriority) (f : List Ident → List Ident) (slot : SlotState)
    → (update_queue p f slot).active ≡ slot.active
unfolding update_queue
kept_active p f slot = ground arith

pub terminalize_batch-Inv :
    (generation : Ident) (s : CoordinatorState) (b : WorkBatch) (st : WorkIntentState)
    → is_terminal st ≡ true
    → Inv s
    → Held s b
    → Inv (terminalize_batch generation b st s).state
unfolding terminalize_batch is_terminal
terminalize_batch-Inv generation s b st term inv held =
    elim (Bool-cases (is_current_batch generation s b)) [
      | inr e ↦ rw (e, terminalize_batch) inv
      | inl e ↦
          let (slot, a, here, active, same) = current_lem generation s b e held in
          rw (e, terminalize_batch)
            (batch_write-Inv s b slot a inv here active same drop_active st
              (λ i m q. ended-queued st slot i term q)
              (λ i m. unfold drop_active queued_ids in refl) (λ i m. ended-batch st slot i term)
              (λ i m. unfold drop_active in refl))
    ]

pub mark_started-Inv :
    (generation : Ident) (s : CoordinatorState) (b : WorkBatch) (turn_id now : Ident)
    → Inv s
    → Held s b
    → Inv (mark_started generation b turn_id now s).state
unfolding mark_started
mark_started-Inv generation s b turn_id now inv held =
    elim (Bool-cases (is_current_batch generation s b)) [
      | inr e ↦ rw (e, mark_started) inv
      | inl e ↦
          let (slot, a, here, active, same) = current_lem generation s b e held in
          rw (e, mark_started)
            (batch_write-Inv s b slot a inv here active same (begin_turn turn_id now)
              (WorkIntentState.running b.batch_id b.operation_id turn_id)
              (λ i m q. unfold begin_turn queued_ids in q)
              (λ i m. unfold begin_turn queued_ids in refl)
              (λ i m. unfold begin_turn in ground (arith, active, same, m))
              (λ i m. unfold begin_turn in ground (arith, active, same, m)))
    ]

-- The front of a queue takes the identifiers of the batch.
pub return_batch_queued :
    (b : WorkBatch) (slot : SlotState) (i : Ident)
    → queued_in (return_batch b slot) i ≡ (mem i b.intent_ids || queued_in slot i)
unfolding return_batch queued_ids
return_batch_queued b slot i = returned b.highest_priority b.intent_ids slot i

pub return_batch_active : (b : WorkBatch) (slot : SlotState) → (return_batch b slot).active ≡ none
unfolding return_batch
return_batch_active b slot =
    kept_active b.highest_priority (λ q. b.intent_ids ++ q) (record slot { active = none })

pub retry_start-Inv :
    (generation : Ident) (s : CoordinatorState) (b : WorkBatch)
    → Inv s
    → Held s b
    → Inv (retry_start generation b s).state
unfolding retry_start
retry_start-Inv generation s b inv held = elim (Bool-cases (is_current_batch generation s b)) [
  | inr e ↦ rw (e, retry_start) inv
  | inl e ↦
      let (slot, a, here, active, same) = current_lem generation s b e held in
      rw (e, retry_start)
        (batch_write-Inv s b slot a inv here active same (return_batch b) WorkIntentState.queued
          (λ i m q. ground (arith, return_batch_queued b slot i, m))
          (λ i m. ground (arith, return_batch_queued b slot i, m))
          (λ i m. ground (arith, return_batch_active b slot))
          (λ i m. ground (arith, return_batch_active b slot)))
]
