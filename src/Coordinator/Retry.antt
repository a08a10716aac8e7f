-- ===== src/Coordinator/Retry.antt =====
-- crates/team/src/work_coordinator/coordinator.rs: `next` followed by `retry_start`.
use team_lite.Base.{
  Ident, true, Option, none, some, List, [], ◌∷◌, ◌++◌, ◌≡◌, refl, sym, ap, ◌∙◌, get, mem,
  map_option, if◌then◌else◌, not, Bool-cases, Option-cases, inl, inr, arith, get-modify,
  get-modify_each, modify_each, keep, mem-keep, is_empty, without, ==_refl, subst,
}
use team_lite.Coordinator.Source.{WorkPriority}
use team_lite.Coordinator.Model.{
  WorkIntentState, WorkIntent, WorkBatch, ReconcileDecision, CommitResult,
}
use team_lite.Coordinator.Slots.{
  ActiveBatch, SlotState, CoordinatorState, set_state, update_queue, queue, remove_queued,
  remove_queued_each, Outcome,
}
use team_lite.Coordinator.Snapshot.{is_queued}
use team_lite.Coordinator.Invariant.{Inv}
use team_lite.Coordinator.Preserve.Slots.{mem-queue}
use team_lite.Coordinator.Preserve.Batches.{set_state-set_state}
use team_lite.Coordinator.Selection.{next_for-claims, next_for-start}
use team_lite.Coordinator.Batches.{
  next, take_selected, take_queue, claim_batch, make_batch, start_batch, retry_start, return_batch,
  is_current_batch, has_message, saturating_suc,
}

-- The intents that are not among those claimed.
abbrev pub others : List Ident → List Ident → List Ident
others ids q = keep (λ i. not (mem i ids)) q

others-without : (i : Ident) (is q : List Ident) → others is (without i q) ≡ others (i ∷ is) q
others-without i is [] = refl
others-without i is (x ∷ xs) = ground (arith, others-without i is xs)

no_others : (q : List Ident) → others [] q ≡ q
no_others [] = refl
no_others (x ∷ xs) = ground (arith, no_others xs)

queue-remove_queued :
    (i : Ident) (is : List Ident) (p : WorkPriority) (slot : SlotState)
    → others is (queue (remove_queued i slot) p) ≡ others (i ∷ is) (queue slot p)
unfolding remove_queued queue
queue-remove_queued i is WorkPriority.foreground slot = others-without i is slot.foreground
queue-remove_queued i is WorkPriority.control slot = others-without i is slot.control
queue-remove_queued i is WorkPriority.background slot = others-without i is slot.background

queue-remove_queued_each :
    (ids : List Ident) (p : WorkPriority) (slot : SlotState)
    → queue (remove_queued_each ids slot) p ≡ others ids (queue slot p)
unfolding remove_queued_each
queue-remove_queued_each [] p slot = sym (no_others (queue slot p))
queue-remove_queued_each (i ∷ is) p slot =
    queue-remove_queued_each is p (remove_queued i slot) ∙ queue-remove_queued i is p slot

returned_to :
    (p : WorkPriority) (ids : List Ident) (slot : SlotState)
    → queue (update_queue p (λ q. ids ++ q) (record slot { active = none })) p ≡ ids ++ queue slot p
unfolding update_queue queue
returned_to WorkPriority.foreground ids slot = refl
returned_to WorkPriority.control ids slot = refl
returned_to WorkPriority.background ids slot = refl

same_queue :
    (p : WorkPriority) (slot : SlotState) (a : Option ActiveBatch)
    → queue (record slot { active = a }) p ≡ queue slot p
unfolding queue
same_queue WorkPriority.foreground slot a = refl
same_queue WorkPriority.control slot a = refl
same_queue WorkPriority.background slot a = refl

started_queue :
    (d : WorkBatch) (slot : SlotState) (p : WorkPriority)
    → queue (start_batch d slot) p ≡ others d.intent_ids (queue slot p)
unfolding start_batch
started_queue d slot p =
    same_queue p (remove_queued_each d.intent_ids slot) _
    ∙ queue-remove_queued_each d.intent_ids p slot

queue-return_batch :
    (d : WorkBatch) (slot : SlotState)
    → queue (return_batch d slot) d.highest_priority ≡ d.intent_ids ++ queue slot d.highest_priority
unfolding return_batch
queue-return_batch d slot = returned_to d.highest_priority d.intent_ids slot

requeued :
    (w : WorkIntent) (st : WorkIntentState)
    → w.state ≡ WorkIntentState.queued
    → set_state WorkIntentState.queued (set_state st w) ≡ w
unfolding set_state
requeued w st e = ap (λ (x : WorkIntentState). record w { state = x }) (sym e)

-- What `retry_start` of a batch that was claimed in the state `s` gives.
abbrev pub Returned : Ident → WorkBatch → CoordinatorState → Outcome CommitResult → Type 0
Returned t d s o =
    (o.result ≡ CommitResult.committed)
    × ((i : Ident) → get i o.state.intents ≡ get i s.intents)
    × (slot : SlotState) × (slot' : SlotState) × (get t s.slots ≡ some slot)
    × (get t o.state.slots ≡ some slot')
    × (slot'.active ≡ none)
    × (queue slot' d.highest_priority
        ≡ d.intent_ids ++ others d.intent_ids (queue slot d.highest_priority))

idle_after :
    (p : WorkPriority) (ids : List Ident) (slot : SlotState)
    → (update_queue p (λ q. ids ++ q) (record slot { active = none })).active ≡ none
unfolding update_queue
idle_after WorkPriority.foreground ids slot = refl
idle_after WorkPriority.control ids slot = refl
idle_after WorkPriority.background ids slot = refl

returned_idle : (d : WorkBatch) (slot : SlotState) → (return_batch d slot).active ≡ none
unfolding return_batch
returned_idle d slot = idle_after d.highest_priority d.intent_ids slot

module _ (g batch_id t : Ident) (p : WorkPriority) (ids : List Ident) (slot : SlotState)
    (s : CoordinatorState) (here : get t s.slots ≡ some slot)
    (queued : (i : Ident) (w : WorkIntent)
      → mem i ids ≡ true
      → get i s.intents ≡ some w
      → w.state ≡ WorkIntentState.queued) where
  abbrev b : WorkBatch
  b = make_batch g s.intents batch_id t p ids (saturating_suc s.next_operation_id)

  abbrev claimed : CoordinatorState
  claimed = (claim_batch g batch_id t p ids s).state

  claimed_slot : get t claimed.slots ≡ some (start_batch b slot)
  unfolding claim_batch
  claimed_slot = ground (arith, get-modify t t (start_batch b) s.slots, here)

  claimed_current : is_current_batch g claimed b ≡ true
  unfolding is_current_batch
  claimed_current =
      unfold start_batch make_batch in
      ground (
        arith,
        claimed_slot,
        ==_refl g,
        ==_refl batch_id,
        ==_refl (saturating_suc s.next_operation_id),
      )

  claimed_intents :
      (i : Ident)
      → get i claimed.intents ≡ (
          if mem i ids
          then map_option
              (set_state (WorkIntentState.starting batch_id (saturating_suc s.next_operation_id)))
              (get i s.intents)
          else get i s.intents)
  unfolding claim_batch
  claimed_intents i =
      get-modify_each ids i
        (set_state (WorkIntentState.starting batch_id (saturating_suc s.next_operation_id)))
        s.intents (set_state-set_state _)

  returned_intents :
      (i : Ident)
      → get i (modify_each ids (set_state WorkIntentState.queued) claimed.intents) ≡ get i s.intents
  returned_intents i =
      let again =
        get-modify_each ids i (set_state WorkIntentState.queued) claimed.intents
          (set_state-set_state _) in
      elim (Bool-cases (mem i ids)) [
        | inr e ↦ ground (arith, again, claimed_intents i, e)
        | inl e ↦ elim (Option-cases (get i s.intents)) [
          | inl f ↦ ground (arith, again, claimed_intents i, e, f)
          | inr (w, f) ↦ ground (
            arith,
            again,
            claimed_intents i,
            e,
            f,
            requeued w (WorkIntentState.starting batch_id (saturating_suc s.next_operation_id))
                (queued i w e f),
          )
        ]
      ]

  returned_queue : queue (return_batch b (start_batch b slot)) p ≡ ids ++ others ids (queue slot p)
  unfolding make_batch
  returned_queue =
      queue-return_batch b (start_batch b slot) ∙ ap (λ q. ids ++ q) (started_queue b slot p)

  claimed-Returned : Returned t b s (retry_start g b claimed)
  unfolding retry_start make_batch
  claimed-Returned =
      rw (claimed_current, retry_start)
        (
          refl,
          returned_intents,
          slot,
          return_batch b (start_batch b slot),
          here,
          ground (arith, get-modify t t (return_batch b) claimed.slots, claimed_slot),
          returned_idle b (start_batch b slot),
          returned_queue,
        )

queued_lem : (st : WorkIntentState) → is_queued st ≡ true → st ≡ WorkIntentState.queued
queued_lem WorkIntentState.queued e = refl
queued_lem (WorkIntentState.starting a o) e = cc
queued_lem (WorkIntentState.running a o u) e = cc
queued_lem WorkIntentState.completed e = cc
queued_lem (WorkIntentState.failed c) e = cc
queued_lem (WorkIntentState.cancelled c) e = cc

-- A queue that gives a batch gives the one that is made of its intents with a message.
take_queue-claims :
    (g batch_id t : Ident) (p : WorkPriority) (b : WorkBatch) (slot : SlotState)
    (s : CoordinatorState)
    → (take_queue g batch_id t p slot s).result ≡ ReconcileDecision.claim b
    → let ids = keep (has_message s.intents) (queue slot p) in
      (take_queue g batch_id t p slot s ≡ claim_batch g batch_id t p ids s)
      × (make_batch g s.intents batch_id t p ids (saturating_suc s.next_operation_id) ≡ b)
unfolding take_queue claim_batch
take_queue-claims g batch_id t p b slot s k =
    elim (Bool-cases (is_empty (keep (has_message s.intents) (queue slot p)))) [
      | inl e ↦ absurd (ground (arith, k, e))
      | inr e ↦ (rw (e, take_queue) refl, ground (arith, k, e))
    ]

waiting_state :
    (s : CoordinatorState) (t i : Ident) (slot : SlotState) (p : WorkPriority) (w : WorkIntent)
    → Inv s
    → get t s.slots ≡ some slot
    → mem i (queue slot p) ≡ true
    → get i s.intents ≡ some w
    → w.state ≡ WorkIntentState.queued
waiting_state s t i slot p w inv here m g =
    let waits : is_queued w.state ≡ true =
      ground (arith, inv.queues t i, here, mem-queue p i slot m, g) in
    queued_lem w.state waits

-- A batch that `next` has claimed, on a state that meets the invariant, and that `retry_start` gives
-- back: the call is committed, every intent is as it was before the claim, and the slot has no batch
-- and has the claimed intents at the front of their queue, in their order, before the others of it.
pub next-retry :
    (g batch_id t : Ident) (b : WorkBatch) (s : CoordinatorState)
    → Inv s
    → (next g batch_id t s).result ≡ ReconcileDecision.claim b
    → Returned t b s (retry_start g b (next g batch_id t s).state)
unfolding next take_selected
next-retry g batch_id t b s inv e = elim (Option-cases (get t s.slots)) [
  | inl f ↦ absurd (ground (arith, e, f))
  | inr (slot, f) ↦
      let (c, p, v, k) = next_for-claims g batch_id t b slot s (ground (arith, e, f)) in
      let ids = keep (has_message s.intents) (queue slot p) in
      let (q, same) = take_queue-claims g batch_id t p b slot s k in
      let whole : next g batch_id t s ≡ claim_batch g batch_id t p ids s =
        ground (arith, f, next_for-start g batch_id t slot s c, v, q) in
      let done = claimed-Returned g batch_id t p ids slot s f (λ i w m h.
        waiting_state s t i slot p w inv f
          (ground (arith, mem-keep i (has_message s.intents) (queue slot p), m)) h) in
      let back =
        subst (λ d. Returned t d s (retry_start g d (claim_batch g batch_id t p ids s).state)) same
          done in
      subst (λ o. Returned t b s (retry_start g b o.state)) (sym whole) back
]
