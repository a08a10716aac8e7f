-- ===== src/Coordinator/Selection.antt =====
-- crates/team/src/work_coordinator/coordinator.rs: what `next` gives a slot to do.
use team_lite.Base.{
  Ident, ℕ, true, false, none, some, List, [], ◌∷◌, ◌≡◌, refl, get, Bool-cases, Option-cases, inl,
  inr, arith, keep, is_empty, ◌<◌, ◌⊎◌, subst,
}
use team_lite.Coordinator.Source.{WorkPriority}
use team_lite.Coordinator.Model.{WorkBatch, ReconcileDecision}
use team_lite.Coordinator.Slots.{SlotState, CoordinatorState, queued_ids, queue}
use team_lite.Coordinator.Snapshot.{is_ready}
use team_lite.Coordinator.Batches.{
  next_for, selected_priority, make_batch, take_queue, next, has_message, take_selected,
  claim_batch, saturating_suc,
}

abbrev rank : WorkPriority → ℕ
rank WorkPriority.foreground = 0
rank WorkPriority.control = 1
rank WorkPriority.background = 2

-- A slot that may start a batch.
pub record CanStart (slot : SlotState) : Type 0 where
  pub idle : slot.active ≡ none
  pub is_up : is_ready slot.runtime_constraint ≡ true
  pub unpaused : slot.paused ≡ false

-- The first queue, by priority, that holds something.
pub record IsSelected (slot : SlotState) (p : WorkPriority) : Type 0 where
  pub holds : is_empty (queue slot p) ≡ false
  pub earlier : (q : WorkPriority) → rank q < rank p → queue slot q ≡ []

empty_lem : (xs : List Ident) → is_empty xs ≡ true → xs ≡ []
empty_lem [] e = refl
empty_lem (x ∷ xs) e = cc

selected_priority-IsSelected :
    (slot : SlotState) (p : WorkPriority) → selected_priority slot ≡ some p → IsSelected slot p
unfolding selected_priority queue
selected_priority-IsSelected slot WorkPriority.foreground e = record {
  holds = ground (arith, e);
  earlier = λ q. elim q as (λ k. rank k < rank WorkPriority.foreground → queue slot k ≡ []) [
    | WorkPriority.foreground ↦ λ h. absurd (omega arith)
    | WorkPriority.control ↦ λ h. absurd (omega arith)
    | WorkPriority.background ↦ λ h. absurd (omega arith)
  ];
}
selected_priority-IsSelected slot WorkPriority.control e = record {
  holds = ground (arith, e);
  earlier = λ q. elim q as (λ k. rank k < rank WorkPriority.control → queue slot k ≡ []) [
    | WorkPriority.foreground ↦ λ h. empty_lem slot.foreground (ground (arith, e))
    | WorkPriority.control ↦ λ h. absurd (omega arith)
    | WorkPriority.background ↦ λ h. absurd (omega arith)
  ];
}
selected_priority-IsSelected slot WorkPriority.background e = record {
  holds = ground (arith, e);
  earlier = λ q. elim q as (λ k. rank k < rank WorkPriority.background → queue slot k ≡ []) [
    | WorkPriority.foreground ↦ λ h. empty_lem slot.foreground (ground (arith, e))
    | WorkPriority.control ↦ λ h. empty_lem slot.control (ground (arith, e))
    | WorkPriority.background ↦ λ h. absurd (omega arith)
  ];
}

none_selected :
    (slot : SlotState) → selected_priority slot ≡ none → is_empty (queued_ids slot) ≡ false → ⊥
unfolding selected_priority queued_ids
none_selected slot e work =
    let f = empty_lem slot.foreground (ground (arith, e)) in
    let c = empty_lem slot.control (ground (arith, e)) in
    let b = empty_lem slot.background (ground (arith, e)) in absurd (ground (arith, work, f, c, b))

-- The decision on a queue: a batch of the intents in it that carry a message, in the queue's order,
-- or, where none does, the whole queue as signals to settle.
abbrev pub Serves : CoordinatorState → SlotState → WorkPriority → ReconcileDecision → Type 0
Serves s slot p d =
    let ids = keep (has_message s.intents) (queue slot p) in
    ((is_empty ids ≡ true) × (d ≡ ReconcileDecision.settle_signals (queue slot p)))
    ⊎ ((is_empty ids ≡ false)
        × (b : WorkBatch) × (d ≡ ReconcileDecision.claim b)
        × (b.intent_ids ≡ ids)
        × (b.highest_priority ≡ p))

abbrev chosen : Ident → Ident → Ident → WorkPriority → SlotState → CoordinatorState → WorkBatch
chosen g batch_id t p slot s =
    make_batch g s.intents batch_id t p (keep (has_message s.intents) (queue slot p))
      (saturating_suc s.next_operation_id)

take_queue-Serves :
    (g batch_id t : Ident) (p : WorkPriority) (slot : SlotState) (s : CoordinatorState)
    → Serves s slot p (take_queue g batch_id t p slot s).result
unfolding take_queue claim_batch make_batch
take_queue-Serves g batch_id t p slot s =
    elim (Bool-cases (is_empty (keep (has_message s.intents) (queue slot p)))) [
      | inl e ↦ inl (e, rw (e, take_queue) refl)
      | inr e ↦ inr (e, chosen g batch_id t p slot s, rw (e, take_queue) refl, refl, refl)
    ]

-- The decision on a slot that may not start a batch, or has nothing queued, claims nothing.
pub next_for-claims :
    (g batch_id t : Ident) (b : WorkBatch) (slot : SlotState) (s : CoordinatorState)
    → (next_for g batch_id t slot s).result ≡ ReconcileDecision.claim b
    → CanStart slot
      × (p : WorkPriority) × (selected_priority slot ≡ some p)
      × ((take_queue g batch_id t p slot s).result ≡ ReconcileDecision.claim b)
unfolding next_for take_selected
next_for-claims g batch_id t b slot s e = elim (Option-cases slot.active) [
  | inr (a, h) ↦ absurd (ground (arith, e, h))
  | inl h ↦ elim (Bool-cases (is_ready slot.runtime_constraint)) [
    | inr r ↦ absurd (ground (arith, e, h, r))
    | inl r ↦ elim (Bool-cases slot.paused) [
      | inl q ↦ absurd (ground (arith, e, h, r, q))
      | inr q ↦ elim (Option-cases (selected_priority slot)) [
        | inl v ↦ absurd (ground (arith, e, h, r, q, v))
        | inr (p, v) ↦
            (record { idle = h; is_up = r; unpaused = q }, p, v, ground (arith, e, h, r, q, v))
      ]
    ]
  ]
]

pub next_for-start :
    (g batch_id t : Ident) (slot : SlotState) (s : CoordinatorState)
    → CanStart slot
    → next_for g batch_id t slot s ≡ take_selected g batch_id t slot s (selected_priority slot)
unfolding next_for
next_for-start g batch_id t slot s c = ground (arith, c.idle, c.is_up, c.unpaused)

-- For a slot that is idle, ready and not paused and has something queued, `next` decides on the
-- queue with the highest priority that holds something: it claims the intents that carry a
-- message, in the queue's order, or returns the whole queue as signals if none carries one.
pub next-progress :
    (g batch_id t : Ident) (slot : SlotState) (s : CoordinatorState)
    → get t s.slots ≡ some slot
    → CanStart slot
    → is_empty (queued_ids slot) ≡ false
    → (p : WorkPriority) × IsSelected slot p × Serves s slot p (next g batch_id t s).result
unfolding next take_selected
next-progress g batch_id t slot s here c work = elim (Option-cases (selected_priority slot)) [
  | inl e ↦ absurd (none_selected slot e work)
  | inr (p, e) ↦ (
    p,
    selected_priority-IsSelected slot p e,
    subst (Serves s slot p) (ground (arith, here, next_for-start g batch_id t slot s c, e))
        (take_queue-Serves g batch_id t p slot s),
  )
]

-- `next` claims a batch only for a slot that is idle, ready and not paused, and then the batch
-- holds the intents that carry a message, at least one, of the queue with the highest priority
-- that holds something, in the queue's order.
pub next-claims :
    (g batch_id t : Ident) (b : WorkBatch) (s : CoordinatorState)
    → (next g batch_id t s).result ≡ ReconcileDecision.claim b
    → (slot : SlotState) × (get t s.slots ≡ some slot)
      × CanStart slot
      × IsSelected slot b.highest_priority
      × (b.intent_ids ≡ keep (has_message s.intents) (queue slot b.highest_priority))
      × (is_empty b.intent_ids ≡ false)
unfolding next
next-claims g batch_id t b s e = elim (Option-cases (get t s.slots)) [
  | inl f ↦ absurd (ground (arith, e, f))
  | inr (slot, f) ↦
      let (c, p, v, k) = next_for-claims g batch_id t b slot s (ground (arith, e, f)) in
      elim (take_queue-Serves g batch_id t p slot s) [
        | inl (x, y) ↦ absurd (ground (arith, k, y))
        | inr (x, d, y, z, w) ↦
            let same : d ≡ b = ground (arith, k, y) in
            let (sel, ids, some_ids) =
              subst
                (λ (j : WorkBatch).
                  IsSelected slot j.highest_priority
                  × (j.intent_ids ≡ keep (has_message s.intents) (queue slot j.highest_priority))
                  × (is_empty j.intent_ids ≡ false))
                same (rw (z, w) (selected_priority-IsSelected slot p v, refl, x)) in
            (slot, f, c, sel, ids, some_ids)
      ]
]
