-- ===== src/Coordinator/Preserve/Decisions.antt =====
-- crates/team/src/work_coordinator/coordinator.rs: the decisions of `next`, and the batches of the
-- slots.
use team_lite.Base.{
  Ident, Option, none, some, List, ◌≡◌, refl, get, map_option, if◌then◌else◌, ◌==◌, Bool-cases,
  Option-cases, inl, inr, arith, get-modify, keep, is_some, is_empty, modify-Sorted, ◌⊎◌,
}
use team_lite.Coordinator.Source.{WorkPriority}
use team_lite.Coordinator.Model.{WorkBatch, ReconcileDecision}
use team_lite.Coordinator.Slots.{ActiveBatch, SlotState, CoordinatorState, queue, Outcome}
use team_lite.Coordinator.Snapshot.{is_ready}
use team_lite.Coordinator.Views.{active_batch}
use team_lite.Coordinator.Filing.{Filed, refiled}
use team_lite.Coordinator.Batches.{
  has_message, make_batch, start_batch, claim_batch, take_queue, take_selected, selected_priority,
  next_for, next, saturating_suc,
}

-- What a claim does to the batches of the slots, and to the filing.
pub record Activated (s : CoordinatorState) (t : Ident) (b : WorkBatch) (s' : CoordinatorState)
    : Type 0 where
  pub active : (sl : Ident) → active_batch s' sl ≡ (if sl == t then some b else active_batch s sl)
  pub filed : Filed s → Filed s'
  pub same_leases : s'.enqueue_leases ≡ s.enqueue_leases

-- A decision that claims nothing leaves the state; a claim is of a new batch of the slot.
abbrev pub Decides : Ident → Ident → Ident → CoordinatorState → Outcome ReconcileDecision → Type 0
Decides generation batch_id t s o =
    ((o.state ≡ s) × ((b : WorkBatch) → o.result ≡ ReconcileDecision.claim b → ⊥))
    ⊎ ((b : WorkBatch) × (o.result ≡ ReconcileDecision.claim b)
        × (b.batch_id ≡ batch_id)
        × (b.slot_id ≡ t)
        × (b.session_generation ≡ generation)
        × Activated s t b o.state)

module _ (generation batch_id t : Ident) (slot : SlotState) (s : CoordinatorState)
    (here : get t s.slots ≡ some slot) where
  started_active :
      (b : WorkBatch)
      → map_option (λ (a : ActiveBatch). a.batch) (start_batch b slot).active ≡ some b
  unfolding start_batch
  started_active b = refl

  claim-Decides :
      (p : WorkPriority) (ids : List Ident)
      → Decides generation batch_id t s (claim_batch generation batch_id t p ids s)
  unfolding claim_batch
  claim-Decides p ids =
      let b : WorkBatch =
        make_batch generation s.intents batch_id t p ids (saturating_suc s.next_operation_id) in
      inr (
        b,
        refl,
        unfold make_batch in refl,
        unfold make_batch in refl,
        unfold make_batch in refl,
        record {
          active =
              λ sl. ground (arith, get-modify t sl (start_batch b) s.slots, here, started_active b);
          filed = λ f. refiled s _ f (modify-Sorted t (start_batch b) s.slots f.slots_sorted) refl;
          same_leases = refl;
        },
      )

  take_queue-Decides :
      (p : WorkPriority)
      → Decides generation batch_id t s (take_queue generation batch_id t p slot s)
  unfolding take_queue
  take_queue-Decides p =
      elim (Bool-cases (is_empty (keep (has_message s.intents) (queue slot p)))) [
        | inl e ↦ rw (e, take_queue) (inl (refl, λ b h. cc))
        | inr e ↦ rw (e, take_queue) (claim-Decides p (keep (has_message s.intents) (queue slot p)))
      ]

  take_selected-Decides :
      (o : Option WorkPriority)
      → Decides generation batch_id t s (take_selected generation batch_id t slot s o)
  unfolding take_selected
  take_selected-Decides none = inl (refl, λ b h. cc)
  take_selected-Decides (some p) = take_queue-Decides p

  next_for-Decides : Decides generation batch_id t s (next_for generation batch_id t slot s)
  unfolding next_for
  next_for-Decides = elim (Bool-cases (is_some slot.active)) [
    | inl e ↦ rw (e, next_for) (inl (refl, λ b h. cc))
    | inr e ↦ elim (Bool-cases (is_ready slot.runtime_constraint)) [
      | inr f ↦ rw (e, next_for) (rw f (inl (refl, λ b h. cc)))
      | inl f ↦ elim (Bool-cases slot.paused) [
        | inl g ↦ rw (e, next_for) (rw f (rw g (inl (refl, λ b h. cc))))
        | inr g ↦ rw (e, next_for) (rw f (simp g (take_selected-Decides (selected_priority slot))))
      ]
    ]
  ]

pub next-Decides :
    (generation batch_id t : Ident) (s : CoordinatorState)
    → Decides generation batch_id t s (next generation batch_id t s)
unfolding next
next-Decides generation batch_id t s = elim (Option-cases (get t s.slots)) [
  | inl e ↦ rw (e, next) (inl (refl, λ b h. cc))
  | inr (slot, e) ↦ rw (e, next) (next_for-Decides generation batch_id t slot s e)
]
