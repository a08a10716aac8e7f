-- ===== src/Coordinator/Preserve/Slots.antt =====
-- crates/team/src/work_coordinator/coordinator.rs: the methods of a slot, its queues and its
-- batch.
use team_lite.Base.{
  Ident, true, false, some, List, [], ◌∷◌, ◌++◌, ◌≡◌, refl, get, mem, if◌then◌else◌, ◌==◌, ◌||◌,
  Option-cases, inl, inr, arith, mem-append, mem-without,
}
use team_lite.Coordinator.Source.{WorkPriority}
use team_lite.Coordinator.Model.{WorkIntentState, WorkIntent}
use team_lite.Coordinator.Slots.{
  SlotState, CoordinatorState, queued_ids, update_queue, queue, remove_queued, remove_queued_each,
  push_back, push_front,
}
use team_lite.Coordinator.Views.{batch_in, queued_in, queued_at}
use team_lite.Coordinator.Invariant.{Inv}

pub queued-remove_queued :
    (k i : Ident) (slot : SlotState)
    → queued_in (remove_queued k slot) i ≡ (if i == k then false else queued_in slot i)
unfolding remove_queued queued_ids
queued-remove_queued k i slot = simp (mem-append, mem-without) (ground arith)

pub batch-remove_queued :
    (k i : Ident) (slot : SlotState) → batch_in (remove_queued k slot) i ≡ batch_in slot i
unfolding remove_queued
batch-remove_queued k i slot = refl

pub queued-remove_queued_each :
    (ks : List Ident) (i : Ident) (slot : SlotState)
    → queued_in (remove_queued_each ks slot) i ≡ (if mem i ks then false else queued_in slot i)
unfolding remove_queued_each
queued-remove_queued_each [] i slot = refl
queued-remove_queued_each (k ∷ ks) i slot =
    ground
      (arith, queued-remove_queued_each ks i (remove_queued k slot), queued-remove_queued k i slot)

pub active-remove_queued_each :
    (ks : List Ident) (slot : SlotState) → (remove_queued_each ks slot).active ≡ slot.active
unfolding remove_queued_each remove_queued
active-remove_queued_each [] slot = refl
active-remove_queued_each (k ∷ ks) slot = active-remove_queued_each ks (remove_queued k slot)

pub batch-remove_queued_each :
    (ks : List Ident) (i : Ident) (slot : SlotState)
    → batch_in (remove_queued_each ks slot) i ≡ batch_in slot i
batch-remove_queued_each ks i slot = ground (arith, active-remove_queued_each ks slot)

pub queued-push_back :
    (p : WorkPriority) (k i : Ident) (slot : SlotState)
    → queued_in (push_back p k slot) i ≡ ((i == k) || queued_in slot i)
unfolding push_back update_queue queued_ids
queued-push_back WorkPriority.foreground k i slot = simp (mem-append) (ground arith)
queued-push_back WorkPriority.control k i slot = simp (mem-append) (ground arith)
queued-push_back WorkPriority.background k i slot = simp (mem-append) (ground arith)

pub queued-push_front :
    (p : WorkPriority) (k i : Ident) (slot : SlotState)
    → queued_in (push_front p k slot) i ≡ ((i == k) || queued_in slot i)
unfolding push_front update_queue queued_ids
queued-push_front WorkPriority.foreground k i slot = simp (mem-append) (ground arith)
queued-push_front WorkPriority.control k i slot = simp (mem-append) (ground arith)
queued-push_front WorkPriority.background k i slot = simp (mem-append) (ground arith)

pub active-push_back :
    (p : WorkPriority) (k : Ident) (slot : SlotState) → (push_back p k slot).active ≡ slot.active
unfolding push_back update_queue
active-push_back p k slot = ground arith

pub active-push_front :
    (p : WorkPriority) (k : Ident) (slot : SlotState) → (push_front p k slot).active ≡ slot.active
unfolding push_front update_queue
active-push_front p k slot = ground arith

pub batch-push_back :
    (p : WorkPriority) (k i : Ident) (slot : SlotState)
    → batch_in (push_back p k slot) i ≡ batch_in slot i
batch-push_back p k i slot = ground (arith, active-push_back p k slot)

-- What one queue holds, the slot holds.
pub mem-queue :
    (p : WorkPriority) (i : Ident) (slot : SlotState)
    → mem i (queue slot p) ≡ true
    → queued_in slot i ≡ true
unfolding queue queued_ids
mem-queue p i slot h = ground (
  arith,
  mem-append i slot.foreground (slot.control ++ slot.background),
  mem-append i slot.control slot.background,
)

-- A queued identifier is that of a queued intent of the slot.
pub waits_lem :
    (s : CoordinatorState) (t i : Ident)
    → Inv s
    → queued_at s t i ≡ true
    → (w : WorkIntent) × (get i s.intents ≡ some w)
      × (w.slot_id ≡ t)
      × (w.state ≡ WorkIntentState.queued)
waits_lem s t i inv h = elim (Option-cases (get i s.intents)) [
  | inl e ↦ absurd (ground (arith, inv.queues t i, e))
  | inr (w, e) ↦ (w, e, ground (arith, inv.queues t i, e), ground (arith, inv.queues t i, e))
]
