-- ===== src/Coordinator/Preserve/Moves.antt =====
-- crates/team/src/work_coordinator/coordinator.rs: how each call but a claim changes the maps and
-- the batches of slots.
use team_lite.Base.{
  Ident, some, List, ◌≡◌, refl, sym, get, Sorted, Bool-cases, Option-cases, inl, inr, arith,
  get-modify, get-insert, modify, insert, every, insert-Sorted, some_and, remove, remove-Sorted,
  get-remove, modify-Sorted, subst,
}
use team_lite.Coordinator.Model.{WorkIntentState, WorkBatch}
use team_lite.Coordinator.Slots.{
  SlotState, CoordinatorState, remove_queued_each, clear_work, slot_or_new, EnqueueLeaseRecord,
}
use team_lite.Coordinator.Views.{active_batch, Shrinks, batch_of}
use team_lite.Coordinator.Filing.{Filed, refiled}
use team_lite.Coordinator.Batches.{
  is_current_batch, begin_turn, mark_started, return_batch, retry_start, drop_active,
  terminalize_batch,
}
use team_lite.Coordinator.Mailbox.{complete_signals, is_signal}
use team_lite.Coordinator.Cancel.{present}
use team_lite.Coordinator.Runtime.{pause_slot, removal_ids, discard, remove_slot}
use team_lite.Coordinator.Preserve.Slots.{active-remove_queued_each}
use team_lite.Coordinator.Preserve.Batches.{return_batch_active}

pub record Moves (s s' : CoordinatorState) : Type 0 where
  pub filed : Filed s → Filed s'
  pub shrinks : Shrinks s s'

pub Moves-refl : (s : CoordinatorState) → Moves s s
Moves-refl s = record { filed = λ f. f; shrinks = λ sl a h. h }

pub Moves-trans : (s t u : CoordinatorState) → Moves s t → Moves t u → Moves s u
Moves-trans s t u m n = record {
  filed = λ f. n.filed (m.filed f);
  shrinks = λ sl a h. m.shrinks sl a (n.shrinks sl a h);
}

-- A write to one slot that gives it no batch.
abbrev pub NoNew : (SlotState → SlotState) → Type 0
NoNew g = (slot : SlotState) (a : WorkBatch) → batch_of (g slot) ≡ some a → batch_of slot ≡ some a

pub modify-Moves :
    (t : Ident) (g : SlotState → SlotState) (s s' : CoordinatorState)
    → NoNew g
    → s'.slots ≡ modify t g s.slots
    → s'.enqueue_leases ≡ s.enqueue_leases
    → Moves s s'
modify-Moves t g s s' h es el = record {
  filed = λ f. refiled s s' f (subst Sorted (sym es) (modify-Sorted t g s.slots f.slots_sorted)) el;
  shrinks = λ sl a e. elim (Option-cases (get sl s.slots)) [
    | inl n ↦ absurd (ground (arith, es, get-modify t sl g s.slots, n, e))
    | inr (slot, n) ↦ ground (arith, es, get-modify t sl g s.slots, n, e, h slot a)
  ];
}

-- A slot written anew over what was there.
pub insert-Moves :
    (t : Ident) (slot : SlotState) (s s' : CoordinatorState)
    → ((a : WorkBatch) → batch_of slot ≡ some a → active_batch s t ≡ some a)
    → s'.slots ≡ insert t slot s.slots
    → (Filed s → Filed (record s' { slots = s.slots }))
    → Moves s s'
insert-Moves t slot s s' h es fl = record {
  filed = λ f. record {
    slots_sorted = subst Sorted (sym es) (insert-Sorted t slot s.slots f.slots_sorted);
    leases_sorted = (fl f).leases_sorted;
    leases_keyed = (fl f).leases_keyed;
  };
  shrinks = λ sl a e. ground (arith, es, get-insert t sl slot s.slots, e, h a);
}

pub removed_leases :
    (i : Ident) (s s' : CoordinatorState)
    → s'.enqueue_leases ≡ remove i s.enqueue_leases
    → Sorted s'.slots
    → Filed s
    → Filed s'
removed_leases i s s' e sl f = record {
  slots_sorted = sl;
  leases_sorted = subst Sorted (sym e) (remove-Sorted i s.enqueue_leases f.leases_sorted);
  leases_keyed =
      λ j r g. f.leases_keyed j r (ground (arith, g, e, get-remove i j s.enqueue_leases));
}

pub added_lease :
    (i : Ident) (r : EnqueueLeaseRecord) (s s' : CoordinatorState)
    → r.lease.lease_id ≡ i
    → s'.enqueue_leases ≡ insert i r s.enqueue_leases
    → Sorted s'.slots
    → Filed s
    → Filed s'
added_lease i r s s' own e sl f = record {
  slots_sorted = sl;
  leases_sorted = subst Sorted (sym e) (insert-Sorted i r s.enqueue_leases f.leases_sorted);
  leases_keyed =
      λ j q g. ground (arith, f.leases_keyed j q, get-insert i j r s.enqueue_leases, e, g, own);
}

pub terminalize_batch-Moves :
    (generation : Ident) (b : WorkBatch) (st : WorkIntentState) (s : CoordinatorState)
    → Moves s (terminalize_batch generation b st s).state
unfolding terminalize_batch
terminalize_batch-Moves generation b st s = elim (Bool-cases (is_current_batch generation s b)) [
  | inr e ↦ rw (e, terminalize_batch) (Moves-refl s)
  | inl e ↦
      rw (e, terminalize_batch)
        (modify-Moves b.slot_id drop_active s _ (unfold drop_active in λ slot a h. cc) refl refl)
]

pub mark_started-Moves :
    (generation : Ident) (b : WorkBatch) (turn_id now : Ident) (s : CoordinatorState)
    → Moves s (mark_started generation b turn_id now s).state
unfolding mark_started
mark_started-Moves generation b turn_id now s =
    elim (Bool-cases (is_current_batch generation s b)) [
      | inr e ↦ rw (e, mark_started) (Moves-refl s)
      | inl e ↦
          rw (e, mark_started)
            (modify-Moves b.slot_id (begin_turn turn_id now) s _
              (unfold begin_turn in λ slot a h. ground arith) refl refl)
    ]

pub retry_start-Moves :
    (generation : Ident) (b : WorkBatch) (s : CoordinatorState)
    → Moves s (retry_start generation b s).state
unfolding retry_start
retry_start-Moves generation b s = elim (Bool-cases (is_current_batch generation s b)) [
  | inr e ↦ rw (e, retry_start) (Moves-refl s)
  | inl e ↦
      rw (e, retry_start)
        (modify-Moves b.slot_id (return_batch b) s _
          (λ slot a h. ground (arith, return_batch_active b slot, h)) refl refl)
]

pub complete_signals-Moves :
    (t : Ident) (ids : List Ident) (s : CoordinatorState) → Moves s (complete_signals t ids s).state
unfolding complete_signals
complete_signals-Moves t ids s =
    elim (Bool-cases (every (λ i. some_and (is_signal t) (get i s.intents)) ids)) [
      | inr e ↦ rw (e, complete_signals) (Moves-refl s)
      | inl e ↦
          rw (e, complete_signals)
            (modify-Moves t (remove_queued_each ids) s _
              (λ slot a h. ground (arith, active-remove_queued_each ids slot, h)) refl refl)
    ]

pub remove_slot-Moves : (t : Ident) (s : CoordinatorState) → Moves s (remove_slot t s).state
unfolding remove_slot
remove_slot-Moves t s = elim (Bool-cases (every (present s.intents) (removal_ids t s))) [
  | inr e ↦ rw (e, remove_slot) (Moves-refl s)
  | inl e ↦
      rw (e, remove_slot)
        (modify-Moves t discard s _ (unfold clear_work in λ slot a h. cc) refl refl)
]

pub pause_slot-Moves : (t : Ident) (s : CoordinatorState) → Moves s (pause_slot t s).state
unfolding pause_slot slot_or_new
pause_slot-Moves t s =
    insert-Moves t _ s _ (λ a h. ground (arith, h)) refl (λ f. refiled s _ f f.slots_sorted refl)
