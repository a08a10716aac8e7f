-- ===== src/Coordinator/Shutdown.antt =====
-- crates/team/src/work_coordinator/coordinator.rs: what is left after `stop` and after
-- `remove_slot`.
use team_lite.Coordinator.Preserve.Removal.{removal_ids-open, removal_ids-present}
use team_lite.Coordinator.Runtime.{
  open_in, stop_intent, halt, remove_slot, stop, cancel_target, discard, removal_ids,
}
use team_lite.Base.{
  some_and, map_option, Ident, true, none, some, [], ◌≡◌, refl, get, Option-cases, inl, inr, arith,
  get-modify, get-modify_each, get-modify_values, subst, if◌then◌else◌,
}
use team_lite.Errors.{ok}
use team_lite.Coordinator.Model.{
  WorkIntentState, WorkIntent, RuntimeConstraint, is_terminal, RemoveWorkResult,
}
use team_lite.Coordinator.Slots.{SlotState, CoordinatorState, set_state, queued_ids, clear_work}
use team_lite.Coordinator.Invariant.{Inv}
use team_lite.Coordinator.Preserve.Batches.{set_state-set_state}

-- A slot that a stopped session has.
pub record IsHalted (slot : SlotState) : Type 0 where
  pub no_queue : queued_ids slot ≡ []
  pub no_batch : slot.active ≡ none
  pub is_down : slot.runtime_constraint ≡ RuntimeConstraint.session_stopped

pub record Stopped (s s' : CoordinatorState) : Type 0 where
  pub finished :
      (i : Ident) (w : WorkIntent) → get i s'.intents ≡ some w → is_terminal w.state ≡ true
  pub kept :
      (i : Ident) (w : WorkIntent)
      → get i s.intents ≡ some w
      → is_terminal w.state ≡ true
      → get i s'.intents ≡ some w
  pub halted : (t : Ident) (slot : SlotState) → get t s'.slots ≡ some slot → IsHalted slot
  pub no_lease : s'.enqueue_leases ≡ []

stop_intent-terminal : (w : WorkIntent) → is_terminal (stop_intent w).state ≡ true
unfolding stop_intent is_terminal
stop_intent-terminal w = ground arith

stop_intent-kept : (w : WorkIntent) → is_terminal w.state ≡ true → stop_intent w ≡ w
unfolding stop_intent
stop_intent-kept w e = rw e refl

halt-IsHalted : (slot : SlotState) → IsHalted (halt slot)
unfolding halt clear_work queued_ids
halt-IsHalted slot = record { no_queue = refl; no_batch = refl; is_down = refl }

-- After `stop`, every intent is in a final state, and one that was keeps what it had; every slot
-- has nothing queued, no batch and a stopped session; and no enqueue lease is left.
pub stop-Stopped : (s : CoordinatorState) → Stopped s (stop s).state
unfolding stop
stop-Stopped s = record {
  finished = λ i w h. elim (Option-cases (get i s.intents)) [
    | inl e ↦ absurd (ground (arith, get-modify_values i stop_intent s.intents, e, h))
    | inr (v, e) ↦
        let same : stop_intent v ≡ w =
          ground (arith, get-modify_values i stop_intent s.intents, e, h) in
        subst (λ x. is_terminal x.state ≡ true) same (stop_intent-terminal v)
  ];
  kept =
      λ i w h t. ground (arith, get-modify_values i stop_intent s.intents, h, stop_intent-kept w t);
  halted = λ t slot h. elim (Option-cases (get t s.slots)) [
    | inl e ↦ absurd (ground (arith, get-modify_values t halt s.slots, e, h))
    | inr (v, e) ↦
        let same : halt v ≡ slot = ground (arith, get-modify_values t halt s.slots, e, h) in
        subst IsHalted same (halt-IsHalted v)
  ];
  no_lease = refl;
}

-- `remove_slot` of a known slot, on a state that meets the invariant, does not panic: it returns the batch and the
-- turn to cancel at the agent, and afterwards the slot is marked as removed, every intent of the slot
-- that was not final is cancelled, and no other intent changes.
pub remove_slot-ok :
    (t : Ident) (s : CoordinatorState) (slot : SlotState)
    → Inv s
    → get t s.slots ≡ some slot
    → (r : RemoveWorkResult) × ((remove_slot t s).result ≡ ok r)
      × (r.cancel_target ≡ cancel_target slot)
      × (get t (remove_slot t s).state.slots ≡ some (discard slot))
      × ((i : Ident)
          → get i (remove_slot t s).state.intents ≡ (
              if some_and (open_in t) (get i s.intents)
              then map_option
                  (set_state (WorkIntentState.cancelled "slot_removed"))
                  (get i s.intents)
              else get i s.intents))
unfolding remove_slot
remove_slot-ok t s slot inv here =
    rw (removal_ids-present s t inv, remove_slot)
      (
        _,
        refl,
        rw here refl,
        ground (arith, get-modify t t discard s.slots, here),
        λ i. ground (
          arith,
          get-modify_each (removal_ids t s) i (set_state (WorkIntentState.cancelled "slot_removed"))
              s.intents (set_state-set_state _),
          removal_ids-open s t i inv,
        ),
      )
