-- ===== src/Coordinator/Ownership.antt =====
-- crates/team/src/work_coordinator/coordinator.rs: the calls that end a batch, and their owner
-- check `is_current_batch`.
use team_lite.Base.{
  Ident, true, false, none, [], ◌≡◌, refl, get, mem, map_option, if◌then◌else◌, Option-cases, inl,
  inr, arith, get-modify, get-modify_each, modify, modify_each,
}
use team_lite.Coordinator.Model.{WorkIntentState, WorkBatch, CommitResult}
use team_lite.Coordinator.Slots.{SlotState, CoordinatorState, set_state}
use team_lite.Coordinator.Views.{active_batch, batch_of}
use team_lite.Coordinator.Preserve.Batches.{set_state-set_state}
use team_lite.Coordinator.Batches.{is_current_batch, terminalize_batch, drop_active}

dropped_batch : (slot : SlotState) → batch_of (drop_active slot) ≡ none
unfolding drop_active
dropped_batch slot = refl

not_current :
    (g : Ident) (b : WorkBatch) (s : CoordinatorState)
    → active_batch s b.slot_id ≡ none
    → is_current_batch g s b ≡ false
unfolding is_current_batch
not_current g b s h = elim (Option-cases (get b.slot_id s.slots)) [
  | inl e ↦ ground (arith, e)
  | inr (slot, e) ↦ elim (Option-cases slot.active) [
    | inl f ↦ ground (arith, e, f)
    | inr (a, f) ↦ absurd (ground (arith, h, e, f))
  ]
]

-- A call that ends a batch and whose caller holds the slot's current batch is committed: the slot
-- has no batch, every intent of the batch has the final state of the call, no other intent changes,
-- and any later call that ends the batch, with the state unchanged in between, is refused as
-- stale and changes nothing.
pub terminalize_batch-ends :
    (g : Ident) (b : WorkBatch) (st later : WorkIntentState) (s : CoordinatorState)
    → is_current_batch g s b ≡ true
    → let s' = (terminalize_batch g b st s).state in
      ((terminalize_batch g b st s).result ≡ CommitResult.committed)
      × (active_batch s' b.slot_id ≡ none)
      × ((i : Ident)
          → get i s'.intents ≡ (
              if mem i b.intent_ids
              then map_option (set_state st) (get i s.intents)
              else get i s.intents))
      × ((terminalize_batch g b later s').result ≡ CommitResult.stale_owner)
      × ((terminalize_batch g b later s').state ≡ s')
      × ((terminalize_batch g b later s').published ≡ [])
unfolding terminalize_batch
terminalize_batch-ends g b st later s c =
    let t : CoordinatorState = record s {
      slots = modify b.slot_id drop_active s.slots;
      intents = modify_each b.intent_ids (set_state st) s.intents;
    } in
    let gone : active_batch t b.slot_id ≡ none =
      ground (arith, get-modify b.slot_id b.slot_id drop_active s.slots) in
    let refused : is_current_batch g t b ≡ false = not_current g b t gone in
    rw (c) (
      refl,
      gone,
      λ i. get-modify_each b.intent_ids i (set_state st) s.intents (set_state-set_state st),
      rw (refused) refl,
      rw (refused) refl,
      rw (refused) refl,
    )
