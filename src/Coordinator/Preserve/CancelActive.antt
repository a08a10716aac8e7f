-- ===== src/Coordinator/Preserve/CancelActive.antt =====
-- crates/team/src/work_coordinator/coordinator.rs: one turn of the loop of `cancel_run` over the
-- active slots.
use team_lite.Base.{
  Ident, Bool, true, none, some, List, [], ◌∷◌, ◌≡◌, refl, sym, get, mem, Map, ◌&&◌, ◌||◌, not,
  arith, get-modify, get-modify_each, modify, modify_each, modify_each-Sorted, some_and, map,
  every_intro,
}
use team_lite.Errors.{ok}
use team_lite.Coordinator.Source.{WorkPriority}
use team_lite.Coordinator.Model.{WorkIntent}
use team_lite.Coordinator.Slots.{ActiveBatch, SlotState, CoordinatorState, set_state, queued_ids}
use team_lite.Coordinator.Snapshot.{is_queued, of_run}
use team_lite.Coordinator.Views.{in_flight, queued_in, batch_at}
use team_lite.Coordinator.Invariant.{Inv, Keeps, rewrite-Inv}
use team_lite.Coordinator.Preserve.Batches.{batch_at_lem, batch-not-queued}
use team_lite.Coordinator.Preserve.Slots.{queued-push_front, active-push_front}
use team_lite.Coordinator.Cancel.{
  present, settle, retained_of, requeue_front, release_batch, cancel_active,
}

abbrev second : WorkPriority × Ident → Ident
second (p, i) = i

refronted_queued :
    (r : List (WorkPriority × Ident)) (i : Ident) (slot : SlotState)
    → queued_in (requeue_front r slot) i ≡ (mem i (map second r) || queued_in slot i)
unfolding requeue_front
refronted_queued [] i slot = refl
refronted_queued ((p, k) ∷ r) i slot =
    ground (arith, refronted_queued r i slot, queued-push_front p k i (requeue_front r slot))

refronted_active :
    (r : List (WorkPriority × Ident)) (slot : SlotState)
    → (requeue_front r slot).active ≡ slot.active
unfolding requeue_front
refronted_active [] slot = refl
refronted_active ((p, k) ∷ r) slot =
    ground (arith, refronted_active r slot, active-push_front p k (requeue_front r slot))

abbrev outside : Ident → WorkIntent → Bool
outside run w = not (of_run run w.team_run_id)

retained_ids :
    (run : Ident) (intents : Map WorkIntent) (ids : List Ident) (i : Ident)
    → mem i (map second (retained_of run intents ids))
      ≡ (mem i ids && some_and (outside run) (get i intents))
unfolding retained_of
retained_ids run intents [] i = refl
retained_ids run intents (k ∷ ks) i = ground (arith, retained_ids run intents ks i)

settle-Keeps : (run : Ident) → Keeps (settle run)
unfolding settle set_state
settle-Keeps run = record { keeps_id = λ w. ground arith; keeps_slot = λ w. ground arith }

pub settle_twice : (run : Ident) (w : WorkIntent) → settle run (settle run w) ≡ settle run w
unfolding settle set_state
settle_twice run w = ground arith

settled_queued : (run : Ident) (w : WorkIntent) → is_queued (settle run w).state ≡ outside run w
unfolding settle set_state
settled_queued run w = ground arith

settled_flight : (run : Ident) (w : WorkIntent) → in_flight (settle run w).state ≡ none
unfolding settle set_state
settled_flight run w = ground arith

pub settled_run : (run : Ident) (w : WorkIntent) → (settle run w).team_run_id ≡ w.team_run_id
unfolding settle set_state
settled_run run w = ground arith

module _ (run t : Ident) (a : ActiveBatch) (s : CoordinatorState) (slot : SlotState) (inv : Inv s)
    (here : get t s.slots ≡ some slot) (active : slot.active ≡ some a) where
  abbrev pub ids : List Ident
  ids = a.batch.intent_ids

  pub in_batch : (i : Ident) → mem i ids ≡ true → batch_at s t i ≡ some a.batch.batch_id
  in_batch i m = ground (arith, here, active, m)

  abbrev pub released : SlotState
  released = release_batch (retained_of run s.intents ids) slot

  released_queued :
      (i : Ident)
      → queued_in released i
        ≡ ((mem i ids && some_and (outside run) (get i s.intents)) || queued_in slot i)
  unfolding release_batch queued_ids
  released_queued i =
      unfold queued_ids in
      ground (
        arith,
        refronted_queued (retained_of run s.intents ids) i (record slot { active = none }),
        retained_ids run s.intents ids i,
      )

  pub released_active : released.active ≡ none
  unfolding release_batch
  released_active = refronted_active (retained_of run s.intents ids) (record slot { active = none })

  abbrev pub after_active : CoordinatorState
  after_active = record s {
    slots = modify t (release_batch (retained_of run s.intents ids)) s.slots;
    intents = modify_each ids (settle run) s.intents;
  }

  pub after_active-Inv : Inv after_active
  after_active-Inv =
      rewrite-Inv s _ t (queued_in released) (λ i. none) ids (settle run) inv (settle-Keeps run)
        (λ sl i.
          ground
            (arith, get-modify t sl (release_batch (retained_of run s.intents ids)) s.slots, here))
        (λ sl i. ground (
          arith,
          get-modify t sl (release_batch (retained_of run s.intents ids)) s.slots,
          here,
          released_active,
        ))
        (λ i. get-modify_each ids i _ s.intents (settle_twice run))
        (modify_each-Sorted ids _ s.intents inv.sorted)
        (λ i m.
          let (w, g, o, f) = batch_at_lem s t i a.batch.batch_id inv (in_batch i m) in (w, g, o))
        (λ i w m g. ground (
          arith,
          released_queued i,
          m,
          g,
          settled_queued run w,
          batch-not-queued s t i a.batch.batch_id inv (in_batch i m),
          here,
        ))
        (λ i m. ground (arith, released_queued i, m, here)) (λ i w m g. sym (settled_flight run w))
        (λ i m. ground (arith, here, active, m))

  pub cancel_active-ok : cancel_active run t a s ≡ ok after_active
  unfolding cancel_active
  cancel_active-ok = rw (
      every_intro (present s.intents) ids (λ i m.
        let (w, g, o, f) = batch_at_lem s t i a.batch.batch_id inv (in_batch i m) in
        ground (arith, g)))
