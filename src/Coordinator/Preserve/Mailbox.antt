-- ===== src/Coordinator/Preserve/Mailbox.antt =====
-- crates/team/src/work_coordinator/coordinator.rs: `complete_signals` and the first half of
-- `reconcile_mailbox`, and the invariant.
use team_lite.Base.{
  Ident, true, false, none, some, List, ◌≡◌, refl, get, mem, if◌then◌else◌, ◌==◌, Bool-cases,
  Option-cases, inl, inr, arith, get-modify, get-insert, get-modify_each, modify, keep, every,
  modify_each-Sorted, mem-keep, some_and, every-mem, ◌⊎◌,
}
use team_lite.Coordinator.Model.{WorkIntentState, WorkIntent, TeamRunTargetRole}
use team_lite.Coordinator.Slots.{
  SlotState, CoordinatorState, set_state, queued_ids, remove_queued_each, slot_or_new,
}
use team_lite.Coordinator.Views.{batch_in, queued_in, queued_at, batch_at}
use team_lite.Coordinator.Invariant.{Inv, rewrite-Inv}
use team_lite.Coordinator.Preserve.Slots.{
  queued-remove_queued_each, batch-remove_queued_each, waits_lem, active-remove_queued_each,
}
use team_lite.Coordinator.Preserve.Batches.{set_state-Keeps, set_state-set_state, state-set_state}
use team_lite.Coordinator.Mailbox.{clears, clear_stale, is_signal, complete_signals}

signal_lem :
    (s : CoordinatorState) (t i : Ident) (ids : List Ident)
    → every (λ j. some_and (is_signal t) (get j s.intents)) ids ≡ true
    → mem i ids ≡ true
    → (w : WorkIntent) × (get i s.intents ≡ some w)
      × (w.slot_id ≡ t)
      × (w.state ≡ WorkIntentState.queued)
signal_lem s t i ids h m =
    let e = every-mem (λ j. some_and (is_signal t) (get j s.intents)) i ids h m in
    elim (Option-cases (get i s.intents)) [
      | inl none_there ↦ absurd (ground (arith, e, none_there))
      | inr (w, there) ↦ (w, there, ground (arith, e, there), ground (arith, e, there))
    ]

-- A queued intent is in no batch.
pub queued-not-batch :
    (s : CoordinatorState) (t i : Ident) → Inv s → queued_at s t i ≡ true → batch_at s t i ≡ none
queued-not-batch s t i inv h =
    let (w, g, o, q) = waits_lem s t i inv h in ground (arith, inv.batches t i, g, o, q)

pub complete_signals-Inv :
    (t : Ident) (ids : List Ident) (s : CoordinatorState)
    → Inv s
    → Inv (complete_signals t ids s).state
unfolding complete_signals
complete_signals-Inv t ids s inv =
    elim (Bool-cases (every (λ i. some_and (is_signal t) (get i s.intents)) ids)) [
      | inr e ↦ rw (e, complete_signals) inv
      | inl e ↦
          rw (e, complete_signals)
            (rewrite-Inv s _ t (λ i. if mem i ids then false else queued_at s t i) (batch_at s t)
              ids (set_state WorkIntentState.completed) inv (set_state-Keeps _)
              (λ sl i. after sl i (Option-cases (get t s.slots)))
              (λ sl i. after_batch sl i (Option-cases (get t s.slots)))
              (λ i. get-modify_each ids i _ s.intents (set_state-set_state _))
              (modify_each-Sorted ids _ s.intents inv.sorted)
              (λ i m. let (w, g, o, q) = signal_lem s t i ids e m in (w, g, o))
              (λ i w m g. ground (arith, m, state-set_state WorkIntentState.completed w))
              (λ i m. ground (arith, m))
              (λ i w m g.
                let (v, g', o, q) = signal_lem s t i ids e m in
                ground (
                  arith,
                  queued-not-batch s t i inv,
                  inv.queues t i,
                  g',
                  o,
                  q,
                  state-set_state WorkIntentState.completed w,
                ))
              (λ i m. refl))
    ]
  where
    after :
        (sl i : Ident)
        → ((get t s.slots ≡ none) ⊎ ((slot : SlotState) × (get t s.slots ≡ some slot)))
        → queued_at (record s { slots = modify t (remove_queued_each ids) s.slots }) sl i
          ≡ (if sl == t then (if mem i ids then false else queued_at s t i) else queued_at s sl i)
    after sl i (inl e) = ground (arith, get-modify t sl (remove_queued_each ids) s.slots, e)
    after sl i (inr (slot, e)) = ground (
      arith,
      get-modify t sl (remove_queued_each ids) s.slots,
      e,
      queued-remove_queued_each ids i slot,
    )

    after_batch :
        (sl i : Ident)
        → ((get t s.slots ≡ none) ⊎ ((slot : SlotState) × (get t s.slots ≡ some slot)))
        → batch_at (record s { slots = modify t (remove_queued_each ids) s.slots }) sl i
          ≡ (if sl == t then batch_at s t i else batch_at s sl i)
    after_batch sl i (inl e) = ground (arith, get-modify t sl (remove_queued_each ids) s.slots, e)
    after_batch sl i (inr (slot, e)) = ground (
      arith,
      get-modify t sl (remove_queued_each ids) s.slots,
      e,
      active-remove_queued_each ids slot,
    )

abbrev pub known_slot : TeamRunTargetRole → List Ident → Ident → CoordinatorState → SlotState
known_slot role unread t s = record (slot_or_new role (get t s.slots)) {
  role = role;
  known_unread_message_ids = unread;
}

known_queued :
    (role : TeamRunTargetRole) (unread : List Ident) (t : Ident) (s : CoordinatorState) (i : Ident)
    → queued_in (known_slot role unread t s) i ≡ queued_at s t i
unfolding slot_or_new queued_ids
known_queued role unread t s i = ground arith

known_batch :
    (role : TeamRunTargetRole) (unread : List Ident) (t : Ident) (s : CoordinatorState) (i : Ident)
    → batch_in (known_slot role unread t s) i ≡ batch_at s t i
unfolding slot_or_new
known_batch role unread t s i = ground arith

module _ (t : Ident) (unread : List Ident) (role : TeamRunTargetRole) (s : CoordinatorState)
    (inv : Inv s) where
  pub stale_slot : SlotState
  stale_slot = known_slot role unread t s

  pub stale_ids : List Ident
  stale_ids = keep (clears unread s.intents) (queued_ids stale_slot)

  cleared_queued : (i : Ident) → mem i stale_ids ≡ true → queued_at s t i ≡ true
  unfolding stale_ids stale_slot
  cleared_queued i m = ground (
    arith,
    mem-keep i (clears unread s.intents) (queued_ids (known_slot role unread t s)),
    known_queued role unread t s i,
  )

  pub clear_stale-Inv : Inv (clear_stale t unread role s).0
  unfolding clear_stale stale_ids stale_slot
  clear_stale-Inv =
      rewrite-Inv s _ t (queued_in (remove_queued_each stale_ids stale_slot))
        (batch_in (remove_queued_each stale_ids stale_slot)) stale_ids
        (set_state WorkIntentState.completed) inv (set_state-Keeps _)
        (λ sl i. ground (arith, get-insert t sl (remove_queued_each stale_ids stale_slot) s.slots))
        (λ sl i. ground (arith, get-insert t sl (remove_queued_each stale_ids stale_slot) s.slots))
        (λ i. get-modify_each stale_ids i _ s.intents (set_state-set_state _))
        (modify_each-Sorted stale_ids _ s.intents inv.sorted)
        (λ i m. let (w, g, o, q) = waits_lem s t i inv (cleared_queued i m) in (w, g, o))
        (λ i w m g. ground (
          arith,
          queued-remove_queued_each stale_ids i stale_slot,
          m,
          state-set_state WorkIntentState.completed w,
        ))
        (λ i m. ground (
          arith,
          queued-remove_queued_each stale_ids i stale_slot,
          m,
          known_queued role unread t s i,
        ))
        (λ i w m g. ground (
          arith,
          batch-remove_queued_each stale_ids i stale_slot,
          known_batch role unread t s i,
          queued-not-batch s t i inv (cleared_queued i m),
          state-set_state WorkIntentState.completed w,
        ))
        (λ i m.
          ground
            (arith, batch-remove_queued_each stale_ids i stale_slot, known_batch role unread t s i))

  pub clear_stale-slot :
      get t (clear_stale t unread role s).0.slots ≡ some (remove_queued_each stale_ids stale_slot)
  unfolding clear_stale stale_ids stale_slot
  clear_stale-slot =
      ground (arith, get-insert t t (remove_queued_each stale_ids stale_slot) s.slots)

  pub clear_stale-unused :
      (i : Ident) → get i s.intents ≡ none → get i (clear_stale t unread role s).0.intents ≡ none
  unfolding clear_stale stale_ids stale_slot
  clear_stale-unused i h = ground (
    arith,
    get-modify_each stale_ids i (set_state WorkIntentState.completed) s.intents
        (set_state-set_state _),
    h,
  )
