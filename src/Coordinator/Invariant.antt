-- ===== src/Coordinator/Invariant.antt =====
-- crates/team/src/work_coordinator/coordinator.rs: what is asked of the state between two calls.
use team_lite.Base.{
  Ident, true, false, some, List, ◌≡◌, get, mem, Sorted, map_option, if◌then◌else◌, ◌==◌,
  Bool-cases, inl, inr, arith, Bool, none, subst, sym, ◌||◌, Option,
}
use team_lite.Coordinator.Model.{WorkIntent, WorkIntentState}
use team_lite.Coordinator.Slots.{CoordinatorState}
use team_lite.Coordinator.Snapshot.{is_queued}
use team_lite.Coordinator.Views.{in_flight, queued_at, batch_at, waits, works}

-- The intents are filed under their identifiers. An intent stands in a queue of a slot exactly if
-- it is queued for that slot, and in a slot's batch exactly if its state says that it is starting or
-- running in that batch.
pub record Inv (s : CoordinatorState) : Type 0 where
  pub sorted : Sorted s.intents
  pub keyed : (i : Ident) (w : WorkIntent) → get i s.intents ≡ some w → w.intent_id ≡ i
  pub queues : (sl i : Ident) → queued_at s sl i ≡ waits s sl i
  pub batches : (sl i : Ident) → batch_at s sl i ≡ works s sl i

-- A write that leaves the identity of an intent alone.
pub record Keeps (f : WorkIntent → WorkIntent) : Type 0 where
  pub keeps_id : (w : WorkIntent) → (f w).intent_id ≡ w.intent_id
  pub keeps_slot : (w : WorkIntent) → (f w).slot_id ≡ w.slot_id

-- An operation that rewrites one slot, whose queues then hold the intents of `q` and whose batch is
-- given by `p`, and some of that slot's intents.
module _ (s s' : CoordinatorState) (t : Ident) (q : Ident → Bool) (p : Ident → Option Ident)
    (ids : List Ident) (f : WorkIntent → WorkIntent) (inv : Inv s) (keeps : Keeps f)
    (queued_after : (sl i : Ident)
      → queued_at s' sl i ≡ (if sl == t then q i else queued_at s sl i))
    (batch_after : (sl i : Ident) → batch_at s' sl i ≡ (if sl == t then p i else batch_at s sl i))
    (intents_after : (i : Ident)
      → get i s'.intents ≡ (if mem i ids then map_option f (get i s.intents) else get i s.intents))
    (sorted' : Sorted s'.intents)
    (owned : (i : Ident)
      → mem i ids ≡ true
      → (w : WorkIntent) × (get i s.intents ≡ some w) × (w.slot_id ≡ t))
    (queued_touched : (i : Ident) (w : WorkIntent)
      → mem i ids ≡ true
      → get i s.intents ≡ some w
      → q i ≡ is_queued (f w).state)
    (queued_else : (i : Ident) → mem i ids ≡ false → q i ≡ queued_at s t i)
    (batch_touched : (i : Ident) (w : WorkIntent)
      → mem i ids ≡ true
      → get i s.intents ≡ some w
      → p i ≡ in_flight (f w).state)
    (batch_else : (i : Ident) → mem i ids ≡ false → p i ≡ batch_at s t i) where
  queues' : (sl i : Ident) → queued_at s' sl i ≡ waits s' sl i
  queues' sl i = elim (Bool-cases (mem i ids)) [
    | inl e ↦
        let (w, g, o) = owned i e in
        ground (
          arith,
          queued_after sl i,
          intents_after i,
          inv.queues sl i,
          queued_touched i w,
          keeps.keeps_slot w,
          e,
          g,
          o,
        )
    | inr e ↦ ground (arith, queued_after sl i, intents_after i, inv.queues sl i, queued_else i, e)
  ]

  batches' : (sl i : Ident) → batch_at s' sl i ≡ works s' sl i
  batches' sl i = elim (Bool-cases (mem i ids)) [
    | inl e ↦
        let (w, g, o) = owned i e in
        ground (
          arith,
          batch_after sl i,
          intents_after i,
          inv.batches sl i,
          batch_touched i w,
          keeps.keeps_slot w,
          e,
          g,
          o,
        )
    | inr e ↦ ground (arith, batch_after sl i, intents_after i, inv.batches sl i, batch_else i, e)
  ]

  keyed' : (i : Ident) (w : WorkIntent) → get i s'.intents ≡ some w → w.intent_id ≡ i
  keyed' i w h = elim (Bool-cases (mem i ids)) [
    | inl e ↦
        let (v, g, o) = owned i e in
        ground (arith, intents_after i, inv.keyed i v, keeps.keeps_id v, e, g)
    | inr e ↦ ground (arith, intents_after i, inv.keyed i w, e)
  ]

  pub rewrite-Inv : Inv s'
  rewrite-Inv = record { sorted = sorted'; keyed = keyed'; queues = queues'; batches = batches' }

-- An operation that adds a queued intent to one slot.
module _ (s s' : CoordinatorState) (t n : Ident) (v : WorkIntent) (inv : Inv s)
    (fresh : get n s.intents ≡ none)
    (queued_after : (sl i : Ident)
      → queued_at s' sl i ≡ (if sl == t then ((i == n) || queued_at s sl i) else queued_at s sl i))
    (batch_after : (sl i : Ident) → batch_at s' sl i ≡ batch_at s sl i)
    (intents_after : (i : Ident) → get i s'.intents ≡ (if i == n then some v else get i s.intents))
    (sorted' : Sorted s'.intents) (own_id : v.intent_id ≡ n) (own_slot : v.slot_id ≡ t)
    (queued : v.state ≡ WorkIntentState.queued) where
  pub add-Inv : Inv s'
  add-Inv = record {
    sorted = sorted';
    keyed = λ i w h. ground (arith, intents_after i, inv.keyed i w);
    queues = λ sl i. ground (arith, intents_after i, queued_after sl i, inv.queues sl i);
    batches = λ sl i. ground (arith, intents_after i, batch_after sl i, inv.batches sl i);
  }

-- An operation that changes neither the intents nor the work of any slot.
pub same-Inv :
    (s s' : CoordinatorState)
    → Inv s
    → s'.intents ≡ s.intents
    → ((sl i : Ident) → queued_at s' sl i ≡ queued_at s sl i)
    → ((sl i : Ident) → batch_at s' sl i ≡ batch_at s sl i)
    → Inv s'
same-Inv s s' inv e q p = record {
  sorted = subst Sorted (sym e) inv.sorted;
  keyed = λ i w h. ground (arith, e, inv.keyed i w);
  queues = λ sl i. ground (arith, e, q sl i, inv.queues sl i);
  batches = λ sl i. ground (arith, e, p sl i, inv.batches sl i);
}
