-- ===== src/Coordinator/Preserve/CancelQueued.antt =====
-- crates/team/src/work_coordinator/coordinator.rs: the loop of `cancel_run` over the queued
-- intents.
use team_lite.Base.{
  Ident, true, false, Option, none, some, List, [], ◌∷◌, ◌++◌, ◌≡◌, refl, get, mem, Map, Sorted,
  map_option, if◌then◌else◌, ◌==◌, Bool-cases, Option-cases, inl, inr, arith, get-modify, modify,
  collect, modify-Sorted,
}
use team_lite.Errors.{ok}
use team_lite.Coordinator.Model.{WorkIntentState, WorkIntent}
use team_lite.Coordinator.Slots.{CoordinatorState, set_state, remove_queued}
use team_lite.Coordinator.Views.{in_flight, queued_at, batch_at, active_batch, Shrinks}
use team_lite.Coordinator.Invariant.{Inv, rewrite-Inv}
use team_lite.Coordinator.Preserve.Slots.{queued-remove_queued, batch-remove_queued}
use team_lite.Coordinator.Preserve.Batches.{set_state-Keeps, state-set_state}
use team_lite.Coordinator.Cancel.{CancelProgress, cancel_queued}
use team_lite.Coordinator.Batches.{message_of}

abbrev run_cancelled : WorkIntentState
run_cancelled = WorkIntentState.cancelled "run_cancelled"

-- An intent that is in no batch.
abbrev Loose : Map WorkIntent → Ident → Type 0
Loose intents i = (w : WorkIntent) × (get i intents ≡ some w) × (in_flight w.state ≡ none)

module _ (i : Ident) (w : WorkIntent) (s : CoordinatorState) (inv : Inv s)
    (there : get i s.intents ≡ some w) (loose : in_flight w.state ≡ none) where
  abbrev pub without_one : CoordinatorState
  without_one = record s {
    slots = modify w.slot_id (remove_queued i) s.slots;
    intents = modify i (set_state run_cancelled) s.intents;
  }

  one_queued :
      (sl j : Ident)
      → queued_at without_one sl j ≡ (
          if sl == w.slot_id
          then (if j == i then false else queued_at s w.slot_id j)
          else queued_at s sl j)
  one_queued sl j = elim (Option-cases (get w.slot_id s.slots)) [
    | inl e ↦ ground (arith, get-modify w.slot_id sl (remove_queued i) s.slots, e)
    | inr (slot, e) ↦
        ground (
          arith,
          get-modify w.slot_id sl (remove_queued i) s.slots,
          e,
          queued-remove_queued i j slot,
        )
  ]

  one_batch : (sl j : Ident) → batch_at without_one sl j ≡ batch_at s sl j
  one_batch sl j = elim (Option-cases (get sl s.slots)) [
    | inl e ↦ ground (arith, get-modify w.slot_id sl (remove_queued i) s.slots, e)
    | inr (slot, e) ↦
        ground (
          arith,
          get-modify w.slot_id sl (remove_queued i) s.slots,
          e,
          batch-remove_queued i j slot,
        )
  ]

  one_active : (sl : Ident) → active_batch without_one sl ≡ active_batch s sl
  unfolding remove_queued
  one_active sl = ground (arith, get-modify w.slot_id sl (remove_queued i) s.slots)

  pub without_one-Inv : Inv without_one
  without_one-Inv =
      rewrite-Inv s _ w.slot_id (λ j. if j == i then false else queued_at s w.slot_id j)
        (batch_at s w.slot_id) (i ∷ []) (set_state run_cancelled) inv (set_state-Keeps _) one_queued
        (λ sl j. ground (arith, one_batch sl j))
        (λ j. ground (arith, get-modify i j (set_state run_cancelled) s.intents))
        (modify-Sorted i _ s.intents inv.sorted) (λ j m. (w, ground (arith, m, there), refl))
        (λ j v m g. ground (arith, m, state-set_state run_cancelled v)) (λ j m. ground (arith, m))
        (λ j v m g.
          ground (arith, m, inv.batches w.slot_id i, there, loose, state-set_state run_cancelled v))
        (λ j m. refl)

-- The loop writes the state of each intent listed, and nothing else about the intents.
pub record Emptied (ids : List Ident) (s s' : CoordinatorState) : Type 0 where
  pub inv : Inv s'
  pub written :
      (j : Ident)
      → get j s'.intents ≡ (
          if mem j ids
          then map_option (set_state run_cancelled) (get j s.intents)
          else get j s.intents)
  pub same_leases : s'.enqueue_leases ≡ s.enqueue_leases
  pub slots_sorted : Sorted s'.slots
  pub shrinks : Shrinks s s'

cancelled_twice :
    (o : Option WorkIntent)
    → map_option (set_state run_cancelled) (map_option (set_state run_cancelled) o)
      ≡ map_option (set_state run_cancelled) o
unfolding set_state
cancelled_twice o = ground arith

still-Loose :
    (i j : Ident) (intents : Map WorkIntent)
    → Loose intents j
    → Loose (modify i (set_state run_cancelled) intents) j
still-Loose i j intents (w, g, l) = elim (Bool-cases (j == i)) [
  | inl e ↦ (
    set_state run_cancelled w,
    ground (arith, get-modify i j (set_state run_cancelled) intents),
    rw (state-set_state run_cancelled w),
  )
  | inr e ↦ (w, ground (arith, get-modify i j (set_state run_cancelled) intents), l)
]

pub cancel_queued-ok :
    (ids : List Ident) (c : CancelProgress)
    → Inv c.state
    → Sorted c.state.slots
    → ((i : Ident) → mem i ids ≡ true → Loose c.state.intents i)
    → (d : CancelProgress) × (cancel_queued ids c ≡ ok d) × Emptied ids c.state d.state
unfolding cancel_queued
cancel_queued-ok [] c inv sl loose = (
  c,
  refl,
  record {
    inv = inv;
    written = λ j. refl;
    same_leases = refl;
    slots_sorted = sl;
    shrinks = λ k b h. h;
  },
)
cancel_queued-ok (i ∷ is) c inv sl loose =
    let (w, there, free) = loose i (ground arith) in
    let (d, e, u) =
      cancel_queued-ok is
        (record c {
          state = without_one i w c.state inv there free;
          messages = c.messages ++ collect (message_of c.state.intents) (i ∷ []);
        })
        (without_one-Inv i w c.state inv there free) (modify-Sorted w.slot_id _ c.state.slots sl)
        (λ j m. still-Loose i j c.state.intents (loose j (ground (arith, m)))) in
    (
      d,
      rw (there, cancel_queued) e,
      record {
        inv = u.inv;
        written = λ j. ground (
          arith,
          u.written j,
          get-modify i j (set_state run_cancelled) c.state.intents,
          cancelled_twice (get j c.state.intents),
        );
        same_leases = u.same_leases;
        slots_sorted = u.slots_sorted;
        shrinks = λ k b h. ground (arith, u.shrinks k b h, one_active i w c.state inv there free k);
      },
    )
