-- ===== src/Coordinator/Preserve/CancelLoop.antt =====
-- crates/team/src/work_coordinator/coordinator.rs: the loop of `cancel_run` over the active slots.
use team_lite.Base.{
  Ident, ℕ, true, none, some, List, [], ◌∷◌, ◌≡◌, ◌∙◌, get, mem, Map, if◌then◌else◌, ◌==◌,
  Bool-cases, Option-cases, inl, inr, arith, get-modify, get-modify_each, any, From-mono, any_intro,
  From, get-above, keys, ◌≤◌, suc, false, Sorted, ◌++◌, modify-Sorted, refl,
}
use team_lite.Coordinator.Model.{WorkIntent}
use team_lite.Coordinator.Slots.{ActiveBatch, SlotState, CoordinatorState}
use team_lite.Coordinator.Snapshot.{run_of}
use team_lite.Coordinator.Views.{batch_at, active_batch, Shrinks}
use team_lite.Coordinator.Invariant.{Inv}
use team_lite.Coordinator.Preserve.CancelActive.{
  after_active, settled_run, settle_twice, released_active, after_active-Inv, cancel_active-ok,
}
use team_lite.Coordinator.Cancel.{
  in_run, active_slots, settle, retained_of, release_batch, cancel_actives, CancelProgress,
  run_messages,
}
use team_lite.Errors.{ok}

-- The slots listed still work on the batches listed.
abbrev Standing : List (Ident × ActiveBatch) → CoordinatorState → Type 0
Standing [] s = Unit {0}
Standing ((sl, a) ∷ l) s =
    ((slot : SlotState) × (get sl s.slots ≡ some slot) × (slot.active ≡ some a)) × Standing l s

-- A batch with an intent of the run is that of a slot listed.
abbrev Left : Ident → List (Ident × ActiveBatch) → CoordinatorState → Type 0
Left run l s =
    (sl i b : Ident)
    → batch_at s sl i ≡ some b
    → in_run run s.intents i ≡ true
    → mem sl (keys l) ≡ true

Standing-beyond :
    (n : ℕ) (l : List (Ident × ActiveBatch)) (s s' : CoordinatorState)
    → From n l
    → ((sl : Ident) → n ≤ sl → get sl s'.slots ≡ get sl s.slots)
    → Standing l s
    → Standing l s'
Standing-beyond n [] s s' sorted agree st = tt
Standing-beyond n ((sl, a) ∷ l) s s' sorted agree ((slot, g, e), st) = (
  (slot, agree sl sorted.0 ∙ g, e),
  Standing-beyond (suc sl) l s s' sorted.1 (λ k h. agree k (omega arith)) st,
)

Standing-From :
    (n : ℕ) (run : Ident) (m : Map SlotState) (s : CoordinatorState)
    → From n m
    → ((sl : Ident) (slot : SlotState) → get sl m ≡ some slot → get sl s.slots ≡ some slot)
    → Standing (active_slots run s.intents m) s
unfolding active_slots
Standing-From n run [] s sorted sub = tt
Standing-From n run ((k, slot) ∷ m) s sorted sub =
    let rest : Standing (active_slots run s.intents m) s =
      Standing-From (suc k) run m s sorted.1
        (λ sl v h. sub sl v (ground (arith, h, get-above (suc k) k m sorted.1))) in
    elim (Option-cases slot.active) [
      | inl e ↦ rw (e, active_slots) rest
      | inr (a, e) ↦ elim (Bool-cases (any (in_run run s.intents) a.batch.intent_ids)) [
        | inl f ↦ rw (e, active_slots) (rw f ((slot, sub k slot (ground arith), e), rest))
        | inr f ↦ rw (e, active_slots) (rw f rest)
      ]
    ]

active_slots-From :
    (n run : Ident) (intents : Map WorkIntent) (m : Map SlotState)
    → From n m
    → From n (active_slots run intents m)
unfolding active_slots
active_slots-From n run intents [] s = tt
active_slots-From n run intents ((k, slot) ∷ m) s =
    let rest = active_slots-From (suc k) run intents m s.1 in
    let wide = From-mono {n = n} {k = suc k} (active_slots run intents m) (omega arith) rest in
    ground (arith, rest, wide)

-- A slot whose batch holds an intent of the run is listed.
listed :
    (run sl i : Ident) (intents : Map WorkIntent) (m : Map SlotState) (slot : SlotState)
    (a : ActiveBatch)
    → get sl m ≡ some slot
    → slot.active ≡ some a
    → mem i a.batch.intent_ids ≡ true
    → in_run run intents i ≡ true
    → mem sl (keys (active_slots run intents m)) ≡ true
unfolding active_slots
listed run sl i intents [] slot a g e m h = cc
listed run sl i intents ((k, w) ∷ m) slot a g e mm h = ground (
  arith,
  listed run sl i intents m slot a,
  any_intro (in_run run intents) i a.batch.intent_ids mm h,
)

module _ (run : Ident) where
  Left-first : (s : CoordinatorState) → Left run (active_slots run s.intents s.slots) s
  Left-first s sl i b at h = elim (Option-cases (get sl s.slots)) [
    | inl e ↦ absurd (ground (arith, e))
    | inr (slot, e) ↦ elim (Option-cases slot.active) [
      | inl f ↦ absurd (ground (arith, e, f))
      | inr (a, f) ↦ listed run sl i s.intents s.slots slot a e f (ground (arith, e, f)) h
    ]
  ]

  module _ (t : Ident) (a : ActiveBatch) (s : CoordinatorState) (slot : SlotState) (inv : Inv s)
      (here : get t s.slots ≡ some slot) (active : slot.active ≡ some a) where
    abbrev s' : CoordinatorState
    s' = after_active run t a s slot inv here active

    same_run : (i : Ident) → run_of s'.intents i ≡ run_of s.intents i
    same_run i = elim (Option-cases (get i s.intents)) [
      | inl e ↦
          ground (
            arith,
            get-modify_each a.batch.intent_ids i (settle run) s.intents (settle_twice run),
            e,
          )
      | inr (w, e) ↦ ground (
        arith,
        get-modify_each a.batch.intent_ids i (settle run) s.intents (settle_twice run),
        e,
        settled_run run w,
      )
    ]

    batch_gone : (sl i : Ident) → batch_at s' sl i ≡ (if sl == t then none else batch_at s sl i)
    batch_gone sl i = ground (
      arith,
      get-modify t sl (release_batch (retained_of run s.intents a.batch.intent_ids)) s.slots,
      here,
      released_active run t a s slot inv here active,
    )

    active_shrinks :
        (sl : Ident) → active_batch s' sl ≡ (if sl == t then none else active_batch s sl)
    active_shrinks sl = ground (
      arith,
      get-modify t sl (release_batch (retained_of run s.intents a.batch.intent_ids)) s.slots,
      here,
      released_active run t a s slot inv here active,
    )

    Left-rest : (rest : List (Ident × ActiveBatch)) → Left run ((t, a) ∷ rest) s → Left run rest s'
    Left-rest rest left sl i b at h = ground (arith, left sl i b, batch_gone sl i, same_run i)

-- The loop ends without a panic; then no batch holds an intent of the run.
pub record Unbatched (run : Ident) (s s' : CoordinatorState) : Type 0 where
  pub inv : Inv s'
  pub idle : (sl i b : Ident) → batch_at s' sl i ≡ some b → in_run run s'.intents i ≡ false
  pub same_leases : s'.enqueue_leases ≡ s.enqueue_leases
  pub slots_sorted : Sorted s'.slots
  pub shrinks : Shrinks s s'

module _ (run : Ident) where
  actives_lem :
      (n : ℕ) (l : List (Ident × ActiveBatch)) (c : CancelProgress)
      → Inv c.state
      → Sorted c.state.slots
      → From n l
      → Standing l c.state
      → Left run l c.state
      → (d : CancelProgress) × (cancel_actives run l c ≡ ok d) × Unbatched run c.state d.state
  unfolding cancel_actives
  actives_lem n [] c inv sl sorted st left = (
    c,
    refl,
    record {
      inv = inv;
      idle = λ sl i b at. ground (arith, left sl i b at);
      same_leases = refl;
      slots_sorted = sl;
      shrinks = λ k b h. h;
    },
  )
  actives_lem n ((t, a) ∷ l) c inv sl sorted ((slot, here, active), st) left =
      let s' = after_active run t a c.state slot inv here active in
      let (d, e, u) =
        actives_lem (suc t) l
          (record {
            state = s';
            targets = c.targets ++ record { batch = a.batch; turn_id = a.turn_id } ∷ [];
            messages = c.messages ++ run_messages run c.state.intents a.batch.intent_ids;
          })
          (after_active-Inv run t a c.state slot inv here active)
          (modify-Sorted t _ c.state.slots sl) sorted.1
          (Standing-beyond (suc t) l c.state s' sorted.1
            (λ k h. ground (
              arith,
              get-modify t k (release_batch (retained_of run c.state.intents a.batch.intent_ids))
                  c.state.slots,
            ))
            st)
          (Left-rest run t a c.state slot inv here active l left) in
      (
        d,
        rw (cancel_active-ok run t a c.state slot inv here active, cancel_actives) e,
        record {
          inv = u.inv;
          idle = u.idle;
          same_leases = u.same_leases;
          slots_sorted = u.slots_sorted;
          shrinks = λ k b h.
              ground
                (arith, u.shrinks k b h, active_shrinks run t a c.state slot inv here active k);
        },
      )

  pub cancel_actives-ok :
      (c : CancelProgress)
      → Inv c.state
      → Sorted c.state.slots
      → (d : CancelProgress) × (cancel_actives run
            (active_slots run c.state.intents c.state.slots)
            c
          ≡ ok d)
        × Unbatched run c.state d.state
  cancel_actives-ok c inv sl =
      actives_lem 0 (active_slots run c.state.intents c.state.slots) c inv sl
        (active_slots-From 0 run c.state.intents c.state.slots sl)
        (Standing-From 0 run c.state.slots c.state sl (λ k slot h. h)) (Left-first run c.state)
