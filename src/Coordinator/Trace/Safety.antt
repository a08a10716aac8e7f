-- ===== src/Coordinator/Trace/Safety.antt =====
-- crates/team/src/work_coordinator/coordinator.rs: the invariants along histories.
use mathlib.Core.List.{Memᴰ}
use team_lite.Base.{Ident, ◌∷◌, ◌≡◌, refl, inl, inr, arith, subst}
use team_lite.Coordinator.Model.{WorkBatch, WorkIntentState, is_terminal}
use team_lite.Coordinator.Slots.{CoordinatorState}
use team_lite.Coordinator.Views.{Held, Shrinks}
use team_lite.Coordinator.Invariant.{Inv}
use team_lite.Coordinator.Filing.{Filed}
use team_lite.Coordinator.Trace.{
  Ledger, initial, Unissued, Call, acquire, commit, abort, reconcile, signals, cancel, pause,
  remove, constrain, halt, perform, IsFresh, BatchCall, started, retry, complete, fail, cancelled,
  perform_batch, Step, calls, works, claims, declines, Reach, here, there,
}
use team_lite.Coordinator.Batches.{next, complete_batch, fail_batch, cancel_batch}
use team_lite.Coordinator.Preserve.Batches.{
  terminalize_batch-Inv, mark_started-Inv, retry_start-Inv,
}
use team_lite.Coordinator.Preserve.Claim.{next-Inv}
use team_lite.Coordinator.Preserve.Enqueue.{
  acquire_enqueue-Inv, commit_enqueue-Inv, abort_enqueue-Inv,
}
use team_lite.Coordinator.Preserve.Mailbox.{complete_signals-Inv}
use team_lite.Coordinator.Preserve.Recovery.{reconcile_mailbox-Inv}
use team_lite.Coordinator.Preserve.Runtime.{pause_slot-Inv, stop-Inv}
use team_lite.Coordinator.Preserve.Removal.{remove_slot-Inv}
use team_lite.Coordinator.Preserve.Constraint.{set_runtime_constraint-Inv}
use team_lite.Coordinator.Preserve.CancelRun.{cancel_run-ok}
use team_lite.Coordinator.Preserve.Moves.{
  Moves, terminalize_batch-Moves, mark_started-Moves, retry_start-Moves, complete_signals-Moves,
  remove_slot-Moves, pause_slot-Moves,
}
use team_lite.Coordinator.Preserve.Effects.{
  acquire_enqueue-Moves, commit_enqueue-Moves, abort_enqueue-Moves, stop-Moves,
  set_runtime_constraint-Moves, reconcile_mailbox-Moves,
}
use team_lite.Coordinator.Preserve.Decisions.{Activated, next-Decides}

-- Besides the invariant: a batch that was issued is the slot's batch, or is gone.
pub record Good (l : Ledger) : Type 0 where
  pub inv : Inv l.state
  pub filed : Filed l.state
  pub held : (b : WorkBatch) → Memᴰ b l.issued → Held l.state b

perform-Inv :
    (g : Ident) (c : Call) (s : CoordinatorState)
    → IsFresh c s
    → Filed s
    → Inv s
    → Inv (perform g c s)
unfolding perform
perform-Inv g (acquire bind lease_id r) s f fl inv = acquire_enqueue-Inv g bind lease_id r s inv
perform-Inv g (commit lease message n now) s f fl inv =
    commit_enqueue-Inv g lease message n now s inv f
perform-Inv g (abort lease) s f fl inv = abort_enqueue-Inv g lease s inv
perform-Inv g (reconcile ids now t unread role) s f fl inv =
    reconcile_mailbox-Inv g t role now ids unread s inv f
perform-Inv g (signals t ids) s f fl inv = complete_signals-Inv t ids s inv
perform-Inv g (cancel run) s f fl inv = let (r, e, p, q, c) = cancel_run-ok run s inv fl in c.inv
perform-Inv g (pause t) s f fl inv = pause_slot-Inv t s inv
perform-Inv g (remove t) s f fl inv = remove_slot-Inv t s inv
perform-Inv g (constrain t c) s f fl inv = set_runtime_constraint-Inv t c s inv
perform-Inv g halt s f fl inv = stop-Inv s inv

perform-Moves :
    (g : Ident) (c : Call) (s : CoordinatorState) → Filed s → Inv s → Moves s (perform g c s)
unfolding perform
perform-Moves g (acquire bind lease_id r) s fl inv = acquire_enqueue-Moves g bind lease_id r s
perform-Moves g (commit lease message n now) s fl inv = commit_enqueue-Moves g lease message n now s
perform-Moves g (abort lease) s fl inv = abort_enqueue-Moves g lease s
perform-Moves g (reconcile ids now t unread role) s fl inv =
    reconcile_mailbox-Moves g ids now t unread role s
perform-Moves g (signals t ids) s fl inv = complete_signals-Moves t ids s
perform-Moves g (cancel run) s fl inv =
    let (r, e, p, q, c) = cancel_run-ok run s inv fl in
    record { filed = λ f. c.filed; shrinks = c.shrinks }
perform-Moves g (pause t) s fl inv = pause_slot-Moves t s
perform-Moves g (remove t) s fl inv = remove_slot-Moves t s
perform-Moves g (constrain t c) s fl inv = set_runtime_constraint-Moves t c s
perform-Moves g halt s fl inv = stop-Moves s

perform_batch-Inv :
    (g : Ident) (c : BatchCall) (b : WorkBatch) (s : CoordinatorState)
    → Held s b
    → Inv s
    → Inv (perform_batch g c b s)
unfolding perform_batch complete_batch fail_batch cancel_batch
perform_batch-Inv g (started turn_id now) b s h inv = mark_started-Inv g s b turn_id now inv h
perform_batch-Inv g retry b s h inv = retry_start-Inv g s b inv h
perform_batch-Inv g complete b s h inv =
    terminalize_batch-Inv g s b WorkIntentState.completed (unfold is_terminal in refl) inv h
perform_batch-Inv g (fail c) b s h inv =
    terminalize_batch-Inv g s b (WorkIntentState.failed c) (unfold is_terminal in refl) inv h
perform_batch-Inv g (cancelled c) b s h inv =
    terminalize_batch-Inv g s b (WorkIntentState.cancelled c) (unfold is_terminal in refl) inv h

perform_batch-Moves :
    (g : Ident) (c : BatchCall) (b : WorkBatch) (s : CoordinatorState)
    → Moves s (perform_batch g c b s)
unfolding perform_batch complete_batch fail_batch cancel_batch
perform_batch-Moves g (started turn_id now) b s = mark_started-Moves g b turn_id now s
perform_batch-Moves g retry b s = retry_start-Moves g b s
perform_batch-Moves g complete b s = terminalize_batch-Moves g b WorkIntentState.completed s
perform_batch-Moves g (fail c) b s = terminalize_batch-Moves g b (WorkIntentState.failed c) s
perform_batch-Moves g (cancelled c) b s =
    terminalize_batch-Moves g b (WorkIntentState.cancelled c) s

shrunk : (s s' : CoordinatorState) (b : WorkBatch) → Shrinks s s' → Held s b → Held s' b
shrunk s s' b h held a at = held a (h b.slot_id a at)

claimed-Held :
    (l : Ledger) (batch_id t : Ident) (b : WorkBatch) (s' : CoordinatorState)
    → ((c : WorkBatch) → Memᴰ c l.issued → Held l.state c)
    → Unissued batch_id l.issued
    → b.batch_id ≡ batch_id
    → b.slot_id ≡ t
    → Activated l.state t b s'
    → (c : WorkBatch) → Memᴰ c (b ∷ l.issued)
    → Held s' c
claimed-Held l batch_id t b s' held un own own_slot act c (Memᴰ.head e) a at same =
    ground (arith, act.active c.slot_id, at, same, own, own_slot, e)
claimed-Held l batch_id t b s' held un own own_slot act c (Memᴰ.tail m) a at same =
    ground (arith, act.active c.slot_id, at, same, own, held c m a, un c m)

pub Step-Good : (g : Ident) {l m : Ledger} → Step g l m → Good l → Good m
Step-Good g (calls l c f) good = record {
  inv = perform-Inv g c l.state f good.filed good.inv;
  filed = (perform-Moves g c l.state good.filed good.inv).filed good.filed;
  held = λ b i.
      shrunk l.state (perform g c l.state) b (perform-Moves g c l.state good.filed good.inv).shrinks
        (good.held b i);
}
Step-Good g (works l b c i) good = record {
  inv = perform_batch-Inv g c b l.state (good.held b i) good.inv;
  filed = (perform_batch-Moves g c b l.state).filed good.filed;
  held = λ d j.
      shrunk l.state (perform_batch g c b l.state) d (perform_batch-Moves g c b l.state).shrinks
        (good.held d j);
}
Step-Good g (declines l batch_id t refuse) good = elim (next-Decides g batch_id t l.state) [
  | inl (same, no_claim) ↦ record {
    inv = next-Inv g batch_id t l.state good.inv;
    filed = rw same good.filed;
    held = λ b i. rw same (good.held b i);
  }
  | inr d ↦ absurd (refuse d.0 d.1)
]
Step-Good g (claims l batch_id t b un e) good = elim (next-Decides g batch_id t l.state) [
  | inl (same, no_claim) ↦ absurd (no_claim b e)
  | inr (d, f, own, own_slot, gen, act) ↦
      let same : d ≡ b = ground (arith, e, f) in
      record {
        inv = next-Inv g batch_id t l.state good.inv;
        filed = act.filed good.filed;
        held =
            subst
              (λ x.
                (c : WorkBatch) → Memᴰ c (x ∷ l.issued) → Held (next g batch_id t l.state).state c)
              same (claimed-Held l batch_id t d _ good.held un own own_slot act);
      }
]

initial-Good : Good initial
unfolding initial
initial-Good = record {
  inv = record { sorted = tt; keyed = λ i w h. cc; queues = λ sl i. refl; batches = λ sl i. refl };
  filed = record { slots_sorted = tt; leases_sorted = tt; leases_keyed = λ i r h. cc };
  held = λ b m. elim m [ ];
}

-- In every state that a history reaches: an intent stands in the queues of a slot exactly if its
-- state says that it is queued for that slot, and in a slot's batch exactly if its state says that it
-- is starting or running in that batch; intents and leases are filed under their identifiers; and a
-- batch that was issued is still its slot's batch, unless the slot's batch has another identifier or
-- is gone. A history takes any calls, in any order, that generate new identifiers, and batch calls
-- with batches that were issued.
pub Reach-Good : (g : Ident) {l : Ledger} → Reach g l → Good l
Reach-Good g here = initial-Good
Reach-Good g (there r st) = Step-Good g st (Reach-Good g r)
