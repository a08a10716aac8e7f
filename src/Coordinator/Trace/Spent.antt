-- ===== src/Coordinator/Trace/Spent.antt =====
-- crates/team/src/work_coordinator/coordinator.rs: a lease that is gone stays gone, along histories.
use team_lite.Base.{
  [], Map, ◌≡◌, ◌≢◌, get, Ident, List, Option, Option-cases, ℕ, inl, inr, arith, Bool-cases,
  get-remove, ap, get-insert, ◌∙◌, remove, refl, every, ◌∷◌, none, some_and, any, values, ◌+◌,
}
use team_lite.Coordinator.Batches.{
  complete_batch, fail_batch, cancel_batch, mark_started, retry_start, terminalize_batch, next,
  is_current_batch,
}
use team_lite.Coordinator.Mailbox.{
  complete_signals, recover, reconcile_mailbox, add_recovery, clear_stale, is_signal, owns_message,
}
use team_lite.Coordinator.Runtime.{
  remove_slot, constrain, fail_slot, stop_slot, pause_slot, stop, removal_ids,
}
use team_lite.Coordinator.Enqueue.{
  abort_enqueue, acquire_enqueue, new_lease, commit_enqueue, is_own_lease, with_slot, bind_run,
}
use team_lite.Coordinator.Trace.{perform, perform_batch, Call, Ledger, Step, BatchCall}
use team_lite.Coordinator.Slots.{
  CoordinatorState, SlotState, EnqueueLeaseRecord, validate_enqueue_constraint,
}
use team_lite.Coordinator.Model.{
  EnqueueLease, TeamRunTargetRole, EnqueueRequest, RunBinding, RuntimeConstraint, WorkBatch,
  WorkIntentState,
}
use team_lite.Coordinator.Filing.{Filed}
use team_lite.Coordinator.Trace.Safety.{Good, Step-Good}
use team_lite.Coordinator.Preserve.Enqueue.{commit_cases, entered, granted_leases}
use team_lite.Coordinator.Invariant.{Inv}
use team_lite.Coordinator.Preserve.CancelRun.{cancel_run-ok}
use team_lite.Coordinator.Cancel.{present}
use team_lite.Coordinator.Preserve.Constraint.{constrain-state, constrained}
use team_lite.Coordinator.Preserve.Decisions.{next-Decides}

-- No lease has the identifier.
abbrev pub Lacks : Ident → CoordinatorState → Type 0
Lacks i s = get i s.enqueue_leases ≡ none

same-Lacks : (i : Ident) {a b : Map EnqueueLeaseRecord} → b ≡ a → get i a ≡ none → get i b ≡ none
same-Lacks i e h = ap (get i) e ∙ h

-- The call does not acquire a lease under the identifier.
abbrev pub Spares : Ident → Call → Type 0
Spares i (Call.acquire bind lease_id r) = lease_id ≢ i
Spares i _ = Unit {0}

acquire-Lacks :
    (g : Ident) (bind : EnqueueRequest → RunBinding) (lease_id : Ident) (r : EnqueueRequest)
    (i : Ident) (s : CoordinatorState)
    → lease_id ≢ i
    → Lacks i s
    → Lacks i (acquire_enqueue g bind lease_id r s).state
unfolding acquire_enqueue new_lease
acquire-Lacks g bind lease_id r i s n h =
    let t : CoordinatorState = with_slot s r.slot_id (entered r s) in
    let q : EnqueueLeaseRecord = new_lease g lease_id r (bind_run bind t r) in
    elim (granted_leases q t (validate_enqueue_constraint r.slot_id (entered r s))) [
      | inl e ↦ ap (get i) e ∙ h
      | inr e ↦ ap (get i) e ∙ ground (arith, get-insert lease_id i q s.enqueue_leases, n, h)
    ]

commit-Lacks :
    (g : Ident) (lease : EnqueueLease) (message : Option Ident) (n now i : Ident)
    (s : CoordinatorState)
    → Lacks i s
    → Lacks i (commit_enqueue g lease message n now s).state
commit-Lacks g lease message n now i s h = elim (commit_cases g lease message n now s) [
  | inl e ↦ rw e h
  | inr (slot, d, c, e) ↦ rw e (ground (arith, get-remove lease.lease_id i s.enqueue_leases, h))
]

abort-Lacks :
    (g : Ident) (lease : EnqueueLease) (i : Ident) (s : CoordinatorState)
    → Filed s
    → Lacks i s
    → Lacks i (abort_enqueue g lease s).state
unfolding abort_enqueue
abort-Lacks g lease i s f h = elim (Option-cases (get lease.lease_id s.enqueue_leases)) [
  | inl e ↦ rw (e, abort_enqueue) h
  | inr (r, e) ↦
      let own = f.leases_keyed lease.lease_id r e in
      elim (Bool-cases (is_own_lease g lease r)) [
        | inl o ↦
            rw (e, abort_enqueue)
              (rw o (ground (arith, get-remove lease.lease_id i s.enqueue_leases, h)))
        | inr o ↦
            rw (e, abort_enqueue)
              (rw o (
                ground (
                  arith,
                  get-insert r.lease.lease_id i r (remove lease.lease_id s.enqueue_leases),
                  get-remove lease.lease_id i s.enqueue_leases,
                  own,
                  e,
                  h,
                )))
      ]
]

recover-leases :
    (g t : Ident) (role : TeamRunTargetRole) (now : Ident) (ids : ℕ → Ident) (n : ℕ)
    (unread : List Ident) (s : CoordinatorState)
    → (recover g t role now ids n unread s).0.enqueue_leases ≡ s.enqueue_leases
unfolding recover add_recovery
recover-leases g t role now ids n [] s = refl
recover-leases g t role now ids n (message ∷ rest) s =
    elim (Bool-cases (any (owns_message t message) (values s.intents))) [
      | inl e ↦ rw (e, recover) (recover-leases g t role now ids n rest s)
      | inr e ↦ rw (e, recover) (recover-leases g t role now ids (n + 1) rest _)
    ]

constrain-leases :
    (c : RuntimeConstraint) (t : Ident) (slot : SlotState) (s : CoordinatorState)
    → (constrain c t slot s).0.enqueue_leases ≡ s.enqueue_leases
unfolding constrain fail_slot stop_slot
constrain-leases (RuntimeConstraint.failed op cl) t slot s = refl
constrain-leases RuntimeConstraint.session_stopped t slot s = refl
constrain-leases _ t slot s = refl

signals-leases :
    (t : Ident) (ids : List Ident) (s : CoordinatorState)
    → (complete_signals t ids s).state.enqueue_leases ≡ s.enqueue_leases
unfolding complete_signals
signals-leases t ids s =
    elim (Bool-cases (every (λ i. some_and (is_signal t) (get i s.intents)) ids)) [
      | inr e ↦ rw (e, complete_signals) refl
      | inl e ↦ rw (e, complete_signals) refl
    ]

removal-leases :
    (t : Ident) (s : CoordinatorState) → (remove_slot t s).state.enqueue_leases ≡ s.enqueue_leases
unfolding remove_slot
removal-leases t s = elim (Bool-cases (every (present s.intents) (removal_ids t s))) [
  | inr e ↦ rw (e, remove_slot) refl
  | inl e ↦ rw (e, remove_slot) refl
]

perform-Lacks :
    (g : Ident) (c : Call) (i : Ident) (s : CoordinatorState)
    → Filed s
    → Inv s
    → Spares i c
    → Lacks i s
    → Lacks i (perform g c s)
unfolding perform reconcile_mailbox clear_stale pause_slot stop
perform-Lacks g (Call.acquire bind lease_id r) i s f inv n h =
    acquire-Lacks g bind lease_id r i s n h
perform-Lacks g (Call.commit lease message n now) i s f inv p h =
    commit-Lacks g lease message n now i s h
perform-Lacks g (Call.abort lease) i s f inv p h = abort-Lacks g lease i s f h
perform-Lacks g (Call.reconcile ids now t unread role) i s f inv p h =
    same-Lacks i (recover-leases g t role now ids 0 unread (clear_stale t unread role s).0) h
perform-Lacks g (Call.signals t ids) i s f inv p h = same-Lacks i (signals-leases t ids s) h
perform-Lacks g (Call.cancel run) i s f inv p h =
    let (r, e, q, v, c) = cancel_run-ok run s inv f in c.spent i h
perform-Lacks g (Call.pause t) i s f inv p h = h
perform-Lacks g (Call.remove t) i s f inv p h = same-Lacks i (removal-leases t s) h
perform-Lacks g (Call.constrain t c) i s f inv p h =
    same-Lacks i
      (ap (λ (x : CoordinatorState). x.enqueue_leases) (constrain-state c t s)
        ∙ constrain-leases c t (constrained c t s) s)
      h
perform-Lacks g Call.halt i s f inv p h = refl

terminalize-leases :
    (g : Ident) (b : WorkBatch) (st : WorkIntentState) (s : CoordinatorState)
    → (terminalize_batch g b st s).state.enqueue_leases ≡ s.enqueue_leases
unfolding terminalize_batch
terminalize-leases g b st s = elim (Bool-cases (is_current_batch g s b)) [
  | inl e ↦ rw (terminalize_batch, e) refl
  | inr e ↦ rw (terminalize_batch, e) refl
]

batch-leases :
    (g : Ident) (c : BatchCall) (b : WorkBatch) (s : CoordinatorState)
    → (perform_batch g c b s).enqueue_leases ≡ s.enqueue_leases
unfolding perform_batch complete_batch fail_batch cancel_batch mark_started retry_start
batch-leases g (BatchCall.started turn_id now) b s = elim (Bool-cases (is_current_batch g s b)) [
  | inl e ↦ rw (perform_batch, mark_started, e) refl
  | inr e ↦ rw (perform_batch, mark_started, e) refl
]
batch-leases g BatchCall.retry b s = elim (Bool-cases (is_current_batch g s b)) [
  | inl e ↦ rw (perform_batch, retry_start, e) refl
  | inr e ↦ rw (perform_batch, retry_start, e) refl
]
batch-leases g BatchCall.complete b s = terminalize-leases g b WorkIntentState.completed s
batch-leases g (BatchCall.fail x) b s = terminalize-leases g b (WorkIntentState.failed x) s
batch-leases g (BatchCall.cancelled x) b s = terminalize-leases g b (WorkIntentState.cancelled x) s

next-leases :
    (g batch_id t : Ident) (s : CoordinatorState)
    → (next g batch_id t s).state.enqueue_leases ≡ s.enqueue_leases
next-leases g batch_id t s = elim (next-Decides g batch_id t s) [
  | inl (same, no_claim) ↦ ap (λ (x : CoordinatorState). x.enqueue_leases) same
  | inr (b, e, own, own_slot, gen, act) ↦ act.same_leases
]

-- A step that acquires no lease under the identifier.
abbrev pub SparedBy : {g : Ident} {l m : Ledger} → Ident → Step g l m → Type 0
SparedBy i (Step.calls l c f) = Spares i c
SparedBy i _ = Unit {0}

-- What may follow a state, without a lease under the identifier being acquired.
pub data Later (g i : Ident) (l : Ledger) : Ledger → Type 0 where
  still : Later g i l l
  later : {m n : Ledger} → Later g i l m → (st : Step g m n) → SparedBy i st → Later g i l n

Step-Lacks :
    (g i : Ident) {l m : Ledger} (st : Step g l m)
    → SparedBy i st
    → Good l
    → Lacks i l.state
    → Lacks i m.state
Step-Lacks g i (Step.calls l c f) p good h = perform-Lacks g c i l.state good.filed good.inv p h
Step-Lacks g i (Step.works l b c m) p good h = same-Lacks i (batch-leases g c b l.state) h
Step-Lacks g i (Step.claims l batch_id t b un e) p good h =
    same-Lacks i (next-leases g batch_id t l.state) h
Step-Lacks g i (Step.declines l batch_id t e) p good h =
    same-Lacks i (next-leases g batch_id t l.state) h

pub Later-Good : (g i : Ident) {l m : Ledger} → Later g i l m → Good l → Good m
Later-Good g i Later.still good = good
Later-Good g i (Later.later t st p) good = Step-Good g st (Later-Good g i t good)

pub Later-Lacks :
    (g i : Ident) {l m : Ledger} → Later g i l m → Good l → Lacks i l.state → Lacks i m.state
Later-Lacks g i Later.still good h = h
Later-Lacks g i (Later.later t st p) good h =
    Step-Lacks g i st p (Later-Good g i t good) (Later-Lacks g i t good h)
