-- ===== src/Coordinator/Trace.antt =====
-- crates/team/src/work_coordinator/coordinator.rs: histories of calls, in any order, by holders of
-- batches that `next` gave out.
pub mod Safety
pub mod Spent
pub mod Once
use mathlib.Core.List.{Memᴰ}
use team_lite.Base.{Ident, ℕ, String, Option, none, List, [], ◌∷◌, ◌≡◌, ◌≢◌, get}
use team_lite.Coordinator.Model.{
  TeamRunTargetRole, RuntimeConstraint, WorkBatch, ReconcileDecision, EnqueueLease, EnqueueRequest,
  RunBinding,
}
use team_lite.Coordinator.Slots.{CoordinatorState}
use team_lite.Coordinator.Enqueue.{acquire_enqueue, commit_enqueue, abort_enqueue}
use team_lite.Coordinator.Batches.{
  next, mark_started, retry_start, complete_batch, fail_batch, cancel_batch,
}
use team_lite.Coordinator.Mailbox.{reconcile_mailbox, complete_signals}
use team_lite.Coordinator.Cancel.{cancel_run}
use team_lite.Coordinator.Runtime.{pause_slot, set_runtime_constraint, remove_slot, stop}
use team_lite.Coordinator.Preserve.Recovery.{Fresh}

-- The state, and the batches that have been claimed.
pub record Ledger : Type 0 where
  pub state : CoordinatorState
  pub issued : List WorkBatch

-- `CoordinatorState::default()`.
unfoldable pub initial : Ledger
initial = record {
  state = record { slots = []; intents = []; enqueue_leases = []; next_operation_id = 0 };
  issued = [];
}

abbrev pub Unissued : Ident → List WorkBatch → Type 0
Unissued batch_id issued = (b : WorkBatch) → Memᴰ b issued → b.batch_id ≢ batch_id

-- The calls that any caller may make. What is generated is new.
pub data Call : Type 0 where
  acquire : (EnqueueRequest → RunBinding) → Ident → EnqueueRequest → Call
  commit : EnqueueLease → Option Ident → Ident → ℕ → Call
  abort : EnqueueLease → Call
  reconcile : (ℕ → Ident) → ℕ → Ident → List Ident → TeamRunTargetRole → Call
  signals : Ident → List Ident → Call
  cancel : Ident → Call
  pause remove : Ident → Call
  constrain : Ident → RuntimeConstraint → Call
  halt : Call

unfoldable pub perform : Ident → Call → CoordinatorState → CoordinatorState
perform g (acquire bind lease_id r) s = (acquire_enqueue g bind lease_id r s).state
perform g (commit lease message n now) s = (commit_enqueue g lease message n now s).state
perform g (abort lease) s = (abort_enqueue g lease s).state
perform g (reconcile ids now t unread role) s = (reconcile_mailbox g ids now t unread role s).state
perform g (signals t ids) s = (complete_signals t ids s).state
perform g (cancel run) s = (cancel_run run s).state
perform g (pause t) s = (pause_slot t s).state
perform g (remove t) s = (remove_slot t s).state
perform g (constrain t c) s = (set_runtime_constraint t c s).state
perform g halt s = (stop s).state

abbrev pub IsFresh : Call → CoordinatorState → Type 0
IsFresh (commit lease message n now) s = get n s.intents ≡ none
IsFresh (reconcile ids now t unread role) s = Fresh ids 0 s
IsFresh _ s = Unit {0}

-- The calls of the holder of a batch.
pub data BatchCall : Type 0 where
  started : Ident → ℕ → BatchCall
  retry complete : BatchCall
  fail cancelled : String → BatchCall

unfoldable pub perform_batch : Ident → BatchCall → WorkBatch → CoordinatorState → CoordinatorState
perform_batch g (started turn_id now) b s = (mark_started g b turn_id now s).state
perform_batch g retry b s = (retry_start g b s).state
perform_batch g complete b s = (complete_batch g b s).state
perform_batch g (fail c) b s = (fail_batch g b c s).state
perform_batch g (cancelled c) b s = (cancel_batch g b c s).state

pub data Step (g : Ident) : Ledger → Ledger → Type 0 where
  calls :
      (l : Ledger) (c : Call)
      → IsFresh c l.state
      → Step g l (record l { state = perform g c l.state })
  works :
      (l : Ledger) (b : WorkBatch) (c : BatchCall)
      → Memᴰ b l.issued
      → Step g l (record l { state = perform_batch g c b l.state })
  claims :
      (l : Ledger) (batch_id t : Ident) (b : WorkBatch)
      → Unissued batch_id l.issued
      → (next g batch_id t l.state).result ≡ ReconcileDecision.claim b
      → Step g l (record { state = (next g batch_id t l.state).state; issued = b ∷ l.issued })
  declines :
      (l : Ledger) (batch_id t : Ident)
      → ((b : WorkBatch) → (next g batch_id t l.state).result ≡ ReconcileDecision.claim b → ⊥)
      → Step g l (record l { state = (next g batch_id t l.state).state })

pub data Reach (g : Ident) : Ledger → Type 0 where
  here : Reach g initial
  there : {l m : Ledger} → Reach g l → Step g l m → Reach g m
