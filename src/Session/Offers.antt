-- ===== src/Session/Offers.antt =====
-- crates/team/src/session.rs, `prepare_next_batch`: what a slot is offered.
use team_lite.Base.{
  Ident, ℕ, Bool, true, false, some, List, mem, ◌≡◌, refl, ap, ◌∙◌, arith, Bool-cases, inl, inr,
  is_empty,
}
use team_lite.Errors.{Result, ok, Result-cases}
use team_lite.Coordinator.Model.{RuntimeConstraint, ReconcileDecision}
use team_lite.Coordinator.Runtime.{set_runtime_constraint}
use team_lite.Coordinator.Snapshot.{is_ready}
use team_lite.Coordinator.Preserve.Constraint.{constrained, constrain-state}
use team_lite.Session.Readiness.{
  constraint_at, constraint-constrain, constraint-reconcile, unready-next, is_claim,
}
use team_lite.Session.Prepare.{
  Session, PrepareBatchResult, prepare_next_batch, constrain_slot, drain, decide, constraint_of,
}
use team_lite.MemberRuntime.Registry.{snapshot}
use team_lite.Scheduler.Model.{TeamAgent, get_agent}
use team_lite.Scheduler.State.{Json}
use team_lite.Mailbox.{MailboxMessage}

abbrev pub is_execute : PrepareBatchResult → Bool
is_execute (PrepareBatchResult.execute b input) = true
is_execute _ = false

abbrev pub starts_work : Result PrepareBatchResult → Bool
starts_work (ok p) = is_execute p
starts_work _ = false

-- The constraint that the member's runtime puts on the slot.
abbrev pub runtime_of : Ident → Session → RuntimeConstraint
runtime_of slot_id st = constraint_of (mem slot_id st.event_loops) (snapshot slot_id st.runtimes)

constrain_slot-work :
    (now : ℕ) (slot_id : Ident) (st : Session)
    → (constrain_slot now slot_id st).1.work
      ≡ (set_runtime_constraint slot_id (runtime_of slot_id st) st.work).state
unfolding constrain_slot
constrain_slot-work now slot_id st =
    elim (Result-cases (set_runtime_constraint slot_id (runtime_of slot_id st) st.work).result) [
      | inl (u, e) ↦ elim (Bool-cases (is_empty u.terminal_message_ids)) [
        | inl b ↦ rw (constrain_slot, e, b) refl
        | inr b ↦ rw (constrain_slot, e, b) refl
      ]
      | inr (inl (x, e)) ↦ rw (constrain_slot, e) refl
      | inr (inr e) ↦ rw (constrain_slot, e) refl
    ]

-- After `constrain_slot` the slot has the constraint of its member's runtime.
pub constrain_slot-held :
    (now : ℕ) (slot_id : Ident) (st : Session)
    → constraint_at slot_id (constrain_slot now slot_id st).1.work ≡ some (runtime_of slot_id st)
constrain_slot-held now slot_id st =
    let c : RuntimeConstraint = runtime_of slot_id st in
    ap (constraint_at slot_id)
      (constrain_slot-work now slot_id st ∙ constrain-state c slot_id st.work)
    ∙ constraint-constrain c slot_id (constrained c slot_id st.work) st.work refl

module _ {Value : Type 0} (json : Json Value) (now : ℕ) (recovery_ids : ℕ → Ident)
    (batch_id : Ident) where
  decide-unclaimed :
      (slot_id : Ident) (agent : TeamAgent) (unread : List MailboxMessage) (d : ReconcileDecision)
      (st : Session)
      → is_claim d ≡ false
      → is_execute (decide json now recovery_ids batch_id slot_id agent unread d st).0 ≡ false
  decide-unclaimed slot_id agent unread (ReconcileDecision.claim b) st e = ground (arith, e)
  decide-unclaimed slot_id agent unread (ReconcileDecision.settle_signals ids) st e = refl
  decide-unclaimed slot_id agent unread ReconcileDecision.waiting_for_completion st e = refl
  decide-unclaimed slot_id agent unread (ReconcileDecision.blocked c) st e = refl
  decide-unclaimed slot_id agent unread ReconcileDecision.quiescent st e = refl

  drain-unready :
      (slot_id : Ident) (agent : TeamAgent) (st : Session) (c : RuntimeConstraint)
      → constraint_at slot_id st.work ≡ some c
      → is_ready c ≡ false
      → is_execute (drain json now recovery_ids batch_id slot_id agent st).0 ≡ false
  unfolding drain
  drain-unready slot_id agent st c h f = decide-unclaimed slot_id agent _ _ _ (
      unready-next _ batch_id slot_id _ c
        (constraint-reconcile _ slot_id recovery_ids now _ _ st.work c h) f)

  -- A slot whose member's runtime is starting, has failed, is being removed or has stopped is given no
  -- batch.
  pub prepare-unready :
      (slot_id : Ident) (st : Session)
      → is_ready (runtime_of slot_id st) ≡ false
      → starts_work (prepare_next_batch json now recovery_ids batch_id slot_id st).0 ≡ false
  unfolding prepare_next_batch
  prepare-unready slot_id st f =
      let c : RuntimeConstraint = runtime_of slot_id st in
      let st' : Session = (constrain_slot now slot_id st).1 in
      let held = constrain_slot-held now slot_id st in
      elim (Result-cases (get_agent slot_id st.scheduler)) [
        | inl (agent, e) ↦ elim (Result-cases (constrain_slot now slot_id st).0) [
          | inl (u, r) ↦ rw (prepare_next_batch, e, r) (drain-unready slot_id agent st' c held f)
          | inr (inl (x, r)) ↦ rw (prepare_next_batch, e, r) refl
          | inr (inr r) ↦ rw (prepare_next_batch, e, r) refl
        ]
        | inr (inl (x, e)) ↦ rw (prepare_next_batch, e) refl
        | inr (inr e) ↦ rw (prepare_next_batch, e) refl
      ]
