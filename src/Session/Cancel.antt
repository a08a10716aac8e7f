-- ===== src/Session/Cancel.antt =====
-- crates/team/src/session.rs: `cancel_run`, and where the run is afterwards.
use team_lite.Base.{
  Ident, String, true, Option, some, ◌≡◌, refl, ltb, if◌then◌else◌, arith, ◌∙◌, ==_refl, [], ◌∷◌,
  ◌==◌, Bool-cases, inl, inr,
}
use team_lite.Errors.{ok}
use team_lite.Coordinator.Model.{RunWorkSummary, CancelRunWorkResult}
use team_lite.Coordinator.Slots.{CoordinatorState}
use team_lite.Coordinator.Snapshot.{run_summary_locked}
use team_lite.Coordinator.Invariant.{Inv}
use team_lite.Coordinator.Filing.{Filed}
use team_lite.Coordinator.Cancel.{cancel_run}
use team_lite.Coordinator.Summary.{NoneCounted, settled_summary}
use team_lite.Coordinator.Preserve.CancelRun.{Settled, cancel_run-ok}
use team_lite.TeamRun.Record.{TeamRunRecord, is_active, cancelling, cancelled, failed}
use team_lite.TeamRun.Manager.{
  current_active_run_id, begin_cancel, no_work, follow, apply_to_run, apply_work_summary,
  active_run,
}
use team_lite.Session.{World, publish, cancel_active_run}
use mathlib.Core.Bool.{decide}

counted_no_work : (m : RunWorkSummary) → NoneCounted m → no_work m ≡ true
unfolding no_work
counted_no_work m c = ground (arith, c.queued, c.starting, c.running, c.leases, c.paused)

-- A summary without work ends a run that is being cancelled.
cancelling_ends :
    (team_id now : Ident) (m : RunWorkSummary) (run : TeamRunRecord)
    → run.status ≡ cancelling
    → NoneCounted m
    → let r = (apply_to_run team_id now m run).0 in
      (r.status ≡ (if ltb 0 m.failed_intent_count then failed else cancelled))
      × (r.completed_at_ms ≡ some now)
      × (r.team_run_id ≡ run.team_run_id)
unfolding apply_to_run follow decide
cancelling_ends team_id now m run st c =
    let idle = counted_no_work m c in
    elim (Bool-cases (ltb 0 m.failed_intent_count)) [
      | inl e ↦ rw (e) (refl, refl, refl)
      | inr e ↦ rw (e, idle, st) (refl, refl, refl)
    ]

abbrev pub asked : Option String → TeamRunRecord → TeamRunRecord
asked reason run = record run { status = cancelling; cancel_reason = reason }

-- The call, step by step.
cancel_steps :
    (team_id now run_id : Ident) (reason : Option String) (w : World) (run : TeamRunRecord)
    (r : CancelRunWorkResult)
    → w.run ≡ some run
    → run.team_run_id ≡ run_id
    → is_active run.status ≡ true
    → (cancel_run run_id w.work).result ≡ ok r
    → (cancel_run run_id w.work).published ≡ r.summary ∷ []
    → r.summary.team_run_id ≡ run_id
    → cancel_active_run team_id now run_id reason w
      ≡ ok (
        r,
        record {
          work = (cancel_run run_id w.work).state;
          run = some (apply_to_run team_id now r.summary (asked reason run)).0;
        },
      )
unfolding cancel_active_run current_active_run_id active_run begin_cancel publish apply_work_summary
cancel_steps team_id now run_id reason w run r here own active e p id =
    rw (here, active)
      (let same : (run.team_run_id == run_id) ≡ true = rw (own) (==_refl run_id) in
        let mine : (run.team_run_id == r.summary.team_run_id) ≡ true =
          rw (own, id) (==_refl run_id) in
        rw (same, e, p, mine) refl)

summary-run : (s : CoordinatorState) (run : Ident) → (run_summary_locked s run).team_run_id ≡ run
unfolding run_summary_locked
summary-run s run = refl

-- The active run is cancelled, where the coordinator's state meets the invariants: the call succeeds,
-- the invariants hold afterwards and the coordinator has no work of the run, and the run has ended, as
-- failed if its last summary counts failed intents and as cancelled if not.
pub cancel_settles :
    (team_id now run_id : Ident) (reason : Option String) (w : World) (run : TeamRunRecord)
    → Inv w.work
    → Filed w.work
    → w.run ≡ some run
    → run.team_run_id ≡ run_id
    → is_active run.status ≡ true
    → (r : CancelRunWorkResult) × (w' : World) × (ended : TeamRunRecord) × (cancel_active_run
          team_id now run_id reason w
        ≡ ok (r, w'))
      × Inv w'.work
      × Settled run_id w'.work
      × (r.summary ≡ run_summary_locked w'.work run_id)
      × (w'.run ≡ some ended)
      × (ended.team_run_id ≡ run_id)
      × (ended.status ≡ (if ltb 0 r.summary.failed_intent_count then failed else cancelled))
      × (ended.completed_at_ms ≡ some now)
cancel_settles team_id now run_id reason w run inv filed here own active =
    let (r, e, p, q, c) = cancel_run-ok run_id w.work inv filed in
    let none_left : NoneCounted r.summary =
      rw (q) (settled_summary run_id (cancel_run run_id w.work).state c.inv c.settled) in
    let (st, at, id) = cancelling_ends team_id now r.summary (asked reason run) refl none_left in
    let named : r.summary.team_run_id ≡ run_id =
      rw (q) (summary-run (cancel_run run_id w.work).state run_id) in
    (
      r,
      record {
        work = (cancel_run run_id w.work).state;
        run = some (apply_to_run team_id now r.summary (asked reason run)).0;
      },
      (apply_to_run team_id now r.summary (asked reason run)).0,
      cancel_steps team_id now run_id reason w run r here own active e (rw (q) p) named,
      c.inv,
      c.settled,
      q,
      refl,
      id ∙ own,
      st,
      at,
    )
