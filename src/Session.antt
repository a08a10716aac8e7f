-- ===== src/Session.antt =====
-- crates/team/src/session.rs: how the coordinator and the run manager act together. The summaries
-- that a call of the coordinator publishes go to the manager, in order, once the lock is released.
pub mod Cancel
pub mod Prepare
pub mod Readiness
pub mod Offers
pub mod Enqueue
pub mod Refusals
pub mod Messages
pub mod UserMessages
pub mod Admission
pub mod Unavailable
use team_lite.Base.{
  Ident, ℕ, String, Bool, Option, none, some, List, [], ◌∷◌, ◌++◌, same_option, if◌then◌else◌,
}
use team_lite.Errors.{Result, ok, err, panicked, ◌>>=◌, invalid_request, run_not_active}
use team_lite.Coordinator.Model.{RunWorkSummary, CancelRunWorkResult}
use team_lite.Coordinator.Slots.{CoordinatorState, Outcome}
use team_lite.Coordinator.Cancel.{cancel_run}
use team_lite.TeamRun.Manager.{
  TeamRunState, Broadcast, current_active_run_id, begin_cancel, apply_work_summary,
}

-- `publish_run_summaries`.
unfoldable pub publish :
    Ident → ℕ → List RunWorkSummary → TeamRunState → TeamRunState × List Broadcast
publish team_id now [] st = (st, [])
publish team_id now (m ∷ ms) st =
    let (st', sent) = apply_work_summary team_id now m st in
    let (end, rest) = publish team_id now ms st' in (end, sent ∷ rest)

pub record World : Type 0 where
  pub work : CoordinatorState
  pub run : TeamRunState

-- The state changes of `cancel_run`, with the result that the rest of the method goes through: the
-- messages to mark as read and the turns to cancel at the agents.
unfoldable pub cancel_active_run :
    Ident → ℕ → Ident → Option String → World → Result (CancelRunWorkResult × World)
cancel_active_run team_id now run_id reason w = do
  (st, sent) ←
      (if same_option (current_active_run_id w.run) (some run_id)
        then begin_cancel team_id now run_id reason w.run
        else err (invalid_request (run_not_active run_id)))
  let o = cancel_run run_id w.work
  r ← o.result
  ok (r, record { work = o.state; run = (publish team_id now o.published st).0 })
