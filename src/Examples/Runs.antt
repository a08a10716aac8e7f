-- ===== src/Examples/Runs.antt =====
-- The properties of runs, at the state in which the scenario ends.
use team_lite.Base.{true, false, some, ◌≡◌, refl, none, if◌then◌else◌, ltb}
use team_lite.Coordinator.Model.{TeamRunTargetRole, CancelRunWorkResult, RunWorkSummary}
use team_lite.TeamRun.Binding.{
  apply_work_summary-Followed, Bound, bind_user_enqueue-Bound, Followed,
}
use team_lite.Errors.{ok}
use team_lite.TeamRun.Record.{
  is_active, TeamRunRecord, TeamRunSource, TeamRunEvent, TeamRunStatus, run_accepted,
}
use team_lite.TeamRun.Manager.{bind_user_enqueue, empty_summary, apply_work_summary}
use team_lite.Session.{World, cancel_active_run}
use team_lite.Coordinator.Invariant.{Inv}
use team_lite.Coordinator.Snapshot.{run_summary_locked}
use team_lite.Coordinator.Preserve.CancelRun.{Settled}
use team_lite.TeamRun.Payload.{payload}
use team_lite.Session.Cancel.{cancel_settles}
use team_lite.Examples.Scenario.{begun, begun-Inv, begun-Filed}

abbrev user_run : TeamRunRecord
user_run = record {
  team_run_id = 7;
  source = TeamRunSource.user_message;
  has_user_intervention = false;
  target_slot_id = 1;
  target_role = TeamRunTargetRole.lead;
  status = TeamRunStatus.running;
  started_at_ms = some 20;
  completed_at_ms = none;
  cancel_reason = none;
  summary = none;
  accepted_emitted = true;
}

abbrev world : World
world = record { work = begun; run = some user_run }

active_user_run : is_active user_run.status ≡ true
unfolding is_active
active_user_run = refl

cancel_settles_example :
    (r : CancelRunWorkResult) × (w' : World) × (ended : TeamRunRecord) × (cancel_active_run 2 30 7
        (some "stop")
        world
      ≡ ok (r, w'))
    × Inv w'.work
    × Settled 7 w'.work
    × (r.summary ≡ run_summary_locked w'.work 7)
    × (w'.run ≡ some ended)
    × (ended.team_run_id ≡ 7)
    × (ended.status ≡ (
        if ltb 0 r.summary.failed_intent_count
        then TeamRunStatus.failed
        else TeamRunStatus.cancelled))
    × (ended.completed_at_ms ≡ some 30)
cancel_settles_example =
    cancel_settles 2 30 7 (some "stop") world user_run begun-Inv begun-Filed refl refl
      active_user_run

bind_user_enqueue-Bound_example :
    let (b, st') = bind_user_enqueue 8 1 TeamRunTargetRole.lead (some user_run) in
    Bound 8 (some user_run) st' b
bind_user_enqueue-Bound_example = bind_user_enqueue-Bound 8 1 TeamRunTargetRole.lead (some user_run)

abbrev idle_summary : RunWorkSummary
idle_summary = empty_summary 7

apply_work_summary-Followed_example :
    (run' : TeamRunRecord) × (event : TeamRunEvent) × (apply_work_summary 2 30 idle_summary
        (some user_run)
      ≡ (some run', some (event, payload 2 30 run' idle_summary)))
    × Followed 30 idle_summary user_run run'
    × (true ≡ false → event ≡ run_accepted)
    × (event ≡ run_accepted → true ≡ false)
apply_work_summary-Followed_example =
    apply_work_summary-Followed 2 30 idle_summary user_run active_user_run refl
