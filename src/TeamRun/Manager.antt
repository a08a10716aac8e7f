-- ===== src/TeamRun/Manager.antt =====
-- crates/team/src/team_run/manager.rs: the methods of the manager, which follows the summaries that
-- the coordinator publishes. What it broadcasts is returned; the time is an argument.
use team_lite.Base.{
  Ident, ℕ, String, Bool, true, false, Option, none, some, [], ltb, ◌==◌, ◌&&◌, if◌then◌else◌,
  map_option, same_option,
}
use mathlib.Core.Bool.{decide}
use team_lite.Errors.{Result, ok, err, invalid_request, run_not_active}
use team_lite.Coordinator.Model.{
  TeamRunTargetRole, RunWorkSummary, RunBinding, CausalBinding, EnqueueRequest, CoordinatorSnapshot,
}
use team_lite.TeamRun.Record.{
  TeamRunStatus, TeamRunRecord, TeamRunEvent, TeamRunStatus-discrete, is_active, accepted, running,
  cancelling, completed, cancelled, failed, run_accepted, run_started, run_updated, run_completed,
  run_cancelled, run_failed, user_message,
}
use team_lite.TeamRun.Payload.{TeamRunPayload, payload}

-- The manager's state: no run, or the latest one. A method returns it with its result and with
-- what it broadcasts.
abbrev pub TeamRunState : Type 0
TeamRunState = Option TeamRunRecord

abbrev pub Broadcast : Type 0
Broadcast = Option (TeamRunEvent × TeamRunPayload)

-- `as_ref().filter(|run| run.is_active())`.
unfoldable pub active_run : TeamRunState → TeamRunState
unfolding is_active
active_run none = none
active_run (some run) = if is_active run.status then some run else none

unfoldable pub new_run : Ident → Ident → TeamRunTargetRole → TeamRunRecord
new_run run_id slot_id role = record {
  team_run_id = run_id;
  source = user_message;
  has_user_intervention = false;
  target_slot_id = slot_id;
  target_role = role;
  status = accepted;
  started_at_ms = none;
  completed_at_ms = none;
  cancel_reason = none;
  summary = none;
  accepted_emitted = false;
}

unfoldable pub bind_user_enqueue :
    Ident → Ident → TeamRunTargetRole → TeamRunState → RunBinding × TeamRunState
unfolding active_run new_run
bind_user_enqueue run_id slot_id role st = elim (active_run st) [
  | some run ↦ (
    record {
      team_run_id = some run.team_run_id;
      created_new_run = false;
      user_intervention = true;
    },
    some (record run { has_user_intervention = true }),
  )
  | none ↦ (
    record { team_run_id = some run_id; created_new_run = true; user_intervention = false },
    some (new_run run_id slot_id role),
  )
]

unfoldable pub current_active_run_id : TeamRunState → Option Ident
unfolding active_run
current_active_run_id st = map_option (λ (run : TeamRunRecord). run.team_run_id) (active_run st)

abbrev pub unbound : Option Ident → RunBinding
unbound run = record { team_run_id = run; created_new_run = false; user_intervention = false }

unfoldable pub bind_enqueue : Ident → EnqueueRequest → TeamRunState → RunBinding × TeamRunState
unfolding bind_user_enqueue current_active_run_id
bind_enqueue run_id r st = elim r.binding [
  | CausalBinding.user_visible ↦ bind_user_enqueue run_id r.slot_id r.role st
  | CausalBinding.active_run_or_background ↦ (unbound (current_active_run_id st), st)
  | CausalBinding.inherit_running_batch caller ↦ (unbound none, st)
  | CausalBinding.background ↦ (unbound none, st)
]

unfoldable pub abort_binding : RunBinding → TeamRunState → TeamRunState
abort_binding binding none = none
abort_binding binding (some run) =
    if same_option (some run.team_run_id) binding.team_run_id then none else some run

unfoldable pub no_work : RunWorkSummary → Bool
no_work m =
    (m.queued_intent_count == 0)
    && ((m.starting_batch_count == 0)
        && ((m.running_batch_count == 0)
            && ((m.active_enqueue_lease_count == 0) && (m.paused_intent_count == 0))))

abbrev pub same_status : TeamRunStatus → TeamRunStatus → Bool
same_status a b = decide (TeamRunStatus-discrete a b)

abbrev pub get_or_insert : ℕ → Option ℕ → ℕ
get_or_insert now none = now
get_or_insert now (some t) = t

-- The status that a summary leads to, and the times that are set with it.
unfoldable pub follow : ℕ → RunWorkSummary → TeamRunRecord → TeamRunRecord
unfolding TeamRunStatus-discrete
follow now m run =
    if ltb 0 m.failed_intent_count
    then record run { status = failed; completed_at_ms = some now }
    else if no_work m
    then record run {
      status = if same_status run.status cancelling then cancelled else completed;
      completed_at_ms = some now;
    }
    else if ltb 0 m.running_batch_count
    then record run { status = running; started_at_ms = some (get_or_insert now run.started_at_ms) }
    else run

abbrev pub status_event : TeamRunStatus → TeamRunEvent
status_event failed = run_failed
status_event cancelled = run_cancelled
status_event completed = run_completed
status_event running = run_started
status_event _ = run_updated

-- The event of a change of status, once the run was announced.
unfoldable pub change_event : TeamRunStatus → TeamRunStatus → TeamRunEvent
unfolding TeamRunStatus-discrete
change_event old s = if same_status old s then run_updated else status_event s

unfoldable pub apply_to_run : Ident → ℕ → RunWorkSummary → TeamRunRecord → TeamRunRecord × Broadcast
unfolding follow change_event payload
apply_to_run team_id now m run =
    let next : TeamRunRecord = follow now m (record run { summary = some m }) in
    let event : TeamRunEvent =
      if run.accepted_emitted then change_event run.status next.status else run_accepted in
    let announced : TeamRunRecord = record next { accepted_emitted = true } in
    (announced, some (event, payload team_id now announced m))

-- A summary of another run is ignored.
unfoldable pub apply_work_summary :
    Ident → ℕ → RunWorkSummary → TeamRunState → TeamRunState × Broadcast
unfolding apply_to_run
apply_work_summary team_id now m none = (none, none)
apply_work_summary team_id now m (some run) =
    if run.team_run_id == m.team_run_id
    then (let (r, sent) = apply_to_run team_id now m run in (some r, sent))
    else (some run, none)

unfoldable pub begin_cancel :
    Ident → ℕ → Ident → Option String → TeamRunState → Result (TeamRunState × Broadcast)
unfolding is_active payload
begin_cancel team_id now run_id reason none = err (invalid_request (run_not_active run_id))
begin_cancel team_id now run_id reason (some run) =
    let r : TeamRunRecord = record run { status = cancelling; cancel_reason = reason } in
    if (run.team_run_id == run_id) && is_active run.status
    then ok (
      some r,
      map_option (λ (m : RunWorkSummary). (run_updated, payload team_id now r m)) r.summary,
    )
    else err (invalid_request (run_not_active run_id))

abbrev pub empty_summary : Ident → RunWorkSummary
empty_summary run_id = record {
  team_run_id = run_id;
  queued_intent_count = 0;
  starting_batch_count = 0;
  running_batch_count = 0;
  active_enqueue_lease_count = 0;
  paused_intent_count = 0;
  failed_intent_count = 0;
  slots = [];
}

-- The run's own summary, or the coordinator's if it is of this run, or an empty one.
unfoldable pub shown_summary : CoordinatorSnapshot → TeamRunRecord → RunWorkSummary
shown_summary c run = elim run.summary [
  | some m ↦ m
  | none ↦ elim c.active_run_summary [
    | none ↦ empty_summary run.team_run_id
    | some m ↦ if m.team_run_id == run.team_run_id then m else empty_summary run.team_run_id
  ]
]

unfoldable pub current_payload :
    Ident → ℕ → CoordinatorSnapshot → TeamRunState → Option TeamRunPayload
unfolding shown_summary payload
current_payload team_id now c st =
    map_option (λ (run : TeamRunRecord). payload team_id now run (shown_summary c run)) st

abbrev pub announces : TeamRunStatus → Bool
announces accepted = true
announces running = true
announces _ = false

unfoldable pub publish_snapshot_update : Ident → ℕ → CoordinatorSnapshot → TeamRunState → Broadcast
unfolding current_payload
publish_snapshot_update team_id now c st = elim (current_payload team_id now c st) [
  | none ↦ none
  | some p ↦ if announces p.status then some (run_updated, p) else none
]
