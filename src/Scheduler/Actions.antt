-- ===== src/Scheduler/Actions.antt =====
-- crates/team/src/scheduler/actions.rs: what a member asks of the scheduler. The recipient "*" of a
-- message is a case of its own. Spawning is done elsewhere.
use Prim.Native.String.{String}
use team_lite.Base.{
  Ident, ℕ, Option, none, some, List, [], ◌∷◌, get, if◌then◌else◌, ◌==◌, not, keys, keep, ◌+◌,
}
use team_lite.Errors.{Result, ok, err, panicked, TeamError, RequestFault, ◌>>=◌}
use team_lite.Mailbox.{Draft, MailboxMessage, MailboxMessageType, write, write_with_files}
use team_lite.TaskBoard
use team_lite.TaskBoard.{NewTask, TaskUpdate, TeamTask, TaskStatus}
use team_lite.Scheduler.Model.{TeammateManager, is_lead}
use team_lite.Scheduler.State.{Json, mark_idle, send}
use team_lite.Scheduler.Lifecycle.{rename_agent}

pub data Recipient : Type 0 where
  everyone : Recipient
  slot : Ident → Recipient

pub data SchedulerAction : Type 0 where
  send_message : Recipient → String → List String → SchedulerAction
  task_create : String → Option String → Option String → List Ident → SchedulerAction
  task_update :
      Ident → Option String → Option String → Option String → Option (List Ident) → SchedulerAction
  spawn_agent : String → String → String → SchedulerAction
  idle_notification : Option String → SchedulerAction
  shutdown_agent : Ident → Option String → SchedulerAction
  rename : Ident → String → SchedulerAction

module _ {Value : Type 0} (json : Json Value) (to_lowercase : String → String) where
  abbrev message_draft : Ident → Ident → Ident → String → List String → Draft
  message_draft team_id target from_slot_id message files = record {
    team_id = team_id;
    to_agent_id = target;
    from_agent_id = from_slot_id;
    msg_type = MailboxMessageType.message;
    content = message;
    summary = none;
    files = some files;
  }

  abbrev send_files : ℕ → Draft → TeammateManager → Result MailboxMessage × TeammateManager
  send_files now draft m =
      let (r, messages) =
        write_with_files json.write_files json.read_files m.next_id now draft m.messages in
      (r, record m { messages = messages; next_id = m.next_id + 1 })

  -- The loop over the targets.
  unfoldable pub send_each :
      ℕ
      → Ident
      → String
      → List String
      → List Ident
      → TeammateManager
      → Result (Unit {0}) × TeammateManager
  unfolding write_with_files
  send_each now from_slot_id message files [] m = (ok tt, m)
  send_each now from_slot_id message files (t ∷ ts) m =
      let (r, m') = send_files now (message_draft m.team_id t from_slot_id message files) m in
      let rest = send_each now from_slot_id message files ts m' in
      elim r [ ok x ↦ rest | err e ↦ (err e, m') | panicked ↦ (panicked, m') ]

  abbrev pub targets : Ident → TeammateManager → List Ident
  targets from_slot_id m = keep (λ id. not (id == from_slot_id)) (keys m.slots)

  unfoldable pub handle_send_message :
      ℕ
      → Ident
      → Recipient
      → String
      → List String
      → TeammateManager
      → Result (Unit {0}) × TeammateManager
  unfolding send_each write_with_files
  handle_send_message now from_slot_id Recipient.everyone message files m =
      send_each now from_slot_id message files (targets from_slot_id m) m
  handle_send_message now from_slot_id (Recipient.slot to) message files m =
      let (r, m') = send_files now (message_draft m.team_id to from_slot_id message files) m in
      (r >>= (λ x. ok tt), m')

  abbrev pub shutdown_draft : Ident → Ident → Ident → Option String → Draft
  shutdown_draft team_id target from_slot_id reason = record {
    team_id = team_id;
    to_agent_id = target;
    from_agent_id = from_slot_id;
    msg_type = MailboxMessageType.shutdown_request;
    content = elim reason [ none ↦ "shutdown requested" | some s ↦ s ];
    summary = none;
    files = none;
  }

  unfoldable pub request_shutdown_agent :
      ℕ → Ident → Ident → Option String → TeammateManager → Result MailboxMessage × TeammateManager
  unfolding write
  request_shutdown_agent now from_slot_id target_slot_id reason m =
      elim (get from_slot_id m.slots) [
        | none ↦ (err (TeamError.agent_not_found from_slot_id), m)
        | some from ↦
            if not (is_lead from.agent.role)
            then (err (TeamError.invalid_request RequestFault.not_the_lead), m)
            else elim (get target_slot_id m.slots) [
              | none ↦ (err (TeamError.agent_not_found target_slot_id), m)
              | some target ↦
                  if is_lead target.agent.role
                  then (err (TeamError.invalid_request RequestFault.shutdown_of_lead), m)
                  else send json now (shutdown_draft m.team_id target_slot_id from_slot_id reason) m
            ]
      ]

  unfoldable pub create_task :
      ℕ → NewTask → TeammateManager → Result (TeamTask Value) × TeammateManager
  unfolding TaskBoard.create_task
  create_task now task m =
      let (r, tasks) =
        TaskBoard.create_task json.write_ids json.read_ids json.write_value json.read_value
          m.next_id now task m.tasks in
      (r, record m { tasks = tasks; next_id = m.next_id + 1 })

  abbrev status_of : Option String → Option TaskStatus
  status_of none = none
  status_of (some s) = TaskBoard.parse s

  unfoldable pub update_task :
      ℕ → Ident → TaskUpdate Value → TeammateManager → Result (TeamTask Value) × TeammateManager
  unfolding TaskBoard.update_task
  update_task now task_id update m =
      let (r, tasks) =
        TaskBoard.update_task json.write_ids json.read_ids json.write_value json.read_value now
          m.team_id task_id update m.tasks in
      (r, record m { tasks = tasks })

  -- `?` on a result that is not used, and then no slot to wake.
  abbrev done : {A : Type 0} → Result A × TeammateManager → Result (Option Ident) × TeammateManager
  done (r, m) = (r >>= (λ x. ok none), m)

  unfoldable pub execute_action :
      ℕ → Ident → SchedulerAction → TeammateManager → Result (Option Ident) × TeammateManager
  unfolding handle_send_message create_task update_task mark_idle request_shutdown_agent
      rename_agent TaskBoard.parse
  execute_action now from (SchedulerAction.send_message to message files) m =
      done (handle_send_message now from to message files m)
  execute_action now from (SchedulerAction.task_create subject description owner blocked_by) m =
      done (
        create_task now
          (record {
            team_id = m.team_id;
            subject = subject;
            description = description;
            owner = owner;
            blocked_by = blocked_by;
          })
          m)
  execute_action now from (SchedulerAction.task_update task_id status description owner blocked_by)
        m =
      done (
        update_task now task_id
          (record {
            status = status_of status;
            description = description;
            owner = owner;
            blocked_by = blocked_by;
            metadata = none;
          })
          m)
  execute_action now from (SchedulerAction.idle_notification summary) m =
      mark_idle json now from summary m
  execute_action now from (SchedulerAction.spawn_agent name role backend) m = (ok none, m)
  execute_action now from (SchedulerAction.shutdown_agent slot_id reason) m =
      done (request_shutdown_agent now from slot_id reason m)
  execute_action now from (SchedulerAction.rename slot_id new_name) m =
      done (rename_agent to_lowercase slot_id new_name m)

  abbrev first_summary : Option String → Option String → Option String
  first_summary none s = s
  first_summary (some t) s = some t

  -- The loop over the actions: the summary of the first notification that has one.
  unfoldable pub run_actions :
      ℕ
      → Ident
      → List SchedulerAction
      → Option String
      → TeammateManager
      → Result (Option String) × TeammateManager
  unfolding execute_action
  run_actions now slot_id [] summary m = (ok summary, m)
  run_actions now slot_id (SchedulerAction.idle_notification s ∷ actions) summary m =
      run_actions now slot_id actions (first_summary summary s) m
  run_actions now slot_id (action ∷ actions) summary m =
      let (r, m') = execute_action now slot_id action m in
      let rest = run_actions now slot_id actions summary m' in
      elim r [ ok x ↦ rest | err e ↦ (err e, m') | panicked ↦ (panicked, m') ]

  unfoldable pub finalize_turn :
      ℕ → Ident → List SchedulerAction → TeammateManager → Result (Option Ident) × TeammateManager
  unfolding run_actions mark_idle
  finalize_turn now slot_id actions m =
      let (r, m') = run_actions now slot_id actions none m in
      elim r [
        | ok summary ↦ mark_idle json now slot_id summary m'
        | err e ↦ (err e, m')
        | panicked ↦ (panicked, m')
      ]
