-- ===== src/Examples/Teams.antt =====
-- The properties of the scheduler, at a team of a lead and one teammate.
use team_lite.TaskBoard
use Prim.Native.Char.{code}
use Prim.Native.String.{count}
use team_lite.Scheduler.State.{
  get_status, set_status, Json, maybe_wake_leader_when_all_idle, mark_idle, is_wake_active,
}
use team_lite.Base.{
  ◌++◌, Ident, String, true, false, some, [], ◌∷◌, ◌≡◌, refl, none, if◌then◌else◌, get, arith,
  insert, List, Bool, Bool-cases, ◌==◌, inl, inr, ap, sym, ◌∙◌,
}
use team_lite.Scheduler.Wake.{wake_step, build_wake_payload, run_wakes, WakeAttempt}
use team_lite.Scheduler.Model.{
  get_agent, new, TeamAgent, TeammateRole, TeammateStatus, TeammateManager, AgentSlot, is_lead,
  find_lead_slot_id, parse_role, role_text, parse_status, status_text, slots_of,
}
use team_lite.Errors.{ok}
use team_lite.TaskBoard.{TaskStatus}
use team_lite.Scheduler.Lifecycle.{rename_agent}
use team_lite.Scheduler.Actions.{request_shutdown_agent, shutdown_draft}
use team_lite.Scheduler.Recovery.{handle_agent_crash, CrashReason}
use team_lite.Scheduler.Waking.{maybe_wake-lead_to_wake, lead_to_wake, mark_idle-wakes, status_at}
use team_lite.Scheduler.Naming.{Distinct, rename_agent-Distinct}
use team_lite.Scheduler.Names.{
  truncate_last_message, normalize_name, trim_start, trim_end, printable,
}
use team_lite.Scheduler.Turns.{request_shutdown-allowed, may_shut_down, is_err}
use team_lite.Scheduler.Crashes.{handle_agent_crash-result}
use team_lite.Scheduler.Texts.{capped, parse-text, truncate-prefix}
use team_lite.Store.{write_message}
use team_lite.Mailbox.{draft_row}
use team_lite.Scheduler.Wakes.{handed, waiting, has_woken, wakes-dealt}
use Prim.Native.String as Native

abbrev pub agent : Ident → String → TeammateRole → TeamAgent
agent slot_id name role = record {
  slot_id = slot_id;
  name = name;
  role = role;
  conversation_id = slot_id;
  backend = "acp";
  model = "m";
  assistant_id = none;
  status = none;
  conversation_type = none;
  cli_path = none;
  last_message = none;
  last_message_at = none;
}

abbrev pub team : TeammateManager
unfolding new
team = new 9 (agent 1 "Ada" TeammateRole.lead ∷ agent 2 "Ben" TeammateRole.teammate ∷ []) [] [] 100

abbrev pub texts : Json String
texts = record {
  write_files = λ fs. "";
  read_files = λ s. none;
  write_ids = λ ids. "";
  read_ids = λ s. some [];
  write_value = λ v. v;
  read_value = λ s. some s;
}

abbrev teammate_slot : AgentSlot
teammate_slot = record {
  agent = record (agent 2 "Ben" TeammateRole.teammate) { status = some TeammateStatus.idle };
  status = TeammateStatus.idle;
  needs_role_prompt = true;
}

maybe_wake-lead_to_wake_example : maybe_wake_leader_when_all_idle team ≡ lead_to_wake team.slots
maybe_wake-lead_to_wake_example = maybe_wake-lead_to_wake team

-- Both attempts find the member idle before either has set its status: both of them wake it.
abbrev both_first : List Bool
both_first = true ∷ false ∷ true ∷ false ∷ true ∷ false ∷ []

both_wake :
    let (a, b, m) = run_wakes texts 2 both_first WakeAttempt.begun WakeAttempt.begun team in
    (has_woken texts a ≡ true) × (has_woken texts b ≡ true)
unfolding new slots_of insert run_wakes wake_step get_status set_status build_wake_payload get_agent
    team_lite.Base.modify
both_wake = (refl, refl)

wakes-dealt_example :
    let (a, b, m) = run_wakes texts 2 both_first WakeAttempt.begun WakeAttempt.begun team in
    handed texts a ++ handed texts b ++ waiting texts 2 m ≡ waiting texts 2 team
wakes-dealt_example = wakes-dealt texts 2 both_first team

mark_idle-wakes_example :
    ((mark_idle texts 50 2 none team).0
      ≡ ok (lead_to_wake (mark_idle texts 50 2 none team).1.slots))
    × (status_at 2 (mark_idle texts 50 2 none team).1 ≡ some TeammateStatus.idle)
unfolding new slots_of insert
mark_idle-wakes_example = mark_idle-wakes texts 50 2 none teammate_slot team refl refl

handle_agent_crash-result_example :
    ((handle_agent_crash texts 50 2 CrashReason.process_exited none team).0
      ≡ ok (if is_lead teammate_slot.agent.role then none else find_lead_slot_id team))
    × (status_at 2 (handle_agent_crash texts 50 2 CrashReason.process_exited none team).1
        ≡ some TeammateStatus.error)
    × (is_wake_active 2 (handle_agent_crash texts 50 2 CrashReason.process_exited none team).1
        ≡ false)
unfolding new slots_of insert
handle_agent_crash-result_example =
    handle_agent_crash-result texts 50 2 CrashReason.process_exited none teammate_slot team refl

request_shutdown-allowed_example :
    let (r, m') = request_shutdown_agent texts (λ s. s) 50 1 2 none team in
    if may_shut_down (get 1 team.slots) (get 2 team.slots)
    then ((is_err r ≡ false)
        × (m'.messages
            ≡ write_message
                (draft_row texts.write_files texts.read_files team.next_id 50
                  (shutdown_draft texts (λ s. s) team.team_id 2 1 none))
                team.messages))
    else ((is_err r ≡ true) × (m' ≡ team))
request_shutdown-allowed_example = request_shutdown-allowed texts (λ s. s) 50 1 2 none team

parse-text_example :
    (parse_role (role_text TeammateRole.lead) ≡ some TeammateRole.lead)
    × (parse_status (status_text TeammateStatus.tool_use) ≡ some TeammateStatus.tool_use)
    × (TaskBoard.parse (TaskBoard.to_string TaskStatus.in_progress) ≡ some TaskStatus.in_progress)
parse-text_example = parse-text TeammateRole.lead TeammateStatus.tool_use TaskStatus.in_progress

truncate-prefix_example :
    ((rest : String) × (Native.◌++◌ (truncate_last_message "done") rest ≡ "done"))
    × (count (truncate_last_message "done") ≡ capped (count "done") 500)
truncate-prefix_example = truncate-prefix "done"

abbrev starts_with_a : String → Bool
starts_with_a String.[] = false
starts_with_a (String.◌∷◌ c s) = code c == 65

names_differ : normalize_name (λ s. s) "Ada" ≡ normalize_name (λ s. s) "Ben" → ⊥
unfolding normalize_name trim_start trim_end printable
names_differ e = absurd (ground (arith, ap starts_with_a e))

first_name :
    (i : Ident) (s : AgentSlot) → get i team.slots ≡ some s → (i == 1) ≡ true → s.agent.name ≡ "Ada"
unfolding new slots_of insert
first_name i s p a = ground (arith, p, a)

second_name :
    (i : Ident) (s : AgentSlot)
    → get i team.slots ≡ some s
    → (i == 1) ≡ false
    → s.agent.name ≡ "Ben"
unfolding new slots_of insert
second_name i s p a = ground (arith, p, a)

abbrev normal : String → String
normal = normalize_name (λ s. s)

team-Distinct : Distinct (λ s. s) team.slots
unfolding new slots_of insert
team-Distinct i j s t p q e = elim (Bool-cases (i == 1)) [
  | inl a ↦ elim (Bool-cases (j == 1)) [
    | inl b ↦ ground (arith, a, b)
    | inr b ↦
        absurd (
          names_differ (ap normal (sym (first_name i s p a)) ∙ e ∙ ap normal (second_name j t q b)))
  ]
  | inr a ↦ elim (Bool-cases (j == 1)) [
    | inl b ↦ absurd (
        names_differ
          (ap normal (sym (first_name j t q b)) ∙ sym e ∙ ap normal (second_name i s p a)))
    | inr b ↦ ground (arith, p, q, a, b)
  ]
]

rename_agent-Distinct_example : Distinct (λ s. s) (rename_agent (λ s. s) 1 "Eve" team).1.slots
rename_agent-Distinct_example = rename_agent-Distinct (λ s. s) 1 "Eve" team team-Distinct
