-- ===== src/Scheduler/Model.antt =====
-- crates/team/src/scheduler/mod.rs and crates/team/src/types.rs: the state of the scheduler. The
-- mailbox and the task board write to the in-memory repository, whose rows are part of the state; so
-- are the events that have been broadcast, and the identifiers generated, which are numbered.
use Prim.Native.String.{String}
use text.Mathlib.Text.{◌==◌}
use team_lite.Base.{
  Ident, ℕ, Bool, true, false, Option, none, some, List, [], ◌∷◌, ◌++◌, Map, insert, get,
  if◌then◌else◌, ◌||◌, values,
}
use team_lite.Errors.{Result, ok, err, TeamError}
use team_lite.Store.{Messages}
use team_lite.Store.Tasks.{Tasks}

pub data TeammateRole : Type 0 where
  lead teammate : TeammateRole

unfoldable pub role_text : TeammateRole → String
role_text TeammateRole.lead = "lead"
role_text TeammateRole.teammate = "teammate"

unfoldable pub parse_role : String → Option TeammateRole
parse_role s =
    if (s == "lead") || (s == "leader")
    then some TeammateRole.lead
    else if s == "teammate"
    then some TeammateRole.teammate
    else none

pub data TeammateStatus : Type 0 where
  idle working thinking tool_use completed error : TeammateStatus

unfoldable pub status_text : TeammateStatus → String
status_text TeammateStatus.idle = "idle"
status_text TeammateStatus.working = "working"
status_text TeammateStatus.thinking = "thinking"
status_text TeammateStatus.tool_use = "tool_use"
status_text TeammateStatus.completed = "completed"
status_text TeammateStatus.error = "error"

unfoldable pub parse_status : String → Option TeammateStatus
parse_status s =
    if (s == "idle") || (s == "pending")
    then some TeammateStatus.idle
    else if (s == "working") || (s == "active")
    then some TeammateStatus.working
    else if s == "thinking"
    then some TeammateStatus.thinking
    else if s == "tool_use"
    then some TeammateStatus.tool_use
    else if s == "completed"
    then some TeammateStatus.completed
    else if (s == "error") || (s == "failed")
    then some TeammateStatus.error
    else none

abbrev pub is_lead : TeammateRole → Bool
is_lead TeammateRole.lead = true
is_lead TeammateRole.teammate = false

abbrev pub is_idle : TeammateStatus → Bool
is_idle TeammateStatus.idle = true
is_idle _ = false

abbrev pub is_settled : TeammateStatus → Bool
is_settled TeammateStatus.idle = true
is_settled TeammateStatus.completed = true
is_settled TeammateStatus.error = true
is_settled _ = false

pub record TeamAgent : Type 0 where
  pub slot_id : Ident
  pub name : String
  pub role : TeammateRole
  pub conversation_id : Ident
  pub backend : String
  pub model : String
  pub assistant_id : Option Ident
  pub status : Option TeammateStatus
  pub conversation_type : Option String
  pub cli_path : Option String
  pub last_message : Option String
  pub last_message_at : Option ℕ

pub record AgentSlot : Type 0 where
  pub agent : TeamAgent
  pub status : TeammateStatus
  pub needs_role_prompt : Bool

-- What the event emitter broadcasts.
pub data TeamEvent : Type 0 where
  agent_status : Ident → TeammateStatus → Option String → TeamEvent
  agent_spawned : TeamAgent → TeamEvent
  agent_removed : Ident → TeamEvent
  agent_renamed : Ident → String → TeamEvent

pub record TeammateManager : Type 0 where
  pub team_id : Ident
  pub slots : Map AgentSlot
  pub active_wakes : List Ident
  pub finalized_turns : Map ℕ
  pub finalize_timers : List (Ident × ℕ)
  pub wake_timeouts : List Ident
  pub messages : Messages
  pub tasks : Tasks
  pub events : List TeamEvent
  pub next_id : ℕ

abbrev pub new_agent_slot : TeamAgent → AgentSlot
new_agent_slot agent = record {
  agent = agent;
  status = TeammateStatus.idle;
  needs_role_prompt = true;
}

-- The loop of `new`, over agents whose status it sets.
unfoldable pub slots_of : List TeamAgent → Map AgentSlot → Map AgentSlot
slots_of [] slots = slots
slots_of (a ∷ rest) slots =
    let idle : TeamAgent = record a { status = some TeammateStatus.idle } in
    slots_of rest (insert a.slot_id (new_agent_slot idle) slots)

unfoldable pub new : Ident → List TeamAgent → Messages → Tasks → ℕ → TeammateManager
unfolding slots_of
new team_id agents messages tasks next_id = record {
  team_id = team_id;
  slots = slots_of agents [];
  active_wakes = [];
  finalized_turns = [];
  finalize_timers = [];
  wake_timeouts = [];
  messages = messages;
  tasks = tasks;
  events = [];
  next_id = next_id;
}

abbrev pub broadcast : TeamEvent → TeammateManager → TeammateManager
broadcast e m = record m { events = m.events ++ e ∷ [] }

-- `iter().find(…)` over the slots, and the slot of the lead.
abbrev pub first_lead : List AgentSlot → Option Ident
first_lead [] = none
first_lead (s ∷ ss) =
    let rest = first_lead ss in if is_lead s.agent.role then some s.agent.slot_id else rest

unfoldable pub find_lead_slot_id : TeammateManager → Option Ident
find_lead_slot_id m = first_lead (values m.slots)

unfoldable pub get_agent : Ident → TeammateManager → Result TeamAgent
get_agent slot_id m = elim (get slot_id m.slots) [
  | none ↦ err (TeamError.agent_not_found slot_id)
  | some slot ↦ ok slot.agent
]
