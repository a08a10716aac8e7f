-- ===== src/Scheduler/Lifecycle.antt =====
-- crates/team/src/scheduler/agent_lifecycle.rs: members come, go and are renamed. Lower case is a
-- parameter.
use Prim.Native.String.{String}
use text.Mathlib.Text
use team_lite.Base.{
  Ident, Bool, false, Option, none, some, [], ◌∷◌, Map, insert, get, remove, modify, if◌then◌else◌,
  ◌&&◌, ◌==◌, not, ◌||◌,
}
use team_lite.Errors.{Result, ok, err, TeamError, RequestFault}
use team_lite.Scheduler.Model.{
  TeammateManager, AgentSlot, TeamAgent, TeamEvent, broadcast, new_agent_slot,
}
use team_lite.Scheduler.Names.{normalize_name, is_blank}
use team_lite.Scheduler.State.{clear_wake_timeout, release_wake_lock, clear_finalized_turn}

unfoldable pub add_agent : TeamAgent → TeammateManager → TeammateManager
add_agent agent m =
    broadcast (TeamEvent.agent_spawned agent)
      (record m { slots = insert agent.slot_id (new_agent_slot agent) m.slots })

unfoldable pub clear_agent_state : Ident → Ident → TeammateManager → TeammateManager
unfolding release_wake_lock clear_wake_timeout clear_finalized_turn
clear_agent_state slot_id conversation_id m =
    clear_finalized_turn conversation_id (clear_wake_timeout slot_id (release_wake_lock slot_id m))

unfoldable pub remove_agent : Ident → TeammateManager → Result (Option Ident) × TeammateManager
unfolding clear_agent_state
remove_agent slot_id m = elim (get slot_id m.slots) [
  | none ↦ (err (TeamError.agent_not_found slot_id), m)
  | some removed ↦ (
    ok (some removed.agent.conversation_id),
    broadcast (TeamEvent.agent_removed slot_id) (
        clear_agent_state slot_id removed.agent.conversation_id
          (record m { slots = remove slot_id m.slots })),
  )
]

module _ (to_lowercase : String → String) where
  -- Another slot has the name.
  abbrev pub has_name : Ident → String → Map AgentSlot → Bool
  has_name slot_id normalized [] = false
  has_name slot_id normalized ((id, s) ∷ slots) =
      (not (id == slot_id) && Text.◌==◌ (normalize_name to_lowercase s.agent.name) normalized)
      || has_name slot_id normalized slots

  abbrev pub put_name : String → AgentSlot → AgentSlot
  put_name name s = record s { agent = record s.agent { name = name } }

  unfoldable pub rename_agent :
      Ident → String → TeammateManager → Result (Unit {0}) × TeammateManager
  unfolding normalize_name
  rename_agent slot_id new_name m =
      let normalized = normalize_name to_lowercase new_name in
      if is_blank normalized
      then (err (TeamError.invalid_request RequestFault.empty_name), m)
      else elim (get slot_id m.slots) [
        | none ↦ (err (TeamError.agent_not_found slot_id), m)
        | some target ↦
            if has_name slot_id normalized m.slots
            then (err (TeamError.duplicate_agent_name new_name), m)
            else (
              ok tt,
              broadcast (TeamEvent.agent_renamed slot_id new_name)
                  (record m { slots = modify slot_id (put_name new_name) m.slots }),
            )
      ]
