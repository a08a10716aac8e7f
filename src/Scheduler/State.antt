-- ===== src/Scheduler/State.antt =====
-- crates/team/src/scheduler/state.rs, wake.rs and dedup.rs: the status of a member, when it is woken,
-- and when a turn is finalized; `try_wake` stands in Wake. The task of `arm_wake_timeout`, which waits
-- for the agent's events, is not modelled. A monotonic time in milliseconds is an argument.
use team_lite.Base.{
  leb, keep, Map, Ident, ℕ, Bool, true, false, Option, none, some, List, [], ◌∷◌, insert, get,
  remove, modify, if◌then◌else◌, ◌+◌, ◌-◌, values, mem, without, set_insert, ltb, not, String, ◌==◌,
}
use team_lite.Errors.{Result, ok, err, panicked, TeamError, ◌>>=◌}
use team_lite.Mailbox.{Draft, MailboxMessage, write, MailboxMessageType}
use team_lite.Scheduler.Model.{
  TeammateManager, AgentSlot, TeammateStatus, TeamEvent, broadcast, is_idle, is_lead, is_settled,
  find_lead_slot_id,
}
use team_lite.Scheduler.Names.{truncate_last_message}

-- `serde_json`, at the types that it is used at.
pub record Json (Value : Type 0) : Type 0 where
  pub write_files : List String → String
  pub read_files : String → Option (List String)
  pub write_ids : List Ident → String
  pub read_ids : String → Option (List Ident)
  pub write_value : Value → String
  pub read_value : String → Option Value

abbrev pub put_status : TeammateStatus → AgentSlot → AgentSlot
put_status status slot = record slot {
  status = status;
  agent = record slot.agent { status = some status };
}

-- The message that the event carries: that of a member that is idle or has completed.
abbrev pub shown_message : TeammateStatus → AgentSlot → Option String
shown_message TeammateStatus.idle slot = slot.agent.last_message
shown_message TeammateStatus.completed slot = slot.agent.last_message
shown_message _ slot = none

unfoldable pub set_status :
    Ident → TeammateStatus → TeammateManager → Result (Unit {0}) × TeammateManager
set_status slot_id status m = elim (get slot_id m.slots) [
  | none ↦ (err (TeamError.agent_not_found slot_id), m)
  | some slot ↦ (
    ok tt,
    broadcast (TeamEvent.agent_status slot_id status (shown_message status slot))
        (record m { slots = modify slot_id (put_status status) m.slots }),
  )
]

unfoldable pub set_last_message : ℕ → Ident → String → TeammateManager → TeammateManager
unfolding truncate_last_message
set_last_message now slot_id content m = record m {
  slots =
      modify slot_id
        (λ (s : AgentSlot). record s {
          agent = record s.agent {
            last_message = some (truncate_last_message content);
            last_message_at = some now;
          };
        })
        m.slots;
}

unfoldable pub get_status : Ident → TeammateManager → Result TeammateStatus
get_status slot_id m = elim (get slot_id m.slots) [
  | none ↦ err (TeamError.agent_not_found slot_id)
  | some slot ↦ ok slot.status
]

abbrev pub no_prompt : AgentSlot → AgentSlot
no_prompt s = record s { needs_role_prompt = false }

unfoldable pub take_needs_role_prompt : Ident → TeammateManager → Bool × TeammateManager
take_needs_role_prompt slot_id m = elim (get slot_id m.slots) [
  | none ↦ (false, m)
  | some slot ↦ (slot.needs_role_prompt, record m { slots = modify slot_id no_prompt m.slots })
]

-- The loop over the slots: the lead, whether the teammates seen are settled, whether there are any.
unfoldable pub scan : List AgentSlot → Option Ident → Bool → Option Ident × Bool × Bool
scan [] lead_slot_id has_teammates = (lead_slot_id, true, has_teammates)
scan (s ∷ ss) lead_slot_id has_teammates =
    let after_lead = scan ss (some s.agent.slot_id) has_teammates in
    let after_teammate = scan ss lead_slot_id true in
    if is_lead s.agent.role
    then after_lead
    else if not (is_settled s.status)
    then (lead_slot_id, false, true)
    else after_teammate

abbrev pub is_idle_in : Option AgentSlot → Bool
is_idle_in none = false
is_idle_in (some s) = is_idle s.status

abbrev pub wake_lead : TeammateManager → Option Ident → Bool → Bool → Option Ident
wake_lead m none has_teammates all_settled = none
wake_lead m (some lead_id) has_teammates all_settled =
    if not has_teammates
    then none
    else if not all_settled
    then none
    else if not (is_idle_in (get lead_id m.slots))
    then none
    else some lead_id

unfoldable pub maybe_wake_leader_when_all_idle : TeammateManager → Option Ident
unfolding scan
maybe_wake_leader_when_all_idle m =
    let (lead_id, all_settled, has_teammates) = scan (values m.slots) none false in
    wake_lead m lead_id has_teammates all_settled

unfoldable pub acquire_wake_lock : Ident → TeammateManager → Bool × TeammateManager
acquire_wake_lock slot_id m = (
  not (mem slot_id m.active_wakes),
  record m { active_wakes = set_insert slot_id m.active_wakes },
)

unfoldable pub release_wake_lock : Ident → TeammateManager → TeammateManager
release_wake_lock slot_id m = record m { active_wakes = without slot_id m.active_wakes }

unfoldable pub is_wake_active : Ident → TeammateManager → Bool
is_wake_active slot_id m = mem slot_id m.active_wakes

unfoldable pub clear_wake_timeout : Ident → TeammateManager → TeammateManager
clear_wake_timeout slot_id m = record m { wake_timeouts = without slot_id m.wake_timeouts }

abbrev pub finalize_dedup_window : ℕ
finalize_dedup_window = 5000

abbrev pub finalized_recently : ℕ → Option ℕ → Bool
finalized_recently now none = false
finalized_recently now (some at) = ltb (now - at) finalize_dedup_window

-- The turn is noted, and a task is spawned that forgets the conversation when the window has passed.
-- A task is the conversation and the time that it wakes at.
unfoldable pub begin_finalize : ℕ → Ident → TeammateManager → Bool × TeammateManager
begin_finalize now conversation_id m =
    if not (finalized_recently now (get conversation_id m.finalized_turns))
    then (
      true,
      record m {
        finalized_turns = insert conversation_id now m.finalized_turns;
        finalize_timers = (conversation_id, now + finalize_dedup_window) ∷ m.finalize_timers;
      },
    )
    else (false, m)

abbrev pub is_due : ℕ → Ident × ℕ → Bool
is_due now timer = leb timer.1 now

abbrev pub forget : List (Ident × ℕ) → Map ℕ → Map ℕ
forget [] turns = turns
forget (timer ∷ timers) turns = remove timer.0 (forget timers turns)

-- The spawned tasks that wake by the time given: each removes the entry of its conversation, whatever
-- entry that is by then.
unfoldable pub run_finalize_timers : ℕ → TeammateManager → TeammateManager
run_finalize_timers now m = record m {
  finalized_turns = forget (keep (is_due now) m.finalize_timers) m.finalized_turns;
  finalize_timers = keep (λ timer. not (is_due now timer)) m.finalize_timers;
}

unfoldable pub clear_finalized_turn : Ident → TeammateManager → TeammateManager
clear_finalized_turn conversation_id m = record m {
  finalized_turns = remove conversation_id m.finalized_turns;
}

module _ {Value : Type 0} (json : Json Value) where
  -- A message of the mailbox, under the next identifier.
  abbrev pub send : ℕ → Draft → TeammateManager → Result MailboxMessage × TeammateManager
  send now draft m =
      let (r, messages) = write json.write_files json.read_files m.next_id now draft m.messages in
      (r, record m { messages = messages; next_id = m.next_id + 1 })

  abbrev pub idle_draft : Ident → Ident → Ident → Option String → Draft
  idle_draft team_id lead_slot_id slot_id summary = record {
    team_id = team_id;
    to_agent_id = lead_slot_id;
    from_agent_id = slot_id;
    msg_type = MailboxMessageType.idle_notification;
    content = elim summary [ none ↦ "idle" | some s ↦ s ];
    summary = summary;
    files = none;
  }

  -- The lead is told, unless there is none or it is the slot itself.
  abbrev pub tell_lead :
      ℕ
      → Ident
      → Option String
      → Option Ident
      → TeammateManager
      → Result (Unit {0}) × TeammateManager
  tell_lead now slot_id summary none m = (ok tt, m)
  tell_lead now slot_id summary (some lead_slot_id) m =
      if not (lead_slot_id == slot_id)
      then (let (r, m') = send now (idle_draft m.team_id lead_slot_id slot_id summary) m in
          (r >>= (λ x. ok tt), m'))
      else (ok tt, m)

  unfoldable pub mark_idle :
      ℕ → Ident → Option String → TeammateManager → Result (Option Ident) × TeammateManager
  unfolding set_status find_lead_slot_id maybe_wake_leader_when_all_idle
  mark_idle now slot_id summary m =
      let (s, idle) = set_status slot_id TeammateStatus.idle m in
      elim s [
        | err e ↦ (err e, idle)
        | panicked ↦ (panicked, idle)
        | ok _ ↦ elim (get slot_id idle.slots) [
          | none ↦ (err (TeamError.agent_not_found slot_id), idle)
          | some slot ↦
              if is_lead slot.agent.role
              then (ok none, idle)
              else let (told, after) =
                  tell_lead now slot_id summary (find_lead_slot_id idle) idle in
                (told >>= (λ x. ok (maybe_wake_leader_when_all_idle after)), after)
        ]
      ]
