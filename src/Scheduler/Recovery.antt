-- ===== src/Scheduler/Recovery.antt =====
-- crates/team/src/scheduler/crash_recovery.rs, with the reasons of crates/team/src/crash_detection.rs:
-- a member that crashed or timed out.
use Prim.Native.String as Native
use team_lite.Base.{Ident, ℕ, String, Option, none, some, List, [], ◌∷◌, get, if◌then◌else◌, ◌==◌}
use team_lite.Errors.{Result, ok, err, panicked, TeamError, ◌>>=◌}
use team_lite.Mailbox.{Draft, MailboxMessageType, write}
use team_lite.Scheduler.Model.{TeammateManager, is_lead, TeammateStatus, find_lead_slot_id}
use team_lite.Scheduler.State.{Json, send, set_status, release_wake_lock, clear_wake_timeout}

pub data CrashReason : Type 0 where
  process_exited session_not_found : CrashReason
  unknown : String → CrashReason

abbrev join : List String → String
join [] = ""
join (s ∷ ss) = Native.◌++◌ s (join ss)

abbrev pub reason_text : CrashReason → String
reason_text CrashReason.process_exited = "ProcessExited"
reason_text CrashReason.session_not_found = "SessionNotFound"
reason_text (CrashReason.unknown msg) = join ("Unknown — " ∷ msg ∷ [])

unfoldable pub format_crash_testament : String → CrashReason → Option String → String
format_crash_testament agent_name reason none = join (
    "Teammate '"
    ∷ agent_name
    ∷ "' crashed during task (reason: "
    ∷ reason_text reason
    ∷ "). Please investigate."
    ∷ [])
format_crash_testament agent_name reason (some msg) = join (
    "Teammate '"
    ∷ agent_name
    ∷ "' crashed during task (reason: "
    ∷ reason_text reason
    ∷ "). Last message: "
    ∷ msg
    ∷ ". Please investigate."
    ∷ [])

abbrev pub timeout_text : String → String
timeout_text agent_name =
    join
      ("Teammate '" ∷ agent_name ∷ "' timed out after 60s of inactivity. Please investigate." ∷ [])

abbrev pub report : Ident → Ident → Ident → String → Draft
report team_id lead_slot_id slot_id content = record {
  team_id = team_id;
  to_agent_id = lead_slot_id;
  from_agent_id = slot_id;
  msg_type = MailboxMessageType.message;
  content = content;
  summary = none;
  files = none;
}

module _ {Value : Type 0} (json : Json Value) where
  unfoldable pub write_crash_testament :
      ℕ
      → Ident
      → String
      → CrashReason
      → Option String
      → TeammateManager
      → Result (Unit {0}) × TeammateManager
  unfolding find_lead_slot_id format_crash_testament write
  write_crash_testament now slot_id agent_name reason last_message m = elim (find_lead_slot_id m) [
    | none ↦ (ok tt, m)
    | some lead_slot_id ↦
        if lead_slot_id == slot_id
        then (ok tt, m)
        else (let (r, m') =
              send json now
                (report m.team_id lead_slot_id slot_id
                  (format_crash_testament agent_name reason last_message))
                m in
            (r >>= (λ x. ok tt), m'))
  ]

  unfoldable pub handle_agent_crash :
      ℕ
      → Ident
      → CrashReason
      → Option String
      → TeammateManager
      → Result (Option Ident) × TeammateManager
  unfolding write_crash_testament set_status release_wake_lock clear_wake_timeout find_lead_slot_id
  handle_agent_crash now slot_id reason last_message m = elim (get slot_id m.slots) [
    | none ↦ (err (TeamError.agent_not_found slot_id), m)
    | some slot ↦
        let (w, told) = write_crash_testament now slot_id slot.agent.name reason last_message m in
        elim w [
          | err e ↦ (err e, told)
          | panicked ↦ (panicked, told)
          | ok _ ↦
              let (s, failed) = set_status slot_id TeammateStatus.error told in
              elim s [
                | err e ↦ (err e, failed)
                | panicked ↦ (panicked, failed)
                | ok _ ↦
                    let after = clear_wake_timeout slot_id (release_wake_lock slot_id failed) in
                    (ok (if is_lead slot.agent.role then none else find_lead_slot_id after), after)
              ]
        ]
  ]

  unfoldable pub handle_inactivity_timeout :
      ℕ → Ident → TeammateManager → Result (Option Ident) × TeammateManager
  unfolding set_status release_wake_lock clear_wake_timeout find_lead_slot_id write
  handle_inactivity_timeout now slot_id m = elim (get slot_id m.slots) [
    | none ↦ (err (TeamError.agent_not_found slot_id), m)
    | some slot ↦
        let (s, failed) = set_status slot_id TeammateStatus.error m in
        elim s [
          | err e ↦ (err e, failed)
          | panicked ↦ (panicked, failed)
          | ok _ ↦
              let after = clear_wake_timeout slot_id (release_wake_lock slot_id failed) in
              if is_lead slot.agent.role then (ok none, after) else elim (find_lead_slot_id after) [
                | none ↦ (ok none, after)
                | some lead_slot_id ↦
                    let (r, m') =
                      send json now
                        (report after.team_id lead_slot_id slot_id (timeout_text slot.agent.name))
                        after in
                    (r >>= (λ x. ok (some lead_slot_id)), m')
              ]
        ]
  ]
