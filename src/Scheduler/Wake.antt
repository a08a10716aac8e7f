-- ===== src/Scheduler/Wake.antt =====
-- crates/team/src/scheduler/state.rs, `try_wake`, and wake.rs, `build_wake_payload`. An attempt to wake
-- a member takes the lock of the slots for the check of the status, and again for the new status, and
-- another attempt may come between: each is a step. The payload is built in one step, since only its
-- reading of the mailbox writes.
use team_lite.TaskBoard
use team_lite.Base.{[], Option, Ident, some, List, if◌then◌else◌, Bool, none, not, ◌∷◌}
use team_lite.Scheduler.State.{Json, get_status, set_status}
use team_lite.Errors.{Result, ok, err, ◌>>=◌, panicked}
use team_lite.Scheduler.Model.{TeamAgent, TeammateStatus, TeammateManager, is_idle, get_agent}
use team_lite.Mailbox.{read_unread, MailboxMessage}
use team_lite.TaskBoard.{TeamTask}
use mathlib.Core.Bool.{true, false}

module _ {Value : Type 0} (json : Json Value) where
  pub record WakePayload : Type 0 where
    pub agent : TeamAgent
    pub tasks : List (TeamTask Value)
    pub unread_messages : List MailboxMessage

  unfoldable pub build_wake_payload : Ident → TeammateManager → Result WakePayload × TeammateManager
  unfolding read_unread TaskBoard.list_tasks get_agent
  build_wake_payload slot_id m = elim (get_agent slot_id m) [
    | err e ↦ (err e, m)
    | panicked ↦ (panicked, m)
    | ok agent ↦
        let (unread, messages) =
          read_unread json.write_files json.read_files m.team_id slot_id m.messages in
        (
          ok (record {
            agent = agent;
            tasks =
                TaskBoard.list_tasks json.write_ids json.read_ids json.write_value json.read_value
                  m.team_id m.tasks;
            unread_messages = unread;
          }),
          record m { messages = messages },
        )
  ]

  -- How far an attempt has come.
  pub data WakeAttempt : Type 0 where
    begun found_idle set_working : WakeAttempt
    finished : Result (Option WakePayload) → WakeAttempt

  abbrev pub check_idle : Result TeammateStatus → WakeAttempt
  check_idle (ok current) =
      if not (is_idle current) then WakeAttempt.finished (ok none) else WakeAttempt.found_idle
  check_idle (err e) = WakeAttempt.finished (err e)
  check_idle panicked = WakeAttempt.finished panicked

  abbrev pub check_set : Result (Unit {0}) → WakeAttempt
  check_set (ok u) = WakeAttempt.set_working
  check_set (err e) = WakeAttempt.finished (err e)
  check_set panicked = WakeAttempt.finished panicked

  unfoldable pub wake_step : Ident → WakeAttempt → TeammateManager → WakeAttempt × TeammateManager
  unfolding get_status set_status build_wake_payload
  wake_step slot_id WakeAttempt.begun m = (check_idle (get_status slot_id m), m)
  wake_step slot_id WakeAttempt.found_idle m =
      let (s, woken) = set_status slot_id TeammateStatus.working m in (check_set s, woken)
  wake_step slot_id WakeAttempt.set_working m =
      let (payload, read) = build_wake_payload slot_id m in
      (WakeAttempt.finished (payload >>= (λ p. ok (some p))), read)
  wake_step slot_id (WakeAttempt.finished r) m = (WakeAttempt.finished r, m)

  -- What an attempt returns, once it has finished.
  abbrev pub woken_with : WakeAttempt → Option (Result (Option WakePayload))
  woken_with (WakeAttempt.finished r) = some r
  woken_with _ = none

  -- An attempt from its start to its end, where nothing comes between.
  unfoldable pub try_wake :
      Ident → TeammateManager → Option (Result (Option WakePayload)) × TeammateManager
  unfolding wake_step
  try_wake slot_id m =
      let (a, m1) = wake_step slot_id WakeAttempt.begun m in
      let (b, m2) = wake_step slot_id a m1 in
      let (c, m3) = wake_step slot_id b m2 in (woken_with c, m3)

  -- Two attempts at the same member, whose steps come in the order given.
  unfoldable pub run_wakes :
      Ident
      → List Bool
      → WakeAttempt
      → WakeAttempt
      → TeammateManager
      → WakeAttempt × WakeAttempt × TeammateManager
  unfolding wake_step
  run_wakes slot_id [] a b m = (a, b, m)
  run_wakes slot_id (true ∷ turns) a b m =
      let (a', m') = wake_step slot_id a m in run_wakes slot_id turns a' b m'
  run_wakes slot_id (false ∷ turns) a b m =
      let (b', m') = wake_step slot_id b m in run_wakes slot_id turns a b' m'
