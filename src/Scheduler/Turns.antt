-- ===== src/Scheduler/Turns.antt =====
-- crates/team/src/scheduler: what ends a turn, and who may end a member.
use team_lite.Base.{
  ℕ, Bool, true, false, Option, none, some, get, not, ◌≡◌, refl, Bool-cases, inl, inr, ◌&&◌, String,
  Ident, if◌then◌else◌, Option-cases, List, any, ◌==◌,
}
use team_lite.Scheduler.Model.{TeammateManager, AgentSlot, is_lead}
use team_lite.Scheduler.State.{Json}
use team_lite.Errors.{Result, ok}
use team_lite.Scheduler.Actions.{request_shutdown_agent, shutdown_draft}
use team_lite.Store.{write_message}
use team_lite.Mailbox.{draft_row, write, write_with_files, from_row, parse, to_string}

-- A task of the conversation is still asleep.
abbrev pub has_timer : Ident → List (Ident × ℕ) → Bool
has_timer c timers = any (λ (timer : Ident × ℕ). timer.0 == c) timers

abbrev pub is_err {ℓ} : {A : Type ℓ} → Result A → Bool
is_err (ok x) = false
is_err _ = true

-- The slots that the lead may ask to shut down.
abbrev pub may_shut_down : Option AgentSlot → Option AgentSlot → Bool
may_shut_down none target = false
may_shut_down (some from) none = false
may_shut_down (some from) (some target) = is_lead from.agent.role && not (is_lead target.agent.role)

module _ {Value : Type 0} (json : Json Value) (to_lowercase : String → String) where
  -- A request to shut a member down is written exactly if a lead asks it of a teammate; all else is
  -- refused, and nothing changes.
  pub request_shutdown-allowed :
      (now from_slot_id target_slot_id : Ident) (reason : Option String) (m : TeammateManager)
      → let (r, m') =
          request_shutdown_agent json to_lowercase now from_slot_id target_slot_id reason m in
        if may_shut_down (get from_slot_id m.slots) (get target_slot_id m.slots)
        then ((is_err r ≡ false)
            × (m'.messages
                ≡ write_message
                    (draft_row json.write_files json.read_files m.next_id now (
                      shutdown_draft json to_lowercase m.team_id target_slot_id from_slot_id
                        reason))
                    m.messages))
        else ((is_err r ≡ true) × (m' ≡ m))
  unfolding request_shutdown_agent write write_with_files from_row draft_row parse to_string
  request_shutdown-allowed now from target reason m = elim (Option-cases (get from m.slots)) [
    | inl e ↦ rw (request_shutdown_agent, e) (refl, refl)
    | inr (f, e) ↦ elim (Bool-cases (is_lead f.agent.role)) [
      | inr l ↦ elim (Option-cases (get target m.slots)) [
        | inl g ↦ rw (request_shutdown_agent, e, l, g) (refl, refl)
        | inr (t, g) ↦ rw (request_shutdown_agent, e, l, g, l) (refl, refl)
      ]
      | inl l ↦ elim (Option-cases (get target m.slots)) [
        | inl g ↦ rw (request_shutdown_agent, e, l, g) (refl, refl)
        | inr (t, g) ↦ elim (Bool-cases (is_lead t.agent.role)) [
          | inl k ↦ rw (request_shutdown_agent, e, l, g, k, l) (refl, refl)
          | inr k ↦ rw (request_shutdown_agent, e, l, g, k, l) (refl, refl)
        ]
      ]
    ]
  ]
