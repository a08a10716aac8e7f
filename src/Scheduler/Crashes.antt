-- ===== src/Scheduler/Crashes.antt =====
-- crates/team/src/scheduler/crash_recovery.rs: what a crash leaves.
use team_lite.Base.{
  Ident, String, false, Option, none, some, [], ◌∷◌, Map, get, modify, values, if◌then◌else◌, ◌≡◌,
  refl, arith, Bool-cases, Option-cases, inl, inr, mem-without, ◌==◌, ap, ◌∙◌, map_option,
}
use team_lite.Errors.{ok}
use team_lite.Mailbox.{write, write_with_files, from_row, draft_row, parse, to_string}
use team_lite.Scheduler.Model.{
  TeammateManager, AgentSlot, TeammateStatus, is_lead, find_lead_slot_id, first_lead,
}
use team_lite.Scheduler.State.{
  Json, put_status, is_wake_active, release_wake_lock, clear_wake_timeout,
}
use team_lite.Scheduler.Recovery.{CrashReason, write_crash_testament, handle_agent_crash}
use team_lite.Scheduler.Waking.{status_at, set_status_lem, put_status_lem}

first_lead-modify :
    (i : Ident) (status : TeammateStatus) (slots : Map AgentSlot)
    → first_lead (values (modify i (put_status status) slots)) ≡ first_lead (values slots)
unfolding modify
first_lead-modify i status [] = refl
first_lead-modify i status ((k, s) ∷ slots) = elim (Bool-cases (i == k)) [
  | inl e ↦ ground (arith, e, first_lead-modify i status slots)
  | inr e ↦ ground (arith, e, first_lead-modify i status slots)
]

module _ {Value : Type 0} (json : Json Value) where
  testament_lem :
      (now slot_id : Ident) (name : String) (reason : CrashReason) (last : Option String)
      (m : TeammateManager)
      → ((write_crash_testament json now slot_id name reason last m).0 ≡ ok tt)
        × ((write_crash_testament json now slot_id name reason last m).1.slots ≡ m.slots)
  unfolding write_crash_testament write write_with_files from_row draft_row parse to_string
  testament_lem now slot_id name reason last m = elim (Option-cases (find_lead_slot_id m)) [
    | inl e ↦ rw (write_crash_testament, e) (refl, refl)
    | inr (l, e) ↦ elim (Bool-cases (l == slot_id)) [
      | inl f ↦ rw (write_crash_testament, e, f) (refl, refl)
      | inr f ↦ rw (write_crash_testament, e, f) (refl, refl)
    ]
  ]

  -- A member that crashed is marked as failed and holds no wake lock any longer, and the lead is to be
  -- woken, unless the lead is the one that crashed.
  pub handle_agent_crash-result :
      (now slot_id : Ident) (reason : CrashReason) (last : Option String) (slot : AgentSlot)
      (m : TeammateManager)
      → get slot_id m.slots ≡ some slot
      → ((handle_agent_crash json now slot_id reason last m).0
          ≡ ok (if is_lead slot.agent.role then none else find_lead_slot_id m))
        × (status_at slot_id (handle_agent_crash json now slot_id reason last m).1
            ≡ some TeammateStatus.error)
        × (is_wake_active slot_id (handle_agent_crash json now slot_id reason last m).1 ≡ false)
  unfolding handle_agent_crash find_lead_slot_id is_wake_active release_wake_lock clear_wake_timeout
  handle_agent_crash-result now slot_id reason last slot m e =
      let told : TeammateManager =
        (write_crash_testament json now slot_id slot.agent.name reason last m).1 in
      let (w, same) = testament_lem now slot_id slot.agent.name reason last m in
      let here : get slot_id told.slots ≡ some slot = ap (get slot_id) same ∙ e in
      let set = set_status_lem slot_id TeammateStatus.error slot told here in
      rw (handle_agent_crash, e, w, set, set)
        (
          ap (λ o. ok (if is_lead slot.agent.role then none else o))
              (first_lead-modify slot_id TeammateStatus.error told.slots
                ∙ ap (λ s. first_lead (values s)) same),
          ap (λ o. map_option (λ (s : AgentSlot). s.status) o)
              (put_status_lem slot_id TeammateStatus.error slot told here),
          ground (arith, mem-without slot_id slot_id told.active_wakes),
        )
