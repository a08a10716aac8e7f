-- ===== src/Scheduler/Waking.antt =====
-- crates/team/src/scheduler/state.rs: when the lead is woken.
use team_lite.Base.{
  Ident, Bool, true, false, Option, none, some, List, [], ◌∷◌, Map, get, modify, if◌then◌else◌,
  ◌&&◌, ◌||◌, values, not, keep, every, is_empty, ◌≡◌, refl, arith, Bool-cases, inl, inr,
  map_option, get-modify, ap, ◌∙◌, String, ◌==◌,
}
use team_lite.Errors.{ok, ◌>>=◌}
use team_lite.Scheduler.Model.{
  TeammateManager, AgentSlot, TeammateStatus, is_lead, is_settled, find_lead_slot_id, broadcast,
  TeamEvent,
}
use team_lite.Scheduler.State.{
  Json, mark_idle, scan, set_status, maybe_wake_leader_when_all_idle, is_idle_in, wake_lead,
  put_status, shown_message, tell_lead,
}
use team_lite.Mailbox.{write, write_with_files, from_row, draft_row, parse, to_string}

abbrev pub teammates : List AgentSlot → List AgentSlot
teammates ss = keep (λ (s : AgentSlot). not (is_lead s.agent.role)) ss

abbrev pub all_settled : List AgentSlot → Bool
all_settled ss = every (λ (s : AgentSlot). is_settled s.status) (teammates ss)

-- The lead that the slots end with, or the one given.
abbrev pub last_lead : List AgentSlot → Option Ident → Option Ident
last_lead [] l = l
last_lead (s ∷ ss) l = last_lead ss (if is_lead s.agent.role then some s.agent.slot_id else l)

scan-settled :
    (ss : List AgentSlot) (l : Option Ident) (h : Bool)
    → all_settled ss ≡ true
    → scan ss l h ≡ (last_lead ss l, true, h || not (is_empty (teammates ss)))
unfolding scan
scan-settled [] l h e = ground arith
scan-settled (s ∷ ss) l h e = elim (Bool-cases (is_lead s.agent.role)) [
  | inl p ↦ ground (arith, p, e, scan-settled ss (some s.agent.slot_id) h)
  | inr p ↦ ground (arith, p, e, scan-settled ss l true)
]

scan-unsettled :
    (ss : List AgentSlot) (l : Option Ident) (h : Bool)
    → all_settled ss ≡ false
    → (scan ss l h).1 ≡ false
unfolding scan
scan-unsettled [] l h e = ground (arith, e)
scan-unsettled (s ∷ ss) l h e = elim (Bool-cases (is_lead s.agent.role)) [
  | inl p ↦ ground (arith, p, e, scan-unsettled ss (some s.agent.slot_id) h)
  | inr p ↦ ground (arith, p, e, scan-unsettled ss l true)
]

abbrev pub if_idle : Map AgentSlot → Option Ident → Option Ident
if_idle slots none = none
if_idle slots (some l) = if is_idle_in (get l slots) then some l else none

-- The lead to wake, said at once: there are teammates, all of them are settled, and the lead is idle.
abbrev pub lead_to_wake : Map AgentSlot → Option Ident
lead_to_wake slots =
    if not (is_empty (teammates (values slots))) && all_settled (values slots)
    then if_idle slots (last_lead (values slots) none)
    else none

woken :
    (m : TeammateManager) (l : Option Ident) (b c : Bool)
    → c ≡ true
    → wake_lead m l (not b) true ≡ (if not b && c then if_idle m.slots l else none)
woken m none b c e = ground arith
woken m (some l) b c e = ground (arith, e)

not_woken :
    (m : TeammateManager) (l : Option Ident) (h u b c : Bool) (o : Option Ident)
    → u ≡ false
    → c ≡ false
    → wake_lead m l h u ≡ (if b && c then o else none)
not_woken m none h u b c o e f = ground arith
not_woken m (some l) h u b c o e f = ground (arith, e, f)

-- The loop that looks for work left to the teammates, and stops at the first that it finds, decides as
-- its description does: the lead is to be woken if there are teammates, all are settled, and the lead
-- is idle.
pub maybe_wake-lead_to_wake :
    (m : TeammateManager) → maybe_wake_leader_when_all_idle m ≡ lead_to_wake m.slots
unfolding maybe_wake_leader_when_all_idle
maybe_wake-lead_to_wake m = elim (Bool-cases (all_settled (values m.slots))) [
  | inl e ↦
      ap (λ (x : Option Ident × Bool × Bool). wake_lead m x.0 x.2 x.1)
        (scan-settled (values m.slots) none false e)
      ∙ woken m (last_lead (values m.slots) none) (is_empty (teammates (values m.slots))) _ e
  | inr e ↦ not_woken m _ _ _ _ _ _ (scan-unsettled (values m.slots) none false e) e
]

-- A member as it stands.
abbrev pub status_at : Ident → TeammateManager → Option TeammateStatus
status_at slot_id m = map_option (λ (s : AgentSlot). s.status) (get slot_id m.slots)

pub put_status_lem :
    (slot_id : Ident) (status : TeammateStatus) (slot : AgentSlot) (m : TeammateManager)
    → get slot_id m.slots ≡ some slot
    → get slot_id (modify slot_id (put_status status) m.slots) ≡ some (put_status status slot)
put_status_lem slot_id status slot m e =
    ground (arith, e, get-modify slot_id slot_id (put_status status) m.slots)

pub set_status_lem :
    (slot_id : Ident) (status : TeammateStatus) (slot : AgentSlot) (m : TeammateManager)
    → get slot_id m.slots ≡ some slot
    → set_status slot_id status m ≡ (
      ok tt,
      broadcast
          (TeamEvent.agent_status slot_id status (shown_message status slot))
          (record m { slots = modify slot_id (put_status status) m.slots }),
    )
unfolding set_status
set_status_lem slot_id status slot m e = rw (set_status, e) refl

module _ {Value : Type 0} (json : Json Value) where
  tell_lead_lem :
      (now slot_id : Ident) (summary : Option String) (l : Option Ident) (m : TeammateManager)
      → ((tell_lead json now slot_id summary l m).0 ≡ ok tt)
        × ((tell_lead json now slot_id summary l m).1.slots ≡ m.slots)
  unfolding write write_with_files from_row draft_row parse to_string
  tell_lead_lem now slot_id summary none m = (refl, refl)
  tell_lead_lem now slot_id summary (some l) m = elim (Bool-cases (l == slot_id)) [
    | inl e ↦ rw e (refl, refl)
    | inr e ↦ rw e (refl, refl)
  ]

  abbrev idled : Ident → AgentSlot → TeammateManager → TeammateManager
  idled slot_id slot m =
      broadcast
        (TeamEvent.agent_status slot_id TeammateStatus.idle
          (shown_message TeammateStatus.idle slot))
        (record m { slots = modify slot_id (put_status TeammateStatus.idle) m.slots })

  mark_idle_lem :
      (now slot_id : Ident) (summary : Option String) (slot : AgentSlot) (m : TeammateManager)
      → get slot_id m.slots ≡ some slot
      → is_lead slot.agent.role ≡ false
      → mark_idle json now slot_id summary m ≡ (
          let (told, after) =
            tell_lead json now slot_id summary
              (find_lead_slot_id (idled slot_id slot m))
              (idled slot_id slot m) in
          (told >>= (λ x. ok (maybe_wake_leader_when_all_idle after)), after))
  unfolding mark_idle
  mark_idle_lem now slot_id summary slot m e f =
      let set = set_status_lem slot_id TeammateStatus.idle slot m e in
      rw (mark_idle, set, set, put_status_lem slot_id TeammateStatus.idle slot m e, f, set) refl

  -- A teammate that reports itself idle is idle, and the lead is woken exactly if the state that this
  -- leaves calls for it.
  pub mark_idle-wakes :
      (now slot_id : Ident) (summary : Option String) (slot : AgentSlot) (m : TeammateManager)
      → get slot_id m.slots ≡ some slot
      → is_lead slot.agent.role ≡ false
      → ((mark_idle json now slot_id summary m).0
          ≡ ok (lead_to_wake (mark_idle json now slot_id summary m).1.slots))
        × (status_at slot_id (mark_idle json now slot_id summary m).1 ≡ some TeammateStatus.idle)
  mark_idle-wakes now slot_id summary slot m e f =
      let (told, same) =
        tell_lead_lem now slot_id summary (find_lead_slot_id (idled slot_id slot m))
          (idled slot_id slot m) in
      rw (mark_idle_lem now slot_id summary slot m e f, told)
        (
          ap (λ x. ok x) (maybe_wake-lead_to_wake _),
          ap (λ (s : Map AgentSlot). map_option (λ (x : AgentSlot). x.status) (get slot_id s)) same
              ∙ ap (λ o. map_option (λ (x : AgentSlot). x.status) o)
                  (put_status_lem slot_id TeammateStatus.idle slot m e),
        )
