-- ===== src/Session/Unavailable.antt =====
-- crates/team/src/session.rs: work for a member whose runtime takes none.
use team_lite.Coordinator.Model.{EnqueueRequest, EnqueueLease, CausalBinding, TeamRunTargetRole}
use team_lite.Session.Prepare.{constrain_slot, Session}
use team_lite.Errors.{Result}
use team_lite.Session.Messages.{
  acquire_lease, try_then, send_agent_message_from_agent, shutdown_agent, enqueue_existing_work,
}
use team_lite.Base.{
  ℕ, Bool, ◌≡◌, Ident, List, false, Bool-cases, inl, refl, inr, String, ◌∙◌, Option,
}
use team_lite.Session.Offers.{runtime_of, constrain_slot-held}
use team_lite.Scheduler.State.{Json}
use team_lite.Coordinator.Source.{WorkSource}
use team_lite.Scheduler.Model.{get_agent, is_lead}
use team_lite.Session.UserMessages.{enqueue_user_message}
use team_lite.Coordinator.Acceptance.{takes_work}
use team_lite.Session.Admission.{
  message_count, Refused, stop, after, count-constrain_slot, acquire_lease-refused,
}

-- No lease is given once the slot has the constraint.
constrained-lease :
    {B : Type 0} (now : ℕ) (run_id lease_id : Ident) (r : EnqueueRequest) (st : Session)
    (f : EnqueueLease → Session → Result B × Session)
    → takes_work (runtime_of r.slot_id st) ≡ false
    → Refused
        (message_count st)
        (try_then (acquire_lease run_id lease_id r (constrain_slot now r.slot_id st).1) f)
constrained-lease now run_id lease_id r st f h =
    let st' : Session = (constrain_slot now r.slot_id st).1 in
    let acquired =
      acquire_lease-refused run_id lease_id r st' (runtime_of r.slot_id st)
        (constrain_slot-held now r.slot_id st) h in
    stop (message_count st) (acquire_lease run_id lease_id r st') f
      (acquired.0, acquired.1 ∙ count-constrain_slot now r.slot_id st)

constrained-refused :
    {B : Type 0} (now : ℕ) (run_id lease_id : Ident) (r : EnqueueRequest) (st : Session)
    (f : EnqueueLease → Session → Result B × Session)
    → takes_work (runtime_of r.slot_id st) ≡ false
    → Refused (message_count st) (
        try_then
          (constrain_slot now r.slot_id st)
          (λ u st'. try_then (acquire_lease run_id lease_id r st') f))
constrained-refused now run_id lease_id r st f h =
    after (message_count st) (constrain_slot now r.slot_id st) _
      (count-constrain_slot now r.slot_id st) (λ u. constrained-lease now run_id lease_id r st f h)

module _ {Value : Type 0} (json : Json Value) (to_lowercase : String → String) (now : ℕ)
    (run_id lease_id intent_id user no_lead : Ident) where
  -- A member whose runtime has failed, is being removed or has stopped is given no work, neither by a
  -- message of a member or of the user, nor by a shutdown, nor from what is stored: the method does
  -- not succeed, and no message is added to the mailbox.
  pub unavailable-refused :
      (caller slot_id : Ident) (content : String) (files : Option (List String))
      (reason : Option String) (source : WorkSource) (message : Option Ident)
      (binding : CausalBinding) (role : TeamRunTargetRole) (group_origin : Bool) (st : Session)
      → takes_work (runtime_of slot_id st) ≡ false
      → Refused (message_count st) (
          send_agent_message_from_agent json to_lowercase now run_id lease_id intent_id caller
            slot_id content files st)
        × Refused (message_count st) (
            shutdown_agent json to_lowercase now run_id lease_id intent_id caller slot_id reason st)
        × Refused (message_count st) (
            enqueue_existing_work json to_lowercase now run_id lease_id intent_id slot_id source
              message binding st)
        × Refused (message_count st) (
            enqueue_user_message json to_lowercase now run_id lease_id intent_id user no_lead
              slot_id role content files group_origin st)
  unfolding send_agent_message_from_agent shutdown_agent enqueue_existing_work enqueue_user_message
  unavailable-refused caller slot_id content files reason source message binding role group_origin
        st h =
      let n : ℕ = message_count st in
      (
        after n (get_agent slot_id st.scheduler, st) _ refl
            (λ to_agent.
              after n (get_agent caller st.scheduler, st) _ refl
                (λ from_agent. constrained-refused now run_id lease_id _ st _ h)),
        after n (get_agent caller st.scheduler, st) _ refl
            (λ caller_agent. elim (Bool-cases (is_lead caller_agent.role)) [
              | inl e ↦ rw e (
                  after n (get_agent slot_id st.scheduler, st) _ refl
                    (λ target. elim (Bool-cases (is_lead target.role)) [
                      | inl t ↦ rw t (refl, refl)
                      | inr t ↦ rw t (constrained-refused now run_id lease_id _ st _ h)
                    ]))
              | inr e ↦ rw e (refl, refl)
            ]),
        after n (get_agent slot_id st.scheduler, st) _ refl
            (λ agent. constrained-refused now run_id lease_id _ st _ h),
        after n (constrain_slot now slot_id st) _ (count-constrain_slot now slot_id st) (λ u.
            after n (get_agent slot_id (constrain_slot now slot_id st).1.scheduler, _) _
              (count-constrain_slot now slot_id st)
              (λ agent. constrained-lease now run_id lease_id _ st _ h)),
      )
