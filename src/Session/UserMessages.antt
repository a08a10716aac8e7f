-- ===== src/Session/UserMessages.antt =====
-- crates/team/src/session.rs: a message of the user, `enqueue_user_message` and the methods that call
-- it. As in Messages, without the projection and the notice. `user` is the sender "user", and
-- `no_lead` the text that stands for the missing agent where the team has no lead.
use team_lite.Base.{
  none, some, if◌then◌else◌, mem, Ident, Bool, List, Option, String, ◌∷◌, any, ℕ, false, true,
  is_some,
}
use team_lite.Scheduler.State.{Json}
use team_lite.Coordinator.Model.{
  EnqueueDisposition, EnqueueCommit, TeamRunTargetRole, CausalBinding,
}
use team_lite.Session.Prepare.{Session, constrain_slot, target_role_for}
use team_lite.TeamRun.Payload.{TeamRunPayload}
use team_lite.TeamRun.Manager.{current_active_run_id, current_payload, TeamRunState}
use team_lite.Scheduler.Model.{find_lead_slot_id, get_agent}
use team_lite.Errors.{Result, err, TeamError, RequestFault, ok}
use team_lite.Coordinator.Snapshot.{snapshot}
use team_lite.Session.Messages.{try_then, acquire_lease, write_message_to, or_abort}
use team_lite.Coordinator.Source.{WorkSource}
use team_lite.Session.Enqueue.{commit_persisted_enqueue}

pub data TeamMessageEnqueueStatus : Type 0 where
  accepted queued blocked_runtime_starting : TeamMessageEnqueueStatus

pub record TeamRunAckResponse : Type 0 where
  pub enqueue_status : TeamMessageEnqueueStatus
  pub message_id : Ident
  pub run : TeamRunPayload

abbrev pub enqueue_status_of : EnqueueDisposition → TeamMessageEnqueueStatus
enqueue_status_of EnqueueDisposition.accepted = TeamMessageEnqueueStatus.accepted
enqueue_status_of EnqueueDisposition.queued = TeamMessageEnqueueStatus.queued
enqueue_status_of EnqueueDisposition.blocked_runtime_starting =
    TeamMessageEnqueueStatus.blocked_runtime_starting

unfoldable pub mark_group_run : Ident → Session → Session
mark_group_run run_id st =
    if mem run_id st.group_run_ids
    then st
    else record st { group_run_ids = run_id ∷ st.group_run_ids }

unfoldable pub is_group_run_batch : List Ident → Session → Bool
is_group_run_batch run_ids st = any (λ (i : Ident). mem i st.group_run_ids) run_ids

abbrev pub mark_group : Bool → Option Ident → Session → Session
unfolding mark_group_run
mark_group true (some run_id) st = mark_group_run run_id st
mark_group _ _ st = st

-- A user who writes while a run is active intervenes in it.
unfoldable pub user_source : TeamRunState → WorkSource
unfolding current_active_run_id
user_source run =
    if is_some (current_active_run_id run)
    then WorkSource.user_intervention
    else WorkSource.user_message

module _ {Value : Type 0} (json : Json Value) (to_lowercase : String → String) (now : ℕ)
    (run_id lease_id intent_id user no_lead : Ident) where
  -- The answer, from the coordinator's view of the work.
  abbrev pub acknowledge :
      Bool → Ident → EnqueueCommit → Session → Result TeamRunAckResponse × Session
  unfolding mark_group current_payload snapshot
  acknowledge group_origin message_id commit st =
      let st' = mark_group group_origin commit.team_run_id st in
      elim (current_payload st'.scheduler.team_id now (snapshot st'.generation st'.work) st'.run) [
        | none ↦ (err (TeamError.invalid_request RequestFault.lost_team_run), st')
        | some run ↦ (
          ok (record {
            enqueue_status = enqueue_status_of commit.disposition;
            message_id = message_id;
            run = run;
          }),
          st',
        )
      ]

  unfoldable pub enqueue_user_message :
      Ident
      → TeamRunTargetRole
      → String
      → Option (List String)
      → Bool
      → Session
      → Result TeamRunAckResponse × Session
  unfolding get_agent constrain_slot acquire_lease write_message_to commit_persisted_enqueue
      user_source
  enqueue_user_message slot_id role content files group_origin st =
      try_then (constrain_slot now slot_id st) (λ u st0.
        try_then (get_agent slot_id st0.scheduler, st0)
          (λ agent st1.
            try_then
              (acquire_lease run_id lease_id
                (record {
                  slot_id = slot_id;
                  role = role;
                  source = user_source st1.run;
                  binding = CausalBinding.user_visible;
                })
                st1)
              (λ lease st2.
                try_then
                  (or_abort now lease (
                    write_message_to json to_lowercase now run_id lease_id intent_id user slot_id
                      content files st2))
                  (λ message st3.
                    try_then (commit_persisted_enqueue now intent_id lease message.id st3)
                      (λ commit st4. acknowledge group_origin message.id commit st4)))))

  unfoldable pub send_message :
      String → Option (List String) → Session → Result TeamRunAckResponse × Session
  unfolding find_lead_slot_id enqueue_user_message
  send_message content files st = elim (find_lead_slot_id st.scheduler) [
    | none ↦ (err (TeamError.agent_not_found no_lead), st)
    | some lead ↦ enqueue_user_message lead TeamRunTargetRole.lead content files false st
  ]

  -- `send_message_to_agent`, and for a group `send_group_message_to_agent`.
  abbrev pub send_to_agent :
      Bool → Ident → String → Option (List String) → Session → Result TeamRunAckResponse × Session
  unfolding get_agent enqueue_user_message
  send_to_agent group_origin slot_id content files st =
      try_then (get_agent slot_id st.scheduler, st)
        (λ agent st'.
          enqueue_user_message slot_id (target_role_for agent.role) content files group_origin st')

  unfoldable pub send_message_to_agent :
      Ident → String → Option (List String) → Session → Result TeamRunAckResponse × Session
  unfolding send_to_agent
  send_message_to_agent slot_id content files st = send_to_agent false slot_id content files st

  unfoldable pub send_group_message_to_agent :
      Ident → String → Option (List String) → Session → Result TeamRunAckResponse × Session
  unfolding send_to_agent
  send_group_message_to_agent slot_id content files st = send_to_agent true slot_id content files st
