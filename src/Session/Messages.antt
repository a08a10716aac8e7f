-- ===== src/Session/Messages.antt =====
-- crates/team/src/session.rs: the methods that give a member work, `send_agent_message_from_agent`,
-- `shutdown_agent` and `enqueue_existing_work`. The projection of a message, whose failure the code
-- only logs, and the notice to the event loop, are not modelled. The identifiers that are generated,
-- the time, and the lower case of a text, which the requests of the scheduler share, are arguments.
use team_lite.Mailbox
use team_lite.Base.{if◌then◌else◌, Option, ℕ, Ident, String, some, none, List, not, ◌==◌, ◌+◌}
use team_lite.Scheduler.State.{Json}
use team_lite.Session.Prepare.{Session, constrain_slot, target_role_for}
use team_lite.Coordinator.Enqueue.{acquire_enqueue, commit_enqueue}
use team_lite.Errors.{Result, ok, err, panicked, TeamError, RequestFault}
use team_lite.TeamRun.Manager.{bind_enqueue}
use team_lite.Coordinator.Model.{EnqueueLease, EnqueueCommit, EnqueueRequest, CausalBinding}
use team_lite.Scheduler.Model.{TeammateManager, get_agent, is_lead}
use team_lite.TeamRun.Payload.{TeamSlotWorkPayload, slot_payload}
use team_lite.Mailbox.{MailboxMessage, MailboxMessageType}
use team_lite.Session.Enqueue.{abort_lease, commit_persisted_enqueue}
use team_lite.Session.{publish}
use team_lite.Scheduler.Actions.{request_shutdown_agent}
use team_lite.Coordinator.Source.{WorkSource}

-- `?`: an error ends the method, with the state that it is reached in.
abbrev pub try_then :
    {A B : Type 0} → Result A × Session → (A → Session → Result B × Session) → Result B × Session
try_then (ok a, st) f = f a st
try_then (err e, st) f = (err e, st)
try_then (panicked, st) f = (panicked, st)

abbrev pub or_abort : {A : Type 0} → ℕ → EnqueueLease → Result A × Session → Result A × Session
or_abort now lease (ok a, st) = (ok a, st)
or_abort now lease (err e, st) = (err e, abort_lease now lease st)
or_abort now lease (panicked, st) = (panicked, st)

-- `acquire_enqueue` with the run manager, which is asked where the slot takes work.
unfoldable pub acquire_lease :
    Ident → Ident → EnqueueRequest → Session → Result EnqueueLease × Session
unfolding acquire_enqueue bind_enqueue
acquire_lease run_id lease_id r st =
    let o =
      acquire_enqueue st.generation (λ (q : EnqueueRequest). (bind_enqueue run_id q st.run).0)
        lease_id r st.work in
    elim o.result [
      | ok lease ↦ (ok lease, record st { work = o.state; run = (bind_enqueue run_id r st.run).1 })
      | err e ↦ (err e, record st { work = o.state })
      | panicked ↦ (panicked, record st { work = o.state })
    ]

pub record AgentMessageQueueResult : Type 0 where
  pub team_run_id : Option Ident
  pub target : TeamSlotWorkPayload

abbrev pub with_scheduler : {A : Type 0} → Session → A × TeammateManager → A × Session
with_scheduler st (a, m) = (a, record st { scheduler = m })

module _ {Value : Type 0} (json : Json Value) (to_lowercase : String → String) (now : ℕ)
    (run_id lease_id intent_id : Ident) where
  -- A message with files, under the next identifier.
  unfoldable pub write_message_to :
      Ident → Ident → String → Option (List String) → Session → Result MailboxMessage × Session
  unfolding Mailbox.write_with_files
  write_message_to from_slot_id to_slot_id content files st =
      let (r, messages) =
        Mailbox.write_with_files json.write_files json.read_files st.scheduler.next_id now
          (record {
            team_id = st.scheduler.team_id;
            to_agent_id = to_slot_id;
            from_agent_id = from_slot_id;
            msg_type = MailboxMessageType.message;
            content = content;
            summary = none;
            files = files;
          })
          st.scheduler.messages in
      (
        r,
        record st {
          scheduler = record st.scheduler {
            messages = messages;
            next_id = st.scheduler.next_id + 1;
          };
        },
      )

  unfoldable pub send_agent_message_from_agent :
      Ident
      → Ident
      → String
      → Option (List String)
      → Session
      → Result AgentMessageQueueResult × Session
  unfolding get_agent constrain_slot acquire_lease write_message_to commit_persisted_enqueue
      slot_payload
  send_agent_message_from_agent from_slot_id to_slot_id content files st =
      try_then (get_agent to_slot_id st.scheduler, st)
        (λ to_agent st0.
          try_then (get_agent from_slot_id st0.scheduler, st0)
            (λ from_agent st1. try_then (constrain_slot now to_slot_id st1) (λ u st2.
              try_then
                (acquire_lease run_id lease_id
                  (record {
                    slot_id = to_slot_id;
                    role = target_role_for to_agent.role;
                    source = WorkSource.mcp_send_message;
                    binding = CausalBinding.inherit_running_batch from_slot_id;
                  })
                  st2)
                (λ lease st3.
                  try_then
                    (or_abort now lease
                      (write_message_to from_slot_id to_slot_id content files st3))
                    (λ message st4.
                      try_then (commit_persisted_enqueue now intent_id lease message.id st4)
                        (λ commit st5. (
                          ok (record {
                            team_run_id = commit.team_run_id;
                            target = slot_payload now commit.slot;
                          }),
                          st5,
                        )))))))

  -- The message of the shutdown, written under the lease, and checked against its target.
  abbrev pub send_shutdown :
      Ident → Ident → Option String → EnqueueLease → Session → Result MailboxMessage × Session
  send_shutdown caller target reason lease st =
      try_then
        (or_abort now lease (
          with_scheduler st
            (request_shutdown_agent json to_lowercase now caller target reason st.scheduler)))
        (λ (message : MailboxMessage) (st' : Session).
          if message.to_agent_id == target then (ok message, st') else (
            err (
                TeamError.invalid_request
                  (RequestFault.shutdown_target_mismatch target message.to_agent_id)),
            abort_lease now lease st',
          ))

  unfoldable pub shutdown_agent :
      Ident → Ident → Option String → Session → Result (Unit {0}) × Session
  unfolding get_agent constrain_slot acquire_lease request_shutdown_agent commit_persisted_enqueue
      abort_lease
  shutdown_agent caller target reason st =
      try_then (get_agent caller st.scheduler, st)
        (λ caller_agent st0.
          if not (is_lead caller_agent.role)
          then (err (TeamError.leader_only "team_shutdown_agent"), st0)
          else try_then (get_agent target st0.scheduler, st0)
              (λ target_agent st1.
                if is_lead target_agent.role
                then (err (TeamError.invalid_request RequestFault.shutdown_of_lead), st1)
                else try_then (constrain_slot now target st1) (λ u st2.
                  try_then
                    (acquire_lease run_id lease_id
                      (record {
                        slot_id = target;
                        role = target_role_for target_agent.role;
                        source = WorkSource.mcp_shutdown_request;
                        binding = CausalBinding.inherit_running_batch caller;
                      })
                      st2)
                    (λ lease st3.
                      try_then (send_shutdown caller target reason lease st3) (λ message st4.
                        try_then (commit_persisted_enqueue now intent_id lease message.id st4)
                          (λ commit st5. (ok tt, st5)))))))

  -- `commit_enqueue` for work without a message.
  abbrev pub commit_signal : EnqueueLease → Session → Result EnqueueCommit × Session
  commit_signal lease st =
      let o = commit_enqueue st.generation lease none intent_id now st.work in
      or_abort now lease (
        o.result,
        record st { work = o.state; run = (publish st.scheduler.team_id now o.published st.run).0 },
      )

  abbrev pub commit_work : EnqueueLease → Option Ident → Session → Result EnqueueCommit × Session
  commit_work lease none st = commit_signal lease st
  commit_work lease (some message_id) st =
      commit_persisted_enqueue now intent_id lease message_id st

  unfoldable pub enqueue_existing_work :
      Ident → WorkSource → Option Ident → CausalBinding → Session → Result (Option Ident) × Session
  unfolding get_agent constrain_slot acquire_lease commit_enqueue abort_lease publish
      commit_persisted_enqueue
  enqueue_existing_work slot_id source mailbox_message_id binding st =
      try_then (get_agent slot_id st.scheduler, st)
        (λ agent st0. try_then (constrain_slot now slot_id st0) (λ u st1.
          try_then
            (acquire_lease run_id lease_id
              (record {
                slot_id = slot_id;
                role = target_role_for agent.role;
                source = source;
                binding = binding;
              })
              st1)
            (λ lease st2.
              try_then (commit_work lease mailbox_message_id st2)
                (λ commit st3. (ok commit.team_run_id, st3)))))
