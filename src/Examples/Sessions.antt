-- ===== src/Examples/Sessions.antt =====
-- The properties of the session, at the team of Teams.
use team_lite.MemberRuntime.Registry
use team_lite.Examples.Scenario
use team_lite.Session.UserMessages.{enqueue_user_message}
use team_lite.Coordinator.Model.{TeamRunTargetRole, RuntimeConstraint, CausalBinding}
use team_lite.Base.{true, false, some, [], ◌∷◌, ◌≡◌, refl, none, ◌+◌, insert}
use team_lite.Session.Offers.{prepare-unready, starts_work}
use team_lite.Session.Prepare.{prepare_next_batch, Session}
use team_lite.MemberRuntime.Registry.{reserve_attach, snapshot, begin_remove}
use team_lite.Coordinator.Trace.{perform, Call}
use team_lite.Errors.{TeamError, RequestFault}
use team_lite.Scheduler.Model.{new}
use team_lite.Store.{MessageRow}
use team_lite.Session.Enqueue.{commit_persisted_enqueue}
use team_lite.Session.Refusals.{owned, is_waiting, commit_persisted-refused}
use team_lite.Examples.Teams.{team, texts}
use team_lite.Session.Unavailable.{unavailable-refused}
use team_lite.Session.Admission.{Refused, message_count}
use team_lite.Session.Messages.{
  send_agent_message_from_agent, shutdown_agent, enqueue_existing_work,
}
use team_lite.Coordinator.Source.{WorkSource}

-- A slot with queued work, whose runtime is being attached.
abbrev session : Session
unfolding new reserve_attach
session = record {
  generation = 1;
  work = Scenario.enqueued;
  run = none;
  scheduler = team;
  runtimes = (reserve_attach 1 false (Registry.new 1)).1;
  event_loops = [];
  group_run_ids = [];
}

prepare-unready_example :
    starts_work (prepare_next_batch texts 60 (λ n. 400 + n) 300 1 session).0 ≡ false
unfolding new reserve_attach snapshot Registry.new insert
prepare-unready_example = prepare-unready texts 60 (λ n. 400 + n) 300 1 session refl

abbrev waiting_message : MessageRow
waiting_message = record {
  id = 50;
  team_id = 9;
  to_agent_id = 1;
  from_agent_id = 2;
  msg_type = "message";
  content = "hello";
  summary = none;
  files = none;
  read = false;
  created_at = 10;
}

-- The slot's runtime stops while a message is on its way, under the lease.
abbrev stopping : Session
stopping = record session {
  work = perform 1 (Call.constrain 1 RuntimeConstraint.session_stopped) Scenario.leased;
  scheduler = record team { messages = waiting_message ∷ [] };
}

commit_persisted-refused_example :
    ((commit_persisted_enqueue 60 400 Scenario.lease 50 stopping).1.work.intents
      ≡ stopping.work.intents)
    × (owned 1 Scenario.lease (commit_persisted_enqueue 60 400 Scenario.lease 50 stopping).1.work
        ≡ false)
    × (is_waiting 50
          (commit_persisted_enqueue 60 400 Scenario.lease 50 stopping).1.scheduler.messages
        ≡ false)
unfolding commit_persisted_enqueue team_lite.Coordinator.Enqueue.check_commit perform
    team_lite.Coordinator.Runtime.set_runtime_constraint insert
    team_lite.Coordinator.Enqueue.acquire_enqueue team_lite.Coordinator.Enqueue.grant_lease
    team_lite.Coordinator.Slots.validate_enqueue_constraint team_lite.Coordinator.Trace.initial
    team_lite.Coordinator.Enqueue.new_lease mathlib.Core.Bool.decide
    team_lite.Coordinator.Slots.EnqueueLease-discrete native.Mathlib.Decide.ℕ_discrete
    team_lite.Coordinator.Enqueue.bind_run session
    team_lite.Coordinator.Source.requires_mailbox_message
commit_persisted-refused_example =
    commit_persisted-refused 60 400 Scenario.lease 50 stopping
      (TeamError.invalid_request (RequestFault.slot_session_stopped 1)) refl

-- The runtime of the teammate is being removed.
abbrev parting : Session
unfolding new begin_remove
parting = record session {
  runtimes = (begin_remove 2 (Registry.seed_ready 2 (Registry.new 1)).1).1;
}

unavailable-refused_example :
    Refused
      (message_count parting)
      (send_agent_message_from_agent texts (λ s. s) 60 500 501 502 1 2 "hello" none parting)
    × Refused
        (message_count parting)
        (shutdown_agent texts (λ s. s) 60 500 501 502 1 2 none parting)
    × Refused (message_count parting) (
        enqueue_existing_work texts
          (λ s. s)
          60
          500
          501
          502
          2
          WorkSource.recovery_drain
          (some 50)
          CausalBinding.background
          parting)
    × Refused (message_count parting) (
        enqueue_user_message texts
          (λ s. s)
          60
          500
          501
          502
          7
          8
          2
          TeamRunTargetRole.teammate
          "hello"
          none
          true
          parting)
unfolding begin_remove snapshot Registry.new insert parting session Registry.seed_ready
unavailable-refused_example =
    unavailable-refused texts (λ s. s) 60 500 501 502 7 8 1 2 "hello" none none
      WorkSource.recovery_drain (some 50) CausalBinding.background TeamRunTargetRole.teammate true
      parting refl
