-- ===== src/Session/Prepare.antt =====
-- crates/team/src/session.rs, `prepare_next_batch`: what a slot is to do next, from the state of its
-- runtime, its mailbox and its queues. The text of the prompt, and the choice of the tools' transport,
-- which asks the service, are not modelled. The identifiers that `reconcile_mailbox` and `next`
-- generate are arguments.
use team_lite.Base.{Ident, Bool, List, if◌then◌else◌, ℕ, keep, mem, is_empty, not, ◌==◌, map}
use team_lite.Coordinator.Model.{RuntimeConstraint, WorkBatch, TeamRunTargetRole, ReconcileDecision}
use team_lite.Coordinator.Slots.{CoordinatorState}
use team_lite.Mailbox.{MailboxMessage}
use team_lite.Mailbox
use team_lite.Store
use team_lite.MemberRuntime.Model.{MemberRuntimeSnapshot, Registry}
use team_lite.Scheduler.Model.{TeammateManager, TeammateRole, TeamAgent, get_agent}
use team_lite.TeamRun.Manager.{TeamRunState}
use team_lite.Scheduler.State.{Json, take_needs_role_prompt}
use team_lite.Coordinator.Runtime.{set_runtime_constraint}
use team_lite.Errors.{Result, err, ok, panicked}
use team_lite.MemberRuntime.Registry.{snapshot}
use team_lite.Session.{publish}
use team_lite.Coordinator.Mailbox.{reconcile_mailbox}
use team_lite.Coordinator.Batches.{next}

pub record WakeInput : Type 0 where
  pub conversation_id : Ident
  pub needs_role_prompt : Bool
  pub unread : List MailboxMessage
  pub agent_role : TeammateRole

pub data PrepareBatchResult : Type 0 where
  execute : WorkBatch → WakeInput → PrepareBatchResult
  settle_signals : List Ident → PrepareBatchResult
  waiting_for_completion blocked quiescent : PrepareBatchResult

-- The parts of a session, the slots whose event loop runs, and the runs that a group began.
pub record Session : Type 0 where
  pub generation : Ident
  pub work : CoordinatorState
  pub run : TeamRunState
  pub scheduler : TeammateManager
  pub runtimes : Registry
  pub event_loops : List Ident
  pub group_run_ids : List Ident

abbrev pub target_role_for : TeammateRole → TeamRunTargetRole
target_role_for TeammateRole.lead = TeamRunTargetRole.lead
target_role_for TeammateRole.teammate = TeamRunTargetRole.teammate

abbrev pub constraint_of : Bool → MemberRuntimeSnapshot → RuntimeConstraint
constraint_of has_loop MemberRuntimeSnapshot.absent =
    if has_loop then RuntimeConstraint.ready else RuntimeConstraint.starting 0
constraint_of has_loop (MemberRuntimeSnapshot.attaching op) = RuntimeConstraint.starting op
constraint_of has_loop MemberRuntimeSnapshot.ready = RuntimeConstraint.ready
constraint_of has_loop (MemberRuntimeSnapshot.failed op failure) =
    RuntimeConstraint.failed op failure.classification
constraint_of has_loop (MemberRuntimeSnapshot.removing op) = RuntimeConstraint.removing op
constraint_of has_loop MemberRuntimeSnapshot.session_stopped = RuntimeConstraint.session_stopped

abbrev pub with_messages : Store.Messages → TeammateManager → TeammateManager
with_messages messages m = record m { messages = messages }

-- `publish_runtime_constraint`, which `prepare_next_batch` repeats: the runtime constraint, from what
-- the member's runtime is; its terminal messages become read.
unfoldable pub constrain_slot : ℕ → Ident → Session → Result (Unit {0}) × Session
unfolding set_runtime_constraint snapshot Store.mark_read_batch publish
constrain_slot now slot_id st =
    let o =
      set_runtime_constraint slot_id
        (constraint_of (mem slot_id st.event_loops) (snapshot slot_id st.runtimes)) st.work in
    let st' : Session = record st {
      work = o.state;
      run = (publish st.scheduler.team_id now o.published st.run).0;
    } in
    elim o.result [
      | err e ↦ (err e, st')
      | panicked ↦ (panicked, st')
      | ok update ↦ (
        ok tt,
        if is_empty update.terminal_message_ids then st' else record st' {
          scheduler =
              with_messages
                (Store.mark_read_batch update.terminal_message_ids st'.scheduler.messages)
                st'.scheduler;
        },
      )
    ]

module _ {Value : Type 0} (json : Json Value) (now : ℕ) (recovery_ids : ℕ → Ident)
    (batch_id : Ident) where
  -- The claimed batch, with those of its messages that are unread.
  abbrev pub execute_batch :
      Ident → TeamAgent → List MailboxMessage → WorkBatch → Session → PrepareBatchResult × Session
  execute_batch slot_id agent unread batch st =
      let (needs_role_prompt, scheduler) = take_needs_role_prompt slot_id st.scheduler in
      (
        PrepareBatchResult.execute batch (record {
          conversation_id = agent.conversation_id;
          needs_role_prompt = needs_role_prompt;
          unread = keep (λ (m : MailboxMessage). mem m.id batch.mailbox_message_ids) unread;
          agent_role = agent.role;
        }),
        record st { scheduler = scheduler },
      )

  abbrev pub decide :
      Ident
      → TeamAgent
      → List MailboxMessage
      → ReconcileDecision
      → Session
      → PrepareBatchResult × Session
  decide slot_id agent unread (ReconcileDecision.claim batch) st =
      execute_batch slot_id agent unread batch st
  decide slot_id agent unread (ReconcileDecision.settle_signals ids) st =
      (PrepareBatchResult.settle_signals ids, st)
  decide slot_id agent unread ReconcileDecision.waiting_for_completion st =
      (PrepareBatchResult.waiting_for_completion, st)
  decide slot_id agent unread (ReconcileDecision.blocked c) st = (PrepareBatchResult.blocked, st)
  decide slot_id agent unread ReconcileDecision.quiescent st = (PrepareBatchResult.quiescent, st)

  -- What follows the new constraint: the unread messages, and the next batch.
  unfoldable pub drain : Ident → TeamAgent → Session → PrepareBatchResult × Session
  unfolding Mailbox.peek_unread reconcile_mailbox next take_needs_role_prompt publish
  drain slot_id agent st =
      let unread =
        keep (λ (m : MailboxMessage). not (m.from_agent_id == slot_id))
          (Mailbox.peek_unread json.write_files json.read_files st.scheduler.team_id slot_id
            st.scheduler.messages) in
      let reconciled =
        reconcile_mailbox st.generation recovery_ids now slot_id
          (map (λ (m : MailboxMessage). m.id) unread) (target_role_for agent.role) st.work in
      let o = next st.generation batch_id slot_id reconciled.state in
      decide slot_id agent unread o.result (record st {
        work = o.state;
        run = (publish st.scheduler.team_id now o.published st.run).0;
      })

  unfoldable pub prepare_next_batch : Ident → Session → Result PrepareBatchResult × Session
  unfolding get_agent constrain_slot drain
  prepare_next_batch slot_id st = elim (get_agent slot_id st.scheduler) [
    | err e ↦ (err e, st)
    | panicked ↦ (panicked, st)
    | ok agent ↦
        let (r, st') = constrain_slot now slot_id st in
        elim r [
          | err e ↦ (err e, st')
          | panicked ↦ (panicked, st')
          | ok _ ↦ let (p, end) = drain slot_id agent st' in (ok p, end)
        ]
  ]
