-- ===== src/Session/Enqueue.antt =====
-- crates/team/src/session.rs, `commit_persisted_enqueue`: a stored message becomes work, or is
-- settled.
use team_lite.Base.{Ident, ℕ, Option, none, some, [], ◌∷◌}
use team_lite.Errors.{Result, ok, err, panicked}
use team_lite.Coordinator.Model.{EnqueueLease, EnqueueCommit, RunBinding}
use team_lite.Coordinator.Enqueue.{commit_enqueue, abort_enqueue}
use team_lite.TeamRun.Manager.{TeamRunState, abort_binding}
use team_lite.Session.{publish}
use team_lite.Session.Prepare.{Session, with_messages}
use team_lite.Store.{mark_read_batch}

abbrev abort_bound : Option RunBinding → TeamRunState → TeamRunState
abort_bound none run = run
abort_bound (some binding) run = abort_binding binding run

-- `abort_enqueue` with what it asks of the run manager.
unfoldable pub abort_lease : ℕ → EnqueueLease → Session → Session
unfolding abort_enqueue publish abort_binding
abort_lease now lease st =
    let a = abort_enqueue st.generation lease st.work in
    record st {
      work = a.state;
      run = (publish st.scheduler.team_id now a.published (abort_bound a.result.1 st.run)).0;
    }

unfoldable pub commit_persisted_enqueue :
    ℕ → Ident → EnqueueLease → Ident → Session → Result EnqueueCommit × Session
unfolding commit_enqueue abort_lease mark_read_batch publish
commit_persisted_enqueue now intent_id lease mailbox_message_id st =
    let o = commit_enqueue st.generation lease (some mailbox_message_id) intent_id now st.work in
    let st' : Session = record st {
      work = o.state;
      run = (publish st.scheduler.team_id now o.published st.run).0;
    } in
    elim o.result [
      | ok commit ↦ (ok commit, st')
      | panicked ↦ (panicked, st')
      | err e ↦
          let aborted = abort_lease now lease st' in
          (
            err e,
            record aborted {
              scheduler =
                  with_messages
                    (mark_read_batch (mailbox_message_id ∷ []) aborted.scheduler.messages)
                    aborted.scheduler;
            },
          )
    ]
