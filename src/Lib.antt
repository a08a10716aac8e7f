-- ===== src/Lib.antt =====
-- Verification of the core of the team server: how work for the members of a team is queued,
-- claimed, worked on, and ended.
--
-- The program. A team session gives each member, a slot, a queue of work. A caller takes an enqueue
-- lease, stores its message, and commits the lease, which files an intent. The slot's driver asks
-- the coordinator for the next batch, starts a turn of the agent with it, and reports how the turn
-- ended. Intents may belong to a run of the team, whose status follows the summaries that the
-- coordinator publishes after each operation. A user may cancel the run, pause or remove a slot, or
-- stop the session.
--
-- The files.
--   Errors: crates/team/src/error.rs, the errors that the modelled operations return, and a result
--     type in which a failed `expect` is a value of its own.
--   Coordinator: crates/team/src/work_coordinator. Source models work_source.rs, Model model.rs,
--     Snapshot snapshot.rs; Slots, Enqueue, Batches, Mailbox, Cancel and Runtime model
--     coordinator.rs, in its order, one function per method, named as the method. Each returns an
--     `Outcome`: the result, the state under the lock, and the summaries that are published once
--     the lock is released.
--   Coordinator/Views, Invariant and Filing: what the queues and the batches of the slots say of an
--     intent, beside what its own state says; and that maps are filed under their keys.
--   Coordinator/Preserve: each operation and these invariants. Coordinator/Trace: histories of
--     calls.
--   Coordinator/Selection, Retry, Ownership, Acceptance, Leases, Unread, Shutdown, Summary: what the operations
--     promise. Trace/Spent and Once follow a lease that is used up through the histories.
--   TeamRun: crates/team/src/team_run/manager.rs, with the types of crates/api-types/src/team.rs
--     that it sends. Record is a run, Payload what is sent about it, Manager has one function per
--     method; Binding has its laws.
--   Session: crates/team/src/session.rs, `cancel_run`, as far as it changes the states of the
--     coordinator and of the run manager.
--   Session/Prepare: `prepare_next_batch` of the same file, which composes the runtimes of the
--     members, the mailbox and the coordinator; Readiness and Offers have its law.
--   Session/Enqueue: `commit_persisted_enqueue` of the same file; Refusals has its law.
--     Session/Messages: the methods that give a member work, `send_agent_message_from_agent`,
--     `shutdown_agent` and `enqueue_existing_work`; UserMessages: `enqueue_user_message` and the
--     methods that call it; Admission and Unavailable have their law. A change of a runtime's
--     constraint, `publish_runtime_constraint`, is the same code in `prepare_next_batch` and stands
--     in Prepare.
--   Store: crates/store/src/team_repo.rs, the messages of the in-memory repository.
--   Mailbox: crates/team/src/mailbox.rs over that repository, with the message types of types.rs;
--     Delivery and Cancellation have its laws. `serde_json` is a parameter.
--   Store/Tasks: the tasks of the same repository.
--   TaskBoard: crates/team/src/task_board.rs over that repository, with the task types of types.rs.
--     Rows and Links say what a write does to the rows and to their links; Dependencies, Completion
--     and Unblocking have the laws. `serde_json` is a parameter.
--   Scheduler: crates/team/src/scheduler. Model has mod.rs and the members' types of types.rs,
--     Names the texts of names and previews, State models state.rs, wake.rs and dedup.rs with the
--     task that it spawns, Lifecycle agent_lifecycle.rs, Actions actions.rs, Recovery
--     crash_recovery.rs, over the mailbox and the task board; Waking, Wakes, Naming, Turns,
--     Crashes and Texts have the laws.
--   MemberRuntime: crates/team/src/member_runtime.rs. Model has the types, Registry one function
--     per method; a watch channel is an address in a store of signals. History has the calls and
--     the ways in which they change the registry, Changes shows that there are no others;
--     Invariant, Closing and Preserve keep the registry in order; Phases, Outcomes, Spent, Refusals
--     and Leases have its laws.
--   Examples: one message of one slot, followed through all of them; one mailbox; two agents of a
--     registry; a board of two tasks; and a team of two members, with its session.
--
-- The correspondence. A method of an object behind a lock is a function from the state to the
-- state; each call of the coordinator, the run manager and the registry is one step, since the lock
-- is held from its start to its end. The methods of the scheduler and the session that take locks
-- more than once run here without interference, but for `try_wake`, which is split at its locks:
-- Scheduler/Wake has its steps, and Wakes two attempts that come between each other. The run
-- manager is called by the coordinator through an interface: `bind_enqueue` is a parameter of
-- `acquire_enqueue`, `abort_binding` is asked for in the result of `abort_enqueue`, and
-- `apply_work_summary` is applied to the published summaries. Identifiers are strings in the code,
-- which are compared for equality and, in ordered maps, by order; here they are natural numbers. An
-- identifier that the code generates, and the time, are arguments; where a theorem needs a
-- generated identifier to be new, it says so. A map is a list of entries with rising keys. The
-- code's hash maps have no order of their own: where it iterates over one, the model goes by key.
-- `next_operation_id` is a 64-bit number that saturates in the coordinator and wraps in the
-- registry of the runtimes, and the model's does so at the same bounds. All loops of the code run
-- over finite collections and are recursions on lists, without fuel.
--
-- Not modelled: logging; serialization; the agents and their protocol; the text of prompts; teams
-- in the stores; the background task that waits for the agent's events after a wake; the service,
-- its routes and its tools; the drivers of the slots, whose calls are the steps of the histories;
-- the other methods of the session.
pub mod Base
pub mod Errors
pub mod Coordinator
pub mod TeamRun
pub mod Session
pub mod Store
pub mod Mailbox
pub mod TaskBoard
pub mod Scheduler
pub mod MemberRuntime
pub mod Examples
