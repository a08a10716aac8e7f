-- ===== src/MemberRuntime/Registry.antt =====
-- crates/team/src/member_runtime.rs: the methods of the registry.
use team_lite.Base.{
  Ident, ℕ, Bool, true, false, Option, none, some, [], Map, get, insert, remove, ◌==◌, ◌||◌, not,
  ◌+◌, ◌%◌, if◌then◌else◌, ◌∷◌, List, values,
}
use team_lite.MemberRuntime.Model.{
  MemberRuntimeFailure, AttachOutcome, AttachSignal, AttachWaiter, AttachLease, RemoveLease,
  ReserveAttach, BeginRemove, MemberRuntimeSnapshot, MemberRuntimeEntry, Registry,
}

unfoldable pub new : Ident → Registry
new session_generation = record {
  session_generation = session_generation;
  next_operation_id = 1;
  entries = [];
  stopped = false;
  signals = [];
  next_channel = 0;
}

abbrev pub u64_modulus : ℕ
u64_modulus = 18446744073709551616

abbrev pub waiter : ℕ → Ident → AttachWaiter
waiter operation_id outcome_rx = record { operation_id = operation_id; outcome_rx = outcome_rx }

abbrev pub set_entry : Ident → MemberRuntimeEntry → Registry → Registry
set_entry agent_id e r = record r { entries = insert agent_id e r.entries }

-- `send_replace`.
abbrev pub send : Ident → AttachOutcome → Registry → Registry
send channel outcome r = record r {
  signals = insert channel (AttachSignal.terminal outcome) r.signals;
}

-- `fetch_add` on a 64-bit counter, and `watch::channel(AttachSignal::Pending)`.
abbrev pub advance : Registry → Registry
advance r = record r {
  next_operation_id = (r.next_operation_id + 1) % u64_modulus;
  signals = insert r.next_channel AttachSignal.pending r.signals;
  next_channel = r.next_channel + 1;
}

abbrev pub seed_entry : Ident → Registry → Option MemberRuntimeEntry → Bool × Registry
seed_entry agent_id r none = (true, set_entry agent_id MemberRuntimeEntry.ready r)
seed_entry agent_id r (some MemberRuntimeEntry.ready) = (true, r)
seed_entry agent_id r (some _) = (false, r)

unfoldable pub seed_ready : Ident → Registry → Bool × Registry
seed_ready agent_id r =
    if r.stopped then (false, r) else seed_entry agent_id r (get agent_id r.entries)

-- The branch that starts an attach, in both `reserve` methods.
unfoldable pub start_attach : Ident → Registry → ReserveAttach × Registry
start_attach agent_id r = (
  ReserveAttach.start (record {
    session_generation = r.session_generation;
    agent_id = agent_id;
    waiter = waiter r.next_operation_id r.next_channel;
  }),
  set_entry agent_id (MemberRuntimeEntry.attaching r.next_operation_id r.next_channel) (advance r),
)

abbrev pub attach_entry :
    Bool → Ident → Registry → Option MemberRuntimeEntry → ReserveAttach × Registry
attach_entry retry_failed agent_id r none = start_attach agent_id r
attach_entry retry_failed agent_id r (some (MemberRuntimeEntry.attaching op tx)) =
    (ReserveAttach.join (waiter op tx), r)
attach_entry retry_failed agent_id r (some MemberRuntimeEntry.ready) =
    (ReserveAttach.already_ready, r)
attach_entry retry_failed agent_id r (some (MemberRuntimeEntry.failed op failure tx)) =
    if not retry_failed then (ReserveAttach.join (waiter op tx), r) else start_attach agent_id r
attach_entry retry_failed agent_id r (some (MemberRuntimeEntry.removing op tx)) =
    (ReserveAttach.removing (waiter op tx), r)

unfoldable pub reserve_attach : Ident → Bool → Registry → ReserveAttach × Registry
unfolding start_attach
reserve_attach agent_id retry_failed r =
    if r.stopped
    then (ReserveAttach.session_stopped, r)
    else attach_entry retry_failed agent_id r (get agent_id r.entries)

abbrev pub repair_entry : Ident → Registry → Option MemberRuntimeEntry → ReserveAttach × Registry
repair_entry agent_id r none = start_attach agent_id r
repair_entry agent_id r (some (MemberRuntimeEntry.attaching op tx)) =
    (ReserveAttach.join (waiter op tx), r)
repair_entry agent_id r (some MemberRuntimeEntry.ready) = start_attach agent_id r
repair_entry agent_id r (some (MemberRuntimeEntry.failed op failure tx)) =
    (ReserveAttach.join (waiter op tx), r)
repair_entry agent_id r (some (MemberRuntimeEntry.removing op tx)) =
    (ReserveAttach.removing (waiter op tx), r)

unfoldable pub reserve_repair : Ident → Registry → ReserveAttach × Registry
unfolding start_attach
reserve_repair agent_id r =
    if r.stopped
    then (ReserveAttach.session_stopped, r)
    else repair_entry agent_id r (get agent_id r.entries)

-- The channel of the attach that the lease is for, if it is the agent's current one.
abbrev pub attach_channel : ℕ → Option MemberRuntimeEntry → Option Ident
attach_channel op (some (MemberRuntimeEntry.attaching current tx)) =
    if current == op then some tx else none
attach_channel op _ = none

-- The guards that `owns_attach`, `commit_ready` and `commit_failed` share.
abbrev pub owned_attach : AttachLease → Registry → Option Ident
owned_attach lease r =
    if not (lease.session_generation == r.session_generation) || r.stopped
    then none
    else attach_channel lease.waiter.operation_id (get lease.agent_id r.entries)

unfoldable pub owns_attach : AttachLease → Registry → Bool
owns_attach lease r = elim (owned_attach lease r) [ none ↦ false | some tx ↦ true ]

unfoldable pub commit_ready : AttachLease → Registry → Bool × Registry
commit_ready lease r = elim (owned_attach lease r) [
  | none ↦ (false, r)
  | some tx ↦
      (true, send tx AttachOutcome.ready (set_entry lease.agent_id MemberRuntimeEntry.ready r))
]

unfoldable pub commit_failed : AttachLease → MemberRuntimeFailure → Registry → Bool × Registry
commit_failed lease failure r = elim (owned_attach lease r) [
  | none ↦ (false, r)
  | some tx ↦ (
    true,
    send tx (AttachOutcome.failed failure) (
        set_entry lease.agent_id (MemberRuntimeEntry.failed lease.waiter.operation_id failure tx)
          r),
  )
]

-- The new removal; the channel of an attach that it cancels is told.
unfoldable pub start_remove : Ident → Option Ident → Registry → BeginRemove × Registry
start_remove agent_id cancelled r =
    let r' : Registry =
      set_entry agent_id (MemberRuntimeEntry.removing r.next_operation_id r.next_channel)
        (advance r) in
    (
      BeginRemove.start (record {
        session_generation = r.session_generation;
        agent_id = agent_id;
        operation_id = r.next_operation_id;
      }),
      elim cancelled [ none ↦ r' | some tx ↦ send tx AttachOutcome.removed r' ],
    )

-- An absent entry has nothing to remove.
abbrev pub remove_entry : Ident → Registry → Option MemberRuntimeEntry → BeginRemove × Registry
remove_entry agent_id r none = (BeginRemove.absent, r)
remove_entry agent_id r (some (MemberRuntimeEntry.removing op tx)) =
    (BeginRemove.join (waiter op tx), r)
remove_entry agent_id r (some (MemberRuntimeEntry.attaching op tx)) =
    start_remove agent_id (some tx) r
remove_entry agent_id r (some (MemberRuntimeEntry.failed op failure tx)) =
    start_remove agent_id none r
remove_entry agent_id r (some MemberRuntimeEntry.ready) = start_remove agent_id none r

unfoldable pub begin_remove : Ident → Registry → BeginRemove × Registry
unfolding start_remove
begin_remove agent_id r =
    if r.stopped
    then (BeginRemove.session_stopped, r)
    else remove_entry agent_id r (get agent_id r.entries)

abbrev pub remove_channel : ℕ → Option MemberRuntimeEntry → Option Ident
remove_channel op (some (MemberRuntimeEntry.removing current tx)) =
    if current == op then some tx else none
remove_channel op _ = none

abbrev pub owned_remove : RemoveLease → Registry → Option Ident
owned_remove lease r =
    if not (lease.session_generation == r.session_generation) || r.stopped
    then none
    else remove_channel lease.operation_id (get lease.agent_id r.entries)

unfoldable pub finish_remove : RemoveLease → Registry → Bool × Registry
finish_remove lease r = elim (owned_remove lease r) [
  | none ↦ (false, r)
  | some tx ↦
      (true, send tx AttachOutcome.removed (record r { entries = remove lease.agent_id r.entries }))
]

unfoldable pub restore_attach_required :
    RemoveLease → MemberRuntimeFailure → Registry → Bool × Registry
restore_attach_required lease failure r = elim (owned_remove lease r) [
  | none ↦ (false, r)
  | some tx ↦ (
    true,
    send tx (AttachOutcome.failed failure)
        (set_entry lease.agent_id (MemberRuntimeEntry.failed lease.operation_id failure tx) r),
  )
]

unfoldable pub snapshot : Ident → Registry → MemberRuntimeSnapshot
snapshot agent_id r =
    if r.stopped then MemberRuntimeSnapshot.session_stopped else elim (get agent_id r.entries) [
      | none ↦ MemberRuntimeSnapshot.absent
      | some (MemberRuntimeEntry.attaching op tx) ↦ MemberRuntimeSnapshot.attaching op
      | some MemberRuntimeEntry.ready ↦ MemberRuntimeSnapshot.ready
      | some (MemberRuntimeEntry.failed op failure tx) ↦ MemberRuntimeSnapshot.failed op failure
      | some (MemberRuntimeEntry.removing op tx) ↦ MemberRuntimeSnapshot.removing op
    ]

-- The channel that the entry's operation has still to answer.
abbrev pub open_channel : MemberRuntimeEntry → Option Ident
open_channel (MemberRuntimeEntry.attaching op tx) = some tx
open_channel (MemberRuntimeEntry.removing op tx) = some tx
open_channel _ = none

-- The loop over the drained entries.
unfoldable pub close_all : List MemberRuntimeEntry → Map AttachSignal → Map AttachSignal
close_all [] signals = signals
close_all (e ∷ es) signals = close_all es (elim (open_channel e) [
  | none ↦ signals
  | some tx ↦ insert tx (AttachSignal.terminal AttachOutcome.session_stopped) signals
])

unfoldable pub stop : Registry → Bool × Registry
unfolding close_all
stop r = if r.stopped then (false, r) else (
  true,
  record r { stopped = true; entries = []; signals = close_all (values r.entries) r.signals },
)

-- What `wait` returns for what the channel holds, or `none` while the outcome is pending. The senders
-- of a channel are dropped only with the entry that holds them.
abbrev pub answer : Option AttachSignal → Option AttachOutcome
answer none = some AttachOutcome.session_stopped
answer (some AttachSignal.pending) = none
answer (some (AttachSignal.terminal o)) = some o

unfoldable pub outcome : AttachWaiter → Registry → Option AttachOutcome
outcome w r = answer (get w.outcome_rx r.signals)
