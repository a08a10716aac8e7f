-- ===== src/MemberRuntime/History.antt =====
-- crates/team/src/member_runtime.rs: histories of calls of the registry, and the few ways in which
-- a call changes it.
use team_lite.Base.{
  ℕ, ltb, Ident, Bool, true, false, Option, none, some, List, [], ◌∷◌, ◌≡◌, get, remove,
}
use team_lite.MemberRuntime.Registry.{
  attach_channel, set_entry, send, advance, seed_ready, reserve_attach, reserve_repair,
  commit_ready, commit_failed, begin_remove, finish_remove, restore_attach_required, open_channel,
  stop,
}
use team_lite.MemberRuntime.Model.{
  MemberRuntimeFailure, AttachOutcome, AttachLease, RemoveLease, MemberRuntimeEntry, Registry,
}

-- The calls that change the registry.
pub data Call : Type 0 where
  seed : Ident → Call
  reserve : Ident → Bool → Call
  repair : Ident → Call
  ready : AttachLease → Call
  failed : AttachLease → MemberRuntimeFailure → Call
  begin : Ident → Call
  finish : RemoveLease → Call
  restore : RemoveLease → MemberRuntimeFailure → Call
  halt : Call

unfoldable pub perform : Call → Registry → Registry
perform (seed a) r = (seed_ready a r).1
perform (reserve a retry) r = (reserve_attach a retry r).1
perform (repair a) r = (reserve_repair a r).1
perform (ready lease) r = (commit_ready lease r).1
perform (failed lease failure) r = (commit_failed lease failure r).1
perform (begin a) r = (begin_remove a r).1
perform (finish lease) r = (finish_remove lease r).1
perform (restore lease failure) r = (restore_attach_required lease failure r).1
perform halt r = (stop r).1

unfoldable pub run : List Call → Registry → Registry
run [] r = r
run (c ∷ cs) r = run cs (perform c r)

-- The channel that an agent's operation has still to answer.
abbrev pub channel_in : Option MemberRuntimeEntry → Option Ident
channel_in none = none
channel_in (some e) = open_channel e

abbrev pub channel_at : Registry → Ident → Option Ident
channel_at r a = channel_in (get a r.entries)

-- What a snapshot shows of an agent, without the numbers of its operations.
pub data Phase : Type 0 where
  absent attaching ready failed removing session_stopped : Phase

abbrev pub phase_in : Option MemberRuntimeEntry → Phase
phase_in none = Phase.absent
phase_in (some (MemberRuntimeEntry.attaching op tx)) = Phase.attaching
phase_in (some MemberRuntimeEntry.ready) = Phase.ready
phase_in (some (MemberRuntimeEntry.failed op failure tx)) = Phase.failed
phase_in (some (MemberRuntimeEntry.removing op tx)) = Phase.removing

-- The agent that a call is about, and the phases that the call may take it from and to.
abbrev pub subject : Call → Option Ident
subject (Call.seed a) = some a
subject (Call.reserve a retry) = some a
subject (Call.repair a) = some a
subject (Call.ready lease) = some lease.agent_id
subject (Call.failed lease failure) = some lease.agent_id
subject (Call.begin a) = some a
subject (Call.finish lease) = some lease.agent_id
subject (Call.restore lease failure) = some lease.agent_id
subject Call.halt = none

abbrev pub follows : Call → Phase → Phase → Bool
follows (Call.seed a) Phase.absent Phase.ready = true
follows (Call.reserve a retry) Phase.absent Phase.attaching = true
follows (Call.reserve a true) Phase.failed Phase.attaching = true
follows (Call.repair a) Phase.absent Phase.attaching = true
follows (Call.repair a) Phase.ready Phase.attaching = true
follows (Call.ready lease) Phase.attaching Phase.ready = true
follows (Call.failed lease failure) Phase.attaching Phase.failed = true
follows (Call.begin a) Phase.attaching Phase.removing = true
follows (Call.begin a) Phase.ready Phase.removing = true
follows (Call.begin a) Phase.failed Phase.removing = true
follows (Call.finish lease) Phase.removing Phase.absent = true
follows (Call.restore lease failure) Phase.removing Phase.failed = true
follows _ _ _ = false

-- The entry is not an attach under a number that was given out before.
abbrev pub Renewed : Registry → MemberRuntimeEntry → Type 0
Renewed r e = (op : ℕ) → ltb op r.next_operation_id ≡ true → attach_channel op (some e) ≡ none

pub data Change (c : Call) (r : Registry) : Registry → Type 0 where
  keeps : Change c r r
  seeds :
      (a : Ident)
      → r.stopped ≡ false
      → get a r.entries ≡ none
      → subject c ≡ some a
      → follows c (phase_in (get a r.entries)) Phase.ready ≡ true
      → Change c r (set_entry a MemberRuntimeEntry.ready r)
  opens :
      (a : Ident) (e : MemberRuntimeEntry)
      → r.stopped ≡ false
      → open_channel e ≡ some r.next_channel
      → channel_at r a ≡ none
      → subject c ≡ some a
      → follows c (phase_in (get a r.entries)) (phase_in (some e)) ≡ true
      → Renewed r e
      → Change c r (set_entry a e (advance r))
  reopens :
      (a : Ident) (e : MemberRuntimeEntry) (tx : Ident) (o : AttachOutcome)
      → r.stopped ≡ false
      → open_channel e ≡ some r.next_channel
      → channel_at r a ≡ some tx
      → subject c ≡ some a
      → follows c (phase_in (get a r.entries)) (phase_in (some e)) ≡ true
      → Renewed r e
      → Change c r (send tx o (set_entry a e (advance r)))
  closes :
      (a : Ident) (e : MemberRuntimeEntry) (tx : Ident) (o : AttachOutcome)
      → r.stopped ≡ false
      → open_channel e ≡ none
      → channel_at r a ≡ some tx
      → subject c ≡ some a
      → follows c (phase_in (get a r.entries)) (phase_in (some e)) ≡ true
      → Change c r (send tx o (set_entry a e r))
  drops :
      (a tx : Ident) (o : AttachOutcome)
      → r.stopped ≡ false
      → channel_at r a ≡ some tx
      → subject c ≡ some a
      → follows c (phase_in (get a r.entries)) Phase.absent ≡ true
      → Change c r (send tx o (record r { entries = remove a r.entries }))
  halts : c ≡ Call.halt → Change c r (stop r).1
