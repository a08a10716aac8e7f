-- ===== src/MemberRuntime/Leases.antt =====
-- crates/team/src/member_runtime.rs: what a lease that was granted allows.
use team_lite.MemberRuntime.Registry.{
  outcome, commit_ready, owned_attach, reserve_attach, waiter, snapshot, start_attach, attach_entry,
  send, set_entry,
}
use team_lite.Base.{
  refl, arith, get, ◌≡◌, none, false, Ident, ap, Bool, get-insert, some, true, insert, Option,
  if◌then◌else◌, ◌∙◌, sym,
}
use team_lite.MemberRuntime.Model.{
  AttachLease, Registry, ReserveAttach, MemberRuntimeEntry, AttachOutcome, AttachSignal,
  MemberRuntimeSnapshot,
}

started :
    (r : Registry) (a : Ident) (retry : Bool) (lease : AttachLease) (o : Option MemberRuntimeEntry)
    → (attach_entry retry a r o).0 ≡ ReserveAttach.start lease
    → attach_entry retry a r o ≡ start_attach a r
unfolding start_attach
started r a retry lease none e = refl
started r a retry lease (some (MemberRuntimeEntry.attaching op tx)) e = ground arith
started r a retry lease (some MemberRuntimeEntry.ready) e = ground arith
started r a true lease (some (MemberRuntimeEntry.failed op failure tx)) e = refl
started r a false lease (some (MemberRuntimeEntry.failed op failure tx)) e = ground arith
started r a retry lease (some (MemberRuntimeEntry.removing op tx)) e = ground arith

abbrev granted : Registry → Ident → AttachLease
granted r a = record {
  session_generation = r.session_generation;
  agent_id = a;
  waiter = waiter r.next_operation_id r.next_channel;
}

abbrev lease_of : AttachLease → ReserveAttach → AttachLease
lease_of d (ReserveAttach.start lease) = lease
lease_of d _ = d

reserved :
    (r : Registry) (a : Ident) (retry : Bool) (lease : AttachLease) (b : Bool)
    → (if◌then◌else◌ {A = ReserveAttach × Registry} b
        (ReserveAttach.session_stopped, r)
        (attach_entry retry a r (get a r.entries))).0
      ≡ ReserveAttach.start lease
    → (b ≡ false)
      × (if b then (ReserveAttach.session_stopped, r) else attach_entry retry a r (get a r.entries))
        ≡ start_attach a r
      × (lease ≡ granted r a)
unfolding start_attach
reserved r a retry lease true e = ground arith
reserved r a retry lease false e =
    let s = started r a retry lease (get a r.entries) e in
    (refl, s, ap (lease_of (granted r a)) (sym e ∙ ap (λ x. x.0) s))

start-owned :
    (r : Registry) (a : Ident)
    → r.stopped ≡ false
    → owned_attach (granted r a) (start_attach a r).1 ≡ some r.next_channel
unfolding start_attach
start-owned r a f = ground (
  arith,
  f,
  get-insert a a (MemberRuntimeEntry.attaching r.next_operation_id r.next_channel) r.entries,
)

ready-committed :
    (lease : AttachLease) (r : Registry) (tx : Ident)
    → owned_attach lease r ≡ some tx
    → commit_ready lease r
      ≡ (true, send tx AttachOutcome.ready (set_entry lease.agent_id MemberRuntimeEntry.ready r))
unfolding commit_ready
ready-committed lease r tx e = rw (e, commit_ready) refl

start-commit :
    (r : Registry) (a : Ident)
    → r.stopped ≡ false
    → (outcome (granted r a).waiter (start_attach a r).1 ≡ none)
      × ((commit_ready (granted r a) (start_attach a r).1).0 ≡ true)
      × (outcome (granted r a).waiter (commit_ready (granted r a) (start_attach a r).1).1
          ≡ some AttachOutcome.ready)
      × (snapshot a (commit_ready (granted r a) (start_attach a r).1).1
          ≡ MemberRuntimeSnapshot.ready)
unfolding outcome snapshot start_attach
start-commit r a f =
    rw (ready-committed (granted r a) (start_attach a r).1 r.next_channel (start-owned r a f)) (
      ground (arith, get-insert r.next_channel r.next_channel AttachSignal.pending r.signals),
      refl,
      ground (
        arith,
        get-insert r.next_channel r.next_channel (AttachSignal.terminal AttachOutcome.ready)
            (insert r.next_channel AttachSignal.pending r.signals),
      ),
      ground (
        arith,
        f,
        get-insert a a MemberRuntimeEntry.ready
            (insert a (MemberRuntimeEntry.attaching r.next_operation_id r.next_channel) r.entries),
      ),
    )

-- What an agent's attach comes to: a reservation that was granted is owned, and its commit makes the
-- agent ready and tells so to all who wait for it.
pub attach-commit :
    (r : Registry) (a : Ident) (retry : Bool) (lease : AttachLease)
    → (reserve_attach a retry r).0 ≡ ReserveAttach.start lease
    → (outcome lease.waiter (reserve_attach a retry r).1 ≡ none)
      × ((commit_ready lease (reserve_attach a retry r).1).0 ≡ true)
      × (outcome lease.waiter (commit_ready lease (reserve_attach a retry r).1).1
          ≡ some AttachOutcome.ready)
      × (snapshot a (commit_ready lease (reserve_attach a retry r).1).1
          ≡ MemberRuntimeSnapshot.ready)
unfolding reserve_attach
attach-commit r a retry lease e =
    let (f, s, l) = reserved r a retry lease r.stopped e in
    let started_at : reserve_attach a retry r ≡ start_attach a r = s in
    rw (started_at, l) (start-commit r a f)
