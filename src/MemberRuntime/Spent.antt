-- ===== src/MemberRuntime/Spent.antt =====
-- crates/team/src/member_runtime.rs: a lease that is not its agent's attach does not become it again.
use team_lite.Base.{
  [], ◌∷◌, ℕ, none, some, true, false, length, ltb, ◌≡◌, ◌<◌, ◌+◌, ◌≤◌, Ident, List, Bool-cases,
  remove, arith, inl, ◌==◌, refl, inr, get-remove, get-insert,
}
use team_lite.MemberRuntime.History.{Call, run, Change, perform}
use team_lite.MemberRuntime.Registry.{
  stop, open_channel, u64_modulus, owned_attach, attach_channel, set_entry,
}
use team_lite.MemberRuntime.Model.{AttachLease, MemberRuntimeEntry, Registry}
use team_lite.MemberRuntime.Changes.{perform-Change}

closed-attach :
    (op : ℕ) (e : MemberRuntimeEntry) → open_channel e ≡ none → attach_channel op (some e) ≡ none
closed-attach op (MemberRuntimeEntry.attaching current tx) h = ground (arith, h)
closed-attach op MemberRuntimeEntry.ready h = refl
closed-attach op (MemberRuntimeEntry.failed current failure tx) h = refl
closed-attach op (MemberRuntimeEntry.removing current tx) h = refl

set-unowned :
    (lease : AttachLease) (b : Ident) (e : MemberRuntimeEntry) (r : Registry)
    → owned_attach lease r ≡ none
    → r.stopped ≡ false
    → attach_channel lease.waiter.operation_id (some e) ≡ none
    → owned_attach lease (set_entry b e r) ≡ none
set-unowned lease b e r h f n = elim (Bool-cases (lease.agent_id == b)) [
  | inl t ↦ ground (arith, f, n, t, get-insert b lease.agent_id e r.entries)
  | inr t ↦ ground (arith, h, f, t, get-insert b lease.agent_id e r.entries)
]

drop-unowned :
    (lease : AttachLease) (b : Ident) (r : Registry)
    → owned_attach lease r ≡ none
    → owned_attach lease (record r { entries = remove b r.entries }) ≡ none
drop-unowned lease b r h = ground (arith, h, get-remove b lease.agent_id r.entries)

stop-unowned :
    (lease : AttachLease) (r : Registry)
    → owned_attach lease r ≡ none
    → owned_attach lease (stop r).1 ≡ none
unfolding stop
stop-unowned lease r h = elim (Bool-cases r.stopped) [
  | inl e ↦ rw (stop, e) (ground arith)
  | inr e ↦ rw (stop, e) (ground arith)
]

Change-unowned :
    (k : Call) (lease : AttachLease) (r r' : Registry)
    → Change k r r'
    → ltb lease.waiter.operation_id r.next_operation_id ≡ true
    → owned_attach lease r ≡ none
    → owned_attach lease r' ≡ none
Change-unowned k lease r r' Change.keeps l h = h
Change-unowned k lease r r' (Change.seeds a f e s m) l h = set-unowned lease a _ r h f refl
Change-unowned k lease r r' (Change.opens a e f o c s m n) l h =
    set-unowned lease a e r h f (n lease.waiter.operation_id l)
Change-unowned k lease r r' (Change.reopens a e tx o f q c s m n) l h =
    set-unowned lease a e r h f (n lease.waiter.operation_id l)
Change-unowned k lease r r' (Change.closes a e tx o f q c s m) l h =
    set-unowned lease a e r h f (closed-attach lease.waiter.operation_id e q)
Change-unowned k lease r r' (Change.drops a tx o f c s m) l h = drop-unowned lease a r h
Change-unowned k lease r r' (Change.halts e) l h = stop-unowned lease r h

stop-counts : (r : Registry) → (stop r).1.next_operation_id ≡ r.next_operation_id
unfolding stop
stop-counts r = elim (Bool-cases r.stopped) [
  | inl e ↦ rw (stop, e) refl
  | inr e ↦ rw (stop, e) refl
]

-- The counter stays, or goes on by one, before the end of its 64 bits.
pub Change-counts :
    (k : Call) (r r' : Registry)
    → Change k r r'
    → r.next_operation_id + 1 < u64_modulus
    → (r.next_operation_id ≤ r'.next_operation_id)
      × (r'.next_operation_id ≤ r.next_operation_id + 1)
Change-counts k r r' Change.keeps l = (omega arith, omega arith)
Change-counts k r r' (Change.seeds a f e s m) l = (omega arith, omega arith)
Change-counts k r r' (Change.opens a e f o c s m n) l = (omega (arith, l), omega (arith, l))
Change-counts k r r' (Change.reopens a e tx o f q c s m n) l = (omega (arith, l), omega (arith, l))
Change-counts k r r' (Change.closes a e tx o f q c s m) l = (omega arith, omega arith)
Change-counts k r r' (Change.drops a tx o f c s m) l = (omega arith, omega arith)
Change-counts k r r' (Change.halts e) l =
    (omega (arith, stop-counts r), omega (arith, stop-counts r))

pub run-unowned :
    (cs : List Call) (lease : AttachLease) (r : Registry)
    → lease.waiter.operation_id < r.next_operation_id
    → r.next_operation_id + length cs < u64_modulus
    → owned_attach lease r ≡ none
    → owned_attach lease (run cs r) ≡ none
unfolding run
run-unowned [] lease r l b h = h
run-unowned (c ∷ cs) lease r l b h =
    let change : Change c r (perform c r) = perform-Change c r in
    let (up, by_one) = Change-counts c r (perform c r) change (omega (arith, b)) in
    run-unowned cs lease (perform c r) (omega (arith, l, up)) (omega (arith, b, by_one))
      (Change-unowned c lease r (perform c r) change (ground (arith, l)) h)
