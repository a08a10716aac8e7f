-- ===== src/MemberRuntime/Refusals.antt =====
-- crates/team/src/member_runtime.rs: leases that are used up, or cut short.
use team_lite.MemberRuntime.Registry.{
  outcome, commit_ready, attach_channel, owned_attach, commit_failed, begin_remove, start_remove,
  waiter, remove_entry, u64_modulus,
}
use team_lite.Base.{
  refl, arith, get, ◌≡◌, none, false, Ident, Option-cases, ap, Bool, inl, ℕ, inr, get-insert, some,
  true, insert, Option, if◌then◌else◌, not, ◌==◌, ◌||◌, ◌∙◌, List, ltb, ◌<◌, ◌+◌, length,
}
use team_lite.MemberRuntime.Model.{
  AttachLease, MemberRuntimeFailure, Registry, MemberRuntimeEntry, AttachOutcome, AttachSignal,
}
use team_lite.MemberRuntime.History.{perform, Call, Change, run}
use team_lite.MemberRuntime.Invariant.{Inv}
use team_lite.MemberRuntime.Preserve.{perform-Inv}
use team_lite.MemberRuntime.Changes.{perform-Change}
use team_lite.MemberRuntime.Spent.{Change-counts, run-unowned}
use team_lite.MemberRuntime.Outcomes.{outcome-run}

-- An entry that is not the attach of the lease.
not_owned :
    (lease : AttachLease) (g : Ident) (stopped : Bool) (o : Option MemberRuntimeEntry)
    → attach_channel lease.waiter.operation_id o ≡ none
    → (if not (lease.session_generation == g) || stopped
        then none
        else attach_channel lease.waiter.operation_id o)
      ≡ none
not_owned lease g stopped o e = ground (arith, e)

ready-spent :
    (lease : AttachLease) (r : Registry) → owned_attach lease (commit_ready lease r).1 ≡ none
unfolding commit_ready
ready-spent lease r = elim (Option-cases (owned_attach lease r)) [
  | inl e ↦ rw (e, commit_ready) e
  | inr (tx, e) ↦
      rw (e, commit_ready)
        (not_owned lease r.session_generation r.stopped _ (
          ground
            (arith, get-insert lease.agent_id lease.agent_id MemberRuntimeEntry.ready r.entries)))
]

failed-spent :
    (lease : AttachLease) (failure : MemberRuntimeFailure) (r : Registry)
    → owned_attach lease (commit_failed lease failure r).1 ≡ none
unfolding commit_failed
failed-spent lease failure r = elim (Option-cases (owned_attach lease r)) [
  | inl e ↦ rw (e, commit_failed) e
  | inr (tx, e) ↦
      rw (e, commit_failed)
        (not_owned lease r.session_generation r.stopped _ (
          ground (
            arith,
            get-insert lease.agent_id lease.agent_id
                (MemberRuntimeEntry.failed lease.waiter.operation_id failure tx) r.entries,
          )))
]

ready-refused :
    (lease : AttachLease) (r : Registry)
    → owned_attach lease r ≡ none
    → commit_ready lease r ≡ (false, r)
unfolding commit_ready
ready-refused lease r e = rw (e, commit_ready) refl

failed-refused :
    (lease : AttachLease) (failure : MemberRuntimeFailure) (r : Registry)
    → owned_attach lease r ≡ none
    → commit_failed lease failure r ≡ (false, r)
unfolding commit_failed
failed-refused lease failure r e = rw (e, commit_failed) refl

-- Both commits of the lease are refused, and change nothing.
abbrev pub Refused : AttachLease → MemberRuntimeFailure → Registry → Type 0
Refused lease failure r =
    (commit_ready lease r ≡ (false, r)) × (commit_failed lease failure r ≡ (false, r))

ready-counts :
    (lease : AttachLease) (r : Registry)
    → (commit_ready lease r).1.next_operation_id ≡ r.next_operation_id
unfolding commit_ready
ready-counts lease r = elim (Option-cases (owned_attach lease r)) [
  | inl e ↦ rw (e, commit_ready) refl
  | inr (tx, e) ↦ rw (e, commit_ready) refl
]

failed-counts :
    (lease : AttachLease) (failure : MemberRuntimeFailure) (r : Registry)
    → (commit_failed lease failure r).1.next_operation_id ≡ r.next_operation_id
unfolding commit_failed
failed-counts lease failure r = elim (Option-cases (owned_attach lease r)) [
  | inl e ↦ rw (e, commit_failed) refl
  | inr (tx, e) ↦ rw (e, commit_failed) refl
]

run-refused :
    (cs : List Call) (lease : AttachLease) (failure : MemberRuntimeFailure) (r : Registry)
    → lease.waiter.operation_id < r.next_operation_id
    → r.next_operation_id + length cs < u64_modulus
    → owned_attach lease r ≡ none
    → Refused lease failure (run cs r)
run-refused cs lease failure r l b h =
    let spent = run-unowned cs lease r l b h in
    (ready-refused lease (run cs r) spent, failed-refused lease failure (run cs r) spent)

-- A lease whose number the registry has given out is used up by its commit: whether the commit was
-- let in or not, and whatever calls follow it, as long as they do not exhaust the 64-bit numbers of
-- the operations, no commit with the same lease is let in, and none changes anything.
pub commit_once :
    (lease : AttachLease) (failure failure' : MemberRuntimeFailure) (cs : List Call) (r : Registry)
    → lease.waiter.operation_id < r.next_operation_id
    → r.next_operation_id + length cs < u64_modulus
    → Refused lease failure' (run cs (commit_ready lease r).1)
      × Refused lease failure' (run cs (commit_failed lease failure r).1)
commit_once lease failure failure' cs r l b = (
  run-refused cs lease failure' (commit_ready lease r).1 (omega (arith, l, ready-counts lease r))
      (omega (arith, b, ready-counts lease r)) (ready-spent lease r),
  run-refused cs lease failure' (commit_failed lease failure r).1
      (omega (arith, l, failed-counts lease failure r))
      (omega (arith, b, failed-counts lease failure r)) (failed-spent lease failure r),
)

running_lem {ℓ} : {X : Type ℓ} (b : Bool) (x y : X) → b ≡ false → (if b then x else y) ≡ y
running_lem true x y f = ground arith
running_lem false x y f = refl

begun :
    (r : Registry) (a : Ident) (op : ℕ) (tx : Ident)
    → r.stopped ≡ false
    → get a r.entries ≡ some (MemberRuntimeEntry.attaching op tx)
    → begin_remove a r ≡ start_remove a (some tx) r
unfolding begin_remove
begun r a op tx f e = running_lem r.stopped _ _ f ∙ ap (remove_entry a r) e

abbrev attach_lease : Registry → Ident → ℕ → Ident → AttachLease
attach_lease r a op tx = record {
  session_generation = r.session_generation;
  agent_id = a;
  waiter = waiter op tx;
}

begun-unowned :
    (r : Registry) (op : ℕ) (tx a : Ident)
    → r.stopped ≡ false
    → get a r.entries ≡ some (MemberRuntimeEntry.attaching op tx)
    → owned_attach (attach_lease r a op tx) (begin_remove a r).1 ≡ none
unfolding start_remove
begun-unowned r op tx a f e = rw (begun r a op tx f e) (
    not_owned (attach_lease r a op tx) r.session_generation r.stopped
      (get a (insert a (MemberRuntimeEntry.removing r.next_operation_id r.next_channel) r.entries))
      (ground (
        arith,
        get-insert a a (MemberRuntimeEntry.removing r.next_operation_id r.next_channel) r.entries,
      )))

begun-removed :
    (r : Registry) (op : ℕ) (tx a : Ident)
    → r.stopped ≡ false
    → get a r.entries ≡ some (MemberRuntimeEntry.attaching op tx)
    → outcome (waiter op tx) (begin_remove a r).1 ≡ some AttachOutcome.removed
unfolding outcome start_remove
begun-removed r op tx a f e = rw (begun r a op tx f e) (
    ground (
      arith,
      get-insert tx tx (AttachSignal.terminal AttachOutcome.removed)
          (insert r.next_channel AttachSignal.pending r.signals),
    ))

begun-channel :
    (r : Registry) (op : ℕ) (tx a : Ident)
    → Inv r
    → r.stopped ≡ false
    → get a r.entries ≡ some (MemberRuntimeEntry.attaching op tx)
    → ltb tx (begin_remove a r).1.next_channel ≡ true
unfolding start_remove
begun-channel r op tx a inv f e =
    let held : get tx r.signals ≡ some AttachSignal.pending = inv.unanswered a tx (rw e refl) in
    rw (begun r a op tx f e) (ground (arith, inv.allotted tx, held))

begin-Change : (r : Registry) (a : Ident) → Change (Call.begin a) r (begin_remove a r).1
unfolding perform
begin-Change r a = perform-Change (Call.begin a) r

begin-Inv : (r : Registry) (a : Ident) → Inv r → Inv (begin_remove a r).1
unfolding perform
begin-Inv r a inv = perform-Inv (Call.begin a) r inv

-- The removal of an agent during its attach, in a registry that is in order: from then on, whatever
-- calls follow, as long as they do not exhaust the 64-bit numbers of the operations, those who wait
-- for the attach are told that the agent is removed, and both commits of the attach are refused and
-- change nothing.
pub remove-attach :
    (cs : List Call) (failure : MemberRuntimeFailure) (r : Registry) (op : ℕ) (tx a : Ident)
    → Inv r
    → r.stopped ≡ false
    → get a r.entries ≡ some (MemberRuntimeEntry.attaching op tx)
    → op < r.next_operation_id
    → r.next_operation_id + length cs + 1 < u64_modulus
    → (outcome (waiter op tx) (run cs (begin_remove a r).1) ≡ some AttachOutcome.removed)
      × Refused
          (record {
            session_generation = r.session_generation;
            agent_id = a;
            waiter = waiter op tx;
          })
          failure
          (run cs (begin_remove a r).1)
remove-attach cs failure r op tx a inv f e l b =
    let (up, by_one) =
      Change-counts (Call.begin a) r (begin_remove a r).1 (begin-Change r a) (omega (arith, b)) in
    (
      outcome-run cs (begin_remove a r).1 (waiter op tx) AttachOutcome.removed (begin-Inv r a inv)
          (begun-channel r op tx a inv f e) (begun-removed r op tx a f e),
      run-refused cs (attach_lease r a op tx) failure (begin_remove a r).1 (omega (arith, l, up))
          (omega (arith, b, by_one)) (begun-unowned r op tx a f e),
    )
