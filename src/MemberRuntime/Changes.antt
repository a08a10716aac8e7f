-- ===== src/MemberRuntime/Changes.antt =====
-- crates/team/src/member_runtime.rs: each method changes the registry in one of the known ways.
use team_lite.Base.{
  Ident, ℕ, Bool, true, false, Option, none, some, ◌≡◌, refl, get, not, ◌==◌, ◌||◌, if◌then◌else◌,
  Option-cases, inl, inr, arith, subst, sym,
}
use team_lite.MemberRuntime.Model.{
  AttachOutcome, AttachLease, RemoveLease, MemberRuntimeEntry, Registry,
}
use team_lite.MemberRuntime.Registry.{
  seed_ready, start_attach, attach_entry, reserve_attach, repair_entry, reserve_repair,
  owned_attach, attach_channel, commit_ready, commit_failed, start_remove, remove_entry,
  begin_remove, owned_remove, remove_channel, finish_remove, restore_attach_required, seed_entry,
}
use team_lite.MemberRuntime.History.{Call, perform, Change, channel_in, channel_at, phase_in, Phase}

seed-Change :
    (a : Ident) (r : Registry) (o : Option MemberRuntimeEntry)
    → r.stopped ≡ false
    → get a r.entries ≡ o
    → Change (Call.seed a) r (seed_entry a r o).1
seed-Change a r none f e = Change.seeds a f e refl (rw e refl)
seed-Change a r (some (MemberRuntimeEntry.attaching op tx)) f e = Change.keeps
seed-Change a r (some MemberRuntimeEntry.ready) f e = Change.keeps
seed-Change a r (some (MemberRuntimeEntry.failed op failure tx)) f e = Change.keeps
seed-Change a r (some (MemberRuntimeEntry.removing op tx)) f e = Change.keeps

attach-Change :
    (retry : Bool) (a : Ident) (r : Registry) (o : Option MemberRuntimeEntry)
    → r.stopped ≡ false
    → get a r.entries ≡ o
    → Change (Call.reserve a retry) r (attach_entry retry a r o).1
unfolding start_attach
attach-Change retry a r none f e =
    Change.opens a _ f refl (rw e refl) refl (rw e refl) (λ op h. ground (arith, h))
attach-Change retry a r (some (MemberRuntimeEntry.attaching op tx)) f e = Change.keeps
attach-Change retry a r (some MemberRuntimeEntry.ready) f e = Change.keeps
attach-Change true a r (some (MemberRuntimeEntry.failed op failure tx)) f e =
    Change.opens a _ f refl (rw e refl) refl (rw e refl) (λ op h. ground (arith, h))
attach-Change false a r (some (MemberRuntimeEntry.failed op failure tx)) f e = Change.keeps
attach-Change retry a r (some (MemberRuntimeEntry.removing op tx)) f e = Change.keeps

repair-Change :
    (a : Ident) (r : Registry) (o : Option MemberRuntimeEntry)
    → r.stopped ≡ false
    → get a r.entries ≡ o
    → Change (Call.repair a) r (repair_entry a r o).1
unfolding start_attach
repair-Change a r none f e =
    Change.opens a _ f refl (rw e refl) refl (rw e refl) (λ op h. ground (arith, h))
repair-Change a r (some (MemberRuntimeEntry.attaching op tx)) f e = Change.keeps
repair-Change a r (some MemberRuntimeEntry.ready) f e =
    Change.opens a _ f refl (rw e refl) refl (rw e refl) (λ op h. ground (arith, h))
repair-Change a r (some (MemberRuntimeEntry.failed op failure tx)) f e = Change.keeps
repair-Change a r (some (MemberRuntimeEntry.removing op tx)) f e = Change.keeps

remove-Change :
    (a : Ident) (r : Registry) (o : Option MemberRuntimeEntry)
    → r.stopped ≡ false
    → get a r.entries ≡ o
    → Change (Call.begin a) r (remove_entry a r o).1
unfolding start_remove
remove-Change a r none f e = Change.keeps
remove-Change a r (some (MemberRuntimeEntry.attaching op tx)) f e =
    Change.reopens a _ tx AttachOutcome.removed f refl (rw e refl) refl (rw e refl) (λ op h. refl)
remove-Change a r (some MemberRuntimeEntry.ready) f e =
    Change.opens a _ f refl (rw e refl) refl (rw e refl) (λ op h. refl)
remove-Change a r (some (MemberRuntimeEntry.failed op failure tx)) f e =
    Change.opens a _ f refl (rw e refl) refl (rw e refl) (λ op h. refl)
remove-Change a r (some (MemberRuntimeEntry.removing op tx)) f e = Change.keeps

-- A method that does nothing on a stopped registry.
guarded-Change :
    (c : Call) (r : Registry) (X : Type 0) (x y : X × Registry) (b : Bool)
    → x.1 ≡ r
    → (b ≡ false → Change c r y.1)
    → Change c r (if b then x else y).1
guarded-Change c r X x y true e change = subst (λ q. Change c r q) (sym e) Change.keeps
guarded-Change c r X x y false e change = change refl

-- A test that refuses, passed.
refuse_lem :
    (b : Bool) (o : Option Ident) (tx : Ident)
    → (if b then none else o) ≡ some tx
    → (b ≡ false) × (o ≡ some tx)
refuse_lem true o tx e = ground arith
refuse_lem false o tx e = (refl, e)

attach_channel_lem :
    (op : ℕ) (tx : Ident) (o : Option MemberRuntimeEntry)
    → attach_channel op o ≡ some tx
    → (channel_in o ≡ some tx) × (phase_in o ≡ Phase.attaching)
attach_channel_lem op tx none e = (ground arith, ground arith)
attach_channel_lem op tx (some (MemberRuntimeEntry.attaching current c)) e =
    (ground arith, ground arith)
attach_channel_lem op tx (some MemberRuntimeEntry.ready) e = (ground arith, ground arith)
attach_channel_lem op tx (some (MemberRuntimeEntry.failed current failure c)) e =
    (ground arith, ground arith)
attach_channel_lem op tx (some (MemberRuntimeEntry.removing current c)) e =
    (ground arith, ground arith)

remove_channel_lem :
    (op : ℕ) (tx : Ident) (o : Option MemberRuntimeEntry)
    → remove_channel op o ≡ some tx
    → (channel_in o ≡ some tx) × (phase_in o ≡ Phase.removing)
remove_channel_lem op tx none e = (ground arith, ground arith)
remove_channel_lem op tx (some (MemberRuntimeEntry.attaching current c)) e =
    (ground arith, ground arith)
remove_channel_lem op tx (some MemberRuntimeEntry.ready) e = (ground arith, ground arith)
remove_channel_lem op tx (some (MemberRuntimeEntry.failed current failure c)) e =
    (ground arith, ground arith)
remove_channel_lem op tx (some (MemberRuntimeEntry.removing current c)) e =
    (ground arith, ground arith)

-- An owned lease's channel is its agent's, in a registry that runs.
owned_attach_lem :
    (lease : AttachLease) (r : Registry) (tx : Ident)
    → owned_attach lease r ≡ some tx
    → (r.stopped ≡ false)
      × (channel_at r lease.agent_id ≡ some tx)
      × (phase_in (get lease.agent_id r.entries) ≡ Phase.attaching)
owned_attach_lem lease r tx e =
    let (guard, channel) =
      refuse_lem (not (lease.session_generation == r.session_generation) || r.stopped) _ tx e in
    let (own, phase) = attach_channel_lem lease.waiter.operation_id tx _ channel in
    (ground arith, own, phase)

owned_remove_lem :
    (lease : RemoveLease) (r : Registry) (tx : Ident)
    → owned_remove lease r ≡ some tx
    → (r.stopped ≡ false)
      × (channel_at r lease.agent_id ≡ some tx)
      × (phase_in (get lease.agent_id r.entries) ≡ Phase.removing)
owned_remove_lem lease r tx e =
    let (guard, channel) =
      refuse_lem (not (lease.session_generation == r.session_generation) || r.stopped) _ tx e in
    let (own, phase) = remove_channel_lem lease.operation_id tx _ channel in
    (ground arith, own, phase)

pub perform-Change : (c : Call) (r : Registry) → Change c r (perform c r)
unfolding perform seed_ready reserve_attach reserve_repair begin_remove commit_ready commit_failed
    finish_remove restore_attach_required
perform-Change (Call.seed a) r =
    guarded-Change _ r _ _ _ r.stopped refl (λ f. seed-Change a r _ f refl)
perform-Change (Call.reserve a retry) r =
    guarded-Change _ r _ _ _ r.stopped refl (λ f. attach-Change retry a r _ f refl)
perform-Change (Call.repair a) r =
    guarded-Change _ r _ _ _ r.stopped refl (λ f. repair-Change a r _ f refl)
perform-Change (Call.ready lease) r = elim (Option-cases (owned_attach lease r)) [
  | inl e ↦ rw (e, perform, commit_ready) Change.keeps
  | inr (tx, e) ↦
      let (f, c, m) = owned_attach_lem lease r tx e in
      rw (e, perform, commit_ready) (Change.closes lease.agent_id _ tx _ f refl c refl (rw m refl))
]
perform-Change (Call.failed lease failure) r = elim (Option-cases (owned_attach lease r)) [
  | inl e ↦ rw (e, perform, commit_failed) Change.keeps
  | inr (tx, e) ↦
      let (f, c, m) = owned_attach_lem lease r tx e in
      rw (e, perform, commit_failed) (Change.closes lease.agent_id _ tx _ f refl c refl (rw m refl))
]
perform-Change (Call.begin a) r =
    guarded-Change _ r _ _ _ r.stopped refl (λ f. remove-Change a r _ f refl)
perform-Change (Call.finish lease) r = elim (Option-cases (owned_remove lease r)) [
  | inl e ↦ rw (e, perform, finish_remove) Change.keeps
  | inr (tx, e) ↦
      let (f, c, m) = owned_remove_lem lease r tx e in
      rw (e, perform, finish_remove) (Change.drops lease.agent_id tx _ f c refl (rw m refl))
]
perform-Change (Call.restore lease failure) r = elim (Option-cases (owned_remove lease r)) [
  | inl e ↦ rw (e, perform, restore_attach_required) Change.keeps
  | inr (tx, e) ↦
      let (f, c, m) = owned_remove_lem lease r tx e in
      rw (e, perform, restore_attach_required)
        (Change.closes lease.agent_id _ tx _ f refl c refl (rw m refl))
]
perform-Change Call.halt r = Change.halts refl
