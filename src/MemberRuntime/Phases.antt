-- ===== src/MemberRuntime/Phases.antt =====
-- crates/team/src/member_runtime.rs: what a snapshot shows of an agent over the calls.
use team_lite.MemberRuntime.Registry.{stop, snapshot}
use team_lite.MemberRuntime.History.{Change, perform, Call, Phase, phase_in, subject, follows}
use team_lite.Base.{
  arith, Ident, Option, ℕ, Bool, ◌≡◌, ◌==◌, if◌then◌else◌, true, ◌||◌, false, same_option, some,
  get, ◌&&◌, ap, get-insert, Map, Bool-cases, none, get-remove, inl, refl, ==_eq, inr,
}
use team_lite.MemberRuntime.Model.{Registry, MemberRuntimeSnapshot, MemberRuntimeEntry}
use team_lite.MemberRuntime.Changes.{perform-Change}

abbrev pub phase_of : MemberRuntimeSnapshot → Phase
phase_of MemberRuntimeSnapshot.absent = Phase.absent
phase_of (MemberRuntimeSnapshot.attaching op) = Phase.attaching
phase_of MemberRuntimeSnapshot.ready = Phase.ready
phase_of (MemberRuntimeSnapshot.failed op failure) = Phase.failed
phase_of (MemberRuntimeSnapshot.removing op) = Phase.removing
phase_of MemberRuntimeSnapshot.session_stopped = Phase.session_stopped

abbrev index : Phase → ℕ
index Phase.absent = 0
index Phase.attaching = 1
index Phase.ready = 2
index Phase.failed = 3
index Phase.removing = 4
index Phase.session_stopped = 5

-- The protocol that the registry promises: a call leaves the phase of an agent, or takes the agent
-- that it is about along one of its steps, or ends the session.
abbrev pub ends : Call → Phase → Bool
ends Call.halt Phase.session_stopped = true
ends _ _ = false

abbrev pub permitted : Call → Ident → Phase → Phase → Bool
permitted c b p q =
    (index p == index q) || ends c q || (same_option (subject c) (some b) && follows c p q)

phase_lem :
    (r : Registry) (b : Ident)
    → phase_of (snapshot b r)
      ≡ (if r.stopped then Phase.session_stopped else phase_in (get b r.entries))
unfolding snapshot
phase_lem r b = ground arith

stays : (c : Call) (b : Ident) (p q : Phase) → p ≡ q → permitted c b p q ≡ true
stays c b p q e = rw (ap index e) (ground arith)

follows-permitted :
    (c : Call) (b : Ident) (p q : Phase)
    → subject c ≡ some b
    → follows c p q ≡ true
    → permitted c b p q ≡ true
follows-permitted c b p q s m = ground (arith, s, m)

-- A write of the entry of the call's agent.
entry-permitted :
    (c : Call) (a b : Ident) (e : Option MemberRuntimeEntry) (m m' : Map MemberRuntimeEntry)
    → subject c ≡ some a
    → follows c (phase_in (get a m)) (phase_in e) ≡ true
    → get b m' ≡ (if b == a then e else get b m)
    → permitted c b (phase_in (get b m)) (phase_in (get b m')) ≡ true
entry-permitted c a b e m m' s f g = elim (Bool-cases (b == a)) [
  | inl t ↦
      let same : b ≡ a = ==_eq b a t in
      let after : get b m' ≡ e = ground (arith, g, t) in
      rw (after, same) (follows-permitted c a (phase_in (get a m)) (phase_in e) s f)
  | inr t ↦ stays c b _ _ (ap phase_in (ground (arith, g, t)))
]

phase-permitted :
    (c : Call) (b : Ident) (r r' : Registry)
    → r.stopped ≡ false
    → r'.stopped ≡ false
    → permitted c b (phase_in (get b r.entries)) (phase_in (get b r'.entries)) ≡ true
    → permitted c b (phase_of (snapshot b r)) (phase_of (snapshot b r')) ≡ true
phase-permitted c b r r' f f' p = rw (phase_lem r b, phase_lem r' b, f, f') p

stopped-stop : (r : Registry) → (stop r).1.stopped ≡ true
unfolding stop
stopped-stop r = elim (Bool-cases r.stopped) [ inl e ↦ simp e refl | inr e ↦ simp e refl ]

halt-permitted :
    (c : Call) (b : Ident) (r : Registry)
    → c ≡ Call.halt
    → permitted c b (phase_of (snapshot b r)) (phase_of (snapshot b (stop r).1)) ≡ true
halt-permitted c b r e = rw (e, phase_lem (stop r).1 b, stopped-stop r) (ground arith)

Change-permitted :
    (c : Call) (b : Ident) (r r' : Registry)
    → Change c r r'
    → permitted c b (phase_of (snapshot b r)) (phase_of (snapshot b r')) ≡ true
Change-permitted c b r r' Change.keeps = stays c b _ _ refl
Change-permitted c b r r' (Change.seeds a f e s m) =
    phase-permitted c b r _ f f
      (entry-permitted c a b _ r.entries _ s m (get-insert a b _ r.entries))
Change-permitted c b r r' (Change.opens a e f o h s m n) =
    phase-permitted c b r _ f f
      (entry-permitted c a b _ r.entries _ s m (get-insert a b _ r.entries))
Change-permitted c b r r' (Change.reopens a e tx o f q h s m n) =
    phase-permitted c b r _ f f
      (entry-permitted c a b _ r.entries _ s m (get-insert a b _ r.entries))
Change-permitted c b r r' (Change.closes a e tx o f q h s m) =
    phase-permitted c b r _ f f
      (entry-permitted c a b _ r.entries _ s m (get-insert a b _ r.entries))
Change-permitted c b r r' (Change.drops a tx o f h s m) =
    phase-permitted c b r _ f f
      (entry-permitted c a b none r.entries _ s m (get-remove a b r.entries))
Change-permitted c b r r' (Change.halts e) = halt-permitted c b r e

-- The registry implements the protocol of the phases: a call leaves what a snapshot shows of each
-- agent, or takes the agent that the call is about along a step of that call, or stops the session.
pub perform-snapshot :
    (c : Call) (b : Ident) (r : Registry)
    → permitted c b (phase_of (snapshot b r)) (phase_of (snapshot b (perform c r))) ≡ true
perform-snapshot c b r = Change-permitted c b r (perform c r) (perform-Change c r)
