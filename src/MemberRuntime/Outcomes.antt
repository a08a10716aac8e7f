-- ===== src/MemberRuntime/Outcomes.antt =====
-- crates/team/src/member_runtime.rs: what a waiter is told.
use team_lite.MemberRuntime.Registry.{stop, outcome, close_all, answer}
use team_lite.MemberRuntime.Invariant.{Inv}
use team_lite.MemberRuntime.Changes.{perform-Change}
use team_lite.MemberRuntime.Closing.{closed-held, has_channel, get-close_all, held-closed}
use team_lite.MemberRuntime.History.{run, perform, Change, Call, channel_at}
use team_lite.Base.{
  any, arith, List, Bool, Ident, get, ltb, ◌≡◌, true, some, if◌then◌else◌, insert, values, ◌∷◌,
  Bool-cases, false, get-insert, Option, is_some, [], inl, inr, refl,
}
use team_lite.MemberRuntime.Model.{Registry, AttachWaiter, AttachOutcome, AttachSignal}
use team_lite.MemberRuntime.Preserve.{perform-Inv}
use mathlib.Core.Option.{none}

-- An answer to a channel that an agent holds leaves the channels answered before.
answered-send :
    (r : Registry) (a tx c : Ident) (o p : AttachOutcome)
    → Inv r
    → channel_at r a ≡ some tx
    → get c r.signals ≡ some (AttachSignal.terminal p)
    → get c (insert tx (AttachSignal.terminal o) r.signals) ≡ some (AttachSignal.terminal p)
answered-send r a tx c o p inv h e =
    ground (arith, get-insert tx c (AttachSignal.terminal o) r.signals, inv.unanswered a tx h, e)

-- A new channel is not one of those answered before.
answered-advance :
    (r : Registry) (c : Ident) (p : AttachOutcome)
    → Inv r
    → get c r.signals ≡ some (AttachSignal.terminal p)
    → get c (insert r.next_channel AttachSignal.pending r.signals) ≡ some (AttachSignal.terminal p)
answered-advance r c p inv e =
    ground (arith, get-insert r.next_channel c AttachSignal.pending r.signals, inv.allotted c, e)

answered-both :
    (r : Registry) (a tx c : Ident) (o p : AttachOutcome)
    → Inv r
    → channel_at r a ≡ some tx
    → get c r.signals ≡ some (AttachSignal.terminal p)
    → get c
        (insert tx (AttachSignal.terminal o) (insert r.next_channel AttachSignal.pending r.signals))
      ≡ some (AttachSignal.terminal p)
answered-both r a tx c o p inv h e = ground (
  arith,
  get-insert tx c (AttachSignal.terminal o) (insert r.next_channel AttachSignal.pending r.signals),
  answered-advance r c p inv e,
  inv.unanswered a tx h,
  e,
)

answered-close_all :
    (r : Registry) (c : Ident) (p : AttachOutcome)
    → Inv r
    → get c r.signals ≡ some (AttachSignal.terminal p)
    → get c (close_all (values r.entries) r.signals) ≡ some (AttachSignal.terminal p)
answered-close_all r c p inv e = elim (Bool-cases (any (has_channel c) (values r.entries))) [
  | inl t ↦ let (a, h) = closed-held r c inv.sorted t in ground (arith, inv.unanswered a c h, e)
  | inr f ↦ ground (arith, get-close_all c (values r.entries) r.signals, f, e)
]

answered-stop :
    (r : Registry) (b : Bool) (c : Ident) (p : AttachOutcome)
    → Inv r
    → get c r.signals ≡ some (AttachSignal.terminal p)
    → get c
        (if◌then◌else◌ {A = Bool × Registry} b
          (false, r)
          (
            true,
            record r {
              stopped = true;
              entries = [];
              signals = close_all (values r.entries) r.signals;
            },
          )).1.signals
      ≡ some (AttachSignal.terminal p)
answered-stop r true c p inv e = e
answered-stop r false c p inv e = answered-close_all r c p inv e

answered-Change :
    (k : Call) (r r' : Registry) (c : Ident) (p : AttachOutcome)
    → Change k r r'
    → Inv r
    → get c r.signals ≡ some (AttachSignal.terminal p)
    → get c r'.signals ≡ some (AttachSignal.terminal p)
unfolding stop
answered-Change k r r' c p Change.keeps inv g = g
answered-Change k r r' c p (Change.seeds a f e s m) inv g = g
answered-Change k r r' c p (Change.opens a e f o h s m n) inv g = answered-advance r c p inv g
answered-Change k r r' c p (Change.reopens a e tx o f q h s m n) inv g =
    answered-both r a tx c o p inv h g
answered-Change k r r' c p (Change.closes a e tx o f q h s m) inv g =
    answered-send r a tx c o p inv h g
answered-Change k r r' c p (Change.drops a tx o f h s m) inv g = answered-send r a tx c o p inv h g
answered-Change k r r' c p (Change.halts e) inv g = answered-stop r r.stopped c p inv g

answer_lem :
    (s : Option AttachSignal) (o : AttachOutcome)
    → is_some s ≡ true
    → answer s ≡ some o
    → s ≡ some (AttachSignal.terminal o)
answer_lem none o h e = ground arith
answer_lem (some AttachSignal.pending) o h e = ground arith
answer_lem (some (AttachSignal.terminal p)) o h e = ground arith

-- The channel of a waiter that was given one has an answer exactly as `wait` returns it.
outcome_lem :
    (w : AttachWaiter) (r : Registry) (o : AttachOutcome)
    → ltb w.outcome_rx r.next_channel ≡ true
    → Inv r
    → outcome w r ≡ some o
    → get w.outcome_rx r.signals ≡ some (AttachSignal.terminal o)
unfolding outcome
outcome_lem w r o h inv e =
    answer_lem (get w.outcome_rx r.signals) o (ground (arith, inv.allotted w.outcome_rx)) e

run-answered :
    (cs : List Call) (r : Registry) (c : Ident) (p : AttachOutcome)
    → Inv r
    → get c r.signals ≡ some (AttachSignal.terminal p)
    → get c (run cs r).signals ≡ some (AttachSignal.terminal p)
unfolding run
run-answered [] r c p inv e = e
run-answered (x ∷ xs) r c p inv e =
    run-answered xs (perform x r) c p (perform-Inv x r inv)
      (answered-Change x r (perform x r) c p (perform-Change x r) inv e)

-- A waiter on a channel that the registry has made keeps the outcome that `wait` gave it, whatever
-- calls follow, in a registry that is in order.
pub outcome-run :
    (cs : List Call) (r : Registry) (w : AttachWaiter) (o : AttachOutcome)
    → Inv r
    → ltb w.outcome_rx r.next_channel ≡ true
    → outcome w r ≡ some o
    → outcome w (run cs r) ≡ some o
unfolding outcome
outcome-run cs r w o inv h e =
    rw (run-answered cs r w.outcome_rx o inv (outcome_lem w r o h inv e)) refl

pending-not-held :
    (r : Registry) (c : Ident)
    → Inv r
    → any (has_channel c) (values r.entries) ≡ false
    → get c r.signals ≡ some AttachSignal.pending
    → ⊥
pending-not-held r c inv f e = let (a, h) = inv.held c e in ground (arith, held-closed r a c h, f)

answer-pending :
    (s : Option AttachSignal) (w : AttachWaiter)
    → (s ≡ some AttachSignal.pending → ⊥)
    → answer s ≡ some (elim (answer s) [ none ↦ AttachOutcome.session_stopped | some o ↦ o ])
answer-pending none w h = refl
answer-pending (some AttachSignal.pending) w h = ground arith
answer-pending (some (AttachSignal.terminal o)) w h = refl

outcome-halted :
    (r : Registry) (b : Bool) (w : AttachWaiter)
    → Inv r
    → r.stopped ≡ b
    → answer (
        get w.outcome_rx
          (if◌then◌else◌ {A = Bool × Registry} b
            (false, r)
            (
              true,
              record r {
                stopped = true;
                entries = [];
                signals = close_all (values r.entries) r.signals;
              },
            )).1.signals)
      ≡ some (elim (answer (get w.outcome_rx r.signals)) [
        | none ↦ AttachOutcome.session_stopped
        | some o ↦ o
      ])
outcome-halted r true w inv e =
    answer-pending _ w (pending-not-held r w.outcome_rx inv (rw (inv.halted e) refl))
outcome-halted r false w inv e =
    elim (Bool-cases (any (has_channel w.outcome_rx) (values r.entries))) [
      | inl t ↦
          let (a, h) = closed-held r w.outcome_rx inv.sorted t in
          rw
            (
              get-close_all w.outcome_rx (values r.entries) r.signals,
              t,
              inv.unanswered a w.outcome_rx h,
            )
            refl
      | inr f ↦
          rw (get-close_all w.outcome_rx (values r.entries) r.signals, f)
            (answer-pending _ w (pending-not-held r w.outcome_rx inv f))
    ]

-- Once `stop` has run on a registry that is in order, no waiter waits any longer: it has the outcome
-- that it had before, or else that the session stopped.
pub outcome-stop :
    (r : Registry) (w : AttachWaiter)
    → Inv r
    → outcome w (stop r).1
      ≡ some (elim (outcome w r) [ none ↦ AttachOutcome.session_stopped | some o ↦ o ])
unfolding outcome stop
outcome-stop r w inv = outcome-halted r r.stopped w inv refl
