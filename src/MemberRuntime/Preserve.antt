-- ===== src/MemberRuntime/Preserve.antt =====
-- crates/team/src/member_runtime.rs: every call keeps the registry in order.
use team_lite.Base.{
  Ident, Bool, true, false, none, some, List, [], ◌∷◌, ◌≡◌, refl, get, insert, remove, ◌==◌,
  if◌then◌else◌, Bool-cases, inl, inr, arith, Map, get-remove, get-insert, values, insert-Sorted,
  any, remove-Sorted,
}
use team_lite.MemberRuntime.Model.{MemberRuntimeEntry, Registry, AttachOutcome, AttachSignal}
use team_lite.MemberRuntime.Registry.{stop, open_channel, close_all, set_entry, advance, send, new}
use team_lite.MemberRuntime.Changes.{perform-Change}
use team_lite.MemberRuntime.Invariant.{Inv, answer-Inv}
use team_lite.MemberRuntime.Closing.{closed-held, has_channel, get-close_all, held-closed}
use team_lite.MemberRuntime.History.{channel_in, channel_at, Change, run, Call, perform}

-- An agent's channel after its entry is written.
channel-set_entry :
    (a b : Ident) (e : MemberRuntimeEntry) (m : Map MemberRuntimeEntry)
    → channel_in (get b (insert a e m)) ≡ (if b == a then open_channel e else channel_in (get b m))
channel-set_entry a b e m = ground (arith, get-insert a b e m)

channel-remove :
    (a b : Ident) (m : Map MemberRuntimeEntry)
    → channel_in (get b (remove a m)) ≡ (if b == a then none else channel_in (get b m))
channel-remove a b m = ground (arith, get-remove a b m)

running {ℓ} :
    {A : Type ℓ} (r : Registry) (x : A) (y : A) → r.stopped ≡ false → r.stopped ≡ true → x ≡ y
running r x y f t = ground arith

seeds-Inv :
    (r : Registry) (a : Ident)
    → Inv r
    → r.stopped ≡ false
    → get a r.entries ≡ none
    → Inv (set_entry a MemberRuntimeEntry.ready r)
seeds-Inv r a inv f e =
    answer-Inv r _ a none AttachOutcome.ready false inv (rw e refl)
      (λ b. channel-set_entry a b MemberRuntimeEntry.ready r.entries) (λ tx. refl) refl
      (insert-Sorted a MemberRuntimeEntry.ready r.entries inv.sorted) (running r _ _ f)

opens-Inv :
    (r : Registry) (a : Ident) (e : MemberRuntimeEntry)
    → Inv r
    → r.stopped ≡ false
    → open_channel e ≡ some r.next_channel
    → channel_at r a ≡ none
    → Inv (set_entry a e (advance r))
opens-Inv r a e inv f o c =
    answer-Inv r _ a none AttachOutcome.ready true inv c
      (λ b. ground (arith, channel-set_entry a b e r.entries))
      (λ tx. ground (arith, get-insert r.next_channel tx AttachSignal.pending r.signals)) refl
      (insert-Sorted a e r.entries inv.sorted) (running r _ _ f)

reopens-Inv :
    (r : Registry) (a : Ident) (e : MemberRuntimeEntry) (tx : Ident) (o : AttachOutcome)
    → Inv r
    → r.stopped ≡ false
    → open_channel e ≡ some r.next_channel
    → channel_at r a ≡ some tx
    → Inv (send tx o (set_entry a e (advance r)))
reopens-Inv r a e tx o inv f p c =
    answer-Inv r _ a (some tx) o true inv c (λ b. ground (arith, channel-set_entry a b e r.entries))
      (λ d. ground (
        arith,
        get-insert tx d (AttachSignal.terminal o)
            (insert r.next_channel AttachSignal.pending r.signals),
        get-insert r.next_channel d AttachSignal.pending r.signals,
        inv.unanswered a tx c,
        inv.allotted tx,
      ))
      refl (insert-Sorted a e r.entries inv.sorted) (running r _ _ f)

closes-Inv :
    (r : Registry) (a : Ident) (e : MemberRuntimeEntry) (tx : Ident) (o : AttachOutcome)
    → Inv r
    → r.stopped ≡ false
    → open_channel e ≡ none
    → channel_at r a ≡ some tx
    → Inv (send tx o (set_entry a e r))
closes-Inv r a e tx o inv f p c =
    answer-Inv r _ a (some tx) o false inv c
      (λ b. ground (arith, channel-set_entry a b e r.entries))
      (λ c. ground (arith, get-insert tx c (AttachSignal.terminal o) r.signals)) refl
      (insert-Sorted a e r.entries inv.sorted) (running r _ _ f)

drops-Inv :
    (r : Registry) (a tx : Ident) (o : AttachOutcome)
    → Inv r
    → r.stopped ≡ false
    → channel_at r a ≡ some tx
    → Inv (send tx o (record r { entries = remove a r.entries }))
drops-Inv r a tx o inv f c =
    answer-Inv r _ a (some tx) o false inv c (λ b. channel-remove a b r.entries)
      (λ c. ground (arith, get-insert tx c (AttachSignal.terminal o) r.signals)) refl
      (remove-Sorted a r.entries inv.sorted) (running r _ _ f)

-- The state after `stop` has dropped every entry.
closed-Inv :
    (r : Registry)
    → Inv r
    → Inv (record r {
      stopped = true;
      entries = [];
      signals = close_all (values r.entries) r.signals;
    })
closed-Inv r inv = record {
  sorted = tt;
  unanswered = λ a tx e. ground (arith, e);
  held = λ tx e. elim (Bool-cases (any (has_channel tx) (values r.entries))) [
    | inl t ↦ ground (arith, get-close_all tx (values r.entries) r.signals, t, e)
    | inr f ↦
        let (a, h) =
          inv.held tx (ground (arith, get-close_all tx (values r.entries) r.signals, f, e)) in
        ground (arith, held-closed r a tx h, f)
  ];
  unique = λ a b tx e f. ground (arith, e);
  allotted = λ tx. elim (Bool-cases (any (has_channel tx) (values r.entries))) [
    | inl t ↦
        let (a, h) = closed-held r tx inv.sorted t in
        ground (
          arith,
          get-close_all tx (values r.entries) r.signals,
          t,
          inv.unanswered a tx h,
          inv.allotted tx,
        )
    | inr f ↦ ground (arith, get-close_all tx (values r.entries) r.signals, f, inv.allotted tx)
  ];
  halted = λ t. refl;
}

halted-Inv :
    (r : Registry) (b : Bool)
    → Inv r
    → Inv
        (if◌then◌else◌ {A = Bool × Registry} b
          (false, r)
          (
            true,
            record r {
              stopped = true;
              entries = [];
              signals = close_all (values r.entries) r.signals;
            },
          )).1
halted-Inv r true inv = inv
halted-Inv r false inv = closed-Inv r inv

Change-Inv : (k : Call) (r r' : Registry) → Change k r r' → Inv r → Inv r'
unfolding stop
Change-Inv k r r' Change.keeps inv = inv
Change-Inv k r r' (Change.seeds a f e s m) inv = seeds-Inv r a inv f e
Change-Inv k r r' (Change.opens a e f o c s m n) inv = opens-Inv r a e inv f o c
Change-Inv k r r' (Change.reopens a e tx o f p c s m n) inv = reopens-Inv r a e tx o inv f p c
Change-Inv k r r' (Change.closes a e tx o f p c s m) inv = closes-Inv r a e tx o inv f p c
Change-Inv k r r' (Change.drops a tx o f c s m) inv = drops-Inv r a tx o inv f c
Change-Inv k r r' (Change.halts e) inv = halted-Inv r r.stopped inv

pub perform-Inv : (c : Call) (r : Registry) → Inv r → Inv (perform c r)
perform-Inv c r inv = Change-Inv c r (perform c r) (perform-Change c r) inv

pub new-Inv : (g : Ident) → Inv (new g)
unfolding new
new-Inv g = record {
  sorted = tt;
  unanswered = λ a tx e. ground (arith, e);
  held = λ tx e. ground (arith, e);
  unique = λ a b tx e f. ground (arith, e);
  allotted = λ tx. ground arith;
  halted = λ t. refl;
}

-- A registry that is in order stays so over any calls: each channel belongs to at most one agent, a
-- channel is pending exactly while an agent's operation has it, every channel made is known, and a
-- stopped registry has no entries.
pub run-Inv : (cs : List Call) (r : Registry) → Inv r → Inv (run cs r)
unfolding run
run-Inv [] r inv = inv
run-Inv (c ∷ cs) r inv = run-Inv cs (perform c r) (perform-Inv c r inv)
