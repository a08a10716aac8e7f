-- ===== src/MemberRuntime/Invariant.antt =====
-- crates/team/src/member_runtime.rs: what holds of the registry between two calls.
use team_lite.Base.{
  Ident, Bool, true, Option, none, some, [], ◌≡◌, get, ◌==◌, if◌then◌else◌, Bool-cases, inl, inr,
  arith, ◌&&◌, same_option, is_some, ◌+◌, ltb, ◌<◌, Sorted,
}
use team_lite.MemberRuntime.Model.{Registry, AttachOutcome, AttachSignal}
use team_lite.MemberRuntime.History.{channel_at}

-- Each channel belongs to at most one agent, a channel is pending exactly while an agent's operation
-- has it, and the channels made are those below `next_channel`.
pub record Inv (r : Registry) : Type 0 where
  pub sorted : Sorted r.entries
  pub unanswered :
      (a tx : Ident) → channel_at r a ≡ some tx → get tx r.signals ≡ some AttachSignal.pending
  pub held :
      (tx : Ident)
      → get tx r.signals ≡ some AttachSignal.pending
      → (a : Ident) × (channel_at r a ≡ some tx)
  pub unique : (a b tx : Ident) → channel_at r a ≡ some tx → channel_at r b ≡ some tx → a ≡ b
  pub allotted : (tx : Ident) → is_some (get tx r.signals) ≡ ltb tx r.next_channel
  pub halted : r.stopped ≡ true → r.entries ≡ []

-- A call about the agent `a`: its channel `old` is answered, and it gets a new one if `fresh`.
module _ (r r' : Registry) (a : Ident) (old : Option Ident) (o : AttachOutcome) (fresh : Bool)
    (inv : Inv r) (before : channel_at r a ≡ old)
    (channels : (b : Ident)
      → channel_at r' b
        ≡ (if b == a then (if fresh then some r.next_channel else none) else channel_at r b))
    (signals : (tx : Ident)
      → get tx r'.signals ≡ (
          if fresh && (tx == r.next_channel)
          then some AttachSignal.pending
          else if same_option (some tx) old
          then some (AttachSignal.terminal o)
          else get tx r.signals))
    (next : r'.next_channel ≡ (if fresh then r.next_channel + 1 else r.next_channel))
    (sorted' : Sorted r'.entries) (halted' : r'.stopped ≡ true → r'.entries ≡ []) where
  below : (b tx : Ident) → channel_at r b ≡ some tx → tx < r.next_channel
  below b tx e = ground (arith, inv.unanswered b tx e, inv.allotted tx)

  unanswered' :
      (b tx : Ident) → channel_at r' b ≡ some tx → get tx r'.signals ≡ some AttachSignal.pending
  unanswered' b tx e =
      ground
        (arith, channels b, signals tx, inv.unanswered b tx, inv.unique a b tx, below b tx, before)

  unique' : (b c tx : Ident) → channel_at r' b ≡ some tx → channel_at r' c ≡ some tx → b ≡ c
  unique' b c tx e f =
      ground (arith, channels b, channels c, below b tx, below c tx, inv.unique b c tx)

  allotted' : (tx : Ident) → is_some (get tx r'.signals) ≡ ltb tx r'.next_channel
  allotted' tx = ground (arith, signals tx, inv.allotted tx, next, below a tx, before)

  held' :
      (tx : Ident)
      → get tx r'.signals ≡ some AttachSignal.pending
      → (b : Ident) × (channel_at r' b ≡ some tx)
  held' tx e = elim (Bool-cases (fresh && (tx == r.next_channel))) [
    | inl t ↦ (a, ground (arith, channels a))
    | inr t ↦
        let prior : get tx r.signals ≡ some AttachSignal.pending = ground (arith, signals tx) in
        let (b, f) = inv.held tx prior in (b, ground (arith, channels b, signals tx, before))
  ]

  pub answer-Inv : Inv r'
  answer-Inv = record {
    sorted = sorted';
    unanswered = unanswered';
    held = held';
    unique = unique';
    allotted = allotted';
    halted = halted';
  }
