-- ===== src/MemberRuntime/Model.antt =====
-- crates/team/src/member_runtime.rs: the types of the registry. A watch channel is an address in a
-- store of signals; a sender and a receiver are the channel's address.
use team_lite.Base.{Ident, ℕ, String, Bool, Map}

pub record MemberRuntimeFailure : Type 0 where
  pub classification : String
  pub public_reason : String

pub data AttachOutcome : Type 0 where
  ready : AttachOutcome
  failed : MemberRuntimeFailure → AttachOutcome
  removed session_stopped : AttachOutcome

pub data AttachSignal : Type 0 where
  pending : AttachSignal
  terminal : AttachOutcome → AttachSignal

pub record AttachWaiter : Type 0 where
  pub operation_id : ℕ
  pub outcome_rx : Ident

pub record AttachLease : Type 0 where
  pub session_generation : Ident
  pub agent_id : Ident
  pub waiter : AttachWaiter

pub record RemoveLease : Type 0 where
  pub session_generation : Ident
  pub agent_id : Ident
  pub operation_id : ℕ

pub data ReserveAttach : Type 0 where
  start : AttachLease → ReserveAttach
  join : AttachWaiter → ReserveAttach
  already_ready : ReserveAttach
  removing : AttachWaiter → ReserveAttach
  session_stopped : ReserveAttach

pub data BeginRemove : Type 0 where
  start : RemoveLease → BeginRemove
  join : AttachWaiter → BeginRemove
  absent session_stopped : BeginRemove

pub data MemberRuntimeSnapshot : Type 0 where
  absent : MemberRuntimeSnapshot
  attaching : ℕ → MemberRuntimeSnapshot
  ready : MemberRuntimeSnapshot
  failed : ℕ → MemberRuntimeFailure → MemberRuntimeSnapshot
  removing : ℕ → MemberRuntimeSnapshot
  session_stopped : MemberRuntimeSnapshot

-- Each case has the identifier of its operation and the channel of its outcome.
pub data MemberRuntimeEntry : Type 0 where
  attaching : ℕ → Ident → MemberRuntimeEntry
  ready : MemberRuntimeEntry
  failed : ℕ → MemberRuntimeFailure → Ident → MemberRuntimeEntry
  removing : ℕ → Ident → MemberRuntimeEntry

-- The registry with its channels: those made so far have the numbers below `next_channel`.
pub record Registry : Type 0 where
  pub session_generation : Ident
  pub next_operation_id : ℕ
  pub entries : Map MemberRuntimeEntry
  pub stopped : Bool
  pub signals : Map AttachSignal
  pub next_channel : ℕ
