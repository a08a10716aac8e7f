-- ===== src/Coordinator/Views.antt =====
-- crates/team/src/work_coordinator/coordinator.rs: where an intent stands, seen from the slots and
-- seen from the intents.
use team_lite.Base.{
  Ident, Bool, false, Option, none, some, get, mem, ◌&&◌, ◌==◌, if◌then◌else◌, ◌≡◌, map_option,
}
use team_lite.Coordinator.Model.{WorkIntentState, WorkBatch}
use team_lite.Coordinator.Slots.{ActiveBatch, SlotState, CoordinatorState, queued_ids}
use team_lite.Coordinator.Snapshot.{is_queued}

-- The batch that a starting or running intent belongs to.
abbrev pub in_flight : WorkIntentState → Option Ident
in_flight (WorkIntentState.starting b op) = some b
in_flight (WorkIntentState.running b op t) = some b
in_flight _ = none

abbrev pub batch_in : SlotState → Ident → Option Ident
batch_in slot i = elim slot.active [
  | none ↦ none
  | some a ↦ if mem i a.batch.intent_ids then some a.batch.batch_id else none
]

abbrev pub queued_in : SlotState → Ident → Bool
queued_in slot i = mem i (queued_ids slot)

abbrev pub queued_at : CoordinatorState → Ident → Ident → Bool
queued_at s sl i = elim (get sl s.slots) [ none ↦ false | some slot ↦ queued_in slot i ]

abbrev pub batch_at : CoordinatorState → Ident → Ident → Option Ident
batch_at s sl i = elim (get sl s.slots) [ none ↦ none | some slot ↦ batch_in slot i ]

abbrev pub waits : CoordinatorState → Ident → Ident → Bool
waits s sl i = elim (get i s.intents) [
  | none ↦ false
  | some w ↦ (w.slot_id == sl) && is_queued w.state
]

abbrev pub works : CoordinatorState → Ident → Ident → Option Ident
works s sl i = elim (get i s.intents) [
  | none ↦ none
  | some w ↦ if w.slot_id == sl then in_flight w.state else none
]

abbrev pub active_batch : CoordinatorState → Ident → Option WorkBatch
active_batch s sl = elim (get sl s.slots) [
  | none ↦ none
  | some slot ↦ map_option (λ (a : ActiveBatch). a.batch) slot.active
]

-- A batch as its holder has it: if the slot's batch has the same identifier, it is the same batch.
abbrev pub Held : CoordinatorState → WorkBatch → Type 0
Held s b = (a : WorkBatch) → active_batch s b.slot_id ≡ some a → a.batch_id ≡ b.batch_id → a ≡ b

-- The batch that each slot works on is one that it worked on before.
abbrev pub Shrinks : CoordinatorState → CoordinatorState → Type 0
Shrinks s s' =
    (sl : Ident) (a : WorkBatch) → active_batch s' sl ≡ some a → active_batch s sl ≡ some a

-- The batch of a slot by itself.
abbrev pub batch_of : SlotState → Option WorkBatch
batch_of slot = map_option (λ (a : ActiveBatch). a.batch) slot.active
