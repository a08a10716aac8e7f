-- ===== src/Coordinator/Mailbox.antt =====
-- crates/team/src/work_coordinator/coordinator.rs: `reconcile_mailbox` and `complete_signals`.
use team_lite.Base.{
  Ident, ℕ, Bool, true, none, some, List, [], ◌∷◌, ◌+◌, Map, get, insert, modify, modify_each,
  values, keep, any, every, collect, mem, not, ◌&&◌, ◌==◌, is_some, some_and, same_option,
  if◌then◌else◌,
}
use team_lite.Coordinator.Source.{WorkPriority, WorkSource}
use team_lite.Coordinator.Model.{
  TeamRunTargetRole, WorkIntentState, WorkIntent, CommitResult, ReconcileProjection, is_terminal,
}
use team_lite.Coordinator.Slots.{
  SlotState, CoordinatorState, Outcome, slot_or_new, queued_ids, push_back, remove_queued_each,
  set_state,
}
use team_lite.Coordinator.Snapshot.{is_queued, run_of, run_summaries_locked}

-- A queued intent whose message is still unread, or that has none, is retained.
abbrev pub is_retained : List Ident → WorkIntent → Bool
is_retained unread w = elim w.mailbox_message_id [ none ↦ true | some message ↦ mem message unread ]

abbrev pub retains : List Ident → Map WorkIntent → Ident → Bool
retains unread intents i = some_and (is_retained unread) (get i intents)

abbrev pub clears : List Ident → Map WorkIntent → Ident → Bool
clears unread intents i = some_and (λ (w : WorkIntent). not (is_retained unread w)) (get i intents)

-- Some intent of the slot that is not terminal carries the message.
abbrev pub owns_message : Ident → Ident → WorkIntent → Bool
owns_message slot_id message w =
    (w.slot_id == slot_id)
    && (same_option w.mailbox_message_id (some message) && not (is_terminal w.state))

unfoldable pub recovery_intent : Ident → Ident → TeamRunTargetRole → ℕ → Ident → Ident → WorkIntent
recovery_intent generation slot_id role now message intent_id = record {
  intent_id = intent_id;
  session_generation = generation;
  slot_id = slot_id;
  role = role;
  source = WorkSource.recovery_drain;
  priority = WorkPriority.background;
  mailbox_message_id = some message;
  team_run_id = none;
  created_at_ms = now;
  state = WorkIntentState.queued;
}

unfoldable pub add_recovery :
    Ident → Ident → TeamRunTargetRole → ℕ → Ident → Ident → CoordinatorState → CoordinatorState
unfolding recovery_intent push_back
add_recovery generation slot_id role now message intent_id s = record s {
  slots = modify slot_id (push_back WorkPriority.background intent_id) s.slots;
  intents =
      insert intent_id (recovery_intent generation slot_id role now message intent_id) s.intents;
}

-- The loop over the unread messages. The n-th identifier that the call generates is `ids n`.
unfoldable pub recover :
    Ident
    → Ident
    → TeamRunTargetRole
    → ℕ
    → (ℕ → Ident)
    → ℕ
    → List Ident
    → CoordinatorState
    → CoordinatorState × List Ident
unfolding add_recovery is_terminal
recover generation slot_id role now ids n [] s = (s, [])
recover generation slot_id role now ids n (message ∷ rest) s =
    let kept = recover generation slot_id role now ids n rest s in
    let (s', created) =
      recover generation slot_id role now ids (n + 1) rest
        (add_recovery generation slot_id role now message (ids n) s) in
    let added : CoordinatorState × List Ident = (s', ids n ∷ created) in
    if any (owns_message slot_id message) (values s.intents) then kept else added

-- The part before the loop: the slot is renewed, and intents whose message was read are completed.
unfoldable pub clear_stale :
    Ident
    → List Ident
    → TeamRunTargetRole
    → CoordinatorState
    → CoordinatorState × List Ident × List Ident
unfolding slot_or_new queued_ids remove_queued_each set_state
clear_stale slot_id unread role s =
    let slot : SlotState = record (slot_or_new role (get slot_id s.slots)) {
      role = role;
      known_unread_message_ids = unread;
    } in
    let retained = keep (retains unread s.intents) (queued_ids slot) in
    let cleared = keep (clears unread s.intents) (queued_ids slot) in
    (
      record s {
        slots = insert slot_id (remove_queued_each cleared slot) s.slots;
        intents = modify_each cleared (set_state WorkIntentState.completed) s.intents;
      },
      retained,
      cleared,
    )

unfoldable pub reconcile_mailbox :
    Ident
    → (ℕ → Ident)
    → ℕ
    → Ident
    → List Ident
    → TeamRunTargetRole
    → CoordinatorState
    → Outcome ReconcileProjection
unfolding clear_stale recover
reconcile_mailbox generation ids now slot_id unread role s =
    let (s', retained, cleared) = clear_stale slot_id unread role s in
    let (t, created) = recover generation slot_id role now ids 0 unread s' in
    record {
      result = record {
        created_recovery_intent_ids = created;
        retained_intent_ids = retained;
        cleared_stale_intent_ids = cleared;
      };
      state = t;
      published = [];
    }

-- A queued signal of the slot: an intent with no message.
abbrev pub is_signal : Ident → WorkIntent → Bool
is_signal slot_id w =
    (w.slot_id == slot_id) && (not (is_some w.mailbox_message_id) && is_queued w.state)

unfoldable pub complete_signals : Ident → List Ident → CoordinatorState → Outcome CommitResult
unfolding remove_queued_each set_state run_summaries_locked
complete_signals slot_id ids s =
    let s' : CoordinatorState = record s {
      slots = modify slot_id (remove_queued_each ids) s.slots;
      intents = modify_each ids (set_state WorkIntentState.completed) s.intents;
    } in
    if not (every (λ i. some_and (is_signal slot_id) (get i s.intents)) ids)
    then record { result = CommitResult.rejected; state = s; published = [] }
    else record {
      result = CommitResult.committed;
      state = s';
      published = run_summaries_locked s' (collect (run_of s.intents) ids);
    }
