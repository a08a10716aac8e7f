-- ===== src/Coordinator/Preserve/Recovery.antt =====
-- crates/team/src/work_coordinator/coordinator.rs: the recovery loop of `reconcile_mailbox`, and
-- the invariant.
use team_lite.Base.{
  Ident, ℕ, none, some, List, [], ◌∷◌, ◌≡◌, refl, get, Bool-cases, inl, inr, arith, get-modify,
  get-insert, any, insert-Sorted, values, ◌≤◌, ◌+◌,
}
use team_lite.Coordinator.Source.{WorkPriority}
use team_lite.Coordinator.Model.{TeamRunTargetRole}
use team_lite.Coordinator.Slots.{SlotState, CoordinatorState, push_back}
use team_lite.Coordinator.Invariant.{Inv, add-Inv}
use team_lite.Coordinator.Preserve.Slots.{queued-push_back, active-push_back}
use team_lite.Coordinator.Preserve.Mailbox.{clear_stale-Inv, clear_stale-slot, clear_stale-unused}
use team_lite.Coordinator.Mailbox.{
  owns_message, add_recovery, recovery_intent, recover, clear_stale, reconcile_mailbox,
}

-- The slot is there, and an intent identifier is new.
add_recovery-Inv :
    (generation t : Ident) (role : TeamRunTargetRole) (now message n : Ident) (slot : SlotState)
    (s : CoordinatorState)
    → Inv s
    → get t s.slots ≡ some slot
    → get n s.intents ≡ none
    → Inv (add_recovery generation t role now message n s)
unfolding add_recovery recovery_intent
add_recovery-Inv generation t role now message n slot s inv here fresh =
    add-Inv s _ t n (recovery_intent generation t role now message n) inv fresh
      (λ sl i. ground (
        arith,
        get-modify t sl (push_back WorkPriority.background n) s.slots,
        queued-push_back WorkPriority.background n i slot,
        here,
      ))
      (λ sl i. ground (
        arith,
        get-modify t sl (push_back WorkPriority.background n) s.slots,
        active-push_back WorkPriority.background n slot,
        here,
      ))
      (λ i. get-insert n i _ s.intents) (insert-Sorted n _ s.intents inv.sorted) refl refl refl

-- The identifiers that a call generates from the n-th on are new, and all different.
pub record Fresh (ids : ℕ → Ident) (n : ℕ) (s : CoordinatorState) : Type 0 where
  pub unused : (k : ℕ) → n ≤ k → get (ids k) s.intents ≡ none
  pub distinct : (j k : ℕ) → ids j ≡ ids k → j ≡ k

module _ (generation t : Ident) (role : TeamRunTargetRole) (now : Ident) (ids : ℕ → Ident) where
  pub later-Fresh :
      (message : Ident) (n : ℕ) (s : CoordinatorState)
      → Fresh ids n s
      → Fresh ids (n + 1) (add_recovery generation t role now message (ids n) s)
  unfolding add_recovery
  later-Fresh message n s f = record {
    unused = λ k h. ground (
      arith,
      get-insert (ids n) (ids k) (recovery_intent generation t role now message (ids n)) s.intents,
      f.unused k (omega arith),
      f.distinct k n,
    );
    distinct = f.distinct;
  }

  later_slot :
      (message n : Ident) (slot : SlotState) (s : CoordinatorState)
      → get t s.slots ≡ some slot
      → get t (add_recovery generation t role now message n s).slots
        ≡ some (push_back WorkPriority.background n slot)
  unfolding add_recovery
  later_slot message n slot s here =
      ground (arith, get-modify t t (push_back WorkPriority.background n) s.slots)

  pub recover-Inv :
      (unread : List Ident) (n : ℕ) (slot : SlotState) (s : CoordinatorState)
      → Inv s
      → get t s.slots ≡ some slot
      → Fresh ids n s
      → Inv (recover generation t role now ids n unread s).0
  unfolding recover
  recover-Inv [] n slot s inv here f = inv
  recover-Inv (message ∷ rest) n slot s inv here f =
      elim (Bool-cases (any (owns_message t message) (values s.intents))) [
        | inl e ↦ rw (e, recover) (recover-Inv rest n slot s inv here f)
        | inr e ↦
            rw (e, recover)
              (recover-Inv rest (n + 1) (push_back WorkPriority.background (ids n) slot) _
                (add_recovery-Inv generation t role now message (ids n) slot s inv here
                  (f.unused n (omega arith)))
                (later_slot message (ids n) slot s here) (later-Fresh message n s f))
      ]

  pub reconcile_mailbox-Inv :
      (unread : List Ident) (s : CoordinatorState)
      → Inv s
      → Fresh ids 0 s
      → Inv (reconcile_mailbox generation ids now t unread role s).state
  unfolding reconcile_mailbox
  reconcile_mailbox-Inv unread s inv f =
      recover-Inv unread 0 _ (clear_stale t unread role s).0 (clear_stale-Inv t unread role s inv)
        (clear_stale-slot t unread role s inv)
        (record {
          unused = λ k h. clear_stale-unused t unread role s inv (ids k) (f.unused k h);
          distinct = f.distinct;
        })
