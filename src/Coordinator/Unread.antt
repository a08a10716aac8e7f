-- ===== src/Coordinator/Unread.antt =====
-- crates/team/src/work_coordinator/coordinator.rs: the unread messages that `reconcile_mailbox` is
-- given.
use team_lite.Base.{
  Ident, ℕ, Bool, true, none, some, List, [], ◌∷◌, ◌≡◌, sym, get, mem, Map, Sorted, ◌==◌,
  Bool-cases, inl, inr, arith, get-insert, any, insert-Sorted, values, From, ==_refl, ◌+◌, suc,
  get-above, subst, ==_eq,
}
use team_lite.Coordinator.Model.{WorkIntent, TeamRunTargetRole, is_terminal}
use team_lite.Coordinator.Slots.{CoordinatorState}
use team_lite.Coordinator.Invariant.{Inv}
use team_lite.Coordinator.Mailbox.{
  add_recovery, reconcile_mailbox, owns_message, recover, recovery_intent, clear_stale,
}
use team_lite.Coordinator.Preserve.Recovery.{Fresh, later-Fresh}
use team_lite.Coordinator.Preserve.Mailbox.{clear_stale-Inv, clear_stale-unused}

-- An open intent of the slot carries the message.
abbrev pub Carried : Ident → Ident → CoordinatorState → Type 0
Carried t message s =
    (i : Ident) × (w : WorkIntent) × (get i s.intents ≡ some w) × (owns_message t message w ≡ true)

found-From :
    (n : ℕ) (P : WorkIntent → Bool) (m : Map WorkIntent)
    → From n m
    → any P (values m) ≡ true
    → (i : Ident) × (w : WorkIntent) × (get i m ≡ some w) × (P w ≡ true)
found-From n P [] s h = cc
found-From n P ((k, v) ∷ m) s h = elim (Bool-cases (P v)) [
  | inl e ↦ (k, v, ground (arith, ==_refl k), e)
  | inr e ↦
      let (i, w, g, p) = found-From (suc k) P m s.1 (ground (arith, h, e)) in
      (i, w, ground (arith, g, get-above (suc k) i m s.1), p)
]

module _ (g t : Ident) (role : TeamRunTargetRole) (now : ℕ) (ids : ℕ → Ident) where
  added_carries :
      (message n : Ident) (s : CoordinatorState)
      → Carried t message (add_recovery g t role now message n s)
  unfolding add_recovery recovery_intent is_terminal
  added_carries message n s = (
    n,
    recovery_intent g t role now message n,
    ground (arith, get-insert n n (recovery_intent g t role now message n) s.intents),
    ground (arith, ==_refl t, ==_refl message),
  )

  added_keeps :
      (message n i : Ident) (w : WorkIntent) (s : CoordinatorState)
      → get n s.intents ≡ none
      → get i s.intents ≡ some w
      → get i (add_recovery g t role now message n s).intents ≡ some w
  unfolding add_recovery
  added_keeps message n i w s f h =
      ground (arith, get-insert n i (recovery_intent g t role now message n) s.intents, f, h)

  recover_keeps :
      (unread : List Ident) (n : ℕ) (i : Ident) (w : WorkIntent) (s : CoordinatorState)
      → Fresh ids n s
      → get i s.intents ≡ some w
      → get i (recover g t role now ids n unread s).0.intents ≡ some w
  unfolding recover
  recover_keeps [] n i w s f h = h
  recover_keeps (message ∷ rest) n i w s f h =
      elim (Bool-cases (any (owns_message t message) (values s.intents))) [
        | inl e ↦ rw (e, recover) (recover_keeps rest n i w s f h)
        | inr e ↦
            rw (e, recover)
              (recover_keeps rest (n + 1) i w (add_recovery g t role now message (ids n) s)
                (later-Fresh g t role now ids message n s f)
                (added_keeps message (ids n) i w s (f.unused n (omega arith)) h))
      ]

  recover_carries :
      (unread : List Ident) (n : ℕ) (m : Ident) (s : CoordinatorState)
      → Sorted s.intents
      → Fresh ids n s
      → mem m unread ≡ true
      → Carried t m (recover g t role now ids n unread s).0
  unfolding recover
  recover_carries [] n m s sorted f h = cc
  recover_carries (message ∷ rest) n m s sorted f h =
      let s' : CoordinatorState = add_recovery g t role now message (ids n) s in
      let f' : Fresh ids (n + 1) s' = later-Fresh g t role now ids message n s f in
      elim (Bool-cases (any (owns_message t message) (values s.intents))) [
        | inl e ↦
            rw (e, recover)
              (elim (Bool-cases (m == message)) [
                | inl q ↦
                    let (i, w, k, o) = found-From 0 (owns_message t message) s.intents sorted e in
                    (
                      i,
                      w,
                      recover_keeps rest n i w s f k,
                      subst (λ x. owns_message t x w ≡ true) (sym (==_eq m message q)) o,
                    )
                | inr q ↦ recover_carries rest n m s sorted f (ground (arith, h, q))
              ])
        | inr e ↦
            rw (e, recover)
              (elim (Bool-cases (m == message)) [
                | inl q ↦
                    let (i, w, k, o) = added_carries message (ids n) s in
                    (
                      i,
                      w,
                      recover_keeps rest (n + 1) i w s' f' k,
                      subst (λ x. owns_message t x w ≡ true) (sym (==_eq m message q)) o,
                    )
                | inr q ↦
                    recover_carries rest (n + 1) m s'
                      (unfold add_recovery in
                        insert-Sorted (ids n) (recovery_intent g t role now message (ids n))
                          s.intents sorted)
                      f' (ground (arith, h, q))
              ])
      ]

-- After `reconcile_mailbox` with new identifiers, on a state that meets the invariant, every message
-- that it was told is unread is carried by an intent of the slot that is not in a final state.
pub reconcile_mailbox-Carried :
    (g t : Ident) (role : TeamRunTargetRole) (now : ℕ) (ids : ℕ → Ident) (unread : List Ident)
    (message : Ident) (s : CoordinatorState)
    → Inv s
    → Fresh ids 0 s
    → mem message unread ≡ true
    → Carried t message (reconcile_mailbox g ids now t unread role s).state
unfolding reconcile_mailbox
reconcile_mailbox-Carried g t role now ids unread message s inv f m =
    recover_carries g t role now ids unread 0 message (clear_stale t unread role s).0
      (clear_stale-Inv t unread role s inv).sorted
      (record {
        unused = λ k h. clear_stale-unused t unread role s inv (ids k) (f.unused k h);
        distinct = f.distinct;
      })
      m
