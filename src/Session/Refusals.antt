-- ===== src/Session/Refusals.antt =====
-- crates/team/src/session.rs, `commit_persisted_enqueue`: what a refused message leaves.
use team_lite.Base.{
  Ident, ℕ, Bool, true, false, Option, some, [], ◌∷◌, get, remove, any, some_and, not, ◌==◌, ◌&&◌,
  ◌≡◌, refl, ap, ◌∙◌, arith, Option-cases, Bool-cases, inl, inr, get-insert, get-remove,
}
use team_lite.Errors.{Result, err, TeamError, Result-cases}
use team_lite.Coordinator.Model.{EnqueueLease}
use team_lite.Coordinator.Slots.{CoordinatorState}
use team_lite.Coordinator.Enqueue.{commit_enqueue, abort_enqueue, check_commit, is_own_lease}
use team_lite.Session.Enqueue.{commit_persisted_enqueue, abort_lease}
use team_lite.Session.Prepare.{Session}
use team_lite.Store.{Messages, MessageRow, mark_read_batch}

-- The lease is still there for its owner.
abbrev pub owned : Ident → EnqueueLease → CoordinatorState → Bool
owned g lease s = some_and (is_own_lease g lease) (get lease.lease_id s.enqueue_leases)

-- Some message with the identifier is unread.
abbrev pub is_waiting : Ident → Messages → Bool
is_waiting message rows = any (λ (m : MessageRow). (m.id == message) && not m.read) rows

abbrev not_refused {ℓ} : {A : Type ℓ} → Result A → Bool
not_refused (err e) = false
not_refused _ = true

read-settled :
    (message : Ident) (rows : Messages)
    → is_waiting message (mark_read_batch (message ∷ []) rows) ≡ false
unfolding mark_read_batch
read-settled message [] = refl
read-settled message (m ∷ ms) = elim (Bool-cases (m.id == message)) [
  | inl e ↦ ground (arith, e, read-settled message ms)
  | inr e ↦ ground (arith, e, read-settled message ms)
]

aborted-owned :
    (g : Ident) (lease : EnqueueLease) (s : CoordinatorState)
    → owned g lease (abort_enqueue g lease s).state ≡ false
unfolding abort_enqueue
aborted-owned g lease s = elim (Option-cases (get lease.lease_id s.enqueue_leases)) [
  | inl e ↦ rw (abort_enqueue, e, e) refl
  | inr (r, e) ↦ elim (Bool-cases (is_own_lease g lease r)) [
    | inl o ↦
        rw (abort_enqueue, e, o)
          (ground (arith, get-remove lease.lease_id lease.lease_id s.enqueue_leases))
    | inr o ↦
        rw (abort_enqueue, e, o)
          (ground (
            arith,
            o,
            get-insert r.lease.lease_id lease.lease_id r (remove lease.lease_id s.enqueue_leases),
            get-remove lease.lease_id lease.lease_id s.enqueue_leases,
          ))
  ]
]

aborted-intents :
    (g : Ident) (lease : EnqueueLease) (s : CoordinatorState)
    → (abort_enqueue g lease s).state.intents ≡ s.intents
unfolding abort_enqueue
aborted-intents g lease s = elim (Option-cases (get lease.lease_id s.enqueue_leases)) [
  | inl e ↦ rw (abort_enqueue, e) refl
  | inr (r, e) ↦ elim (Bool-cases (is_own_lease g lease r)) [
    | inl o ↦ rw (abort_enqueue, e, o) refl
    | inr o ↦ rw (abort_enqueue, e, o) refl
  ]
]

refused-state :
    (g : Ident) (lease : EnqueueLease) (message : Option Ident) (intent_id : Ident) (now : ℕ)
    (s : CoordinatorState) (e : TeamError)
    → (commit_enqueue g lease message intent_id now s).result ≡ err e
    → (commit_enqueue g lease message intent_id now s).state ≡ s
unfolding commit_enqueue
refused-state g lease message intent_id now s e h =
    elim (Result-cases (check_commit g lease message s)) [
      | inl ((slot, d), c) ↦
          let accepted : not_refused (commit_enqueue g lease message intent_id now s).result
              ≡ true =
            rw (commit_enqueue, c) refl in
          let refused : not_refused (commit_enqueue g lease message intent_id now s).result
              ≡ false =
            ap not_refused h in
          ground (arith, accepted, refused)
      | inr (inl (x, c)) ↦ rw (commit_enqueue, c) refl
      | inr (inr c) ↦ rw (commit_enqueue, c) refl
    ]

-- A stored message whose work is refused leaves nothing behind: no intent is filed, the lease is not
-- held by its owner any longer, and the message is not unread.
pub commit_persisted-refused :
    (now intent_id : Ident) (lease : EnqueueLease) (message : Ident) (st : Session) (e : TeamError)
    → (commit_persisted_enqueue now intent_id lease message st).0 ≡ err e
    → ((commit_persisted_enqueue now intent_id lease message st).1.work.intents ≡ st.work.intents)
      × (owned st.generation lease (commit_persisted_enqueue now intent_id lease message st).1.work
          ≡ false)
      × (is_waiting message
            (commit_persisted_enqueue now intent_id lease message st).1.scheduler.messages
          ≡ false)
unfolding commit_persisted_enqueue abort_lease
commit_persisted-refused now intent_id lease message st e h =
    elim (Result-cases
      (commit_enqueue st.generation lease (some message) intent_id now st.work).result) [
        | inl (c, r) ↦
            let accepted : not_refused (commit_persisted_enqueue now intent_id lease message st).0
                ≡ true =
              rw (commit_persisted_enqueue, r) refl in
            let refused : not_refused (commit_persisted_enqueue now intent_id lease message st).0
                ≡ false =
              ap not_refused h in
            ground (arith, accepted, refused)
        | inr (inl (x, r)) ↦
            let same = refused-state st.generation lease (some message) intent_id now st.work x r in
            rw (commit_persisted_enqueue, r)
              (
                aborted-intents st.generation lease _
                    ∙ ap (λ (s : CoordinatorState). s.intents) same,
                aborted-owned st.generation lease _,
                read-settled message _,
              )
        | inr (inr r) ↦
            let accepted : not_refused (commit_persisted_enqueue now intent_id lease message st).0
                ≡ true =
              rw (commit_persisted_enqueue, r) refl in
            let refused : not_refused (commit_persisted_enqueue now intent_id lease message st).0
                ≡ false =
              ap not_refused h in
            ground (arith, accepted, refused)
      ]
