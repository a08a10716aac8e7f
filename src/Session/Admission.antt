-- ===== src/Session/Admission.antt =====
-- crates/team/src/session.rs: a lease for a member, and the constraint of its runtime.
use team_lite.Coordinator.Enqueue.{grant_lease, acquire_enqueue}
use team_lite.Coordinator.Slots.{
  validate_constraint, validate_enqueue_constraint, slot_or_new, EnqueueLeaseRecord, SlotState,
  CoordinatorState,
}
use team_lite.Coordinator.Model.{RuntimeConstraint, EnqueueRequest, RunBinding}
use team_lite.Session.Prepare.{constrain_slot, Session}
use team_lite.Store.{Messages, mark_read_batch}
use team_lite.Errors.{Result, ok, Result-cases, err, panicked}
use team_lite.Session.Messages.{acquire_lease, try_then}
use team_lite.Base.{
  ℕ, [], ◌∷◌, Bool, ◌≡◌, Ident, List, length, false, true, Bool-cases, ap, arith, inl, refl, some,
  suc, is_empty, Option-cases, inr, get,
}
use team_lite.Session.Readiness.{constraint_at}
use team_lite.Coordinator.Runtime.{set_runtime_constraint}
use team_lite.Session.Offers.{runtime_of}
use team_lite.TeamRun.Manager.{bind_enqueue}
use team_lite.Coordinator.Acceptance.{takes_work}

abbrev pub is_ok : {A : Type 0} → Result A → Bool
is_ok (ok a) = true
is_ok _ = false

abbrev pub message_count : Session → ℕ
message_count st = length st.scheduler.messages

-- No success, and as many messages as before.
abbrev pub Refused : {A : Type 0} → ℕ → Result A × Session → Type 0
Refused n x = (is_ok x.0 ≡ false) × (message_count x.1 ≡ n)

pub stop :
    {A B : Type 0} (n : ℕ) (x : Result A × Session) (f : A → Session → Result B × Session)
    → Refused n x
    → Refused n (try_then x f)
stop n (ok a, st) f h = ground (arith, h.0)
stop n (err e, st) f h = (refl, h.1)
stop n (panicked, st) f h = (refl, h.1)

pub after :
    {A B : Type 0} (n : ℕ) (x : Result A × Session) (f : A → Session → Result B × Session)
    → message_count x.1 ≡ n
    → ((a : A) → Refused n (f a x.1))
    → Refused n (try_then x f)
after n (ok a, st) f c h = h a
after n (err e, st) f c h = (refl, c)
after n (panicked, st) f c h = (refl, c)

count-mark_read_batch :
    (ids : List Ident) (rows : Messages) → length (mark_read_batch ids rows) ≡ length rows
unfolding mark_read_batch
count-mark_read_batch ids [] = refl
count-mark_read_batch ids (m ∷ ms) = ap suc (count-mark_read_batch ids ms)

pub count-constrain_slot :
    (now : ℕ) (slot_id : Ident) (st : Session)
    → message_count (constrain_slot now slot_id st).1 ≡ message_count st
unfolding constrain_slot
count-constrain_slot now slot_id st =
    elim (Result-cases (set_runtime_constraint slot_id (runtime_of slot_id st) st.work).result) [
      | inl (u, e) ↦ elim (Bool-cases (is_empty u.terminal_message_ids)) [
        | inl b ↦ rw (constrain_slot, e, b) refl
        | inr b ↦
            rw (constrain_slot, e, b)
              (count-mark_read_batch u.terminal_message_ids st.scheduler.messages)
      ]
      | inr (inl (x, e)) ↦ rw (constrain_slot, e) refl
      | inr (inr e) ↦ rw (constrain_slot, e) refl
    ]

validate-refused :
    (slot_id : Ident) (c : RuntimeConstraint)
    → takes_work c ≡ false
    → is_ok (validate_constraint slot_id c) ≡ false
unfolding validate_constraint
validate-refused slot_id RuntimeConstraint.ready h = ground (arith, h)
validate-refused slot_id (RuntimeConstraint.starting op) h = ground (arith, h)
validate-refused slot_id (RuntimeConstraint.failed op cl) h = refl
validate-refused slot_id (RuntimeConstraint.removing op) h = refl
validate-refused slot_id RuntimeConstraint.session_stopped h = refl

validate_enqueue-refused :
    (slot_id : Ident) (slot : SlotState)
    → takes_work slot.runtime_constraint ≡ false
    → is_ok (validate_enqueue_constraint slot_id slot) ≡ false
unfolding validate_enqueue_constraint
validate_enqueue-refused slot_id slot h = elim (Bool-cases slot.removed) [
  | inl e ↦ rw (validate_enqueue_constraint, e) refl
  | inr e ↦ rw (validate_enqueue_constraint, e) (validate-refused slot_id slot.runtime_constraint h)
]

grant_lease-refused :
    (q : EnqueueLeaseRecord) (s : CoordinatorState) (v : Result (Unit {0}))
    → is_ok v ≡ false
    → is_ok (grant_lease q s v).result ≡ false
unfolding grant_lease
grant_lease-refused q s (ok u) h = ground (arith, h)
grant_lease-refused q s (err e) h = refl
grant_lease-refused q s panicked h = refl

acquire_enqueue-refused :
    (g : Ident) (bind : EnqueueRequest → RunBinding) (lease_id : Ident) (r : EnqueueRequest)
    (s : CoordinatorState) (c : RuntimeConstraint)
    → constraint_at r.slot_id s ≡ some c
    → takes_work c ≡ false
    → is_ok (acquire_enqueue g bind lease_id r s).result ≡ false
unfolding acquire_enqueue slot_or_new
acquire_enqueue-refused g bind lease_id r s c h f = elim (Option-cases (get r.slot_id s.slots)) [
  | inl e ↦ ground (arith, h, e)
  | inr (slot, e) ↦
      let held : takes_work slot.runtime_constraint ≡ false = grind (arith, h, e, f) in
      rw (acquire_enqueue, e)
        (grant_lease-refused _ _ _ (validate_enqueue-refused r.slot_id _ held))
]

pub acquire_lease-refused :
    (run_id lease_id : Ident) (r : EnqueueRequest) (st : Session) (c : RuntimeConstraint)
    → constraint_at r.slot_id st.work ≡ some c
    → takes_work c ≡ false
    → Refused (message_count st) (acquire_lease run_id lease_id r st)
unfolding acquire_lease
acquire_lease-refused run_id lease_id r st c h f =
    let refused =
      acquire_enqueue-refused st.generation
        (λ (q : EnqueueRequest). (bind_enqueue run_id q st.run).0) lease_id r st.work c h f in
    elim (Result-cases
      (acquire_enqueue st.generation (λ (q : EnqueueRequest). (bind_enqueue run_id q st.run).0)
        lease_id r st.work).result) [
          | inl (l, e) ↦ ground (arith, refused, e)
          | inr (inl (x, e)) ↦ rw (acquire_lease, e) (refl, refl)
          | inr (inr e) ↦ rw (acquire_lease, e) (refl, refl)
        ]
