-- ===== src/Errors.antt =====
-- crates/team/src/error.rs: those of its errors that the modelled operations return. The text of an
-- `InvalidRequest` is kept as the value that its message is formatted from.
use team_lite.Base.{Ident, String, ◌≡◌, ◌⊎◌, inl, inr, refl}

pub data RequestFault : Type 0 where
  lease_inactive stale_lease_owner : RequestFault
  needs_mailbox_message lost_team_run : RequestFault
  slot_was_removed slot_being_removed slot_session_stopped : Ident → RequestFault
  slot_runtime_failed : String → Ident → RequestFault
  run_not_active : Ident → RequestFault
  invalid_message_type : String → RequestFault
  shutdown_target_mismatch : Ident → Ident → RequestFault
  empty_name not_the_lead shutdown_of_lead : RequestFault

-- crates/store/src/error.rs: the one error of the in-memory repository.
pub data DbError : Type 0 where
  not_found : Ident → DbError

pub data TeamError : Type 0 where
  agent_not_found task_not_found blocked_task_not_found : Ident → TeamError
  duplicate_agent_name leader_only : String → TeamError
  json : TeamError
  database : DbError → TeamError
  invalid_request : RequestFault → TeamError

-- `panicked` is a failed `expect` or an `unreachable!`.
pub data Result {ℓ} (A : Type ℓ) : Type ℓ where
  ok : A → Result A
  err : TeamError → Result A
  panicked : Result A

infixl 5 ◌>>=◌
abbrev pub ◌>>=◌ {ℓ κ} : {A : Type ℓ} {B : Type κ} → Result A → (A → Result B) → Result B
ok a >>= f = f a
err e >>= f = err e
panicked >>= f = panicked

pub Result-cases {ℓ} :
    {A : Type ℓ} (r : Result A)
    → ((a : A) × (r ≡ ok a)) ⊎ (((e : TeamError) × (r ≡ err e)) ⊎ (r ≡ panicked))
Result-cases (ok a) = inl (a, refl)
Result-cases (err e) = inr (inl (e, refl))
Result-cases panicked = inr (inr refl)
