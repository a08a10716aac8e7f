-- ===== src/Scheduler/Wakes.antt =====
-- crates/team/src/scheduler/state.rs: attempts to wake a member that come between each other.
use team_lite.Base.{
  [], ◌∷◌, true, false, some, ◌++◌, Ident, List, Bool, inl, ◌≡◌, inr, Bool-cases, Option-cases, ◌⊎◌,
  ◌∙◌, get, refl, sym, ap,
}
use team_lite.Scheduler.State.{Json, set_status, get_status}
use team_lite.Scheduler.Wake.{
  wake_step, WakeAttempt, run_wakes, check_set, build_wake_payload, check_idle,
}
use team_lite.Errors.{Result, ok, err, panicked}
use team_lite.Scheduler.Model.{TeammateStatus, TeammateManager, get_agent, is_idle}
use team_lite.Mailbox.{MailboxMessage, read_unread}
use team_lite.Mailbox.Delivery.{read_unread-once}

module _ {Value : Type 0} (json : Json Value) where
  -- The messages that an attempt has been given.
  abbrev pub handed : WakeAttempt json → List MailboxMessage
  handed (WakeAttempt.finished (ok (some p))) = p.unread_messages
  handed _ = []

  -- The attempt has woken the member.
  abbrev pub has_woken : WakeAttempt json → Bool
  has_woken (WakeAttempt.finished (ok (some p))) = true
  has_woken _ = false

  -- The messages that wait for a member, as they would be read.
  abbrev pub waiting : Ident → TeammateManager → List MailboxMessage
  waiting slot_id m = (read_unread json.write_files json.read_files m.team_id slot_id m.messages).0

  -- Nothing is handed over, or all that waits.
  abbrev Handing :
      List MailboxMessage → List MailboxMessage → List MailboxMessage → List MailboxMessage → Type 0
  Handing h w h' w' = ((h' ≡ h) × (w' ≡ w)) ⊎ ((h ≡ []) × (h' ≡ w) × (w' ≡ []))

  check_idle-handed : (s : Result TeammateStatus) → handed (check_idle json s) ≡ []
  check_idle-handed (ok current) = elim (Bool-cases (is_idle current)) [
    | inl e ↦ rw e refl
    | inr e ↦ rw e refl
  ]
  check_idle-handed (err e) = refl
  check_idle-handed panicked = refl

  check_set-handed : (s : Result (Unit {0})) → handed (check_set json s) ≡ []
  check_set-handed (ok u) = refl
  check_set-handed (err e) = refl
  check_set-handed panicked = refl

  set_status-waiting :
      (slot_id : Ident) (status : TeammateStatus) (m : TeammateManager)
      → waiting slot_id (set_status slot_id status m).1 ≡ waiting slot_id m
  unfolding set_status
  set_status-waiting slot_id status m = elim (Option-cases (get slot_id m.slots)) [
    | inl e ↦ rw (set_status, e) refl
    | inr (s, e) ↦ rw (set_status, e) refl
  ]

  step-Handing :
      (slot_id : Ident) (a : WakeAttempt json) (m : TeammateManager)
      → Handing
          (handed a)
          (waiting slot_id m)
          (handed (wake_step json slot_id a m).0)
          (waiting slot_id (wake_step json slot_id a m).1)
  unfolding wake_step build_wake_payload get_agent
  step-Handing slot_id WakeAttempt.begun m = inl (check_idle-handed (get_status slot_id m), refl)
  step-Handing slot_id WakeAttempt.found_idle m = inl (
    check_set-handed (set_status slot_id TeammateStatus.working m).0,
    set_status-waiting slot_id TeammateStatus.working m,
  )
  step-Handing slot_id WakeAttempt.set_working m = elim (Option-cases (get slot_id m.slots)) [
    | inl e ↦ rw (wake_step, build_wake_payload, get_agent, e) (inl (refl, refl))
    | inr (s, e) ↦
        let (found, again, others) =
          read_unread-once json.write_files json.read_files m.team_id slot_id m.messages in
        rw (wake_step, build_wake_payload, get_agent, e) (inr (refl, refl, ap (λ x. x.0) again))
  ]
  step-Handing slot_id (WakeAttempt.finished r) m = inl (refl, refl)

  -- All of `u` is still to be read, or one of two has it all.
  abbrev Dealt :
      List MailboxMessage → List MailboxMessage → List MailboxMessage → List MailboxMessage → Type 0
  Dealt u h k w =
      ((h ≡ []) × (k ≡ []) × (w ≡ u)) ⊎ ((w ≡ []) × (((h ≡ u) × (k ≡ [])) ⊎ ((h ≡ []) × (k ≡ u))))

  Dealt-step :
      (u h k w h' w' : List MailboxMessage) → Handing h w h' w' → Dealt u h k w → Dealt u h' k w'
  Dealt-step u h k w h' w' (inl (e, f)) d = rw (e, f) d
  Dealt-step u h k w h' w' (inr (e, f, g)) (inl (p, q, r)) = inr (g, inl (f ∙ r, q))
  Dealt-step u h k w h' w' (inr (e, f, g)) (inr (p, inl (q, r))) =
      inr (g, inl (f ∙ p ∙ sym e ∙ q, r))
  Dealt-step u h k w h' w' (inr (e, f, g)) (inr (p, inr (q, r))) = inr (g, inr (f ∙ p, r))

  Dealt-swap : (u h k w : List MailboxMessage) → Dealt u h k w → Dealt u k h w
  Dealt-swap u h k w (inl (p, q, r)) = inl (q, p, r)
  Dealt-swap u h k w (inr (p, inl (q, r))) = inr (p, inr (r, q))
  Dealt-swap u h k w (inr (p, inr (q, r))) = inr (p, inl (r, q))

  run-Dealt :
      (slot_id : Ident) (turns : List Bool) (a b : WakeAttempt json) (m : TeammateManager)
      (u : List MailboxMessage)
      → Dealt u (handed a) (handed b) (waiting slot_id m)
      → let (a', b', m') = run_wakes json slot_id turns a b m in
        Dealt u (handed a') (handed b') (waiting slot_id m')
  unfolding run_wakes
  run-Dealt slot_id [] a b m u d = d
  run-Dealt slot_id (true ∷ turns) a b m u d =
      run-Dealt slot_id turns (wake_step json slot_id a m).0 b (wake_step json slot_id a m).1 u
        (Dealt-step u _ _ _ _ _ (step-Handing slot_id a m) d)
  run-Dealt slot_id (false ∷ turns) a b m u d =
      run-Dealt slot_id turns a (wake_step json slot_id b m).0 (wake_step json slot_id b m).1 u (
        Dealt-swap u _ _ _
          (Dealt-step u _ _ _ _ _ (step-Handing slot_id b m) (Dealt-swap u _ _ _ d)))

  nothing_after : (h : List MailboxMessage) → h ++ [] ≡ h
  nothing_after [] = refl
  nothing_after (x ∷ xs) = ap (λ t. x ∷ t) (nothing_after xs)

  joined : (u h k w : List MailboxMessage) → Dealt u h k w → h ++ k ++ w ≡ u
  joined u h k w (inl (p, q, r)) = rw (p, q) r
  joined u h k w (inr (p, inl (q, r))) = rw (p, r) (nothing_after (h ++ []) ∙ nothing_after h ∙ q)
  joined u h k w (inr (p, inr (q, r))) = rw (p, q) (nothing_after k ∙ r)

  -- Two attempts to wake a member, whose steps come in any order, neither lose a message that waits
  -- for it nor take one twice: what the two were given and what still waits is what waited at first.
  pub wakes-dealt :
      (slot_id : Ident) (turns : List Bool) (m : TeammateManager)
      → let (a, b, m') = run_wakes json slot_id turns WakeAttempt.begun WakeAttempt.begun m in
        handed a ++ handed b ++ waiting slot_id m' ≡ waiting slot_id m
  wakes-dealt slot_id turns m = joined _ _ _ _ (
      run-Dealt slot_id turns WakeAttempt.begun WakeAttempt.begun m (waiting slot_id m)
        (inl (refl, refl, refl)))
