-- ===== src/TeamRun/Binding.antt =====
-- crates/team/src/team_run/manager.rs: the binding of messages to runs, and the effect of
-- summaries.
use team_lite.Base.{
  Ident, ℕ, Bool, true, false, none, some, ◌≡◌, refl, ltb, ◌==◌, if◌then◌else◌, Bool-cases,
  Option-cases, inl, inr, arith, is_some, not, ==_refl, ◌||◌,
}
use mathlib.Core.Bool.{decide}
use team_lite.TeamRun.Record.{
  TeamRunStatus-discrete, TeamRunStatus, TeamRunRecord, TeamRunEvent, is_active, accepted, running,
  cancelling, completed, cancelled, failed, run_accepted,
}
use team_lite.TeamRun.Manager.{
  same_status, status_event, TeamRunState, active_run, new_run, bind_user_enqueue,
  current_active_run_id, follow, apply_to_run, apply_work_summary, no_work, change_event,
}
use team_lite.Coordinator.Model.{TeamRunTargetRole, RunWorkSummary, RunBinding}
use team_lite.TeamRun.Payload.{payload}

-- The manager's active run is the one that was bound.
pub record Bound (run_id : Ident) (st st' : TeamRunState) (b : RunBinding) : Type 0 where
  pub active : current_active_run_id st' ≡ b.team_run_id
  pub bound : is_some b.team_run_id ≡ true
  pub fresh : b.created_new_run ≡ not (is_some (current_active_run_id st))
  pub intervention : b.user_intervention ≡ is_some (current_active_run_id st)
  pub joined : (r : Ident) → current_active_run_id st ≡ some r → b.team_run_id ≡ some r
  pub created : current_active_run_id st ≡ none → b.team_run_id ≡ some run_id

active_lem :
    (st : TeamRunState) (run : TeamRunRecord)
    → active_run st ≡ some run
    → is_active run.status ≡ true
unfolding active_run
active_lem none run e = cc
active_lem (some r) run e = elim (Bool-cases (is_active r.status)) [
  | inl f ↦ ground (arith, e, f)
  | inr f ↦ absurd (ground (arith, e, f))
]

-- A user's message is bound to the active run if there is one, and otherwise to a new run; the
-- manager's active run afterwards is the one it is bound to.
pub bind_user_enqueue-Bound :
    (run_id slot_id : Ident) (role : TeamRunTargetRole) (st : TeamRunState)
    → let (b, st') = bind_user_enqueue run_id slot_id role st in Bound run_id st st' b
unfolding bind_user_enqueue current_active_run_id
bind_user_enqueue-Bound run_id slot_id role st = elim (Option-cases (active_run st)) [
  | inl e ↦
      rw (e, bind_user_enqueue)
        (record {
          active = unfold active_run new_run is_active in refl;
          bound = refl;
          fresh = rw e refl;
          intervention = rw e refl;
          joined = λ r h. absurd (ground (arith, h, e));
          created = λ h. refl;
        })
  | inr (run, e) ↦
      rw (e, bind_user_enqueue)
        (record {
          active = unfold active_run in ground (arith, active_lem st run e);
          bound = refl;
          fresh = rw e refl;
          intervention = rw e refl;
          joined = λ r h. ground (arith, h, e);
          created = λ h. absurd (ground (arith, h, e));
        })
]

-- What a summary of the run does to it: the run ends, at that time, exactly if the summary counts a
-- failed intent or counts no work at all, and as cancelled only if it was being cancelled; otherwise
-- its end is not set; and it has been announced.
pub record Followed (now : ℕ) (m : RunWorkSummary) (run run' : TeamRunRecord) : Type 0 where
  pub same_run : run'.team_run_id ≡ run.team_run_id
  pub goes_on : is_active run'.status ≡ not (ltb 0 m.failed_intent_count || no_work m)
  pub ends : (ltb 0 m.failed_intent_count || no_work m) ≡ true → run'.completed_at_ms ≡ some now
  pub open_ended :
      (ltb 0 m.failed_intent_count || no_work m) ≡ false
      → run'.completed_at_ms ≡ run.completed_at_ms
  pub cancels : run'.status ≡ cancelled → run.status ≡ cancelling
  pub shown : run'.summary ≡ some m
  pub announced : run'.accepted_emitted ≡ true

cancelled_lem :
    (st : TeamRunStatus)
    → (if same_status st cancelling then cancelled else completed) ≡ cancelled
    → st ≡ cancelling
unfolding decide TeamRunStatus-discrete
cancelled_lem accepted e = cc
cancelled_lem running e = cc
cancelled_lem cancelling e = refl
cancelled_lem completed e = cc
cancelled_lem cancelled e = cc
cancelled_lem failed e = cc

ended_lem :
    (st : TeamRunStatus)
    → is_active (if same_status st cancelling then cancelled else completed) ≡ false
unfolding is_active
ended_lem st = ground arith

apply_to_run-Followed :
    (team_id : Ident) (now : ℕ) (m : RunWorkSummary) (run : TeamRunRecord)
    → is_active run.status ≡ true
    → Followed now m run (apply_to_run team_id now m run).0
unfolding apply_to_run follow
apply_to_run-Followed team_id now m run a = elim (Bool-cases (ltb 0 m.failed_intent_count)) [
  | inl e ↦ rw e (record {
    same_run = refl;
    goes_on = unfold is_active in ground (arith, e);
    ends = λ h. refl;
    open_ended = λ h. absurd (ground (arith, e, h));
    cancels = λ h. cc;
    shown = refl;
    announced = refl;
  })
  | inr e ↦ elim (Bool-cases (no_work m)) [
    | inl f ↦
        rw (e, f)
          (record {
            same_run = refl;
            goes_on = ground (arith, e, f, ended_lem run.status);
            ends = λ h. refl;
            open_ended = λ h. absurd (ground (arith, e, f, h));
            cancels = cancelled_lem run.status;
            shown = refl;
            announced = refl;
          })
    | inr f ↦ elim (Bool-cases (ltb 0 m.running_batch_count)) [
      | inl k ↦
          rw (e, f, k)
            (record {
              same_run = refl;
              goes_on = unfold is_active in ground (arith, e, f);
              ends = λ h. absurd (ground (arith, e, f, h));
              open_ended = λ h. refl;
              cancels = λ h. cc;
              shown = refl;
              announced = refl;
            })
      | inr k ↦
          rw (e, f, k)
            (record {
              same_run = refl;
              goes_on = ground (arith, a, e, f);
              ends = λ h. absurd (ground (arith, e, f, h));
              open_ended = λ h. refl;
              cancels = λ h. absurd (unfold is_active in ground (arith, h, a));
              shown = refl;
              announced = refl;
            })
    ]
  ]
]

status_event_lem : (st : TeamRunStatus) → status_event st ≡ run_accepted → ⊥
status_event_lem accepted e = cc
status_event_lem running e = cc
status_event_lem cancelling e = cc
status_event_lem completed e = cc
status_event_lem cancelled e = cc
status_event_lem failed e = cc

change_event_lem : (old new : TeamRunStatus) → change_event old new ≡ run_accepted → ⊥
unfolding change_event
change_event_lem old new e = elim (Bool-cases (same_status old new)) [
  | inl f ↦ absurd (ground (arith, e, f))
  | inr f ↦ status_event_lem new (ground (arith, e, f))
]

announced_lem :
    (b : Bool) (old new : TeamRunStatus)
    → (if b then change_event old new else run_accepted) ≡ run_accepted
    → b ≡ false
announced_lem false old new e = refl
announced_lem true old new e = absurd (change_event_lem old new e)

-- A summary that names the active run is followed, and sends one event, which is the announcement of
-- the run if and only if the run had not been announced.
pub apply_work_summary-Followed :
    (team_id : Ident) (now : ℕ) (m : RunWorkSummary) (run : TeamRunRecord)
    → is_active run.status ≡ true
    → run.team_run_id ≡ m.team_run_id
    → (run' : TeamRunRecord) × (event : TeamRunEvent) × (apply_work_summary team_id now m (some run)
        ≡ (some run', some (event, payload team_id now run' m)))
      × Followed now m run run'
      × (run.accepted_emitted ≡ false → event ≡ run_accepted)
      × (event ≡ run_accepted → run.accepted_emitted ≡ false)
unfolding apply_work_summary apply_to_run
apply_work_summary-Followed team_id now m run a own =
    let same : (run.team_run_id == m.team_run_id) ≡ true = rw (own) (==_refl m.team_run_id) in
    (
      (apply_to_run team_id now m run).0,
      (if run.accepted_emitted
          then change_event run.status (follow now m (record run { summary = some m })).status
          else run_accepted),
      rw (same) refl,
      apply_to_run-Followed team_id now m run a,
      λ h. rw (h) refl,
      λ h. announced_lem run.accepted_emitted run.status _ h,
    )
