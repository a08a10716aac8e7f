-- ===== src/Coordinator/Summary.antt =====
-- crates/team/src/work_coordinator/snapshot.rs: the counts of a run summary.
use team_lite.Base.{
  Ident, Bool, false, Option, none, [], ◌≡◌, ◌&&◌, keep, values, length, collect, keep_none,
  collect-none, keep-keep, to_set, arith, ap, Bool-cases, inl, inr,
}
use team_lite.Coordinator.Model.{WorkIntent, RunWorkSummary}
use team_lite.Coordinator.Slots.{CoordinatorState}
use team_lite.Coordinator.Snapshot.{
  is_queued, of_run, starting_batch, running_batch, run_intents, slot_paused, run_summary_locked,
}
use team_lite.Coordinator.Views.{in_flight}
use team_lite.Coordinator.Invariant.{Inv}
use team_lite.Coordinator.Preserve.CancelRun.{Settled}

-- The counts of a summary, but for the failed intents.
pub record NoneCounted (m : RunWorkSummary) : Type 0 where
  pub queued : m.queued_intent_count ≡ 0
  pub starting : m.starting_batch_count ≡ 0
  pub running : m.running_batch_count ≡ 0
  pub leases : m.active_enqueue_lease_count ≡ 0
  pub paused : m.paused_intent_count ≡ 0

module _ (run : Ident) (s : CoordinatorState) (inv : Inv s) (settled : Settled run s) where
  abbrev mine : WorkIntent → Bool
  mine w = of_run run w.team_run_id

  queued_none :
      (p : WorkIntent → Bool)
      → ((w : WorkIntent) → is_queued w.state ≡ false → p w ≡ false)
      → keep p (run_intents s run) ≡ []
  queued_none p h = rw (keep-keep p mine (values s.intents)) (
      keep_none (λ w. mine w && p w) s.intents inv.sorted
        (λ j w g. elim (Bool-cases (mine w)) [
          | inl e ↦ ground (arith, h w (settled.no_queued j w g e), e)
          | inr e ↦ ground (arith, e)
        ]))

  flight_none :
      (f : WorkIntent → Option Ident)
      → ((w : WorkIntent) → in_flight w.state ≡ none → f w ≡ none)
      → collect f (run_intents s run) ≡ []
  flight_none f h =
      collect-none f mine s.intents inv.sorted (λ j w g e. h w (settled.no_flight j w g e))

  -- A run without work is summed up as such.
  pub settled_summary : NoneCounted (run_summary_locked s run)
  unfolding run_summary_locked
  settled_summary = record {
    queued = ap length (queued_none (λ w. is_queued w.state) (λ w h. h));
    starting =
        ap (λ xs. length (to_set xs))
          (flight_none (λ w. starting_batch w.state) (λ w h. ground arith));
    running =
        ap (λ xs. length (to_set xs))
          (flight_none (λ w. running_batch w.state) (λ w h. ground arith));
    leases = ap length settled.no_lease;
    paused = ap length (
        queued_none (λ w. is_queued w.state && slot_paused s w.slot_id) (λ w h. ground (arith, h)));
  }
