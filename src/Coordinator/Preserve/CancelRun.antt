-- ===== src/Coordinator/Preserve/CancelRun.antt =====
-- crates/team/src/work_coordinator/coordinator.rs: `cancel_run` as a whole.
use team_lite.Base.{
  Ident, Bool, true, false, none, some, List, [], ◌∷◌, ◌≡◌, refl, ◌∙◌, get, mem, Map, Sorted,
  if◌then◌else◌, Bool-cases, Option-cases, inl, inr, arith, some_and, map, remove, remove-Sorted,
  get-remove, keep_none, mem-selected,
}
use team_lite.Errors.{ok, ◌>>=◌}
use team_lite.Coordinator.Model.{WorkIntentState, WorkIntent, CancelRunWorkResult}
use team_lite.Coordinator.Slots.{CoordinatorState, set_state, EnqueueLeaseRecord}
use team_lite.Coordinator.Snapshot.{is_queued, of_run, run_leases, run_summary_locked}
use team_lite.Coordinator.Views.{in_flight, Shrinks}
use team_lite.Coordinator.Invariant.{Inv, same-Inv}
use team_lite.Coordinator.Preserve.Batches.{state-set_state}
use team_lite.Coordinator.Preserve.Selection.{selected}
use team_lite.Coordinator.Preserve.CancelLoop.{Unbatched, cancel_actives-ok}
use team_lite.Coordinator.Preserve.CancelQueued.{Emptied, cancel_queued-ok}
use team_lite.Coordinator.Filing.{Filed, refiled}
use team_lite.Coordinator.Cancel.{
  CancelProgress, queued_of_run, queued_ids_of_run, remove_leases, drop_leases, cancel_work,
  cancel_run,
}

-- A run with no work: none of its intents waits or is in a batch, and it has no lease.
pub record Settled (run : Ident) (s : CoordinatorState) : Type 0 where
  pub no_queued :
      (i : Ident) (w : WorkIntent)
      → get i s.intents ≡ some w
      → of_run run w.team_run_id ≡ true
      → is_queued w.state ≡ false
  pub no_flight :
      (i : Ident) (w : WorkIntent)
      → get i s.intents ≡ some w
      → of_run run w.team_run_id ≡ true
      → in_flight w.state ≡ none
  pub no_lease : run_leases s run ≡ []

get-remove_leases :
    (ids : List Ident) (j : Ident) (m : Map EnqueueLeaseRecord)
    → get j (remove_leases ids m) ≡ (if mem j ids then none else get j m)
unfolding remove_leases
get-remove_leases [] j m = refl
get-remove_leases (i ∷ is) j m =
    ground (arith, get-remove_leases is j (remove i m), get-remove i j m)

remove_leases-Sorted :
    (ids : List Ident) (m : Map EnqueueLeaseRecord) → Sorted m → Sorted (remove_leases ids m)
unfolding remove_leases
remove_leases-Sorted [] m s = s
remove_leases-Sorted (i ∷ is) m s = remove_leases-Sorted is (remove i m) (remove-Sorted i m s)

abbrev lease_of_run : Ident → EnqueueLeaseRecord → Bool
lease_of_run run r = of_run run r.lease.team_run_id

abbrev lease_ids : Ident → CoordinatorState → List Ident
lease_ids run s = map (λ (r : EnqueueLeaseRecord). r.lease.lease_id) (run_leases s run)

leases_gone :
    (run : Ident) (s : CoordinatorState) → Filed s → run_leases (drop_leases run s) run ≡ []
unfolding drop_leases
leases_gone run s filed =
    keep_none (lease_of_run run) (remove_leases (lease_ids run s) s.enqueue_leases)
      (remove_leases-Sorted (lease_ids run s) s.enqueue_leases filed.leases_sorted)
      (λ j r g. ground (
        arith,
        g,
        get-remove_leases (lease_ids run s) j s.enqueue_leases,
        mem-selected j (λ (r : EnqueueLeaseRecord). r.lease.lease_id) (lease_of_run run)
            s.enqueue_leases filed.leases_sorted filed.leases_keyed,
      ))

dropped-Filed : (run : Ident) (s : CoordinatorState) → Filed s → Filed (drop_leases run s)
unfolding drop_leases
dropped-Filed run s filed = record {
  slots_sorted = filed.slots_sorted;
  leases_sorted = remove_leases-Sorted (lease_ids run s) s.enqueue_leases filed.leases_sorted;
  leases_keyed = λ j r g.
      filed.leases_keyed j r
        (ground (arith, g, get-remove_leases (lease_ids run s) j s.enqueue_leases));
}

dropped-Inv : (run : Ident) (s : CoordinatorState) → Inv s → Inv (drop_leases run s)
unfolding drop_leases
dropped-Inv run s inv = same-Inv s _ inv refl (λ sl i. refl) (λ sl i. refl)

-- What the writes of a cancellation leave.
pub record Cancelled (run : Ident) (old s : CoordinatorState) : Type 0 where
  pub inv : Inv s
  pub filed : Filed s
  pub settled : Settled run s
  pub shrinks : Shrinks old s
  pub spent : (i : Ident) → get i old.enqueue_leases ≡ none → get i s.enqueue_leases ≡ none

module _ (run : Ident) (s : CoordinatorState) (inv : Inv s) (filed : Filed s) where
  module _ (c d : CoordinatorState) (u : Unbatched run s c)
      (v : Emptied (queued_ids_of_run run c) c d) where
    queued_selected :
        (j : Ident)
        → mem j (queued_ids_of_run run c) ≡ some_and (queued_of_run run) (get j c.intents)
    unfolding queued_ids_of_run
    queued_selected j = selected c j (queued_of_run run) u.inv

    flight_settled :
        (j : Ident) (w : WorkIntent)
        → get j c.intents ≡ some w
        → of_run run w.team_run_id ≡ true
        → in_flight w.state ≡ none
    flight_settled j w g r = elim (Option-cases (in_flight w.state)) [
      | inl e ↦ e
      | inr (b, e) ↦
          absurd (ground (arith, u.idle w.slot_id j b, u.inv.batches w.slot_id j, g, r, e))
    ]

    final_intent :
        (j : Ident) (w : WorkIntent)
        → get j d.intents ≡ some w
        → of_run run w.team_run_id ≡ true
        → (is_queued w.state ≡ false) × (in_flight w.state ≡ none)
    final_intent j w g r = elim (Option-cases (get j c.intents)) [
      | inl e ↦ absurd (ground (arith, v.written j, e, g))
      | inr (x, e) ↦ elim (Bool-cases (mem j (queued_ids_of_run run c))) [
        | inl m ↦
            let same : w ≡ set_state (WorkIntentState.cancelled "run_cancelled") x =
              ground (arith, v.written j, e, g, m) in
            rw (same, state-set_state (WorkIntentState.cancelled "run_cancelled") x) (refl, refl)
        | inr m ↦
            let same : w ≡ x = ground (arith, v.written j, e, g, m) in
            (
              ground (arith, queued_selected j, m, e, same),
              flight_settled j w (ground (arith, e, same)) r,
            )
      ]
    ]

    pub d-Settled : Settled run (drop_leases run d)
    unfolding drop_leases
    d-Settled = record {
      no_queued = λ j w g r. (final_intent j w g r).0;
      no_flight = λ j w g r. (final_intent j w g r).1;
      no_lease =
          leases_gone run d (refiled s d filed v.slots_sorted (v.same_leases ∙ u.same_leases));
    }

    pub d-Cancelled : Cancelled run s (drop_leases run d)
    d-Cancelled = record {
      inv = dropped-Inv run d v.inv;
      filed =
          dropped-Filed run d (refiled s d filed v.slots_sorted (v.same_leases ∙ u.same_leases));
      settled = d-Settled;
      shrinks = unfold drop_leases in λ k b h. u.shrinks k b (v.shrinks k b h);
      spent =
          unfold drop_leases in
          λ i h. ground (
            arith,
            get-remove_leases (lease_ids run d) i d.enqueue_leases,
            v.same_leases,
            u.same_leases,
            h,
          );
    }

  loose_queued :
      (c : CoordinatorState) (j : Ident)
      → Inv c
      → mem j (queued_ids_of_run run c) ≡ true
      → (w : WorkIntent) × (get j c.intents ≡ some w) × (in_flight w.state ≡ none)
  unfolding queued_ids_of_run
  loose_queued c j ic m = elim (Option-cases (get j c.intents)) [
    | inl e ↦ absurd (ground (arith, selected c j (queued_of_run run) ic, e))
    | inr (w, e) ↦ (w, e, ground (arith, selected c j (queued_of_run run) ic, e))
  ]

  abbrev start : CancelProgress
  start = record { state = s; targets = []; messages = [] }

  pub cancel_work-ok : (c : CancelProgress) × (cancel_work run s ≡ ok c) × Cancelled run s c.state
  unfolding cancel_work
  cancel_work-ok =
      let (c, e, u) = cancel_actives-ok run start inv filed.slots_sorted in
      let (d, f, v) =
        cancel_queued-ok (queued_ids_of_run run c.state) c u.inv u.slots_sorted
          (λ j m. loose_queued c.state j u.inv m) in
      (
        record d { state = drop_leases run d.state },
        rw (e, ◌>>=◌) (rw (f, ◌>>=◌)),
        d-Cancelled c.state d.state u v,
      )

-- `cancel_run` on a state that meets the invariants never panics, publishes one summary, that of the
-- run afterwards, and returns it; the state that it leaves meets the invariants, the run has no work
-- in it, no slot has a batch that it did not have, and no lease comes back.
pub cancel_run-ok :
    (run : Ident) (s : CoordinatorState)
    → Inv s
    → Filed s
    → (r : CancelRunWorkResult) × ((cancel_run run s).result ≡ ok r)
      × ((cancel_run run s).published ≡ run_summary_locked (cancel_run run s).state run ∷ [])
      × (r.summary ≡ run_summary_locked (cancel_run run s).state run)
      × Cancelled run s (cancel_run run s).state
unfolding cancel_run
cancel_run-ok run s inv filed =
    let (c, e, w) = cancel_work-ok run s inv filed in rw (e, cancel_run) (_, refl, refl, refl, w)
