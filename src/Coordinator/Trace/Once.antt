-- ===== src/Coordinator/Trace/Once.antt =====
-- crates/team/src/work_coordinator/coordinator.rs: the use of an enqueue lease, along histories.
use team_lite.Base.{◌≡◌, none, Ident, Option, ℕ, get, [], refl, arith, ==_refl}
use team_lite.Coordinator.Trace.{Reach, Call, Step, Ledger, perform, EnqueueLease, CoordinatorState}
use team_lite.Coordinator.Trace.Spent.{Later, Later-Lacks}
use team_lite.Coordinator.Enqueue.{abort_enqueue, commit_enqueue, check_commit}
use team_lite.Coordinator.Model.{EnqueueCommit, CommitResult}
use team_lite.Errors.{ok, err, invalid_request, lease_inactive}
use team_lite.Coordinator.Leases.{commit_enqueue-Accepted}
use team_lite.Coordinator.Trace.Safety.{Reach-Good}

unused_check :
    (g : Ident) (lease : EnqueueLease) (other : Option Ident) (s : CoordinatorState)
    → get lease.lease_id s.enqueue_leases ≡ none
    → check_commit g lease other s ≡ err (invalid_request lease_inactive)
unfolding check_commit
unused_check g lease other s e = rw (e) refl

unused_lem :
    (g : Ident) (lease : EnqueueLease) (other : Option Ident) (k : Ident) (later : ℕ)
    (s : CoordinatorState)
    → get lease.lease_id s.enqueue_leases ≡ none
    → commit_enqueue g lease other k later s
      ≡ record { result = err (invalid_request lease_inactive); state = s; published = [] }
unfolding commit_enqueue
unused_lem g lease other k later s e = rw (unused_check g lease other s e, commit_enqueue) refl

-- Once a commit of a lease has succeeded in a history, then whatever calls follow, as long as none of
-- them acquires a lease under the same identifier: a second commit of the lease fails as inactive, an
-- abort of it is refused as stale, and neither changes the state or publishes a summary.
pub commit-once :
    (g : Ident) (lease : EnqueueLease) (message other : Option Ident) (n k : Ident) (now later : ℕ)
    (l m : Ledger) (r : EnqueueCommit)
    → Reach g l
    → get n l.state.intents ≡ none
    → (commit_enqueue g lease message n now l.state).result ≡ ok r
    → Later g lease.lease_id
        (record l { state = (commit_enqueue g lease message n now l.state).state })
        m
    → (commit_enqueue g lease other k later m.state
        ≡ record { result = err (invalid_request lease_inactive); state = m.state; published = [] })
      × (abort_enqueue g lease m.state
          ≡ record { result = (CommitResult.stale_owner, none); state = m.state; published = [] })
unfolding abort_enqueue perform
commit-once g lease message other n k now later l m r h fresh e after =
    let a = commit_enqueue-Accepted g lease message n now l.state r e in
    let good =
      Reach-Good g (Reach.there h (Step.calls l (Call.commit lease message n now) fresh)) in
    let used : get lease.lease_id
          (commit_enqueue g lease message n now l.state).state.enqueue_leases
        ≡ none =
      ground (arith, a.leases lease.lease_id, ==_refl lease.lease_id) in
    let gone = Later-Lacks g lease.lease_id after good used in
    (unused_lem g lease other k later m.state gone, rw (gone, abort_enqueue) refl)
