-- ===== src/Examples/Members.antt =====
-- The properties of the runtimes of members, at two agents whose attaches come to different ends.
use team_lite.Base.{true, false, some, [], ◌∷◌, ◌≡◌, refl, none, List, insert, arith}
use team_lite.MemberRuntime.Model.{
  AttachOutcome, AttachLease, Registry, MemberRuntimeFailure, MemberRuntimeSnapshot,
}
use team_lite.MemberRuntime.Registry.{
  new, reserve_attach, stop, outcome, waiter, begin_remove, commit_ready, snapshot, commit_failed,
}
use team_lite.MemberRuntime.History.{Call, run, perform}
use team_lite.MemberRuntime.Invariant.{Inv}
use team_lite.MemberRuntime.Preserve.{run-Inv, new-Inv, perform-Inv}
use team_lite.MemberRuntime.Phases.{perform-snapshot, permitted, phase_of}
use team_lite.MemberRuntime.Outcomes.{outcome-run, outcome-stop}
use team_lite.MemberRuntime.Leases.{attach-commit}
use team_lite.MemberRuntime.Refusals.{commit_once, remove-attach, Refused}

-- The first operation of a registry is the attach of agent 1.
abbrev lease : AttachLease
lease = record { session_generation = 7; agent_id = 1; waiter = waiter 1 0 }

abbrev refused : MemberRuntimeFailure
refused = record { classification = "spawn"; public_reason = "no such command" }

abbrev story : List Call
story = Call.reserve 1 false ∷ Call.reserve 2 false ∷ Call.ready lease ∷ Call.begin 2 ∷ []

run-Inv_example : Inv (run story (new 7))
run-Inv_example = run-Inv story (new 7) (new-Inv 7)

abbrev settled : Registry
unfolding new perform
settled = run (Call.reserve 1 false ∷ Call.ready lease ∷ []) (new 7)

outcome-run_example :
    outcome (waiter 1 0) (run (Call.begin 1 ∷ Call.halt ∷ []) settled) ≡ some AttachOutcome.ready
unfolding new run perform reserve_attach commit_ready insert outcome
outcome-run_example =
    outcome-run (Call.begin 1 ∷ Call.halt ∷ []) settled (waiter 1 0) AttachOutcome.ready
      (run-Inv (Call.reserve 1 false ∷ Call.ready lease ∷ []) (new 7) (new-Inv 7)) refl refl

abbrev attaching : Registry
attaching = (reserve_attach 1 false (new 7)).1

attaching-Inv : Inv attaching
unfolding reserve_attach perform
attaching-Inv = perform-Inv (Call.reserve 1 false) (new 7) (new-Inv 7)

outcome-stop_example :
    outcome (waiter 1 0) (stop attaching).1
    ≡ some (elim (outcome (waiter 1 0) attaching) [
      | none ↦ AttachOutcome.session_stopped
      | some o ↦ o
    ])
outcome-stop_example = outcome-stop attaching (waiter 1 0) attaching-Inv

abbrev later_calls : List Call
later_calls = Call.begin 1 ∷ Call.reserve 2 false ∷ Call.reserve 1 true ∷ []

commit_once_example :
    Refused lease refused (run later_calls (commit_ready lease attaching).1)
    × Refused lease refused (run later_calls (commit_failed lease refused attaching).1)
unfolding new reserve_attach
commit_once_example =
    commit_once lease refused refused later_calls attaching (omega arith) (omega arith)

remove-attach_example :
    (outcome (waiter 1 0) (run later_calls (begin_remove 1 attaching).1)
      ≡ some AttachOutcome.removed)
    × Refused lease refused (run later_calls (begin_remove 1 attaching).1)
unfolding new reserve_attach insert
remove-attach_example =
    remove-attach later_calls refused attaching 1 0 1 attaching-Inv refl refl (omega arith)
      (omega arith)

attach-commit_example :
    (outcome lease.waiter (reserve_attach 1 false (new 7)).1 ≡ none)
    × ((commit_ready lease (reserve_attach 1 false (new 7)).1).0 ≡ true)
    × (outcome lease.waiter (commit_ready lease (reserve_attach 1 false (new 7)).1).1
        ≡ some AttachOutcome.ready)
    × (snapshot 1 (commit_ready lease (reserve_attach 1 false (new 7)).1).1
        ≡ MemberRuntimeSnapshot.ready)
unfolding new reserve_attach
attach-commit_example = attach-commit (new 7) 1 false lease refl

perform-snapshot_example :
    permitted
      (Call.ready lease)
      1
      (phase_of (snapshot 1 attaching))
      (phase_of (snapshot 1 (perform (Call.ready lease) attaching)))
    ≡ true
perform-snapshot_example = perform-snapshot (Call.ready lease) 1 attaching
