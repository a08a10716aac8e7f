-- ===== src/Coordinator/Filing.antt =====
-- crates/team/src/work_coordinator/coordinator.rs: how the maps of slots and leases are filed.
use team_lite.Base.{Ident, some, ◌≡◌, sym, subst, get, Sorted, arith}
use team_lite.Coordinator.Slots.{EnqueueLeaseRecord, CoordinatorState}

-- What holds of the slots and the leases: they are filed in order, the leases under their
-- identifiers.
pub record Filed (s : CoordinatorState) : Type 0 where
  pub slots_sorted : Sorted s.slots
  pub leases_sorted : Sorted s.enqueue_leases
  pub leases_keyed :
      (i : Ident) (r : EnqueueLeaseRecord) → get i s.enqueue_leases ≡ some r → r.lease.lease_id ≡ i

pub refiled :
    (s s' : CoordinatorState)
    → Filed s
    → Sorted s'.slots
    → s'.enqueue_leases ≡ s.enqueue_leases
    → Filed s'
refiled s s' filed sl e = record {
  slots_sorted = sl;
  leases_sorted = subst Sorted (sym e) filed.leases_sorted;
  leases_keyed = λ j r g. filed.leases_keyed j r (ground (arith, g, e));
}
