-- ===== src/Coordinator/Preserve/Selection.antt =====
-- crates/team/src/work_coordinator/coordinator.rs: the identifiers that a pass over the intents
-- selects.
use team_lite.Base.{
  Ident, Bool, List, [], ◌∷◌, ◌≡◌, refl, get, mem, ◌==◌, ◌||◌, Bool-cases, inl, inr, arith, keep,
  some_and, values, map, mem-selected,
}
use team_lite.Coordinator.Model.{WorkIntent}
use team_lite.Coordinator.Slots.{CoordinatorState}
use team_lite.Coordinator.Invariant.{Inv}
use team_lite.Coordinator.Runtime.{sort_insert, sort_by_age, before}

abbrev pub ids_of : List WorkIntent → List Ident
ids_of = map (λ (w : WorkIntent). w.intent_id)

-- A pass over the values finds an intent exactly if it is filed and meets the test.
pub selected :
    (s : CoordinatorState) (i : Ident) (P : WorkIntent → Bool)
    → Inv s
    → mem i (ids_of (keep P (values s.intents))) ≡ some_and P (get i s.intents)
selected s i P inv =
    mem-selected i (λ (w : WorkIntent). w.intent_id) P s.intents inv.sorted inv.keyed

inserted_ids :
    (i : Ident) (v : WorkIntent) (ws : List WorkIntent)
    → mem i (ids_of (sort_insert v ws)) ≡ ((i == v.intent_id) || mem i (ids_of ws))
unfolding sort_insert
inserted_ids i v [] = refl
inserted_ids i v (w ∷ ws) = elim (Bool-cases (before w v)) [
  | inl e ↦ rw (e, sort_insert) (ground (arith, inserted_ids i v ws))
  | inr e ↦ rw (e, sort_insert)
]

pub sorted_ids :
    (i : Ident) (ws : List WorkIntent) → mem i (ids_of (sort_by_age ws)) ≡ mem i (ids_of ws)
unfolding sort_by_age
sorted_ids i [] = refl
sorted_ids i (w ∷ ws) = ground (arith, inserted_ids i w (sort_by_age ws), sorted_ids i ws)
