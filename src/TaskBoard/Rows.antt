-- ===== src/TaskBoard/Rows.antt =====
-- crates/store/src/team_repo.rs: the rows of tasks after a write.
use team_lite.Base.{
  Ident, true, none, some, [], ◌∷◌, ◌++◌, ◌==◌, if◌then◌else◌, map_option, arith, ◌≡◌, refl,
  is_some, Bool-cases, inl, inr, Option, ap,
}
use team_lite.Store.Tasks.{TaskRow, Tasks, find_task_by_id, task_at, write_at}

-- A write to a row that keeps its identity.
pub record Keeps (f : TaskRow → TaskRow) : Type 0 where
  pub keeps_id : (t : TaskRow) → (f t).id ≡ t.id
  pub keeps_team : (t : TaskRow) → (f t).team_id ≡ t.team_id

module _ (f : TaskRow → TaskRow) (keeps : Keeps f) where
  pub task_at-write_at :
      (i j : Ident) (rows : Tasks)
      → task_at j (write_at i f rows)
        ≡ (if j == i then map_option f (task_at j rows) else task_at j rows)
  task_at-write_at i j [] = ground arith
  task_at-write_at i j (t ∷ ts) = ground (arith, keeps.keeps_id t, task_at-write_at i j ts)

  pub find-write_at :
      (team i j : Ident) (rows : Tasks)
      → map_option (λ (t : TaskRow). t.id) (find_task_by_id team j (write_at i f rows))
        ≡ map_option (λ (t : TaskRow). t.id) (find_task_by_id team j rows)
  unfolding find_task_by_id
  find-write_at team i j [] = refl
  find-write_at team i j (t ∷ ts) =
      ground (arith, keeps.keeps_id t, keeps.keeps_team t, find-write_at team i j ts)

pub task_at-append :
    (j : Ident) (row : TaskRow) (rows : Tasks)
    → task_at j (rows ++ row ∷ [])
      ≡ (elim (task_at j rows) [ none ↦ if j == row.id then some row else none | some t ↦ some t ])
task_at-append j row [] = ground arith
task_at-append j row (t ∷ ts) = ground (arith, task_at-append j row ts)

pub find-task_at :
    (team j : Ident) (t : TaskRow) (rows : Tasks)
    → find_task_by_id team j rows ≡ some t
    → is_some (task_at j rows) ≡ true
unfolding find_task_by_id
find-task_at team j t [] e = ground arith
find-task_at team j t (r ∷ rs) e = ground (arith, find-task_at team j t rs)

abbrev unwrap : TaskRow → Option TaskRow → TaskRow
unwrap t none = t
unwrap t (some r) = r

pub find_of_task_at :
    (j : Ident) (t : TaskRow) (rows : Tasks)
    → task_at j rows ≡ some t
    → find_task_by_id t.team_id j rows ≡ some t
unfolding find_task_by_id
find_of_task_at j t [] e = ground arith
find_of_task_at j t (r ∷ rs) e = elim (Bool-cases (j == r.id)) [
  | inl s ↦
      let found : some r ≡ some t = ground (arith, e, s) in
      let same : r ≡ t = ap (unwrap t) found in
      ground (arith, s, ap (λ (x : TaskRow). x.team_id) same, found)
  | inr s ↦ ground (arith, e, s, find_of_task_at j t rs)
]
