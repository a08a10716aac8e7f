-- ===== src/TaskBoard/Unblocking.antt =====
-- crates/team/src/task_board.rs: updates, and the end of a task.
use team_lite.Base.{
  Ident, ℕ, String, Bool, true, false, Option, none, some, List, [], ◌∷◌, ◌&&◌, ◌==◌, if◌then◌else◌,
  mem, arith, ◌≡◌, refl, Option-cases, inl, inr, is_some, ◌∙◌, any,
}
use team_lite.Errors.{Result, ok}
use team_lite.Store.Tasks.{
  TaskRow, UpdateTaskParams, Tasks, find_task_by_id, append_to_blocks, remove_from_blocked_by,
  task_at, write_at, ids_of, add_blocks, drop_blocked_by, add_id, apply_update, write_found,
}
use team_lite.TaskBoard.{
  write_each, update_task, check_unblocks, TaskUpdate, TaskStatus, is_completed, update_params,
}
use team_lite.TaskBoard.Rows.{task_at-write_at, Keeps, find-task_at, find_of_task_at}
use team_lite.TaskBoard.Links.{
  Links, blocked_by_at, write_each-Links, drop_blocked_by-Links, any_equal,
}
use team_lite.TaskBoard.Dependencies.{Linked, found_ok}
use team_lite.Store

keeps-Linked :
    (from_json : String → Option (List Ident)) (del : Ident → Ident → Bool) (a b : Tasks)
    → Links from_json (λ i d. false) del a b
    → Linked from_json a
    → Linked from_json b
keeps-Linked from_json del a b l inv = record {
  reverse = λ i d h. ground (arith, h, l.waiting i d, l.blocking i d, inv.reverse i d);
  there = λ i d h. ground (arith, h, l.blocking i d, l.there i, inv.there i d);
  readable = λ i. l.parsed i (inv.readable i);
}

branch :
    {from_json : String → Option (List Ident)} (b : Bool) (x y : Tasks)
    → Linked from_json x
    → Linked from_json y
    → Linked from_json (if b then x else y)
branch true x y p q = p
branch false x y p q = q

rows_if :
    (b : Bool) (x y : Result (Unit {0}) × Tasks) → (if b then x else y).1 ≡ (if b then x.1 else y.1)
rows_if true x y = refl
rows_if false x y = refl

module _ {Value : Type 0} (to_json : List Ident → String) (from_json : String → Option (List Ident))
    (value_to_json : Value → String) (value_from_json : String → Option Value)
    (reads_back : (ids : List Ident) → from_json (to_json ids) ≡ some ids) where
  remove_each-Linked :
      (now : ℕ) (done : Ident) (ds : List Ident) (rows : Tasks)
      → Linked from_json rows
      → Linked from_json
          (write_each (λ d. remove_from_blocked_by to_json from_json now d done) ds rows).1
  unfolding write_each remove_from_blocked_by
  remove_each-Linked now done [] rows inv = inv
  remove_each-Linked now done (d ∷ ds) rows inv = elim (Option-cases (task_at d rows)) [
    | inl p ↦ rw (write_each, remove_from_blocked_by, write_found, p) inv
    | inr (t, p) ↦
        rw (write_each, remove_from_blocked_by, write_found, p)
          (remove_each-Linked now done ds _ (
            keeps-Linked from_json _ rows _
              (drop_blocked_by-Links to_json from_json reads_back now d done rows) inv))
  ]

  unblocks-Linked :
      (now : ℕ) (done : Ident) (row : TaskRow) (rows : Tasks)
      → Linked from_json rows
      → Linked from_json
          (check_unblocks to_json from_json value_to_json value_from_json now done row rows).1
  unfolding check_unblocks
  unblocks-Linked now done row rows inv = elim (Option-cases (from_json row.blocks)) [
    | inl p ↦ rw (check_unblocks, p) inv
    | inr (ds, p) ↦ rw (check_unblocks, p) (remove_each-Linked now done ds rows inv)
  ]

  -- The update alone, where it leaves the dependencies.
  updated-Links :
      (now id : Ident) (u : TaskUpdate Value) (rows : Tasks)
      → u.blocked_by ≡ none
      → Links from_json
          (λ i d. false)
          (λ i d. false)
          rows
          (write_at id
            (apply_update now (update_params to_json from_json value_to_json value_from_json u))
            rows)
  unfolding update_params
  updated-Links now id u rows h =
      let f : TaskRow → TaskRow =
        apply_update now (update_params to_json from_json value_to_json value_from_json u) in
      let keeps : Keeps f = record { keeps_id = λ t. refl; keeps_team = λ t. refl } in
      record {
        waiting = λ i e. elim (Option-cases (task_at i rows)) [
          | inl p ↦ ground (arith, task_at-write_at f keeps id i rows, p)
          | inr (t, p) ↦ ground (arith, task_at-write_at f keeps id i rows, p, h)
        ];
        blocking = λ i e. ground (arith, task_at-write_at f keeps id e rows);
        there = λ i. ground (arith, task_at-write_at f keeps id i rows);
        parsed = λ i p. ground (arith, task_at-write_at f keeps id i rows, p);
      }

  -- The rows after the update itself.
  abbrev set_fields : ℕ → Ident → TaskUpdate Value → Tasks → Tasks
  set_fields now id u rows =
      write_at id
        (apply_update now (update_params to_json from_json value_to_json value_from_json u)) rows

  written :
      (now id : Ident) (u : TaskUpdate Value) (rows : Tasks)
      → is_some (task_at id rows) ≡ true
      → Store.Tasks.update_task now id
          (update_params to_json from_json value_to_json value_from_json u)
          rows
        ≡ ok (set_fields now id u rows)
  unfolding Store.Tasks.update_task
  written now id u rows h =
      found_ok id
        (apply_update now (update_params to_json from_json value_to_json value_from_json u)) rows h

  update_task-found :
      (now team id : Ident) (u : TaskUpdate Value) (row : TaskRow) (rows : Tasks)
      → find_task_by_id team id rows ≡ some row
      → (update_task to_json from_json value_to_json value_from_json now team id u rows).1 ≡ (
          if is_completed u.status
          then (check_unblocks to_json from_json value_to_json value_from_json now id row
              (set_fields now id u rows)).1
          else set_fields now id u rows)
  unfolding update_task
  update_task-found now team id u row rows h =
      rw (update_task, h, written now id u rows (find-task_at team id row rows h))
        (rows_if (is_completed u.status)
          (check_unblocks to_json from_json value_to_json value_from_json now id row
            (set_fields now id u rows))
          (ok tt, set_fields now id u rows))

  -- A board on which the tasks are linked stays so over every update that leaves the dependencies.
  pub update_task-Linked :
      (now team id : Ident) (u : TaskUpdate Value) (rows : Tasks)
      → Linked from_json rows
      → u.blocked_by ≡ none
      → Linked from_json
          (update_task to_json from_json value_to_json value_from_json now team id u rows).1
  unfolding update_task
  update_task-Linked now team id u rows inv h = elim (Option-cases (find_task_by_id team id rows)) [
    | inl p ↦ rw (update_task, p) inv
    | inr (row, p) ↦
        let set = keeps-Linked from_json _ rows _ (updated-Links now id u rows h) inv in
        rw (update_task-found now team id u row rows p) (
          branch (is_completed u.status) _ _
            (unblocks-Linked now id row (set_fields now id u rows) set) set)
  ]

  removed-Links :
      (now done : Ident) (ds : List Ident) (rows : Tasks)
      → ((d : Ident) → mem d ds ≡ true → is_some (task_at d rows) ≡ true)
      → ((write_each (λ d. remove_from_blocked_by to_json from_json now d done) ds rows).0 ≡ ok tt)
        × Links from_json
            (λ i e. any (λ x. false) ds)
            (λ i e. any (λ x. (i == x) && (e == done)) ds)
            rows
            (write_each (λ d. remove_from_blocked_by to_json from_json now d done) ds rows).1
  unfolding remove_from_blocked_by
  removed-Links now done ds rows h =
      write_each-Links to_json from_json reads_back
        (λ d. remove_from_blocked_by to_json from_json now d done)
        (λ d rows. write_at d (drop_blocked_by to_json from_json now done) rows) (λ x i d. false)
        (λ x i d. (i == x) && (d == done))
        (λ d rows p. found_ok d (drop_blocked_by to_json from_json now done) rows p)
        (λ d rows p. drop_blocked_by-Links to_json from_json reads_back now d done rows) ds rows h

  blocks_of :
      (row : TaskRow)
      → is_some (from_json row.blocks) ≡ true
      → (ids : List Ident) × (from_json row.blocks ≡ some ids)
  blocks_of row h = elim (Option-cases (from_json row.blocks)) [
    | inl p ↦ ground (arith, h, p)
    | inr (ids, p) ↦ (ids, p)
  ]

  -- On a board on which the tasks are linked, no task waits for a task any longer once that task has
  -- been updated to completed, by an update that leaves the dependencies. The identifier stands for a
  -- task of the team, the first that has it.
  pub update_task-frees :
      (now id i : Ident) (u : TaskUpdate Value) (row : TaskRow) (rows : Tasks)
      → Linked from_json rows
      → task_at id rows ≡ some row
      → u.blocked_by ≡ none
      → u.status ≡ some TaskStatus.completed
      → mem id (
          blocked_by_at from_json i
            (update_task to_json from_json value_to_json value_from_json now row.team_id id u
              rows).1)
        ≡ false
  unfolding check_unblocks
  update_task-frees now id i u row rows inv p h c =
      let s : Tasks = set_fields now id u rows in
      let set = updated-Links now id u rows h in
      let (ids, q) = blocks_of row (ground (arith, inv.readable id, p)) in
      let (r, l) =
        removed-Links now id ids s
          (λ d m. set.there d ∙ inv.there d id (ground (arith, p, q, m))) in
      rw
        (
          update_task-found now row.team_id id u row rows (find_of_task_at id row rows p),
          c,
          check_unblocks,
          q,
        )
        (ground (
          arith,
          l.waiting i id,
          set.waiting i id,
          inv.reverse i id,
          p,
          q,
          any_equal i (id == id) ids,
        ))
