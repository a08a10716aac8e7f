-- ===== src/TaskBoard/Dependencies.antt =====
-- crates/team/src/task_board.rs: a task that waits for another is named by it, and its end frees
-- every task that waits.
use team_lite.Base.{
  Ident, ℕ, String, true, false, Option, none, some, List, [], ◌∷◌, ◌&&◌, ◌||◌, ◌==◌, if◌then◌else◌,
  mem, arith, ◌≡◌, refl, Option-cases, inl, inr, is_some, Bool-cases, some_and, ==_eq, any, ◌∙◌,
  ◌⊎◌, every,
}
use team_lite.Errors.{ok, err, TeamError}
use team_lite.Store.Tasks.{
  TaskRow, UpdateTaskParams, Tasks, find_task_by_id, append_to_blocks, remove_from_blocked_by,
  task_at, write_at, ids_of, add_blocks, drop_blocked_by, add_id, write_found,
}
use team_lite.TaskBoard.{write_each, create_task, check_dependencies, NewTask, new_row}
use team_lite.TaskBoard.Links.{
  any_equal, any-false, Links, blocked_by_at, blocks_at, write_each-Links, add_blocks-Links,
}
use team_lite.Store
use team_lite.TaskBoard.Rows.{find-task_at, task_at-append}

-- A task that waits for another is among those that the other blocks; those are all there; and the
-- lists can be read.
pub record Linked (from_json : String → Option (List Ident)) (rows : Tasks) : Type 0 where
  pub reverse :
      (i d : Ident)
      → mem d (blocked_by_at from_json i rows) ≡ true
      → mem i (blocks_at from_json d rows) ≡ true
  pub there :
      (i d : Ident) → mem i (blocks_at from_json d rows) ≡ true → is_some (task_at i rows) ≡ true
  pub readable :
      (i : Ident)
      → some_and (λ (t : TaskRow). is_some (from_json t.blocks)) (task_at i rows)
        ≡ is_some (task_at i rows)

pub checked_or :
    (team : Ident) (ds : List Ident) (rows : Tasks)
    → (check_dependencies team ds rows ≡ ok tt)
      ⊎ ((d : Ident) × (check_dependencies team ds rows ≡ err (TeamError.blocked_task_not_found d)))
unfolding check_dependencies
checked_or team [] rows = inl refl
checked_or team (d ∷ ds) rows = elim (Option-cases (find_task_by_id team d rows)) [
  | inl p ↦ inr (d, rw (check_dependencies, p) refl)
  | inr (t, p) ↦ rw (check_dependencies, p) (checked_or team ds rows)
]

pub every-checked :
    (team : Ident) (ds : List Ident) (rows : Tasks)
    → check_dependencies team ds rows ≡ ok tt
    → every (λ d. is_some (find_task_by_id team d rows)) ds ≡ true
unfolding check_dependencies
every-checked team [] rows h = refl
every-checked team (d ∷ ds) rows h = elim (Option-cases (find_task_by_id team d rows)) [
  | inl p ↦ ground (arith, h, p)
  | inr (t, p) ↦ ground (arith, p, every-checked team ds rows (ground (arith, h, p)))
]

pub every-refused :
    (team d : Ident) (ds : List Ident) (rows : Tasks)
    → check_dependencies team ds rows ≡ err (TeamError.blocked_task_not_found d)
    → every (λ d. is_some (find_task_by_id team d rows)) ds ≡ false
unfolding check_dependencies
every-refused team d [] rows h = ground arith
every-refused team d (e ∷ es) rows h = elim (Option-cases (find_task_by_id team e rows)) [
  | inl p ↦ ground (arith, p)
  | inr (t, p) ↦ ground (arith, p, every-refused team d es rows (ground (arith, h, p)))
]

-- All dependencies were found.
pub checked-there :
    (team : Ident) (ds : List Ident) (rows : Tasks)
    → check_dependencies team ds rows ≡ ok tt
    → (d : Ident) → mem d ds ≡ true
    → is_some (task_at d rows) ≡ true
unfolding check_dependencies
checked-there team [] rows h d m = ground arith
checked-there team (e ∷ es) rows h d m = elim (Option-cases (find_task_by_id team e rows)) [
  | inl p ↦ ground (arith, h, p)
  | inr (t, p) ↦ elim (Bool-cases (d == e)) [
    | inl q ↦ ground (arith, find-task_at team e t rows p, ==_eq d e q)
    | inr q ↦ checked-there team es rows (ground (arith, h, p)) d (ground (arith, m, q))
  ]
]

pub found_ok :
    (i : Ident) (f : TaskRow → TaskRow) (rows : Tasks)
    → is_some (task_at i rows) ≡ true
    → write_found i f rows ≡ ok (write_at i f rows)
found_ok i f rows h = elim (Option-cases (task_at i rows)) [
  | inl p ↦ ground (arith, h, p)
  | inr (t, p) ↦ rw (write_found, p) refl
]

module _ {Value : Type 0} (to_json : List Ident → String) (from_json : String → Option (List Ident))
    (value_to_json : Value → String) (value_from_json : String → Option Value)
    (reads_back : (ids : List Ident) → from_json (to_json ids) ≡ some ids)
    (reads_empty : from_json "[]" ≡ some []) where
  -- The new row alone: it waits for its dependencies.
  added-blocked_by :
      (i new : Ident) (now : ℕ) (t : NewTask) (rows : Tasks)
      → task_at new rows ≡ none
      → blocked_by_at from_json i (Store.Tasks.create_task (new_row to_json new now t) rows)
        ≡ (if i == new then t.blocked_by else blocked_by_at from_json i rows)
  unfolding Store.Tasks.create_task new_row
  added-blocked_by i new now t rows fresh = elim (Option-cases (task_at i rows)) [
    | inl p ↦ ground (
      arith,
      task_at-append i (new_row to_json new now t) rows,
      p,
      fresh,
      ==_eq i new,
      reads_back t.blocked_by,
    )
    | inr (x, p) ↦
        ground (arith, task_at-append i (new_row to_json new now t) rows, p, fresh, ==_eq i new)
  ]

  added-blocks :
      (i new : Ident) (now : ℕ) (t : NewTask) (rows : Tasks)
      → task_at new rows ≡ none
      → blocks_at from_json i (Store.Tasks.create_task (new_row to_json new now t) rows)
        ≡ blocks_at from_json i rows
  unfolding Store.Tasks.create_task new_row
  added-blocks i new now t rows fresh = elim (Option-cases (task_at i rows)) [
    | inl p ↦ ground (
      arith,
      task_at-append i (new_row to_json new now t) rows,
      p,
      fresh,
      ==_eq i new,
      reads_empty,
    )
    | inr (x, p) ↦
        ground (arith, task_at-append i (new_row to_json new now t) rows, p, fresh, ==_eq i new)
  ]

  pub added-there :
      (i new : Ident) (now : ℕ) (t : NewTask) (rows : Tasks)
      → is_some (task_at i (Store.Tasks.create_task (new_row to_json new now t) rows))
        ≡ (is_some (task_at i rows) || (i == new))
  unfolding Store.Tasks.create_task new_row
  added-there i new now t rows = ground (arith, task_at-append i (new_row to_json new now t) rows)

  added-readable :
      (i new : Ident) (now : ℕ) (t : NewTask) (rows : Tasks)
      → some_and (λ (r : TaskRow). is_some (from_json r.blocks)) (task_at i rows)
        ≡ is_some (task_at i rows)
      → some_and
          (λ (r : TaskRow). is_some (from_json r.blocks))
          (task_at i (Store.Tasks.create_task (new_row to_json new now t) rows))
        ≡ is_some (task_at i (Store.Tasks.create_task (new_row to_json new now t) rows))
  unfolding Store.Tasks.create_task new_row
  added-readable i new now t rows h = elim (Option-cases (task_at i rows)) [
    | inl p ↦ ground (arith, task_at-append i (new_row to_json new now t) rows, p, reads_empty)
    | inr (x, p) ↦ ground (arith, task_at-append i (new_row to_json new now t) rows, p, h)
  ]

  -- The new row, and its name with each of its dependencies.
  Linked-Links :
      (new : Ident) (now : ℕ) (t : NewTask) (rows rows' : Tasks)
      → task_at new rows ≡ none
      → ((d : Ident) → mem d t.blocked_by ≡ true → is_some (task_at d rows) ≡ true)
      → Links from_json
          (λ i d. any (λ x. (d == x) && (i == new)) t.blocked_by)
          (λ i d. any (λ x. false) t.blocked_by)
          (Store.Tasks.create_task (new_row to_json new now t) rows)
          rows'
      → Linked from_json rows
      → Linked from_json rows'
  Linked-Links new now t rows rows' fresh deps l inv = record {
    reverse = λ i d h. ground (
      arith,
      h,
      l.waiting i d,
      l.blocking i d,
      any-false t.blocked_by,
      any_equal d (i == new) t.blocked_by,
      added-blocked_by i new now t rows fresh,
      added-blocks d new now t rows fresh,
      inv.reverse i d,
    );
    there = λ i d h. ground (
      arith,
      h,
      l.blocking i d,
      l.there i,
      any_equal d (i == new) t.blocked_by,
      added-blocks d new now t rows fresh,
      added-there i new now t rows,
      inv.there i d,
    );
    readable = λ i. l.parsed i (added-readable i new now t rows (inv.readable i));
  }

  -- The writes of `create_task` after its check.
  pub append-Links :
      (new : Ident) (now : ℕ) (ds : List Ident) (rows : Tasks)
      → ((d : Ident) → mem d ds ≡ true → is_some (task_at d rows) ≡ true)
      → ((write_each (λ d. append_to_blocks to_json from_json now d new) ds rows).0 ≡ ok tt)
        × Links from_json
            (λ i d. any (λ x. (d == x) && (i == new)) ds)
            (λ i d. any (λ x. false) ds)
            rows
            (write_each (λ d. append_to_blocks to_json from_json now d new) ds rows).1
  unfolding append_to_blocks
  append-Links new now ds rows h =
      write_each-Links to_json from_json reads_back
        (λ d. append_to_blocks to_json from_json now d new)
        (λ d rows. write_at d (add_blocks to_json from_json now new) rows)
        (λ x i d. (d == x) && (i == new)) (λ x i d. false)
        (λ d rows p. found_ok d (add_blocks to_json from_json now new) rows p)
        (λ d rows p. add_blocks-Links to_json from_json reads_back now d new rows p) ds rows h

  -- What `create_task` leaves where its dependencies are there.
  pub create_task-checked :
      (new : Ident) (now : ℕ) (t : NewTask) (rows : Tasks)
      → check_dependencies t.team_id t.blocked_by rows ≡ ok tt
      → (create_task to_json from_json value_to_json value_from_json new now t rows).1
        ≡ (write_each
            (λ d. append_to_blocks to_json from_json now d new)
            t.blocked_by
            (Store.Tasks.create_task (new_row to_json new now t) rows)).1
  unfolding create_task
  create_task-checked new now t rows h = rw (create_task, h) refl

  pub create_task-refused :
      (new : Ident) (now : ℕ) (t : NewTask) (rows : Tasks) (e : TeamError)
      → check_dependencies t.team_id t.blocked_by rows ≡ err e
      → create_task to_json from_json value_to_json value_from_json new now t rows ≡ (err e, rows)
  unfolding create_task
  create_task-refused new now t rows e h = rw (create_task, h) refl

  -- A board on which the tasks are linked stays so when a task is made under a new identifier.
  pub create_task-Linked :
      (new : Ident) (now : ℕ) (t : NewTask) (rows : Tasks)
      → Linked from_json rows
      → task_at new rows ≡ none
      → Linked from_json
          (create_task to_json from_json value_to_json value_from_json new now t rows).1
  create_task-Linked new now t rows inv fresh = elim (checked_or t.team_id t.blocked_by rows) [
    | inl h ↦
        let deps = checked-there t.team_id t.blocked_by rows h in
        let (r, l) =
          append-Links new now t.blocked_by
            (Store.Tasks.create_task (new_row to_json new now t) rows)
            (λ d m. added-there d new now t rows ∙ ground (arith, deps d m)) in
        rw (create_task-checked new now t rows h) (Linked-Links new now t rows _ fresh deps l inv)
    | inr (d, h) ↦ rw (create_task-refused new now t rows _ h) inv
  ]
