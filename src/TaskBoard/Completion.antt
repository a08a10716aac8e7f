-- ===== src/TaskBoard/Completion.antt =====
-- crates/team/src/task_board.rs: what the operations return, and what the end of a task brings.
use team_lite.Base.{
  Ident, ℕ, String, Bool, true, false, Option, none, some, List, [], if◌then◌else◌, arith, ◌≡◌,
  refl, inl, inr, every, is_some, ◌∙◌,
}
use team_lite.Errors.{Result, ok, err, TeamError}
use team_lite.Store.Tasks.{
  TaskRow, UpdateTaskParams, Tasks, find_task_by_id, append_to_blocks, remove_from_blocked_by,
  task_at, write_at, ids_of, add_blocks, drop_blocked_by, add_id, apply_update,
}
use team_lite.TaskBoard.{
  create_task, check_dependencies, NewTask, new_row, TaskStatus, TeamTask, from_row, to_string,
  parse,
}
use team_lite.Store
use team_lite.TaskBoard.Dependencies.{
  checked_or, checked-there, append-Links, every-checked, added-there, every-refused,
  create_task-refused,
}

abbrev pub is_refused {ℓ} : {A : Type ℓ} → Result A → Bool
is_refused (err (TeamError.blocked_task_not_found d)) = true
is_refused _ = false

module _ {Value : Type 0} (to_json : List Ident → String) (from_json : String → Option (List Ident))
    (value_to_json : Value → String) (value_from_json : String → Option Value)
    (reads_back : (ids : List Ident) → from_json (to_json ids) ≡ some ids)
    (reads_empty : from_json "[]" ≡ some []) where
  -- The task that the arguments ask for.
  abbrev pub requested : Ident → ℕ → NewTask → TeamTask Value
  requested new now t = record {
    id = new;
    team_id = t.team_id;
    subject = t.subject;
    description = t.description;
    status = TaskStatus.pending;
    owner = t.owner;
    blocked_by = t.blocked_by;
    blocks = [];
    metadata = none;
    created_at = now;
    updated_at = now;
  }

  from_row-new_row :
      (new : Ident) (now : ℕ) (t : NewTask)
      → from_row to_json from_json value_to_json value_from_json (new_row to_json new now t)
        ≡ ok (requested new now t)
  unfolding from_row new_row to_string parse
  from_row-new_row new now t = rw (from_row, new_row, reads_back t.blocked_by, reads_empty) refl

  made :
      (new : Ident) (now : ℕ) (t : NewTask) (rows : Tasks)
      → check_dependencies t.team_id t.blocked_by rows ≡ ok tt
      → (create_task to_json from_json value_to_json value_from_json new now t rows).0
        ≡ ok (requested new now t)
  unfolding create_task
  made new now t rows h =
      let deps = checked-there t.team_id t.blocked_by rows h in
      let (r, l) =
        append-Links to_json from_json value_to_json value_from_json reads_back reads_empty new now
          t.blocked_by (Store.Tasks.create_task (new_row to_json new now t) rows)
          (λ d m.
            added-there to_json from_json value_to_json value_from_json reads_back reads_empty d new
              now t rows
            ∙ ground (arith, deps d m)) in
      rw (create_task, h, r) (from_row-new_row new now t)

  -- What `create_task` returns: the task asked for, with its dependencies, where each of these is a
  -- task of the team; otherwise that a dependency was not found, and no row has changed.
  pub create_task-result :
      (new : Ident) (now : ℕ) (t : NewTask) (rows : Tasks)
      → let (r, rows') =
          create_task to_json from_json value_to_json value_from_json new now t rows in
        if every (λ d. is_some (find_task_by_id t.team_id d rows)) t.blocked_by
        then r ≡ ok (requested new now t)
        else ((is_refused r ≡ true) × (rows' ≡ rows))
  create_task-result new now t rows = elim (checked_or t.team_id t.blocked_by rows) [
    | inl h ↦ rw (every-checked t.team_id t.blocked_by rows h) (made new now t rows h)
    | inr (d, h) ↦
        rw
          (
            every-refused t.team_id d t.blocked_by rows h,
            create_task-refused to_json from_json value_to_json value_from_json reads_back
                reads_empty new now t rows (TeamError.blocked_task_not_found d) h,
          )
          (refl, refl)
  ]
