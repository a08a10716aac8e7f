-- ===== src/TaskBoard.antt =====
-- crates/team/src/task_board.rs, over the in-memory repository; the task types are those of
-- crates/team/src/types.rs. `serde_json` is a parameter. An operation returns its result and the
-- rows that it leaves; a time and a new identifier are arguments.
pub mod Rows
pub mod Links
pub mod Dependencies
pub mod Completion
pub mod Unblocking
use team_lite.Base.{
  Ident, ℕ, String, Bool, true, false, Option, none, some, List, [], ◌∷◌, if◌then◌else◌, map_option,
  collect,
}
use team_lite.Errors.{Result, ok, err, panicked, TeamError, ◌>>=◌}
use team_lite.Store.Tasks.{
  TaskRow, UpdateTaskParams, Tasks, find_task_by_id, append_to_blocks, remove_from_blocked_by,
}
use team_lite.Store
use text.Mathlib.Text.{◌==◌}

pub data TaskStatus : Type 0 where
  pending in_progress completed deleted : TaskStatus

unfoldable pub to_string : TaskStatus → String
to_string TaskStatus.pending = "pending"
to_string TaskStatus.in_progress = "in_progress"
to_string TaskStatus.completed = "completed"
to_string TaskStatus.deleted = "deleted"

unfoldable pub parse : String → Option TaskStatus
parse s =
    if s == "pending"
    then some TaskStatus.pending
    else if s == "in_progress"
    then some TaskStatus.in_progress
    else if s == "completed"
    then some TaskStatus.completed
    else if s == "deleted"
    then some TaskStatus.deleted
    else none

abbrev is_completed : Option TaskStatus → Bool
is_completed (some TaskStatus.completed) = true
is_completed _ = false

abbrev or_pending : Option TaskStatus → TaskStatus
or_pending none = TaskStatus.pending
or_pending (some s) = s

pub record TaskUpdate (Value : Type 0) : Type 0 where
  pub status : Option TaskStatus
  pub description : Option String
  pub owner : Option String
  pub blocked_by : Option (List Ident)
  pub metadata : Option Value

pub record TeamTask (Value : Type 0) : Type 0 where
  pub id : Ident
  pub team_id : Ident
  pub subject : String
  pub description : Option String
  pub status : TaskStatus
  pub owner : Option String
  pub blocked_by : List Ident
  pub blocks : List Ident
  pub metadata : Option Value
  pub created_at : ℕ
  pub updated_at : ℕ

-- The arguments of `create_task`.
pub record NewTask : Type 0 where
  pub team_id : Ident
  pub subject : String
  pub description : Option String
  pub owner : Option String
  pub blocked_by : List Ident

-- The loop that looks for each dependency.
unfoldable pub check_dependencies : Ident → List Ident → Tasks → Result (Unit {0})
unfolding find_task_by_id
check_dependencies team_id [] rows = ok tt
check_dependencies team_id (d ∷ ds) rows =
    let rest = check_dependencies team_id ds rows in
    elim (find_task_by_id team_id d rows) [
      | none ↦ err (TeamError.blocked_task_not_found d)
      | some t ↦ rest
    ]

-- Writes of rows one after the other, until one fails.
unfoldable pub write_each :
    (Ident → Tasks → Result Tasks) → List Ident → Tasks → Result (Unit {0}) × Tasks
write_each f [] rows = (ok tt, rows)
write_each f (i ∷ is) rows = elim (f i rows) [
  | ok rows' ↦ write_each f is rows'
  | err e ↦ (err e, rows)
  | panicked ↦ (panicked, rows)
]

unfoldable pub new_row : (List Ident → String) → Ident → ℕ → NewTask → TaskRow
unfolding to_string
new_row to_json task_id now t = record {
  id = task_id;
  team_id = t.team_id;
  subject = t.subject;
  description = t.description;
  status = to_string TaskStatus.pending;
  owner = t.owner;
  blocked_by = to_json t.blocked_by;
  blocks = "[]";
  metadata = none;
  created_at = now;
  updated_at = now;
}

module _ {Value : Type 0} (to_json : List Ident → String) (from_json : String → Option (List Ident))
    (value_to_json : Value → String) (value_from_json : String → Option Value) where
  -- `transpose` of the metadata that is read.
  abbrev read_metadata : Option String → Option (Option Value)
  read_metadata none = some none
  read_metadata (some s) = map_option some (value_from_json s)

  unfoldable pub from_row : TaskRow → Result (TeamTask Value)
  unfolding parse
  from_row row = elim (from_json row.blocked_by) [
    | none ↦ err TeamError.json
    | some blocked_by ↦ elim (from_json row.blocks) [
      | none ↦ err TeamError.json
      | some blocks ↦ elim (read_metadata row.metadata) [
        | none ↦ err TeamError.json
        | some metadata ↦ ok (record {
          id = row.id;
          team_id = row.team_id;
          subject = row.subject;
          description = row.description;
          status = or_pending (parse row.status);
          owner = row.owner;
          blocked_by = blocked_by;
          blocks = blocks;
          metadata = metadata;
          created_at = row.created_at;
          updated_at = row.updated_at;
        })
      ]
    ]
  ]

  unfoldable pub create_task : Ident → ℕ → NewTask → Tasks → Result (TeamTask Value) × Tasks
  unfolding check_dependencies write_each from_row new_row Store.Tasks.create_task append_to_blocks
  create_task task_id now t rows = elim (check_dependencies t.team_id t.blocked_by rows) [
    | err e ↦ (err e, rows)
    | panicked ↦ (panicked, rows)
    | ok _ ↦
        let row = new_row to_json task_id now t in
        let (r, rows') =
          write_each (λ d. append_to_blocks to_json from_json now d task_id) t.blocked_by
            (Store.Tasks.create_task row rows) in
        (r >>= (λ _. from_row row), rows')
  ]

  unfoldable pub check_unblocks : ℕ → Ident → TaskRow → Tasks → Result (Unit {0}) × Tasks
  unfolding write_each remove_from_blocked_by
  check_unblocks now completed_task_id completed_row rows = elim (from_json completed_row.blocks) [
    | none ↦ (err TeamError.json, rows)
    | some blocks ↦
        write_each (λ d. remove_from_blocked_by to_json from_json now d completed_task_id) blocks
          rows
  ]

  unfoldable pub update_params : TaskUpdate Value → UpdateTaskParams
  unfolding to_string
  update_params update = record {
    status = map_option to_string update.status;
    description = update.description;
    owner = update.owner;
    blocked_by = map_option to_json update.blocked_by;
    metadata = map_option value_to_json update.metadata;
  }

  abbrev found_task : Ident → Option TaskRow → Result (TeamTask Value)
  found_task task_id none = err (TeamError.task_not_found task_id)
  found_task task_id (some row) = from_row row

  unfoldable pub update_task :
      ℕ → Ident → Ident → TaskUpdate Value → Tasks → Result (TeamTask Value) × Tasks
  unfolding find_task_by_id Store.Tasks.update_task check_unblocks update_params
  update_task now team_id task_id update rows = elim (find_task_by_id team_id task_id rows) [
    | none ↦ (err (TeamError.task_not_found task_id), rows)
    | some existing ↦ elim (Store.Tasks.update_task now task_id (update_params update) rows) [
      | err e ↦ (err e, rows)
      | panicked ↦ (panicked, rows)
      | ok updated ↦
          let (r, rows') =
            if is_completed update.status
            then check_unblocks now task_id existing updated
            else (ok tt, updated) in
          (r >>= (λ _. found_task task_id (find_task_by_id team_id task_id rows')), rows')
    ]
  ]

  abbrev readable : TaskRow → Option (TeamTask Value)
  readable row = elim (from_row row) [ ok t ↦ some t | err e ↦ none | panicked ↦ none ]

  unfoldable pub list_tasks : Ident → Tasks → List (TeamTask Value)
  unfolding Store.Tasks.list_tasks
  list_tasks team_id rows = collect readable (Store.Tasks.list_tasks team_id rows)
