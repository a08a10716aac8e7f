-- ===== src/Store/Tasks.antt =====
-- crates/store/src/team_repo.rs, the in-memory repository: the tasks. `serde_json` is a parameter:
-- `to_json` writes a list of identifiers, `from_json` reads one. A write that finds its row returns
-- the rows, and a write that does not is the error `NotFound`.
use team_lite.Base.{
  Ident, ℕ, String, Option, none, some, List, [], ◌∷◌, ◌++◌, ◌==◌, ◌&&◌, not, if◌then◌else◌, keep,
  mem, without,
}
use team_lite.Errors.{Result, ok, err, TeamError, DbError}

-- `TeamTaskRow`.
pub record TaskRow : Type 0 where
  pub id : Ident
  pub team_id : Ident
  pub subject : String
  pub description : Option String
  pub status : String
  pub owner : Option String
  pub blocked_by : String
  pub blocks : String
  pub metadata : Option String
  pub created_at : ℕ
  pub updated_at : ℕ

pub record UpdateTaskParams : Type 0 where
  pub status : Option String
  pub description : Option String
  pub owner : Option String
  pub blocked_by : Option String
  pub metadata : Option String

-- The tasks, in the order in which they were made.
abbrev pub Tasks : Type 0
Tasks = List TaskRow

-- `iter().find(|t| t.id == task_id)`.
abbrev pub task_at : Ident → Tasks → Option TaskRow
task_at i [] = none
task_at i (t ∷ ts) = let rest = task_at i ts in if i == t.id then some t else rest

-- A write through `iter_mut().find(…)`.
abbrev pub write_at : Ident → (TaskRow → TaskRow) → Tasks → Tasks
write_at i f [] = []
write_at i f (t ∷ ts) = let rest = write_at i f ts in if i == t.id then f t ∷ ts else t ∷ rest

-- `find` with `ok_or_else`, then the write.
abbrev pub write_found : Ident → (TaskRow → TaskRow) → Tasks → Result Tasks
write_found i f rows = elim (task_at i rows) [
  | none ↦ err (TeamError.database (DbError.not_found i))
  | some t ↦ ok (write_at i f rows)
]

unfoldable pub create_task : TaskRow → Tasks → Tasks
create_task row rows = rows ++ row ∷ []

unfoldable pub find_task_by_id : Ident → Ident → Tasks → Option TaskRow
find_task_by_id team_id task_id [] = none
find_task_by_id team_id task_id (t ∷ ts) =
    let rest = find_task_by_id team_id task_id ts in
    if (team_id == t.team_id) && (task_id == t.id) then some t else rest

unfoldable pub list_tasks : Ident → Tasks → Tasks
list_tasks team_id rows = keep (λ (t : TaskRow). team_id == t.team_id) rows

unfoldable pub delete_tasks_by_team : Ident → Tasks → Tasks
delete_tasks_by_team team_id rows = keep (λ (t : TaskRow). not (team_id == t.team_id)) rows

abbrev or_old {ℓ} : {A : Type ℓ} → Option A → A → A
or_old none old = old
or_old (some new) old = new

abbrev or_still {ℓ} : {A : Type ℓ} → Option A → Option A → Option A
or_still none old = old
or_still (some new) old = some new

-- The fields that the update sets.
abbrev pub apply_update : ℕ → UpdateTaskParams → TaskRow → TaskRow
apply_update now params t = record t {
  status = or_old params.status t.status;
  description = or_still params.description t.description;
  owner = or_still params.owner t.owner;
  blocked_by = or_old params.blocked_by t.blocked_by;
  metadata = or_still params.metadata t.metadata;
  updated_at = now;
}

unfoldable pub update_task : ℕ → Ident → UpdateTaskParams → Tasks → Result Tasks
update_task now task_id params rows = write_found task_id (apply_update now params) rows

-- `from_str(…).unwrap_or_default()`.
abbrev pub ids_of : (String → Option (List Ident)) → String → List Ident
ids_of from_json s = elim (from_json s) [ none ↦ [] | some ids ↦ ids ]

abbrev pub add_id : Ident → List Ident → List Ident
add_id i ids = if mem i ids then ids else ids ++ i ∷ []

module _ (to_json : List Ident → String) (from_json : String → Option (List Ident)) where
  abbrev pub add_blocks : ℕ → Ident → TaskRow → TaskRow
  add_blocks now blocked t = record t {
    blocks = to_json (add_id blocked (ids_of from_json t.blocks));
    updated_at = now;
  }

  unfoldable pub append_to_blocks : ℕ → Ident → Ident → Tasks → Result Tasks
  append_to_blocks now task_id blocked_task_id rows =
      write_found task_id (add_blocks now blocked_task_id) rows

  abbrev pub drop_blocked_by : ℕ → Ident → TaskRow → TaskRow
  drop_blocked_by now unblocked t = record t {
    blocked_by = to_json (without unblocked (ids_of from_json t.blocked_by));
    updated_at = now;
  }

  unfoldable pub remove_from_blocked_by : ℕ → Ident → Ident → Tasks → Result Tasks
  remove_from_blocked_by now task_id unblocked_task_id rows =
      write_found task_id (drop_blocked_by now unblocked_task_id) rows
