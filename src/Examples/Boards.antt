-- ===== src/Examples/Boards.antt =====
-- The properties of task boards, at a board of two tasks. Lists of identifiers are written in unary.
use Prim.Native.String.{String}
use Prim.Native.Char.{code}
use team_lite.Store
use team_lite.TaskBoard.{
  create_task, update_task, NewTask, TaskUpdate, check_dependencies, TaskStatus, new_row,
  write_each, to_string,
}
use team_lite.Base.{
  Ident, true, false, some, [], ◌∷◌, ◌≡◌, refl, none, List, ℕ, zero, suc, Option, arith,
  if◌then◌else◌, ap, ◌∙◌, every, is_some, ◌==◌, mem,
}
use team_lite.TaskBoard.Dependencies.{Linked, create_task-Linked}
use team_lite.Store.Tasks.{Tasks, find_task_by_id, append_to_blocks, TaskRow}
use team_lite.TaskBoard.Unblocking.{update_task-Linked, update_task-frees}
use team_lite.Errors.{ok}
use team_lite.TaskBoard.Completion.{requested, is_refused, create_task-result}
use team_lite.TaskBoard.Links.{blocked_by_at}

abbrev unary : ℕ → String → String
unary zero s = String.◌∷◌ "a" s
unary (suc n) s = String.◌∷◌ "b" (unary n s)

abbrev to_text : List Ident → String
to_text [] = "[]"
to_text (n ∷ ns) = unary n (to_text ns)

abbrev bump : List Ident → List Ident
bump [] = []
bump (n ∷ ns) = suc n ∷ ns

-- Reads the numbers, each as many steps above its own mark.
abbrev of_text : String → List Ident
of_text String.[] = []
of_text (String.◌∷◌ c s) =
    let rest = of_text s in
    if code c == 97 then 0 ∷ rest else if code c == 98 then bump rest else []

of_text-unary : (n : ℕ) (s : String) → of_text (unary n s) ≡ n ∷ of_text s
of_text-unary zero s = refl
of_text-unary (suc n) s = ap bump (of_text-unary n s)

of_text-to_text : (ids : List Ident) → of_text (to_text ids) ≡ ids
of_text-to_text [] = refl
of_text-to_text (n ∷ ns) = of_text-unary n (to_text ns) ∙ ap (λ xs. n ∷ xs) (of_text-to_text ns)

abbrev from_text : String → Option (List Ident)
from_text s = some (of_text s)

reads_back : (ids : List Ident) → from_text (to_text ids) ≡ some ids
reads_back ids = ap (λ xs. some xs) (of_text-to_text ids)

abbrev same : String → String
same s = s

-- Task 1, and task 2, which waits for it.
abbrev first_task : NewTask
first_task = record {
  team_id = 9;
  subject = "design";
  description = none;
  owner = none;
  blocked_by = [];
}

abbrev second_task : NewTask
second_task = record {
  team_id = 9;
  subject = "build";
  description = none;
  owner = none;
  blocked_by = 1 ∷ [];
}

empty-Linked : Linked from_text []
empty-Linked = record {
  reverse = λ i d h. ground (arith, h);
  there = λ i d h. ground (arith, h);
  readable = λ i. refl;
}

abbrev one : Tasks
one = (create_task to_text from_text same some 1 10 first_task []).1

one-Linked : Linked from_text one
one-Linked =
    create_task-Linked to_text from_text same some reads_back refl 1 10 first_task [] empty-Linked
      refl

create_task-Linked_example :
    Linked from_text (create_task to_text from_text same some 2 20 second_task one).1
unfolding create_task check_dependencies new_row write_each Store.Tasks.create_task
create_task-Linked_example =
    create_task-Linked to_text from_text same some reads_back refl 2 20 second_task one one-Linked
      refl

create_task-result_example :
    let (r, rows') = create_task to_text from_text same some 2 20 second_task one in
    if every (λ d. is_some (find_task_by_id 9 d one)) (1 ∷ [])
    then r ≡ ok (requested to_text from_text same some reads_back refl 2 20 second_task)
    else ((is_refused r ≡ true) × (rows' ≡ one))
create_task-result_example =
    create_task-result to_text from_text same some reads_back refl 2 20 second_task one

abbrev two : Tasks
two = (create_task to_text from_text same some 2 20 second_task one).1

two-Linked : Linked from_text two
unfolding create_task check_dependencies new_row write_each Store.Tasks.create_task
two-Linked =
    create_task-Linked to_text from_text same some reads_back refl 2 20 second_task one one-Linked
      refl

abbrev first_row : TaskRow
first_row = record {
  id = 1;
  team_id = 9;
  subject = "design";
  description = none;
  status = "pending";
  owner = none;
  blocked_by = "[]";
  blocks = "bba[]";
  metadata = none;
  created_at = 10;
  updated_at = 20;
}

abbrev done : TaskUpdate String
done = record {
  status = some TaskStatus.completed;
  description = none;
  owner = none;
  blocked_by = none;
  metadata = none;
}

update_task-Linked_example :
    Linked from_text (update_task to_text from_text same some 30 9 1 done two).1
update_task-Linked_example =
    update_task-Linked to_text from_text same some reads_back 30 9 1 done two
      create_task-Linked_example refl

update_task-frees_example :
    mem 1 (blocked_by_at from_text 2 (update_task to_text from_text same some 30 9 1 done two).1)
    ≡ false
unfolding create_task check_dependencies new_row write_each Store.Tasks.create_task find_task_by_id
    append_to_blocks to_string
update_task-frees_example =
    update_task-frees to_text from_text same some reads_back 30 1 2 done first_row two two-Linked
      refl refl refl
