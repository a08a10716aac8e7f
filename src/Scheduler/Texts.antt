-- ===== src/Scheduler/Texts.antt =====
-- crates/team/src/types.rs: roles, statuses and previews as texts.
use Prim.Native.String.count
use Prim.Native.String.append
use team_lite.TaskBoard
use Prim.Native.String.{String, count}
use team_lite.Base.{ltb, if◌then◌else◌, ap, ◌∙◌, ℕ, zero, suc, some, ◌≡◌, refl, arith}
use team_lite.TaskBoard.{TaskStatus}
use team_lite.Scheduler.Model.{
  TeammateRole, TeammateStatus, role_text, parse_role, status_text, parse_status,
}
use team_lite.Scheduler.Names.{take_chars, truncate_last_message}
use Prim.Native.String as Native

role-text : (r : TeammateRole) → parse_role (role_text r) ≡ some r
unfolding parse_role role_text
role-text TeammateRole.lead = refl
role-text TeammateRole.teammate = refl

status-text : (s : TeammateStatus) → parse_status (status_text s) ≡ some s
unfolding parse_status status_text
status-text TeammateStatus.idle = refl
status-text TeammateStatus.working = refl
status-text TeammateStatus.thinking = refl
status-text TeammateStatus.tool_use = refl
status-text TeammateStatus.completed = refl
status-text TeammateStatus.error = refl

task-text : (s : TaskStatus) → TaskBoard.parse (TaskBoard.to_string s) ≡ some s
unfolding TaskBoard.parse TaskBoard.to_string
task-text TaskStatus.pending = refl
task-text TaskStatus.in_progress = refl
task-text TaskStatus.completed = refl
task-text TaskStatus.deleted = refl

-- Roles, the statuses of members and the statuses of tasks are read back from the texts that they are
-- written as.
pub parse-text :
    (r : TeammateRole) (s : TeammateStatus) (t : TaskStatus)
    → (parse_role (role_text r) ≡ some r)
      × (parse_status (status_text s) ≡ some s)
      × (TaskBoard.parse (TaskBoard.to_string t) ≡ some t)
parse-text r s t = (role-text r, status-text s, task-text t)

abbrev pub capped : ℕ → ℕ → ℕ
capped n most = if ltb n most then n else most

take-count : (n : ℕ) (s : String) → count (take_chars n s) ≡ capped (count s) n
unfolding take_chars
take-count zero s = ground arith
take-count (suc n) String.[] = ground (arith, count.nil)
take-count (suc n) (String.◌∷◌ c s) =
    ground (arith, take-count n s, count.cons c (take_chars n s), count.cons c s)

take-prefix : (n : ℕ) (s : String) → (rest : String) × (Native.◌++◌ (take_chars n s) rest ≡ s)
unfolding take_chars
take-prefix zero s = (s, append.nil s)
take-prefix (suc n) String.[] = (String.[], append.nil String.[])
take-prefix (suc n) (String.◌∷◌ c s) =
    let (rest, e) = take-prefix n s in
    (rest, append.cons c (take_chars n s) rest ∙ ap (λ t. String.◌∷◌ c t) e)

-- A preview is a prefix of the content, of 500 characters, or the whole content if it has fewer.
pub truncate-prefix :
    (content : String)
    → ((rest : String) × (Native.◌++◌ (truncate_last_message content) rest ≡ content))
      × (count (truncate_last_message content) ≡ capped (count content) 500)
unfolding truncate_last_message
truncate-prefix content = (take-prefix 500 content, take-count 500 content)
