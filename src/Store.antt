-- ===== src/Store.antt =====
-- crates/store/src/team_repo.rs, the in-memory repository: the messages of the mailbox. The rows are
-- those of crates/store/src/models.rs. A method that cannot fail returns its result alone.
pub mod Tasks
use team_lite.Base.{
  Ident, ℕ, String, Bool, true, Option, none, some, List, [], ◌∷◌, ◌++◌, ◌==◌, ◌&&◌, not,
  if◌then◌else◌, keep, mem, map, zero, suc, map_option,
}

-- `MailboxMessageRow`.
pub record MessageRow : Type 0 where
  pub id : Ident
  pub team_id : Ident
  pub to_agent_id : Ident
  pub from_agent_id : Ident
  pub msg_type : String
  pub content : String
  pub summary : Option String
  pub files : Option String
  pub read : Bool
  pub created_at : ℕ

-- The messages, in the order in which they were written.
abbrev pub Messages : Type 0
Messages = List MessageRow

unfoldable pub write_message : MessageRow → Messages → Messages
write_message row rows = rows ++ row ∷ []

-- A row of the recipient in the team.
abbrev pub is_for : Ident → Ident → MessageRow → Bool
is_for team_id agent_id m = (m.team_id == team_id) && (m.to_agent_id == agent_id)

abbrev pub is_unread : Ident → Ident → MessageRow → Bool
is_unread team_id agent_id m = is_for team_id agent_id m && not m.read

abbrev pub mark : MessageRow → MessageRow
mark m = record m { read = true }

-- The rows returned are the ones after the write.
unfoldable pub read_unread_and_mark : Ident → Ident → Messages → List MessageRow × Messages
read_unread_and_mark team_id agent_id [] = ([], [])
read_unread_and_mark team_id agent_id (m ∷ ms) =
    let (found, rest) = read_unread_and_mark team_id agent_id ms in
    if is_unread team_id agent_id m then (mark m ∷ found, mark m ∷ rest) else (found, m ∷ rest)

unfoldable pub peek_unread : Ident → Ident → Messages → List MessageRow
peek_unread team_id agent_id rows = keep (is_unread team_id agent_id) rows

unfoldable pub mark_read_batch : List Ident → Messages → Messages
mark_read_batch ids rows = map (λ (m : MessageRow). if mem m.id ids then mark m else m) rows

-- The first row with the identifier; `none` is the error `NotFound`.
unfoldable pub update_message_summary : Ident → String → Messages → Option Messages
update_message_summary id text [] = none
update_message_summary id text (m ∷ ms) =
    let rest = map_option (λ (found : Messages). m ∷ found) (update_message_summary id text ms) in
    if m.id == id then some (record m { summary = some text } ∷ ms) else rest

abbrev pub take : ℕ → List MessageRow → List MessageRow
take zero ms = []
take (suc n) [] = []
take (suc n) (m ∷ ms) = m ∷ take n ms

-- The limit is the number after the cast to `usize`.
unfoldable pub get_history : Ident → Ident → Option ℕ → Messages → List MessageRow
get_history team_id agent_id none rows = keep (is_for team_id agent_id) rows
get_history team_id agent_id (some n) rows = take n (keep (is_for team_id agent_id) rows)

unfoldable pub delete_mailbox_by_team : Ident → Messages → Messages
delete_mailbox_by_team team_id rows = keep (λ (m : MessageRow). not (m.team_id == team_id)) rows
