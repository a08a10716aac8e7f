-- ===== src/Mailbox.antt =====
-- crates/team/src/mailbox.rs over the in-memory repository, with `MailboxMessageType` and
-- `MailboxMessage` of crates/team/src/types.rs. `serde_json` is a parameter: how a list of files is
-- written, and what a text is read as, if it can be.
pub mod Delivery
pub mod Cancellation
use team_lite.Base.{
  Ident, ℕ, String, Bool, false, Option, none, some, List, [], ◌∷◌, ◌++◌, not, if◌then◌else◌, any,
  collect, is_empty, length, map, map_option,
}
use team_lite.Errors.{Result, ok, err, invalid_request, invalid_message_type}
use team_lite.Store.{
  MessageRow, Messages, write_message, read_unread_and_mark, get_history, delete_mailbox_by_team,
}
use team_lite.Store
use text.Mathlib.Text.{◌==◌}

pub data MailboxMessageType : Type 0 where
  message idle_notification shutdown_request : MailboxMessageType

-- `Display` and `parse`.
unfoldable pub to_string : MailboxMessageType → String
to_string message = "message"
to_string idle_notification = "idle_notification"
to_string shutdown_request = "shutdown_request"

unfoldable pub parse : String → Option MailboxMessageType
parse s =
    if s == "message"
    then some message
    else if s == "idle_notification"
    then some idle_notification
    else if s == "shutdown_request"
    then some shutdown_request
    else none

pub record MailboxMessage : Type 0 where
  pub id : Ident
  pub team_id : Ident
  pub to_agent_id : Ident
  pub from_agent_id : Ident
  pub msg_type : MailboxMessageType
  pub content : String
  pub summary : Option String
  pub files : Option (List String)
  pub read : Bool
  pub created_at : ℕ

-- `filter(|f| !f.is_empty())`.
abbrev pub not_empty : List String → Option (List String)
not_empty [] = none
not_empty (f ∷ fs) = some (f ∷ fs)

abbrev pub and_then {ℓ κ} : {A : Type ℓ} {B : Type κ} → Option A → (A → Option B) → Option B
and_then none f = none
and_then (some a) f = f a

-- What a caller gives to `write_with_files`, apart from the generated identifier and the time.
pub record Draft : Type 0 where
  pub team_id : Ident
  pub to_agent_id : Ident
  pub from_agent_id : Ident
  pub msg_type : MailboxMessageType
  pub content : String
  pub summary : Option String
  pub files : Option (List String)

module _ (to_json : List String → String) (from_json : String → Option (List String)) where
  unfoldable pub from_row : MessageRow → Option MailboxMessage
  unfolding parse
  from_row row = elim (parse row.msg_type) [
    | none ↦ none
    | some t ↦ some (record {
      id = row.id;
      team_id = row.team_id;
      to_agent_id = row.to_agent_id;
      from_agent_id = row.from_agent_id;
      msg_type = t;
      content = row.content;
      summary = row.summary;
      files = and_then (and_then row.files from_json) not_empty;
      read = row.read;
      created_at = row.created_at;
    })
  ]

  unfoldable pub draft_row : Ident → ℕ → Draft → MessageRow
  unfolding to_string
  draft_row id now d = record {
    id = id;
    team_id = d.team_id;
    to_agent_id = d.to_agent_id;
    from_agent_id = d.from_agent_id;
    msg_type = to_string d.msg_type;
    content = d.content;
    summary = d.summary;
    files = map_option to_json (and_then d.files not_empty);
    read = false;
    created_at = now;
  }

  unfoldable pub write_with_files : Ident → ℕ → Draft → Messages → Result MailboxMessage × Messages
  unfolding draft_row from_row write_message
  write_with_files id now d rows = (
    elim (from_row (draft_row id now d)) [
      | none ↦ err (invalid_request (invalid_message_type (to_string d.msg_type)))
      | some m ↦ ok m
    ],
    write_message (draft_row id now d) rows,
  )

  -- `write`: no files.
  unfoldable pub write : Ident → ℕ → Draft → Messages → Result MailboxMessage × Messages
  unfolding write_with_files
  write id now d rows = write_with_files id now (record d { files = none }) rows

  unfoldable pub read_unread : Ident → Ident → Messages → List MailboxMessage × Messages
  unfolding from_row read_unread_and_mark
  read_unread team_id agent_id rows =
      let (found, rest) = read_unread_and_mark team_id agent_id rows in
      (collect from_row found, rest)

  unfoldable pub peek_unread : Ident → Ident → Messages → List MailboxMessage
  unfolding from_row Store.peek_unread
  peek_unread team_id agent_id rows = collect from_row (Store.peek_unread team_id agent_id rows)

  -- The loop over the agents: the identifiers of their unread messages.
  unfoldable pub unread_ids : Ident → List Ident → Messages → List Ident
  unfolding peek_unread
  unread_ids team_id [] rows = []
  unread_ids team_id (a ∷ agents) rows =
      map (λ (m : MailboxMessage). m.id) (peek_unread team_id a rows)
      ++ unread_ids team_id agents rows

  unfoldable pub mark_all_unread_for_agents_read : Ident → List Ident → Messages → ℕ × Messages
  unfolding unread_ids Store.mark_read_batch
  mark_all_unread_for_agents_read team_id agents rows =
      let ids = unread_ids team_id agents rows in
      (length ids, if is_empty ids then rows else Store.mark_read_batch ids rows)

  unfoldable pub history : Ident → Ident → Option ℕ → Messages → List MailboxMessage
  unfolding from_row get_history
  history team_id agent_id limit rows = collect from_row (get_history team_id agent_id limit rows)

unfoldable pub has_unread : Ident → Ident → Messages → Bool
unfolding get_history
has_unread team_id agent_id rows =
    any (λ (m : MessageRow). not m.read) (get_history team_id agent_id none rows)
