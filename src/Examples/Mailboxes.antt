-- ===== src/Examples/Mailboxes.antt =====
-- The properties of mailboxes, at one message with one file.
use team_lite.Base.{
  if◌then◌else◌, Ident, false, some, [], ◌∷◌, ◌≡◌, refl, String, List, collect, map, ◌++◌, none,
}
use team_lite.Mailbox
use team_lite.Store
use team_lite.Store.{Messages, mark}
use team_lite.Mailbox.{
  MailboxMessageType, Draft, from_row, read_unread, write_with_files,
  mark_all_unread_for_agents_read,
}
use team_lite.Mailbox.Delivery.{ReadsBack, delivered, same_recipient, write-peek, read_unread-once}
use team_lite.Mailbox.Cancellation.{mark_all-none}
use team_lite.Errors.{ok}

abbrev one_file : List String → String
one_file [] = ""
one_file (f ∷ fs) = f

abbrev draft : Draft
draft = record {
  team_id = 2;
  to_agent_id = 1;
  from_agent_id = 5;
  msg_type = MailboxMessageType.message;
  content = "hello";
  summary = none;
  files = some ("notes.txt" ∷ []);
}

reads_notes : ReadsBack one_file (λ s. some (s ∷ [])) draft.files
reads_notes = λ fs e. cc

write-peek_example :
    let (r, rows') = write_with_files one_file (λ s. some (s ∷ [])) 60 10 draft [] in
    (r ≡ ok (delivered one_file (λ s. some (s ∷ [])) 60 10 draft))
    × ((u b : Ident)
        → Mailbox.peek_unread one_file (λ s. some (s ∷ [])) u b rows' ≡ (
            if same_recipient 2 1 u b
            then Mailbox.peek_unread one_file (λ s. some (s ∷ [])) u b []
              ++ delivered one_file (λ s. some (s ∷ [])) 60 10 draft ∷ []
            else Mailbox.peek_unread one_file (λ s. some (s ∷ [])) u b []))
write-peek_example = write-peek one_file (λ s. some (s ∷ [])) 60 10 draft [] reads_notes

abbrev stored : Messages
stored =
    record {
      id = 60;
      team_id = 2;
      to_agent_id = 1;
      from_agent_id = 5;
      msg_type = "message";
      content = "hello";
      summary = none;
      files = some "notes.txt";
      read = false;
      created_at = 10;
    }
    ∷ []

read_unread-once_example :
    let (found, rest) = read_unread one_file (λ s. some (s ∷ [])) 2 1 stored in
    (found
      ≡ collect (from_row one_file (λ s. some (s ∷ []))) (map mark (Store.peek_unread 2 1 stored)))
    × (read_unread one_file (λ s. some (s ∷ [])) 2 1 rest ≡ ([], rest))
    × ((u b : Ident)
        → Mailbox.peek_unread one_file (λ s. some (s ∷ [])) u b rest ≡ (
            if same_recipient 2 1 u b
            then []
            else Mailbox.peek_unread one_file (λ s. some (s ∷ [])) u b stored))
read_unread-once_example = read_unread-once one_file (λ s. some (s ∷ [])) 2 1 stored

mark_all-none_example :
    Mailbox.peek_unread one_file
      (λ s. some (s ∷ []))
      2
      1
      (mark_all_unread_for_agents_read one_file (λ s. some (s ∷ [])) 2 (1 ∷ []) stored).1
    ≡ []
mark_all-none_example = mark_all-none one_file (λ s. some (s ∷ [])) 2 1 (1 ∷ []) stored refl
