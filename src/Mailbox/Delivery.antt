-- ===== src/Mailbox/Delivery.antt =====
-- crates/team/src/mailbox.rs: `write_with_files`, `peek_unread` and `read_unread`.
use team_lite.Base.{
  if◌then◌else◌, Ident, ℕ, String, Bool, true, false, Option, none, some, List, [], ◌∷◌, ◌++◌, ◌≡◌,
  refl, ap, ◌==◌, ◌&&◌, keep, map, collect, map_option, Bool-cases, Option-cases, inl, inr, arith,
}
use team_lite.Errors.{ok}
use team_lite.Store.{
  MessageRow, Messages, is_for, is_unread, mark, write_message, read_unread_and_mark,
  mark_read_batch,
}
use team_lite.Store
use team_lite.Mailbox.{
  MailboxMessageType, MailboxMessage, Draft, to_string, parse, not_empty, and_then, from_row,
  draft_row, write_with_files, read_unread, peek_unread,
}

parse-to_string : (t : MailboxMessageType) → parse (to_string t) ≡ some t
unfolding parse to_string
parse-to_string MailboxMessageType.message = refl
parse-to_string MailboxMessageType.idle_notification = refl
parse-to_string MailboxMessageType.shutdown_request = refl

module _ (f : MessageRow → Option MailboxMessage) (p : MessageRow → Bool) (row : MessageRow) where
  -- A row at the end that is looked for.
  last_kept :
      (m : MailboxMessage) (rows : Messages)
      → p row ≡ true
      → f row ≡ some m
      → collect f (keep p (rows ++ row ∷ [])) ≡ collect f (keep p rows) ++ m ∷ []
  last_kept m [] e g = ground (arith, e, g)
  last_kept m (x ∷ xs) e g = elim (Bool-cases (p x)) [
    | inr h ↦ ground (arith, h, last_kept m xs e g)
    | inl h ↦ elim (Option-cases (f x)) [
      | inl k ↦ ground (arith, h, k, last_kept m xs e g)
      | inr (b, k) ↦ ground (arith, h, k, last_kept m xs e g)
    ]
  ]

  -- And one that is not.
  last_left : (rows : Messages) → p row ≡ false → keep p (rows ++ row ∷ []) ≡ keep p rows
  last_left [] e = ground (arith, e)
  last_left (x ∷ xs) e = ground (arith, last_left xs e)

-- The same recipient.
abbrev pub same_recipient : Ident → Ident → Ident → Ident → Bool
same_recipient t a u b = (t == u) && (a == b)

-- The rows that are marked are those that were unread, and nothing else changes.
read_none :
    (t a : Ident) (rows : Messages) → keep (is_unread t a) (read_unread_and_mark t a rows).1 ≡ []
unfolding read_unread_and_mark
read_none t a [] = refl
read_none t a (m ∷ ms) = ground (arith, read_none t a ms)

read_found :
    (t a : Ident) (rows : Messages)
    → (read_unread_and_mark t a rows).0 ≡ map mark (keep (is_unread t a) rows)
unfolding read_unread_and_mark
read_found t a [] = refl
read_found t a (m ∷ ms) = ground (arith, read_found t a ms)

read_others :
    (t a u b : Ident) (rows : Messages)
    → same_recipient t a u b ≡ false
    → keep (is_unread u b) (read_unread_and_mark t a rows).1 ≡ keep (is_unread u b) rows
unfolding read_unread_and_mark
read_others t a u b [] h = refl
read_others t a u b (m ∷ ms) h = ground (arith, read_others t a u b ms h, h)

read_again :
    (t a : Ident) (rows : Messages)
    → keep (is_unread t a) rows ≡ []
    → read_unread_and_mark t a rows ≡ ([], rows)
unfolding read_unread_and_mark
read_again t a [] h = refl
read_again t a (m ∷ ms) h = elim (Bool-cases (is_unread t a m)) [
  | inl e ↦ absurd (ground (arith, h, e))
  | inr e ↦ rw (e, read_again t a ms (ground (arith, h, e))) refl
]

module _ (to_json : List String → String) (from_json : String → Option (List String)) where
  -- The message that a draft describes.
  abbrev pub delivered : Ident → ℕ → Draft → MailboxMessage
  delivered id now d = record {
    id = id;
    team_id = d.team_id;
    to_agent_id = d.to_agent_id;
    from_agent_id = d.from_agent_id;
    msg_type = d.msg_type;
    content = d.content;
    summary = d.summary;
    files = and_then d.files not_empty;
    read = false;
    created_at = now;
  }

  -- `serde_json` reads back what it writes of these files.
  abbrev pub ReadsBack : Option (List String) → Type 0
  ReadsBack files = (fs : List String) → files ≡ some fs → from_json (to_json fs) ≡ some fs

  files_lem :
      (fs : Option (List String))
      → ReadsBack fs
      → and_then (and_then (map_option to_json (and_then fs not_empty)) from_json) not_empty
        ≡ and_then fs not_empty
  files_lem none h = refl
  files_lem (some []) h = refl
  files_lem (some (f ∷ fs)) h = rw (h (f ∷ fs) refl) refl

  draft-delivered :
      (id : Ident) (now : ℕ) (d : Draft)
      → ReadsBack d.files
      → from_row to_json from_json (draft_row to_json from_json id now d)
        ≡ some (delivered id now d)
  unfolding from_row draft_row
  draft-delivered id now d h = ground (arith, parse-to_string d.msg_type, files_lem d.files h)

  -- If `serde_json` reads back what it writes of the draft's files, a message that is written comes
  -- back as it was drafted and is the last of its recipient's unread messages, and the unread messages
  -- of others stay as they were.
  pub write-peek :
      (id : Ident) (now : ℕ) (d : Draft) (rows : Messages)
      → ReadsBack d.files
      → let (r, rows') = write_with_files to_json from_json id now d rows in
        (r ≡ ok (delivered id now d))
        × ((u b : Ident)
            → peek_unread to_json from_json u b rows' ≡ (
                if same_recipient d.team_id d.to_agent_id u b
                then peek_unread to_json from_json u b rows ++ delivered id now d ∷ []
                else peek_unread to_json from_json u b rows))
  unfolding write_with_files peek_unread Store.peek_unread write_message
  write-peek id now d rows h =
      let row : MessageRow = draft_row to_json from_json id now d in
      (
        rw (draft-delivered id now d h, write_with_files) refl,
        λ u b. elim (Bool-cases (same_recipient d.team_id d.to_agent_id u b)) [
          | inl o ↦
              let mine : is_unread u b row ≡ true = unfold draft_row in ground (arith, o) in
              rw o (
                last_kept (from_row to_json from_json) (is_unread u b) row (delivered id now d) rows
                  mine (draft-delivered id now d h))
          | inr o ↦
              let other : is_unread u b row ≡ false = unfold draft_row in ground (arith, o) in
              rw o (
                ap (collect (from_row to_json from_json))
                  (last_left (from_row to_json from_json) (is_unread u b) row rows other))
        ],
      )

  -- `read_unread` returns each message that was unread, in the order of writing; read again, there is
  -- none and nothing changes; and the unread messages of others stay as they were.
  pub read_unread-once :
      (t a : Ident) (rows : Messages)
      → let (found, rest) = read_unread to_json from_json t a rows in
        (found ≡ collect (from_row to_json from_json) (map mark (Store.peek_unread t a rows)))
        × (read_unread to_json from_json t a rest ≡ ([], rest))
        × ((u b : Ident)
            → peek_unread to_json from_json u b rest
              ≡ (if same_recipient t a u b then [] else peek_unread to_json from_json u b rows))
  unfolding read_unread peek_unread Store.peek_unread
  read_unread-once t a rows = (
    ap (collect (from_row to_json from_json)) (read_found t a rows),
    rw (read_again t a (read_unread_and_mark t a rows).1 (read_none t a rows)) refl,
    λ u b. elim (Bool-cases (same_recipient t a u b)) [
      | inl o ↦
          let none_left : keep (is_unread u b) (read_unread_and_mark t a rows).1 ≡ [] =
            ground (arith, o, read_none t a rows) in
          rw o (ap (collect (from_row to_json from_json)) none_left)
      | inr o ↦ rw o (ap (collect (from_row to_json from_json)) (read_others t a u b rows o))
    ],
  )
