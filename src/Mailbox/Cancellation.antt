-- ===== src/Mailbox/Cancellation.antt =====
-- crates/team/src/mailbox.rs: `mark_all_unread_for_agents_read`.
use team_lite.Base.{
  Ident, String, Bool, true, false, Option, some, List, [], ◌∷◌, ◌≡◌, refl, sym, subst, ◌==◌,
  if◌then◌else◌, keep, mem, map, collect, is_empty, Bool-cases, Option-cases, inl, inr, arith,
  ==_refl, mem-append,
}
use mathlib.Core.List.{Memᴰ}
use team_lite.Store.{MessageRow, Messages, is_for, is_unread, mark, mark_read_batch}
use team_lite.Store
use team_lite.Mailbox.{
  MailboxMessage, from_row, peek_unread, unread_ids, mark_all_unread_for_agents_read,
}

no_id : (i : Ident) (ids : List Ident) → is_empty ids ≡ true → mem i ids ≡ false
no_id i [] e = refl
no_id i (x ∷ xs) e = cc

mark_nothing :
    (ids : List Ident) (rows : Messages)
    → is_empty ids ≡ true
    → map (λ (m : MessageRow). if mem m.id ids then mark m else m) rows ≡ rows
mark_nothing ids [] e = refl
mark_nothing ids (m ∷ ms) e = ground (arith, no_id m.id ids e, mark_nothing ids ms e)

module _ (f : MessageRow → Option MailboxMessage) where
  -- The rows that are not unread any more, or cannot be read as messages.
  marked_none :
      (t a : Ident) (ids : List Ident) (rows : Messages)
      → ((m : MessageRow)
          → Memᴰ m rows
          → is_unread t a m ≡ true
          → (x : MailboxMessage) → f m ≡ some x
          → mem m.id ids ≡ true)
      → collect f
          (keep (is_unread t a) (map (λ (m : MessageRow). if mem m.id ids then mark m else m) rows))
        ≡ []
  marked_none t a ids [] h = refl
  marked_none t a ids (m ∷ ms) h =
      let rest = marked_none t a ids ms (λ n i. h n (Memᴰ.tail i)) in
      elim (Bool-cases (mem m.id ids)) [
        | inl e ↦ ground (arith, e, rest)
        | inr e ↦ elim (Bool-cases (is_unread t a m)) [
          | inr k ↦ rw (e) (rw (k) rest)
          | inl k ↦ elim (Option-cases (f m)) [
            | inl z ↦ ground (arith, e, k, z, rest)
            | inr (x, z) ↦ absurd (ground (arith, e, h m (Memᴰ.head refl) k x z))
          ]
        ]
      ]

  module _ (keeps_id : (m : MessageRow) (x : MailboxMessage) → f m ≡ some x → x.id ≡ m.id) where
    found_id :
        (p : MessageRow → Bool) (m : MessageRow) (x : MailboxMessage) (rows : Messages)
        → Memᴰ m rows
        → p m ≡ true
        → f m ≡ some x
        → mem m.id (map (λ (y : MailboxMessage). y.id) (collect f (keep p rows))) ≡ true
    found_id p m x [] i e g = elim i [ ]
    found_id p m x (n ∷ ns) (Memᴰ.head q) e g =
        let pn : p n ≡ true = subst (λ k. p k ≡ true) q e in
        let fn : f n ≡ some x = subst (λ k. f k ≡ some x) q g in
        let same : m.id ≡ x.id = sym (keeps_id m x g) in ground (arith, pn, fn, same, ==_refl x.id)
    found_id p m x (n ∷ ns) (Memᴰ.tail i) e g =
        let rest = found_id p m x ns i e g in
        elim (Bool-cases (p n)) [
          | inr k ↦ ground (arith, k, rest)
          | inl k ↦ elim (Option-cases (f n)) [
            | inl z ↦ ground (arith, k, z, rest)
            | inr (y, z) ↦ ground (arith, k, z, rest)
          ]
        ]

module _ (to_json : List String → String) (from_json : String → Option (List String)) where
  row_id :
      (m : MessageRow) (x : MailboxMessage) → from_row to_json from_json m ≡ some x → x.id ≡ m.id
  unfolding from_row
  row_id m x e = elim (Option-cases (team_lite.Mailbox.parse m.msg_type)) [
    | inl k ↦ absurd (ground (arith, e, k))
    | inr (t, k) ↦ ground (arith, e, k)
  ]

  listed :
      (t a : Ident) (agents : List Ident) (rows : Messages) (m : MessageRow) (x : MailboxMessage)
      → mem a agents ≡ true
      → Memᴰ m rows
      → is_unread t a m ≡ true
      → from_row to_json from_json m ≡ some x
      → mem m.id (unread_ids to_json from_json t agents rows) ≡ true
  unfolding unread_ids peek_unread Store.peek_unread
  listed t a [] rows m x h i e g = cc
  listed t a (b ∷ agents) rows m x h i e g =
      let both =
        mem-append m.id
          (map (λ (y : MailboxMessage). y.id)
            (collect (from_row to_json from_json) (keep (is_unread t b) rows)))
          (unread_ids to_json from_json t agents rows) in
      elim (Bool-cases (a == b)) [
        | inl q ↦
            let e' : is_unread t b m ≡ true = ground (arith, e, q) in
            ground (
              arith,
              both,
              found_id (from_row to_json from_json) row_id (is_unread t b) m x rows i e' g,
            )
        | inr q ↦ ground (arith, both, listed t a agents rows m x (ground (arith, h, q)) i e g)
      ]

  -- After `mark_all_unread_for_agents_read`, none of the agents has a message that `peek_unread`
  -- returns.
  pub mark_all-none :
      (t a : Ident) (agents : List Ident) (rows : Messages)
      → mem a agents ≡ true
      → peek_unread to_json from_json t a
          (mark_all_unread_for_agents_read to_json from_json t agents rows).1
        ≡ []
  unfolding mark_all_unread_for_agents_read mark_read_batch peek_unread Store.peek_unread
  mark_all-none t a agents rows h =
      let ids = unread_ids to_json from_json t agents rows in
      let clear =
        marked_none (from_row to_json from_json) t a ids rows
          (λ m i e x g. listed t a agents rows m x h i e g) in
      elim (Bool-cases (is_empty ids)) [
        | inr e ↦ rw (e) clear
        | inl e ↦ rw (e) (
            subst (λ z. collect (from_row to_json from_json) (keep (is_unread t a) z) ≡ [])
              (mark_nothing ids rows e) clear)
      ]
