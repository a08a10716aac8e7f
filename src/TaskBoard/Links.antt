-- ===== src/TaskBoard/Links.antt =====
-- crates/team/src/task_board.rs: which task waits for which, in the rows.
use team_lite.Base.{
  Ident, String, Bool, false, Option, none, some, List, [], ◌∷◌, ◌&&◌, ◌||◌, not, ◌==◌, mem, arith,
  ◌≡◌, refl, inl, inr, Bool-cases, is_some, some_and, ==_eq, mem-append, ◌∙◌, ℕ, true, Option-cases,
  without, mem-without, any,
}
use team_lite.Store.Tasks.{
  TaskRow, Tasks, task_at, ids_of, add_id, write_at, add_blocks, drop_blocked_by,
}
use team_lite.TaskBoard.Rows.{Keeps, task_at-write_at}
use team_lite.Errors.{Result, ok}
use team_lite.TaskBoard.{write_each}

pub any_equal :
    (d : Ident) (b : Bool) (xs : List Ident) → any (λ x. (d == x) && b) xs ≡ (mem d xs && b)
any_equal d b [] = refl
any_equal d b (x ∷ xs) = ground (arith, any_equal d b xs)

pub any-false : (xs : List Ident) → any (λ x. false) xs ≡ false
any-false [] = refl
any-false (x ∷ xs) = any-false xs

mem-add_id : (i k : Ident) (xs : List Ident) → mem i (add_id k xs) ≡ (mem i xs || (i == k))
mem-add_id i k xs = elim (Bool-cases (mem k xs)) [
  | inl e ↦ ground (arith, e, ==_eq i k)
  | inr e ↦ ground (arith, e, mem-append i xs (k ∷ []))
]

module _ (from_json : String → Option (List Ident)) where
  abbrev pub blocked_by_at : Ident → Tasks → List Ident
  blocked_by_at i rows = elim (task_at i rows) [
    | none ↦ []
    | some t ↦ ids_of from_json t.blocked_by
  ]

  abbrev pub blocks_at : Ident → Tasks → List Ident
  blocks_at i rows = elim (task_at i rows) [ none ↦ [] | some t ↦ ids_of from_json t.blocks ]

  -- What a sequence of writes does to the links: the tasks `i` that the task `d` now also blocks are
  -- given by `add i d`, and the tasks `d` for which `i` no longer waits by `del i d`.
  pub record Links (add del : Ident → Ident → Bool) (rows rows' : Tasks) : Type 0 where
    pub waiting :
        (i d : Ident)
        → mem d (blocked_by_at i rows') ≡ (mem d (blocked_by_at i rows) && not (del i d))
    pub blocking : (i d : Ident) → mem i (blocks_at d rows') ≡ (mem i (blocks_at d rows) || add i d)
    pub there : (i : Ident) → is_some (task_at i rows') ≡ is_some (task_at i rows)
    pub parsed :
        (i : Ident)
        → some_and (λ (t : TaskRow). is_some (from_json t.blocks)) (task_at i rows)
          ≡ is_some (task_at i rows)
        → some_and (λ (t : TaskRow). is_some (from_json t.blocks)) (task_at i rows')
          ≡ is_some (task_at i rows')

  pub Links-refl : (rows : Tasks) → Links (λ i d. false) (λ i d. false) rows rows
  Links-refl rows = record {
    waiting = λ i d. ground arith;
    blocking = λ i d. ground arith;
    there = λ i. refl;
    parsed = λ i h. h;
  }

  module _ (add del add' del' : Ident → Ident → Bool) (a b c : Tasks) (ab : Links add del a b)
      (bc : Links add' del' b c) where
    pub Links-trans : Links (λ i d. add i d || add' i d) (λ i d. del i d || del' i d) a c
    Links-trans = record {
      waiting = λ i d. ground (arith, ab.waiting i d, bc.waiting i d);
      blocking = λ i d. ground (arith, ab.blocking i d, bc.blocking i d);
      there = λ i. bc.there i ∙ ab.there i;
      parsed = λ i h. bc.parsed i (ab.parsed i h);
    }

abbrev pub is_done_in : Ident → List Ident → Ident → Ident → Bool
is_done_in done is i d = (d == done) && mem i is

-- Here `serde_json` reads back what it writes of identifiers.
module _ (to_json : List Ident → String) (from_json : String → Option (List Ident))
    (reads_back : (ids : List Ident) → from_json (to_json ids) ≡ some ids) where
  pub ids-to_json : (ids : List Ident) → ids_of from_json (to_json ids) ≡ ids
  ids-to_json ids = ground (arith, reads_back ids)

  pub add_blocks-Links :
      (now : ℕ) (d new : Ident) (rows : Tasks)
      → is_some (task_at d rows) ≡ true
      → Links from_json
          (λ i e. (e == d) && (i == new))
          (λ i e. false)
          rows
          (write_at d (add_blocks to_json from_json now new) rows)
  add_blocks-Links now d new rows h =
      let f : TaskRow → TaskRow = add_blocks to_json from_json now new in
      let keeps : Keeps f = record { keeps_id = λ t. refl; keeps_team = λ t. refl } in
      record {
        waiting = λ i e. elim (Option-cases (task_at i rows)) [
          | inl p ↦ ground (arith, task_at-write_at f keeps d i rows, p)
          | inr (t, p) ↦ ground (arith, task_at-write_at f keeps d i rows, p)
        ];
        blocking = λ i e. elim (Option-cases (task_at e rows)) [
          | inl p ↦ ground (arith, task_at-write_at f keeps d e rows, p, h)
          | inr (t, p) ↦ ground (
            arith,
            task_at-write_at f keeps d e rows,
            p,
            ids-to_json (add_id new (ids_of from_json t.blocks)),
            mem-add_id i new (ids_of from_json t.blocks),
          )
        ];
        there = λ i. ground (arith, task_at-write_at f keeps d i rows);
        parsed = λ i p. elim (Option-cases (task_at i rows)) [
          | inl q ↦ ground (arith, task_at-write_at f keeps d i rows, p, q)
          | inr (t, q) ↦ ground (
            arith,
            task_at-write_at f keeps d i rows,
            p,
            q,
            reads_back (add_id new (ids_of from_json t.blocks)),
          )
        ];
      }

  pub drop_blocked_by-Links :
      (now : ℕ) (d done : Ident) (rows : Tasks)
      → Links from_json
          (λ i e. false)
          (λ i e. (i == d) && (e == done))
          rows
          (write_at d (drop_blocked_by to_json from_json now done) rows)
  drop_blocked_by-Links now d done rows =
      let f : TaskRow → TaskRow = drop_blocked_by to_json from_json now done in
      let keeps : Keeps f = record { keeps_id = λ t. refl; keeps_team = λ t. refl } in
      record {
        waiting = λ i e. elim (Option-cases (task_at i rows)) [
          | inl p ↦ ground (arith, task_at-write_at f keeps d i rows, p)
          | inr (t, p) ↦ ground (
            arith,
            task_at-write_at f keeps d i rows,
            p,
            ids-to_json (without done (ids_of from_json t.blocked_by)),
            mem-without e done (ids_of from_json t.blocked_by),
          )
        ];
        blocking = λ i e. elim (Option-cases (task_at e rows)) [
          | inl p ↦ ground (arith, task_at-write_at f keeps d e rows, p)
          | inr (t, p) ↦ ground (arith, task_at-write_at f keeps d e rows, p)
        ];
        there = λ i. ground (arith, task_at-write_at f keeps d i rows);
        parsed = λ i p. elim (Option-cases (task_at i rows)) [
          | inl q ↦ ground (arith, task_at-write_at f keeps d i rows, p, q)
          | inr (t, q) ↦ ground (arith, task_at-write_at f keeps d i rows, p, q)
        ];
      }

  pub Links-cong :
      (add del add' del' : Ident → Ident → Bool) (a b : Tasks)
      → ((i d : Ident) → add i d ≡ add' i d)
      → ((i d : Ident) → del i d ≡ del' i d)
      → Links from_json add del a b
      → Links from_json add' del' a b
  Links-cong add del add' del' a b f g l = record {
    waiting = λ i d. ground (arith, l.waiting i d, g i d);
    blocking = λ i d. ground (arith, l.blocking i d, f i d);
    there = l.there;
    parsed = l.parsed;
  }

  -- The writes of a list of rows that are there.
  module _ (op : Ident → Tasks → Result Tasks) (w : Ident → Tasks → Tasks)
      (add del : Ident → Ident → Ident → Bool)
      (found : (d : Ident) (rows : Tasks)
        → is_some (task_at d rows) ≡ true
        → op d rows ≡ ok (w d rows))
      (links : (d : Ident) (rows : Tasks)
        → is_some (task_at d rows) ≡ true
        → Links from_json (add d) (del d) rows (w d rows)) where
    pub write_each-Links :
        (ds : List Ident) (rows : Tasks)
        → ((d : Ident) → mem d ds ≡ true → is_some (task_at d rows) ≡ true)
        → ((write_each op ds rows).0 ≡ ok tt)
          × Links from_json
              (λ i e. any (λ d. add d i e) ds)
              (λ i e. any (λ d. del d i e) ds)
              rows
              (write_each op ds rows).1
    unfolding write_each
    write_each-Links [] rows h = (refl, Links-refl from_json rows)
    write_each-Links (d ∷ ds) rows h =
        let here : is_some (task_at d rows) ≡ true = h d (ground arith) in
        let step = links d rows here in
        let (r, rest) =
          write_each-Links ds (w d rows) (λ e m. step.there e ∙ h e (ground (arith, m))) in
        rw (write_each, found d rows here)
          (
            r,
            Links-trans from_json (add d) (del d) (λ i e. any (λ x. add x i e) ds)
                (λ i e. any (λ x. del x i e) ds) rows (w d rows) _ step rest,
          )
