-- ===== src/Scheduler/Naming.antt =====
-- crates/team/src/scheduler/agent_lifecycle.rs: the names of the members.
use Prim.Native.String.{String}
use text.Mathlib.TextEquality.{eq_iff}
use team_lite.Base.{
  ◌==◌, Ident, true, false, Option, none, some, [], ◌∷◌, Map, get, modify, ◌≡◌, arith, Bool-cases,
  Option-cases, inl, inr, get-modify, ==_eq, ap, sym, ◌∙◌,
}
use team_lite.Scheduler.Model.{TeammateManager, AgentSlot}
use team_lite.Scheduler.Names.{normalize_name, is_blank}
use team_lite.Scheduler.Lifecycle.{rename_agent, has_name, put_name}

module _ (to_lowercase : String → String) where
  -- No two members have the same name, but for its case, its control characters and the space around
  -- it.
  abbrev pub Distinct : Map AgentSlot → Type 0
  Distinct slots =
      (i j : Ident) (s t : AgentSlot)
      → get i slots ≡ some s
      → get j slots ≡ some t
      → normalize_name to_lowercase s.agent.name ≡ normalize_name to_lowercase t.agent.name
      → i ≡ j

  abbrev slot_name : Option AgentSlot → String
  slot_name none = ""
  slot_name (some s) = s.agent.name

  no_name :
      (slot_id i : Ident) (normalized : String) (s : AgentSlot) (slots : Map AgentSlot)
      → has_name to_lowercase slot_id normalized slots ≡ false
      → get i slots ≡ some s
      → normalize_name to_lowercase s.agent.name ≡ normalized
      → i ≡ slot_id
  no_name slot_id i normalized s [] h g e = ground arith
  no_name slot_id i normalized s ((k, t) ∷ slots) h g e = elim (Bool-cases (i == k)) [
    | inl p ↦
        let found : some t ≡ some s = ground (arith, g, p) in
        let same : normalize_name to_lowercase t.agent.name ≡ normalized =
          ap (λ o. normalize_name to_lowercase (slot_name o)) found ∙ e in
        ground (arith, h, p, same, eq_iff (normalize_name to_lowercase t.agent.name) normalized)
    | inr p ↦ no_name slot_id i normalized s slots (ground (arith, h)) (ground (arith, g, p)) e
  ]

  kept :
      (slot_id i : Ident) (new_name : String) (s : AgentSlot) (slots : Map AgentSlot)
      → (i == slot_id) ≡ false
      → get i (modify slot_id (put_name to_lowercase new_name) slots) ≡ some s
      → get i slots ≡ some s
  kept slot_id i new_name s slots a p =
      ground (arith, a, p, get-modify slot_id i (put_name to_lowercase new_name) slots)

  given :
      (slot_id i : Ident) (new_name : String) (x s : AgentSlot) (slots : Map AgentSlot)
      → get slot_id slots ≡ some x
      → (i == slot_id) ≡ true
      → get i (modify slot_id (put_name to_lowercase new_name) slots) ≡ some s
      → s.agent.name ≡ new_name
  given slot_id i new_name x s slots g a p =
      let at : i ≡ slot_id = ==_eq i slot_id a in
      let found : get i (modify slot_id (put_name to_lowercase new_name) slots)
          ≡ some (put_name to_lowercase new_name x) =
        ground (arith, a, g, at, get-modify slot_id i (put_name to_lowercase new_name) slots) in
      ap slot_name (sym p ∙ found)

  renamed :
      (slot_id : Ident) (new_name : String) (x : AgentSlot) (slots : Map AgentSlot)
      → get slot_id slots ≡ some x
      → has_name to_lowercase slot_id (normalize_name to_lowercase new_name) slots ≡ false
      → Distinct slots
      → Distinct (modify slot_id (put_name to_lowercase new_name) slots)
  renamed slot_id new_name x slots g h d i j s t p q e = elim (Bool-cases (i == slot_id)) [
    | inl a ↦ elim (Bool-cases (j == slot_id)) [
      | inl b ↦ ground (arith, a, b)
      | inr b ↦ ground (
        arith,
        a,
        no_name slot_id j _ t slots h (kept slot_id j new_name t slots b q)
            (sym e ∙ ap (normalize_name to_lowercase) (given slot_id i new_name x s slots g a p)),
      )
    ]
    | inr a ↦ elim (Bool-cases (j == slot_id)) [
      | inl b ↦ ground (
        arith,
        b,
        no_name slot_id i _ s slots h (kept slot_id i new_name s slots a p)
            (e ∙ ap (normalize_name to_lowercase) (given slot_id j new_name x t slots g b q)),
      )
      | inr b ↦
          d i j s t (kept slot_id i new_name s slots a p) (kept slot_id j new_name t slots b q) e
    ]
  ]

  -- A renaming keeps the names of the members distinct.
  pub rename_agent-Distinct :
      (slot_id : Ident) (new_name : String) (m : TeammateManager)
      → Distinct m.slots
      → Distinct (rename_agent to_lowercase slot_id new_name m).1.slots
  unfolding rename_agent
  rename_agent-Distinct slot_id new_name m d =
      elim (Bool-cases (is_blank (normalize_name to_lowercase new_name))) [
        | inl b ↦ rw (rename_agent, b) d
        | inr b ↦ elim (Option-cases (get slot_id m.slots)) [
          | inl e ↦ rw (rename_agent, b, e) d
          | inr (s, e) ↦
              elim (Bool-cases
                (has_name to_lowercase slot_id (normalize_name to_lowercase new_name) m.slots)) [
                  | inl h ↦ rw (rename_agent, b, e, h) d
                  | inr h ↦ rw (rename_agent, b, e, h) (renamed slot_id new_name s m.slots e h d)
                ]
        ]
      ]
