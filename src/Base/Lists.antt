-- ===== src/Base/Lists.antt =====
-- Lists of identifiers, and the set that a `BTreeSet` or `HashSet` of identifiers keeps.
use Prim.Native.Nat.{ℕ, suc}
use mathlib.Core.Path.{◌≡◌, refl}
use mathlib.Core.Bool.{Bool, true, false, ◌&&◌, ◌||◌}
use mathlib.Core.Option.{Option, none, some}
use mathlib.Core.List.{List, [], ◌∷◌, ◌++◌}
use native.Mathlib.Omega.{arith}
use team_lite.Base.Logic.{Ident, ltb, ◌==◌, if◌then◌else◌}

module _ {ℓ} {A : Type ℓ} where
  abbrev pub length : List A → ℕ
  length [] = 0
  length (x ∷ xs) = suc (length xs)

  -- `iter().filter(p)`, `iter().any(p)`, `iter().all(p)` and `is_empty`.
  abbrev pub keep : (A → Bool) → List A → List A
  keep p [] = []
  keep p (x ∷ xs) = let rest = keep p xs in if p x then x ∷ rest else rest

  abbrev pub any : (A → Bool) → List A → Bool
  any p [] = false
  any p (x ∷ xs) = p x || any p xs

  abbrev pub every : (A → Bool) → List A → Bool
  every p [] = true
  every p (x ∷ xs) = p x && every p xs

  abbrev pub is_empty : List A → Bool
  is_empty [] = true
  is_empty (x ∷ xs) = false

  abbrev pub first : List A → Option A
  first [] = none
  first (x ∷ xs) = some x

  -- `iter().filter_map(f)`.
  abbrev pub collect {κ} : {B : Type κ} → (A → Option B) → List A → List B
  collect f [] = []
  collect f (x ∷ xs) = let rest = collect f xs in elim (f x) [ none ↦ rest | some b ↦ b ∷ rest ]

-- `contains` on a list of identifiers.
abbrev pub mem : Ident → List Ident → Bool
mem i [] = false
mem i (x ∷ xs) = (i == x) || mem i xs

-- `retain(|candidate| candidate != i)`.
abbrev pub without : Ident → List Ident → List Ident
without i [] = []
without i (x ∷ xs) = let rest = without i xs in if x == i then rest else x ∷ rest

-- Insertion into an ordered set, and the set of a sequence's members.
abbrev pub set_insert : Ident → List Ident → List Ident
set_insert i [] = i ∷ []
set_insert i (x ∷ xs) =
    let rest = set_insert i xs in
    if i == x then x ∷ xs else if ltb i x then i ∷ x ∷ xs else x ∷ rest

abbrev pub to_set : List Ident → List Ident
to_set [] = []
to_set (x ∷ xs) = set_insert x (to_set xs)

pub mem-append : (i : Ident) (xs ys : List Ident) → mem i (xs ++ ys) ≡ (mem i xs || mem i ys)
mem-append i [] ys = refl
mem-append i (x ∷ xs) ys = ground (arith, mem-append i xs ys)

pub mem-without :
    (i k : Ident) (xs : List Ident) → mem i (without k xs) ≡ (if i == k then false else mem i xs)
mem-without i k [] = ground arith
mem-without i k (x ∷ xs) = ground (arith, mem-without i k xs)

pub mem-set_insert :
    (i k : Ident) (xs : List Ident) → mem i (set_insert k xs) ≡ ((i == k) || mem i xs)
mem-set_insert i k [] = refl
mem-set_insert i k (x ∷ xs) = ground (arith, mem-set_insert i k xs)

pub mem-to_set : (i : Ident) (xs : List Ident) → mem i (to_set xs) ≡ mem i xs
mem-to_set i [] = refl
mem-to_set i (x ∷ xs) = ground (arith, mem-set_insert i x (to_set xs), mem-to_set i xs)

pub mem-keep :
    (i : Ident) (p : Ident → Bool) (xs : List Ident) → mem i (keep p xs) ≡ (p i && mem i xs)
mem-keep i p [] = ground arith
mem-keep i p (x ∷ xs) = ground (arith, mem-keep i p xs)

pub every-mem :
    (p : Ident → Bool) (i : Ident) (xs : List Ident)
    → every p xs ≡ true
    → mem i xs ≡ true
    → p i ≡ true
every-mem p i [] h m = cc
every-mem p i (x ∷ xs) h m = ground (arith, every-mem p i xs)

pub every_intro :
    (p : Ident → Bool) (xs : List Ident)
    → ((i : Ident) → mem i xs ≡ true → p i ≡ true)
    → every p xs ≡ true
every_intro p [] h = refl
every_intro p (x ∷ xs) h = ground (arith, h x, every_intro p xs (λ i m. h i (ground (arith, m))))

pub any_intro :
    (p : Ident → Bool) (i : Ident) (xs : List Ident)
    → mem i xs ≡ true
    → p i ≡ true
    → any p xs ≡ true
any_intro p i [] m h = cc
any_intro p i (x ∷ xs) m h = ground (arith, any_intro p i xs)

pub keep-keep {ℓ} :
    {A : Type ℓ} (p q : A → Bool) (xs : List A) → keep p (keep q xs) ≡ keep (λ x. q x && p x) xs
keep-keep p q [] = refl
keep-keep p q (x ∷ xs) = ground (arith, keep-keep p q xs)
