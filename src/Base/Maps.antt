-- ===== src/Base/Maps.antt =====
-- Maps keyed by identifiers: `BTreeMap` and `HashMap`, as association lists in key order. A
-- `HashMap` promises no order; the theorems about its iteration speak of membership only.
use mathlib.Core.Path.{◌≡◌, refl, ap}
use mathlib.Core.Option.{Option, none, some}
use mathlib.Core.Bool.{Bool, false, true}
use mathlib.Core.List.{List, [], ◌∷◌, map}
use native.Mathlib.Omega.{arith}
use Prim.Native.Nat.{ℕ, suc, ◌<◌, ◌≤◌}
use mathlib.Core.Logic.{inl, inr}
use team_lite.Base.Logic.{Bool-cases, Ident, ltb, ◌==◌, if◌then◌else◌, map_option, some_and}
use team_lite.Base.Lists.{any, collect, mem, keep}

abbrev pub Map {ℓ} : Type ℓ → Type ℓ
Map A = List (Ident × A)

module _ {ℓ} {A : Type ℓ} where
  abbrev pub get : Ident → Map A → Option A
  get i [] = none
  get i ((k, v) ∷ m) = let rest = get i m in if i == k then some v else rest

  -- `insert`, which replaces the value of a key that is there.
  unfoldable pub insert : Ident → A → Map A → Map A
  insert i v [] = (i, v) ∷ []
  insert i v ((k, w) ∷ m) =
      let rest = insert i v m in
      if i == k then (i, v) ∷ m else if ltb i k then (i, v) ∷ (k, w) ∷ m else (k, w) ∷ rest

  unfoldable pub remove : Ident → Map A → Map A
  remove i [] = []
  remove i ((k, w) ∷ m) = let rest = remove i m in if i == k then rest else (k, w) ∷ rest

  -- A write through `get_mut`: nothing happens where the key is missing.
  unfoldable pub modify : Ident → (A → A) → Map A → Map A
  modify i f [] = []
  modify i f ((k, w) ∷ m) = (k, if i == k then f w else w) ∷ modify i f m

  -- The loop `for id in ids { if let Some(x) = map.get_mut(id) { … } }`.
  unfoldable pub modify_each : List Ident → (A → A) → Map A → Map A
  unfolding modify
  modify_each [] f m = m
  modify_each (i ∷ is) f m = modify_each is f (modify i f m)

  -- The loop over `values_mut()`.
  unfoldable pub modify_values : (A → A) → Map A → Map A
  modify_values f [] = []
  modify_values f ((k, w) ∷ m) = (k, f w) ∷ modify_values f m

  abbrev pub values : Map A → List A
  values [] = []
  values ((k, w) ∷ m) = w ∷ values m

  abbrev pub keys : Map A → List Ident
  keys [] = []
  keys ((k, w) ∷ m) = k ∷ keys m

  pub get-insert :
      (i j : Ident) (v : A) (m : Map A)
      → get j (insert i v m) ≡ (if j == i then some v else get j m)
  unfolding insert
  get-insert i j v [] = refl
  get-insert i j v ((k, w) ∷ m) = ground (arith, get-insert i j v m)

  pub get-remove :
      (i j : Ident) (m : Map A) → get j (remove i m) ≡ (if j == i then none else get j m)
  unfolding remove
  get-remove i j [] = ground arith
  get-remove i j ((k, w) ∷ m) = ground (arith, get-remove i j m)

  pub get-modify :
      (i j : Ident) (f : A → A) (m : Map A)
      → get j (modify i f m) ≡ (if j == i then map_option f (get j m) else get j m)
  unfolding modify
  get-modify i j f [] = ground arith
  get-modify i j f ((k, w) ∷ m) = ground (arith, get-modify i j f m)

  pub get-modify_values :
      (j : Ident) (f : A → A) (m : Map A) → get j (modify_values f m) ≡ map_option f (get j m)
  unfolding modify_values
  get-modify_values j f [] = refl
  get-modify_values j f ((k, w) ∷ m) = ground (arith, get-modify_values j f m)

  map_twice :
      (f : A → A)
      → ((a : A) → f (f a) ≡ f a)
      → (o : Option A) → map_option f (map_option f o) ≡ map_option f o
  map_twice f h none = refl
  map_twice f h (some a) = ap some (h a)

  -- A write that may be repeated does the same to each key of the list.
  pub get-modify_each :
      (is : List Ident) (j : Ident) (f : A → A) (m : Map A)
      → ((a : A) → f (f a) ≡ f a)
      → get j (modify_each is f m) ≡ (if mem j is then map_option f (get j m) else get j m)
  unfolding modify_each
  get-modify_each [] j f m h = refl
  get-modify_each (i ∷ is) j f m h =
      ground (
        arith,
        get-modify_each is j f (modify i f m) h,
        get-modify i j f m,
        map_twice f h (get j m),
      )

-- The keys rise strictly, from a bound on.
module _ {ℓ} {A : Type ℓ} where
  abbrev pub From : ℕ → Map A → Type 0
  From n [] = Unit {0}
  From n ((k, w) ∷ m) = (n ≤ k) × From (suc k) m

  abbrev pub Sorted : Map A → Type 0
  Sorted m = From 0 m

  pub From-mono : {n k : ℕ} (m : Map A) → n ≤ k → From k m → From n m
  From-mono [] h s = tt
  From-mono ((j, w) ∷ m) h s = (omega arith, s.1)

  insert-From : (n i : ℕ) (v : A) (m : Map A) → n ≤ i → From n m → From n (insert i v m)
  unfolding insert
  insert-From n i v [] h s = (h, tt)
  insert-From n i v ((k, w) ∷ m) h s =
      ground (arith, insert-From (suc k) i v m, From-mono {n = suc i} {k = suc k} m)

  pub insert-Sorted : (i : Ident) (v : A) (m : Map A) → Sorted m → Sorted (insert i v m)
  insert-Sorted i v m s = insert-From 0 i v m (omega arith) s

  modify-From : (n i : ℕ) (f : A → A) (m : Map A) → From n m → From n (modify i f m)
  unfolding modify
  modify-From n i f [] s = tt
  modify-From n i f ((k, w) ∷ m) s = (s.0, modify-From (suc k) i f m s.1)

  pub modify-Sorted : (i : Ident) (f : A → A) (m : Map A) → Sorted m → Sorted (modify i f m)
  modify-Sorted i f m s = modify-From 0 i f m s

  pub modify_each-Sorted :
      (is : List Ident) (f : A → A) (m : Map A) → Sorted m → Sorted (modify_each is f m)
  unfolding modify_each
  modify_each-Sorted [] f m s = s
  modify_each-Sorted (i ∷ is) f m s = modify_each-Sorted is f (modify i f m) (modify-From 0 i f m s)

  modify_values-From : (n : ℕ) (f : A → A) (m : Map A) → From n m → From n (modify_values f m)
  unfolding modify_values
  modify_values-From n f [] s = tt
  modify_values-From n f ((k, w) ∷ m) s = (s.0, modify_values-From (suc k) f m s.1)

  pub modify_values-Sorted : (f : A → A) (m : Map A) → Sorted m → Sorted (modify_values f m)
  modify_values-Sorted f m s = modify_values-From 0 f m s

  pub get-above : (n j : ℕ) (m : Map A) → From n m → j < n → get j m ≡ none
  get-above n j [] s h = refl
  get-above n j ((k, w) ∷ m) s h = ground (arith, get-above (suc k) j m s.1)

  remove-From : (n i : ℕ) (m : Map A) → From n m → From n (remove i m)
  unfolding remove
  remove-From n i [] s = tt
  remove-From n i ((k, w) ∷ m) s =
      let rest = remove-From (suc k) i m s.1 in
      let wide = From-mono {n = n} {k = suc k} (remove i m) (omega arith) rest in
      ground (arith, rest, wide)

  pub remove-Sorted : (i : Ident) (m : Map A) → Sorted m → Sorted (remove i m)
  remove-Sorted i m s = remove-From 0 i m s

  -- A pass over the values finds nothing where no entry meets the test.
  keep_none-From :
      (n : ℕ) (P : A → Bool) (m : Map A)
      → From n m
      → ((j : Ident) (w : A) → get j m ≡ some w → P w ≡ false)
      → keep P (values m) ≡ []
  keep_none-From n P [] s h = refl
  keep_none-From n P ((k, w) ∷ m) s h = ground (
    arith,
    h k w,
    keep_none-From (suc k) P m s.1 (λ j v g. h j v (ground (arith, g, get-above (suc k) k m s.1))),
  )

  pub keep_none :
      (P : A → Bool) (m : Map A)
      → Sorted m
      → ((j : Ident) (w : A) → get j m ≡ some w → P w ≡ false)
      → keep P (values m) ≡ []
  keep_none P m s h = keep_none-From 0 P m s h

  -- A pass over the values of a map whose entries know their keys.
  selected-From :
      (n : ℕ) (i : Ident) (key : A → Ident) (P : A → Bool) (m : Map A)
      → From n m
      → ((j : Ident) (w : A) → get j m ≡ some w → key w ≡ j)
      → mem i (map key (keep P (values m))) ≡ some_and P (get i m)
  selected-From n i key P [] sorted keyed = refl
  selected-From n i key P ((k, w) ∷ m) sorted keyed = ground (
    arith,
    keyed k w,
    get-above (suc k) k m sorted.1,
    selected-From (suc k) i key P m sorted.1
        (λ j v h. keyed j v (ground (arith, h, get-above (suc k) k m sorted.1))),
  )

  pub mem-selected :
      (i : Ident) (key : A → Ident) (P : A → Bool) (m : Map A)
      → Sorted m
      → ((j : Ident) (w : A) → get j m ≡ some w → key w ≡ j)
      → mem i (map key (keep P (values m))) ≡ some_and P (get i m)
  mem-selected i key P m sorted keyed = selected-From 0 i key P m sorted keyed

  collect-none-From :
      (n : ℕ) {B : Type 0} (f : A → Option B) (P : A → Bool) (m : Map A)
      → From n m
      → ((j : Ident) (w : A) → get j m ≡ some w → P w ≡ true → f w ≡ none)
      → collect f (keep P (values m)) ≡ []
  collect-none-From n f P [] s h = refl
  collect-none-From n f P ((k, w) ∷ m) s h =
      let rest =
        collect-none-From (suc k) f P m s.1
          (λ j v g p. h j v (ground (arith, g, get-above (suc k) k m s.1)) p) in
      elim (Bool-cases (P w)) [
        | inr e ↦ rw e rest
        | inl e ↦ rw e (rw (h k w (ground arith) e) rest)
      ]

  pub collect-none :
      {B : Type 0} (f : A → Option B) (P : A → Bool) (m : Map A)
      → Sorted m
      → ((j : Ident) (w : A) → get j m ≡ some w → P w ≡ true → f w ≡ none)
      → collect f (keep P (values m)) ≡ []
  collect-none f P m s h = collect-none-From 0 f P m s h

  -- A test that one of the values meets.
  pub any_value :
      (P : A → Bool) (j : Ident) (v : A) (m : Map A)
      → get j m ≡ some v
      → P v ≡ true
      → any P (values m) ≡ true
  any_value P j v [] g p = ground arith
  any_value P j v ((k, w) ∷ m) g p = elim (Bool-cases (j == k)) [
    | inl e ↦ ground arith
    | inr e ↦ ground (arith, any_value P j v m)
  ]

  value_of_any-From :
      (n : ℕ) (P : A → Bool) (m : Map A)
      → From n m
      → any P (values m) ≡ true
      → (j : Ident) × (v : A) × (n ≤ j) × (get j m ≡ some v) × (P v ≡ true)
  value_of_any-From n P [] s h = ground arith
  value_of_any-From n P ((k, w) ∷ m) s h = elim (Bool-cases (P w)) [
    | inl e ↦ (k, w, s.0, ground arith, e)
    | inr e ↦
        let (j, v, above, g, p) = value_of_any-From (suc k) P m s.1 (ground arith) in
        (j, v, omega arith, ground arith, p)
  ]

  pub value_of_any :
      (P : A → Bool) (m : Map A)
      → Sorted m
      → any P (values m) ≡ true
      → (j : Ident) × (v : A) × (get j m ≡ some v) × (P v ≡ true)
  value_of_any P m s h = let (j, v, above, g, p) = value_of_any-From 0 P m s h in (j, v, g, p)
