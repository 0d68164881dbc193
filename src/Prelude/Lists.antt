-- ===== src/Prelude/Lists.antt =====
-- Lists measured by native numbers, the predicate `All`, and the iterator adaptors of Rust.
use Prim.Native.Nat.{ℕ, suc}
use mathlib.Core.Path.{◌≡◌, refl, ap}
use mathlib.Core.Bool.{Bool, true, false, ◌||◌}
use mathlib.Core.Option.{Option, none, some}
use mathlib.Core.List.{List, [], ◌∷◌, map, Memᴰ}
use native.Mathlib.Omega.{arith}
use mathlib.Core.Logic.{inl, inr}
use tco_calculator.Prelude.Tests.{if◌then◌else◌, Bool-cases, Option-cases}

module _ {ℓ} {A : Type ℓ} where
  abbrev pub length : List A → ℕ
  length [] = 0
  length (x ∷ xs) = suc (length xs)

  abbrev pub is_empty : List A → Bool
  is_empty [] = true
  is_empty (x ∷ xs) = false

  abbrev pub first : List A → Option A
  first [] = none
  first (x ∷ xs) = some x

  abbrev pub All {κ} : (A → Type κ) → List A → Type κ
  All P [] = Unit
  All P (x ∷ xs) = P x × All P xs

  unfoldable pub filter : (A → Bool) → List A → List A
  filter p [] = []
  filter p (x ∷ xs) = let rest = filter p xs in if p x then x ∷ rest else rest

  unfoldable pub any : (A → Bool) → List A → Bool
  any p [] = false
  any p (x ∷ xs) = p x || any p xs

  unfoldable pub append : List A → List A → List A
  append [] ys = ys
  append (x ∷ xs) ys = x ∷ append xs ys

  unfoldable pub concat : List (List A) → List A
  unfolding append
  concat [] = []
  concat (xs ∷ xss) = append xs (concat xss)

  pub append-empty : (xs ys : List A) → append xs ys ≡ [] → (xs ≡ []) × (ys ≡ [])
  unfolding append
  append-empty [] ys h = (refl, h)
  append-empty (x ∷ xs) ys h = absurd cc

  pub All-Memᴰ {κ} : (P : A → Type κ) {x : A} {xs : List A} → All P xs → Memᴰ x xs → P x
  All-Memᴰ P a (Memᴰ.head e) = rw e a.0
  All-Memᴰ P a (Memᴰ.tail m) = All-Memᴰ P a.1 m

  pub All-of_Memᴰ {κ} : (P : A → Type κ) (xs : List A) → ((x : A) → Memᴰ x xs → P x) → All P xs
  All-of_Memᴰ P [] h = tt
  All-of_Memᴰ P (x ∷ xs) h = (h x (Memᴰ.head refl), All-of_Memᴰ P xs (λ y m. h y (Memᴰ.tail m)))

  pub Memᴰ-of_first : (xs : List A) (x : A) → first xs ≡ some x → Memᴰ x xs
  Memᴰ-of_first [] x h = cc
  Memᴰ-of_first (y ∷ ys) x h = Memᴰ.head (ground arith)

  pub Memᴰ-map {κ} :
      {B : Type κ} (f : A → B) {x : A} (xs : List A) → Memᴰ x xs → Memᴰ (f x) (map f xs)
  Memᴰ-map f [] m = elim m [ ]
  Memᴰ-map f (y ∷ ys) (Memᴰ.head e) = Memᴰ.head (ap f e)
  Memᴰ-map f (y ∷ ys) (Memᴰ.tail m) = Memᴰ.tail (Memᴰ-map f ys m)

  pub Memᴰ-of_map {κ} :
      {B : Type κ} (f : A → B) {y : B} (xs : List A)
      → Memᴰ y (map f xs)
      → (x : A) × Memᴰ x xs × (y ≡ f x)
  Memᴰ-of_map f [] m = elim m [ ]
  Memᴰ-of_map f (x ∷ xs) (Memᴰ.head e) = (x, Memᴰ.head refl, e)
  Memᴰ-of_map f (x ∷ xs) (Memᴰ.tail m) = let r = Memᴰ-of_map f xs m in (r.0, Memᴰ.tail r.1, r.2)

  -- `filter` keeps just the members that pass.
  pub Memᴰ-filter :
      (p : A → Bool) {x : A} (xs : List A) → Memᴰ x xs → p x ≡ true → Memᴰ x (filter p xs)
  unfolding filter
  Memᴰ-filter p [] m h = elim m [ ]
  Memᴰ-filter p (y ∷ ys) (Memᴰ.head e) h = let h' = rw e at h in rw h' (Memᴰ.head e)
  Memᴰ-filter p (y ∷ ys) (Memᴰ.tail m) h = elim (Bool-cases (p y)) [
    | inl e ↦ rw e (Memᴰ.tail (Memᴰ-filter p ys m h))
    | inr e ↦ rw e (Memᴰ-filter p ys m h)
  ]

  filter_head :
      (p : A → Bool) {x y : A} (xs rest : List A)
      → p y ≡ true
      → (Memᴰ x rest → Memᴰ x xs × (p x ≡ true))
      → Memᴰ x (y ∷ rest)
      → Memᴰ x (y ∷ xs) × (p x ≡ true)
  filter_head p xs rest h ih (Memᴰ.head e) = (Memᴰ.head e, rw e h)
  filter_head p xs rest h ih (Memᴰ.tail m) = let r = ih m in (Memᴰ.tail r.0, r.1)

  pub Memᴰ-of_filter :
      (p : A → Bool) {x : A} (xs : List A) → Memᴰ x (filter p xs) → Memᴰ x xs × (p x ≡ true)
  unfolding filter
  Memᴰ-of_filter p [] m = elim m [ ]
  Memᴰ-of_filter p (y ∷ ys) m = elim (Bool-cases (p y)) [
    | inl e ↦ filter_head p ys (filter p ys) e (Memᴰ-of_filter p ys) (rw e at m)
    | inr e ↦ let r = Memᴰ-of_filter p ys (rw e at m) in (Memᴰ.tail r.0, r.1)
  ]

-- the parts of a list that is empty
pub concat-empty {ℓ} :
    {A : Type ℓ} (xss : List (List A)) → concat xss ≡ [] → All (λ (xs : List A). xs ≡ []) xss
unfolding concat
concat-empty [] h = tt
concat-empty (xs ∷ xss) h = let (e, r) = append-empty xs (concat xss) h in (e, concat-empty xss r)

abbrev pub keep_some {ℓ} : {B : Type ℓ} → Option B → List B → List B
keep_some none rest = rest
keep_some (some y) rest = y ∷ rest

module _ {ℓ κ} {A : Type ℓ} {B : Type κ} where
  unfoldable pub filter_map : (A → Option B) → List A → List B
  filter_map f [] = []
  filter_map f (x ∷ xs) = keep_some (f x) (filter_map f xs)

  -- `filter_map` keeps just the values of the members that have one.
  pub Memᴰ-filter_map :
      (f : A → Option B) {x : A} {y : B} (xs : List A)
      → Memᴰ x xs
      → f x ≡ some y
      → Memᴰ y (filter_map f xs)
  unfolding filter_map
  Memᴰ-filter_map f [] m h = elim m [ ]
  Memᴰ-filter_map f (z ∷ zs) (Memᴰ.head e) h = let h' = rw e at h in rw h' (Memᴰ.head refl)
  Memᴰ-filter_map f (z ∷ zs) (Memᴰ.tail m) h = elim (Option-cases (f z)) [
    | inl e ↦ rw e (Memᴰ-filter_map f zs m h)
    | inr (w, e) ↦ rw e (Memᴰ.tail (Memᴰ-filter_map f zs m h))
  ]

  abbrev pub Source : (A → Option B) → B → List A → Type (ℓ ⊔ κ)
  Source f y xs = (x : A) × Memᴰ x xs × (f x ≡ some y)

  filter_map_head :
      (f : A → Option B) {z : A} {w y : B} (zs : List A) (rest : List B)
      → f z ≡ some w
      → (Memᴰ y rest → Source f y zs)
      → Memᴰ y (w ∷ rest)
      → Source f y (z ∷ zs)
  filter_map_head f {z} zs rest h ih (Memᴰ.head e) = (z, Memᴰ.head refl, rw e h)
  filter_map_head f zs rest h ih (Memᴰ.tail m) = let r = ih m in (r.0, Memᴰ.tail r.1, r.2)

  pub Memᴰ-of_filter_map :
      (f : A → Option B) {y : B} (xs : List A) → Memᴰ y (filter_map f xs) → Source f y xs
  unfolding filter_map
  Memᴰ-of_filter_map f [] m = elim m [ ]
  Memᴰ-of_filter_map f (z ∷ zs) m = elim (Option-cases (f z)) [
    | inl e ↦ let r = Memᴰ-of_filter_map f zs (rw e at m) in (r.0, Memᴰ.tail r.1, r.2)
    | inr (w, e) ↦ filter_map_head f zs (filter_map f zs) e (Memᴰ-of_filter_map f zs) (rw e at m)
  ]
