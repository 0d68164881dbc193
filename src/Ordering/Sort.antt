-- ===== src/Ordering/Sort.antt =====
-- `slice::sort_by`, a stable sort, as insertion from the right: an item goes before the items of
-- its own rank that followed it.
use Prim.Native.Nat.{Ordering}
use mathlib.Core.List.{Memᴰ, Permᴰ}
use mathlib.Core.List.Permᴰ
use tco_calculator.Prelude.{
  ◌≡◌, refl, true, inl, inr, some, List, [], ◌∷◌, All, All-Memᴰ, arith, if◌then◌else◌, Bool-cases,
  first,
}
use tco_calculator.Ordering.Orders.{is_le, IsOrder}

module _ {ℓ} {A : Type ℓ} where
  unfoldable pub insert_by : (A → A → Ordering) → A → List A → List A
  insert_by cmp x [] = x ∷ []
  insert_by cmp x (y ∷ ys) =
      let rest = insert_by cmp x ys in if is_le (cmp x y) then x ∷ y ∷ ys else y ∷ rest

  unfoldable pub sort_by : (A → A → Ordering) → List A → List A
  unfolding insert_by
  sort_by cmp [] = []
  sort_by cmp (x ∷ xs) = insert_by cmp x (sort_by cmp xs)

  -- Every item is at most the items behind it.
  abbrev pub IsSorted : (A → A → Ordering) → List A → Type ℓ
  IsSorted cmp [] = Unit
  IsSorted cmp (x ∷ xs) = All (λ y. is_le (cmp x y) ≡ true) xs × IsSorted cmp xs

  insert_by-perm :
      (cmp : A → A → Ordering) (x : A) (xs : List A) → Permᴰ (insert_by cmp x xs) (x ∷ xs)
  unfolding insert_by
  insert_by-perm cmp x [] = Permᴰ.refl (x ∷ [])
  insert_by-perm cmp x (y ∷ ys) = elim (Bool-cases (is_le (cmp x y))) [
    | inl e ↦ rw e (Permᴰ.refl (x ∷ y ∷ ys))
    | inr e ↦ rw e (Permᴰ.trans (Permᴰ.cons refl (insert_by-perm cmp x ys)) (Permᴰ.swap refl refl))
  ]

  -- Sorting reorders.
  pub sort_by-perm : (cmp : A → A → Ordering) (xs : List A) → Permᴰ (sort_by cmp xs) xs
  unfolding sort_by
  sort_by-perm cmp [] = Permᴰ.nil
  sort_by-perm cmp (x ∷ xs) =
      Permᴰ.trans (insert_by-perm cmp x (sort_by cmp xs)) (Permᴰ.cons refl (sort_by-perm cmp xs))

  All-insert_by {κ} :
      (P : A → Type κ) (cmp : A → A → Ordering) (x : A) (xs : List A)
      → P x
      → All P xs
      → All P (insert_by cmp x xs)
  unfolding insert_by
  All-insert_by P cmp x [] p ps = (p, tt)
  All-insert_by P cmp x (y ∷ ys) p ps = elim (Bool-cases (is_le (cmp x y))) [
    | inl e ↦ rw e (p, ps)
    | inr e ↦ rw e (ps.0, All-insert_by P cmp x ys p ps.1)
  ]

  pub All-sort_by {κ} :
      (P : A → Type κ) (cmp : A → A → Ordering) (xs : List A) → All P xs → All P (sort_by cmp xs)
  unfolding sort_by
  All-sort_by P cmp [] ps = tt
  All-sort_by P cmp (x ∷ xs) ps =
      All-insert_by P cmp x (sort_by cmp xs) ps.0 (All-sort_by P cmp xs ps.1)

  -- Membership goes through a permutation in both directions.
  pub Memᴰ-perm : {a : A} {xs ys : List A} → Permᴰ xs ys → Memᴰ a xs → Memᴰ a ys
  Memᴰ-perm Permᴰ.nil m = m
  Memᴰ-perm (Permᴰ.cons e p) (Memᴰ.head h) = rw h (Memᴰ.head e)
  Memᴰ-perm (Permᴰ.cons e p) (Memᴰ.tail m) = Memᴰ.tail (Memᴰ-perm p m)
  Memᴰ-perm (Permᴰ.swap e f) (Memᴰ.head h) = rw h (Memᴰ.tail (Memᴰ.head e))
  Memᴰ-perm (Permᴰ.swap e f) (Memᴰ.tail (Memᴰ.head h)) = rw h (Memᴰ.head f)
  Memᴰ-perm (Permᴰ.swap e f) (Memᴰ.tail (Memᴰ.tail m)) = Memᴰ.tail (Memᴰ.tail m)
  Memᴰ-perm (Permᴰ.trans p q) m = Memᴰ-perm q (Memᴰ-perm p m)

  pub Memᴰ-sort_by :
      {a : A} (cmp : A → A → Ordering) (xs : List A) → Memᴰ a xs → Memᴰ a (sort_by cmp xs)
  Memᴰ-sort_by cmp xs m = Memᴰ-perm (Permᴰ.symm (sort_by-perm cmp xs)) m

  pub Memᴰ-of_sort_by :
      {a : A} (cmp : A → A → Ordering) (xs : List A) → Memᴰ a (sort_by cmp xs) → Memᴰ a xs
  Memᴰ-of_sort_by cmp xs m = Memᴰ-perm (sort_by-perm cmp xs) m

module _ {ℓ} {A : Type ℓ} {cmp : A → A → Ordering} (order : IsOrder cmp) where
  All-le_trans :
      (x y : A) (ys : List A)
      → is_le (cmp x y) ≡ true
      → All (λ z. is_le (cmp y z) ≡ true) ys
      → All (λ z. is_le (cmp x z) ≡ true) ys
  All-le_trans x y [] h a = tt
  All-le_trans x y (z ∷ zs) h a = (order.trans x y z h a.0, All-le_trans x y zs h a.1)

  insert_by-IsSorted : (x : A) (xs : List A) → IsSorted cmp xs → IsSorted cmp (insert_by cmp x xs)
  unfolding insert_by
  insert_by-IsSorted x [] s = (tt, tt)
  insert_by-IsSorted x (y ∷ ys) s = elim (Bool-cases (is_le (cmp x y))) [
    | inl e ↦ rw e ((e, All-le_trans x y ys e s.0), s)
    | inr e ↦ rw e (
      All-insert_by (λ z. is_le (cmp y z) ≡ true) cmp x ys (ground (arith, order.flips x y)) s.0,
      insert_by-IsSorted x ys s.1,
    )
  ]

  -- The result is ascending.
  pub sort_by-IsSorted : (xs : List A) → IsSorted cmp (sort_by cmp xs)
  unfolding sort_by
  sort_by-IsSorted [] = tt
  sort_by-IsSorted (x ∷ xs) = insert_by-IsSorted x (sort_by cmp xs) (sort_by-IsSorted xs)

  cmp_refl : (x : A) → is_le (cmp x x) ≡ true
  cmp_refl x = ground (arith, order.flips x x)

  first-least :
      (xs : List A) {b x : A}
      → IsSorted cmp xs
      → first xs ≡ some b
      → Memᴰ x xs
      → is_le (cmp b x) ≡ true
  first-least [] s f m = elim m [ ]
  first-least (y ∷ ys) {b} s f (Memᴰ.head e) = ground (arith, cmp_refl b)
  first-least (y ∷ ys) {b} {x} s f (Memᴰ.tail m) =
      let le = All-Memᴰ (λ z. is_le (cmp y z) ≡ true) s.0 m in ground arith

  -- The first item of a sorted list is at most every item that was sorted.
  pub first-sort_by :
      (xs : List A) {b x : A} → first (sort_by cmp xs) ≡ some b → Memᴰ x xs → is_le (cmp b x) ≡ true
  first-sort_by xs f m =
      first-least (sort_by cmp xs) (sort_by-IsSorted xs) f (Memᴰ-sort_by cmp xs m)
