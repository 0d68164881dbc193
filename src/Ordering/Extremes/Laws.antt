-- ===== src/Ordering/Extremes/Laws.antt =====
-- What `least` and `greatest` return stands in the list and bounds it.
use Prim.Native.Nat.{Ordering}
use mathlib.Core.List.{Memᴰ}
use mathlib.Core.Option.{some-injective}
use tco_calculator.Prelude.{
  ◌≡◌, refl, true, some, List, [], ◌∷◌, All, All-Memᴰ, arith, Bool-cases, inl, inr,
}
use tco_calculator.Ordering.{IsOrder, is_le}
use tco_calculator.Ordering.Extremes.{lesser, greater, least_from, greatest_from, least, greatest}

module _ {ℓ} {A : Type ℓ} where
  shift : {r a b : A} {xs : List A} → Memᴰ r (a ∷ xs) → Memᴰ r (a ∷ b ∷ xs)
  shift (Memᴰ.head e) = Memᴰ.head e
  shift (Memᴰ.tail m) = Memᴰ.tail (Memᴰ.tail m)

  Memᴰ-least_from :
      (cmp : A → A → Ordering) (b : A) (xs : List A) → Memᴰ (least_from cmp b xs) (b ∷ xs)
  unfolding least_from
  Memᴰ-least_from cmp b [] = Memᴰ.head refl
  Memᴰ-least_from cmp b (x ∷ xs) = elim (Bool-cases (is_le (cmp b x))) [
    | inl e ↦ rw e (shift (Memᴰ-least_from cmp b xs))
    | inr e ↦ rw e (Memᴰ.tail (Memᴰ-least_from cmp x xs))
  ]

  Memᴰ-greatest_from :
      (cmp : A → A → Ordering) (b : A) (xs : List A) → Memᴰ (greatest_from cmp b xs) (b ∷ xs)
  unfolding greatest_from
  Memᴰ-greatest_from cmp b [] = Memᴰ.head refl
  Memᴰ-greatest_from cmp b (x ∷ xs) = elim (Bool-cases (is_le (cmp b x))) [
    | inl e ↦ rw e (Memᴰ.tail (Memᴰ-greatest_from cmp x xs))
    | inr e ↦ rw e (shift (Memᴰ-greatest_from cmp b xs))
  ]

  pub Memᴰ-least :
      (cmp : A → A → Ordering) (xs : List A) {m : A} → least cmp xs ≡ some m → Memᴰ m xs
  unfolding least
  Memᴰ-least cmp [] h = cc
  Memᴰ-least cmp (x ∷ xs) h = rw (← some-injective _ _ h) (Memᴰ-least_from cmp x xs)

  pub Memᴰ-greatest :
      (cmp : A → A → Ordering) (xs : List A) {m : A} → greatest cmp xs ≡ some m → Memᴰ m xs
  unfolding greatest
  Memᴰ-greatest cmp [] h = cc
  Memᴰ-greatest cmp (x ∷ xs) h = rw (← some-injective _ _ h) (Memᴰ-greatest_from cmp x xs)

  -- A list with a member has a least item.
  pub least-IsSome :
      (cmp : A → A → Ordering) (xs : List A) {y : A} → Memᴰ y xs → (m : A) × (least cmp xs ≡ some m)
  unfolding least
  least-IsSome cmp [] m = elim m [ ]
  least-IsSome cmp (x ∷ xs) m = (least_from cmp x xs, refl)

  pub greatest-IsSome :
      (cmp : A → A → Ordering) (xs : List A) {y : A}
      → Memᴰ y xs
      → (m : A) × (greatest cmp xs ≡ some m)
  unfolding greatest
  greatest-IsSome cmp [] m = elim m [ ]
  greatest-IsSome cmp (x ∷ xs) m = (greatest_from cmp x xs, refl)

module _ {ℓ} {A : Type ℓ} {cmp : A → A → Ordering} (order : IsOrder cmp) where
  least_from-le :
      (b : A) (xs : List A)
      → (is_le (cmp (least_from cmp b xs) b) ≡ true)
        × All (λ y. is_le (cmp (least_from cmp b xs) y) ≡ true) xs
  unfolding least_from
  least_from-le b [] = (ground (arith, order.flips b b), tt)
  least_from-le b (x ∷ xs) =
      let (low, rest) = least_from-le (lesser cmp b x) xs in
      let m = least_from cmp (lesser cmp b x) xs in
      (
        ground (arith, order.trans m x b, order.flips b x, low),
        (ground (arith, order.trans m b x, order.flips b x, low), rest),
      )

  greatest_from-le :
      (b : A) (xs : List A)
      → (is_le (cmp b (greatest_from cmp b xs)) ≡ true)
        × All (λ y. is_le (cmp y (greatest_from cmp b xs)) ≡ true) xs
  unfolding greatest_from
  greatest_from-le b [] = (ground (arith, order.flips b b), tt)
  greatest_from-le b (x ∷ xs) =
      let (high, rest) = greatest_from-le (greater cmp b x) xs in
      let m = greatest_from cmp (greater cmp b x) xs in
      (
        ground (arith, order.trans b x m, order.flips b x, high),
        (ground (arith, order.trans x b m, order.flips b x, high), rest),
      )

  pub least-le :
      (xs : List A) {m y : A} → least cmp xs ≡ some m → Memᴰ y xs → is_le (cmp m y) ≡ true
  unfolding least
  least-le [] h i = elim i [ ]
  least-le (x ∷ xs) h i =
      let (low, rest) = least_from-le x xs in
      rw (← some-injective _ _ h)
        (All-Memᴰ (λ y. is_le (cmp (least_from cmp x xs) y) ≡ true) {xs = x ∷ xs} (low, rest) i)

  pub greatest-le :
      (xs : List A) {m y : A} → greatest cmp xs ≡ some m → Memᴰ y xs → is_le (cmp y m) ≡ true
  unfolding greatest
  greatest-le [] h i = elim i [ ]
  greatest-le (x ∷ xs) h i =
      let (high, rest) = greatest_from-le x xs in
      rw (← some-injective _ _ h)
        (All-Memᴰ (λ y. is_le (cmp y (greatest_from cmp x xs)) ≡ true) {xs = x ∷ xs} (high, rest) i)
