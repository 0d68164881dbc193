-- ===== src/Ordering/Orders.antt =====
-- Comparators: the combinators of `std::cmp::Ordering`, and that they give total preorders.
use Prim.Native.Nat.{Ordering, compare}
use Prim.Native.String.{String, [], ◌∷◌, compare as compare_text}
use Prim.Native.String.compare as clauses
use tco_calculator.Prelude.{◌≡◌, refl, Bool, true, false, arith}

-- `Ordering::reverse`
abbrev pub reverse : Ordering → Ordering
reverse Ordering.lt = Ordering.gt
reverse Ordering.eq = Ordering.eq
reverse Ordering.gt = Ordering.lt

-- `Ordering::then` and `Ordering::then_with`
abbrev pub then_with : Ordering → Ordering → Ordering
then_with Ordering.lt o = Ordering.lt
then_with Ordering.eq o = o
then_with Ordering.gt o = Ordering.gt

abbrev pub is_le : Ordering → Bool
is_le Ordering.lt = true
is_le Ordering.eq = true
is_le Ordering.gt = false

abbrev pub is_lt : Ordering → Bool
is_lt Ordering.lt = true
is_lt Ordering.eq = false
is_lt Ordering.gt = false

-- A comparator that `sort_by` accepts: a total preorder.
pub record IsOrder {ℓ} {A : Type ℓ} (cmp : A → A → Ordering) : Type ℓ where
  pub flips : (a b : A) → cmp b a ≡ reverse (cmp a b)
  pub trans : (a b c : A) → is_le (cmp a b) ≡ true → is_le (cmp b c) ≡ true → is_le (cmp a c) ≡ true

module _ {ℓ} {A : Type ℓ} where
  -- The first comparator decides, and the second one its ties.
  pub then_with-IsOrder :
      (f g : A → A → Ordering) → IsOrder f → IsOrder g → IsOrder (λ a b. then_with (f a b) (g a b))
  then_with-IsOrder f g p q = record {
    flips = λ a b. ground (arith, p.flips a b, q.flips a b);
    trans = λ a b c h k. ground (
      arith,
      p.flips a b,
      p.flips b c,
      p.flips a c,
      p.trans a b c,
      p.trans c a b,
      p.trans b c a,
      q.trans a b c,
    );
  }

  pub swap-IsOrder : (f : A → A → Ordering) → IsOrder f → IsOrder (λ a b. f b a)
  swap-IsOrder f p = record { flips = λ a b. p.flips b a; trans = λ a b c h k. p.trans c b a k h }

  pub equal-IsOrder : IsOrder {A = A} (λ a b. Ordering.eq)
  equal-IsOrder = record { flips = λ a b. refl; trans = λ a b c h k. refl }

  pub pull-IsOrder {κ} :
      {B : Type κ} (f : B → B → Ordering) (key : A → B)
      → IsOrder f
      → IsOrder (λ a b. f (key a) (key b))
  pull-IsOrder f key p = record {
    flips = λ a b. p.flips (key a) (key b);
    trans = λ a b c. p.trans (key a) (key b) (key c);
  }

pub compare-IsOrder : IsOrder compare
compare-IsOrder = record { flips = λ a b. ground arith; trans = λ a b c h k. ground arith }

compare_text_flips : (a b : String) → compare_text b a ≡ reverse (compare_text a b)
compare_text_flips [] [] = ground (arith, clauses.nil-nil)
compare_text_flips [] (d ∷ t) = ground (arith, clauses.nil-cons d t, clauses.cons-nil d t)
compare_text_flips (c ∷ s) [] = ground (arith, clauses.nil-cons c s, clauses.cons-nil c s)
compare_text_flips (c ∷ s) (d ∷ t) =
    rw (clauses.cons-cons c d s t, clauses.cons-cons d c t s)
      (ground (arith, compare_text_flips s t))

compare_text_trans :
    (a b c : String)
    → is_le (compare_text a b) ≡ true
    → is_le (compare_text b c) ≡ true
    → is_le (compare_text a c) ≡ true
compare_text_trans [] [] [] h k = ground (arith, clauses.nil-nil)
compare_text_trans [] [] (d ∷ t) h k = ground (arith, clauses.nil-cons d t)
compare_text_trans [] (e ∷ r) (d ∷ t) h k = ground (arith, clauses.nil-cons d t)
compare_text_trans [] (d ∷ t) [] h k = ground (arith, clauses.nil-nil)
compare_text_trans (c ∷ s) [] r h k = ground (arith, clauses.cons-nil c s)
compare_text_trans (c ∷ s) (d ∷ t) [] h k = ground (arith, clauses.cons-nil d t)
compare_text_trans (c ∷ s) (d ∷ t) (e ∷ r) h k = rw (clauses.cons-cons c e s r) (
    ground (
      arith,
      clauses.cons-cons c d s t,
      clauses.cons-cons d e t r,
      compare_text_flips s t,
      compare_text_flips t r,
      compare_text_flips s r,
      compare_text_trans s t r,
    ))

-- `str::cmp` compares bytes, which for UTF-8 is to compare code points.
pub compare_text-IsOrder : IsOrder compare_text
compare_text-IsOrder = record { flips = compare_text_flips; trans = compare_text_trans }
