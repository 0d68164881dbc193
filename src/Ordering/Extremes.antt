-- ===== src/Ordering/Extremes.antt =====
-- `Iterator::min` and `Iterator::max`: of several least items the first, of several greatest the last.
pub mod Laws
use Prim.Native.Nat.{Ordering}
use tco_calculator.Prelude.{Option, none, some, List, [], ◌∷◌, if◌then◌else◌}
use tco_calculator.Ordering.Orders.{is_le}

module _ {ℓ} {A : Type ℓ} where
  abbrev lesser : (A → A → Ordering) → A → A → A
  lesser cmp a b = if is_le (cmp a b) then a else b

  abbrev greater : (A → A → Ordering) → A → A → A
  greater cmp a b = if is_le (cmp a b) then b else a

  least_from : (A → A → Ordering) → A → List A → A
  least_from cmp best [] = best
  least_from cmp best (x ∷ xs) = least_from cmp (lesser cmp best x) xs

  greatest_from : (A → A → Ordering) → A → List A → A
  greatest_from cmp best [] = best
  greatest_from cmp best (x ∷ xs) = greatest_from cmp (greater cmp best x) xs

  unfoldable pub least : (A → A → Ordering) → List A → Option A
  unfolding least_from
  least cmp [] = none
  least cmp (x ∷ xs) = some (least_from cmp x xs)

  unfoldable pub greatest : (A → A → Ordering) → List A → Option A
  unfolding greatest_from
  greatest cmp [] = none
  greatest cmp (x ∷ xs) = some (greatest_from cmp x xs)
