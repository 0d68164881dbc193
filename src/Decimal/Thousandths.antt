-- ===== src/Decimal/Thousandths.antt =====
-- Signed thousandths, cut off towards zero: a value of the interface at which theorems are applied.
use Prim.Native.Nat.{Ordering, compare}
use Prim.Native.String.{◌++◌}
use native.Mathlib.Nat.{div-le_of_le-mul}
use tco_calculator.Prelude.{
  ℕ, zero, suc, ◌+◌, ◌-◌, ◌*◌, ◌/◌, ◌%◌, ◌^◌, ◌≤◌, ◌≡◌, Bool, true, false, String, leb, arith,
  if◌then◌else◌,
}
use tco_calculator.Prelude.Text.{show_ℕ}
use tco_calculator.Ordering.{IsOrder, is_le, is_lt}
use tco_calculator.Decimal.{Decimal, IsDecimal}

-- `negsuc n` is -(n + 1) thousandths.
pub data Thousandths : Type 0 where
  pos : ℕ → Thousandths
  negsuc : ℕ → Thousandths

abbrev pub neg : ℕ → Thousandths
neg zero = pos 0
neg (suc n) = negsuc n

abbrev pub difference : ℕ → ℕ → Thousandths
difference a b = if leb b a then pos (a - b) else neg (b - a)

abbrev pub cmp : Thousandths → Thousandths → Ordering
cmp (pos a) (pos b) = compare a b
cmp (pos a) (negsuc b) = Ordering.gt
cmp (negsuc a) (pos b) = Ordering.lt
cmp (negsuc a) (negsuc b) = compare b a

abbrev pub plus : Thousandths → Thousandths → Thousandths
plus (pos a) (pos b) = pos (a + b)
plus (pos a) (negsuc b) = difference a (suc b)
plus (negsuc a) (pos b) = difference b (suc a)
plus (negsuc a) (negsuc b) = negsuc (a + b + 1)

abbrev pub opposite : Thousandths → Thousandths
opposite (pos a) = neg a
opposite (negsuc a) = pos (suc a)

abbrev pub signed : Bool → ℕ → Thousandths
signed true n = neg n
signed false n = pos n

abbrev pub times : Thousandths → Thousandths → Thousandths
times (pos a) (pos b) = pos (a * b / 1000)
times (pos a) (negsuc b) = neg (a * suc b / 1000)
times (negsuc a) (pos b) = neg (suc a * b / 1000)
times (negsuc a) (negsuc b) = pos (suc a * suc b / 1000)

abbrev pub over : Thousandths → Thousandths → Thousandths
over (pos a) (pos b) = pos (a * 1000 / b)
over (pos a) (negsuc b) = neg (a * 1000 / suc b)
over (negsuc a) (pos b) = neg (suc a * 1000 / b)
over (negsuc a) (negsuc b) = pos (suc a * 1000 / suc b)

abbrev pub remainder : Thousandths → Thousandths → Thousandths
remainder (pos a) (pos b) = pos (a % b)
remainder (pos a) (negsuc b) = pos (a % suc b)
remainder (negsuc a) (pos b) = neg (suc a % b)
remainder (negsuc a) (negsuc b) = neg (suc a % suc b)

abbrev pub ceil : Thousandths → Thousandths
ceil (pos a) = pos ((a + 999) / 1000 * 1000)
ceil (negsuc a) = neg (suc a / 1000 * 1000)

unfoldable pub show : Thousandths → String
unfolding show_ℕ
show (pos a) = show_ℕ a ++ "/1000"
show (negsuc a) = "-" ++ show_ℕ (suc a) ++ "/1000"

instance abbrev pub thousandths : Decimal Thousandths
thousandths = record {
  cmp = cmp;
  from = λ n. pos (n * 1000);
  scaled = λ m s. pos (m * 1000 / 10 ^ s);
  plus = plus;
  minus = λ a b. plus a (opposite b);
  times = times;
  over = over;
  remainder = remainder;
  ceil = ceil;
  show = show;
}

cmp-IsOrder : IsOrder cmp
cmp-IsOrder = record { flips = λ a b. ground arith; trans = λ a b c h k. ground arith }

cmp-from : (m n : ℕ) → compare (m * 1000) (n * 1000) ≡ compare m n
cmp-from m n = ground arith

plus_mono :
    (a b c e : Thousandths)
    → is_le (cmp a b) ≡ true
    → is_le (cmp c e) ≡ true
    → is_le (cmp (plus a c) (plus b e)) ≡ true
plus_mono (pos a) (pos b) (pos c) (pos e) h k = ground arith
plus_mono a b c e h k = ground arith

product_le : (a b : ℕ) → b ≤ 1000 → a * b / 1000 ≤ a
product_le a b h = div-le_of_le-mul 1000 (grind arith)

times_le :
    (a b : Thousandths)
    → is_le (cmp (pos 0) a) ≡ true
    → is_le (cmp b (pos 1000)) ≡ true
    → is_le (cmp (times a b) a) ≡ true
times_le (pos a) (pos b) h k = ground (arith, product_le a b)
times_le (pos a) (negsuc b) h k = ground arith
times_le (negsuc a) b h k = ground arith

remainder_le :
    (a b : Thousandths)
    → is_le (cmp (pos 0) a) ≡ true
    → is_lt (cmp (pos 0) b) ≡ true
    → is_le (cmp (remainder a b) b) ≡ true
remainder_le (pos a) (pos zero) h k = absurd (ground arith)
remainder_le (pos a) (pos (suc b)) h k = ground arith
remainder_le a b h k = ground arith

pub Thousandths-IsDecimal : IsDecimal Thousandths
Thousandths-IsDecimal = record {
  order = cmp-IsOrder;
  cmp-from = cmp-from;
  scaled_nonneg = λ m s. ground arith;
  plus_mono = plus_mono;
  plus_nought = λ a. ground arith;
  minus_nonneg = λ a b h. ground arith;
  minus_le = λ a b h. ground arith;
  times_nonneg = λ a b h k. ground arith;
  times_le = times_le;
  over_nonneg = λ a b h k. ground arith;
  remainder_le = remainder_le;
}
