-- ===== src/Decimal.antt =====
-- `rust_decimal::Decimal`, which is not part of the repository, and rust/src/domain/decimal.rs.
-- The type and its operations are an interface; `IsDecimal` is what the code relies on. Results are
-- rounded to 28 digits, so no law here is one of exact arithmetic: they are laws of signs, orders and
-- monotone rounding. Equality is numeric, `1.0` and `1.00` are equal and print differently, so it is
-- the answer of `compare` and not a path. A run that overflows panics and has no result.
pub mod Signs
pub mod Thousandths
use Prim.Native.Nat.{Ordering, compare}
use tco_calculator.Prelude.{ℕ, String, ◌≡◌, Bool, true, false, ◌&&◌, if◌then◌else◌}
use tco_calculator.Ordering.{IsOrder, is_le, is_lt}

-- `Decimal::new(mantissa, scale)` is `scaled`; `Decimal::from` of an unsigned integer is `from`.
pub record Decimal (D : Type 0) : Type 0 where
  pub cmp : D → D → Ordering
  pub from : ℕ → D
  pub scaled : ℕ → ℕ → D
  pub plus : D → D → D
  pub minus : D → D → D
  pub times : D → D → D
  pub over : D → D → D
  pub remainder : D → D → D
  pub ceil : D → D
  pub show : D → String

module _ {D : Type 0} ⦃d : Decimal D⦄ where
  infixl 65 ◌+◌ ◌-◌
  infixl 70 ◌*◌ ◌/◌ ◌%◌
  infix 50 ◌<◌ ◌<=◌ ◌==◌
  abbrev pub ◌+◌ : D → D → D
  a + b = d.plus a b

  abbrev pub ◌-◌ : D → D → D
  a - b = d.minus a b

  abbrev pub ◌*◌ : D → D → D
  a * b = d.times a b

  abbrev pub ◌/◌ : D → D → D
  a / b = d.over a b

  abbrev pub ◌%◌ : D → D → D
  a % b = d.remainder a b

  abbrev pub ◌<◌ : D → D → Bool
  a < b = is_lt (d.cmp a b)

  abbrev pub ◌<=◌ : D → D → Bool
  a <= b = is_le (d.cmp a b)

  abbrev pub ◌==◌ : D → D → Bool
  a == b = elim (d.cmp a b) [ Ordering.eq ↦ true | _ ↦ false ]

  -- `Decimal::ZERO` and `Decimal::ONE`
  abbrev pub nought : D
  nought = d.from 0

  abbrev pub one : D
  one = d.from 1

  -- `Ord::max` gives its second argument on a tie.
  unfoldable pub max_decimal : D → D → D
  max_decimal a b = if b < a then a else b

  -- `DecimalValue::is_percent`
  unfoldable pub is_percent : D → Bool
  is_percent a = nought <= a && a <= one

  infix 4 ◌≼◌
  abbrev pub ◌≼◌ : D → D → Type 0
  a ≼ b = (a <= b) ≡ true

-- Of the arithmetic: rounding is monotone and fixes what it can represent, so it keeps signs, never
-- carries a product with a factor in [0, 1] past the other factor, nor a sum below a summand.
pub record IsDecimal (D : Type 0) ⦃d : Decimal D⦄ : Type 0 where
  pub order : IsOrder d.cmp
  pub cmp-from : (m n : ℕ) → d.cmp (d.from m) (d.from n) ≡ compare m n
  pub scaled_nonneg : (m s : ℕ) → nought ≼ d.scaled m s
  pub plus_mono : (a b c e : D) → a ≼ b → c ≼ e → (a + c) ≼ (b + e)
  pub plus_nought :
      (a : D) → (a ≼ (a + nought)) × ((nought + a) ≼ a) × ((a + nought) ≼ a) × (a ≼ (nought + a))
  pub minus_nonneg : (a b : D) → b ≼ a → nought ≼ (a - b)
  pub minus_le : (a b : D) → nought ≼ b → (a - b) ≼ a
  pub times_nonneg : (a b : D) → nought ≼ a → nought ≼ b → nought ≼ (a * b)
  pub times_le : (a b : D) → nought ≼ a → b ≼ one → (a * b) ≼ a
  pub over_nonneg : (a b : D) → nought ≼ a → (nought < b) ≡ true → nought ≼ (a / b)
  pub remainder_le : (a b : D) → nought ≼ a → (nought < b) ≡ true → (a % b) ≼ b
