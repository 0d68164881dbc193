-- ===== src/Decimal/Signs.antt =====
-- Signs and bounds of the decimals that the code computes, from what `IsDecimal` states.
use tco_calculator.Prelude.{ℕ, suc, ◌≡◌, true, false, arith}
use tco_calculator.Decimal.{
  Decimal, IsDecimal, ◌+◌, ◌-◌, ◌<◌, ◌≼◌, nought, one, is_percent, max_decimal,
}

module _ {D : Type 0} ⦃d : Decimal D⦄ (laws : IsDecimal D) where
  pub ≼_refl : (a : D) → a ≼ a
  ≼_refl a = ground (arith, laws.order.flips a a)

  pub ≼_trans : (a b c : D) → a ≼ b → b ≼ c → a ≼ c
  ≼_trans a b c h k = laws.order.trans a b c h k

  -- what a comparison that fails says
  pub le_of_not-lt : (a b : D) → (a < b) ≡ false → b ≼ a
  le_of_not-lt a b h = ground (arith, laws.order.flips a b)

  pub not-lt_of_le : (a b : D) → b ≼ a → (a < b) ≡ false
  not-lt_of_le a b h = ground (arith, laws.order.flips a b)

  pub nonneg-from : (n : ℕ) → nought ≼ d.from n
  nonneg-from n = ground (arith, laws.cmp-from 0 n)

  pub pos-from : (n : ℕ) → (nought < d.from (suc n)) ≡ true
  pos-from n = ground (arith, laws.cmp-from 0 (suc n))

  pub nonneg-plus : (a b : D) → nought ≼ a → nought ≼ b → nought ≼ (a + b)
  nonneg-plus a b h k =
      ≼_trans nought (nought + nought) (a + b) (laws.plus_nought nought).0
        (laws.plus_mono nought a nought b h k)

  pub le-plus : (a b : D) → nought ≼ b → a ≼ (a + b)
  le-plus a b k =
      ≼_trans a (a + nought) (a + b) (laws.plus_nought a).0
        (laws.plus_mono a a nought b (≼_refl a) k)

  pub le-plus_left : (a b : D) → nought ≼ b → a ≼ (b + a)
  le-plus_left a b k =
      ≼_trans a (nought + a) (b + a) (laws.plus_nought a).3
        (laws.plus_mono nought b a a k (≼_refl a))

  pub nonneg-max : (a : D) → nought ≼ max_decimal a nought
  unfolding max_decimal
  nonneg-max a = ground (arith, laws.order.flips nought a, ≼_refl nought)

  pub discount_factor : (a : D) → is_percent a ≡ true → (nought ≼ (one - a)) × ((one - a) ≼ one)
  unfolding is_percent
  discount_factor a h = (laws.minus_nonneg one a (ground arith), laws.minus_le one a (ground arith))
