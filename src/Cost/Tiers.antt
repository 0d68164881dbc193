-- ===== src/Cost/Tiers.antt =====
-- `tiered_iops_cost` of rust/src/calculation/cost.rs: which schedules it prices.
use tco_calculator.Prelude.{
  Ensures-eq-ok, ℕ, ◌-◌, ◌<◌, ◌==◌, min, ltb, ◌≡◌, refl, true, some, none, List, [], ◌∷◌, ok,
  Bool-cases, inl, inr, arith,
}
use tco_calculator.Decimal.{Decimal, IsDecimal, ◌≼◌, ◌+◌, ◌*◌, nought}
use tco_calculator.Decimal.Signs.{not-lt_of_le, ≼_refl}
use tco_calculator.Cost.Types.{IopsPriceTier}
use tco_calculator.Cost.Signs.{IsNonneg, price_tiers-IsNonneg}
use tco_calculator.Cost.Rates.{validate_rate, tier_units, price_tiers, tiered_iops_cost}

module _ {D : Type 0} ⦃d : Decimal D⦄ where
  -- A schedule above `previous`: rates that are not negative, limits that rise, and at last a tier
  -- without a limit.
  pub data IsSchedule : ℕ → List (IopsPriceTier D) → Type 0 where
    open_tier :
        (previous : ℕ) (tier : IopsPriceTier D) (tiers : List (IopsPriceTier D))
        → nought ≼ tier.monthly_per_iops
        → tier.up_to_inclusive ≡ none
        → IsSchedule previous (tier ∷ tiers)
    limited_tier :
        (previous limit : ℕ) (tier : IopsPriceTier D) (tiers : List (IopsPriceTier D))
        → nought ≼ tier.monthly_per_iops
        → tier.up_to_inclusive ≡ some limit
        → previous < limit
        → IsSchedule limit tiers
        → IsSchedule previous (tier ∷ tiers)

module _ {D : Type 0} ⦃d : Decimal D⦄ (laws : IsDecimal D) where
  valid_rate : (rate : D) → nought ≼ rate → validate_rate rate ≡ ok tt
  unfolding validate_rate
  valid_rate rate h = rw (not-lt_of_le laws rate nought h) refl

  price_tiers_total :
      (tiers : List (IopsPriceTier D)) (previous remaining : ℕ) (total : D)
      → IsSchedule previous tiers
      → (cost : D) × (price_tiers tiers previous remaining total ≡ ok cost)
  unfolding price_tiers tier_units
  price_tiers_total [] previous remaining total s = elim s [ ]
  price_tiers_total (_ ∷ _) previous remaining total (open_tier _ tier tiers rate e) =
      let empty : ((remaining - remaining) == 0) ≡ true = ground arith in
      rw (valid_rate tier.monthly_per_iops rate, e, empty) (_, refl)
  price_tiers_total (_ ∷ _) previous remaining total
        (limited_tier _ limit tier tiers rate e p rest) =
      let rises : ltb previous limit ≡ true = ground arith in
      let units = min remaining (limit - previous) in
      let total' = total + d.from units * tier.monthly_per_iops in
      elim (Bool-cases ((remaining - units) == 0)) [
        | inl z ↦ rw (valid_rate tier.monthly_per_iops rate, e, rises, z) (_, refl)
        | inr z ↦
            rw (valid_rate tier.monthly_per_iops rate, e, rises, z)
              (price_tiers_total tiers limit (remaining - units) total' rest)
      ]

  -- For a schedule whose rates are not negative, whose limits rise from above zero and which ends in
  -- a tier without a limit, `tiered_iops_cost` prices every number of IOPS, and no price is negative.
  pub tiered_iops_cost_total :
      (iops : ℕ) (tiers : List (IopsPriceTier D))
      → IsSchedule 0 tiers
      → (cost : D) × (tiered_iops_cost iops tiers ≡ ok cost) × (nought ≼ cost)
  unfolding tiered_iops_cost
  tiered_iops_cost_total iops tiers s = elim (Bool-cases (iops == 0)) [
    | inl z ↦ (nought, rw z refl, ≼_refl laws nought)
    | inr z ↦
        let (cost, e) = price_tiers_total tiers 0 iops nought s in
        (
          cost,
          rw z e,
          Ensures-eq-ok {P = IsNonneg}
              (price_tiers-IsNonneg laws tiers 0 iops nought (≼_refl laws nought)) e,
        )
  ]
