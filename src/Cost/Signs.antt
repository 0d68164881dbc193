-- ===== src/Cost/Signs.antt =====
-- The signs of the prices of volumes and of discounted amounts in rust/src/calculation/cost.rs.
use tco_calculator.Prelude.{
  ℕ, ok_or, ◌==◌, ◌-◌, ◌≡◌, true, Option, none, some, List, [], ◌∷◌, Result, ok, ◌>>◌, arith,
  Ensures, done, failed, Ensures-bind, Ensures-then, Ensures-if, Ensures-map_or,
}
use tco_calculator.Decimal.{Decimal, IsDecimal, ◌+◌, ◌*◌, ◌==◌ as is_equal, ◌≼◌, nought, is_percent}
use tco_calculator.Decimal.Signs.{
  ≼_refl, le_of_not-lt, nonneg-from, nonneg-plus, nonneg-max, discount_factor,
}
use tco_calculator.Domain.Resource.{EbsVolumeType, io2, ephemeral, volume_type_eq}
use tco_calculator.Cost.Types.{IopsPriceTier, EbsRate, CostError, missing_provisioned_iops}
use tco_calculator.Cost.Rates.{
  validate_rate, apply_discount, tier_units, price_tiers, tiered_iops_cost,
}
use tco_calculator.Cost.Volumes.{
  iops_cost, extra_throughput, throughput_cost, calculate_volume_monthly,
}

abbrev pub IsNonneg : {D : Type 0} ⦃d : Decimal D⦄ → D → Type 0
IsNonneg a = nought ≼ a

module _ {D : Type 0} ⦃d : Decimal D⦄ (laws : IsDecimal D) where
  pub validate_rate_nonneg : (v : D) → validate_rate v ≡ ok tt → nought ≼ v
  unfolding validate_rate
  validate_rate_nonneg v h = le_of_not-lt laws v nought (ground arith)

  -- A discount between 0 and 1 leaves an amount between 0 and the gross amount.
  pub apply_discount_bounds :
      (gross discount : D)
      → nought ≼ gross
      → is_percent discount ≡ true
      → (nought ≼ apply_discount gross discount) × (apply_discount gross discount ≼ gross)
  unfolding apply_discount
  apply_discount_bounds gross discount h k =
      let (low, high) = discount_factor laws discount k in
      (laws.times_nonneg gross _ h low, laws.times_le gross _ h high)

  -- the running total after a tier of `units` IOPS
  add_tier_nonneg :
      (total rate : D) (units : ℕ)
      → nought ≼ total
      → nought ≼ rate
      → nought ≼ (total + d.from units * rate)
  add_tier_nonneg total rate units h k =
      nonneg-plus laws total _ h (laws.times_nonneg _ rate (nonneg-from laws units) k)

  -- a step that checks a rate
  pub after_rate {κ} :
      {B : Type 0} {P : B → Type κ} (v : D) {k : Result CostError B}
      → (nought ≼ v → Ensures P k)
      → Ensures P (validate_rate v >> k)
  after_rate v h = Ensures-then (validate_rate v) λ t e. h (validate_rate_nonneg v (ground arith))

  pub price_tiers-IsNonneg :
      (tiers : List (IopsPriceTier D)) (previous remaining : ℕ) (total : D)
      → nought ≼ total
      → Ensures IsNonneg (price_tiers tiers previous remaining total)
  unfolding price_tiers
  price_tiers-IsNonneg [] previous remaining total h = failed
  price_tiers-IsNonneg (t ∷ ts) previous remaining total h = after_rate t.monthly_per_iops λ rate.
      Ensures-then (tier_units t.up_to_inclusive previous remaining) λ units e.
        let total' = add_tier_nonneg total t.monthly_per_iops units h rate in
        Ensures-if (remaining - units == 0) (λ _. done total')
          (λ _.
            Ensures-map_or t.up_to_inclusive (λ _. failed)
              (λ limit _. price_tiers-IsNonneg ts limit (remaining - units) _ total'))

  zero_cost {κ} : {E : Type κ} → Ensures {E = E} IsNonneg (ok (nought {D = D}))
  zero_cost = done (≼_refl laws nought)

  iops_cost-IsNonneg : (rate : EbsRate D) (n : ℕ) → Ensures IsNonneg (iops_cost rate n)
  unfolding iops_cost tiered_iops_cost
  iops_cost-IsNonneg rate n =
      Ensures-if (volume_type_eq rate.volume_type io2)
        (λ _.
          Ensures-if (n == 0) (λ _. zero_cost)
            (λ _. price_tiers-IsNonneg rate.iops_tiers 0 n nought (≼_refl laws nought)))
        (λ _.
          Ensures-map_or rate.iops_monthly_per_unit
            (λ _. Ensures-if (n == 0) (λ _. zero_cost) (λ _. failed))
            (λ unit _. after_rate unit λ h. done (laws.times_nonneg _ unit (nonneg-from laws n) h)))

  extra_throughput_nonneg : (rate : EbsRate D) (t : Option D) → nought ≼ extra_throughput rate t
  unfolding extra_throughput
  extra_throughput_nonneg rate none = ≼_refl laws nought
  extra_throughput_nonneg rate (some t) = nonneg-max laws _

  throughput_cost-IsNonneg :
      (rate : EbsRate D) (t : D) → nought ≼ t → Ensures IsNonneg (throughput_cost rate t)
  unfolding throughput_cost
  throughput_cost-IsNonneg rate t h =
      Ensures-map_or rate.throughput_monthly_per_mibps
        (λ _.
          Ensures-if (volume_type_eq rate.volume_type io2) (λ _. zero_cost)
            (λ _. Ensures-if (is_equal t nought) (λ _. zero_cost) (λ _. failed)))
        (λ unit _. after_rate unit λ k. done (laws.times_nonneg t unit h k))

  -- A volume of a size that is not negative has a monthly cost that is not negative.
  pub calculate_volume_monthly-IsNonneg :
      (volume_type : EbsVolumeType) (capacity : D) (iops : Option ℕ) (throughput : Option D)
      (rate : EbsRate D)
      → nought ≼ capacity
      → Ensures IsNonneg (calculate_volume_monthly volume_type capacity iops throughput rate)
  unfolding calculate_volume_monthly
  calculate_volume_monthly-IsNonneg volume_type capacity iops throughput rate h =
      Ensures-if (volume_type_eq volume_type ephemeral) (λ _. zero_cost)
        (λ _. after_rate rate.capacity_monthly_per_gb λ unit.
          Ensures-then (ok_or iops missing_provisioned_iops) λ provisioned _.
            Ensures-bind (iops_cost-IsNonneg rate (provisioned - rate.included_iops)) λ a ha.
              Ensures-bind
                (throughput_cost-IsNonneg rate _ (extra_throughput_nonneg rate throughput))
                λ b hb. done (
                  nonneg-plus laws _ b
                    (nonneg-plus laws _ a (laws.times_nonneg capacity _ h unit) ha) hb))
