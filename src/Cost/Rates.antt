-- ===== src/Cost/Rates.antt =====
-- The helpers of rust/src/calculation/cost.rs that check a rate, discount an amount, price IOPS by
-- tiers and add up a source.
use tco_calculator.Prelude.{
  ℕ, ◌-◌, min, Option, none, some, List, [], ◌∷◌, ltb, map_or, if◌then◌else◌, ◌==◌ as nat_eq,
  Result, ok, err, ◌>>=◌, ◌>>◌, ok_or,
}
use tco_calculator.Decimal.{Decimal, ◌+◌, ◌-◌ as minus, ◌*◌, ◌<◌, nought, one}
use tco_calculator.Domain.Resource.{
  LicenseBasis, license_included, byol, SqlEdition, standard, enterprise,
}
use tco_calculator.Cost.Types.{
  SourceCostBreakdown, IopsPriceTier, CostError, missing_source_license_rate, invalid_iops_tiers,
  negative_rate,
}

-- the `match` that gives a tier its units
unfoldable pub tier_units : Option ℕ → ℕ → ℕ → Result CostError ℕ
tier_units none previous_limit remaining = ok remaining
tier_units (some limit) previous_limit remaining =
    if ltb previous_limit limit
    then ok (min remaining (limit - previous_limit))
    else err invalid_iops_tiers

module _ {D : Type 0} ⦃d : Decimal D⦄ where
  unfoldable pub validate_rate : D → Result CostError (Unit {0})
  validate_rate value = if value < nought then err negative_rate else ok tt

  unfoldable pub apply_discount : D → D → D
  apply_discount gross discount = gross * minus one discount

  -- the `for` of `tiered_iops_cost`
  unfoldable pub price_tiers : List (IopsPriceTier D) → ℕ → ℕ → D → Result CostError D
  unfolding validate_rate tier_units
  price_tiers [] previous_limit remaining total = err invalid_iops_tiers
  price_tiers (tier ∷ tiers) previous_limit remaining total = do
    validate_rate tier.monthly_per_iops
    units ← tier_units tier.up_to_inclusive previous_limit remaining
    let total' = total + d.from units * tier.monthly_per_iops
    let remaining' = remaining - units
    if nat_eq remaining' 0
        then ok total'
        else map_or tier.up_to_inclusive (err invalid_iops_tiers)
            (λ limit. price_tiers tiers limit remaining' total')

  unfoldable pub tiered_iops_cost : ℕ → List (IopsPriceTier D) → Result CostError D
  unfolding price_tiers
  tiered_iops_cost iops tiers = if nat_eq iops 0 then ok nought else price_tiers tiers 0 iops nought

  unfoldable pub source_license_hourly :
      LicenseBasis → SqlEdition → Option D → Option D → Result CostError D
  unfolding validate_rate
  source_license_hourly byol edition standard_rate enterprise_rate = ok nought
  source_license_hourly license_included edition standard_rate enterprise_rate = do
    rate ←
        ok_or (elim edition [ standard ↦ standard_rate | enterprise ↦ enterprise_rate ])
          missing_source_license_rate
    validate_rate rate
    ok rate

  unfoldable pub source_costs : D → D → D → D → D → D → D → D → SourceCostBreakdown D
  source_costs compute_gross compute_net license_gross license_net storage_gross storage_net
        hardware_annual electricity_annual =
      record {
        compute_gross = compute_gross;
        compute_net = compute_net;
        license_gross = license_gross;
        license_net = license_net;
        storage_gross = storage_gross;
        storage_net = storage_net;
        hardware_annual = hardware_annual;
        electricity_annual = electricity_annual;
        total = compute_net + license_net + storage_net + electricity_annual;
      }
