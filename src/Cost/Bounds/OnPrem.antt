-- ===== src/Cost/Bounds/OnPrem.antt =====
-- The breakdown of an on-premises source in rust/src/calculation/cost.rs.
use Prim.Native.Nat.{◌*◌ as times_ℕ, ◌+◌ as plus_ℕ}
use tco_calculator.Prelude.{
  ℕ, ◌≤◌, refl, suc, ◌≡◌, true, Option, none, some, ok, ok_or, Ensures-then, done, Ensures-eq-ok,
  arith, map_or, max,
}
use tco_calculator.Decimal.{Decimal, IsDecimal, ◌+◌, ◌<◌, ◌≼◌, nought}
use tco_calculator.Decimal.Signs.{≼_refl, nonneg-from, nonneg-plus, pos-from}
use tco_calculator.Domain.Resource.{OnPremResource, standard, enterprise}
use tco_calculator.Domain.Project.{ProjectSettings}
use tco_calculator.Cost.Types.{
  OnPremCostResult, missing_on_prem_license_settings, missing_electricity_rate,
}
use tco_calculator.Cost.Source.{estimated_power_kw, calculate_on_prem_source, license_packs}
use tco_calculator.Cost.Signs.{after_rate, apply_discount_bounds}
use tco_calculator.Cost.Bounds.{HasDiscounts, IsConsistent, within-IsConsistent, product3}

module _ {D : Type 0} ⦃d : Decimal D⦄ (laws : IsDecimal D) where
  sum_nonneg :
      (a b c e : D) → nought ≼ a → nought ≼ b → nought ≼ c → nought ≼ e → nought ≼ (a + b + c + e)
  sum_nonneg a b c e h k l m =
      nonneg-plus laws _ e (nonneg-plus laws _ c (nonneg-plus laws a b h k) l) m

  estimated_power_kw_nonneg :
      (resource : OnPremResource D)
      → nought ≼ resource.shared.source_ram_gb_per_instance
      → nought ≼ resource.sql.sql_data_gb_per_instance
      → nought ≼ estimated_power_kw resource
  unfolding estimated_power_kw
  estimated_power_kw_nonneg resource ram size =
      sum_nonneg _ _ _ _ (laws.scaled_nonneg 100 3)
        (laws.times_nonneg _ _ (laws.scaled_nonneg 125 4) (nonneg-from laws resource.source_vcpu))
        (laws.times_nonneg _ _ (laws.scaled_nonneg 375 6) ram)
        (laws.over_nonneg _ _ (laws.times_nonneg _ _ (laws.scaled_nonneg 10 3) size)
          (pos-from laws 1023))

  -- What `EditableProject::validate` of rust/src/domain/project.rs asks of an on-premises resource.
  pub record IsOnPremInput (resource : OnPremResource D) : Type 0 where
    pub hours : nought ≼ resource.shared.annual_hours_per_instance
    pub ram : nought ≼ resource.shared.source_ram_gb_per_instance
    pub size : nought ≼ resource.sql.sql_data_gb_per_instance
    pub capex : nought ≼ resource.hardware_capex_usd
    pub years : (nought < resource.depreciation_years) ≡ true
    pub power : (watts : D) → resource.average_power_kw_override ≡ some watts → nought ≼ watts

  effective_power_nonneg :
      (power : Option D) (estimate : D)
      → nought ≼ estimate
      → ((watts : D) → power ≡ some watts → nought ≼ watts)
      → nought ≼ map_or power estimate (λ power. power)
  effective_power_nonneg none estimate h k = h
  effective_power_nonneg (some watts) estimate h k = k watts refl

  packs_cover :
      (cores : ℕ)
      → (max cores 4 ≤ times_ℕ 2 (license_packs cores))
        × (times_ℕ 2 (license_packs cores) ≤ plus_ℕ (max cores 4) 1)
  packs_cover cores = (omega arith, omega arith)

  -- For a validated resource, at least one month of coverage and discounts between 0 and 1, the
  -- breakdown of an on-premises source is consistent, and the packs of two cores cover the licensed
  -- cores, of which at least four are billed, with at most one core to spare.
  pub calculate_on_prem_source-IsConsistent :
      (resource : OnPremResource D) (settings : ProjectSettings D) (months : ℕ)
      (result : OnPremCostResult D)
      → IsOnPremInput resource
      → settings.remaining_coverage_months ≡ some (suc months)
      → HasDiscounts settings
      → calculate_on_prem_source resource settings ≡ ok result
      → IsConsistent result.costs
        × (max resource.licensable_cores 4 ≤ times_ℕ 2 result.explanation.license_pack_count)
        × (times_ℕ 2 result.explanation.license_pack_count
            ≤ plus_ℕ (max resource.licensable_cores 4) 1)
  unfolding calculate_on_prem_source
  calculate_on_prem_source-IsConsistent resource settings months result input e p h =
      let quantity = nonneg-from laws resource.shared.quantity in
      Ensures-eq-ok
        {P = λ (r : OnPremCostResult D).
          IsConsistent r.costs
          × (max resource.licensable_cores 4 ≤ times_ℕ 2 r.explanation.license_pack_count)
          × (times_ℕ 2 r.explanation.license_pack_count
              ≤ plus_ℕ (max resource.licensable_cores 4) 1)}
        (Ensures-then
          (ok_or
            (elim resource.sql.sql_edition [
              | standard ↦ settings.standard_license_sa_usd_per_two_core_pack
              | enterprise ↦ settings.enterprise_license_sa_usd_per_two_core_pack
            ])
            missing_on_prem_license_settings)
          λ price _.
            Ensures-then (ok_or settings.remaining_coverage_months missing_on_prem_license_settings)
              λ coverage c.
                Ensures-then (ok_or settings.electricity_rate_usd_per_kwh missing_electricity_rate)
                  λ electricity _. after_rate laws price λ price_nonneg.
                    after_rate laws electricity λ electricity_nonneg.
                      (let hardware =
                          laws.over_nonneg _ _ (laws.times_nonneg _ _ quantity input.capex)
                            input.years in
                        let power =
                          effective_power_nonneg resource.average_power_kw_override _
                            (estimated_power_kw_nonneg resource input.ram input.size) input.power in
                        let kwh = product3 laws _ _ _ quantity input.hours power in
                        let count : suc months ≡ coverage = ground arith in
                        let covered : (nought < d.from coverage) ≡ true =
                          rw⁻¹ count (pos-from laws months) in
                        let price12 =
                          laws.times_nonneg _ _
                            (product3 laws _ _ _ quantity
                              (nonneg-from laws (license_packs resource.licensable_cores))
                              price_nonneg)
                            (nonneg-from laws 12) in
                        let license = laws.over_nonneg _ _ price12 covered in
                        let (enough, spare) = packs_cover resource.licensable_cores in
                        let zero_le = ≼_refl laws nought in
                        let electric = laws.times_nonneg _ _ kwh electricity_nonneg in
                        let licensed = apply_discount_bounds laws _ _ license p.source_license in
                        done (
                          within-IsConsistent laws _ _ _ _ _ _ _ _ (hardware, ≼_refl laws _)
                              licensed (zero_le, zero_le) (hardware, ≼_refl laws _) electric,
                          enough,
                          spare,
                        )))
        h
