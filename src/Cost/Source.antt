-- ===== src/Cost/Source.antt =====
-- The sources of rust/src/calculation/cost.rs: EC2, EC2 virtual machines, RDS and on-premises.
use Prim.Native.Nat.{◌+◌ as plus_ℕ, ◌/◌ as div_ℕ}
use tco_calculator.Prelude.{
  ℕ, max, Option, none, some, List, [], ◌∷◌, map_or, is_some, if◌then◌else◌, Result, ok, ◌>>=◌,
  ◌>>◌, ok_or, try_fold,
}
use tco_calculator.Decimal.{Decimal, ◌+◌, ◌*◌, ◌/◌, nought}
use tco_calculator.Domain.Resource.{
  EbsVolumeType, ephemeral, volume_type_eq, EbsVolume, VmVolume, Ec2Resource, Ec2VmResource,
  RdsResource, OnPremResource, standard, enterprise, byol, license_included,
}
use tco_calculator.Domain.Project.{ProjectSettings}
use tco_calculator.Cost.Types.{
  SourceCostBreakdown, OnPremCostResult, Ec2Rate, EbsRate, RdsRate, CostError, missing_ebs_rate,
  missing_on_prem_license_settings, missing_electricity_rate,
}
use tco_calculator.Cost.Rates.{validate_rate, apply_discount, source_license_hourly, source_costs}
use tco_calculator.Cost.Volumes.{calculate_ebs_volume_monthly, calculate_vm_volume_monthly}

-- `ebs_rates.iter().find(|rate| rate.volume_type == volume_type)`
unfoldable pub find_rate : {D : Type 0} → EbsVolumeType → List (EbsRate D) → Option (EbsRate D)
find_rate volume_type [] = none
find_rate volume_type (rate ∷ rates) =
    if volume_type_eq rate.volume_type volume_type then some rate else find_rate volume_type rates

-- `u32::div_ceil(2)` of the billable cores
abbrev pub license_packs : ℕ → ℕ
license_packs licensable_cores = div_ℕ (plus_ℕ (max licensable_cores 4) 1) 2

module _ {D : Type 0} ⦃d : Decimal D⦄ where
  -- the folds over the volumes
  unfoldable pub add_ebs_volume : List (EbsRate D) → D → EbsVolume D → Result CostError D
  unfolding find_rate
  add_ebs_volume ebs_rates total volume =
      if volume_type_eq volume.volume_type ephemeral then ok total else do
        rate ← ok_or (find_rate volume.volume_type ebs_rates) (missing_ebs_rate volume.volume_type)
        monthly ← calculate_ebs_volume_monthly volume rate
        ok (total + monthly)

  unfoldable pub add_vm_volume : List (EbsRate D) → D → VmVolume D → Result CostError D
  unfolding find_rate
  add_vm_volume ebs_rates total volume =
      if volume_type_eq volume.volume_type ephemeral then ok total else do
        rate ← ok_or (find_rate volume.volume_type ebs_rates) (missing_ebs_rate volume.volume_type)
        monthly ← calculate_vm_volume_monthly volume rate
        ok (total + monthly)

  unfoldable pub calculate_ec2_source :
      Ec2Resource D
      → Ec2Rate D
      → List (EbsRate D)
      → ProjectSettings D
      → Result CostError (SourceCostBreakdown D)
  calculate_ec2_source resource rate ebs_rates settings = do
    validate_rate rate.compute_hourly
    let quantity = d.from resource.shared.quantity
    let hours = resource.shared.annual_hours_per_instance
    let compute_gross = quantity * hours * rate.compute_hourly
    let compute_net = apply_discount compute_gross settings.source_compute_discount
    license_hourly ←
        source_license_hourly resource.sql.license_basis resource.sql.sql_edition
          rate.standard_license_hourly rate.enterprise_license_hourly
    let license_gross = quantity * hours * license_hourly
    let license_net = apply_discount license_gross settings.source_license_discount
    monthly_storage ← try_fold (add_ebs_volume ebs_rates) nought resource.volumes
    let storage_gross = quantity * d.from 12 * monthly_storage
    let storage_net = apply_discount storage_gross settings.source_storage_discount
    ok (
        source_costs compute_gross compute_net license_gross license_net storage_gross storage_net
          nought nought)

  unfoldable pub calculate_ec2_vm_source :
      Ec2VmResource D
      → Ec2Rate D
      → List (EbsRate D)
      → ProjectSettings D
      → Result CostError (SourceCostBreakdown D)
  calculate_ec2_vm_source resource rate ebs_rates settings = do
    validate_rate rate.compute_hourly
    let quantity = d.from resource.shared.quantity
    let hours = resource.shared.annual_hours_per_instance
    let compute_gross = quantity * hours * rate.compute_hourly
    let compute_net = apply_discount compute_gross settings.source_compute_discount
    monthly_storage ← try_fold (add_vm_volume ebs_rates) nought resource.volumes
    let storage_gross = quantity * d.from 12 * monthly_storage
    let storage_net = apply_discount storage_gross settings.source_storage_discount
    ok (
        source_costs compute_gross compute_net nought nought storage_gross storage_net nought
          nought)

  unfoldable pub calculate_rds_source :
      RdsResource D → RdsRate D → ProjectSettings D → Result CostError (SourceCostBreakdown D)
  calculate_rds_source resource rate settings = do
    validate_rate rate.effective_compute_hourly
    validate_rate rate.storage_monthly_per_gb
    let quantity = d.from resource.shared.quantity
    let hours = resource.shared.annual_hours_per_instance
    let compute_gross = quantity * hours * rate.effective_compute_hourly
    let compute_net = apply_discount compute_gross settings.source_compute_discount
    let core_rate : D = elim resource.sql.sql_edition [
      | standard ↦ rate.standard_license_core_hourly
      | enterprise ↦ rate.enterprise_license_core_hourly
    ]
    validate_rate core_rate
    let license_gross : D = elim resource.sql.license_basis [
      | byol ↦ nought
      | license_included ↦ quantity * hours * d.from rate.source_vcpu * core_rate
    ]
    let license_net = apply_discount license_gross settings.source_license_discount
    let storage_gross =
        quantity * resource.sql.sql_data_gb_per_instance * d.from 12 * rate.storage_monthly_per_gb
    let storage_net = apply_discount storage_gross settings.source_storage_discount
    ok (
        source_costs compute_gross compute_net license_gross license_net storage_gross storage_net
          nought nought)

  unfoldable pub estimated_power_kw : OnPremResource D → D
  estimated_power_kw resource =
      d.scaled 100 3
      + d.scaled 125 4 * d.from resource.source_vcpu
      + d.scaled 375 6 * resource.shared.source_ram_gb_per_instance
      + d.scaled 10 3 * resource.sql.sql_data_gb_per_instance / d.from 1024

  unfoldable pub calculate_on_prem_source :
      OnPremResource D → ProjectSettings D → Result CostError (OnPremCostResult D)
  calculate_on_prem_source resource settings = do
    license_price ←
        ok_or
          (elim resource.sql.sql_edition [
            | standard ↦ settings.standard_license_sa_usd_per_two_core_pack
            | enterprise ↦ settings.enterprise_license_sa_usd_per_two_core_pack
          ])
          missing_on_prem_license_settings
    coverage_months ← ok_or settings.remaining_coverage_months missing_on_prem_license_settings
    electricity_rate ← ok_or settings.electricity_rate_usd_per_kwh missing_electricity_rate
    validate_rate license_price
    validate_rate electricity_rate
    let quantity = d.from resource.shared.quantity
    let hours = resource.shared.annual_hours_per_instance
    let effective_power_kw =
        map_or resource.average_power_kw_override (estimated_power_kw resource) (λ power. power)
    let annual_kwh = quantity * hours * effective_power_kw
    let electricity_annual = annual_kwh * electricity_rate
    let hardware_annual = quantity * resource.hardware_capex_usd / resource.depreciation_years
    let license_pack_count = license_packs resource.licensable_cores
    let license_gross =
        quantity * d.from license_pack_count * license_price * d.from 12 / d.from coverage_months
    let license_net = apply_discount license_gross settings.source_license_discount
    ok (record {
      costs =
          source_costs hardware_annual hardware_annual license_gross license_net nought nought
            hardware_annual electricity_annual;
      explanation = record {
        estimated_power_kw = estimated_power_kw resource;
        effective_power_kw = effective_power_kw;
        power_override_applied = is_some resource.average_power_kw_override;
        annual_kwh = annual_kwh;
        electricity_monthly_average = electricity_annual / d.from 12;
        license_pack_count = license_pack_count;
      };
    })
