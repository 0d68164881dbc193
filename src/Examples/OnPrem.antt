-- ===== src/Examples/OnPrem.antt =====
-- An on-premises source of rust/src/calculation/cost.rs.
use tco_calculator.Prelude.{◌≤◌, ◌≡◌, refl, true, some, ok, arith, try_fold}
use tco_calculator.Decimal.{max_decimal}
use tco_calculator.Decimal.Thousandths.{Thousandths, pos, thousandths, Thousandths-IsDecimal}
use tco_calculator.Domain.Resource.{OnPremResource}
use tco_calculator.Cost.Types.{OnPremCostResult}
use tco_calculator.Cost.Rates.{
  validate_rate, apply_discount, source_license_hourly, source_costs, price_tiers, tiered_iops_cost,
  tier_units,
}
use tco_calculator.Cost.Volumes.{
  iops_cost, extra_throughput, throughput_cost, calculate_volume_monthly,
  calculate_ebs_volume_monthly, calculate_vm_volume_monthly,
}
use tco_calculator.Cost.Source.{
  find_rate, add_ebs_volume, add_vm_volume, estimated_power_kw, calculate_on_prem_source,
}
use tco_calculator.Cost.Azure.{azure_mi_billable_storage_gb}
use tco_calculator.Cost.Bounds.{IsConsistent}
use tco_calculator.Cost.Bounds.OnPrem.{IsOnPremInput, calculate_on_prem_source-IsConsistent}
use tco_calculator.Examples.{whole}
use tco_calculator.Examples.Cost.{settings, settings-HasDiscounts, shared_example, sql_example}

abbrev pub on_prem_resource : OnPremResource Thousandths
on_prem_resource = record {
  shared = shared_example;
  sql = sql_example;
  source_vcpu = 4;
  licensable_cores = 5;
  source_max_iops = 3000;
  hardware_capex_usd = whole 9000;
  depreciation_years = whole 3;
  average_power_kw_override = some (pos 300);
}

on_prem_resource-IsOnPremInput : IsOnPremInput Thousandths-IsDecimal on_prem_resource
on_prem_resource-IsOnPremInput = record {
  hours = refl;
  ram = refl;
  size = refl;
  capex = refl;
  years = refl;
  power = λ watts e. ground arith;
}

-- 2 instances: 3 packs each at $3600 over 36 months, 600 kWh at $0.10, and a third of the hardware
abbrev pub on_prem_costs : OnPremCostResult Thousandths
on_prem_costs = record {
  costs = record {
    compute_gross = whole 6000;
    compute_net = whole 6000;
    license_gross = whole 7200;
    license_net = whole 7200;
    storage_gross = pos 0;
    storage_net = pos 0;
    hardware_annual = whole 6000;
    electricity_annual = whole 60;
    total = whole 13260;
  };
  explanation = record {
    estimated_power_kw = pos 148;
    effective_power_kw = pos 300;
    power_override_applied = true;
    annual_kwh = whole 600;
    electricity_monthly_average = whole 5;
    license_pack_count = 3;
  };
}

on_prem_returns : calculate_on_prem_source on_prem_resource settings ≡ ok on_prem_costs
unfolding calculate_on_prem_source validate_rate apply_discount source_license_hourly source_costs
    tier_units price_tiers tiered_iops_cost iops_cost extra_throughput throughput_cost
    calculate_volume_monthly calculate_ebs_volume_monthly calculate_vm_volume_monthly find_rate
    add_ebs_volume add_vm_volume try_fold max_decimal estimated_power_kw
    azure_mi_billable_storage_gb
on_prem_returns = refl

calculate_on_prem_source-IsConsistent_example : IsConsistent on_prem_costs.costs × (5 ≤ 6) × (6 ≤ 6)
calculate_on_prem_source-IsConsistent_example =
    calculate_on_prem_source-IsConsistent Thousandths-IsDecimal on_prem_resource settings 35
      on_prem_costs on_prem_resource-IsOnPremInput refl settings-HasDiscounts on_prem_returns
