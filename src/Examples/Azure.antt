-- ===== src/Examples/Azure.antt =====
-- Azure costs of rust/src/calculation/cost.rs.
use tco_calculator.Prelude.{◌≡◌, refl, ok, try_fold}
use tco_calculator.Decimal.{◌≼◌, max_decimal}
use tco_calculator.Decimal.Thousandths.{Thousandths, pos, thousandths, Thousandths-IsDecimal}
use tco_calculator.Cost.Types.{AzureCostBreakdown, AzureRate}
use tco_calculator.Cost.Rates.{
  validate_rate, apply_discount, source_license_hourly, source_costs, price_tiers, tiered_iops_cost,
  tier_units,
}
use tco_calculator.Cost.Volumes.{
  iops_cost, extra_throughput, throughput_cost, calculate_volume_monthly,
  calculate_ebs_volume_monthly, calculate_vm_volume_monthly,
}
use tco_calculator.Cost.Source.{find_rate, add_ebs_volume, add_vm_volume, estimated_power_kw}
use tco_calculator.Cost.Azure.{azure_mi_billable_storage_gb, calculate_azure, calculate_azure_vm}
use tco_calculator.Cost.Bounds.{IsConsistentAzure}
use tco_calculator.Cost.Bounds.Azure.{calculate_azure-IsConsistent, calculate_azure_vm-IsConsistent}
use tco_calculator.Examples.{whole}
use tco_calculator.Examples.Cost.{settings, settings-HasDiscounts}

abbrev azure_rate : AzureRate Thousandths
azure_rate = record {
  compute_hourly = pos 400;
  license_hourly = pos 100;
  storage_monthly_per_gb = pos 100;
  additional_memory_per_gb_hourly = pos 10;
}

-- 2 instances, 4 GB of memory and 68 GB of storage beyond what is included
abbrev azure_costs : AzureCostBreakdown Thousandths
azure_costs = record {
  compute_gross = whole 800;
  additional_ram_gb = whole 4;
  additional_ram_gross = whole 80;
  compute_plus_ram_net = whole 660;
  license_gross = whole 200;
  license_net = whole 200;
  storage_gross = pos 163200;
  storage_net = pos 163200;
  total_before_parity = pos 1023200;
}

azure_returns :
    calculate_azure 2 (whole 1000) (whole 100) (whole 28) (whole 32) azure_rate settings
    ≡ ok azure_costs
unfolding calculate_azure validate_rate apply_discount source_license_hourly source_costs tier_units
    price_tiers tiered_iops_cost iops_cost extra_throughput throughput_cost calculate_volume_monthly
    calculate_ebs_volume_monthly calculate_vm_volume_monthly find_rate add_ebs_volume add_vm_volume
    try_fold max_decimal estimated_power_kw azure_mi_billable_storage_gb
azure_returns = refl

calculate_azure-IsConsistent_example : IsConsistentAzure azure_costs × (pos 0 ≼ whole 4)
calculate_azure-IsConsistent_example =
    calculate_azure-IsConsistent Thousandths-IsDecimal 2 (whole 1000) (whole 100) (whole 28)
      (whole 32) azure_rate settings azure_costs refl settings-HasDiscounts azure_returns

abbrev azure_vm_costs : AzureCostBreakdown Thousandths
azure_vm_costs = record {
  compute_gross = whole 800;
  additional_ram_gb = pos 0;
  additional_ram_gross = pos 0;
  compute_plus_ram_net = whole 600;
  license_gross = whole 200;
  license_net = whole 200;
  storage_gross = whole 480;
  storage_net = whole 480;
  total_before_parity = whole 1280;
}

azure_vm_returns :
    calculate_azure_vm 2 (whole 1000) (pos 500) (pos 100) (whole 20) settings ≡ ok azure_vm_costs
unfolding calculate_azure_vm validate_rate apply_discount source_license_hourly source_costs
    tier_units price_tiers tiered_iops_cost iops_cost extra_throughput throughput_cost
    calculate_volume_monthly calculate_ebs_volume_monthly calculate_vm_volume_monthly find_rate
    add_ebs_volume add_vm_volume try_fold max_decimal estimated_power_kw
    azure_mi_billable_storage_gb
azure_vm_returns = refl

calculate_azure_vm-IsConsistent_example : IsConsistentAzure azure_vm_costs × (pos 100 ≼ pos 500)
calculate_azure_vm-IsConsistent_example =
    calculate_azure_vm-IsConsistent Thousandths-IsDecimal 2 (whole 1000) (pos 500) (pos 100)
      (whole 20) settings azure_vm_costs refl settings-HasDiscounts azure_vm_returns
