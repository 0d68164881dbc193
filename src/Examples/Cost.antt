-- ===== src/Examples/Cost.antt =====
-- Inputs of rust/src/calculation/cost.rs.
use tco_calculator.Prelude.{◌≡◌, refl, some, none, [], ◌∷◌, ok, try_fold}
use tco_calculator.Decimal.{is_percent, max_decimal}
use tco_calculator.Decimal.Thousandths.{Thousandths, pos, thousandths, Thousandths-IsDecimal}
use tco_calculator.Domain.Resource.{
  ProjectType, PurchaseOption, VmPurchaseOption, SharedResource, SqlWorkload, EbsVolume,
  Ec2Resource, Ec2VmResource, RdsResource, gp3, standard, byol, default_requirements, VmDiskRole,
  RdsDeployment,
}
use tco_calculator.Domain.Project.{ProjectSettings}
use tco_calculator.Cost.Types.{SourceCostBreakdown, Ec2Rate, EbsRate, RdsRate}
use tco_calculator.Cost.Rates.{
  validate_rate, apply_discount, source_license_hourly, source_costs, price_tiers, tiered_iops_cost,
  tier_units,
}
use tco_calculator.Cost.Volumes.{
  iops_cost, extra_throughput, throughput_cost, calculate_volume_monthly,
  calculate_ebs_volume_monthly, calculate_vm_volume_monthly,
}
use tco_calculator.Cost.Source.{
  find_rate, add_ebs_volume, add_vm_volume, calculate_ec2_source, calculate_ec2_vm_source,
  calculate_rds_source, estimated_power_kw,
}
use tco_calculator.Cost.Azure.{azure_mi_billable_storage_gb}
use tco_calculator.Cost.Bounds.{HasDiscounts, IsConsistent}
use tco_calculator.Cost.Bounds.Aws.{
  calculate_ec2_source-IsConsistent, calculate_ec2_vm_source-IsConsistent,
  calculate_rds_source-IsConsistent,
}
use tco_calculator.Examples.{whole}

abbrev pub settings : ProjectSettings Thousandths
settings = record {
  project_type = ProjectType.ec2;
  aws_region = some "us-east-1";
  azure_region = "eastus";
  currency = "USD";
  source_compute_discount = pos 100;
  source_license_discount = pos 0;
  source_storage_discount = pos 0;
  azure_compute_discount = pos 250;
  azure_license_discount = pos 0;
  azure_storage_discount = pos 0;
  selected_parity_adjustment = pos 0;
  default_annual_hours = whole 8760;
  default_mi_purchase_option = PurchaseOption.payg;
  enterprise_license_sa_usd_per_two_core_pack = some (whole 9000);
  standard_license_sa_usd_per_two_core_pack = some (whole 3600);
  remaining_coverage_months = some 36;
  electricity_rate_usd_per_kwh = some (pos 100);
  sql_payg = none;
}

pub settings-HasDiscounts : HasDiscounts settings
unfolding is_percent
settings-HasDiscounts = record {
  source_compute = refl;
  source_license = refl;
  source_storage = refl;
  azure_compute = refl;
  azure_license = refl;
  azure_storage = refl;
}

abbrev pub shared_example : SharedResource Thousandths
shared_example = record {
  id = 1;
  workload_name = "orders";
  server_name = none;
  quantity = 2;
  source_ram_gb_per_instance = whole 16;
  annual_hours_per_instance = whole 1000;
}

abbrev pub sql_example : SqlWorkload Thousandths
sql_example = record {
  sql_edition = standard;
  license_basis = byol;
  sql_data_gb_per_instance = whole 100;
  mi_purchase_option = PurchaseOption.payg;
}

abbrev pub volume : EbsVolume Thousandths
volume = record {
  id = 2;
  label = "data";
  aws_volume_id = none;
  volume_type = gp3;
  capacity_gb = whole 100;
  provisioned_iops = some 3000;
  throughput_mibps = none;
}

abbrev pub gp3_rate : EbsRate Thousandths
gp3_rate = record {
  volume_type = gp3;
  capacity_monthly_per_gb = pos 80;
  included_iops = 3000;
  iops_monthly_per_unit = some (pos 5);
  iops_tiers = [];
  included_throughput_mibps = whole 125;
  throughput_monthly_per_mibps = some (pos 40);
}

abbrev pub ec2_rate : Ec2Rate Thousandths
ec2_rate = record {
  source_vcpu = 4;
  catalog_memory_gb = whole 16;
  compute_hourly = pos 500;
  standard_license_hourly = none;
  enterprise_license_hourly = none;
}

abbrev pub ec2_resource : Ec2Resource Thousandths
ec2_resource = record {
  shared = shared_example;
  sql = sql_example;
  instance_type = "m5.xlarge";
  volumes = volume ∷ [];
}

-- 2 instances, 1000 hours at $0.50 less 10%, and 100 GB for 12 months at $0.08
abbrev pub ec2_costs : SourceCostBreakdown Thousandths
ec2_costs = record {
  compute_gross = whole 1000;
  compute_net = whole 900;
  license_gross = pos 0;
  license_net = pos 0;
  storage_gross = whole 192;
  storage_net = whole 192;
  hardware_annual = pos 0;
  electricity_annual = pos 0;
  total = whole 1092;
}

pub ec2_returns : calculate_ec2_source ec2_resource ec2_rate (gp3_rate ∷ []) settings ≡ ok ec2_costs
unfolding calculate_ec2_source validate_rate apply_discount source_license_hourly source_costs
    tier_units price_tiers tiered_iops_cost iops_cost extra_throughput throughput_cost
    calculate_volume_monthly calculate_ebs_volume_monthly calculate_vm_volume_monthly find_rate
    add_ebs_volume add_vm_volume try_fold max_decimal estimated_power_kw
    azure_mi_billable_storage_gb
ec2_returns = refl

calculate_ec2_source-IsConsistent_example : IsConsistent ec2_costs
calculate_ec2_source-IsConsistent_example =
    calculate_ec2_source-IsConsistent Thousandths-IsDecimal ec2_resource ec2_rate (gp3_rate ∷ [])
      settings ec2_costs refl (refl, tt) settings-HasDiscounts ec2_returns

abbrev vm_resource : Ec2VmResource Thousandths
vm_resource = record {
  shared = shared_example;
  instance_type = "m5.xlarge";
  vm_purchase_option = VmPurchaseOption.payg;
  requirements = default_requirements;
  volumes =
      record {
        id = 3;
        label = "root";
        aws_volume_id = none;
        volume_type = gp3;
        role = VmDiskRole.os;
        capacity_gb = whole 100;
        provisioned_iops = some 3000;
        throughput_mibps = none;
      }
      ∷ [];
}

vm_returns : calculate_ec2_vm_source vm_resource ec2_rate (gp3_rate ∷ []) settings ≡ ok ec2_costs
unfolding calculate_ec2_vm_source validate_rate apply_discount source_license_hourly source_costs
    tier_units price_tiers tiered_iops_cost iops_cost extra_throughput throughput_cost
    calculate_volume_monthly calculate_ebs_volume_monthly calculate_vm_volume_monthly find_rate
    add_ebs_volume add_vm_volume try_fold max_decimal estimated_power_kw
    azure_mi_billable_storage_gb
vm_returns = refl

calculate_ec2_vm_source-IsConsistent_example : IsConsistent ec2_costs
calculate_ec2_vm_source-IsConsistent_example =
    calculate_ec2_vm_source-IsConsistent Thousandths-IsDecimal vm_resource ec2_rate (gp3_rate ∷ [])
      settings ec2_costs refl (refl, tt) settings-HasDiscounts vm_returns

abbrev rds_resource : RdsResource Thousandths
rds_resource = record {
  shared = shared_example;
  sql = sql_example;
  instance_type = "db.m5.xlarge";
  deployment = RdsDeployment.single_az;
  commercial_term = "on-demand";
  storage_class = "gp3";
  source_max_iops = 3000;
}

abbrev rds_rate : RdsRate Thousandths
rds_rate = record {
  source_vcpu = 4;
  catalog_memory_gb = whole 16;
  effective_compute_hourly = pos 500;
  storage_monthly_per_gb = pos 80;
  standard_license_core_hourly = pos 120;
  enterprise_license_core_hourly = pos 450;
}

rds_returns : calculate_rds_source rds_resource rds_rate settings ≡ ok ec2_costs
unfolding calculate_rds_source validate_rate apply_discount source_license_hourly source_costs
    tier_units price_tiers tiered_iops_cost iops_cost extra_throughput throughput_cost
    calculate_volume_monthly calculate_ebs_volume_monthly calculate_vm_volume_monthly find_rate
    add_ebs_volume add_vm_volume try_fold max_decimal estimated_power_kw
    azure_mi_billable_storage_gb
rds_returns = refl

calculate_rds_source-IsConsistent_example : IsConsistent ec2_costs
calculate_rds_source-IsConsistent_example =
    calculate_rds_source-IsConsistent Thousandths-IsDecimal rds_resource rds_rate settings ec2_costs
      refl refl settings-HasDiscounts rds_returns
