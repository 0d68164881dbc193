-- ===== src/Cost/Types.antt =====
-- The rates, the results and the errors of rust/src/calculation/cost.rs.
use tco_calculator.Prelude.{ℕ, Bool, Option, List}
use tco_calculator.Domain.Resource.{EbsVolumeType}

pub record SourceCostBreakdown (D : Type 0) : Type 0 where
  pub compute_gross : D
  pub compute_net : D
  pub license_gross : D
  pub license_net : D
  pub storage_gross : D
  pub storage_net : D
  pub hardware_annual : D
  pub electricity_annual : D
  pub total : D

pub record OnPremExplanation (D : Type 0) : Type 0 where
  pub estimated_power_kw : D
  pub effective_power_kw : D
  pub power_override_applied : Bool
  pub annual_kwh : D
  pub electricity_monthly_average : D
  pub license_pack_count : ℕ

pub record OnPremCostResult (D : Type 0) : Type 0 where
  pub costs : SourceCostBreakdown D
  pub explanation : OnPremExplanation D

pub record AzureCostBreakdown (D : Type 0) : Type 0 where
  pub compute_gross : D
  pub additional_ram_gb : D
  pub additional_ram_gross : D
  pub compute_plus_ram_net : D
  pub license_gross : D
  pub license_net : D
  pub storage_gross : D
  pub storage_net : D
  pub total_before_parity : D

pub record SavingsBreakdown (D : Type 0) : Type 0 where
  pub compute_savings : D
  pub license_savings : D
  pub storage_savings : D
  pub total_savings : D
  pub required_adjustment : D
  pub selected_adjustment : D
  pub azure_after_selected_parity : D
  pub difference : D

pub record Ec2Rate (D : Type 0) : Type 0 where
  pub source_vcpu : ℕ
  pub catalog_memory_gb : D
  pub compute_hourly : D
  pub standard_license_hourly : Option D
  pub enterprise_license_hourly : Option D

pub record IopsPriceTier (D : Type 0) : Type 0 where
  pub up_to_inclusive : Option ℕ
  pub monthly_per_iops : D

pub record EbsRate (D : Type 0) : Type 0 where
  pub volume_type : EbsVolumeType
  pub capacity_monthly_per_gb : D
  pub included_iops : ℕ
  pub iops_monthly_per_unit : Option D
  pub iops_tiers : List (IopsPriceTier D)
  pub included_throughput_mibps : D
  pub throughput_monthly_per_mibps : Option D

pub record RdsRate (D : Type 0) : Type 0 where
  pub source_vcpu : ℕ
  pub catalog_memory_gb : D
  pub effective_compute_hourly : D
  pub storage_monthly_per_gb : D
  pub standard_license_core_hourly : D
  pub enterprise_license_core_hourly : D

pub record AzureRate (D : Type 0) : Type 0 where
  pub compute_hourly : D
  pub license_hourly : D
  pub storage_monthly_per_gb : D
  pub additional_memory_per_gb_hourly : D

pub record AzureManagedDiskRateSet (D : Type 0) : Type 0 where
  pub capacity_monthly : D
  pub additional_iops_monthly_per_unit : Option D
  pub additional_throughput_monthly_per_mbps : Option D

pub data CostError : Type 0 where
  missing_source_license_rate : CostError
  missing_ebs_rate : EbsVolumeType → CostError
  missing_provisioned_iops invalid_iops_tiers missing_azure_managed_disk_rate : CostError
  invalid_azure_vm_rate_components missing_on_prem_license_settings : CostError
  missing_electricity_rate negative_rate : CostError
