-- ===== src/Domain/Resource.antt =====
-- The types of rust/src/domain/resource.rs. `D` is the type of decimals, and a UUID is a number below
-- 2 ^ 128, which only its equality is used of.
use text.Mathlib.Text.{starts_with}
use tco_calculator.Prelude.{
  ℕ, Bool, true, false, String, Option, none, some, List, [], ◌∷◌, if◌then◌else◌,
}

abbrev pub Uuid : Type 0
Uuid = ℕ

pub data ProjectType : Type 0 where
  ec2 ec2_vm rds on_prem sql_payg : ProjectType

pub data SqlEdition : Type 0 where
  standard enterprise : SqlEdition

pub data LicenseBasis : Type 0 where
  license_included byol : LicenseBasis

pub data PurchaseOption : Type 0 where
  payg ahb one_year ahb_one_year three_year ahb_three_year : PurchaseOption
  savings_one_year ahb_savings_one_year : PurchaseOption

pub data VmPurchaseOption : Type 0 where
  payg ahb one_year ahb_one_year three_year ahb_three_year : VmPurchaseOption
  savings_one_year ahb_savings_one_year savings_three_year : VmPurchaseOption
  ahb_savings_three_year : VmPurchaseOption

-- `VmPurchaseOption::ALL`
abbrev pub all_vm_options : List VmPurchaseOption
all_vm_options =
    VmPurchaseOption.payg ∷ VmPurchaseOption.ahb ∷ VmPurchaseOption.one_year
    ∷ VmPurchaseOption.ahb_one_year ∷ VmPurchaseOption.three_year ∷ VmPurchaseOption.ahb_three_year
    ∷ VmPurchaseOption.savings_one_year ∷ VmPurchaseOption.ahb_savings_one_year
    ∷ VmPurchaseOption.savings_three_year ∷ VmPurchaseOption.ahb_savings_three_year ∷ []

unfoldable pub as_str : VmPurchaseOption → String
as_str VmPurchaseOption.payg = "payg"
as_str VmPurchaseOption.ahb = "ahb"
as_str VmPurchaseOption.one_year = "one-year"
as_str VmPurchaseOption.ahb_one_year = "ahbone-year"
as_str VmPurchaseOption.three_year = "three-year"
as_str VmPurchaseOption.ahb_three_year = "ahbthree-year"
as_str VmPurchaseOption.savings_one_year = "sv-one-year"
as_str VmPurchaseOption.ahb_savings_one_year = "ahbsv-one-year"
as_str VmPurchaseOption.savings_three_year = "sv-three-year"
as_str VmPurchaseOption.ahb_savings_three_year = "ahbsv-three-year"

unfoldable pub uses_ahb : VmPurchaseOption → Bool
uses_ahb VmPurchaseOption.ahb = true
uses_ahb VmPurchaseOption.ahb_one_year = true
uses_ahb VmPurchaseOption.ahb_three_year = true
uses_ahb VmPurchaseOption.ahb_savings_one_year = true
uses_ahb VmPurchaseOption.ahb_savings_three_year = true
uses_ahb _ = false

pub record SharedResource (D : Type 0) : Type 0 where
  pub id : Uuid
  pub workload_name : String
  pub server_name : Option String
  pub quantity : ℕ
  pub source_ram_gb_per_instance : D
  pub annual_hours_per_instance : D

pub record SqlWorkload (D : Type 0) : Type 0 where
  pub sql_edition : SqlEdition
  pub license_basis : LicenseBasis
  pub sql_data_gb_per_instance : D
  pub mi_purchase_option : PurchaseOption

pub data VmBurstPolicy : Type 0 where
  confirmed_burst_compatible requires_sustained_cpu unknown not_applicable : VmBurstPolicy

pub data VmInstanceStoreUse : Type 0 where
  unknown not_used used : VmInstanceStoreUse

pub data VmHighFrequencyRequirement : Type 0 where
  required unknown capacity_fit_accepted not_applicable : VmHighFrequencyRequirement

pub record Ec2VmRequirements (D : Type 0) : Type 0 where
  pub burst_policy : VmBurstPolicy
  pub instance_store_use : VmInstanceStoreUse
  pub required_local_temp_disk_gb : Option D
  pub ephemeral_data_loss_acceptable : Option Bool
  pub high_frequency_requirement : VmHighFrequencyRequirement
  pub requested_target_arm_sku : Option String

-- `Ec2VmRequirements::default`
abbrev pub default_requirements : {D : Type 0} → Ec2VmRequirements D
default_requirements = record {
  burst_policy = VmBurstPolicy.not_applicable;
  instance_store_use = VmInstanceStoreUse.not_used;
  required_local_temp_disk_gb = none;
  ephemeral_data_loss_acceptable = none;
  high_frequency_requirement = VmHighFrequencyRequirement.not_applicable;
  requested_target_arm_sku = none;
}

unfoldable pub defaults_for : {D : Type 0} → String → Ec2VmRequirements D
defaults_for instance_type = record default_requirements {
  burst_policy =
      if starts_with instance_type "t3."
      then VmBurstPolicy.confirmed_burst_compatible
      else VmBurstPolicy.not_applicable;
  high_frequency_requirement =
      if starts_with instance_type "z1d."
      then VmHighFrequencyRequirement.capacity_fit_accepted
      else VmHighFrequencyRequirement.not_applicable;
}

pub data EbsVolumeType : Type 0 where
  gp3 io2 ephemeral : EbsVolumeType

-- the derived `==`
abbrev pub volume_type_eq : EbsVolumeType → EbsVolumeType → Bool
volume_type_eq gp3 gp3 = true
volume_type_eq io2 io2 = true
volume_type_eq ephemeral ephemeral = true
volume_type_eq _ _ = false

pub data VmDiskRole : Type 0 where
  os disk_data unknown : VmDiskRole

pub record VmVolume (D : Type 0) : Type 0 where
  pub id : Uuid
  pub label : String
  pub aws_volume_id : Option String
  pub volume_type : EbsVolumeType
  pub role : VmDiskRole
  pub capacity_gb : D
  pub provisioned_iops : Option ℕ
  pub throughput_mibps : Option D

pub record EbsVolume (D : Type 0) : Type 0 where
  pub id : Uuid
  pub label : String
  pub aws_volume_id : Option String
  pub volume_type : EbsVolumeType
  pub capacity_gb : D
  pub provisioned_iops : Option ℕ
  pub throughput_mibps : Option D

pub record Ec2Resource (D : Type 0) : Type 0 where
  pub shared : SharedResource D
  pub sql : SqlWorkload D
  pub instance_type : String
  pub volumes : List (EbsVolume D)

pub record Ec2VmResource (D : Type 0) : Type 0 where
  pub shared : SharedResource D
  pub instance_type : String
  pub vm_purchase_option : VmPurchaseOption
  pub requirements : Ec2VmRequirements D
  pub volumes : List (VmVolume D)

pub data RdsDeployment : Type 0 where
  single_az multi_az : RdsDeployment

pub record RdsResource (D : Type 0) : Type 0 where
  pub shared : SharedResource D
  pub sql : SqlWorkload D
  pub instance_type : String
  pub deployment : RdsDeployment
  pub commercial_term : String
  pub storage_class : String
  pub source_max_iops : ℕ

pub record OnPremResource (D : Type 0) : Type 0 where
  pub shared : SharedResource D
  pub sql : SqlWorkload D
  pub source_vcpu : ℕ
  pub licensable_cores : ℕ
  pub source_max_iops : ℕ
  pub hardware_capex_usd : D
  pub depreciation_years : D
  pub average_power_kw_override : Option D

pub data Resource (D : Type 0) : Type 0 where
  ec2 : Ec2Resource D → Resource D
  ec2_vm : Ec2VmResource D → Resource D
  rds : RdsResource D → Resource D
  on_prem : OnPremResource D → Resource D

module _ {D : Type 0} where
  abbrev pub shared : Resource D → SharedResource D
  shared (Resource.ec2 r) = r.shared
  shared (Resource.ec2_vm r) = r.shared
  shared (Resource.rds r) = r.shared
  shared (Resource.on_prem r) = r.shared

  abbrev pub sql : Resource D → Option (SqlWorkload D)
  sql (Resource.ec2 r) = some r.sql
  sql (Resource.ec2_vm r) = none
  sql (Resource.rds r) = some r.sql
  sql (Resource.on_prem r) = some r.sql

  abbrev pub project_type : Resource D → ProjectType
  project_type (Resource.ec2 r) = ProjectType.ec2
  project_type (Resource.ec2_vm r) = ProjectType.ec2_vm
  project_type (Resource.rds r) = ProjectType.rds
  project_type (Resource.on_prem r) = ProjectType.on_prem
