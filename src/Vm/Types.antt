-- ===== src/Vm/Types.antt =====
-- Types of rust/src/calculation/vm_target_selector.rs.
use tco_calculator.Prelude.{ℕ, Bool, String, Option, List}
use tco_calculator.Domain.Resource.{Uuid, VmDiskRole}
use tco_calculator.Target.Types.{MappingStatus}

pub data VmLineage : Type 0 where
  burstable general_purpose memory_optimized : VmLineage

pub data VmLifecycle : Type 0 where
  current previous : VmLifecycle

pub record VmSizeCandidate (D : Type 0) : Type 0 where
  pub arm_sku_name : String
  pub display_family : String
  pub lineage : VmLineage
  pub generation : String
  pub generation_rank : ℕ
  pub lifecycle : VmLifecycle
  pub azure_region : String
  pub cpu_architecture : String
  pub windows_eligible : Bool
  pub vcpus : ℕ
  pub memory_gb : D
  pub max_data_disk_count : ℕ
  pub premium_io : Bool
  pub uncached_disk_iops : ℕ
  pub uncached_disk_throughput_mbps : ℕ
  pub local_temp_disk_gb : Option D
  pub source_url : String
  pub documentation_url : String
  pub reviewed_date : String

pub record VmCapabilityCatalog (D : Type 0) : Type 0 where
  pub schema_version : String
  pub candidates : List (VmSizeCandidate D)

pub record ManagedDiskTier (D : Type 0) : Type 0 where
  pub tier_key : String
  pub capacity_gb : D
  pub provisioned_iops : ℕ
  pub provisioned_throughput_mbps : D

pub record ManagedDiskOffer (D : Type 0) : Type 0 where
  pub offer_key : String
  pub display_name : String
  pub redundancy : String
  pub allowed_roles : List VmDiskRole
  pub performance_is_provisioned_independently : Bool
  pub azure_regions : List String
  pub included_iops : Option ℕ
  pub included_throughput_mbps : Option D
  pub maximum_iops : ℕ
  pub maximum_throughput_mbps : ℕ
  pub capacity_increment_gb : Option D
  pub minimum_capacity_gb : Option D
  pub maximum_capacity_gb : D
  pub tiers : List (ManagedDiskTier D)
  pub source_url : String
  pub reviewed_date : String

pub record ManagedDiskCatalog (D : Type 0) : Type 0 where
  pub schema_version : String
  pub offers : List (ManagedDiskOffer D)

pub data SourceClass : Type 0 where
  burstable general_purpose memory_optimized high_frequency_memory_optimized : SourceClass

pub record VmVolumeRequirement (D : Type 0) : Type 0 where
  pub volume_id : Uuid
  pub label : String
  pub role : VmDiskRole
  pub capacity_gb : D
  pub iops : ℕ
  pub throughput_mbps : D

pub data VmDiskPriceDimension : Type 0 where
  capacity_tier capacity_gb additional_iops additional_throughput : VmDiskPriceDimension

pub record VmDiskPriceKey : Type 0 where
  pub offer_key : String
  pub tier_key : Option String
  pub dimension : VmDiskPriceDimension

-- The map of rates is the list of its entries, and the set of dimensions that of its members.
pub record VmPriceAvailability (D : Type 0) : Type 0 where
  pub vm_hourly_rates : List (String × D)
  pub managed_disk_dimensions : List VmDiskPriceKey

pub record VmTargetSelectionRequest (D : Type 0) : Type 0 where
  pub azure_region : String
  pub source_class : SourceClass
  pub minimum_vcpu : ℕ
  pub minimum_memory_gb : D
  pub requires_local_temp_disk : Bool
  pub minimum_local_temp_disk_gb : D
  pub volumes : List (VmVolumeRequirement D)
  pub requested_target_arm_sku : Option String
  pub price_availability : Option (VmPriceAvailability D)

pub record SelectedManagedDisk (D : Type 0) : Type 0 where
  pub volume_id : Uuid
  pub label : String
  pub role : VmDiskRole
  pub offer_key : String
  pub display_name : String
  pub tier_key : Option String
  pub capacity_gb : D
  pub provisioned_iops : ℕ
  pub provisioned_throughput_mbps : D
  pub billed_additional_iops : ℕ
  pub billed_additional_throughput_mbps : D

pub data VmRecommendationStatus : Type 0 where
  recommended capacity_fit_review_required incomplete no_eligible_target : VmRecommendationStatus

pub record SelectedVmTarget (D : Type 0) : Type 0 where
  pub arm_sku_name : String
  pub display_family : String
  pub lineage : VmLineage
  pub generation : String
  pub generation_rank : ℕ
  pub lifecycle : VmLifecycle
  pub azure_region : String
  pub vcpus : ℕ
  pub memory_gb : D
  pub max_data_disk_count : ℕ
  pub uncached_disk_iops : ℕ
  pub uncached_disk_throughput_mbps : ℕ
  pub local_temp_disk_gb : Option D
  pub disks : List (SelectedManagedDisk D)

pub data VmSelectionReasonCode : Type 0 where
  region_unavailable lineage_mismatch lifecycle_ineligible : VmSelectionReasonCode
  windows_unsupported architecture_unsupported premium_io_unsupported : VmSelectionReasonCode
  insufficient_vcpu insufficient_memory insufficient_local_temp_disk : VmSelectionReasonCode
  data_disk_count_exceeded no_eligible_disk_offer : VmSelectionReasonCode
  aggregate_disk_iops_exceeded aggregate_disk_throughput_exceeded : VmSelectionReasonCode
  target_override_ineligible burst_policy_review_required : VmSelectionReasonCode
  instance_store_review_required ephemeral_data_loss_incompatible : VmSelectionReasonCode
  high_frequency_review_required volume_role_unconfirmed price_unavailable : VmSelectionReasonCode

pub record VmSelectionReason : Type 0 where
  pub code : VmSelectionReasonCode
  pub detail : String

pub record VmCandidateEvaluation (D : Type 0) : Type 0 where
  pub arm_sku_name : String
  pub vcpus : ℕ
  pub memory_gb : D
  pub eligible : Bool
  pub rejection_reasons : List VmSelectionReason

pub record VmTargetSelection (D : Type 0) : Type 0 where
  pub mapping_status : MappingStatus
  pub recommendation_status : VmRecommendationStatus
  pub requested_lineage : VmLineage
  pub selected : Option (SelectedVmTarget D)
  pub candidates : List (VmCandidateEvaluation D)
  pub outcome_reasons : List VmSelectionReason

pub data VmTargetSelectionError : Type 0 where
  invalid_source_vcpu invalid_source_memory no_volumes os_volume_count : VmTargetSelectionError

pub record EvaluatedCandidate (D : Type 0) : Type 0 where
  pub candidate : VmSizeCandidate D
  pub disks : List (SelectedManagedDisk D)
  pub hourly_rate : Option D
