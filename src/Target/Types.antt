-- ===== src/Target/Types.antt =====
-- The catalog, the request and the outcome of rust/src/calculation/target_selector.rs. `D` is the
-- type of decimals; a `DecimalValue` is its decimal.
use tco_calculator.Prelude.{ℕ, Bool, true, false, String, Option, List}

pub data ServiceTier : Type 0 where
  next_generation_general_purpose business_critical : ServiceTier

-- the derived `==`
abbrev pub tier_eq : ServiceTier → ServiceTier → Bool
tier_eq next_generation_general_purpose next_generation_general_purpose = true
tier_eq business_critical business_critical = true
tier_eq next_generation_general_purpose business_critical = false
tier_eq business_critical next_generation_general_purpose = false

pub record TargetCandidate (D : Type 0) : Type 0 where
  pub configuration_key : String
  pub azure_region : String
  pub service_tier : ServiceTier
  pub hardware_family : String
  pub vcores : ℕ
  pub zone_redundant : Bool
  pub included_memory_gb : D
  pub supported_memory_gb : List D
  pub storage_architecture : String
  pub maximum_storage_gb : Option D
  pub source_url : String
  pub reviewed_date : String

pub record CapabilityCatalog (D : Type 0) : Type 0 where
  pub schema_version : String
  pub candidates : List (TargetCandidate D)

pub record TargetSelectionRequest (D : Type 0) : Type 0 where
  pub azure_region : String
  pub source_vcpu : ℕ
  pub source_memory_gb : D
  pub required_storage_gb : D
  pub source_max_iops : ℕ
  pub workbook_parity_mode : Bool

pub data MappingStatus : Type 0 where
  mapped no_mapping : MappingStatus

pub data SelectionReasonCode : Type 0 where
  region_unavailable tier_unavailable zone_redundancy_unsupported : SelectionReasonCode
  hardware_family_unsupported insufficient_vcores insufficient_memory : SelectionReasonCode
  insufficient_storage : SelectionReasonCode

pub record SelectionReason : Type 0 where
  pub code : SelectionReasonCode
  pub detail : String

pub record SelectedTarget (D : Type 0) : Type 0 where
  pub configuration_key : String
  pub azure_region : String
  pub service_tier : ServiceTier
  pub hardware_family : String
  pub vcores : ℕ
  pub zone_redundant : Bool
  pub included_memory_gb : D
  pub selected_memory_gb : D
  pub additional_memory_gb : D
  pub storage_architecture : String
  pub maximum_storage_gb : Option D

pub record CandidateEvaluation (D : Type 0) : Type 0 where
  pub configuration_key : String
  pub vcores : ℕ
  pub selected_memory_gb : Option D
  pub eligible : Bool
  pub rejection_reasons : List SelectionReason

pub record StorageEscalation (D : Type 0) : Type 0 where
  pub rejected_configuration_key : String
  pub rejected_maximum_storage_gb : D
  pub selected_configuration_key : String

pub record TargetSelection (D : Type 0) : Type 0 where
  pub mapping_status : MappingStatus
  pub requested_tier : ServiceTier
  pub nggp_iops_limit : ℕ
  pub selected : Option (SelectedTarget D)
  pub candidates : List (CandidateEvaluation D)
  pub outcome_reasons : List SelectionReason
  pub storage_escalation : Option (StorageEscalation D)

pub data TargetSelectionError : Type 0 where
  invalid_source_vcpu invalid_source_memory invalid_required_storage : TargetSelectionError

-- a candidate with the memory size that is selected for it
pub record EligibleCandidate (D : Type 0) : Type 0 where
  pub candidate : TargetCandidate D
  pub selected_memory_gb : D
