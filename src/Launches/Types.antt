-- ===== src/Launches/Types.antt =====
-- The types of rust/src/persistence/calculator_launch.rs, and what it takes from other libraries.
use tco_calculator.Prelude.{ℕ, Bool, String, Option, List}
use tco_calculator.Domain.Resource.{Uuid}
use tco_calculator.Clock.{Times}

abbrev pub calculator_launch_document_type : String
calculator_launch_document_type = "azure_calculator_launch"

abbrev pub calculator_manifest_version : ℕ
calculator_manifest_version = 2

abbrev pub calculator_protocol_version : ℕ
calculator_protocol_version = 1

abbrev pub calculator_contract_version : String
calculator_contract_version = "2026-08-24"

abbrev pub minimum_companion_version : String
minimum_companion_version = "1.0.0"

abbrev pub max_calculator_manifest_items : ℕ
max_calculator_manifest_items = 25

abbrev pub max_calculator_manifest_bytes : ℕ
max_calculator_manifest_bytes = 262144

abbrev pub active_ttl_seconds : ℕ
active_ttl_seconds = 600

abbrev pub consumed_ttl_seconds : ℕ
consumed_ttl_seconds = 86400

pub data CalculatorProduct : Type 0 where
  azure_sql_managed_instance : CalculatorProduct

pub data CalculatorDeploymentModel : Type 0 where
  single_instance : CalculatorDeploymentModel

pub data CalculatorServiceTier : Type 0 where
  next_generation_general_purpose business_critical : CalculatorServiceTier

pub data CalculatorHardwareFamily : Type 0 where
  premium_series premium_series_memory_optimized : CalculatorHardwareFamily

pub data CalculatorPurchaseOption : Type 0 where
  payg one_year_reservation three_year_reservation one_year_savings_plan : CalculatorPurchaseOption

pub record CalculatorExpectedPublicAnnual (D : Type 0) : Type 0 where
  pub compute : D
  pub additional_memory : D
  pub license : D
  pub storage : D
  pub total_before_parity : D

pub record CalculatorManifestItem (D : Type 0) : Type 0 where
  pub item_key : String
  pub display_name : String
  pub product : CalculatorProduct
  pub region : String
  pub deployment_model : CalculatorDeploymentModel
  pub service_tier : CalculatorServiceTier
  pub hardware_family : CalculatorHardwareFamily
  pub vcores : ℕ
  pub selected_memory_gb : D
  pub zone_redundant : Bool
  pub quantity : ℕ
  pub hours_per_month : D
  pub purchase_option : CalculatorPurchaseOption
  pub azure_hybrid_benefit : Bool
  pub data_storage_gb : D
  pub backup_storage_gb : D
  pub expected_public_annual : CalculatorExpectedPublicAnnual D

pub record CalculatorManifest (D : Type 0) : Type 0 where
  pub schema_version : ℕ
  pub calculator_contract_version : String
  pub calculator_url : String
  pub generated_at : String
  pub currency : String
  pub locale : String
  pub estimate_name : String
  pub items : List (CalculatorManifestItem D)

pub data CalculatorLaunchStatus : Type 0 where
  ready claimed consumed : CalculatorLaunchStatus

pub record CalculatorLaunchDocument (D : Type 0) : Type 0 where
  pub id : Uuid
  pub document_type : String
  pub owner_id : String
  pub source_project_id : Option Uuid
  pub source_project_etag : Option String
  pub source_formula_version : Option String
  pub source_azure_snapshot_id : Option String
  pub status : CalculatorLaunchStatus
  pub protocol_version : ℕ
  pub manifest_version : ℕ
  pub calculator_contract_version : String
  pub minimum_companion_version : String
  pub manifest_sha256 : Option String
  pub manifest : Option (CalculatorManifest D)
  pub companion_instance_id : Option Uuid
  pub companion_version : Option String
  pub created_at : String
  pub claim_expires_at : String
  pub updated_at : String
  pub ttl : ℕ
  pub etag : String

pub record NewCalculatorLaunch (D : Type 0) : Type 0 where
  pub id : Uuid
  pub source_project_id : Uuid
  pub source_project_etag : String
  pub source_formula_version : String
  pub source_azure_snapshot_id : String
  pub manifest : CalculatorManifest D

pub record CreatedCalculatorLaunch (D : Type 0) : Type 0 where
  pub document : CalculatorLaunchDocument D
  pub created : Bool

pub data CalculatorLaunchError : Type 0 where
  not_found conflict expired precondition_failed invalid_manifest payload_too_large unavailable :
      CalculatorLaunchError

pub record StoredLaunch (D : Type 0) : Type 0 where
  pub document : CalculatorLaunchDocument D
  pub version : ℕ

-- `poisoned` says that a thread panicked while it held the lock.
pub record InMemoryCalculatorLaunchRepository (D : Type 0) : Type 0 where
  pub poisoned : Bool
  pub launches : List ((String × Uuid) × StoredLaunch D)

-- `serde_json::to_vec` of a manifest, whose bytes are a text, `Sha256::digest`, whose bytes are
-- numbers, and the timestamps
pub record Services (D T : Type 0) : Type 0 where
  pub manifest_to_vec : CalculatorManifest D → Option String
  pub sha256 : String → List ℕ
  pub times : Times T
