-- ===== src/Projects/Types.antt =====
-- The types of rust/src/persistence/repository.rs, and what it takes from other libraries.
use tco_calculator.Prelude.{ℕ, Bool, String, Option, List}
use tco_calculator.Domain.Resource.{Resource, Uuid}
use tco_calculator.Domain.Project.{ProjectSettings, ProjectDocument}

abbrev pub max_project_document_bytes : ℕ
max_project_document_bytes = 1800000

abbrev pub project_document_type : String
project_document_type = "project"

abbrev pub formula_version : String
formula_version = "1.3.0"

abbrev pub schema_version : String
schema_version = "1.0.0"

pub data RepositoryError : Type 0 where
  not_found precondition_failed payload_too_large unavailable : RepositoryError

-- the inputs that `pricing_inputs_unchanged` compares
pub record PricingInputs (D : Type 0) : Type 0 where
  pub settings : ProjectSettings D
  pub resources : List (Resource D)
  pub aws_price_snapshot_id : Option String
  pub azure_price_snapshot_id : Option String

-- `serde_json::to_vec`, whose bytes are a text, or `none` if it fails.
pub record Services (D R : Type 0) : Type 0 where
  pub document_to_vec : ProjectDocument D R → Option String
  pub inputs_to_vec : PricingInputs D → Option String

pub record StoredProject (D R : Type 0) : Type 0 where
  pub document : ProjectDocument D R
  pub version : ℕ

-- an entry of `ProjectMap`, with its key
pub record Entry (D R : Type 0) : Type 0 where
  pub owner_id : String
  pub id : Uuid
  pub stored : StoredProject D R

-- `poisoned` says that a thread panicked while it held the lock.
pub record InMemoryProjectRepository (D R : Type 0) : Type 0 where
  pub poisoned : Bool
  pub projects : List (Entry D R)
