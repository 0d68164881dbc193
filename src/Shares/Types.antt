-- ===== src/Shares/Types.antt =====
-- The types of rust/src/persistence/project_share.rs, and what it takes from other libraries.
use tco_calculator.Prelude.{ℕ, Bool, String, Option, List}
use tco_calculator.Domain.Resource.{Uuid}
use tco_calculator.Domain.Project.{EditableProject}
use tco_calculator.Clock.{Times}

abbrev pub project_share_document_type : String
project_share_document_type = "project_share"

abbrev pub project_share_partition : String
project_share_partition = "project-shares"

abbrev pub share_lifetime_days : ℕ
share_lifetime_days = 30

pub record ProjectShareDocument (D : Type 0) : Type 0 where
  pub id : Uuid
  pub document_type : String
  pub partition_key : String
  pub source_owner_id : String
  pub source_project_id : Uuid
  pub secret_sha256 : String
  pub project : EditableProject D
  pub created_at : String
  pub expires_at : String

pub record ProjectShareCredentials : Type 0 where
  pub share_id : Uuid
  pub secret : Uuid

pub record CreatedProjectShare : Type 0 where
  pub credentials : ProjectShareCredentials
  pub expires_at : String

pub data ProjectShareError : Type 0 where
  not_found expired payload_too_large unavailable : ProjectShareError

-- `poisoned` says that a thread panicked while it held the lock.
pub record InMemoryProjectShareRepository (D : Type 0) : Type 0 where
  pub poisoned : Bool
  pub shares : List (Uuid × ProjectShareDocument D)

-- `serde_json::to_vec` of a document, whose bytes are a text, `Sha256::digest` of the bytes of an
-- identifier, whose bytes are numbers, and the timestamps
pub record Services (D T : Type 0) : Type 0 where
  pub document_to_vec : ProjectShareDocument D → Option String
  pub sha256 : Uuid → List ℕ
  pub times : Times T
