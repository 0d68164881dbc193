-- ===== src/Projects/Document.antt =====
-- The documents that rust/src/persistence/repository.rs makes and checks.
use Prim.Native.String.{◌++◌, len}
use text.Mathlib.Text.{◌==◌ as text_eq}
use tco_calculator.Prelude.{
  ℕ, Bool, not, ◌||◌, String, Option, is_some_and, leb, ◌==◌, if◌then◌else◌, Result, ok, ◌>>=◌,
  ◌>>◌, fail_if, ok_or,
}
use tco_calculator.Prelude.Text.{show_ℕ}
use tco_calculator.Domain.Resource.{Uuid}
use tco_calculator.Domain.Project.{EditableProject, ProjectDocument}
use tco_calculator.Projects.Types.{
  max_project_document_bytes, project_document_type, formula_version, schema_version,
  RepositoryError, payload_too_large, unavailable, Services,
}

unfoldable pub etag : ℕ → String
etag version = "\"" ++ show_ℕ version ++ "\""

module _ {D R : Type 0} where
  unfoldable pub enforce_document_size :
      Services D R → ProjectDocument D R → Result RepositoryError (Unit {0})
  enforce_document_size services document = do
    bytes ← ok_or (services.document_to_vec document) unavailable
    fail_if (leb max_project_document_bytes (len bytes)) payload_too_large

  -- the document that `new_project_document` checks and returns
  unfoldable pub new_document :
      String → Uuid → EditableProject D → Option R → String → String → ProjectDocument D R
  new_document owner_id id project calculation_revision timestamp tag = record {
    id = id;
    document_type = project_document_type;
    owner_id = owner_id;
    name = project.name;
    description = project.description;
    settings = project.settings;
    resources = project.resources;
    aws_price_snapshot_id = project.aws_price_snapshot_id;
    azure_price_snapshot_id = project.azure_price_snapshot_id;
    latest_calculation_revision = calculation_revision;
    formula_version = formula_version;
    schema_version = schema_version;
    created_at = timestamp;
    updated_at = timestamp;
    etag = tag;
  }

  unfoldable pub new_project_document :
      Services D R
      → String
      → Uuid
      → EditableProject D
      → Option R
      → String
      → String
      → Result RepositoryError (ProjectDocument D R)
  unfolding new_document enforce_document_size
  new_project_document services owner_id id project calculation_revision timestamp tag = do
    let document = new_document owner_id id project calculation_revision timestamp tag
    enforce_document_size services document
    ok document

  unfoldable pub pricing_inputs_unchanged :
      Services D R → ProjectDocument D R → EditableProject D → Result RepositoryError Bool
  pricing_inputs_unchanged services stored editable = do
    stored_inputs ←
        ok_or
          (services.inputs_to_vec (record {
            settings = stored.settings;
            resources = stored.resources;
            aws_price_snapshot_id = stored.aws_price_snapshot_id;
            azure_price_snapshot_id = stored.azure_price_snapshot_id;
          }))
          unavailable
    editable_inputs ←
        ok_or
          (services.inputs_to_vec (record {
            settings = editable.settings;
            resources = editable.resources;
            aws_price_snapshot_id = editable.aws_price_snapshot_id;
            azure_price_snapshot_id = editable.azure_price_snapshot_id;
          }))
          unavailable
    ok (text_eq stored_inputs editable_inputs)

  -- the document that `updated_project_document` checks and returns
  unfoldable pub updated_document :
      ProjectDocument D R → EditableProject D → Option R → String → String → ProjectDocument D R
  updated_document stored project latest_calculation_revision timestamp tag = record {
    id = stored.id;
    document_type = project_document_type;
    owner_id = stored.owner_id;
    name = project.name;
    description = project.description;
    settings = project.settings;
    resources = project.resources;
    aws_price_snapshot_id = project.aws_price_snapshot_id;
    azure_price_snapshot_id = project.azure_price_snapshot_id;
    latest_calculation_revision = latest_calculation_revision;
    formula_version = formula_version;
    schema_version = schema_version;
    created_at = stored.created_at;
    updated_at = timestamp;
    etag = tag;
  }

  unfoldable pub updated_project_document :
      Services D R
      → ProjectDocument D R
      → EditableProject D
      → Option R
      → String
      → String
      → Result RepositoryError (ProjectDocument D R)
  unfolding updated_document pricing_inputs_unchanged enforce_document_size
  updated_project_document services stored project calculation_revision timestamp tag = do
    unchanged ← pricing_inputs_unchanged services stored project
    let latest_calculation_revision =
        if unchanged then stored.latest_calculation_revision else calculation_revision
    let document = updated_document stored project latest_calculation_revision timestamp tag
    enforce_document_size services document
    ok document

  unfoldable pub validate_stored_document :
      Services D R → ProjectDocument D R → String → Option Uuid → Result RepositoryError (Unit {0})
  unfolding enforce_document_size
  validate_stored_document services document owner_id expected_id = do
    fail_if
        (not (text_eq document.document_type project_document_type)
          || not (text_eq document.owner_id owner_id)
          || is_some_and expected_id (λ id. not (document.id == id))
          || text_eq document.etag "")
        unavailable
    enforce_document_size services document
