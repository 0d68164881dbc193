-- ===== src/Validation.antt =====
-- `EditableProject::validate` of rust/src/domain/project.rs. The issues that the source pushes on one
-- vector are lists here, one after the other.
pub mod Text
pub mod Issues
pub mod Settings
pub mod Volumes
pub mod Resources
pub mod Laws
use Prim.Native.String.{len}
use tco_calculator.Prelude.{not, ◌&&◌, List, [], ◌∷◌, concat, length, is_empty, is_some_and, ltb}
use tco_calculator.Decimal.{Decimal}
use tco_calculator.Domain.Resource.{ProjectType}
use tco_calculator.Domain.Project.{EditableProject}
use tco_calculator.Validation.Text.{within, is_snapshot_id}
use tco_calculator.Validation.Issues.{
  max_project_resources, ValidationIssue, issue, push_if, project_type_eq,
}
use tco_calculator.Validation.Settings.{validate_settings}
use tco_calculator.Validation.Resources.{validate_resources}

module _ {D : Type 0} ⦃d : Decimal D⦄ where
  abbrev pub project_checks : EditableProject D → List (List ValidationIssue)
  project_checks project =
      (push_if (not (within 1 100 (len project.name)))
          (issue "/name" "length" "Project name must contain 1 to 100 characters.")
        ∷ push_if (is_some_and project.description (λ description. ltb 500 (len description)))
            (issue "/description" "length" "Project description must not exceed 500 characters.")
        ∷ push_if (ltb max_project_resources (length project.resources))
            (issue "/resources" "limit" "A project may contain at most 100 resources.")
        ∷ push_if
            (project_type_eq project.settings.project_type ProjectType.sql_payg
              && not (is_empty project.resources))
            (issue "/resources" "not_allowed"
              "SQL Pay As You Go projects do not contain workload resources.")
        ∷ push_if (is_some_and project.aws_price_snapshot_id (λ id. not (is_snapshot_id id "aws-")))
            (issue "/aws_price_snapshot_id" "format"
              "Snapshot IDs must be server-issued content-addressed identifiers.")
        ∷ push_if
            (is_some_and project.azure_price_snapshot_id (λ id. not (is_snapshot_id id "azure-")))
            (issue "/azure_price_snapshot_id" "format"
              "Snapshot IDs must be server-issued content-addressed identifiers.")
        ∷ validate_settings project.settings
        ∷ validate_resources project.settings.project_type 0 [] [] project.resources
        ∷ [])

  unfoldable pub validate : EditableProject D → List ValidationIssue
  unfolding concat
  validate project = concat (project_checks project)
