-- ===== src/Domain/Project.antt =====
-- The settings and the documents of rust/src/domain/project.rs.
use tco_calculator.Prelude.{ℕ, String, Option, List}
use tco_calculator.Domain.Resource.{ProjectType, PurchaseOption, Resource, Uuid}

pub record SqlPaygSettings (D : Type 0) : Type 0 where
  pub enterprise_licensed_cores : ℕ
  pub standard_licensed_cores : ℕ
  pub software_assurance_annual_usd : D

pub record ProjectSettings (D : Type 0) : Type 0 where
  pub project_type : ProjectType
  pub aws_region : Option String
  pub azure_region : String
  pub currency : String
  pub source_compute_discount : D
  pub source_license_discount : D
  pub source_storage_discount : D
  pub azure_compute_discount : D
  pub azure_license_discount : D
  pub azure_storage_discount : D
  pub selected_parity_adjustment : D
  pub default_annual_hours : D
  pub default_mi_purchase_option : PurchaseOption
  pub enterprise_license_sa_usd_per_two_core_pack : Option D
  pub standard_license_sa_usd_per_two_core_pack : Option D
  pub remaining_coverage_months : Option ℕ
  pub electricity_rate_usd_per_kwh : Option D
  pub sql_payg : Option (SqlPaygSettings D)

pub record EditableProject (D : Type 0) : Type 0 where
  pub name : String
  pub description : Option String
  pub settings : ProjectSettings D
  pub resources : List (Resource D)
  pub aws_price_snapshot_id : Option String
  pub azure_price_snapshot_id : Option String

-- `R` is `CalculationRevision`, the stored result of a calculation.
pub record ProjectDocument (D R : Type 0) : Type 0 where
  pub id : Uuid
  pub document_type : String
  pub owner_id : String
  pub name : String
  pub description : Option String
  pub settings : ProjectSettings D
  pub resources : List (Resource D)
  pub aws_price_snapshot_id : Option String
  pub azure_price_snapshot_id : Option String
  pub latest_calculation_revision : Option R
  pub formula_version : String
  pub schema_version : String
  pub created_at : String
  pub updated_at : String
  pub etag : String
