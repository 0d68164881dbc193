-- ===== src/Validation/Settings.antt =====
-- `validate_settings` of rust/src/domain/project.rs.
use text.Mathlib.Text.{◌==◌ as text_eq}
use tco_calculator.Prelude.{
  ℕ, Bool, false, not, ◌&&◌, ◌||◌, String, Option, none, some, List, [], ◌∷◌, concat, is_some,
  is_none_or, ltb, if◌then◌else◌, ◌==◌ as nat_eq,
}
use tco_calculator.Decimal.{Decimal, ◌<◌, ◌<=◌, ◌==◌, nought, is_percent}
use tco_calculator.Domain.Resource.{ProjectType}
use tco_calculator.Domain.Project.{ProjectSettings, SqlPaygSettings}
use tco_calculator.Validation.Text.{is_blank}
use tco_calculator.Validation.Issues.{
  ValidationIssue, issue, push_if, project_type_eq, validate_decimal_range,
}

abbrev pub missing_region : ValidationIssue
missing_region = issue "/settings/aws_region" "required" "AWS region is required for AWS projects."

abbrev pub superfluous_region : ValidationIssue
superfluous_region =
    issue "/settings/aws_region" "not_allowed"
      "AWS region must be absent for on-premises and SQL Pay As You Go projects."

-- the `match` of the source on the type and the region
unfoldable pub aws_region_issues : ProjectType → Option String → List ValidationIssue
unfolding push_if issue
aws_region_issues ProjectType.ec2 region =
    push_if (is_none_or region (λ r. text_eq r "")) missing_region
aws_region_issues ProjectType.ec2_vm region =
    push_if (is_none_or region (λ r. text_eq r "")) missing_region
aws_region_issues ProjectType.rds region =
    push_if (is_none_or region (λ r. text_eq r "")) missing_region
aws_region_issues ProjectType.on_prem region = push_if (is_some region) superfluous_region
aws_region_issues ProjectType.sql_payg region = push_if (is_some region) superfluous_region

-- `matches!(_, Some(12 | 24 | 36))`
abbrev pub is_coverage : Option ℕ → Bool
is_coverage none = false
is_coverage (some months) = nat_eq months 12 || nat_eq months 24 || nat_eq months 36

module _ {D : Type 0} ⦃d : Decimal D⦄ where
  abbrev pub discount_issue : String → D → List ValidationIssue
  discount_issue pointer value =
      push_if (not (is_percent value))
        (issue pointer "range" "Discounts and adjustments must be between 0 and 1.")

  abbrev pub pack_price_issue : String → Option D → List ValidationIssue
  pack_price_issue pointer value =
      push_if (is_none_or value (λ price. price <= nought))
        (issue pointer "required" "On-premises License + SA pack prices must be greater than 0.")

  abbrev pub on_prem_checks : ProjectSettings D → List (List ValidationIssue)
  on_prem_checks settings =
      (push_if
          (not (settings.source_compute_discount == nought)
            || not (settings.source_storage_discount == nought))
          (issue "/settings" "on_prem_discount_not_allowed"
            "On-premises compute and storage discounts must be zero.")
        ∷ pack_price_issue "/settings/enterprise_license_sa_usd_per_two_core_pack"
            settings.enterprise_license_sa_usd_per_two_core_pack
        ∷ pack_price_issue "/settings/standard_license_sa_usd_per_two_core_pack"
            settings.standard_license_sa_usd_per_two_core_pack
        ∷ push_if (not (is_coverage settings.remaining_coverage_months)) (
            issue "/settings/remaining_coverage_months" "required"
              "Remaining coverage must be 12, 24, or 36 months.")
        ∷ push_if (is_none_or settings.electricity_rate_usd_per_kwh (λ rate. rate < nought)) (
            issue "/settings/electricity_rate_usd_per_kwh" "required"
              "On-premises electricity rate must be zero or greater.")
        ∷ [])

  unfoldable pub on_prem_issues : ProjectSettings D → List ValidationIssue
  unfolding concat
  on_prem_issues settings = concat (on_prem_checks settings)

  unfoldable pub sql_payg_issues : Option (SqlPaygSettings D) → List ValidationIssue
  unfolding concat push_if issue
  sql_payg_issues none =
      issue "/settings/sql_payg" "required" "SQL Pay As You Go licensing inputs are required." ∷ []
  sql_payg_issues (some sql_payg) = concat (
      push_if
        (ltb 100000 sql_payg.enterprise_licensed_cores
          || ltb 100000 sql_payg.standard_licensed_cores)
        (issue "/settings/sql_payg" "range"
          "Enterprise and Standard licensed cores must not exceed 100,000.")
      ∷ push_if
          (nat_eq sql_payg.enterprise_licensed_cores 0 && nat_eq sql_payg.standard_licensed_cores 0)
          (issue "/settings/sql_payg" "required"
            "Enter at least one Enterprise or Standard licensed core.")
      ∷ push_if (sql_payg.software_assurance_annual_usd < nought) (
          issue "/settings/sql_payg/software_assurance_annual_usd" "range"
            "Annual Software Assurance spend must not be negative.")
      ∷ [])

  abbrev pub settings_checks : ProjectSettings D → List (List ValidationIssue)
  settings_checks settings =
      (push_if (not (text_eq settings.currency "USD"))
          (issue "/settings/currency" "unsupported" "Currency must be USD.")
        ∷ push_if (is_blank settings.azure_region)
            (issue "/settings/azure_region" "required" "Azure region is required.")
        ∷ aws_region_issues settings.project_type settings.aws_region
        ∷ discount_issue "/settings/source_compute_discount" settings.source_compute_discount
        ∷ discount_issue "/settings/source_license_discount" settings.source_license_discount
        ∷ discount_issue "/settings/source_storage_discount" settings.source_storage_discount
        ∷ discount_issue "/settings/azure_compute_discount" settings.azure_compute_discount
        ∷ discount_issue "/settings/azure_license_discount" settings.azure_license_discount
        ∷ discount_issue "/settings/azure_storage_discount" settings.azure_storage_discount
        ∷ discount_issue "/settings/selected_parity_adjustment" settings.selected_parity_adjustment
        ∷ validate_decimal_range "/settings/default_annual_hours" settings.default_annual_hours
            nought (d.from 8784) false "Default annual hours must be between 0 and 8,784."
        ∷ (if project_type_eq settings.project_type ProjectType.on_prem
            then on_prem_issues settings
            else [])
        ∷ (if project_type_eq settings.project_type ProjectType.sql_payg
            then sql_payg_issues settings.sql_payg
            else push_if (is_some settings.sql_payg) (
                issue "/settings/sql_payg" "not_allowed"
                  "SQL Pay As You Go licensing inputs are allowed only for that project type."))
        ∷ [])

  unfoldable pub validate_settings : ProjectSettings D → List ValidationIssue
  unfolding concat
  validate_settings settings = concat (settings_checks settings)
