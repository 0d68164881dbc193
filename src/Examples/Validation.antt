-- ===== src/Examples/Validation.antt =====
-- Projects that pass the validation of rust/src/domain/project.rs, and the costs of their resources.
use mathlib.Core.List.{Memᴰ}
use tco_calculator.Prelude.{◌*◌, ◌≤◌, ◌≡◌, refl, [], ◌∷◌, none, ok, append, concat, map, any}
use tco_calculator.Decimal.{is_percent}
use tco_calculator.Decimal.Thousandths.{Thousandths, pos, thousandths, Thousandths-IsDecimal}
use tco_calculator.Domain.Resource.{ProjectType, Resource, shared}
use tco_calculator.Domain.Project.{EditableProject}
use tco_calculator.Cost.Types.{OnPremCostResult}
use tco_calculator.Cost.Source.{calculate_on_prem_source}
use tco_calculator.Cost.Bounds.{IsConsistent}
use tco_calculator.Validation.{validate}
use tco_calculator.Validation.Text.{
  all_chars, is_whitespace, is_blank, strip_prefix, is_snapshot_id,
}
use tco_calculator.Validation.Issues.{issue, push_if, validate_decimal_range}
use tco_calculator.Validation.Settings.{
  aws_region_issues, on_prem_issues, sql_payg_issues, validate_settings,
}
use tco_calculator.Validation.Volumes.{ebs_volume_issues, ebs_volumes_issues}
use tco_calculator.Validation.Resources.{
  shared_issues, on_prem_resource_issues, kind_issues, validate_resources,
}
use tco_calculator.Validation.Laws.Costs.{
  validate-calculate_on_prem_source, validate-calculate_ec2_source,
}
use tco_calculator.Validation.Laws.Unique.{Distinct, all_volume_ids, validate-Distinct}
use tco_calculator.Examples.Cost.{
  settings, ec2_resource, ec2_rate, gp3_rate, ec2_costs, ec2_returns,
}
use tco_calculator.Examples.OnPrem.{on_prem_resource}

abbrev ec2_project : EditableProject Thousandths
ec2_project = record {
  name = "Plan";
  description = none;
  settings = settings;
  resources = Resource.ec2 ec2_resource ∷ [];
  aws_price_snapshot_id = none;
  azure_price_snapshot_id = none;
}

abbrev on_prem_project : EditableProject Thousandths
on_prem_project = record {
  name = "Plan";
  description = none;
  settings = record settings {
    project_type = ProjectType.on_prem;
    aws_region = none;
    source_compute_discount = pos 0;
  };
  resources = Resource.on_prem on_prem_resource ∷ [];
  aws_price_snapshot_id = none;
  azure_price_snapshot_id = none;
}

ec2_project_valid : validate ec2_project ≡ []
unfolding validate concat append push_if issue is_blank all_chars is_whitespace is_snapshot_id
    strip_prefix is_percent validate_decimal_range aws_region_issues on_prem_issues sql_payg_issues
    validate_settings shared_issues kind_issues validate_resources ebs_volume_issues
    ebs_volumes_issues any
ec2_project_valid = refl

on_prem_project_valid : validate on_prem_project ≡ []
unfolding validate concat append push_if issue is_blank all_chars is_whitespace is_snapshot_id
    strip_prefix is_percent validate_decimal_range aws_region_issues on_prem_issues sql_payg_issues
    validate_settings shared_issues kind_issues validate_resources on_prem_resource_issues any
on_prem_project_valid = refl

validate-Distinct_example :
    Distinct (map (λ resource. (shared resource).id) ec2_project.resources)
    × Distinct (all_volume_ids ec2_project.resources)
validate-Distinct_example = validate-Distinct ec2_project ec2_project_valid

validate-calculate_on_prem_source_example :
    (result : OnPremCostResult Thousandths) × (calculate_on_prem_source on_prem_resource
        on_prem_project.settings
      ≡ ok result)
    × IsConsistent result.costs
    × (5 ≤ 2 * result.explanation.license_pack_count)
    × (2 * result.explanation.license_pack_count ≤ 6)
validate-calculate_on_prem_source_example =
    validate-calculate_on_prem_source Thousandths-IsDecimal on_prem_project on_prem_resource
      on_prem_project_valid refl (Memᴰ.head refl)

validate-calculate_ec2_source_example : IsConsistent ec2_costs
validate-calculate_ec2_source_example =
    validate-calculate_ec2_source Thousandths-IsDecimal ec2_project ec2_resource ec2_rate
      (gp3_rate ∷ []) ec2_costs ec2_project_valid (Memᴰ.head refl) ec2_returns
