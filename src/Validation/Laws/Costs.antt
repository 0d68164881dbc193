-- ===== src/Validation/Laws/Costs.antt =====
-- A project that passes the validation of rust/src/domain/project.rs meets what the cost functions of
-- rust/src/calculation/cost.rs ask of their inputs.
use mathlib.Core.List.{Memᴰ}
use tco_calculator.Prelude.{
  ℕ, ◌≤◌, max, ◌≡◌, refl, List, [], ◌∷◌, ok, ◌+◌ as plus_ℕ, ◌*◌ as times_ℕ, All, append-empty,
  concat-empty,
}
use tco_calculator.Decimal.{Decimal, IsDecimal, ◌≼◌, nought}
use tco_calculator.Decimal.Signs.{le_of_not-lt}
use tco_calculator.Domain.Resource.{
  Uuid, ProjectType, SqlEdition, standard, enterprise, Resource, Ec2Resource, EbsVolume,
  OnPremResource,
}
use tco_calculator.Domain.Project.{ProjectSettings, EditableProject}
use tco_calculator.Cost.Types.{SourceCostBreakdown, OnPremCostResult, Ec2Rate, EbsRate}
use tco_calculator.Cost.Rates.{validate_rate}
use tco_calculator.Cost.Source.{calculate_on_prem_source, calculate_ec2_source}
use tco_calculator.Cost.Bounds.{IsConsistent}
use tco_calculator.Cost.Bounds.OnPrem.{calculate_on_prem_source-IsConsistent}
use tco_calculator.Cost.Bounds.Aws.{calculate_ec2_source-IsConsistent}
use tco_calculator.Validation.{validate}
use tco_calculator.Validation.Issues.{push_if-empty}
use tco_calculator.Validation.Volumes.{ebs_volume_checks, ebs_volume_issues, ebs_volumes_issues}
use tco_calculator.Validation.Resources.{ec2_checks, kind_issues}
use tco_calculator.Validation.Laws.{
  validate_parts, validate_settings-HasDiscounts, IsOnPremSettings, validate_settings-on_prem,
  validate_resources-IsChecked, IsChecked-hours, IsChecked-on_prem,
}

module _ {D : Type 0} ⦃d : Decimal D⦄ (laws : IsDecimal D) where
  on_prem_source_answers :
      (resource : OnPremResource D) (settings : ProjectSettings D) (edition : SqlEdition)
      → resource.sql.sql_edition ≡ edition
      → IsOnPremSettings settings
      → (result : OnPremCostResult D) × (calculate_on_prem_source resource settings ≡ ok result)
  unfolding calculate_on_prem_source validate_rate
  on_prem_source_answers resource settings standard e s =
      rw
        (
          e, s.standard.present, s.coverage, s.electricity.present, s.standard.nonneg,
          s.electricity.nonneg,
        )
        (_, refl)
  on_prem_source_answers resource settings enterprise e s =
      rw
        (
          e, s.enterprise.present, s.coverage, s.electricity.present, s.enterprise.nonneg,
          s.electricity.nonneg,
        )
        (_, refl)

  -- For a project of an on-premises type without issues, the cost of each of its on-premises resources
  -- is computed without an error, the breakdown is consistent, and the license packs of two cores cover
  -- the licensed cores, at least four, with at most one core to spare.
  pub validate-calculate_on_prem_source :
      (project : EditableProject D) (resource : OnPremResource D)
      → validate project ≡ []
      → project.settings.project_type ≡ ProjectType.on_prem
      → Memᴰ (Resource.on_prem resource) project.resources
      → (result : OnPremCostResult D) × (calculate_on_prem_source resource project.settings
          ≡ ok result)
        × IsConsistent result.costs
        × (max resource.licensable_cores 4 ≤ times_ℕ 2 result.explanation.license_pack_count)
        × (times_ℕ 2 result.explanation.license_pack_count
            ≤ plus_ℕ (max resource.licensable_cores 4) 1)
  validate-calculate_on_prem_source project resource h e m =
      let (settings, resources) = validate_parts project h in
      let s = validate_settings-on_prem laws project.settings settings e in
      let checked =
        validate_resources-IsChecked project.settings.project_type 0 [] [] project.resources
          resources m in
      let (result, r) = on_prem_source_answers resource project.settings _ refl s in
      let (consistent, low, high) =
        calculate_on_prem_source-IsConsistent laws resource project.settings s.months result
          (IsChecked-on_prem laws project.settings.project_type resource checked) s.coverage
          (validate_settings-HasDiscounts project.settings settings) r in
      (result, r, consistent, low, high)

  ebs_sizes :
      (index volume_index : ℕ) (ids : List Uuid) (volumes : List (EbsVolume D))
      → (ebs_volumes_issues index volume_index ids volumes).0 ≡ []
      → All (λ (v : EbsVolume D). nought ≼ v.capacity_gb) volumes
  unfolding ebs_volumes_issues ebs_volume_issues
  ebs_sizes index volume_index ids [] h = tt
  ebs_sizes index volume_index ids (v ∷ vs) h =
      let (first, rest) = append-empty (ebs_volume_issues index volume_index ids v) _ h in
      let (id, (label, (aws, (capacity, others)))) =
        concat-empty (ebs_volume_checks index volume_index ids v) first in
      (
        le_of_not-lt laws v.capacity_gb nought (push_if-empty _ _ capacity),
        ebs_sizes index (plus_ℕ volume_index 1) (v.id ∷ ids) vs rest,
      )

  -- For a project without issues, every breakdown that is computed for one of its EC2 resources, at
  -- whatever rates, is consistent.
  pub validate-calculate_ec2_source :
      (project : EditableProject D) (resource : Ec2Resource D) (rate : Ec2Rate D)
      (ebs_rates : List (EbsRate D)) (s : SourceCostBreakdown D)
      → validate project ≡ []
      → Memᴰ (Resource.ec2 resource) project.resources
      → calculate_ec2_source resource rate ebs_rates project.settings ≡ ok s
      → IsConsistent s
  unfolding kind_issues
  validate-calculate_ec2_source project resource rate ebs_rates s h m r =
      let (settings, resources) = validate_parts project h in
      let checked =
        validate_resources-IsChecked project.settings.project_type 0 [] [] project.resources
          resources m in
      let (hours, ram) =
        IsChecked-hours laws project.settings.project_type (Resource.ec2 resource) checked in
      let (kind, (count, (volumes, end))) =
        concat-empty (ec2_checks checked.index resource _) checked.kind_passes in
      calculate_ec2_source-IsConsistent laws resource rate ebs_rates project.settings s hours
        (ebs_sizes checked.index 0 checked.volume_ids resource.volumes volumes)
        (validate_settings-HasDiscounts project.settings settings) r
