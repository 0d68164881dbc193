-- ===== src/Validation/Laws.antt =====
-- What a project without issues satisfies: the checks of rust/src/domain/project.rs, read back.

pub mod Costs
pub mod Unique
use mathlib.Core.List.{Memᴰ}
use tco_calculator.Prelude.{
  ℕ, zero, suc, ◌+◌, Bool, true, false, not, ◌||◌, ◌≡◌, refl, String, Option, none, some, List, [],
  ◌∷◌, append-empty, concat-empty, is_some_and, is_none_or, arith,
}
use tco_calculator.Decimal.{Decimal, IsDecimal, ◌<◌, ◌<=◌, ◌≼◌, nought}
use tco_calculator.Decimal.Signs.{le_of_not-lt}
use tco_calculator.Domain.Resource.{
  Uuid, ProjectType, Resource, OnPremResource, shared, project_type,
}
use tco_calculator.Domain.Project.{ProjectSettings, EditableProject}
use tco_calculator.Cost.Bounds.{HasDiscounts}
use tco_calculator.Cost.Bounds.OnPrem.{IsOnPremInput}
use tco_calculator.Validation.{project_checks, validate}
use tco_calculator.Validation.Issues.{push_if-empty, validate_decimal_range}
use tco_calculator.Validation.Settings.{
  is_coverage, on_prem_checks, on_prem_issues, settings_checks, validate_settings,
}
use tco_calculator.Validation.Resources.{
  shared_checks, on_prem_resource_checks, shared_issues, kind_issues, on_prem_resource_issues,
  validate_resources,
}

passes : {b : Bool} → not b ≡ false → b ≡ true
passes h = ground arith

covered : (coverage : Option ℕ) → is_coverage coverage ≡ true → (m : ℕ) × (coverage ≡ some (suc m))
covered none h = absurd cc
covered (some zero) h = absurd cc
covered (some (suc m)) h = (m, refl)

module _ {D : Type 0} ⦃d : Decimal D⦄ where
  pub validate_parts :
      (project : EditableProject D)
      → validate project ≡ []
      → (validate_settings project.settings ≡ [])
        × (validate_resources project.settings.project_type 0 [] [] project.resources ≡ [])
  unfolding validate
  validate_parts project h =
      let (name, (description, (count, (payg, (aws, (azure, (settings, (resources, end)))))))) =
        concat-empty (project_checks project) h in
      (settings, resources)

  pub validate_settings-HasDiscounts :
      (settings : ProjectSettings D) → validate_settings settings ≡ [] → HasDiscounts settings
  unfolding validate_settings
  validate_settings-HasDiscounts settings h =
      let (
        currency,
        (azure, (aws, (a, (b, (c, (e, (f, (g, (parity, (hours, (on_prem, (payg, end)))))))))))),
      ) =
        concat-empty (settings_checks settings) h in
      record {
        source_compute = passes (push_if-empty _ _ a);
        source_license = passes (push_if-empty _ _ b);
        source_storage = passes (push_if-empty _ _ c);
        azure_compute = passes (push_if-empty _ _ e);
        azure_license = passes (push_if-empty _ _ f);
        azure_storage = passes (push_if-empty _ _ g);
      }

  -- a price that is present
  pub record IsPriced (price : Option D) : Type 0 where
    pub value : D
    pub present : price ≡ some value
    pub nonneg : (value < nought) ≡ false

  -- what an on-premises project sets
  pub record IsOnPremSettings (settings : ProjectSettings D) : Type 0 where
    pub enterprise : IsPriced settings.enterprise_license_sa_usd_per_two_core_pack
    pub standard : IsPriced settings.standard_license_sa_usd_per_two_core_pack
    pub months : ℕ
    pub coverage : settings.remaining_coverage_months ≡ some (suc months)
    pub electricity : IsPriced settings.electricity_rate_usd_per_kwh

  IsPriced-positive :
      IsDecimal D
      → (price : Option D) → is_none_or price (λ p. p <= nought) ≡ false
      → IsPriced price
  IsPriced-positive laws none h = absurd cc
  IsPriced-positive laws (some p) h = record {
    value = p;
    present = refl;
    nonneg = ground (arith, laws.order.flips p nought);
  }

  IsPriced-nonneg : (price : Option D) → is_none_or price (λ p. p < nought) ≡ false → IsPriced price
  IsPriced-nonneg none h = absurd cc
  IsPriced-nonneg (some p) h = record { value = p; present = refl; nonneg = h }

  pub validate_settings-on_prem :
      IsDecimal D
      → (settings : ProjectSettings D) → validate_settings settings ≡ []
      → settings.project_type ≡ ProjectType.on_prem
      → IsOnPremSettings settings
  unfolding validate_settings on_prem_issues
  validate_settings-on_prem laws settings h e =
      let (
        currency,
        (azure, (aws, (a, (b, (c, (e1, (f, (g, (parity, (hours, (on_prem, (payg, end)))))))))))),
      ) =
        concat-empty (settings_checks settings) h in
      let on_prem' : on_prem_issues settings ≡ [] = rw e at on_prem in
      let (no_discount, (enterprise, (standard, (coverage, (electricity, end'))))) =
        concat-empty (on_prem_checks settings) on_prem' in
      let (months, covers) =
        covered settings.remaining_coverage_months (passes (push_if-empty _ _ coverage)) in
      record {
        enterprise = IsPriced-positive laws _ (push_if-empty _ _ enterprise);
        standard = IsPriced-positive laws _ (push_if-empty _ _ standard);
        months = months;
        coverage = covers;
        electricity = IsPriced-nonneg _ (push_if-empty _ _ electricity);
      }

  -- every resource has passed the checks, at some place and after some identifiers
  pub record IsChecked (type : ProjectType) (resource : Resource D) : Type 0 where
    pub index : ℕ
    pub resource_ids : List Uuid
    pub volume_ids : List Uuid
    pub shared_passes : shared_issues type index resource_ids resource ≡ []
    pub kind_passes : (kind_issues index volume_ids resource).0 ≡ []

  pub validate_resources-IsChecked :
      (type : ProjectType) (index : ℕ) (resource_ids volume_ids : List Uuid)
      (resources : List (Resource D)) {resource : Resource D}
      → validate_resources type index resource_ids volume_ids resources ≡ []
      → Memᴰ resource resources
      → IsChecked type resource
  unfolding validate_resources
  validate_resources-IsChecked type index resource_ids volume_ids [] h m = elim m [ ]
  validate_resources-IsChecked type index resource_ids volume_ids (r ∷ rs) h m =
      let (shared_part, rest) = append-empty (shared_issues type index resource_ids r) _ h in
      let (kind_part, others) = append-empty (kind_issues index volume_ids r).0 _ rest in
      elim m [
        | Memᴰ.head e ↦ rw e (record {
          index = index;
          resource_ids = resource_ids;
          volume_ids = volume_ids;
          shared_passes = shared_part;
          kind_passes = kind_part;
        })
        | Memᴰ.tail m' ↦ validate_resources-IsChecked type (index + 1) _ _ rs others m'
      ]

  not_below :
      (pointer message : String) (value maximum : D)
      → IsDecimal D
      → validate_decimal_range pointer value nought maximum false message ≡ []
      → (nought ≼ value) × (value ≼ maximum)
  unfolding validate_decimal_range
  not_below pointer message value maximum laws h =
      let e = push_if-empty _ _ h in
      (
        le_of_not-lt laws value nought (ground arith),
        le_of_not-lt laws maximum value (ground arith),
      )

  above :
      (pointer message : String) (value maximum : D)
      → IsDecimal D
      → validate_decimal_range pointer value nought maximum true message ≡ []
      → (nought < value) ≡ true
  unfolding validate_decimal_range
  above pointer message value maximum laws h =
      let e : ((value <= nought) || (maximum < value)) ≡ false = push_if-empty _ _ h in
      ground (arith, laws.order.flips value nought)

  -- what the checks of every resource say of its hours and its memory
  pub IsChecked-hours :
      IsDecimal D
      → (type : ProjectType) (resource : Resource D) → IsChecked type resource
      → (nought ≼ (shared resource).annual_hours_per_instance)
        × ((nought < (shared resource).source_ram_gb_per_instance) ≡ true)
  unfolding shared_issues
  IsChecked-hours laws type resource c =
      let (kind, (id, (name, (server, (quantity, (size, (ram, (hours, end)))))))) =
        concat-empty (shared_checks type c.index c.resource_ids resource) c.shared_passes in
      ((not_below _ _ _ _ laws hours).0, above _ _ _ _ laws ram)

  override_nonneg :
      IsDecimal D
      → (power : Option D) (watts : D) → power ≡ some watts
      → is_some_and power (λ p. p <= nought) ≡ false
      → nought ≼ watts
  override_nonneg laws power watts e h =
      let h' = rw e at h in
      ground (arith, laws.order.flips nought watts, laws.order.flips watts nought)

  pub IsChecked-on_prem :
      (laws : IsDecimal D) (type : ProjectType) (resource : OnPremResource D)
      → IsChecked type (Resource.on_prem resource)
      → IsOnPremInput laws resource
  unfolding shared_issues kind_issues on_prem_resource_issues
  IsChecked-on_prem laws type resource c =
      let (kind, (id, (name, (server, (quantity, (size, (ram, (hours, end)))))))) =
        concat-empty (shared_checks type c.index c.resource_ids (Resource.on_prem resource))
          c.shared_passes in
      let (vcpu, (cores, (iops, (capex, (years, (power, end')))))) =
        concat-empty (on_prem_resource_checks c.index resource) c.kind_passes in
      let ram' = above _ _ _ _ laws ram in
      record {
        hours = (not_below _ _ _ _ laws hours).0;
        ram = ground (arith, laws.order.flips nought resource.shared.source_ram_gb_per_instance);
        size = (not_below _ _ _ _ laws size).0;
        capex = le_of_not-lt laws _ nought (push_if-empty _ _ capex);
        years = above _ _ _ _ laws years;
        power = λ watts e. override_nonneg laws _ watts e (push_if-empty _ _ power);
      }
