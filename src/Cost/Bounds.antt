-- ===== src/Cost/Bounds.antt =====
-- What it is for a breakdown that rust/src/calculation/cost.rs returns to be consistent.
pub mod Aws
pub mod OnPrem
pub mod Azure
use tco_calculator.Prelude.{◌≡◌, refl, true}
use tco_calculator.Decimal.{Decimal, IsDecimal, ◌+◌, ◌*◌, ◌≼◌, nought, is_percent}
use tco_calculator.Decimal.Signs.{≼_refl, ≼_trans, nonneg-plus, le-plus, le-plus_left}
use tco_calculator.Domain.Project.{ProjectSettings}
use tco_calculator.Cost.Types.{SourceCostBreakdown, AzureCostBreakdown}
use tco_calculator.Cost.Rates.{apply_discount, source_costs}
use tco_calculator.Cost.Signs.{apply_discount_bounds}

module _ {D : Type 0} ⦃d : Decimal D⦄ where
  -- The discounts lie between 0 and 1, which `validate_settings` of rust/src/domain/project.rs checks.
  pub record HasDiscounts (settings : ProjectSettings D) : Type 0 where
    pub source_compute : is_percent settings.source_compute_discount ≡ true
    pub source_license : is_percent settings.source_license_discount ≡ true
    pub source_storage : is_percent settings.source_storage_discount ≡ true
    pub azure_compute : is_percent settings.azure_compute_discount ≡ true
    pub azure_license : is_percent settings.azure_license_discount ≡ true
    pub azure_storage : is_percent settings.azure_storage_discount ≡ true

  -- No net amount, no hardware and no electricity is negative, no net amount is above its gross
  -- amount, the hardware is within the net compute, and the total is the sum of the net amounts and the
  -- electricity, and at least each of them.
  pub record IsConsistent (s : SourceCostBreakdown D) : Type 0 where
    pub compute_nonneg : nought ≼ s.compute_net
    pub compute_le : s.compute_net ≼ s.compute_gross
    pub license_nonneg : nought ≼ s.license_net
    pub license_le : s.license_net ≼ s.license_gross
    pub storage_nonneg : nought ≼ s.storage_net
    pub storage_le : s.storage_net ≼ s.storage_gross
    pub hardware_nonneg : nought ≼ s.hardware_annual
    pub hardware_le : s.hardware_annual ≼ s.compute_net
    pub electricity_nonneg : nought ≼ s.electricity_annual
    pub sum : s.total ≡ s.compute_net + s.license_net + s.storage_net + s.electricity_annual
    pub compute-le-total : s.compute_net ≼ s.total
    pub license-le-total : s.license_net ≼ s.total
    pub storage-le-total : s.storage_net ≼ s.total
    pub electricity-le-total : s.electricity_annual ≼ s.total

  -- The same of an Azure breakdown, whose compute and additional memory have one net amount.
  pub record IsConsistentAzure (a : AzureCostBreakdown D) : Type 0 where
    pub gross_nonneg : nought ≼ a.compute_gross
    pub ram_nonneg : nought ≼ a.additional_ram_gross
    pub compute_nonneg : nought ≼ a.compute_plus_ram_net
    pub compute_le : a.compute_plus_ram_net ≼ (a.compute_gross + a.additional_ram_gross)
    pub license_nonneg : nought ≼ a.license_net
    pub license_le : a.license_net ≼ a.license_gross
    pub storage_nonneg : nought ≼ a.storage_net
    pub storage_le : a.storage_net ≼ a.storage_gross
    pub sum : a.total_before_parity ≡ a.compute_plus_ram_net + a.license_net + a.storage_net
    pub compute-le-total : a.compute_plus_ram_net ≼ a.total_before_parity
    pub license-le-total : a.license_net ≼ a.total_before_parity
    pub storage-le-total : a.storage_net ≼ a.total_before_parity

module _ {D : Type 0} ⦃d : Decimal D⦄ (laws : IsDecimal D) where
  -- a sum is at least each of its summands
  pub le-sum :
      (a b c : D)
      → nought ≼ a
      → nought ≼ b
      → nought ≼ c
      → (a ≼ (a + b + c)) × (b ≼ (a + b + c)) × (c ≼ (a + b + c))
  le-sum a b c h k l = (
    ≼_trans laws _ _ _ (le-plus laws a b k) (le-plus laws _ c l),
    ≼_trans laws _ _ _ (le-plus_left laws b a h) (le-plus laws _ c l),
    le-plus_left laws c _ (nonneg-plus laws a b h k),
  )

  -- a breakdown of amounts that are within bounds
  pub within-IsConsistent :
      (compute compute' license license' storage storage' hardware electricity : D)
      → (nought ≼ compute') × (compute' ≼ compute)
      → (nought ≼ license') × (license' ≼ license)
      → (nought ≼ storage') × (storage' ≼ storage)
      → (nought ≼ hardware) × (hardware ≼ compute')
      → nought ≼ electricity
      → IsConsistent
          (source_costs compute compute' license license' storage storage' hardware electricity)
  unfolding source_costs
  within-IsConsistent compute compute' license license' storage storage' hardware electricity c l s
        hw e =
      let (t1, t2, t3) = le-sum compute' license' storage' c.0 l.0 s.0 in
      let part = le-plus laws (compute' + license' + storage') electricity e in
      record {
        compute_nonneg = c.0;
        compute_le = c.1;
        license_nonneg = l.0;
        license_le = l.1;
        storage_nonneg = s.0;
        storage_le = s.1;
        hardware_nonneg = hw.0;
        hardware_le = hw.1;
        electricity_nonneg = e;
        sum = refl;
        compute-le-total = ≼_trans laws _ _ _ t1 part;
        license-le-total = ≼_trans laws _ _ _ t2 part;
        storage-le-total = ≼_trans laws _ _ _ t3 part;
        electricity-le-total = le-plus_left laws electricity _ (≼_trans laws _ _ _ c.0 t1);
      }

  pub source_costs-IsConsistent :
      (compute license storage electricity dc dl ds : D)
      → nought ≼ compute
      → nought ≼ license
      → nought ≼ storage
      → nought ≼ electricity
      → is_percent dc ≡ true
      → is_percent dl ≡ true
      → is_percent ds ≡ true
      → IsConsistent (
          source_costs compute
            (apply_discount compute dc)
            license
            (apply_discount license dl)
            storage
            (apply_discount storage ds)
            nought
            electricity)
  source_costs-IsConsistent compute license storage electricity dc dl ds c l s e pc pl ps =
      let bounds = apply_discount_bounds laws compute dc c pc in
      within-IsConsistent _ _ _ _ _ _ _ _ bounds (apply_discount_bounds laws license dl l pl)
        (apply_discount_bounds laws storage ds s ps) (≼_refl laws nought, bounds.0) e

  pub product3 : (a b c : D) → nought ≼ a → nought ≼ b → nought ≼ c → nought ≼ (a * b * c)
  product3 a b c h k l = laws.times_nonneg (a * b) c (laws.times_nonneg a b h k) l
