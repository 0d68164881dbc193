-- ===== src/Cost/Bounds/Aws.antt =====
-- The breakdowns of EC2, EC2 virtual machine and RDS sources in rust/src/calculation/cost.rs.
use tco_calculator.Prelude.{
  ◌≡◌, Option, List, All, All-Memᴰ, ok, ok_or, Ensures, done, Ensures-bind, Ensures-then,
  Ensures-if, Ensures-try_fold, Ensures-eq-ok,
}
use tco_calculator.Decimal.{Decimal, IsDecimal, ◌*◌, ◌≼◌, nought}
use tco_calculator.Decimal.Signs.{≼_refl, nonneg-from, nonneg-plus}
use tco_calculator.Domain.Resource.{
  ephemeral, volume_type_eq, EbsVolume, VmVolume, Ec2Resource, Ec2VmResource, RdsResource,
  LicenseBasis, license_included, byol, SqlEdition,
}
use tco_calculator.Domain.Project.{ProjectSettings}
use tco_calculator.Cost.Types.{SourceCostBreakdown, Ec2Rate, EbsRate, RdsRate, missing_ebs_rate}
use tco_calculator.Cost.Rates.{source_license_hourly}
use tco_calculator.Cost.Volumes.{calculate_ebs_volume_monthly, calculate_vm_volume_monthly}
use tco_calculator.Cost.Source.{
  find_rate, add_ebs_volume, add_vm_volume, calculate_ec2_source, calculate_ec2_vm_source,
  calculate_rds_source,
}
use tco_calculator.Cost.Signs.{
  IsNonneg, after_rate, apply_discount_bounds, calculate_volume_monthly-IsNonneg,
}
use tco_calculator.Cost.Bounds.{
  HasDiscounts, IsConsistent, within-IsConsistent, source_costs-IsConsistent, product3,
}

module _ {D : Type 0} ⦃d : Decimal D⦄ (laws : IsDecimal D) where
  add_ebs_volume-IsNonneg :
      (rates : List (EbsRate D)) (total : D) (v : EbsVolume D)
      → nought ≼ v.capacity_gb
      → nought ≼ total
      → Ensures IsNonneg (add_ebs_volume rates total v)
  unfolding add_ebs_volume calculate_ebs_volume_monthly
  add_ebs_volume-IsNonneg rates total v c h =
      Ensures-if (volume_type_eq v.volume_type ephemeral) (λ _. done h)
        (λ _.
          Ensures-then (ok_or (find_rate v.volume_type rates) (missing_ebs_rate v.volume_type))
            λ rate _.
              Ensures-bind
                (calculate_volume_monthly-IsNonneg laws v.volume_type v.capacity_gb
                  v.provisioned_iops v.throughput_mibps rate c)
                λ m hm. done (nonneg-plus laws total m h hm))

  add_vm_volume-IsNonneg :
      (rates : List (EbsRate D)) (total : D) (v : VmVolume D)
      → nought ≼ v.capacity_gb
      → nought ≼ total
      → Ensures IsNonneg (add_vm_volume rates total v)
  unfolding add_vm_volume calculate_vm_volume_monthly
  add_vm_volume-IsNonneg rates total v c h =
      Ensures-if (volume_type_eq v.volume_type ephemeral) (λ _. done h)
        (λ _.
          Ensures-then (ok_or (find_rate v.volume_type rates) (missing_ebs_rate v.volume_type))
            λ rate _.
              Ensures-bind
                (calculate_volume_monthly-IsNonneg laws v.volume_type v.capacity_gb
                  v.provisioned_iops v.throughput_mibps rate c)
                λ m hm. done (nonneg-plus laws total m h hm))

  source_license_hourly-IsNonneg :
      (basis : LicenseBasis) (edition : SqlEdition) (standard_rate enterprise_rate : Option D)
      → Ensures IsNonneg (source_license_hourly basis edition standard_rate enterprise_rate)
  unfolding source_license_hourly
  source_license_hourly-IsNonneg byol edition s e = done (≼_refl laws nought)
  source_license_hourly-IsNonneg license_included edition s e =
      Ensures-then _ λ rate _. after_rate laws rate λ h. done h

  -- For hours and volume sizes that are not negative and discounts between 0 and 1, the breakdown of
  -- an EC2 source is consistent.
  pub calculate_ec2_source-IsConsistent :
      (resource : Ec2Resource D) (rate : Ec2Rate D) (ebs_rates : List (EbsRate D))
      (settings : ProjectSettings D) (s : SourceCostBreakdown D)
      → nought ≼ resource.shared.annual_hours_per_instance
      → All (λ (v : EbsVolume D). nought ≼ v.capacity_gb) resource.volumes
      → HasDiscounts settings
      → calculate_ec2_source resource rate ebs_rates settings ≡ ok s
      → IsConsistent s
  unfolding calculate_ec2_source
  calculate_ec2_source-IsConsistent resource rate ebs_rates settings s hours sizes p h =
      Ensures-eq-ok {P = IsConsistent}
        (after_rate laws rate.compute_hourly λ compute.
          Ensures-bind
            (source_license_hourly-IsNonneg resource.sql.license_basis resource.sql.sql_edition
              rate.standard_license_hourly rate.enterprise_license_hourly)
            λ license hl.
              Ensures-bind
                (Ensures-try_fold {P = IsNonneg} (add_ebs_volume ebs_rates) nought resource.volumes
                  (λ t v m ht.
                    add_ebs_volume-IsNonneg ebs_rates t v
                      (All-Memᴰ (λ (v : EbsVolume D). nought ≼ v.capacity_gb) sizes m) ht)
                  (≼_refl laws nought))
                λ storage hs. done (
                  source_costs-IsConsistent laws _ _ _ nought _ _ _
                    (product3 laws _ _ _ (nonneg-from laws resource.shared.quantity) hours compute)
                    (product3 laws _ _ _ (nonneg-from laws resource.shared.quantity) hours hl)
                    (product3 laws _ _ _ (nonneg-from laws resource.shared.quantity)
                      (nonneg-from laws 12) hs)
                    (≼_refl laws nought) p.source_compute p.source_license p.source_storage))
        h

  -- For hours and volume sizes that are not negative and discounts between 0 and 1, the breakdown of
  -- an EC2 virtual machine source is consistent.
  pub calculate_ec2_vm_source-IsConsistent :
      (resource : Ec2VmResource D) (rate : Ec2Rate D) (ebs_rates : List (EbsRate D))
      (settings : ProjectSettings D) (s : SourceCostBreakdown D)
      → nought ≼ resource.shared.annual_hours_per_instance
      → All (λ (v : VmVolume D). nought ≼ v.capacity_gb) resource.volumes
      → HasDiscounts settings
      → calculate_ec2_vm_source resource rate ebs_rates settings ≡ ok s
      → IsConsistent s
  unfolding calculate_ec2_vm_source
  calculate_ec2_vm_source-IsConsistent resource rate ebs_rates settings s hours sizes p h =
      let quantity = nonneg-from laws resource.shared.quantity in
      Ensures-eq-ok {P = IsConsistent}
        (after_rate laws rate.compute_hourly λ compute.
          Ensures-bind
            (Ensures-try_fold {P = IsNonneg} (add_vm_volume ebs_rates) nought resource.volumes
              (λ t v m ht.
                add_vm_volume-IsNonneg ebs_rates t v
                  (All-Memᴰ (λ (v : VmVolume D). nought ≼ v.capacity_gb) sizes m) ht)
              (≼_refl laws nought))
            λ storage hs.
              let bounds =
                apply_discount_bounds laws _ _ (product3 laws _ _ _ quantity hours compute)
                  p.source_compute in
              let stored =
                apply_discount_bounds laws _ _
                  (product3 laws _ _ _ quantity (nonneg-from laws 12) hs) p.source_storage in
              let zero_le = ≼_refl laws nought in
              done (
                within-IsConsistent laws _ _ _ _ _ _ _ _ bounds (zero_le, zero_le) stored
                  (zero_le, bounds.0) zero_le))
        h

  -- For hours and a data size that are not negative and discounts between 0 and 1, the breakdown of
  -- an RDS source is consistent.
  pub calculate_rds_source-IsConsistent :
      (resource : RdsResource D) (rate : RdsRate D) (settings : ProjectSettings D)
      (s : SourceCostBreakdown D)
      → nought ≼ resource.shared.annual_hours_per_instance
      → nought ≼ resource.sql.sql_data_gb_per_instance
      → HasDiscounts settings
      → calculate_rds_source resource rate settings ≡ ok s
      → IsConsistent s
  unfolding calculate_rds_source
  calculate_rds_source-IsConsistent resource rate settings s hours size p h =
      let quantity = nonneg-from laws resource.shared.quantity in
      Ensures-eq-ok {P = IsConsistent}
        (after_rate laws rate.effective_compute_hourly λ compute.
          after_rate laws rate.storage_monthly_per_gb λ storage. after_rate laws _ λ core. done (
            source_costs-IsConsistent laws _ _ _ nought _ _ _
              (product3 laws _ _ _ quantity hours compute)
              (license_nonneg resource.sql.license_basis _ core)
              (laws.times_nonneg _ _ (product3 laws _ _ _ quantity size (nonneg-from laws 12))
                storage)
              (≼_refl laws nought) p.source_compute p.source_license p.source_storage))
        h
    where
      license_nonneg :
          (basis : LicenseBasis) (core : D)
          → nought ≼ core
          → nought ≼ (elim basis [
            | byol ↦ nought
            | license_included ↦
                d.from resource.shared.quantity
                * resource.shared.annual_hours_per_instance
                * d.from rate.source_vcpu
                * core
          ])
      license_nonneg byol core k = ≼_refl laws nought
      license_nonneg license_included core k =
          laws.times_nonneg _ core
            (product3 laws _ _ _ (nonneg-from laws resource.shared.quantity) hours
              (nonneg-from laws rate.source_vcpu))
            k
