-- ===== src/Cost/Bounds/Azure.antt =====
-- The Azure breakdowns in rust/src/calculation/cost.rs.
use tco_calculator.Prelude.{ℕ, ◌≡◌, refl, ok, done, Ensures-then, Ensures-eq-ok, arith, fail_if}
use tco_calculator.Decimal.{Decimal, IsDecimal, ◌-◌, ◌<◌, ◌≼◌, nought}
use tco_calculator.Decimal.Signs.{
  ≼_refl, ≼_trans, le_of_not-lt, nonneg-from, nonneg-plus, le-plus, nonneg-max,
}
use tco_calculator.Domain.Project.{ProjectSettings}
use tco_calculator.Cost.Types.{AzureCostBreakdown, AzureRate, invalid_azure_vm_rate_components}
use tco_calculator.Cost.Azure.{azure_mi_billable_storage_gb, calculate_azure, calculate_azure_vm}
use tco_calculator.Cost.Signs.{after_rate, apply_discount_bounds}
use tco_calculator.Cost.Bounds.{HasDiscounts, IsConsistentAzure, le-sum, product3}

module _ {D : Type 0} ⦃d : Decimal D⦄ (laws : IsDecimal D) where
  -- For hours that are not negative and discounts between 0 and 1, the breakdown of a managed
  -- instance is consistent.
  pub calculate_azure-IsConsistent :
      (instances : ℕ) (hours storage included selected : D) (rate : AzureRate D)
      (settings : ProjectSettings D) (a : AzureCostBreakdown D)
      → nought ≼ hours
      → HasDiscounts settings
      → calculate_azure instances hours storage included selected rate settings ≡ ok a
      → IsConsistentAzure a × (nought ≼ a.additional_ram_gb)
  unfolding calculate_azure azure_mi_billable_storage_gb
  calculate_azure-IsConsistent instances hours storage included selected rate settings a nonneg p
        h =
      let quantity = nonneg-from laws instances in
      Ensures-eq-ok {P = λ a. IsConsistentAzure a × (nought ≼ a.additional_ram_gb)}
        (after_rate laws rate.compute_hourly λ compute.
          after_rate laws rate.license_hourly λ license.
            after_rate laws rate.storage_monthly_per_gb λ monthly.
              after_rate laws rate.additional_memory_per_gb_hourly λ memory.
                let ram = nonneg-max laws (selected - included) in
                let compute_gross = product3 laws _ _ _ quantity nonneg compute in
                let ram_gross =
                  laws.times_nonneg _ _ (product3 laws _ _ _ quantity nonneg ram) memory in
                let gross = nonneg-plus laws _ _ compute_gross ram_gross in
                let (c1, c2) = apply_discount_bounds laws _ _ gross p.azure_compute in
                let (l1, l2) =
                  apply_discount_bounds laws _ _ (product3 laws _ _ _ quantity nonneg license)
                    p.azure_license in
                let (s1, s2) =
                  apply_discount_bounds laws _ _
                    (laws.times_nonneg _ _
                      (product3 laws _ _ _ quantity (nonneg-max laws _) (nonneg-from laws 12))
                      monthly)
                    p.azure_storage in
                let (t1, t2, t3) = le-sum laws _ _ _ c1 l1 s1 in
                done (
                  record {
                    gross_nonneg = compute_gross;
                    ram_nonneg = ram_gross;
                    compute_nonneg = c1;
                    compute_le = c2;
                    license_nonneg = l1;
                    license_le = l2;
                    storage_nonneg = s1;
                    storage_le = s2;
                    sum = refl;
                    compute-le-total = t1;
                    license-le-total = t2;
                    storage-le-total = t3;
                  },
                  ram,
                ))
        h

  -- For hours that are not negative and discounts between 0 and 1, `calculate_azure_vm` returns a
  -- breakdown that is consistent, and only for a license rate that is at most the total rate.
  pub calculate_azure_vm-IsConsistent :
      (instances : ℕ) (hours total license disks : D) (settings : ProjectSettings D)
      (a : AzureCostBreakdown D)
      → nought ≼ hours
      → HasDiscounts settings
      → calculate_azure_vm instances hours total license disks settings ≡ ok a
      → IsConsistentAzure a × (license ≼ total)
  unfolding calculate_azure_vm
  calculate_azure_vm-IsConsistent instances hours total license disks settings a nonneg p h =
      let quantity = nonneg-from laws instances in
      Ensures-eq-ok {P = λ a. IsConsistentAzure a × (license ≼ total)}
        (after_rate laws total λ _. after_rate laws license λ hl. after_rate laws disks λ hd.
          Ensures-then (fail_if (total < license) invalid_azure_vm_rate_components) λ t e.
            let covered : license ≼ total = le_of_not-lt laws total license (ground arith) in
            let compute_gross =
              product3 laws _ _ _ quantity nonneg (laws.minus_nonneg _ _ covered) in
            let (c1, c2) = apply_discount_bounds laws _ _ compute_gross p.azure_compute in
            let (l1, l2) =
              apply_discount_bounds laws _ _ (product3 laws _ _ _ quantity nonneg hl)
                p.azure_license in
            let (s1, s2) =
              apply_discount_bounds laws _ _ (product3 laws _ _ _ quantity (nonneg-from laws 12) hd)
                p.azure_storage in
            let (t1, t2, t3) = le-sum laws _ _ _ c1 l1 s1 in
            done (
              record {
                gross_nonneg = compute_gross;
                ram_nonneg = ≼_refl laws nought;
                compute_nonneg = c1;
                compute_le = ≼_trans laws _ _ _ c2 (le-plus laws _ _ (≼_refl laws nought));
                license_nonneg = l1;
                license_le = l2;
                storage_nonneg = s1;
                storage_le = s2;
                sum = refl;
                compute-le-total = t1;
                license-le-total = t2;
                storage-le-total = t3;
              },
              covered,
            ))
        h
