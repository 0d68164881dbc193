-- ===== src/Vm/Laws/DiskCosts.antt =====
-- The cost, in rust/src/calculation/cost.rs, of a disk that
-- rust/src/calculation/vm_target_selector.rs selects.
use tco_calculator.Prelude.{◌≡◌, refl, ◌⊎◌, inl, inr, String, none, some, ok, Option-cases}
use tco_calculator.Decimal.{Decimal, IsDecimal, ◌+◌, ◌*◌, ◌≼◌, nought}
use tco_calculator.Decimal.Signs.{≼_trans, not-lt_of_le, nonneg-from, nonneg-plus, le-plus}
use tco_calculator.Cost.Types.{AzureManagedDiskRateSet}
use tco_calculator.Cost.Rates.{validate_rate}
use tco_calculator.Cost.Volumes.{calculate_azure_managed_disk_monthly}
use tco_calculator.Vm.Types.{ManagedDiskCatalog, VmVolumeRequirement, SelectedManagedDisk}
use tco_calculator.Vm.Disks.{select_disk}
use tco_calculator.Vm.Disks.Laws.{select_disk-IsDiskFor}

module _ {D : Type 0} ⦃d : Decimal D⦄ (laws : IsDecimal D) where
  validate_rate_accepts : (v : D) → nought ≼ v → validate_rate v ≡ ok tt
  unfolding validate_rate
  validate_rate_accepts v h = rw (not-lt_of_le laws v nought h) refl

  tier_cost :
      (disk : SelectedManagedDisk D) (rate : AzureManagedDiskRateSet D) (key : String)
      → disk.tier_key ≡ some key
      → nought ≼ rate.capacity_monthly
      → calculate_azure_managed_disk_monthly disk rate ≡ ok rate.capacity_monthly
  unfolding calculate_azure_managed_disk_monthly
  tier_cost disk rate key e h = rw (e, validate_rate_accepts rate.capacity_monthly h) refl

  capacity_cost :
      (disk : SelectedManagedDisk D) (rate : AzureManagedDiskRateSet D) (iops throughput : D)
      → disk.tier_key ≡ none
      → nought ≼ rate.capacity_monthly
      → rate.additional_iops_monthly_per_unit ≡ some iops
      → nought ≼ iops
      → rate.additional_throughput_monthly_per_mbps ≡ some throughput
      → nought ≼ throughput
      → calculate_azure_managed_disk_monthly disk rate
        ≡ ok (
            disk.capacity_gb * rate.capacity_monthly
            + d.from disk.billed_additional_iops * iops
            + disk.billed_additional_throughput_mbps * throughput)
  unfolding calculate_azure_managed_disk_monthly
  capacity_cost disk rate iops throughput e h i hi t ht =
      rw
        (
          e,
          validate_rate_accepts rate.capacity_monthly h,
          i,
          t,
          validate_rate_accepts iops hi,
          validate_rate_accepts throughput ht,
        )
        refl

  -- For a volume whose size is not negative, and rates that are given and not negative, the monthly
  -- cost of the disk that `select_disk` returns is computed without an error and is not negative. For a
  -- disk of a tier it is the rate of the tier, and for one that is priced by capacity it is at least
  -- the price of the capacity of the disk, which holds the volume.
  pub calculate_azure_managed_disk_monthly-select_disk :
      (catalog : ManagedDiskCatalog D) (region : String) (volume : VmVolumeRequirement D)
      (disk : SelectedManagedDisk D) (rate : AzureManagedDiskRateSet D) (iops throughput : D)
      → nought ≼ volume.capacity_gb
      → select_disk catalog region volume ≡ some disk
      → nought ≼ rate.capacity_monthly
      → rate.additional_iops_monthly_per_unit ≡ some iops
      → nought ≼ iops
      → rate.additional_throughput_monthly_per_mbps ≡ some throughput
      → nought ≼ throughput
      → (cost : D) × (calculate_azure_managed_disk_monthly disk rate ≡ ok cost)
        × (nought ≼ cost)
        × (((key : String) × (disk.tier_key ≡ some key) × (cost ≡ rate.capacity_monthly))
            ⊎ ((disk.tier_key ≡ none)
                × (volume.capacity_gb ≼ disk.capacity_gb)
                × ((disk.capacity_gb * rate.capacity_monthly) ≼ cost)))
  calculate_azure_managed_disk_monthly-select_disk catalog region volume disk rate iops throughput
        size selected h i hi t ht =
      let for_volume = select_disk-IsDiskFor laws catalog region volume disk size selected in
      elim (Option-cases disk.tier_key) [
        | inr (key, e) ↦ (rate.capacity_monthly, tier_cost disk rate key e h, h, inl (key, e, refl))
        | inl e ↦
            let capacity =
              laws.times_nonneg disk.capacity_gb rate.capacity_monthly
                (≼_trans laws nought _ _ size for_volume.capacity) h in
            let more = laws.times_nonneg _ iops (nonneg-from laws disk.billed_additional_iops) hi in
            let faster = laws.times_nonneg _ throughput for_volume.billed ht in
            (
              _,
              capacity_cost disk rate iops throughput e h i hi t ht,
              nonneg-plus laws _ _ (nonneg-plus laws _ _ capacity more) faster,
              inr (
                e,
                for_volume.capacity,
                ≼_trans laws _ _ _ (le-plus laws _ _ more) (le-plus laws _ _ faster),
              ),
            )
      ]
