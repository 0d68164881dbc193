-- ===== src/Cost/Volumes.antt =====
-- Volumes and managed disks in rust/src/calculation/cost.rs.
use tco_calculator.Prelude.{
  ℕ, ◌-◌, max, not, Option, filter, map_or, is_some, if◌then◌else◌, ◌==◌ as nat_eq, Result, ok, err,
  ◌>>=◌, ◌>>◌, ok_or, try_fold,
}
use tco_calculator.Decimal.{Decimal, ◌+◌, ◌-◌ as minus, ◌*◌, ◌==◌, nought, max_decimal}
use tco_calculator.Domain.Resource.{
  EbsVolumeType, io2, ephemeral, volume_type_eq, EbsVolume, VmVolume, Ec2Resource,
}
use tco_calculator.Vm.Types.{SelectedManagedDisk}
use tco_calculator.Cost.Types.{
  EbsRate, AzureManagedDiskRateSet, CostError, missing_ebs_rate, missing_provisioned_iops,
  missing_azure_managed_disk_rate,
}
use tco_calculator.Cost.Rates.{validate_rate, tiered_iops_cost}

module _ {D : Type 0} ⦃d : Decimal D⦄ where
  -- the `iops` of `calculate_volume_monthly`
  unfoldable pub iops_cost : EbsRate D → ℕ → Result CostError D
  iops_cost rate billable_iops =
      if volume_type_eq rate.volume_type io2
      then tiered_iops_cost billable_iops rate.iops_tiers
      else map_or rate.iops_monthly_per_unit
          (if nat_eq billable_iops 0 then ok nought else err (missing_ebs_rate rate.volume_type))
          (λ iops_rate. do validate_rate iops_rate; ok (d.from billable_iops * iops_rate))

  -- the billed `throughput`
  unfoldable pub extra_throughput : EbsRate D → Option D → D
  extra_throughput rate throughput_mibps =
      map_or throughput_mibps nought
        (λ throughput. max_decimal (minus throughput rate.included_throughput_mibps) nought)

  -- the `throughput_cost`
  unfoldable pub throughput_cost : EbsRate D → D → Result CostError D
  throughput_cost rate throughput =
      map_or rate.throughput_monthly_per_mibps
        (if volume_type_eq rate.volume_type io2
          then ok nought
          else if throughput == nought
          then ok nought
          else err (missing_ebs_rate rate.volume_type))
        (λ throughput_rate. do validate_rate throughput_rate; ok (throughput * throughput_rate))

  unfoldable pub calculate_volume_monthly :
      EbsVolumeType → D → Option ℕ → Option D → EbsRate D → Result CostError D
  unfolding iops_cost throughput_cost extra_throughput
  calculate_volume_monthly volume_type capacity_gb provisioned_iops throughput_mibps rate =
      if volume_type_eq volume_type ephemeral then ok nought else do
        validate_rate rate.capacity_monthly_per_gb
        provisioned_iops ← ok_or provisioned_iops missing_provisioned_iops
        let capacity = capacity_gb * rate.capacity_monthly_per_gb
        iops ← iops_cost rate (provisioned_iops - rate.included_iops)
        throughput ← throughput_cost rate (extra_throughput rate throughput_mibps)
        ok (capacity + iops + throughput)

  unfoldable pub calculate_ebs_volume_monthly : EbsVolume D → EbsRate D → Result CostError D
  calculate_ebs_volume_monthly volume rate =
      calculate_volume_monthly volume.volume_type volume.capacity_gb volume.provisioned_iops
        volume.throughput_mibps rate

  unfoldable pub calculate_vm_volume_monthly : VmVolume D → EbsRate D → Result CostError D
  calculate_vm_volume_monthly volume rate =
      calculate_volume_monthly volume.volume_type volume.capacity_gb volume.provisioned_iops
        volume.throughput_mibps rate

  unfoldable pub calculate_azure_managed_disk_monthly :
      SelectedManagedDisk D → AzureManagedDiskRateSet D → Result CostError D
  calculate_azure_managed_disk_monthly disk rate =
      validate_rate rate.capacity_monthly
      >> (if is_some disk.tier_key then ok rate.capacity_monthly else do
        iops_rate ← ok_or rate.additional_iops_monthly_per_unit missing_azure_managed_disk_rate
        throughput_rate ←
            ok_or rate.additional_throughput_monthly_per_mbps missing_azure_managed_disk_rate
        validate_rate iops_rate
        validate_rate throughput_rate
        ok (
            disk.capacity_gb * rate.capacity_monthly
            + d.from disk.billed_additional_iops * iops_rate
            + disk.billed_additional_throughput_mbps * throughput_rate))

-- the fold of `source_max_iops`
abbrev pub larger_iops : {D : Type 0} → ℕ → EbsVolume D → Result CostError ℕ
larger_iops maximum volume = do
  iops ← ok_or volume.provisioned_iops missing_provisioned_iops
  ok (max maximum iops)

unfoldable pub source_max_iops : {D : Type 0} → Ec2Resource D → Result CostError ℕ
source_max_iops resource =
    try_fold larger_iops 0
      (filter (λ volume. not (volume_type_eq volume.volume_type ephemeral)) resource.volumes)
