-- ===== src/Vm/Reasons.antt =====
-- The reasons against a candidate in `select_vm_target` of
-- rust/src/calculation/vm_target_selector.rs.
use Prim.Native.String.{◌++◌}
use tco_calculator.Prelude.{
  ℕ, ◌+◌, ◌%◌, ◌^◌, Bool, true, false, not, ◌&&◌, String, Option, none, some, List, [], ◌∷◌, append,
  concat, map, filter, filter_map, length, is_some, is_none, map_or, ltb, ◌==◌, if◌then◌else◌,
}
use tco_calculator.Prelude.Text.{show_ℕ}
use tco_calculator.Decimal.{Decimal, ◌+◌ as plus_D, ◌<◌, nought}
use tco_calculator.Domain.Resource.{VmDiskRole}
use tco_calculator.Vm.Types.{
  VmLineage, VmLifecycle, current, previous, VmSizeCandidate, ManagedDiskCatalog, SourceClass,
  VmVolumeRequirement, VmTargetSelectionRequest, SelectedManagedDisk, VmSelectionReasonCode,
  lifecycle_ineligible, windows_unsupported, architecture_unsupported, premium_io_unsupported,
  insufficient_vcpu, insufficient_memory, insufficient_local_temp_disk, data_disk_count_exceeded,
  no_eligible_disk_offer, aggregate_disk_iops_exceeded, aggregate_disk_throughput_exceeded,
  price_unavailable, VmSelectionReason,
}
use tco_calculator.Vm.Text.{eq_ignore_ascii_case}
use tco_calculator.Vm.Disks.{role_eq, unwrap_or, select_disk}
use tco_calculator.Vm.Prices.{managed_disk_price_is_complete, hourly_rate_of}

abbrev pub reason : VmSelectionReasonCode → String → VmSelectionReason
reason code detail = record { code = code; detail = detail }

-- `if b { rejection_reasons.push(r) }`
abbrev pub reject_if : Bool → VmSelectionReason → List VmSelectionReason
reject_if true r = r ∷ []
reject_if false r = []

-- `{:?}` of a lineage
abbrev pub debug_lineage : VmLineage → String
debug_lineage VmLineage.burstable = "Burstable"
debug_lineage VmLineage.general_purpose = "GeneralPurpose"
debug_lineage VmLineage.memory_optimized = "MemoryOptimized"

-- the derived `==`
abbrev pub lineage_eq : VmLineage → VmLineage → Bool
lineage_eq VmLineage.burstable VmLineage.burstable = true
lineage_eq VmLineage.general_purpose VmLineage.general_purpose = true
lineage_eq VmLineage.memory_optimized VmLineage.memory_optimized = true
lineage_eq _ _ = false

abbrev pub is_current : VmLifecycle → Bool
is_current current = true
is_current previous = false

unfoldable pub target_lineage : SourceClass → VmLineage
target_lineage SourceClass.burstable = VmLineage.burstable
target_lineage SourceClass.general_purpose = VmLineage.general_purpose
target_lineage SourceClass.memory_optimized = VmLineage.memory_optimized
target_lineage SourceClass.high_frequency_memory_optimized = VmLineage.memory_optimized

module _ {D : Type 0} ⦃d : Decimal D⦄ where
  abbrev pub is_data : VmVolumeRequirement D → Bool
  is_data volume = role_eq volume.role VmDiskRole.disk_data

  unfoldable pub data_disk_count : VmTargetSelectionRequest D → ℕ
  unfolding filter
  data_disk_count request = length (filter is_data request.volumes)

  -- the disks that the loop over the volumes pushes
  unfoldable pub disks_for :
      ManagedDiskCatalog D → VmTargetSelectionRequest D → List (SelectedManagedDisk D)
  unfolding filter_map select_disk
  disks_for disk_catalog request =
      filter_map (select_disk disk_catalog request.azure_region) request.volumes

  -- `Iterator::sum` of `u64`, which wraps in a release build; in which order does not matter.
  unfoldable pub sum_iops : List (SelectedManagedDisk D) → ℕ
  sum_iops [] = 0
  sum_iops (disk ∷ disks) = (disk.provisioned_iops + sum_iops disks) % 2 ^ 64

  -- `Iterator::sum`, from the left
  unfoldable pub sum_from : D → List D → D
  sum_from total [] = total
  sum_from total (x ∷ xs) = sum_from (plus_D total x) xs

  unfoldable pub sum_throughput : List (SelectedManagedDisk D) → D
  unfolding sum_from
  sum_throughput disks = sum_from nought (map (λ disk. disk.provisioned_throughput_mbps) disks)

  -- the tests before the disks are selected, each the reasons that it pushes
  abbrev pub capability_checks :
      VmTargetSelectionRequest D → VmSizeCandidate D → List (List VmSelectionReason)
  capability_checks request candidate =
      let name = candidate.arm_sku_name in
      let local = unwrap_or candidate.local_temp_disk_gb nought in
      (reject_if (not (is_current candidate.lifecycle))
          (reason lifecycle_ineligible (name ++ " is not a current generation."))
        ∷ reject_if (not candidate.windows_eligible)
            (reason windows_unsupported (name ++ " is not Windows eligible."))
        ∷ reject_if (not (eq_ignore_ascii_case candidate.cpu_architecture "x64")) (
            reason architecture_unsupported
              (name ++ " reports architecture " ++ candidate.cpu_architecture ++ "."))
        ∷ reject_if (not candidate.premium_io)
            (reason premium_io_unsupported (name ++ " does not support Premium I/O."))
        ∷ reject_if (ltb candidate.vcpus request.minimum_vcpu) (
            reason insufficient_vcpu (
              name
              ++ " provides "
              ++ show_ℕ candidate.vcpus
              ++ " vCPU against "
              ++ show_ℕ request.minimum_vcpu
              ++ " required."))
        ∷ reject_if (candidate.memory_gb < request.minimum_memory_gb) (
            reason insufficient_memory (
              name
              ++ " provides "
              ++ d.show candidate.memory_gb
              ++ " GiB against "
              ++ d.show request.minimum_memory_gb
              ++ " GiB required."))
        ∷ reject_if (request.requires_local_temp_disk && local < request.minimum_local_temp_disk_gb)
            (reason insufficient_local_temp_disk (
              name
              ++ " provides "
              ++ d.show local
              ++ " GiB of local temporary storage against "
              ++ d.show request.minimum_local_temp_disk_gb
              ++ " GiB required."))
        ∷ reject_if (ltb candidate.max_data_disk_count (data_disk_count request)) (
            reason data_disk_count_exceeded (
              name
              ++ " supports "
              ++ show_ℕ candidate.max_data_disk_count
              ++ " data disks against "
              ++ show_ℕ (data_disk_count request)
              ++ " required."))
        ∷ [])

  unfoldable pub capability_reasons :
      VmTargetSelectionRequest D → VmSizeCandidate D → List VmSelectionReason
  unfolding concat
  capability_reasons request candidate = concat (capability_checks request candidate)

  -- what the loop over the volumes pushes for a volume, if anything
  unfoldable pub missing_disk_reason :
      ManagedDiskCatalog D
      → VmTargetSelectionRequest D
      → VmVolumeRequirement D
      → Option VmSelectionReason
  unfolding select_disk show_ℕ
  missing_disk_reason disk_catalog request volume =
      if is_some (select_disk disk_catalog request.azure_region volume)
      then none
      else some (
          reason no_eligible_disk_offer (
            "No managed disk offer in "
            ++ request.azure_region
            ++ " satisfies volume "
            ++ volume.label
            ++ " at "
            ++ d.show volume.capacity_gb
            ++ " GiB, "
            ++ show_ℕ volume.iops
            ++ " IOPS, and "
            ++ d.show volume.throughput_mbps
            ++ " MB/s."))

  unfoldable pub missing_disk_reasons :
      ManagedDiskCatalog D → VmTargetSelectionRequest D → List VmSelectionReason
  unfolding filter_map missing_disk_reason
  missing_disk_reasons disk_catalog request =
      filter_map (missing_disk_reason disk_catalog request) request.volumes

  abbrev pub aggregate_checks :
      VmTargetSelectionRequest D
      → VmSizeCandidate D
      → List (SelectedManagedDisk D)
      → List (List VmSelectionReason)
  aggregate_checks request candidate disks =
      let name = candidate.arm_sku_name in
      (reject_if (ltb candidate.uncached_disk_iops (sum_iops disks)) (
          reason aggregate_disk_iops_exceeded (
            name
            ++ " allows "
            ++ show_ℕ candidate.uncached_disk_iops
            ++ " uncached disk IOPS against "
            ++ show_ℕ (sum_iops disks)
            ++ " required."))
        ∷ reject_if (d.from candidate.uncached_disk_throughput_mbps < sum_throughput disks) (
            reason aggregate_disk_throughput_exceeded (
              name
              ++ " allows "
              ++ show_ℕ candidate.uncached_disk_throughput_mbps
              ++ " MB/s of uncached disk throughput against "
              ++ d.show (sum_throughput disks)
              ++ " MB/s required."))
        ∷ [])

  unfoldable pub aggregate_reasons :
      VmTargetSelectionRequest D
      → VmSizeCandidate D
      → List (SelectedManagedDisk D)
      → List VmSelectionReason
  unfolding concat
  aggregate_reasons request candidate disks =
      if length disks == length request.volumes
      then concat (aggregate_checks request candidate disks)
      else []

  -- the reasons of the rates, with the loop over the disks
  unfoldable pub price_reasons :
      VmTargetSelectionRequest D
      → VmSizeCandidate D
      → List (SelectedManagedDisk D)
      → List VmSelectionReason
  unfolding append filter_map hourly_rate_of managed_disk_price_is_complete
  price_reasons request candidate disks =
      append
        (reject_if
          (is_some request.price_availability && is_none (hourly_rate_of request candidate))
          (reason price_unavailable (
            candidate.arm_sku_name
            ++ " does not have a PAYG VM rate in the coherent target snapshot.")))
        (map_or request.price_availability [] λ availability.
          filter_map
            (λ disk.
              if managed_disk_price_is_complete availability disk
              then none
              else some (
                  reason price_unavailable (
                    "Managed disk "
                    ++ unwrap_or disk.tier_key disk.offer_key
                    ++ " for volume "
                    ++ disk.label
                    ++ " is missing a required coherent price dimension.")))
            disks)

  abbrev pub rejection_checks :
      ManagedDiskCatalog D
      → VmTargetSelectionRequest D
      → VmSizeCandidate D
      → List (List VmSelectionReason)
  rejection_checks disk_catalog request candidate =
      let disks = disks_for disk_catalog request in
      (capability_reasons request candidate
        ∷ missing_disk_reasons disk_catalog request
        ∷ aggregate_reasons request candidate disks
        ∷ price_reasons request candidate disks
        ∷ [])

  -- `rejection_reasons` at the end of the loop's body
  unfoldable pub rejection_reasons :
      ManagedDiskCatalog D → VmTargetSelectionRequest D → VmSizeCandidate D → List VmSelectionReason
  unfolding concat
  rejection_reasons disk_catalog request candidate =
      concat (rejection_checks disk_catalog request candidate)
