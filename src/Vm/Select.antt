-- ===== src/Vm/Select.antt =====
-- `select_vm_target` of rust/src/calculation/vm_target_selector.rs.
use Prim.Native.Nat.{Ordering, compare}
use Prim.Native.String.{◌++◌, compare as compare_text}
use tco_calculator.Prelude.{
  ℕ, Bool, not, String, Option, none, some, List, [], ◌∷◌, map, filter, filter_map, first, length,
  is_empty, map_or, ◌==◌, Result, ok, ◌>>◌, fail_if,
}
use tco_calculator.Ordering.{then_with}
use tco_calculator.Ordering.Extremes.{least}
use tco_calculator.Ordering.Sort.{sort_by}
use tco_calculator.Decimal.{Decimal, ◌<=◌, nought}
use tco_calculator.Domain.Resource.{VmDiskRole}
use tco_calculator.Target.Types.{mapped, no_mapping}
use tco_calculator.Vm.Types.{
  VmLifecycle, current, previous, VmCapabilityCatalog, ManagedDiskCatalog, VmVolumeRequirement,
  VmTargetSelectionRequest, recommended, no_eligible_target, SelectedVmTarget, lineage_mismatch,
  target_override_ineligible, VmSelectionReason, VmCandidateEvaluation, VmTargetSelection,
  VmTargetSelectionError, invalid_source_vcpu, invalid_source_memory, no_volumes, os_volume_count,
  EvaluatedCandidate,
}
use tco_calculator.Vm.Text.{eq_ignore_ascii_case}
use tco_calculator.Vm.Disks.{role_eq}
use tco_calculator.Vm.Reasons.{reason, debug_lineage, target_lineage, sum_from}
use tco_calculator.Vm.Candidate.{evaluate, eligible_candidate}

-- the closure `lifecycle` of `rank`
abbrev pub lifecycle_rank : VmLifecycle → ℕ
lifecycle_rank current = 0
lifecycle_rank previous = 1

-- `Option::cmp`: `None` comes first.
abbrev pub compare_option {ℓ} : {A : Type ℓ} → (A → A → Ordering) → Option A → Option A → Ordering
compare_option cmp none none = Ordering.eq
compare_option cmp none (some b) = Ordering.lt
compare_option cmp (some a) none = Ordering.gt
compare_option cmp (some a) (some b) = cmp a b

module _ {D : Type 0} ⦃d : Decimal D⦄ where
  abbrev pub is_os_volume : VmVolumeRequirement D → Bool
  is_os_volume volume = role_eq volume.role VmDiskRole.os

  unfoldable pub validate_request :
      VmTargetSelectionRequest D → Result VmTargetSelectionError (Unit {0})
  unfolding filter
  validate_request request = do
    fail_if (request.minimum_vcpu == 0) invalid_source_vcpu
    fail_if (request.minimum_memory_gb <= nought) invalid_source_memory
    fail_if (is_empty request.volumes) no_volumes
    fail_if (not (length (filter is_os_volume request.volumes) == 1)) os_volume_count

  unfoldable pub disk_capacity : EvaluatedCandidate D → D
  unfolding sum_from
  disk_capacity candidate = sum_from nought (map (λ disk. disk.capacity_gb) candidate.disks)

  unfoldable pub rank : EvaluatedCandidate D → EvaluatedCandidate D → Ordering
  unfolding disk_capacity
  rank left right =
      then_with
        (compare (lifecycle_rank left.candidate.lifecycle)
          (lifecycle_rank right.candidate.lifecycle))
        (then_with (compare right.candidate.generation_rank left.candidate.generation_rank) (
          then_with (compare left.candidate.vcpus right.candidate.vcpus) (
            then_with (d.cmp left.candidate.memory_gb right.candidate.memory_gb) (
              then_with (d.cmp (disk_capacity left) (disk_capacity right)) (
                then_with (compare_option d.cmp left.hourly_rate right.hourly_rate)
                  (compare_text left.candidate.arm_sku_name right.candidate.arm_sku_name))))))

  -- the local variables `eligible`, `best` and `evaluations` of `select_vm_target`
  unfoldable pub eligible_targets :
      VmCapabilityCatalog D
      → ManagedDiskCatalog D
      → VmTargetSelectionRequest D
      → List (EvaluatedCandidate D)
  unfolding filter_map eligible_candidate
  eligible_targets vm_catalog disk_catalog request =
      filter_map (eligible_candidate disk_catalog request) vm_catalog.candidates

  unfoldable pub best_target :
      Option String → List (EvaluatedCandidate D) → Option (EvaluatedCandidate D)
  unfolding filter eq_ignore_ascii_case least rank
  best_target none eligible = least rank eligible
  best_target (some requested) eligible = first (
      filter (λ evaluated. eq_ignore_ascii_case evaluated.candidate.arm_sku_name requested)
        eligible)

  unfoldable pub sorted_evaluations :
      VmCapabilityCatalog D
      → ManagedDiskCatalog D
      → VmTargetSelectionRequest D
      → List (VmCandidateEvaluation D)
  unfolding filter_map evaluate sort_by
  sorted_evaluations vm_catalog disk_catalog request =
      sort_by (λ left right. compare_text left.arm_sku_name right.arm_sku_name)
        (filter_map (evaluate disk_catalog request) vm_catalog.candidates)

  unfoldable pub no_target_reasons : VmTargetSelectionRequest D → List VmSelectionReason
  unfolding target_lineage
  no_target_reasons request =
      map_or request.requested_target_arm_sku
        (reason lineage_mismatch (
            "No current "
            ++ debug_lineage (target_lineage request.source_class)
            ++ " size in "
            ++ request.azure_region
            ++ " satisfies the vCPU, memory, disk, and aggregate limits.")
          ∷ [])
        λ requested.
          (reason target_override_ineligible (
              "Requested target " ++ requested
              ++ " is absent or fails the reviewed region, lineage, lifecycle, compute, local-storage, or managed-disk requirements.")
            ∷ [])

  unfoldable pub selected_target : EvaluatedCandidate D → SelectedVmTarget D
  selected_target best = record {
    arm_sku_name = best.candidate.arm_sku_name;
    display_family = best.candidate.display_family;
    lineage = best.candidate.lineage;
    generation = best.candidate.generation;
    generation_rank = best.candidate.generation_rank;
    lifecycle = best.candidate.lifecycle;
    azure_region = best.candidate.azure_region;
    vcpus = best.candidate.vcpus;
    memory_gb = best.candidate.memory_gb;
    max_data_disk_count = best.candidate.max_data_disk_count;
    uncached_disk_iops = best.candidate.uncached_disk_iops;
    uncached_disk_throughput_mbps = best.candidate.uncached_disk_throughput_mbps;
    local_temp_disk_gb = best.candidate.local_temp_disk_gb;
    disks = best.disks;
  }

  -- the record that `select_vm_target` returns
  unfoldable pub target_selection :
      VmCapabilityCatalog D
      → ManagedDiskCatalog D
      → VmTargetSelectionRequest D
      → Option (EvaluatedCandidate D)
      → VmTargetSelection D
  unfolding target_lineage sorted_evaluations no_target_reasons selected_target
  target_selection vm_catalog disk_catalog request none = record {
    mapping_status = no_mapping;
    recommendation_status = no_eligible_target;
    requested_lineage = target_lineage request.source_class;
    selected = none;
    candidates = sorted_evaluations vm_catalog disk_catalog request;
    outcome_reasons = no_target_reasons request;
  }
  target_selection vm_catalog disk_catalog request (some best) = record {
    mapping_status = mapped;
    recommendation_status = recommended;
    requested_lineage = target_lineage request.source_class;
    selected = some (selected_target best);
    candidates = sorted_evaluations vm_catalog disk_catalog request;
    outcome_reasons = [];
  }

  unfoldable pub select_vm_target :
      VmCapabilityCatalog D
      → ManagedDiskCatalog D
      → VmTargetSelectionRequest D
      → Result VmTargetSelectionError (VmTargetSelection D)
  unfolding validate_request best_target eligible_targets target_selection
  select_vm_target vm_catalog disk_catalog request = do
    validate_request request
    let eligible = eligible_targets vm_catalog disk_catalog request
    let best = best_target request.requested_target_arm_sku eligible
    ok (target_selection vm_catalog disk_catalog request best)
