-- ===== src/Vm/Candidate.antt =====
-- The evaluation of a candidate in `select_vm_target` of
-- rust/src/calculation/vm_target_selector.rs.
use Prim.Native.String.{◌++◌}
use tco_calculator.Prelude.{
  Bool, false, not, ◌&&◌, Option, none, some, [], ◌∷◌, is_empty, is_some_and, if◌then◌else◌,
}
use tco_calculator.Decimal.{Decimal}
use tco_calculator.Vm.Types.{
  VmSizeCandidate, ManagedDiskCatalog, VmTargetSelectionRequest, lineage_mismatch,
  VmCandidateEvaluation, EvaluatedCandidate,
}
use tco_calculator.Vm.Text.{eq_ignore_ascii_case}
use tco_calculator.Vm.Prices.{hourly_rate_of}
use tco_calculator.Vm.Reasons.{
  reason, debug_lineage, lineage_eq, target_lineage, disks_for, rejection_reasons,
}

module _ {D : Type 0} ⦃d : Decimal D⦄ where
  abbrev pub in_region : VmTargetSelectionRequest D → VmSizeCandidate D → Bool
  in_region request candidate = eq_ignore_ascii_case candidate.azure_region request.azure_region

  abbrev pub is_requested : VmTargetSelectionRequest D → VmSizeCandidate D → Bool
  is_requested request candidate =
      is_some_and request.requested_target_arm_sku
        λ requested. eq_ignore_ascii_case candidate.arm_sku_name requested

  -- the evaluation that the loop's body pushes, if any
  unfoldable pub evaluate :
      ManagedDiskCatalog D
      → VmTargetSelectionRequest D
      → VmSizeCandidate D
      → Option (VmCandidateEvaluation D)
  unfolding eq_ignore_ascii_case target_lineage rejection_reasons
  evaluate disk_catalog request candidate =
      let lineage = target_lineage request.source_class in
      let reasons = rejection_reasons disk_catalog request candidate in
      if not (in_region request candidate)
      then none
      else if not (lineage_eq candidate.lineage lineage)
      then (if is_requested request candidate
          then some (record {
            arm_sku_name = candidate.arm_sku_name;
            vcpus = candidate.vcpus;
            memory_gb = candidate.memory_gb;
            eligible = false;
            rejection_reasons =
                reason lineage_mismatch (
                  candidate.arm_sku_name
                  ++ " is not in the required "
                  ++ debug_lineage lineage
                  ++ " lineage.")
                ∷ [];
          })
          else none)
      else some (record {
        arm_sku_name = candidate.arm_sku_name;
        vcpus = candidate.vcpus;
        memory_gb = candidate.memory_gb;
        eligible = is_empty reasons;
        rejection_reasons = reasons;
      })

  -- what the loop's body pushes on `eligible`, if anything
  unfoldable pub eligible_candidate :
      ManagedDiskCatalog D
      → VmTargetSelectionRequest D
      → VmSizeCandidate D
      → Option (EvaluatedCandidate D)
  unfolding eq_ignore_ascii_case target_lineage rejection_reasons disks_for hourly_rate_of
  eligible_candidate disk_catalog request candidate =
      if in_region request candidate
        && lineage_eq candidate.lineage (target_lineage request.source_class)
        && is_empty (rejection_reasons disk_catalog request candidate)
      then some (record {
        candidate = candidate;
        disks = disks_for disk_catalog request;
        hourly_rate = hourly_rate_of request candidate;
      })
      else none
