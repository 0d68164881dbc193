-- ===== src/Validation/Volumes.antt =====
-- The checks of volumes in `EditableProject::validate` of rust/src/domain/project.rs. The set of
-- identifiers that the source fills is the list of those that were met: inserting is adding, and
-- reports whether the identifier is new.
use Prim.Native.String.{◌++◌, len}
use tco_calculator.Prelude.{
  ℕ, ◌+◌, Bool, true, false, not, ◌&&◌, String, List, [], ◌∷◌, append, concat, is_none, is_some_and,
  ltb, ◌==◌, any,
}
use tco_calculator.Prelude.Text.{show_ℕ}
use tco_calculator.Decimal.{Decimal, ◌<◌, nought}
use tco_calculator.Domain.Resource.{
  Uuid, ephemeral, volume_type_eq, VmDiskRole, VmVolume, EbsVolume,
}
use tco_calculator.Validation.Text.{within}
use tco_calculator.Validation.Issues.{ValidationIssue, issue, push_if}

abbrev pub met : List Uuid → Uuid → Bool
met ids id = any (λ other. other == id) ids

-- `format!("/resources/{index}/volumes/{volume_index}{field}")`
unfoldable pub at_volume : ℕ → ℕ → String → String
at_volume index volume_index field =
    "/resources/" ++ show_ℕ index ++ "/volumes/" ++ show_ℕ volume_index ++ field

abbrev pub is_unknown : VmDiskRole → Bool
is_unknown VmDiskRole.unknown = true
is_unknown VmDiskRole.os = false
is_unknown VmDiskRole.disk_data = false

module _ {D : Type 0} ⦃d : Decimal D⦄ where
  abbrev pub ebs_volume_checks : ℕ → ℕ → List Uuid → EbsVolume D → List (List ValidationIssue)
  ebs_volume_checks index volume_index volume_ids volume =
      (push_if (met volume_ids volume.id) (
          issue (at_volume index volume_index "/id") "duplicate"
            "Volume IDs must be unique within a project.")
        ∷ push_if (not (within 1 80 (len volume.label))) (
            issue (at_volume index volume_index "/label") "length"
              "Volume label must contain 1 to 80 characters.")
        ∷ push_if (is_some_and volume.aws_volume_id (λ id. ltb 128 (len id))) (
            issue (at_volume index volume_index "/aws_volume_id") "length"
              "AWS volume ID must not exceed 128 characters.")
        ∷ push_if (volume.capacity_gb < nought) (
            issue (at_volume index volume_index "/capacity_gb") "range"
              "Volume capacity must not be negative.")
        ∷ push_if
            (not (volume_type_eq volume.volume_type ephemeral) && is_none volume.provisioned_iops)
            (issue (at_volume index volume_index "/provisioned_iops") "required"
              "gp3 and io2 volumes require provisioned IOPS.")
        ∷ push_if (is_some_and volume.throughput_mibps (λ throughput. throughput < nought)) (
            issue (at_volume index volume_index "/throughput_mibps") "range"
              "Volume throughput must not be negative.")
        ∷ [])

  unfoldable pub ebs_volume_issues : ℕ → ℕ → List Uuid → EbsVolume D → List ValidationIssue
  unfolding concat
  ebs_volume_issues index volume_index volume_ids volume =
      concat (ebs_volume_checks index volume_index volume_ids volume)

  -- the loop over the volumes of an EC2 resource, and the identifiers that were met after it
  unfoldable pub ebs_volumes_issues :
      ℕ → ℕ → List Uuid → List (EbsVolume D) → List ValidationIssue × List Uuid
  unfolding append ebs_volume_issues
  ebs_volumes_issues index volume_index volume_ids [] = ([], volume_ids)
  ebs_volumes_issues index volume_index volume_ids (volume ∷ volumes) =
      let (rest, ids) =
        ebs_volumes_issues index (volume_index + 1) (volume.id ∷ volume_ids) volumes in
      (append (ebs_volume_issues index volume_index volume_ids volume) rest, ids)

  abbrev pub vm_volume_checks : ℕ → ℕ → List Uuid → VmVolume D → List (List ValidationIssue)
  vm_volume_checks index volume_index volume_ids volume =
      (push_if (met volume_ids volume.id) (
          issue (at_volume index volume_index "/id") "duplicate"
            "Volume IDs must be unique within a project.")
        ∷ push_if (not (within 1 80 (len volume.label))) (
            issue (at_volume index volume_index "/label") "length"
              "Volume label must contain 1 to 80 characters.")
        ∷ push_if (is_some_and volume.aws_volume_id (λ id. ltb 128 (len id))) (
            issue (at_volume index volume_index "/aws_volume_id") "length"
              "AWS volume ID must not exceed 128 characters.")
        ∷ push_if (volume.capacity_gb < nought) (
            issue (at_volume index volume_index "/capacity_gb") "range"
              "Volume capacity must not be negative.")
        ∷ push_if (volume_type_eq volume.volume_type ephemeral) (
            issue (at_volume index volume_index "/volume_type") "unsupported"
              "Instance storage must use the VM instance-store requirements rather than a persistent volume row.")
        ∷ push_if (is_unknown volume.role) (
            issue (at_volume index volume_index "/role") "required"
              "Persistent volume role must be confirmed before calculation.")
        ∷ push_if
            (not (volume_type_eq volume.volume_type ephemeral) && is_none volume.provisioned_iops)
            (issue (at_volume index volume_index "/provisioned_iops") "required"
              "gp3 and io2 volumes require provisioned IOPS.")
        ∷ push_if (is_some_and volume.throughput_mibps (λ throughput. throughput < nought)) (
            issue (at_volume index volume_index "/throughput_mibps") "range"
              "Volume throughput must not be negative.")
        ∷ [])

  unfoldable pub vm_volume_issues : ℕ → ℕ → List Uuid → VmVolume D → List ValidationIssue
  unfolding concat
  vm_volume_issues index volume_index volume_ids volume =
      concat (vm_volume_checks index volume_index volume_ids volume)

  -- the loop over the volumes of a virtual machine
  unfoldable pub vm_volumes_issues :
      ℕ → ℕ → List Uuid → List (VmVolume D) → List ValidationIssue × List Uuid
  unfolding append vm_volume_issues
  vm_volumes_issues index volume_index volume_ids [] = ([], volume_ids)
  vm_volumes_issues index volume_index volume_ids (volume ∷ volumes) =
      let (rest, ids) =
        vm_volumes_issues index (volume_index + 1) (volume.id ∷ volume_ids) volumes in
      (append (vm_volume_issues index volume_index volume_ids volume) rest, ids)
