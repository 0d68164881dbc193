-- ===== src/Validation/Resources.antt =====
-- The checks of resources in `EditableProject::validate` of rust/src/domain/project.rs. The sets of
-- identifiers are lists of those that were met.
use Prim.Native.String.{◌++◌, len}
use tco_calculator.Prelude.{
  ℕ, ◌+◌, Bool, true, false, not, ◌&&◌, ◌||◌, String, List, [], ◌∷◌, append, concat, length, filter,
  is_none, is_some_and, is_none_or, map_or, ltb, ◌==◌,
}
use tco_calculator.Prelude.Text.{show_ℕ}
use tco_calculator.Decimal.{Decimal, ◌<◌, ◌<=◌, nought}
use tco_calculator.Domain.Resource.{
  Uuid, ProjectType, VmDiskRole, VmInstanceStoreUse, Ec2VmRequirements, Ec2Resource, Ec2VmResource,
  RdsResource, OnPremResource, Resource, shared, sql, project_type,
}
use tco_calculator.Validation.Text.{within, all_chars, is_blank, is_sku_char}
use tco_calculator.Validation.Issues.{
  ValidationIssue, issue, push_if, project_type_eq, validate_decimal_range,
}
use tco_calculator.Validation.Volumes.{met, ebs_volumes_issues, vm_volumes_issues}

-- `format!("/resources/{index}{field}")`
unfoldable pub at_resource : ℕ → String → String
at_resource index field = "/resources/" ++ show_ℕ index ++ field

abbrev pub is_used : VmInstanceStoreUse → Bool
is_used VmInstanceStoreUse.used = true
is_used VmInstanceStoreUse.unknown = false
is_used VmInstanceStoreUse.not_used = false

abbrev pub is_os : VmDiskRole → Bool
is_os VmDiskRole.os = true
is_os VmDiskRole.disk_data = false
is_os VmDiskRole.unknown = false

abbrev pub instance_type_issue : ℕ → String → List ValidationIssue
instance_type_issue index instance_type =
    push_if (is_blank instance_type)
      (issue (at_resource index "/instance_type") "required" "EC2 instance type is required.")

abbrev pub catalog_issue : ℕ → String → String → List ValidationIssue
catalog_issue index field value =
    push_if (is_blank value)
      (issue (at_resource index field) "required" "RDS catalog selections are required.")

abbrev pub iops_issue : ℕ → ℕ → List ValidationIssue
iops_issue index source_max_iops = push_if (ltb 1000000000 source_max_iops) (
    issue (at_resource index "/source_max_iops") "range"
      "Source maximum IOPS must not exceed 1,000,000,000.")

abbrev pub cores_issue : ℕ → String → ℕ → List ValidationIssue
cores_issue index field value =
    push_if (not (within 1 100000 value))
      (issue (at_resource index field) "range" "Core counts must be between 1 and 100,000.")

module _ {D : Type 0} ⦃d : Decimal D⦄ where
  -- the checks that every resource has
  abbrev pub shared_checks : ProjectType → ℕ → List Uuid → Resource D → List (List ValidationIssue)
  shared_checks type index resource_ids resource =
      (push_if (not (project_type_eq (project_type resource) type)) (
          issue (at_resource index "/source_type") "project_type_mismatch"
            "Resource source type must match the project type.")
        ∷ push_if (met resource_ids (shared resource).id) (
            issue (at_resource index "/id") "duplicate"
              "Resource IDs must be unique within a project.")
        ∷ push_if (not (within 1 160 (len (shared resource).workload_name))) (
            issue (at_resource index "/workload_name") "length"
              "Workload name must contain 1 to 160 characters.")
        ∷ push_if (is_some_and (shared resource).server_name (λ name. ltb 160 (len name))) (
            issue (at_resource index "/server_name") "length"
              "Server name must not exceed 160 characters.")
        ∷ push_if (not (within 1 10000 (shared resource).quantity))
            (issue (at_resource index "/quantity") "range" "Quantity must be between 1 and 10,000.")
        ∷ map_or (sql resource) [] (λ sql.
          validate_decimal_range (at_resource index "/sql_data_gb_per_instance")
            sql.sql_data_gb_per_instance nought (d.from 1000000000) false
            "SQL data size must be between 0 and 1,000,000,000 GB.")
        ∷ validate_decimal_range (at_resource index "/source_ram_gb_per_instance")
            (shared resource).source_ram_gb_per_instance nought (d.from 1000000) true
            "Source RAM must be greater than 0 and no more than 1,000,000 GB."
        ∷ validate_decimal_range (at_resource index "/annual_hours_per_instance")
            (shared resource).annual_hours_per_instance nought (d.from 8784) false
            "Annual hours must be between 0 and 8,784."
        ∷ [])

  unfoldable pub shared_issues : ProjectType → ℕ → List Uuid → Resource D → List ValidationIssue
  unfolding concat
  shared_issues type index resource_ids resource =
      concat (shared_checks type index resource_ids resource)

  unfoldable pub requirements_issues : ℕ → Ec2VmRequirements D → List ValidationIssue
  unfolding concat push_if issue at_resource all_chars
  requirements_issues index requirements = concat (
      push_if
        (is_used requirements.instance_store_use
          && is_none_or requirements.required_local_temp_disk_gb (λ capacity. capacity <= nought))
        (issue (at_resource index "/requirements/required_local_temp_disk_gb") "required"
          "Used instance storage requires a positive local capacity.")
      ∷ push_if
          (is_used requirements.instance_store_use
            && is_none requirements.ephemeral_data_loss_acceptable)
          (issue (at_resource index "/requirements/ephemeral_data_loss_acceptable") "required"
            "Used instance storage requires an explicit ephemeral data-loss decision.")
      ∷ push_if
          (is_some_and requirements.requested_target_arm_sku (λ target.
            len target == 0 || ltb 100 (len target) || not (all_chars is_sku_char target)))
          (issue (at_resource index "/requirements/requested_target_arm_sku") "format"
            "Requested Azure VM target must be a bounded ARM SKU name.")
      ∷ [])

  abbrev pub on_prem_resource_checks : ℕ → OnPremResource D → List (List ValidationIssue)
  on_prem_resource_checks index resource =
      (cores_issue index "/source_vcpu" resource.source_vcpu
        ∷ cores_issue index "/licensable_cores" resource.licensable_cores
        ∷ iops_issue index resource.source_max_iops
        ∷ push_if (resource.hardware_capex_usd < nought) (
            issue (at_resource index "/hardware_capex_usd") "range"
              "Hardware CAPEX must not be negative.")
        ∷ validate_decimal_range (at_resource index "/depreciation_years")
            resource.depreciation_years nought (d.from 50) true
            "Depreciation years must be greater than 0 and no more than 50."
        ∷ push_if (is_some_and resource.average_power_kw_override (λ power. power <= nought)) (
            issue (at_resource index "/average_power_kw_override") "range"
              "Average power override must be greater than 0.")
        ∷ [])

  unfoldable pub on_prem_resource_issues : ℕ → OnPremResource D → List ValidationIssue
  unfolding concat
  on_prem_resource_issues index resource = concat (on_prem_resource_checks index resource)

  -- the checks of an EC2 resource, of which `volumes` are the issues of its volumes
  abbrev pub ec2_checks : ℕ → Ec2Resource D → List ValidationIssue → List (List ValidationIssue)
  ec2_checks index resource volumes =
      (instance_type_issue index resource.instance_type
        ∷ push_if (not (within 1 50 (length resource.volumes)))
            (issue (at_resource index "/volumes") "limit" "EC2 resources require 1 to 50 volumes.")
        ∷ volumes
        ∷ [])

  abbrev pub ec2_vm_checks :
      ℕ → Ec2VmResource D → List ValidationIssue → List (List ValidationIssue)
  ec2_vm_checks index resource volumes =
      (instance_type_issue index resource.instance_type
        ∷ requirements_issues index resource.requirements
        ∷ push_if (not (within 1 50 (length resource.volumes))) (
            issue (at_resource index "/volumes") "limit"
              "EC2 virtual machine resources require 1 to 50 volumes.")
        ∷ push_if (not (length (filter (λ volume. is_os volume.role) resource.volumes) == 1)) (
            issue (at_resource index "/volumes") "os_disk"
              "EC2 virtual machine resources require exactly one OS disk.")
        ∷ volumes
        ∷ [])

  abbrev pub rds_checks : ℕ → RdsResource D → List (List ValidationIssue)
  rds_checks index resource =
      (catalog_issue index "/instance_type" resource.instance_type
        ∷ catalog_issue index "/commercial_term" resource.commercial_term
        ∷ catalog_issue index "/storage_class" resource.storage_class
        ∷ iops_issue index resource.source_max_iops
        ∷ [])

  -- the `match` of the source on the resource, and the volume identifiers that were met after it
  unfoldable pub kind_issues : ℕ → List Uuid → Resource D → List ValidationIssue × List Uuid
  unfolding concat ebs_volumes_issues vm_volumes_issues on_prem_resource_issues
  kind_issues index volume_ids (Resource.ec2 resource) =
      let (volumes, ids) = ebs_volumes_issues index 0 volume_ids resource.volumes in
      (concat (ec2_checks index resource volumes), ids)
  kind_issues index volume_ids (Resource.ec2_vm resource) =
      let (volumes, ids) = vm_volumes_issues index 0 volume_ids resource.volumes in
      (concat (ec2_vm_checks index resource volumes), ids)
  kind_issues index volume_ids (Resource.rds resource) =
      (concat (rds_checks index resource), volume_ids)
  kind_issues index volume_ids (Resource.on_prem resource) =
      (on_prem_resource_issues index resource, volume_ids)

  -- the loop over the resources
  unfoldable pub validate_resources :
      ProjectType → ℕ → List Uuid → List Uuid → List (Resource D) → List ValidationIssue
  unfolding append shared_issues kind_issues
  validate_resources type index resource_ids volume_ids [] = []
  validate_resources type index resource_ids volume_ids (resource ∷ resources) =
      let (issues, ids) = kind_issues index volume_ids resource in
      append (shared_issues type index resource_ids resource) (
        append issues
          (validate_resources type (index + 1) ((shared resource).id ∷ resource_ids) ids resources))
