-- ===== src/Examples/Vm.antt =====
-- A selection of rust/src/calculation/vm_target_selector.rs from a catalog of one size and one offer.
use mathlib.Core.List.{Memᴰ}
use tco_calculator.Prelude.{
  ◌<◌, ◌^◌, ◌⊎◌, String, arith, ◌≡◌, refl, true, false, none, some, [], ◌∷◌, ok, concat, append,
  filter, filter_map, any, is_none_or,
}
use tco_calculator.Ordering.Extremes.{least}
use tco_calculator.Ordering.Sort.{sort_by, insert_by}
use tco_calculator.Decimal.{max_decimal, ◌*◌, ◌≼◌}
use tco_calculator.Decimal.Thousandths.{Thousandths, pos, thousandths, Thousandths-IsDecimal}
use tco_calculator.Domain.Resource.{VmDiskRole}
use tco_calculator.Target.Types.{mapped}
use tco_calculator.Examples.{whole}
use tco_calculator.Vm.Types.{
  VmLineage, current, VmSizeCandidate, VmCapabilityCatalog, ManagedDiskOffer, ManagedDiskCatalog,
  SourceClass, VmTargetSelectionRequest, SelectedManagedDisk, VmVolumeRequirement, recommended,
  VmTargetSelection, EvaluatedCandidate,
}
use tco_calculator.Vm.Text.{eq_ignore_ascii_case}
use tco_calculator.Vm.Disks.{
  independent_capacity, independent_disk_with, independent_disk, offer_disk, keep_better,
  select_disk_from, select_disk,
}
use tco_calculator.Vm.Source.{family, family_letters, classify_source_instance}
use tco_calculator.Vm.Prices.{hourly_rate_of}
use tco_calculator.Vm.Reasons.{
  target_lineage, data_disk_count, disks_for, sum_iops, sum_from, sum_throughput,
  capability_reasons, missing_disk_reason, missing_disk_reasons, aggregate_reasons, price_reasons,
  rejection_reasons,
}
use tco_calculator.Vm.Candidate.{evaluate, eligible_candidate}
use tco_calculator.Vm.Select.{
  validate_request, disk_capacity, rank, eligible_targets, best_target, sorted_evaluations,
  selected_target, target_selection, select_vm_target,
}
use tco_calculator.Vm.Laws.{IsTarget, total_iops}
use tco_calculator.Vm.Laws.Ranking.{NoWorse}
use tco_calculator.Vm.Laws.DiskCosts.{calculate_azure_managed_disk_monthly-select_disk}
use tco_calculator.Cost.Types.{AzureManagedDiskRateSet}
use tco_calculator.Cost.Volumes.{calculate_azure_managed_disk_monthly}
use tco_calculator.Vm.Laws.Selection.{select_vm_target-IsTarget, select_vm_target-least}

classifies : classify_source_instance " R5b.xlarge" ≡ some SourceClass.memory_optimized
unfolding classify_source_instance family family_letters eq_ignore_ascii_case
classifies = refl

abbrev size : VmSizeCandidate Thousandths
size = record {
  arm_sku_name = "Standard_D4s_v5";
  display_family = "Dsv5";
  lineage = VmLineage.general_purpose;
  generation = "v5";
  generation_rank = 5;
  lifecycle = current;
  azure_region = "eastus";
  cpu_architecture = "x64";
  windows_eligible = true;
  vcpus = 4;
  memory_gb = whole 16;
  max_data_disk_count = 8;
  premium_io = true;
  uncached_disk_iops = 6400;
  uncached_disk_throughput_mbps = 145;
  local_temp_disk_gb = none;
  source_url = "";
  documentation_url = "";
  reviewed_date = "2026-08-01";
}

abbrev offer : ManagedDiskOffer Thousandths
offer = record {
  offer_key = "premium-v2";
  display_name = "Premium SSD v2";
  redundancy = "LRS";
  allowed_roles = VmDiskRole.os ∷ VmDiskRole.disk_data ∷ [];
  performance_is_provisioned_independently = true;
  azure_regions = "eastus" ∷ [];
  included_iops = some 3000;
  included_throughput_mbps = some (whole 125);
  maximum_iops = 80000;
  maximum_throughput_mbps = 1200;
  capacity_increment_gb = some (whole 8);
  minimum_capacity_gb = some (whole 1);
  maximum_capacity_gb = whole 65536;
  tiers = [];
  source_url = "";
  reviewed_date = "2026-08-01";
}

abbrev vm_catalog : VmCapabilityCatalog Thousandths
vm_catalog = record { schema_version = "1"; candidates = size ∷ [] }

abbrev disk_catalog : ManagedDiskCatalog Thousandths
disk_catalog = record { schema_version = "1"; offers = offer ∷ [] }

abbrev volume : VmVolumeRequirement Thousandths
volume = record {
  volume_id = 2;
  label = "root";
  role = VmDiskRole.os;
  capacity_gb = whole 100;
  iops = 4000;
  throughput_mbps = whole 100;
}

abbrev request : VmTargetSelectionRequest Thousandths
request = record {
  azure_region = "EastUS";
  source_class = SourceClass.general_purpose;
  minimum_vcpu = 4;
  minimum_memory_gb = whole 16;
  requires_local_temp_disk = false;
  minimum_local_temp_disk_gb = whole 0;
  volumes = volume ∷ [];
  requested_target_arm_sku = none;
  price_availability = none;
}

-- 100 GB in whole increments of 8
abbrev disk : SelectedManagedDisk Thousandths
disk = record {
  volume_id = 2;
  label = "root";
  role = VmDiskRole.os;
  offer_key = "premium-v2";
  display_name = "Premium SSD v2";
  tier_key = none;
  capacity_gb = whole 104;
  provisioned_iops = 4000;
  provisioned_throughput_mbps = whole 125;
  billed_additional_iops = 1000;
  billed_additional_throughput_mbps = pos 0;
}

abbrev evaluated : EvaluatedCandidate Thousandths
evaluated = record { candidate = size; disks = disk ∷ []; hourly_rate = none }

abbrev selection : VmTargetSelection Thousandths
selection = record {
  mapping_status = mapped;
  recommendation_status = recommended;
  requested_lineage = VmLineage.general_purpose;
  selected = some (selected_target evaluated);
  candidates =
      record {
        arm_sku_name = "Standard_D4s_v5";
        vcpus = 4;
        memory_gb = whole 16;
        eligible = true;
        rejection_reasons = [];
      }
      ∷ [];
  outcome_reasons = [];
}

is_eligible : eligible_candidate disk_catalog request size ≡ some evaluated
unfolding eligible_candidate eq_ignore_ascii_case target_lineage rejection_reasons
    capability_reasons missing_disk_reasons missing_disk_reason aggregate_reasons price_reasons
    disks_for hourly_rate_of data_disk_count concat append filter filter_map any select_disk
    select_disk_from offer_disk keep_better independent_disk independent_disk_with
    independent_capacity max_decimal sum_iops sum_throughput sum_from
is_eligible = refl

selects : select_vm_target vm_catalog disk_catalog request ≡ ok selection
unfolding select_vm_target validate_request eligible_targets best_target target_selection
    sorted_evaluations selected_target sort_by insert_by least rank disk_capacity evaluate
    eligible_candidate eq_ignore_ascii_case target_lineage rejection_reasons capability_reasons
    missing_disk_reasons missing_disk_reason aggregate_reasons price_reasons disks_for
    hourly_rate_of data_disk_count concat append filter filter_map any select_disk select_disk_from
    offer_disk keep_better independent_disk independent_disk_with independent_capacity max_decimal
    sum_iops sum_throughput sum_from
selects = refl

disks_bound : total_iops (disks_for disk_catalog request) < 2 ^ 64
unfolding total_iops disks_for filter_map select_disk select_disk_from offer_disk keep_better
    independent_disk independent_disk_with independent_capacity max_decimal any eq_ignore_ascii_case
disks_bound = omega arith

select_vm_target-IsTarget_example :
    (best : EvaluatedCandidate Thousandths) × (selected_target evaluated ≡ selected_target best)
    × IsTarget vm_catalog request best
    × (is_none_or none (eq_ignore_ascii_case best.candidate.arm_sku_name) ≡ true)
select_vm_target-IsTarget_example =
    select_vm_target-IsTarget Thousandths-IsDecimal vm_catalog disk_catalog request selection
      (selected_target evaluated) (refl, tt) disks_bound selects refl

select_vm_target-least_example :
    (best : EvaluatedCandidate Thousandths) × (mapped ≡ mapped)
    × (some (selected_target evaluated) ≡ some (selected_target best))
    × ((c : VmSizeCandidate Thousandths) × Memᴰ c vm_catalog.candidates
        × (eligible_candidate disk_catalog request c ≡ some best))
    × NoWorse best evaluated
select_vm_target-least_example =
    select_vm_target-least Thousandths-IsDecimal vm_catalog disk_catalog request selection size
      evaluated refl (Memᴰ.head refl) is_eligible selects

abbrev disk_rate : AzureManagedDiskRateSet Thousandths
disk_rate = record {
  capacity_monthly = pos 81;
  additional_iops_monthly_per_unit = some (pos 5);
  additional_throughput_monthly_per_mbps = some (pos 41);
}

selects_disk : select_disk disk_catalog "EastUS" volume ≡ some disk
unfolding select_disk select_disk_from offer_disk keep_better independent_disk independent_disk_with
    independent_capacity max_decimal any eq_ignore_ascii_case
selects_disk = refl

calculate_azure_managed_disk_monthly-select_disk_example :
    (cost : Thousandths) × (calculate_azure_managed_disk_monthly disk disk_rate ≡ ok cost)
    × (pos 0 ≼ cost)
    × (((key : String) × (disk.tier_key ≡ some key) × (cost ≡ pos 81))
        ⊎ ((disk.tier_key ≡ none) × (whole 100 ≼ whole 104) × ((whole 104 * pos 81) ≼ cost)))
calculate_azure_managed_disk_monthly-select_disk_example =
    calculate_azure_managed_disk_monthly-select_disk Thousandths-IsDecimal disk_catalog "EastUS"
      volume disk disk_rate (pos 5) (pos 41) refl selects_disk refl refl refl refl refl
