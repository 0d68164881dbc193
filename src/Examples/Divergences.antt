-- ===== src/Examples/Divergences.antt =====
-- Runs of `select_target` in rust/src/calculation/target_selector.rs that differ from the written
-- specification of the calculator.
use tco_calculator.Prelude.{◌≡◌, refl, some, [], ◌∷◌, filter, any, filter_map}
use tco_calculator.Ordering.Sort.{insert_by, sort_by}
use tco_calculator.Ordering.Extremes.{least, greatest}
use tco_calculator.Decimal.Thousandths.{Thousandths, thousandths}
use tco_calculator.Target.Types.{
  TargetCandidate, CapabilityCatalog, TargetSelectionRequest, next_generation_general_purpose,
  no_mapping,
}
use tco_calculator.Target.Candidate.{
  eligible_candidates, tier_priority, smallest_memory, zone_reasons, hardware_reasons,
  vcore_reasons, memory_reasons, storage_reasons, evaluate_candidate, vcpu_overage, memory_overage,
  compare_candidates, eligible,
}
use tco_calculator.Target.Fallback.{
  capacity_candidates, service_tier_label, decimal_distance, capacity_limited, compare_capacity,
  closest_of, closest_capacity_candidate, capacity_fallback_reasons,
}
use tco_calculator.Target.Select.{
  evaluation, candidate_evaluations, storage_escalation, nggp_iops_limit, requested_tier,
  capacity_fallback, selection, select_target, validate_request, selected_target, escalation,
  compare_evaluations, outcome_reasons, selected_candidate,
}
use tco_calculator.Examples.{whole}
use tco_calculator.Examples.Target.{small, large, request, demanding, fallback}

-- Cores and memory that different candidates cover, and none does both: nothing is selected, and no
-- reason is reported.
abbrev wide : TargetCandidate Thousandths
wide = record small {
  configuration_key = "gp-64";
  vcores = 64;
  supported_memory_gb = whole 128 ∷ [];
}

abbrev deep : TargetCandidate Thousandths
deep = record small {
  configuration_key = "gp-16";
  vcores = 16;
  supported_memory_gb = whole 512 ∷ [];
}

abbrev split_catalog : CapabilityCatalog Thousandths
split_catalog = record { schema_version = "1"; candidates = wide ∷ deep ∷ [] }

abbrev balanced : TargetSelectionRequest Thousandths
balanced = record request { source_vcpu = 32; source_memory_gb = whole 256 }

split_unexplained :
    ((selection split_catalog balanced).mapping_status ≡ no_mapping)
    × ((selection split_catalog balanced).outcome_reasons ≡ [])
unfolding tier_priority smallest_memory zone_reasons hardware_reasons vcore_reasons memory_reasons
    storage_reasons evaluate_candidate vcpu_overage memory_overage compare_candidates eligible
    eligible_candidates service_tier_label decimal_distance capacity_limited capacity_candidates
    compare_capacity closest_of closest_capacity_candidate capacity_fallback_reasons
    validate_request selected_target escalation storage_escalation evaluation compare_evaluations
    candidate_evaluations outcome_reasons nggp_iops_limit requested_tier capacity_fallback
    selected_candidate selection select_target insert_by sort_by least greatest filter any
    filter_map
split_unexplained = (refl, refl)

-- A candidate that has the cores and the memory, but not the hardware that the request asks for: the
-- fallback to a smaller candidate is used all the same.
abbrev standard_series : TargetCandidate Thousandths
standard_series = record small {
  configuration_key = "gp-standard-64";
  hardware_family = "Standard Series";
  vcores = 64;
}

abbrev mixed_catalog : CapabilityCatalog Thousandths
mixed_catalog = record { schema_version = "1"; candidates = standard_series ∷ large ∷ [] }

falls_back_past_sufficient :
    capacity_fallback mixed_catalog demanding next_generation_general_purpose ≡ some fallback
unfolding tier_priority smallest_memory zone_reasons hardware_reasons vcore_reasons memory_reasons
    storage_reasons evaluate_candidate vcpu_overage memory_overage compare_candidates eligible
    eligible_candidates service_tier_label decimal_distance capacity_limited capacity_candidates
    compare_capacity closest_of closest_capacity_candidate capacity_fallback_reasons
    validate_request selected_target escalation storage_escalation evaluation compare_evaluations
    candidate_evaluations outcome_reasons nggp_iops_limit requested_tier capacity_fallback
    selected_candidate selection select_target insert_by sort_by least greatest filter any
    filter_map
falls_back_past_sufficient = refl
