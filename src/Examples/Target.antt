-- ===== src/Examples/Target.antt =====
-- Inputs of rust/src/calculation/target_selector.rs: a catalog of two candidates.
use mathlib.Core.List.{Memᴰ, Permᴰ, map}
use tco_calculator.Prelude.{
  All-Memᴰ, ◌≤◌, ◌<◌, true, false, ◌≡◌, ◌↔◌, refl, inl, some, [], ◌∷◌, filter, arith, ok, any,
  filter_map,
}
use tco_calculator.Ordering.Sort.{insert_by, sort_by}
use tco_calculator.Ordering.Extremes.{least, greatest}
use tco_calculator.Decimal.{◌≼◌}
use tco_calculator.Decimal.Thousandths.{Thousandths, thousandths, Thousandths-IsDecimal}
use tco_calculator.Target.Types.{
  TargetCandidate, CapabilityCatalog, TargetSelectionRequest, StorageEscalation, EligibleCandidate,
  next_generation_general_purpose, business_critical,
}
use tco_calculator.Target.Candidate.{
  in_region_and_tier, eligible_candidates, tier_priority, smallest_memory, zone_reasons,
  hardware_reasons, vcore_reasons, memory_reasons, storage_reasons, evaluate_candidate,
  vcpu_overage, memory_overage, compare_candidates, eligible,
}
use tco_calculator.Target.Fallback.{
  capacity_candidates, service_tier_label, decimal_distance, capacity_limited, compare_capacity,
  closest_of, closest_capacity_candidate, capacity_fallback_reasons,
}
use tco_calculator.Target.Select.{
  evaluation, candidate_evaluations, storage_escalation, nggp_iops_limit, requested_tier,
  capacity_fallback, selection, select_target, validate_request, selected_target, escalation,
  compare_evaluations, outcome_reasons, selected_candidate,
}
use tco_calculator.Target.Eligible.{Meets}
use tco_calculator.Target.Outcome.{
  IsValidRequest, IsBestMatch, select_target-eq-ok_iff, select_target-IsBestMatch,
}
use tco_calculator.Target.Iops.{requested_tier_above, requested_tier_within}
use tco_calculator.Target.Capacity.{
  IsCapacityMatch, capacity_fallback-IsCapacityMatch, capacity_fallback_cores,
}
use tco_calculator.Target.Report.{
  EligibleFirst, IsEscalation, candidate_evaluations-EligibleFirst, evaluation-eligible_iff,
  storage_escalation-IsEscalation,
}
use tco_calculator.Examples.{whole}

abbrev pub small : TargetCandidate Thousandths
small = record {
  configuration_key = "gp-4";
  azure_region = "eastus";
  service_tier = next_generation_general_purpose;
  hardware_family = "Premium Series";
  vcores = 4;
  zone_redundant = false;
  included_memory_gb = whole 28;
  supported_memory_gb = whole 28 ∷ whole 32 ∷ [];
  storage_architecture = "remote";
  maximum_storage_gb = some (whole 1000);
  source_url = "https://learn.microsoft.com";
  reviewed_date = "2026-08-01";
}

abbrev pub large : TargetCandidate Thousandths
large = record small {
  configuration_key = "gp-8";
  vcores = 8;
  maximum_storage_gb = some (whole 4000);
}

abbrev catalog : CapabilityCatalog Thousandths
catalog = record { schema_version = "1"; candidates = small ∷ large ∷ [] }

abbrev pub request : TargetSelectionRequest Thousandths
request = record {
  azure_region = "eastus";
  source_vcpu = 4;
  source_memory_gb = whole 16;
  required_storage_gb = whole 500;
  source_max_iops = 3000;
  workbook_parity_mode = true;
}

request-IsValid : IsValidRequest request
request-IsValid = record { vcpu = omega arith; memory = refl; storage = refl }

selected : select_target catalog request ≡ ok (selection catalog request)
selected = (select_target-eq-ok_iff catalog request).1 request-IsValid

tier : (selection catalog request).requested_tier ≡ next_generation_general_purpose
unfolding selection
tier = requested_tier_within Thousandths-IsDecimal catalog request (omega arith) (omega arith)

small-Meets : Meets request (selection catalog request).requested_tier true small
small-Meets = rw tier (record {
  region = refl;
  tier_of = refl;
  zone = refl;
  hardware = λ p q. inl refl;
  vcores = omega arith;
  storage = λ e m h. ground arith;
})

select_target-IsBestMatch_example :
    (e : EligibleCandidate Thousandths) × IsBestMatch Thousandths-IsDecimal catalog request
      (selection catalog request)
      small
      e
select_target-IsBestMatch_example =
    select_target-IsBestMatch Thousandths-IsDecimal catalog request (selection catalog request)
      small (whole 28) selected (Memᴰ.head refl) small-Meets (Memᴰ.head refl) refl

select_target-eq-ok_iff_example :
    (select_target catalog request ≡ ok (selection catalog request)) ↔ IsValidRequest request
select_target-eq-ok_iff_example = select_target-eq-ok_iff catalog request

-- a region without candidates
requested_tier_above_example :
    requested_tier catalog (record request { source_max_iops = 90_000 }) ≡ business_critical
requested_tier_above_example =
    requested_tier_above Thousandths-IsDecimal catalog (record request { source_max_iops = 90_000 })
      (omega arith)

requested_tier_within_example : requested_tier catalog request ≡ next_generation_general_purpose
requested_tier_within_example =
    requested_tier_within Thousandths-IsDecimal catalog request (omega arith) (omega arith)

-- more cores than any candidate has
abbrev pub demanding : TargetSelectionRequest Thousandths
demanding = record request { source_vcpu = 64 }

abbrev pub fallback : EligibleCandidate Thousandths
fallback = record { candidate = large; selected_memory_gb = whole 28 }

falls_back : capacity_fallback catalog demanding next_generation_general_purpose ≡ some fallback
unfolding tier_priority smallest_memory zone_reasons hardware_reasons vcore_reasons memory_reasons
    storage_reasons evaluate_candidate vcpu_overage memory_overage compare_candidates eligible
    eligible_candidates service_tier_label decimal_distance capacity_limited capacity_candidates
    compare_capacity closest_of closest_capacity_candidate capacity_fallback_reasons
    validate_request selected_target escalation storage_escalation evaluation compare_evaluations
    candidate_evaluations outcome_reasons nggp_iops_limit requested_tier capacity_fallback
    selected_candidate selection select_target insert_by sort_by least greatest filter any
    filter_map
falls_back = refl

capacity_fallback-IsCapacityMatch_example :
    IsCapacityMatch Thousandths-IsDecimal catalog demanding next_generation_general_purpose fallback
    × (eligible_candidates catalog demanding next_generation_general_purpose true ≡ [])
capacity_fallback-IsCapacityMatch_example =
    capacity_fallback-IsCapacityMatch Thousandths-IsDecimal catalog demanding
      next_generation_general_purpose fallback falls_back

candidate_evaluations-EligibleFirst_example :
    Permᴰ (candidate_evaluations catalog request next_generation_general_purpose) (
      map (evaluation request next_generation_general_purpose) (
        filter
          (λ c. in_region_and_tier c request next_generation_general_purpose)
          (small ∷ large ∷ [])))
    × EligibleFirst (candidate_evaluations catalog request next_generation_general_purpose)
candidate_evaluations-EligibleFirst_example =
    candidate_evaluations-EligibleFirst catalog request next_generation_general_purpose

evaluation-eligible_iff_example :
    ((evaluation request next_generation_general_purpose small).eligible ≡ true) ↔ (
      Meets request next_generation_general_purpose true small
      × ((memory : Thousandths) × Memᴰ memory (whole 28 ∷ whole 32 ∷ []) × (whole 16 ≼ memory)))
evaluation-eligible_iff_example =
    evaluation-eligible_iff Thousandths-IsDecimal request next_generation_general_purpose small refl

-- more storage than the smaller candidate has
abbrev bulky : TargetSelectionRequest Thousandths
bulky = record request { required_storage_gb = whole 2000 }

abbrev escalated : StorageEscalation Thousandths
escalated = record {
  rejected_configuration_key = "gp-4";
  rejected_maximum_storage_gb = whole 1000;
  selected_configuration_key = "gp-8";
}

bulky_escalates :
    storage_escalation
      (eligible_candidates catalog bulky next_generation_general_purpose false)
      (eligible_candidates catalog bulky next_generation_general_purpose true)
      bulky
    ≡ some escalated
unfolding tier_priority smallest_memory zone_reasons hardware_reasons vcore_reasons memory_reasons
    storage_reasons evaluate_candidate vcpu_overage memory_overage compare_candidates eligible
    eligible_candidates service_tier_label decimal_distance capacity_limited capacity_candidates
    compare_capacity closest_of closest_capacity_candidate capacity_fallback_reasons
    validate_request selected_target escalation storage_escalation evaluation compare_evaluations
    candidate_evaluations outcome_reasons nggp_iops_limit requested_tier capacity_fallback
    selected_candidate selection select_target insert_by sort_by least greatest filter any
    filter_map
bulky_escalates = refl

storage_escalation-IsEscalation_example :
    (p : EligibleCandidate Thousandths) × (s : EligibleCandidate Thousandths) × IsEscalation
      Thousandths-IsDecimal catalog bulky next_generation_general_purpose escalated p s
storage_escalation-IsEscalation_example =
    storage_escalation-IsEscalation Thousandths-IsDecimal catalog bulky
      next_generation_general_purpose escalated bulky_escalates

Limited : EligibleCandidate Thousandths → Type 0
Limited x = x.candidate.vcores < 64

all_limited :
    (x : EligibleCandidate Thousandths)
    → Memᴰ x (capacity_candidates catalog demanding next_generation_general_purpose)
    → x.candidate.vcores < 64
unfolding smallest_memory evaluate_candidate zone_reasons hardware_reasons vcore_reasons
    memory_reasons storage_reasons capacity_limited capacity_candidates filter filter_map any least
    greatest Limited
all_limited x m = All-Memᴰ Limited (omega arith, (omega arith, tt)) m

smaller_listed :
    Memᴰ
      (record { candidate = small; selected_memory_gb = whole 28 })
      (capacity_candidates catalog demanding next_generation_general_purpose)
unfolding smallest_memory evaluate_candidate zone_reasons hardware_reasons vcore_reasons
    memory_reasons storage_reasons capacity_limited capacity_candidates filter filter_map any least
    greatest
smaller_listed = Memᴰ.head refl

capacity_fallback_cores_example : 4 ≤ 8
capacity_fallback_cores_example =
    capacity_fallback_cores Thousandths-IsDecimal catalog demanding next_generation_general_purpose
      fallback (record { candidate = small; selected_memory_gb = whole 28 }) all_limited falls_back
      smaller_listed refl
