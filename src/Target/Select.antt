-- ===== src/Target/Select.antt =====
-- `select_target` of rust/src/calculation/target_selector.rs, and what it calls last.
use Prim.Native.Nat.{Ordering, compare}
use Prim.Native.String.{◌++◌, compare as compare_text}
use text.Mathlib.Text.{◌==◌}
use tco_calculator.Prelude.{
  ℕ, ◌*◌, ◌-◌, ◌^◌, min, Bool, true, false, not, Option, none, some, List, [], ◌∷◌, map, leb, or,
  map_or, is_some, is_empty, any, filter, first, if◌then◌else◌, ◌==◌ as nat_eq, Result, ok, ◌>>◌,
  fail_if,
}
use tco_calculator.Ordering.{then_with}
use tco_calculator.Ordering.Sort.{sort_by}
use tco_calculator.Decimal.{Decimal, ◌<◌, ◌<=◌, ◌-◌ as minus, nought, max_decimal}
use tco_calculator.Target.Types.{
  ServiceTier, next_generation_general_purpose, business_critical, TargetCandidate,
  CapabilityCatalog, TargetSelectionRequest, mapped, no_mapping, region_unavailable,
  tier_unavailable, SelectionReason, SelectedTarget, CandidateEvaluation, StorageEscalation,
  TargetSelection, TargetSelectionError, invalid_source_vcpu, invalid_source_memory,
  invalid_required_storage, EligibleCandidate,
}
use tco_calculator.Target.Candidate.{
  reason, in_region_and_tier, evaluate_candidate, eligible_candidates,
}
use tco_calculator.Target.Fallback.{closest_capacity_candidate, capacity_fallback_reasons}

abbrev pub nggp_iops_per_vcore : ℕ
nggp_iops_per_vcore = 1_600

abbrev pub nggp_max_iops : ℕ
nggp_max_iops = 80_000

-- `u64::saturating_mul`
abbrev pub saturating_mul : ℕ → ℕ → ℕ
saturating_mul a b = min (a * b) (2 ^ 64 - 1)

-- `bool::cmp`, with `false` below `true`
abbrev pub compare_bool : Bool → Bool → Ordering
compare_bool true true = Ordering.eq
compare_bool true false = Ordering.gt
compare_bool false true = Ordering.lt
compare_bool false false = Ordering.eq

module _ {D : Type 0} ⦃d : Decimal D⦄ where
  unfoldable pub validate_request :
      TargetSelectionRequest D → Result TargetSelectionError (Unit {0})
  validate_request r = do
    fail_if (nat_eq r.source_vcpu 0) invalid_source_vcpu
    fail_if (r.source_memory_gb <= nought) invalid_source_memory
    fail_if (r.required_storage_gb < nought) invalid_required_storage

  unfoldable pub selected_target : EligibleCandidate D → SelectedTarget D
  selected_target e = record {
    configuration_key = e.candidate.configuration_key;
    azure_region = e.candidate.azure_region;
    service_tier = e.candidate.service_tier;
    hardware_family = e.candidate.hardware_family;
    vcores = e.candidate.vcores;
    zone_redundant = e.candidate.zone_redundant;
    included_memory_gb = e.candidate.included_memory_gb;
    selected_memory_gb = e.selected_memory_gb;
    additional_memory_gb =
        max_decimal (minus e.selected_memory_gb e.candidate.included_memory_gb) nought;
    storage_architecture = e.candidate.storage_architecture;
    maximum_storage_gb = e.candidate.maximum_storage_gb;
  }

  -- the case of two first candidates and a storage limit of the preferred one
  unfoldable pub escalation :
      EligibleCandidate D
      → EligibleCandidate D
      → D
      → TargetSelectionRequest D
      → Option (StorageEscalation D)
  escalation preferred selected maximum r =
      if r.required_storage_gb <= maximum
      then none
      else some (record {
        rejected_configuration_key = preferred.candidate.configuration_key;
        rejected_maximum_storage_gb = maximum;
        selected_configuration_key = selected.candidate.configuration_key;
      })

  unfoldable pub storage_escalation :
      List (EligibleCandidate D)
      → List (EligibleCandidate D)
      → TargetSelectionRequest D
      → Option (StorageEscalation D)
  unfolding escalation
  storage_escalation [] with_storage r = none
  storage_escalation (preferred ∷ _) [] r = none
  storage_escalation (preferred ∷ _) (selected ∷ _) r =
      if preferred.candidate.configuration_key == selected.candidate.configuration_key
      then none
      else elim preferred.candidate.maximum_storage_gb [
        | none ↦ none
        | some maximum ↦ escalation preferred selected maximum r
      ]

  unfoldable pub evaluation :
      TargetSelectionRequest D → ServiceTier → TargetCandidate D → CandidateEvaluation D
  evaluation r tier c =
      let (memory, reasons) = evaluate_candidate c r tier true in
      record {
        configuration_key = c.configuration_key;
        vcores = c.vcores;
        selected_memory_gb = memory;
        eligible = is_empty reasons;
        rejection_reasons = reasons;
      }

  unfoldable pub compare_evaluations : CandidateEvaluation D → CandidateEvaluation D → Ordering
  compare_evaluations left right = then_with (compare_bool right.eligible left.eligible) (
      then_with (compare left.vcores right.vcores)
        (compare_text left.configuration_key right.configuration_key))

  unfoldable pub candidate_evaluations :
      CapabilityCatalog D → TargetSelectionRequest D → ServiceTier → List (CandidateEvaluation D)
  candidate_evaluations catalog r tier =
      sort_by compare_evaluations
        (map (evaluation r tier) (filter (λ c. in_region_and_tier c r tier) catalog.candidates))

  unfoldable pub outcome_reasons :
      CapabilityCatalog D
      → TargetSelectionRequest D
      → ServiceTier
      → List (EligibleCandidate D)
      → List SelectionReason
  outcome_reasons catalog r tier candidates =
      if not (is_empty candidates)
      then []
      else if not (any (λ c. c.azure_region == r.azure_region) catalog.candidates)
      then reason region_unavailable
          ("The capability catalog has no candidates in " ++ r.azure_region ++ ".")
        ∷ []
      else if not (any (λ c. in_region_and_tier c r tier) catalog.candidates)
      then reason tier_unavailable
          "The requested service tier is not available in the selected region."
        ∷ []
      else []

  unfoldable pub nggp_iops_limit : CapabilityCatalog D → TargetSelectionRequest D → ℕ
  nggp_iops_limit catalog r =
      let without = eligible_candidates catalog r next_generation_general_purpose false in
      let threshold_vcores = map_or (first without) r.source_vcpu (λ e. e.candidate.vcores) in
      min (saturating_mul threshold_vcores nggp_iops_per_vcore) nggp_max_iops

  unfoldable pub requested_tier : CapabilityCatalog D → TargetSelectionRequest D → ServiceTier
  requested_tier catalog r =
      if leb r.source_max_iops (nggp_iops_limit catalog r)
      then next_generation_general_purpose
      else business_critical

  unfoldable pub capacity_fallback :
      CapabilityCatalog D → TargetSelectionRequest D → ServiceTier → Option (EligibleCandidate D)
  capacity_fallback catalog r tier =
      if is_empty (eligible_candidates catalog r tier true)
      then closest_capacity_candidate catalog r tier true
      else none

  -- the candidate that `select_target` selects for a tier
  unfoldable pub selected_candidate :
      CapabilityCatalog D → TargetSelectionRequest D → ServiceTier → Option (EligibleCandidate D)
  selected_candidate catalog r tier =
      or (first (eligible_candidates catalog r tier true)) (capacity_fallback catalog r tier)

  -- `select_target` behind its validation
  unfoldable pub selection : CapabilityCatalog D → TargetSelectionRequest D → TargetSelection D
  selection catalog r =
      let tier = requested_tier catalog r in
      let without_storage = eligible_candidates catalog r tier false in
      let with_storage = eligible_candidates catalog r tier true in
      let chosen = selected_candidate catalog r tier in
      record {
        mapping_status = if is_some chosen then mapped else no_mapping;
        requested_tier = tier;
        nggp_iops_limit = nggp_iops_limit catalog r;
        selected = map_or chosen none (λ e. some (selected_target e));
        candidates = candidate_evaluations catalog r tier;
        outcome_reasons =
            map_or (capacity_fallback catalog r tier) (outcome_reasons catalog r tier with_storage)
              (capacity_fallback_reasons r);
        storage_escalation = storage_escalation without_storage with_storage r;
      }

  unfoldable pub select_target :
      CapabilityCatalog D
      → TargetSelectionRequest D
      → Result TargetSelectionError (TargetSelection D)
  select_target catalog r = do validate_request r; ok (selection catalog r)
