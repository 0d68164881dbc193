-- ===== src/Target/Candidate.antt =====
-- `evaluate_candidate`, `compare_candidates` and `eligible_candidates` of
-- rust/src/calculation/target_selector.rs.
use Prim.Native.Nat.{Ordering, compare}
use Prim.Native.String.{◌++◌, compare as compare_text}
use text.Mathlib.Text.{◌==◌}
use mathlib.Core.List.{◌++◌ as append}
use tco_calculator.Prelude.{
  ℕ, Bool, true, false, not, ◌&&◌, ◌||◌, String, Option, none, some, List, [], ◌∷◌, ltb, is_none,
  is_some_and, is_empty, filter, filter_map, if◌then◌else◌,
}
use tco_calculator.Prelude.Text.{show_ℕ}
use tco_calculator.Ordering.{then_with}
use tco_calculator.Ordering.Extremes.{least}
use tco_calculator.Ordering.Sort.{sort_by}
use tco_calculator.Decimal.{Decimal, ◌<◌, ◌<=◌, ◌-◌, ◌/◌}
use tco_calculator.Target.Types.{
  ServiceTier, next_generation_general_purpose, business_critical, tier_eq, TargetCandidate,
  CapabilityCatalog, TargetSelectionRequest, SelectionReasonCode, zone_redundancy_unsupported,
  hardware_family_unsupported, insufficient_vcores, insufficient_memory, insufficient_storage,
  SelectionReason, EligibleCandidate,
}

abbrev pub reason : SelectionReasonCode → String → SelectionReason
reason code detail = record { code = code; detail = detail }

-- `if b { reasons.push(reason) }`
abbrev pub when : Bool → SelectionReason → List SelectionReason
when true r = r ∷ []
when false r = []

unfoldable pub tier_priority : ServiceTier → ℕ
tier_priority next_generation_general_purpose = 0
tier_priority business_critical = 1

module _ {D : Type 0} ⦃d : Decimal D⦄ where
  -- the first tests of `evaluate_candidate` and of the filters
  abbrev pub in_region_and_tier : TargetCandidate D → TargetSelectionRequest D → ServiceTier → Bool
  in_region_and_tier c r tier = c.azure_region == r.azure_region && tier_eq c.service_tier tier

  abbrev pub is_premium : TargetCandidate D → Bool
  is_premium c =
      c.hardware_family == "Premium Series"
      || c.hardware_family == "Premium Series Memory Optimized"

  unfoldable pub smallest_memory : TargetCandidate D → TargetSelectionRequest D → Option D
  smallest_memory c r =
      least d.cmp (filter (λ memory. r.source_memory_gb <= memory) c.supported_memory_gb)

  unfoldable pub zone_reasons : TargetCandidate D → List SelectionReason
  zone_reasons c =
      when c.zone_redundant
        (reason zone_redundancy_unsupported "Zone-redundant targets are not eligible in v1.")

  unfoldable pub hardware_reasons :
      TargetCandidate D → TargetSelectionRequest D → ServiceTier → List SelectionReason
  hardware_reasons c r tier =
      when
        (r.workbook_parity_mode
          && tier_eq tier next_generation_general_purpose
          && not (is_premium c))
        (reason hardware_family_unsupported
          "Workbook-parity NGGP selection requires Premium-series hardware.")

  unfoldable pub vcore_reasons : TargetCandidate D → TargetSelectionRequest D → List SelectionReason
  unfolding show_ℕ
  vcore_reasons c r = when (ltb c.vcores r.source_vcpu) (
      reason insufficient_vcores (
        "Candidate has "
        ++ show_ℕ c.vcores
        ++ " vCores but the source requires "
        ++ show_ℕ r.source_vcpu
        ++ "."))

  unfoldable pub memory_reasons : Option D → TargetSelectionRequest D → List SelectionReason
  memory_reasons memory r = when (is_none memory) (
      reason insufficient_memory (
        "No supported memory value meets the source requirement of "
        ++ d.show r.source_memory_gb
        ++ " GB."))

  unfoldable pub storage_reasons :
      TargetCandidate D → TargetSelectionRequest D → Bool → List SelectionReason
  storage_reasons c r enforce_storage =
      when
        (enforce_storage
          && is_some_and c.maximum_storage_gb (λ maximum. maximum < r.required_storage_gb))
        (reason insufficient_storage (
          "Candidate storage limit is below the required "
          ++ d.show r.required_storage_gb
          ++ " GB."))

  unfoldable pub evaluate_candidate :
      TargetCandidate D
      → TargetSelectionRequest D
      → ServiceTier
      → Bool
      → Option D × List SelectionReason
  evaluate_candidate c r tier enforce_storage =
      let memory = smallest_memory c r in
      if not (in_region_and_tier c r tier) then (none, []) else (
        memory,
        append (zone_reasons c) (
            append (hardware_reasons c r tier) (
              append (vcore_reasons c r)
                (append (memory_reasons memory r) (storage_reasons c r enforce_storage)))),
      )

  unfoldable pub vcpu_overage : TargetSelectionRequest D → ℕ → D
  vcpu_overage r vcores = (d.from vcores - d.from r.source_vcpu) / d.from r.source_vcpu

  unfoldable pub memory_overage : TargetSelectionRequest D → EligibleCandidate D → D
  memory_overage r e = (e.selected_memory_gb - r.source_memory_gb) / r.source_memory_gb

  unfoldable pub compare_candidates :
      TargetSelectionRequest D → EligibleCandidate D → EligibleCandidate D → Ordering
  compare_candidates r left right =
      then_with
        (d.cmp (vcpu_overage r left.candidate.vcores) (vcpu_overage r right.candidate.vcores))
        (then_with (d.cmp (memory_overage r left) (memory_overage r right)) (
          then_with
            (compare (tier_priority left.candidate.service_tier)
              (tier_priority right.candidate.service_tier))
            (then_with (compare left.candidate.vcores right.candidate.vcores)
              (compare_text left.candidate.configuration_key right.candidate.configuration_key))))

  -- the closure of `eligible_candidates`
  unfoldable pub eligible :
      TargetSelectionRequest D
      → ServiceTier
      → Bool
      → TargetCandidate D
      → Option (EligibleCandidate D)
  eligible r tier enforce_storage c =
      let (memory, reasons) = evaluate_candidate c r tier enforce_storage in
      if is_empty reasons
      then (elim memory [
        | none ↦ none
        | some m ↦ some (record { candidate = c; selected_memory_gb = m })
      ])
      else none

  unfoldable pub eligible_candidates :
      CapabilityCatalog D
      → TargetSelectionRequest D
      → ServiceTier
      → Bool
      → List (EligibleCandidate D)
  eligible_candidates catalog r tier enforce_storage =
      sort_by (compare_candidates r)
        (filter_map (eligible r tier enforce_storage) catalog.candidates)
