-- ===== src/Target/Fallback.antt =====
-- `closest_capacity_candidate` and its reasons, of rust/src/calculation/target_selector.rs.
use Prim.Native.Nat.{Ordering, compare}
use Prim.Native.String.{◌++◌, compare as compare_text}
use mathlib.Core.List.{◌++◌ as append}
use tco_calculator.Prelude.{
  ℕ, ◌-◌, Bool, true, false, not, ◌&&◌, String, Option, none, some, List, map, ltb, leb, or,
  is_none_or, any, filter, filter_map, first, if◌then◌else◌,
}
use tco_calculator.Prelude.Text.{show_ℕ}
use tco_calculator.Ordering.{then_with}
use tco_calculator.Ordering.Extremes.{greatest}
use tco_calculator.Ordering.Sort.{sort_by}
use tco_calculator.Decimal.{Decimal, ◌<◌, ◌<=◌, ◌-◌ as minus}
use tco_calculator.Target.Types.{
  ServiceTier, next_generation_general_purpose, business_critical, TargetCandidate,
  CapabilityCatalog, TargetSelectionRequest, SelectionReasonCode, insufficient_vcores,
  insufficient_memory, SelectionReason, EligibleCandidate,
}
use tco_calculator.Target.Candidate.{
  reason, when, in_region_and_tier, smallest_memory, evaluate_candidate,
}

-- `matches!(code, InsufficientVcores | InsufficientMemory)`
abbrev pub is_capacity_code : SelectionReasonCode → Bool
is_capacity_code insufficient_vcores = true
is_capacity_code insufficient_memory = true
is_capacity_code _ = false

-- `u32::abs_diff`
abbrev pub abs_diff : ℕ → ℕ → ℕ
abs_diff a b = if leb b a then a - b else b - a

unfoldable pub service_tier_label : ServiceTier → String
service_tier_label next_generation_general_purpose = "Next-generation General Purpose"
service_tier_label business_critical = "Business Critical"

module _ {D : Type 0} ⦃d : Decimal D⦄ where
  unfoldable pub decimal_distance : D → D → D
  decimal_distance left right = if right <= left then minus left right else minus right left

  -- the closure that keeps the candidates that only lack capacity
  unfoldable pub capacity_limited :
      TargetSelectionRequest D → ServiceTier → TargetCandidate D → Option (EligibleCandidate D)
  capacity_limited r tier c =
      if any (λ reason. not (is_capacity_code reason.code)) (evaluate_candidate c r tier false).1
      then none
      else elim (or (smallest_memory c r) (greatest d.cmp c.supported_memory_gb)) [
        | none ↦ none
        | some memory ↦ some (record { candidate = c; selected_memory_gb = memory })
      ]

  unfoldable pub capacity_candidates :
      CapabilityCatalog D → TargetSelectionRequest D → ServiceTier → List (EligibleCandidate D)
  capacity_candidates catalog r tier =
      filter_map (capacity_limited r tier)
        (filter (λ c. in_region_and_tier c r tier) catalog.candidates)

  -- the comparator of `closest_capacity_candidate`; the flags say which capacity is exceeded
  unfoldable pub compare_capacity :
      TargetSelectionRequest D → Bool → Bool → EligibleCandidate D → EligibleCandidate D → Ordering
  compare_capacity r cpu_exceeded memory_exceeded left right =
      then_with
        (then_with
          (if cpu_exceeded
            then compare right.candidate.vcores left.candidate.vcores
            else Ordering.eq)
          (if memory_exceeded
            then d.cmp right.selected_memory_gb left.selected_memory_gb
            else Ordering.eq))
        (then_with
          (compare (abs_diff left.candidate.vcores r.source_vcpu)
            (abs_diff right.candidate.vcores r.source_vcpu))
          (then_with
            (d.cmp (decimal_distance left.selected_memory_gb r.source_memory_gb)
              (decimal_distance right.selected_memory_gb r.source_memory_gb))
            (compare_text left.candidate.configuration_key right.candidate.configuration_key)))

  abbrev pub has_storage : TargetSelectionRequest D → EligibleCandidate D → Bool
  has_storage r e =
      is_none_or e.candidate.maximum_storage_gb (λ maximum. r.required_storage_gb <= maximum)

  -- from the test of the two capacities on
  unfoldable pub closest_of :
      TargetSelectionRequest D
      → Bool
      → List (EligibleCandidate D)
      → ℕ
      → D
      → Option (EligibleCandidate D)
  closest_of r enforce_storage candidates maximum_vcores maximum_memory_gb =
      let cpu_exceeded = ltb maximum_vcores r.source_vcpu in
      let memory_exceeded = maximum_memory_gb < r.source_memory_gb in
      let retained = if enforce_storage then filter (has_storage r) candidates else candidates in
      if not cpu_exceeded && not memory_exceeded
      then none
      else first (sort_by (compare_capacity r cpu_exceeded memory_exceeded) retained)

  unfoldable pub closest_capacity_candidate :
      CapabilityCatalog D
      → TargetSelectionRequest D
      → ServiceTier
      → Bool
      → Option (EligibleCandidate D)
  closest_capacity_candidate catalog r tier enforce_storage =
      let candidates = capacity_candidates catalog r tier in
      elim (greatest compare (map (λ e. e.candidate.vcores) candidates)) [
        | none ↦ none
        | some maximum_vcores ↦ elim (greatest d.cmp (map (λ e. e.selected_memory_gb) candidates)) [
          | none ↦ none
          | some maximum_memory_gb ↦
              closest_of r enforce_storage candidates maximum_vcores maximum_memory_gb
        ]
      ]

  unfoldable pub capacity_fallback_reasons :
      TargetSelectionRequest D → EligibleCandidate D → List SelectionReason
  unfolding show_ℕ service_tier_label
  capacity_fallback_reasons r fallback =
      let tier = service_tier_label fallback.candidate.service_tier in
      append
        (when (ltb fallback.candidate.vcores r.source_vcpu) (
          reason insufficient_vcores (
            "Azure SQL Managed Instance does not offer the source requirement of "
            ++ show_ℕ r.source_vcpu
            ++ " vCores in the "
            ++ tier
            ++ " tier on "
            ++ fallback.candidate.hardware_family
            ++ " hardware. The closest available configuration provides "
            ++ show_ℕ fallback.candidate.vcores
            ++ " vCores; this capacity-limited match has been applied and requires workload validation.")))
        (when (fallback.selected_memory_gb < r.source_memory_gb) (
          reason insufficient_memory (
            "Azure SQL Managed Instance does not offer the source requirement of "
            ++ d.show r.source_memory_gb
            ++ " GB memory in the "
            ++ tier
            ++ " tier on "
            ++ fallback.candidate.hardware_family
            ++ " hardware. The closest available configuration provides "
            ++ d.show fallback.selected_memory_gb
            ++ " GB; this capacity-limited match has been applied and requires workload validation.")))
