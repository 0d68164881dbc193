-- ===== src/Target/Ranking.antt =====
-- `eligible_candidates` of rust/src/calculation/target_selector.rs: which candidates it returns, and
-- in which order.
use Prim.Native.Nat.{compare}
use Prim.Native.String.{compare as compare_text}
use mathlib.Core.List.{Memᴰ}
use tco_calculator.Prelude.{
  ◌≡◌, Bool, true, some, first, Memᴰ-filter, Memᴰ-of_filter, Memᴰ-filter_map, Memᴰ-of_filter_map,
}
use tco_calculator.Ordering.{
  IsOrder, is_le, then_with-IsOrder, pull-IsOrder, compare-IsOrder, compare_text-IsOrder,
}
use tco_calculator.Ordering.Extremes.Laws.{Memᴰ-least, least-le, least-IsSome}
use tco_calculator.Ordering.Sort.{first-sort_by, Memᴰ-sort_by, Memᴰ-of_sort_by}
use tco_calculator.Decimal.{Decimal, IsDecimal, ◌<=◌, ◌≼◌}
use tco_calculator.Target.Types.{
  ServiceTier, TargetCandidate, CapabilityCatalog, TargetSelectionRequest, EligibleCandidate,
}
use tco_calculator.Target.Candidate.{
  smallest_memory, tier_priority, vcpu_overage, memory_overage, compare_candidates, eligible,
  eligible_candidates,
}
use tco_calculator.Target.Eligible.{
  Meets, IsSmallestMemory, eligible-Passes, Passes-eligible, Passes-Meets, Meets-Passes,
}

module _ {D : Type 0} ⦃d : Decimal D⦄ (laws : IsDecimal D) where
  pub smallest_memory-IsSmallest :
      (r : TargetSelectionRequest D) (c : TargetCandidate D) {memory : D}
      → smallest_memory c r ≡ some memory
      → IsSmallestMemory r c memory
  unfolding smallest_memory
  smallest_memory-IsSmallest r c h =
      let covers : D → Bool = λ memory. r.source_memory_gb <= memory in
      let found = Memᴰ-of_filter covers c.supported_memory_gb (Memᴰ-least d.cmp _ h) in
      record {
        supported = found.0;
        covers = found.1;
        smallest = λ other m enough.
            least-le laws.order _ h (Memᴰ-filter covers c.supported_memory_gb m enough);
      }

  pub smallest_memory-IsSome :
      (r : TargetSelectionRequest D) (c : TargetCandidate D) {other : D}
      → Memᴰ other c.supported_memory_gb
      → r.source_memory_gb ≼ other
      → (memory : D) × (smallest_memory c r ≡ some memory)
  unfolding smallest_memory
  smallest_memory-IsSome r c m enough =
      least-IsSome d.cmp _ (Memᴰ-filter (λ memory. r.source_memory_gb <= memory) _ m enough)

  pub compare_candidates-IsOrder : (r : TargetSelectionRequest D) → IsOrder (compare_candidates r)
  unfolding compare_candidates
  compare_candidates-IsOrder r =
      then_with-IsOrder _ _ (pull-IsOrder d.cmp (λ e. vcpu_overage r e.candidate.vcores) laws.order)
        (then_with-IsOrder _ _ (pull-IsOrder d.cmp (memory_overage r) laws.order) (
          then_with-IsOrder _ _
            (pull-IsOrder compare (λ e. tier_priority e.candidate.service_tier) compare-IsOrder)
            (then_with-IsOrder _ _ (pull-IsOrder compare (λ e. e.candidate.vcores) compare-IsOrder)
              (pull-IsOrder compare_text (λ e. e.candidate.configuration_key)
                compare_text-IsOrder))))

  module _ (catalog : CapabilityCatalog D) (r : TargetSelectionRequest D) (tier : ServiceTier)
      (enforce : Bool) where
    -- Every candidate that `eligible_candidates` returns is in the catalog and meets the request, and
    -- its memory size is the least supported one that covers the source.
    pub eligible_candidates-Meets :
        {e : EligibleCandidate D}
        → Memᴰ e (eligible_candidates catalog r tier enforce)
        → Memᴰ e.candidate catalog.candidates
          × Meets r tier enforce e.candidate
          × IsSmallestMemory r e.candidate e.selected_memory_gb
    unfolding eligible_candidates
    eligible_candidates-Meets {e} m =
        let (c, listed, found) =
          Memᴰ-of_filter_map (eligible r tier enforce) catalog.candidates
            (Memᴰ-of_sort_by (compare_candidates r) _ m) in
        let (same, passes) = eligible-Passes r tier enforce c found in
        rw same (
          listed,
          Passes-Meets r tier enforce c passes,
          smallest_memory-IsSmallest r c passes.memory_found,
        )

    -- Every candidate of the catalog that meets the request and supports a memory size that covers
    -- the source is returned by `eligible_candidates`.
    pub Meets-eligible_candidates :
        {c : TargetCandidate D} {other : D}
        → Memᴰ c catalog.candidates
        → Meets r tier enforce c
        → Memᴰ other c.supported_memory_gb
        → r.source_memory_gb ≼ other
        → (memory : D) × Memᴰ
            (record { candidate = c; selected_memory_gb = memory })
            (eligible_candidates catalog r tier enforce)
    unfolding eligible_candidates
    Meets-eligible_candidates {c} listed meets m enough =
        let (memory, found) = smallest_memory-IsSome r c m enough in
        (
          memory,
          Memᴰ-sort_by (compare_candidates r) _ (
              Memᴰ-filter_map (eligible r tier enforce) catalog.candidates listed (
                Passes-eligible r tier enforce c memory
                  (Meets-Passes r tier enforce c meets found))),
        )

    -- The first candidate returned is at most every other one: by vCPU overage, then memory overage,
    -- tier, cores and key.
    pub first-eligible_candidates :
        {best e : EligibleCandidate D}
        → first (eligible_candidates catalog r tier enforce) ≡ some best
        → Memᴰ e (eligible_candidates catalog r tier enforce)
        → is_le (compare_candidates r best e) ≡ true
    unfolding eligible_candidates
    first-eligible_candidates h m =
        first-sort_by (compare_candidates-IsOrder r) _ h
          (Memᴰ-of_sort_by (compare_candidates r) _ m)
