-- ===== src/Target/Capacity.antt =====
-- The capacity-limited match of rust/src/calculation/target_selector.rs: when `select_target` falls
-- back to it, and what it is.
use Prim.Native.Nat.{compare, Ordering}
use Prim.Native.String.{compare as compare_text}
use mathlib.Core.List.{Memᴰ}
use text.Mathlib.TextEquality.{eq_iff}
use tco_calculator.Prelude.{
  ℕ, ◌≤◌, ◌<◌, ◌≡◌, ◌≢◌, Bool, true, false, ◌⊎◌, inl, inr, some, List, [], first, map,
  Memᴰ-of_first, Memᴰ-map, Memᴰ-of_map, Memᴰ-filter, filter, any, if◌then◌else◌, Option-cases,
  Memᴰ-of_filter, Memᴰ-of_filter_map, ltb, arith,
}
use tco_calculator.Ordering.{
  IsOrder, is_le, then_with-IsOrder, pull-IsOrder, swap-IsOrder, equal-IsOrder, compare-IsOrder,
  compare_text-IsOrder,
}
use tco_calculator.Ordering.Extremes.Laws.{greatest-le, Memᴰ-greatest}
use tco_calculator.Ordering.Extremes.{greatest}
use tco_calculator.Ordering.Sort.{sort_by, first-sort_by, Memᴰ-of_sort_by}
use tco_calculator.Decimal.{Decimal, IsDecimal, ◌<◌ as lt}
use tco_calculator.Target.Types.{
  ServiceTier, TargetCandidate, CapabilityCatalog, TargetSelectionRequest, EligibleCandidate,
}
use tco_calculator.Target.Candidate.{
  in_region_and_tier, evaluate_candidate, zone_reasons, eligible_candidates,
}
use tco_calculator.Target.Fallback.{
  abs_diff, decimal_distance, capacity_limited, capacity_candidates, compare_capacity, has_storage,
  closest_of, closest_capacity_candidate, capacity_fallback_reasons,
}
use tco_calculator.Target.Select.{capacity_fallback}

module _ {D : Type 0} ⦃d : Decimal D⦄ (laws : IsDecimal D) where
  compare_capacity-IsOrder :
      (r : TargetSelectionRequest D) (cpu memory : Bool) → IsOrder (compare_capacity r cpu memory)
  unfolding compare_capacity
  compare_capacity-IsOrder r cpu memory =
      then_with-IsOrder _ _ (then_with-IsOrder _ _ (by_cores cpu) (by_memory memory)) (
        then_with-IsOrder _ _
          (pull-IsOrder compare (λ e. abs_diff e.candidate.vcores r.source_vcpu) compare-IsOrder)
          (then_with-IsOrder _ _
            (pull-IsOrder d.cmp (λ e. decimal_distance e.selected_memory_gb r.source_memory_gb)
              laws.order)
            (pull-IsOrder compare_text (λ e. e.candidate.configuration_key) compare_text-IsOrder)))
    where
      by_cores :
          (b : Bool)
          → IsOrder (λ (x y : EligibleCandidate D).
            if b then compare y.candidate.vcores x.candidate.vcores else Ordering.eq)
      by_cores true =
          swap-IsOrder _ (pull-IsOrder compare (λ e. e.candidate.vcores) compare-IsOrder)
      by_cores false = equal-IsOrder

      by_memory :
          (b : Bool)
          → IsOrder (λ (x y : EligibleCandidate D).
            if b then d.cmp y.selected_memory_gb x.selected_memory_gb else Ordering.eq)
      by_memory true = swap-IsOrder _ (pull-IsOrder d.cmp (λ e. e.selected_memory_gb) laws.order)
      by_memory false = equal-IsOrder

  -- The result of `closest_of`, with the capacity that is exceeded and its rank.
  record IsClosest (r : TargetSelectionRequest D) (es : List (EligibleCandidate D)) (cores : ℕ)
      (memory : D) (e : EligibleCandidate D) : Type 0 where
    listed : Memᴰ e es
    stored : has_storage r e ≡ true
    exceeded : (cores < r.source_vcpu) ⊎ (lt memory r.source_memory_gb ≡ true)
    best :
        (e' : EligibleCandidate D)
        → Memᴰ e' es
        → has_storage r e' ≡ true
        → is_le (compare_capacity r (ltb cores r.source_vcpu) (lt memory r.source_memory_gb) e e')
          ≡ true

  closest_of-IsClosest :
      (r : TargetSelectionRequest D) (es : List (EligibleCandidate D)) (cores : ℕ) (memory : D)
      (e : EligibleCandidate D)
      → closest_of r true es cores memory ≡ some e
      → IsClosest r es cores memory e
  unfolding closest_of
  closest_of-IsClosest r es cores memory e h =
      let cmp = compare_capacity r (ltb cores r.source_vcpu) (lt memory r.source_memory_gb) in
      let kept = filter (has_storage r) es in
      let found : first (sort_by cmp kept) ≡ some e = ground arith in
      let (member, stored) =
        Memᴰ-of_filter (has_storage r) es (Memᴰ-of_sort_by cmp kept (Memᴰ-of_first _ e found)) in
      record {
        listed = member;
        stored = stored;
        exceeded = ground arith;
        best = λ e' m k.
            first-sort_by (compare_capacity-IsOrder r _ _) kept found
              (Memᴰ-filter (has_storage r) es m k);
      }

  IsClosest-parts :
      (catalog : CapabilityCatalog D) (r : TargetSelectionRequest D) (tier : ServiceTier)
      (e : EligibleCandidate D)
      → closest_capacity_candidate catalog r tier true ≡ some e
      → let es = capacity_candidates catalog r tier in
        (cores : ℕ) × (memory : D) × (greatest compare (map (λ x. x.candidate.vcores) es)
          ≡ some cores)
        × (greatest d.cmp (map (λ x. x.selected_memory_gb) es) ≡ some memory)
        × IsClosest r es cores memory e
  unfolding closest_capacity_candidate
  IsClosest-parts catalog r tier e h =
      let es = capacity_candidates catalog r tier in
      elim (Option-cases (greatest compare (map (λ x. x.candidate.vcores) es))) [
        | inl p ↦ absurd (ground arith)
        | inr (cores, p) ↦
            elim (Option-cases (greatest d.cmp (map (λ x. x.selected_memory_gb) es))) [
              | inl q ↦ absurd (ground arith)
              | inr (memory, q) ↦
                  (cores, memory, p, q, closest_of-IsClosest r es cores memory e (ground arith))
            ]
      ]

  -- Its cores or its memory fall short of the source.
  closest_short :
      (r : TargetSelectionRequest D) (es : List (EligibleCandidate D)) (cores : ℕ) (memory : D)
      (e : EligibleCandidate D)
      → greatest compare (map (λ x. x.candidate.vcores) es) ≡ some cores
      → greatest d.cmp (map (λ x. x.selected_memory_gb) es) ≡ some memory
      → IsClosest r es cores memory e
      → (e.candidate.vcores < r.source_vcpu) ⊎ (lt e.selected_memory_gb r.source_memory_gb ≡ true)
  closest_short r es cores memory e p q c =
      let most = greatest-le compare-IsOrder _ p (Memᴰ-map (λ x. x.candidate.vcores) es c.listed) in
      let largest = greatest-le laws.order _ q (Memᴰ-map (λ x. x.selected_memory_gb) es c.listed) in
      ground (
        arith,
        c.exceeded,
        laws.order.trans r.source_memory_gb e.selected_memory_gb memory,
        laws.order.flips r.source_memory_gb e.selected_memory_gb,
        laws.order.flips memory r.source_memory_gb,
      )

  capacity_limited_lem :
      (r : TargetSelectionRequest D) (tier : ServiceTier) (c : TargetCandidate D)
      (e : EligibleCandidate D)
      → in_region_and_tier c r tier ≡ true
      → capacity_limited r tier c ≡ some e
      → (e.candidate ≡ c) × (c.zone_redundant ≡ false)
  unfolding capacity_limited evaluate_candidate any zone_reasons
  capacity_limited_lem r tier c e place h = ground arith

  -- What the capacity-limited match is.
  pub record IsCapacityMatch (catalog : CapabilityCatalog D) (r : TargetSelectionRequest D)
      (tier : ServiceTier) (e : EligibleCandidate D) : Type 0 where
    pub listed : Memᴰ e.candidate catalog.candidates
    pub region : e.candidate.azure_region ≡ r.azure_region
    pub tier_of : e.candidate.service_tier ≡ tier
    pub zone : e.candidate.zone_redundant ≡ false
    pub stored : has_storage r e ≡ true
    pub short :
        (e.candidate.vcores < r.source_vcpu) ⊎ (lt e.selected_memory_gb r.source_memory_gb ≡ true)
    pub reported : capacity_fallback_reasons r e ≢ []

  reasons_of_short :
      (r : TargetSelectionRequest D) (e : EligibleCandidate D)
      → (e.candidate.vcores < r.source_vcpu) ⊎ (lt e.selected_memory_gb r.source_memory_gb ≡ true)
      → capacity_fallback_reasons r e ≢ []
  unfolding capacity_fallback_reasons
  reasons_of_short r e short h = ground arith

  closest_capacity_candidate-IsCapacityMatch :
      (catalog : CapabilityCatalog D) (r : TargetSelectionRequest D) (tier : ServiceTier)
      (e : EligibleCandidate D)
      → closest_capacity_candidate catalog r tier true ≡ some e
      → IsCapacityMatch catalog r tier e
  unfolding capacity_candidates
  closest_capacity_candidate-IsCapacityMatch catalog r tier e h =
      let (cores, memory, p, q, c) = IsClosest-parts catalog r tier e h in
      let here = λ (c : TargetCandidate D). in_region_and_tier c r tier in
      let (source, m, found) =
        Memᴰ-of_filter_map (capacity_limited r tier) (filter here catalog.candidates) c.listed in
      let (listed, place) = Memᴰ-of_filter here catalog.candidates m in
      let (same, zone) = capacity_limited_lem r tier source e place found in
      let short = closest_short r _ cores memory e p q c in
      record {
        listed = rw same listed;
        region = rw same (ground (arith, eq_iff source.azure_region r.azure_region));
        tier_of = rw same (ground arith);
        zone = rw same zone;
        stored = c.stored;
        short = short;
        reported = reasons_of_short r e short;
      }

  -- When `select_target` falls back to a capacity-limited match, no candidate meets the request, and
  -- the match is in the catalog, in the requested region and tier and without zone redundancy, has
  -- the storage, falls short of the source in cores or in memory, and is reported with a reason.
  pub capacity_fallback-IsCapacityMatch :
      (catalog : CapabilityCatalog D) (r : TargetSelectionRequest D) (tier : ServiceTier)
      (e : EligibleCandidate D)
      → capacity_fallback catalog r tier ≡ some e
      → IsCapacityMatch catalog r tier e × (eligible_candidates catalog r tier true ≡ [])
  unfolding capacity_fallback
  capacity_fallback-IsCapacityMatch catalog r tier e h =
      (closest_capacity_candidate-IsCapacityMatch catalog r tier e (ground arith), ground arith)

  cores_first :
      (r : TargetSelectionRequest D) (memory : Bool) (e e' : EligibleCandidate D)
      → is_le (compare_capacity r true memory e e') ≡ true
      → e'.candidate.vcores ≤ e.candidate.vcores
  unfolding compare_capacity
  cores_first r memory e e' h = ground arith

  -- If no candidate that is limited by capacity has as many cores as the source, the match has the
  -- most cores of those with the storage.
  pub capacity_fallback_cores :
      (catalog : CapabilityCatalog D) (r : TargetSelectionRequest D) (tier : ServiceTier)
      (e e' : EligibleCandidate D)
      → ((x : EligibleCandidate D)
          → Memᴰ x (capacity_candidates catalog r tier)
          → x.candidate.vcores < r.source_vcpu)
      → capacity_fallback catalog r tier ≡ some e
      → Memᴰ e' (capacity_candidates catalog r tier)
      → has_storage r e' ≡ true
      → e'.candidate.vcores ≤ e.candidate.vcores
  unfolding capacity_fallback
  capacity_fallback_cores catalog r tier e e' few h m stored =
      let (cores, memory, p, q, c) = IsClosest-parts catalog r tier e (ground arith) in
      let es = capacity_candidates catalog r tier in
      let (x, i, same) =
        Memᴰ-of_map (λ (x : EligibleCandidate D). x.candidate.vcores) es
          (Memᴰ-greatest compare (map (λ x. x.candidate.vcores) es) p) in
      let over : ltb cores r.source_vcpu ≡ true = ground (arith, few x i) in
      cores_first r (lt memory r.source_memory_gb) e e' (rw over at (c.best e' m stored))
