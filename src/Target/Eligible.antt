-- ===== src/Target/Eligible.antt =====
-- What it means that a candidate of rust/src/calculation/target_selector.rs meets a request, and
-- that the tests of `evaluate_candidate` decide it.
use mathlib.Core.List.{Memᴰ}
use text.Mathlib.TextEquality.{eq_iff}
use tco_calculator.Prelude.{
  ◌≤◌, ◌≡◌, Bool, true, false, ◌&&◌, not, some, is_some_and, ltb, arith, ◌⊎◌, inl, inr,
  Option-cases, Bool-cases,
}
use tco_calculator.Decimal.{Decimal, ◌<◌, ◌≼◌}
use tco_calculator.Target.Types.{
  ServiceTier, next_generation_general_purpose, tier_eq, TargetCandidate, TargetSelectionRequest,
  EligibleCandidate,
}
use tco_calculator.Target.Candidate.{
  in_region_and_tier, is_premium, smallest_memory, zone_reasons, hardware_reasons, vcore_reasons,
  memory_reasons, storage_reasons, evaluate_candidate, eligible,
}

module _ {D : Type 0} ⦃d : Decimal D⦄ where
  -- The tests of `evaluate_candidate` all pass.
  pub record Passes (r : TargetSelectionRequest D) (tier : ServiceTier) (enforce : Bool)
      (c : TargetCandidate D) (memory : D) : Type 0 where
    pub placed : in_region_and_tier c r tier ≡ true
    pub zone : c.zone_redundant ≡ false
    pub hardware :
        (r.workbook_parity_mode
          && tier_eq tier next_generation_general_purpose
          && not (is_premium c))
        ≡ false
    pub vcores : ltb c.vcores r.source_vcpu ≡ false
    pub memory_found : smallest_memory c r ≡ some memory
    pub storage :
        (enforce && is_some_and c.maximum_storage_gb (λ maximum. maximum < r.required_storage_gb))
        ≡ false

  pub eligible-Passes :
      (r : TargetSelectionRequest D) (tier : ServiceTier) (enforce : Bool) (c : TargetCandidate D)
      {e : EligibleCandidate D}
      → eligible r tier enforce c ≡ some e
      → (e.candidate ≡ c) × Passes r tier enforce c e.selected_memory_gb
  unfolding eligible evaluate_candidate zone_reasons hardware_reasons vcore_reasons memory_reasons
      storage_reasons
  eligible-Passes r tier enforce c h = ground arith

  pub Passes-eligible :
      (r : TargetSelectionRequest D) (tier : ServiceTier) (enforce : Bool) (c : TargetCandidate D)
      (memory : D)
      → Passes r tier enforce c memory
      → eligible r tier enforce c ≡ some (record { candidate = c; selected_memory_gb = memory })
  unfolding eligible evaluate_candidate zone_reasons hardware_reasons vcore_reasons memory_reasons
      storage_reasons
  Passes-eligible r tier enforce c memory p = ground arith

  -- What a candidate must satisfy, without the order in which the code tests it: place, tier and
  -- zone, the parity rule, cores, memory, and storage where that is enforced.
  pub record Meets (r : TargetSelectionRequest D) (tier : ServiceTier) (enforce : Bool)
      (c : TargetCandidate D) : Type 0 where
    pub region : c.azure_region ≡ r.azure_region
    pub tier_of : c.service_tier ≡ tier
    pub zone : c.zone_redundant ≡ false
    pub hardware :
        r.workbook_parity_mode ≡ true
        → tier ≡ next_generation_general_purpose
        → (c.hardware_family ≡ "Premium Series")
          ⊎ (c.hardware_family ≡ "Premium Series Memory Optimized")
    pub vcores : r.source_vcpu ≤ c.vcores
    pub storage :
        enforce ≡ true
        → (maximum : D) → c.maximum_storage_gb ≡ some maximum
        → (maximum < r.required_storage_gb) ≡ false

  -- The memory size is the least supported one that covers the source.
  pub record IsSmallestMemory (r : TargetSelectionRequest D) (c : TargetCandidate D) (memory : D)
      : Type 0 where
    pub supported : Memᴰ memory c.supported_memory_gb
    pub covers : r.source_memory_gb ≼ memory
    pub smallest :
        (other : D) → Memᴰ other c.supported_memory_gb → r.source_memory_gb ≼ other → memory ≼ other

  pub Passes-Meets :
      (r : TargetSelectionRequest D) (tier : ServiceTier) (enforce : Bool) (c : TargetCandidate D)
      {memory : D}
      → Passes r tier enforce c memory
      → Meets r tier enforce c
  Passes-Meets r tier enforce c p = record {
    region = ground (arith, eq_iff c.azure_region r.azure_region);
    tier_of = ground arith;
    zone = p.zone;
    hardware = λ parity nggp. ground (
      arith,
      eq_iff c.hardware_family "Premium Series",
      eq_iff c.hardware_family "Premium Series Memory Optimized",
    );
    vcores = ground arith;
    storage = λ e maximum m. ground arith;
  }

  pub Meets-Passes :
      (r : TargetSelectionRequest D) (tier : ServiceTier) (enforce : Bool) (c : TargetCandidate D)
      {memory : D}
      → Meets r tier enforce c
      → smallest_memory c r ≡ some memory
      → Passes r tier enforce c memory
  Meets-Passes r tier enforce c m found = record {
    placed = ground (arith, eq_iff c.azure_region r.azure_region);
    zone = m.zone;
    hardware = ground (
      arith,
      eq_iff c.hardware_family "Premium Series",
      eq_iff c.hardware_family "Premium Series Memory Optimized",
    );
    vcores = ground arith;
    memory_found = found;
    storage = elim (Option-cases c.maximum_storage_gb) [
      | inl e ↦ ground arith
      | inr (maximum, e) ↦ elim (Bool-cases enforce) [
        | inl on ↦ ground (arith, m.storage on maximum e)
        | inr off ↦ ground arith
      ]
    ];
  }
