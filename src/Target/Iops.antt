-- ===== src/Target/Iops.antt =====
-- The service tier that rust/src/calculation/target_selector.rs requests, by the source's IOPS.
use tco_calculator.Prelude.{
  ◌*◌, ◌≤◌, ◌<◌, ◌≡◌, false, min, inl, inr, some, first, Option-cases, Memᴰ-of_first, arith,
}
use tco_calculator.Decimal.{Decimal, IsDecimal}
use tco_calculator.Target.Types.{
  next_generation_general_purpose, business_critical, CapabilityCatalog, TargetSelectionRequest,
  EligibleCandidate,
}
use tco_calculator.Target.Candidate.{eligible_candidates}
use tco_calculator.Target.Select.{nggp_iops_limit, requested_tier}
use tco_calculator.Target.Ranking.{eligible_candidates-Meets}

module _ {D : Type 0} ⦃d : Decimal D⦄ (laws : IsDecimal D) where
  threshold_ge :
      (catalog : CapabilityCatalog D) (r : TargetSelectionRequest D) (e : EligibleCandidate D)
      → first (eligible_candidates catalog r next_generation_general_purpose false) ≡ some e
      → r.source_vcpu ≤ e.candidate.vcores
  threshold_ge catalog r e h =
      (eligible_candidates-Meets laws catalog r next_generation_general_purpose false
        (Memᴰ-of_first _ e h)).1.vcores

  -- The IOPS limit of the General Purpose tier is at most 80,000, and at least the smaller of that
  -- and 1,600 for each vCPU of the source.
  pub nggp_iops_limit_bounds :
      (catalog : CapabilityCatalog D) (r : TargetSelectionRequest D)
      → (min (1_600 * r.source_vcpu) 80_000 ≤ nggp_iops_limit catalog r)
        × (nggp_iops_limit catalog r ≤ 80_000)
  unfolding nggp_iops_limit
  nggp_iops_limit_bounds catalog r =
      elim (Option-cases
        (first (eligible_candidates catalog r next_generation_general_purpose false))) [
          | inl h ↦ rw h (omega arith)
          | inr (e, h) ↦ rw h (omega (arith, threshold_ge catalog r e h))
        ]

  -- A source that needs more than 80,000 IOPS is placed in the Business Critical tier.
  pub requested_tier_above :
      (catalog : CapabilityCatalog D) (r : TargetSelectionRequest D)
      → 80_000 < r.source_max_iops
      → requested_tier catalog r ≡ business_critical
  unfolding requested_tier
  requested_tier_above catalog r h = ground (arith, nggp_iops_limit_bounds catalog r)

  -- A source that needs at most 80,000 IOPS, and at most 1,600 for each of its vCPUs, is placed in
  -- the General Purpose tier.
  pub requested_tier_within :
      (catalog : CapabilityCatalog D) (r : TargetSelectionRequest D)
      → r.source_max_iops ≤ 80_000
      → r.source_max_iops ≤ 1_600 * r.source_vcpu
      → requested_tier catalog r ≡ next_generation_general_purpose
  unfolding requested_tier
  requested_tier_within catalog r h k = ground (arith, nggp_iops_limit_bounds catalog r)
