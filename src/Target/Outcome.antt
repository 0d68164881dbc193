-- ===== src/Target/Outcome.antt =====
-- `select_target` of rust/src/calculation/target_selector.rs: when it selects, and what it selects.
use mathlib.Core.List.{Memᴰ}
use tco_calculator.Prelude.{
  ◌≡◌, refl, true, false, ◌↔◌, ◌<◌, some, List, [], ◌∷◌, first, is_empty, ok, subst, arith,
}
use tco_calculator.Ordering.{is_le}
use tco_calculator.Decimal.{Decimal, IsDecimal, ◌<◌ as lt, ◌<=◌, ◌≼◌, nought}
use tco_calculator.Target.Types.{
  TargetCandidate, CapabilityCatalog, TargetSelectionRequest, TargetSelection, mapped,
  EligibleCandidate,
}
use tco_calculator.Target.Candidate.{eligible_candidates, compare_candidates, vcpu_overage}
use tco_calculator.Target.Select.{
  validate_request, selected_target, outcome_reasons, capacity_fallback, selected_candidate,
  requested_tier, selection, select_target,
}
use tco_calculator.Target.Eligible.{Meets, IsSmallestMemory}
use tco_calculator.Target.Ranking.{
  eligible_candidates-Meets, Meets-eligible_candidates, first-eligible_candidates,
}

module _ {D : Type 0} ⦃d : Decimal D⦄ where
  pub record IsValidRequest (r : TargetSelectionRequest D) : Type 0 where
    pub vcpu : 0 < r.source_vcpu
    pub memory : (r.source_memory_gb <= nought) ≡ false
    pub storage : (lt r.required_storage_gb nought) ≡ false

  -- `select_target` returns a selection exactly for a request with a positive number of vCPUs, a
  -- positive memory size and a storage size that is not negative.
  pub select_target-eq-ok_iff :
      (catalog : CapabilityCatalog D) (r : TargetSelectionRequest D)
      → (select_target catalog r ≡ ok (selection catalog r)) ↔ IsValidRequest r
  unfolding select_target validate_request
  select_target-eq-ok_iff catalog r = (
    λ h. record { vcpu = ground arith; memory = ground arith; storage = ground arith },
    λ v. ground arith,
  )

  pub select_target-eq-ok :
      (catalog : CapabilityCatalog D) (r : TargetSelectionRequest D) {s : TargetSelection D}
      → select_target catalog r ≡ ok s
      → (selection catalog r ≡ s)
  unfolding select_target validate_request
  select_target-eq-ok catalog r h = ground arith

  pub Memᴰ-first :
      (es : List (EligibleCandidate D)) {e : EligibleCandidate D}
      → Memᴰ e es
      → (best : EligibleCandidate D) × (first es ≡ some best) × Memᴰ best es × (is_empty es ≡ false)
  Memᴰ-first [] m = elim m [ ]
  Memᴰ-first (x ∷ xs) m = (x, refl, Memᴰ.head refl, refl)

  pub compare_candidates-vcpu :
      (r : TargetSelectionRequest D) (a b : EligibleCandidate D)
      → is_le (compare_candidates r a b) ≡ true
      → vcpu_overage r a.candidate.vcores ≼ vcpu_overage r b.candidate.vcores
  unfolding compare_candidates
  compare_candidates-vcpu r a b h = ground arith

module _ {D : Type 0} ⦃d : Decimal D⦄ (laws : IsDecimal D) where
  -- What is selected when a candidate of the catalog meets the request.
  pub record IsBestMatch (catalog : CapabilityCatalog D) (r : TargetSelectionRequest D)
      (s : TargetSelection D) (c : TargetCandidate D) (e : EligibleCandidate D) : Type 0 where
    pub status : s.mapping_status ≡ mapped
    pub selected : s.selected ≡ some (selected_target e)
    pub no_reasons : s.outcome_reasons ≡ []
    pub listed : Memᴰ e.candidate catalog.candidates
    pub meets : Meets r s.requested_tier true e.candidate
    pub memory : IsSmallestMemory r e.candidate e.selected_memory_gb
    pub overage : vcpu_overage r e.candidate.vcores ≼ vcpu_overage r c.vcores

  -- The result in terms of the first candidate that fits with its storage.
  selection_of_first :
      (catalog : CapabilityCatalog D) (r : TargetSelectionRequest D) (best : EligibleCandidate D)
      → first (eligible_candidates catalog r (requested_tier catalog r) true) ≡ some best
      → let s = selection catalog r in
        (s.mapping_status ≡ mapped)
        × (s.selected ≡ some (selected_target best))
        × (s.outcome_reasons ≡ [])
  unfolding selection selected_candidate capacity_fallback outcome_reasons
  selection_of_first catalog r best h = ground arith

  best_match :
      (catalog : CapabilityCatalog D) (r : TargetSelectionRequest D) (c : TargetCandidate D)
      (other : D)
      → Memᴰ c catalog.candidates
      → Meets r (requested_tier catalog r) true c
      → Memᴰ other c.supported_memory_gb
      → r.source_memory_gb ≼ other
      → (e : EligibleCandidate D) × IsBestMatch catalog r (selection catalog r) c e
  unfolding selection
  best_match catalog r c other listed meets supported enough =
      let tier = requested_tier catalog r in
      let (memory, m) =
        Meets-eligible_candidates laws catalog r tier true listed meets supported enough in
      let (best, h, b, _) = Memᴰ-first (eligible_candidates catalog r tier true) m in
      let (status, selected, no_reasons) = selection_of_first catalog r best h in
      let (place, fits, least) = eligible_candidates-Meets laws catalog r tier true b in
      (
        best,
        record {
          status = status;
          selected = selected;
          no_reasons = no_reasons;
          listed = place;
          meets = fits;
          memory = least;
          overage =
              compare_candidates-vcpu r best _
                (first-eligible_candidates laws catalog r tier true h m);
        },
      )

  -- If a request is accepted, and a candidate of the catalog meets it in the requested tier, storage
  -- included, and supports enough memory, then `select_target` maps the request, with no reasons, to a
  -- candidate of the catalog that meets it, at the least supported memory size that covers the source,
  -- and with a vCPU overage that is at most the given candidate's.
  pub select_target-IsBestMatch :
      (catalog : CapabilityCatalog D) (r : TargetSelectionRequest D) (s : TargetSelection D)
      (c : TargetCandidate D) (other : D)
      → select_target catalog r ≡ ok s
      → Memᴰ c catalog.candidates
      → Meets r s.requested_tier true c
      → Memᴰ other c.supported_memory_gb
      → r.source_memory_gb ≼ other
      → (e : EligibleCandidate D) × IsBestMatch catalog r s c e
  unfolding selection
  select_target-IsBestMatch catalog r s c other h listed meets supported enough =
      let same = select_target-eq-ok catalog r h in
      subst (λ t. (e : EligibleCandidate D) × IsBestMatch catalog r t c e) same
        (best_match catalog r c other listed (rw (← same) at meets) supported enough)
