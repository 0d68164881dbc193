-- ===== src/Target/Report.antt =====
-- What `select_target` of rust/src/calculation/target_selector.rs reports beside the selected target:
-- the evaluation of each candidate and the escalation for storage.
use Prim.Native.Nat.{compare}
use Prim.Native.String.{compare as compare_text}
use mathlib.Core.List.{Memᴰ, Permᴰ}
use text.Mathlib.TextEquality.{eq_iff}
use tco_calculator.Prelude.{
  ◌≡◌, ◌≢◌, refl, sym, ◌∙◌, ◌↔◌, ◌⊎◌, inl, inr, true, false, some, List, [], ◌∷◌, first, filter,
  map, All, arith, Option-cases, Memᴰ-of_first,
}
use tco_calculator.Ordering.{
  IsOrder, is_le, then_with-IsOrder, pull-IsOrder, swap-IsOrder, compare-IsOrder,
  compare_text-IsOrder,
}
use tco_calculator.Ordering.Sort.{IsSorted, sort_by-IsSorted, sort_by-perm}
use tco_calculator.Decimal.{Decimal, IsDecimal, ◌<=◌, ◌≼◌}
use tco_calculator.Target.Types.{
  ServiceTier, TargetCandidate, CapabilityCatalog, TargetSelectionRequest, CandidateEvaluation,
  StorageEscalation, EligibleCandidate,
}
use tco_calculator.Target.Candidate.{
  in_region_and_tier, smallest_memory, zone_reasons, hardware_reasons, vcore_reasons,
  memory_reasons, storage_reasons, evaluate_candidate, eligible_candidates,
}
use tco_calculator.Target.Select.{
  compare_bool, compare_evaluations, evaluation, candidate_evaluations, storage_escalation,
}
use tco_calculator.Target.Eligible.{Passes, Meets, Passes-Meets, Meets-Passes}
use tco_calculator.Target.Ranking.{
  smallest_memory-IsSmallest, smallest_memory-IsSome, eligible_candidates-Meets,
}

compare_bool-IsOrder : IsOrder compare_bool
compare_bool-IsOrder = record { flips = λ a b. ground arith; trans = λ a b c h k. ground arith }

module _ {D : Type 0} ⦃d : Decimal D⦄ where
  -- No ineligible item stands before an eligible one.
  abbrev pub EligibleFirst : List (CandidateEvaluation D) → Type 0
  EligibleFirst [] = Unit
  EligibleFirst (x ∷ xs) =
      All (λ (y : CandidateEvaluation D). (x.eligible ≡ true) ⊎ (y.eligible ≡ false)) xs
      × EligibleFirst xs

  eligible_first :
      (x : CandidateEvaluation D) (xs : List (CandidateEvaluation D))
      → All (λ y. is_le (compare_evaluations x y) ≡ true) xs
      → All (λ y. (x.eligible ≡ true) ⊎ (y.eligible ≡ false)) xs
  unfolding compare_evaluations
  eligible_first x [] h = tt
  eligible_first x (y ∷ ys) h = (ground arith, eligible_first x ys h.1)

  IsSorted-EligibleFirst :
      (xs : List (CandidateEvaluation D)) → IsSorted compare_evaluations xs → EligibleFirst xs
  IsSorted-EligibleFirst [] s = tt
  IsSorted-EligibleFirst (x ∷ xs) s = (eligible_first x xs s.0, IsSorted-EligibleFirst xs s.1)

  compare_evaluations-IsOrder : IsOrder (compare_evaluations {D = D})
  unfolding compare_evaluations
  compare_evaluations-IsOrder =
      then_with-IsOrder _ _
        (pull-IsOrder (λ a b. compare_bool b a) (λ (e : CandidateEvaluation D). e.eligible)
          (swap-IsOrder compare_bool compare_bool-IsOrder))
        (then_with-IsOrder _ _ (pull-IsOrder compare (λ e. e.vcores) compare-IsOrder)
          (pull-IsOrder compare_text (λ e. e.configuration_key) compare_text-IsOrder))

  -- `candidate_evaluations` lists one evaluation for each candidate of the region and tier, in
  -- another order, with the eligible ones first.
  pub candidate_evaluations-EligibleFirst :
      (catalog : CapabilityCatalog D) (r : TargetSelectionRequest D) (tier : ServiceTier)
      → Permᴰ
          (candidate_evaluations catalog r tier)
          (map (evaluation r tier) (filter (λ c. in_region_and_tier c r tier) catalog.candidates))
        × EligibleFirst (candidate_evaluations catalog r tier)
  unfolding candidate_evaluations
  candidate_evaluations-EligibleFirst catalog r tier = (
    sort_by-perm compare_evaluations _,
    IsSorted-EligibleFirst _ (sort_by-IsSorted compare_evaluations-IsOrder _),
  )

  evaluation-eligible :
      (r : TargetSelectionRequest D) (tier : ServiceTier) (c : TargetCandidate D)
      → in_region_and_tier c r tier ≡ true
      → (evaluation r tier c).eligible ≡ true
      → (memory : D) × Passes r tier true c memory
  unfolding evaluation evaluate_candidate zone_reasons hardware_reasons vcore_reasons memory_reasons
      storage_reasons
  evaluation-eligible r tier c place h = elim (Option-cases (smallest_memory c r)) [
    | inl e ↦ absurd (ground arith)
    | inr (memory, e) ↦ (memory, ground arith)
  ]

  evaluation_of_Passes :
      (r : TargetSelectionRequest D) (tier : ServiceTier) (c : TargetCandidate D) (memory : D)
      → Passes r tier true c memory
      → (evaluation r tier c).eligible ≡ true
  unfolding evaluation evaluate_candidate zone_reasons hardware_reasons vcore_reasons memory_reasons
      storage_reasons
  evaluation_of_Passes r tier c memory p = ground arith

  escalation_lem :
      (without_storage with_storage : List (EligibleCandidate D)) (r : TargetSelectionRequest D)
      (x : StorageEscalation D)
      → storage_escalation without_storage with_storage r ≡ some x
      → (p : EligibleCandidate D) × (s : EligibleCandidate D) × (first without_storage ≡ some p)
        × (first with_storage ≡ some s)
        × (x.rejected_configuration_key ≡ p.candidate.configuration_key)
        × (x.selected_configuration_key ≡ s.candidate.configuration_key)
        × (p.candidate.configuration_key ≢ s.candidate.configuration_key)
        × (p.candidate.maximum_storage_gb ≡ some x.rejected_maximum_storage_gb)
        × ((r.required_storage_gb <= x.rejected_maximum_storage_gb) ≡ false)
  unfolding storage_escalation
  escalation_lem [] w r x h = cc
  escalation_lem (p ∷ ps) [] r x h = cc
  escalation_lem (p ∷ ps) (s ∷ ss) r x h = (
    p,
    s,
    refl,
    refl,
    ground arith,
    ground arith,
    ground (arith, eq_iff p.candidate.configuration_key s.candidate.configuration_key),
    ground arith,
    ground arith,
  )

module _ {D : Type 0} ⦃d : Decimal D⦄ (laws : IsDecimal D) where
  -- Of a candidate in the region and tier, the evaluation says that it is eligible exactly if the
  -- candidate meets the request, storage included, and supports a memory size that covers the source.
  pub evaluation-eligible_iff :
      (r : TargetSelectionRequest D) (tier : ServiceTier) (c : TargetCandidate D)
      → in_region_and_tier c r tier ≡ true
      → ((evaluation r tier c).eligible ≡ true) ↔ (
          Meets r tier true c
          × ((memory : D) × Memᴰ memory c.supported_memory_gb × (r.source_memory_gb ≼ memory)))
  evaluation-eligible_iff r tier c place = (
    λ h.
        let (memory, p) = evaluation-eligible r tier c place h in
        let s = smallest_memory-IsSmallest laws r c p.memory_found in
        (Passes-Meets r tier true c p, (memory, s.supported, s.covers)),
    λ h.
        let (memory, found) = smallest_memory-IsSome laws r c h.1.1 h.1.2 in
        evaluation_of_Passes r tier c memory (Meets-Passes r tier true c h.0 found),
  )

  -- What an escalation for storage says of the rejected candidate `p` and the selected one `s`.
  pub record IsEscalation (catalog : CapabilityCatalog D) (r : TargetSelectionRequest D)
      (tier : ServiceTier) (x : StorageEscalation D) (p s : EligibleCandidate D) : Type 0 where
    pub rejected_listed : Memᴰ p.candidate catalog.candidates
    pub selected_listed : Memᴰ s.candidate catalog.candidates
    pub rejected_meets : Meets r tier false p.candidate
    pub rejected_key : x.rejected_configuration_key ≡ p.candidate.configuration_key
    pub rejected_limit : p.candidate.maximum_storage_gb ≡ some x.rejected_maximum_storage_gb
    pub too_small : (r.required_storage_gb <= x.rejected_maximum_storage_gb) ≡ false
    pub selected_meets : Meets r tier true s.candidate
    pub selected_key : x.selected_configuration_key ≡ s.candidate.configuration_key
    pub different : x.rejected_configuration_key ≢ x.selected_configuration_key

  -- A reported escalation names a candidate of the catalog that meets all but the storage requirement,
  -- with a storage limit below the required size, and another one of the catalog, under another key,
  -- that meets the whole request.
  pub storage_escalation-IsEscalation :
      (catalog : CapabilityCatalog D) (r : TargetSelectionRequest D) (tier : ServiceTier)
      (x : StorageEscalation D)
      → storage_escalation
          (eligible_candidates catalog r tier false)
          (eligible_candidates catalog r tier true)
          r
        ≡ some x
      → (p : EligibleCandidate D) × (s : EligibleCandidate D) × IsEscalation catalog r tier x p s
  storage_escalation-IsEscalation catalog r tier x h =
      let (p, s, hp, hs, kp, ks, ne, limit, small) = escalation_lem _ _ r x h in
      (
        p,
        s,
        record {
          rejected_listed =
              (eligible_candidates-Meets laws catalog r tier false (Memᴰ-of_first _ p hp)).0;
          selected_listed =
              (eligible_candidates-Meets laws catalog r tier true (Memᴰ-of_first _ s hs)).0;
          rejected_meets =
              (eligible_candidates-Meets laws catalog r tier false (Memᴰ-of_first _ p hp)).1;
          rejected_key = kp;
          rejected_limit = limit;
          too_small = small;
          selected_meets =
              (eligible_candidates-Meets laws catalog r tier true (Memᴰ-of_first _ s hs)).1;
          selected_key = ks;
          different = λ e. ne (sym kp ∙ e ∙ ks);
        },
      )
