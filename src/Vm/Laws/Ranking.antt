-- ===== src/Vm/Laws/Ranking.antt =====
-- What `rank` of rust/src/calculation/vm_target_selector.rs prefers, key by key.
use Prim.Native.Nat.{Ordering, compare}
use tco_calculator.Prelude.{ℕ, ◌<◌, true, ◌≡◌, refl, sym, ◌⊎◌, inl, inr, Option, none, some, arith}
use tco_calculator.Decimal.{Decimal, ◌<◌ as less, ◌==◌ as same, ◌≼◌}
use tco_calculator.Ordering.{is_le, then_with}
use tco_calculator.Vm.Types.{VmLifecycle, current, previous, EvaluatedCandidate}
use tco_calculator.Vm.Select.{lifecycle_rank, compare_option, disk_capacity, rank}

-- the first key decides, or it ties and the others do
then_with_cases :
    (first others : Ordering)
    → is_le (then_with first others) ≡ true
    → (first ≡ Ordering.lt) ⊎ ((first ≡ Ordering.eq) × (is_le others ≡ true))
then_with_cases Ordering.lt others h = inl refl
then_with_cases Ordering.eq others h = inr (refl, h)
then_with_cases Ordering.gt others h = absurd cc

lt_of_compare : (m n : ℕ) → compare m n ≡ Ordering.lt → m < n
lt_of_compare m n h = ground arith

eq_of_compare : (m n : ℕ) → compare m n ≡ Ordering.eq → m ≡ n
eq_of_compare m n h = ground arith

lifecycle_before :
    (a b : VmLifecycle)
    → compare (lifecycle_rank a) (lifecycle_rank b) ≡ Ordering.lt
    → (a ≡ current) × (b ≡ previous)
lifecycle_before current current h = absurd cc
lifecycle_before current previous h = (refl, refl)
lifecycle_before previous current h = absurd cc
lifecycle_before previous previous h = absurd cc

lifecycle_same :
    (a b : VmLifecycle) → compare (lifecycle_rank a) (lifecycle_rank b) ≡ Ordering.eq → a ≡ b
lifecycle_same current current h = refl
lifecycle_same current previous h = absurd cc
lifecycle_same previous current h = absurd cc
lifecycle_same previous previous h = refl

module _ {D : Type 0} ⦃d : Decimal D⦄ where
  -- an hourly rate that is at most the other one, or not known
  abbrev pub IsRateAtMost : Option D → Option D → Type 0
  IsRateAtMost none b = Unit
  IsRateAtMost (some a) none = ⊥
  IsRateAtMost (some a) (some b) = a ≼ b

  -- `a` is no worse than `b`: it is current and `b` is not; or they tie and `a` has the newer
  -- generation; or they tie again and `a` has fewer vCPUs; then less memory; then disks of less
  -- capacity; then a rate that is at most that of `b`.
  pub data NoWorse (a b : EvaluatedCandidate D) : Type 0 where
    by_lifecycle : a.candidate.lifecycle ≡ current → b.candidate.lifecycle ≡ previous → NoWorse a b
    by_generation :
        a.candidate.lifecycle ≡ b.candidate.lifecycle
        → b.candidate.generation_rank < a.candidate.generation_rank
        → NoWorse a b
    by_vcpus :
        a.candidate.lifecycle ≡ b.candidate.lifecycle
        → a.candidate.generation_rank ≡ b.candidate.generation_rank
        → a.candidate.vcpus < b.candidate.vcpus
        → NoWorse a b
    by_memory :
        a.candidate.lifecycle ≡ b.candidate.lifecycle
        → a.candidate.generation_rank ≡ b.candidate.generation_rank
        → a.candidate.vcpus ≡ b.candidate.vcpus
        → less a.candidate.memory_gb b.candidate.memory_gb ≡ true
        → NoWorse a b
    by_disks :
        a.candidate.lifecycle ≡ b.candidate.lifecycle
        → a.candidate.generation_rank ≡ b.candidate.generation_rank
        → a.candidate.vcpus ≡ b.candidate.vcpus
        → same a.candidate.memory_gb b.candidate.memory_gb ≡ true
        → less (disk_capacity a) (disk_capacity b) ≡ true
        → NoWorse a b
    by_rate :
        a.candidate.lifecycle ≡ b.candidate.lifecycle
        → a.candidate.generation_rank ≡ b.candidate.generation_rank
        → a.candidate.vcpus ≡ b.candidate.vcpus
        → same a.candidate.memory_gb b.candidate.memory_gb ≡ true
        → same (disk_capacity a) (disk_capacity b) ≡ true
        → IsRateAtMost a.hourly_rate b.hourly_rate
        → NoWorse a b

  less_of_cmp : (a b : D) → d.cmp a b ≡ Ordering.lt → less a b ≡ true
  less_of_cmp a b h = rw h refl

  same_of_cmp : (a b : D) → d.cmp a b ≡ Ordering.eq → same a b ≡ true
  same_of_cmp a b h = ground arith

  rate_at_most :
      (a b : Option D) (others : Ordering)
      → is_le (then_with (compare_option d.cmp a b) others) ≡ true
      → IsRateAtMost a b
  rate_at_most none b others h = tt
  rate_at_most (some a) none others h = absurd cc
  rate_at_most (some a) (some b) others h = ground arith

  pub rank-NoWorse : (a b : EvaluatedCandidate D) → is_le (rank a b) ≡ true → NoWorse a b
  unfolding rank
  rank-NoWorse a b h = elim (then_with_cases _ _ h) [
    | inl l ↦ let (x, y) = lifecycle_before _ _ l in by_lifecycle x y
    | inr (l, h1) ↦
        let l' = lifecycle_same _ _ l in
        elim (then_with_cases _ _ h1) [
          | inl g ↦ by_generation l' (lt_of_compare _ _ g)
          | inr (g, h2) ↦
              let g' : a.candidate.generation_rank ≡ b.candidate.generation_rank =
                sym (eq_of_compare _ _ g) in
              elim (then_with_cases _ _ h2) [
                | inl v ↦ by_vcpus l' g' (lt_of_compare _ _ v)
                | inr (v, h3) ↦
                    let v' : a.candidate.vcpus ≡ b.candidate.vcpus = eq_of_compare _ _ v in
                    elim (then_with_cases _ _ h3) [
                      | inl m ↦ by_memory l' g' v' (less_of_cmp _ _ m)
                      | inr (m, h4) ↦ elim (then_with_cases _ _ h4) [
                        | inl c ↦ by_disks l' g' v' (same_of_cmp _ _ m) (less_of_cmp _ _ c)
                        | inr (c, h5) ↦
                            by_rate l' g' v' (same_of_cmp _ _ m) (same_of_cmp _ _ c)
                              (rate_at_most a.hourly_rate b.hourly_rate _ h5)
                      ]
                    ]
              ]
        ]
  ]
