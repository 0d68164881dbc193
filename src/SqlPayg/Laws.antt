-- ===== src/SqlPayg/Laws.antt =====
-- What `calculate` of rust/src/calculation/sql_payg.rs accepts and returns.
use tco_calculator.Prelude.{
  ◌==◌ as nat_eq, ◌<◌ as lt_ℕ, ◌+◌ as plus_ℕ, ◌≡◌, refl, true, false, not, ok, Bool-cases, inl, inr,
  ◌↔◌, arith, done, Ensures-then, Ensures-eq-ok, fail_if, ◌||◌, ◌&&◌,
}
use tco_calculator.Decimal.{
  Decimal, IsDecimal, ◌<◌, ◌==◌, ◌≼◌, nought, one, max_decimal, is_percent,
}
use tco_calculator.Decimal.Signs.{
  not-lt_of_le, le_of_not-lt, nonneg-from, nonneg-plus, nonneg-max, discount_factor,
}
use tco_calculator.SqlPayg.Types.{
  max_annual_hours, SqlPaygInput, no_discount_needed, discount_required, full_discount_required,
  SqlPaygAnalysis, no_licensed_cores, negative_software_assurance, annual_hours_out_of_range,
  applied_discount_out_of_range,
}
use tco_calculator.SqlPayg.Calculate.{analysis, payg_gross, raw_discount, breakeven, calculate}

module _ {D : Type 0} ⦃d : Decimal D⦄ where
  -- the inputs that `calculate` documents
  pub record IsAccepted (input : SqlPaygInput D) : Type 0 where
    pub cores : lt_ℕ 0 (plus_ℕ input.enterprise_licensed_cores input.standard_licensed_cores)
    pub assurance : nought ≼ input.software_assurance_annual_usd
    pub hours_low : nought ≼ input.annual_hours
    pub hours_high : input.annual_hours ≼ d.from max_annual_hours
    pub discount_low : nought ≼ input.applied_payg_discount
    pub discount_high : input.applied_payg_discount ≼ one

  -- What an analysis says of its amounts: the net spend lies between 0 and the gross, the discount
  -- that is required between 0 and 1, and the outcome names where the breakeven is.
  pub record IsSound (a : SqlPaygAnalysis D) : Type 0 where
    pub gross_nonneg : nought ≼ a.payg_gross_annual_usd
    pub net_nonneg : nought ≼ a.payg_net_annual_usd
    pub net_le : a.payg_net_annual_usd ≼ a.payg_gross_annual_usd
    pub required_low : nought ≼ a.required_payg_discount
    pub required_high : a.required_payg_discount ≼ one
    pub none_needed :
        a.outcome ≡ no_discount_needed
        → ((a.required_payg_discount == nought) ≡ true)
          × (a.payg_at_breakeven_usd ≡ a.payg_gross_annual_usd)
    pub full_needed :
        a.outcome ≡ full_discount_required
        → ((a.required_payg_discount == one) ≡ true)
          × (a.payg_at_breakeven_usd ≡ a.software_assurance_annual_usd)
    pub some_needed :
        a.outcome ≡ discount_required
        → ((nought < a.required_payg_discount) ≡ true)
          × ((a.required_payg_discount < one) ≡ true)
          × (a.payg_at_breakeven_usd ≡ a.software_assurance_annual_usd)

module _ {D : Type 0} ⦃d : Decimal D⦄ (laws : IsDecimal D) where
  calculate_checks :
      (input : SqlPaygInput D) (a : SqlPaygAnalysis D)
      → calculate input ≡ ok a
      → IsAccepted input × (a ≡ analysis input)
  unfolding calculate is_percent
  calculate_checks input a h =
      Ensures-eq-ok {P = λ (a : SqlPaygAnalysis D). IsAccepted input × (a ≡ analysis input)}
        (Ensures-then
          (fail_if
            (nat_eq input.enterprise_licensed_cores 0 && nat_eq input.standard_licensed_cores 0)
            no_licensed_cores)
          λ t1 e1.
            Ensures-then
              (fail_if (input.software_assurance_annual_usd < nought) negative_software_assurance)
              λ t2 e2.
                Ensures-then
                  (fail_if
                    (input.annual_hours < nought || d.from max_annual_hours < input.annual_hours)
                    annual_hours_out_of_range)
                  λ t3 e3.
                    Ensures-then
                      (fail_if (not (is_percent input.applied_payg_discount))
                        applied_discount_out_of_range)
                      λ t4 e4. done (
                        record {
                          cores = ground arith;
                          assurance = le_of_not-lt laws _ _ (ground arith);
                          hours_low = le_of_not-lt laws _ _ (ground arith);
                          hours_high = le_of_not-lt laws _ _ (ground arith);
                          discount_low = ground arith;
                          discount_high = ground arith;
                        },
                        refl,
                      ))
        h

  calculate_accepts :
      (input : SqlPaygInput D)
      → IsAccepted input
      → (a : SqlPaygAnalysis D) × (calculate input ≡ ok a)
  unfolding calculate is_percent
  calculate_accepts input h =
      let e1 : (nat_eq input.enterprise_licensed_cores 0 && nat_eq input.standard_licensed_cores 0)
          ≡ false =
        ground (arith, h.cores) in
      let e2 = not-lt_of_le laws input.software_assurance_annual_usd nought h.assurance in
      let e3 = not-lt_of_le laws input.annual_hours nought h.hours_low in
      let e4 = not-lt_of_le laws (d.from max_annual_hours) input.annual_hours h.hours_high in
      rw (e1, e2, e3, e4, h.discount_low, h.discount_high) (_, refl)

  gross_nonneg : (input : SqlPaygInput D) → nought ≼ input.annual_hours → nought ≼ payg_gross input
  unfolding payg_gross
  gross_nonneg input h =
      laws.times_nonneg _ _
        (nonneg-plus laws _ _
          (laws.times_nonneg _ _ (nonneg-from laws input.enterprise_licensed_cores)
            (laws.scaled_nonneg 375 3))
          (laws.times_nonneg _ _ (nonneg-from laws input.standard_licensed_cores)
            (laws.scaled_nonneg 100 3)))
        h

  nought_le_one : nought {D = D} ≼ one
  nought_le_one = nonneg-from laws 1

  raw_discount_le_one : (input : SqlPaygInput D) → IsAccepted input → raw_discount input ≼ one
  unfolding raw_discount
  raw_discount_le_one input h = elim (Bool-cases (payg_gross input == nought)) [
    | inl e ↦ rw e nought_le_one
    | inr e ↦
        let positive : (nought < payg_gross input) ≡ true =
          ground
            (arith, laws.order.flips nought (payg_gross input), gross_nonneg input h.hours_low) in
        rw e (
          laws.minus_le one _ (
            laws.over_nonneg input.software_assurance_annual_usd (payg_gross input) h.assurance
              positive))
  ]

  required_le_one : (raw : D) → raw ≼ one → max_decimal raw nought ≼ one
  unfolding max_decimal
  required_le_one raw h = ground (arith, nought_le_one)

  -- `calculate` returns an analysis exactly for an input with at least one licensed core, spend on
  -- Software Assurance that is not negative, annual hours between 0 and 8784 and an applied discount
  -- between 0 and 1.
  pub calculate-eq-ok_iff :
      (input : SqlPaygInput D)
      → ((a : SqlPaygAnalysis D) × (calculate input ≡ ok a)) ↔ IsAccepted input
  calculate-eq-ok_iff input = (λ (a, h). (calculate_checks input a h).0, calculate_accepts input)

  breakeven_outcome :
      (raw gross assurance : D)
      → raw ≼ one
      → ((breakeven raw gross assurance).0 ≡ no_discount_needed
          → ((max_decimal raw nought == nought) ≡ true)
            × ((breakeven raw gross assurance).1 ≡ gross))
        × ((breakeven raw gross assurance).0 ≡ full_discount_required
            → ((max_decimal raw nought == one) ≡ true)
              × ((breakeven raw gross assurance).1 ≡ assurance))
        × ((breakeven raw gross assurance).0 ≡ discount_required
            → ((nought < max_decimal raw nought) ≡ true)
              × ((max_decimal raw nought < one) ≡ true)
              × ((breakeven raw gross assurance).1 ≡ assurance))
  unfolding breakeven max_decimal
  breakeven_outcome raw gross assurance h =
      let flip = laws.order.flips nought raw in
      let same = laws.order.flips nought nought in
      (
        λ e. (ground arith, ground arith),
        λ e. (ground arith, ground arith),
        λ e. (ground arith, ground (arith, required_le_one raw h), ground arith),
      )

  analysis-IsSound : (input : SqlPaygInput D) → IsAccepted input → IsSound (analysis input)
  unfolding analysis is_percent
  analysis-IsSound input accepted =
      let gross = gross_nonneg input accepted.hours_low in
      let (low, high) =
        discount_factor laws input.applied_payg_discount
          (ground (arith, accepted.discount_low, accepted.discount_high)) in
      let raw = raw_discount_le_one input accepted in
      let (no_need, full, partial) =
        breakeven_outcome (raw_discount input) (payg_gross input)
          input.software_assurance_annual_usd raw in
      record {
        gross_nonneg = gross;
        net_nonneg = laws.times_nonneg _ _ gross low;
        net_le = laws.times_le _ _ gross high;
        required_low = nonneg-max laws (raw_discount input);
        required_high = required_le_one (raw_discount input) raw;
        none_needed = no_need;
        full_needed = full;
        some_needed = partial;
      }

  -- Of an analysis that `calculate` returns, gross and net spend are not negative, the net spend is at
  -- most the gross, and the required discount lies between 0 and 1. If the outcome is that no discount
  -- is needed, the required discount is 0 and the spend at breakeven is the gross spend; for a full
  -- discount it is 1, and for any other it lies strictly between, and the spend at breakeven is in
  -- both cases the spend on Software Assurance.
  pub calculate-IsSound :
      (input : SqlPaygInput D) (a : SqlPaygAnalysis D) → calculate input ≡ ok a → IsSound a
  calculate-IsSound input a h =
      let (accepted, e) = calculate_checks input a h in rw e (analysis-IsSound input accepted)
