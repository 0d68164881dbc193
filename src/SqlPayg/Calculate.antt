-- ===== src/SqlPayg/Calculate.antt =====
-- `calculate` and the reading of stored analyses of rust/src/calculation/sql_payg.rs.
use tco_calculator.Prelude.{
  not, ◌&&◌, ◌||◌, map_or, if◌then◌else◌, ◌==◌ as nat_eq, Result, ok, ◌>>◌, fail_if,
}
use tco_calculator.Decimal.{
  Decimal, ◌+◌, ◌-◌, ◌*◌, ◌/◌, ◌<◌, ◌<=◌, ◌==◌, nought, one, max_decimal, is_percent,
}
use tco_calculator.SqlPayg.Types.{
  rate_source_url, rate_verified_on, max_annual_hours, enterprise_rate_mantissa,
  standard_rate_mantissa, rate_scale, SqlPaygInput, SqlPaygOutcome, no_discount_needed,
  discount_required, full_discount_required, SqlPaygAnalysis, AnnualHoursWire, decimal,
  legacy_integer, SqlPaygAnalysisWire, SqlPaygError, no_licensed_cores, negative_software_assurance,
  annual_hours_out_of_range, applied_discount_out_of_range,
}

module _ {D : Type 0} ⦃d : Decimal D⦄ where
  abbrev pub hours_of_wire : AnnualHoursWire D → D
  hours_of_wire (decimal hours) = hours
  hours_of_wire (legacy_integer hours) = d.from hours

  -- `From<SqlPaygAnalysisWire>`
  unfoldable pub analysis_of_wire : SqlPaygAnalysisWire D → SqlPaygAnalysis D
  analysis_of_wire value =
      let payg_net_annual_usd : D =
        map_or value.payg_net_annual_usd value.payg_gross_annual_usd (λ net. net) in
      let annual_savings_usd : D =
        map_or value.annual_savings_usd (value.software_assurance_annual_usd - payg_net_annual_usd)
          (λ savings. savings) in
      record {
        enterprise_licensed_cores = value.enterprise_licensed_cores;
        standard_licensed_cores = value.standard_licensed_cores;
        software_assurance_annual_usd = value.software_assurance_annual_usd;
        annual_hours = hours_of_wire value.annual_hours;
        enterprise_payg_usd_per_core_hour = value.enterprise_payg_usd_per_core_hour;
        standard_payg_usd_per_core_hour = value.standard_payg_usd_per_core_hour;
        payg_gross_annual_usd = value.payg_gross_annual_usd;
        required_payg_discount = value.required_payg_discount;
        payg_at_breakeven_usd = value.payg_at_breakeven_usd;
        applied_payg_discount = map_or value.applied_payg_discount nought (λ applied. applied);
        payg_net_annual_usd = payg_net_annual_usd;
        annual_savings_usd = annual_savings_usd;
        outcome = value.outcome;
        rate_source_url = value.rate_source_url;
        rate_verified_on = value.rate_verified_on;
      }

  -- the prices of a core hour
  abbrev pub enterprise_rate : D
  enterprise_rate = d.scaled enterprise_rate_mantissa rate_scale

  abbrev pub standard_rate : D
  standard_rate = d.scaled standard_rate_mantissa rate_scale

  unfoldable pub payg_gross : SqlPaygInput D → D
  payg_gross input =
      let payg_hourly =
        d.from input.enterprise_licensed_cores * enterprise_rate
        + d.from input.standard_licensed_cores * standard_rate in
      payg_hourly * input.annual_hours

  unfoldable pub raw_discount : SqlPaygInput D → D
  unfolding payg_gross
  raw_discount input =
      if payg_gross input == nought
      then nought
      else one - input.software_assurance_annual_usd / payg_gross input

  -- the `if` that names the outcome and the spend at breakeven
  unfoldable pub breakeven : D → D → D → SqlPaygOutcome × D
  unfolding max_decimal
  breakeven raw gross assurance =
      if raw <= nought
      then (no_discount_needed, gross)
      else if max_decimal raw nought == one
      then (full_discount_required, assurance)
      else (discount_required, assurance)

  -- what `calculate` makes of an input that passes its checks
  unfoldable pub analysis : SqlPaygInput D → SqlPaygAnalysis D
  unfolding raw_discount breakeven
  analysis input =
      let payg_gross_annual = payg_gross input in
      let required_discount = max_decimal (raw_discount input) nought in
      let at_breakeven =
        breakeven (raw_discount input) payg_gross_annual input.software_assurance_annual_usd in
      let payg_net_annual = payg_gross_annual * (one - input.applied_payg_discount) in
      let annual_savings = input.software_assurance_annual_usd - payg_net_annual in
      record {
        enterprise_licensed_cores = input.enterprise_licensed_cores;
        standard_licensed_cores = input.standard_licensed_cores;
        software_assurance_annual_usd = input.software_assurance_annual_usd;
        annual_hours = input.annual_hours;
        enterprise_payg_usd_per_core_hour = enterprise_rate;
        standard_payg_usd_per_core_hour = standard_rate;
        payg_gross_annual_usd = payg_gross_annual;
        required_payg_discount = required_discount;
        payg_at_breakeven_usd = at_breakeven.1;
        applied_payg_discount = input.applied_payg_discount;
        payg_net_annual_usd = payg_net_annual;
        annual_savings_usd = annual_savings;
        outcome = at_breakeven.0;
        rate_source_url = rate_source_url;
        rate_verified_on = rate_verified_on;
      }

  unfoldable pub calculate : SqlPaygInput D → Result SqlPaygError (SqlPaygAnalysis D)
  unfolding analysis is_percent
  calculate input = do
    fail_if (nat_eq input.enterprise_licensed_cores 0 && nat_eq input.standard_licensed_cores 0)
        no_licensed_cores
    fail_if (input.software_assurance_annual_usd < nought) negative_software_assurance
    fail_if (input.annual_hours < nought || d.from max_annual_hours < input.annual_hours)
        annual_hours_out_of_range
    fail_if (not (is_percent input.applied_payg_discount)) applied_discount_out_of_range
    ok (analysis input)
