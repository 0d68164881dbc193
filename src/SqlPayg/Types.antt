-- ===== src/SqlPayg/Types.antt =====
-- The input, the analysis and the errors of rust/src/calculation/sql_payg.rs.
use tco_calculator.Prelude.{ℕ, String, Option}

abbrev pub rate_source_url : String
rate_source_url = "https://prices.azure.com/api/retail/prices"

abbrev pub rate_verified_on : String
rate_verified_on = "2026-08-07"

abbrev pub max_annual_hours : ℕ
max_annual_hours = 8784

abbrev pub enterprise_rate_mantissa : ℕ
enterprise_rate_mantissa = 375

abbrev pub standard_rate_mantissa : ℕ
standard_rate_mantissa = 100

abbrev pub rate_scale : ℕ
rate_scale = 3

pub record SqlPaygInput (D : Type 0) : Type 0 where
  pub enterprise_licensed_cores : ℕ
  pub standard_licensed_cores : ℕ
  pub software_assurance_annual_usd : D
  pub annual_hours : D
  pub applied_payg_discount : D

pub data SqlPaygOutcome : Type 0 where
  no_discount_needed discount_required full_discount_required : SqlPaygOutcome

pub record SqlPaygAnalysis (D : Type 0) : Type 0 where
  pub enterprise_licensed_cores : ℕ
  pub standard_licensed_cores : ℕ
  pub software_assurance_annual_usd : D
  pub annual_hours : D
  pub enterprise_payg_usd_per_core_hour : D
  pub standard_payg_usd_per_core_hour : D
  pub payg_gross_annual_usd : D
  pub required_payg_discount : D
  pub payg_at_breakeven_usd : D
  pub applied_payg_discount : D
  pub payg_net_annual_usd : D
  pub annual_savings_usd : D
  pub outcome : SqlPaygOutcome
  pub rate_source_url : String
  pub rate_verified_on : String

pub data AnnualHoursWire (D : Type 0) : Type 0 where
  decimal : D → AnnualHoursWire D
  legacy_integer : ℕ → AnnualHoursWire D

pub record SqlPaygAnalysisWire (D : Type 0) : Type 0 where
  pub enterprise_licensed_cores : ℕ
  pub standard_licensed_cores : ℕ
  pub software_assurance_annual_usd : D
  pub annual_hours : AnnualHoursWire D
  pub enterprise_payg_usd_per_core_hour : D
  pub standard_payg_usd_per_core_hour : D
  pub payg_gross_annual_usd : D
  pub required_payg_discount : D
  pub payg_at_breakeven_usd : D
  pub applied_payg_discount : Option D
  pub payg_net_annual_usd : Option D
  pub annual_savings_usd : Option D
  pub outcome : SqlPaygOutcome
  pub rate_source_url : String
  pub rate_verified_on : String

pub data SqlPaygError : Type 0 where
  no_licensed_cores negative_software_assurance : SqlPaygError
  annual_hours_out_of_range applied_discount_out_of_range : SqlPaygError
