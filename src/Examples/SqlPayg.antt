-- ===== src/Examples/SqlPayg.antt =====
-- An input of rust/src/calculation/sql_payg.rs.
use tco_calculator.Prelude.{◌≡◌, ◌↔◌, refl, ok}
use tco_calculator.Decimal.Thousandths.{Thousandths, pos, thousandths, Thousandths-IsDecimal}
use tco_calculator.Decimal.{is_percent}
use tco_calculator.SqlPayg.Types.{SqlPaygInput, SqlPaygAnalysis}
use tco_calculator.SqlPayg.Calculate.{analysis, calculate}
use tco_calculator.SqlPayg.Laws.{IsAccepted, IsSound, calculate-eq-ok_iff, calculate-IsSound}
use tco_calculator.Examples.{whole}

abbrev input : SqlPaygInput Thousandths
input = record {
  enterprise_licensed_cores = 8;
  standard_licensed_cores = 4;
  software_assurance_annual_usd = whole 12000;
  annual_hours = whole 8760;
  applied_payg_discount = pos 200;
}

calculate-eq-ok_iff_example :
    ((a : SqlPaygAnalysis Thousandths) × (calculate input ≡ ok a)) ↔ IsAccepted input
calculate-eq-ok_iff_example = calculate-eq-ok_iff Thousandths-IsDecimal input

returns : calculate input ≡ ok (analysis input)
unfolding calculate is_percent
returns = refl

calculate-IsSound_example : IsSound (analysis input)
calculate-IsSound_example = calculate-IsSound Thousandths-IsDecimal input (analysis input) returns
