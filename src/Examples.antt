-- ===== src/Examples.antt =====
-- Concrete inputs, and the theorems applied to them. Decimals are thousandths.
pub mod Target
pub mod Divergences
pub mod Cost
pub mod OnPrem
pub mod Azure
pub mod Volumes
pub mod SqlPayg
pub mod Projects
pub mod Clock
pub mod Launches
pub mod Shares
pub mod Consents
pub mod Validation
pub mod Vm
use tco_calculator.Decimal.Thousandths.{Thousandths, pos}
use tco_calculator.Prelude.{ℕ, ◌*◌}

abbrev pub whole : ℕ → Thousandths
whole n = pos (n * 1000)
