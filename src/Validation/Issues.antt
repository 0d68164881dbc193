-- ===== src/Validation/Issues.antt =====
-- The issues of rust/src/domain/project.rs, and its helpers.
use tco_calculator.Prelude.{
  ℕ, Bool, true, false, ◌||◌, ◌≡◌, refl, String, List, [], ◌∷◌, if◌then◌else◌,
}
use tco_calculator.Decimal.{Decimal, ◌<◌, ◌<=◌}
use tco_calculator.Domain.Resource.{ProjectType}

abbrev pub max_project_resources : ℕ
max_project_resources = 100

pub record ValidationIssue : Type 0 where
  pub pointer : String
  pub code : String
  pub message : String

unfoldable pub issue : String → String → String → ValidationIssue
issue pointer code message = record { pointer = pointer; code = code; message = message }

-- `if b { issues.push(i) }`
unfoldable pub push_if : Bool → ValidationIssue → List ValidationIssue
push_if b i = if b then i ∷ [] else []

pub push_if-empty : (b : Bool) (i : ValidationIssue) → push_if b i ≡ [] → b ≡ false
unfolding push_if
push_if-empty true i h = absurd cc
push_if-empty false i h = refl

-- the derived `==`
abbrev pub project_type_eq : ProjectType → ProjectType → Bool
project_type_eq ProjectType.ec2 ProjectType.ec2 = true
project_type_eq ProjectType.ec2_vm ProjectType.ec2_vm = true
project_type_eq ProjectType.rds ProjectType.rds = true
project_type_eq ProjectType.on_prem ProjectType.on_prem = true
project_type_eq ProjectType.sql_payg ProjectType.sql_payg = true
project_type_eq _ _ = false

module _ {D : Type 0} ⦃d : Decimal D⦄ where
  unfoldable pub validate_decimal_range : String → D → D → D → Bool → String → List ValidationIssue
  unfolding push_if issue
  validate_decimal_range pointer value minimum maximum minimum_exclusive message =
      let below_minimum = if minimum_exclusive then value <= minimum else value < minimum in
      push_if (below_minimum || maximum < value) (issue pointer "range" message)
