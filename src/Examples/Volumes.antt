-- ===== src/Examples/Volumes.antt =====
-- Volumes of rust/src/calculation/cost.rs: prices and IOPS.
use tco_calculator.Prelude.{
  ◌⊎◌, filter, false, ℕ, List, ◌≤◌, ◌≡◌, refl, some, none, [], ◌∷◌, ok, Ensures, arith, try_fold,
}
use tco_calculator.Decimal.{◌≼◌}
use tco_calculator.Decimal.Thousandths.{Thousandths, pos, thousandths, Thousandths-IsDecimal}
use tco_calculator.Domain.Resource.{EbsVolume, gp3, ephemeral, volume_type_eq}
use tco_calculator.Cost.Types.{IopsPriceTier}
use tco_calculator.Cost.Rates.{tiered_iops_cost}
use tco_calculator.Cost.Volumes.{source_max_iops, calculate_volume_monthly}
use tco_calculator.Cost.Signs.{IsNonneg, calculate_volume_monthly-IsNonneg}
use mathlib.Core.List.{Memᴰ}
use tco_calculator.Cost.Iops.{source_max_iops_bounds}
use tco_calculator.Cost.Tiers.{IsSchedule, open_tier, limited_tier, tiered_iops_cost_total}
use tco_calculator.Examples.{whole}
use tco_calculator.Examples.Cost.{volume, gp3_rate, ec2_resource}

calculate_volume_monthly-IsNonneg_example :
    Ensures IsNonneg (calculate_volume_monthly gp3 (whole 100) (some 4000) none gp3_rate)
calculate_volume_monthly-IsNonneg_example =
    calculate_volume_monthly-IsNonneg Thousandths-IsDecimal gp3 (whole 100) (some 4000) none
      gp3_rate refl

iops_returns : source_max_iops ec2_resource ≡ ok 3000
unfolding source_max_iops try_fold filter
iops_returns = refl

source_max_iops_bounds_example :
    ((n : ℕ) × (volume.provisioned_iops ≡ some n) × (n ≤ 3000))
    × ((◌≡◌ {A = ℕ} 3000 0)
        ⊎ ((w : EbsVolume Thousandths) × Memᴰ w (volume ∷ [])
            × (volume_type_eq w.volume_type ephemeral ≡ false)
            × (w.provisioned_iops ≡ some 3000)))
source_max_iops_bounds_example =
    source_max_iops_bounds ec2_resource 3000 volume iops_returns (Memᴰ.head refl) refl

abbrev io2_tiers : List (IopsPriceTier Thousandths)
io2_tiers =
    record { up_to_inclusive = some 32_000; monthly_per_iops = pos 65 }
    ∷ record { up_to_inclusive = none; monthly_per_iops = pos 46 }
    ∷ []

io2_tiers-IsSchedule : IsSchedule 0 io2_tiers
io2_tiers-IsSchedule =
    limited_tier 0 32_000 (record { up_to_inclusive = some 32_000; monthly_per_iops = pos 65 })
      (record { up_to_inclusive = none; monthly_per_iops = pos 46 } ∷ []) refl refl (omega arith)
      (open_tier 32_000 (record { up_to_inclusive = none; monthly_per_iops = pos 46 }) [] refl refl)

tiered_iops_cost_total_example :
    (cost : Thousandths) × (tiered_iops_cost 40_000 io2_tiers ≡ ok cost) × (pos 0 ≼ cost)
tiered_iops_cost_total_example =
    tiered_iops_cost_total Thousandths-IsDecimal 40_000 io2_tiers io2_tiers-IsSchedule
