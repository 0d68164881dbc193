-- ===== src/Vm/Prices.antt =====
-- What the prices offer of `select_vm_target` in rust/src/calculation/vm_target_selector.rs: the hourly
-- rate of a size, and whether every price of a disk is there.
use tco_calculator.Prelude.{
  Bool, true, false, ◌&&◌, ◌||◌, String, Option, none, some, List, [], ◌∷◌, is_some, map_or, any,
  ◌==◌, if◌then◌else◌,
}
use text.Mathlib.Text.{◌==◌ as text_eq}
use tco_calculator.Decimal.{Decimal, ◌==◌ as decimal_eq, nought}
use tco_calculator.Vm.Types.{
  VmSizeCandidate, VmDiskPriceDimension, capacity_tier, capacity_gb, additional_iops,
  additional_throughput, VmPriceAvailability, VmTargetSelectionRequest, SelectedManagedDisk,
}
use tco_calculator.Vm.Text.{is_lowercase_of}

abbrev pub dimension_eq : VmDiskPriceDimension → VmDiskPriceDimension → Bool
dimension_eq capacity_tier capacity_tier = true
dimension_eq capacity_gb capacity_gb = true
dimension_eq additional_iops additional_iops = true
dimension_eq additional_throughput additional_throughput = true
dimension_eq _ _ = false

abbrev pub tier_key_eq : Option String → Option String → Bool
tier_key_eq none none = true
tier_key_eq none (some b) = false
tier_key_eq (some a) none = false
tier_key_eq (some a) (some b) = text_eq a b

module _ {D : Type 0} ⦃d : Decimal D⦄ where
  -- the closure `contains` of `managed_disk_price_is_complete`
  unfoldable pub contains_dimension :
      VmPriceAvailability D → SelectedManagedDisk D → VmDiskPriceDimension → Bool
  unfolding any
  contains_dimension availability disk dimension =
      any
        (λ key.
          text_eq key.offer_key disk.offer_key
          && tier_key_eq key.tier_key disk.tier_key
          && dimension_eq key.dimension dimension)
        availability.managed_disk_dimensions

  unfoldable pub managed_disk_price_is_complete :
      VmPriceAvailability D → SelectedManagedDisk D → Bool
  unfolding contains_dimension
  managed_disk_price_is_complete availability disk =
      if is_some disk.tier_key
      then contains_dimension availability disk capacity_tier
      else (contains_dimension availability disk capacity_gb
          && (disk.billed_additional_iops == 0
              || contains_dimension availability disk additional_iops)
          && (decimal_eq disk.billed_additional_throughput_mbps nought
              || contains_dimension availability disk additional_throughput))

  -- `vm_hourly_rates.get(&arm_sku_name.to_ascii_lowercase())`
  unfoldable pub rate_of : String → List (String × D) → Option D
  unfolding is_lowercase_of
  rate_of arm_sku_name [] = none
  rate_of arm_sku_name ((key, rate) ∷ rates) =
      if is_lowercase_of key arm_sku_name then some rate else rate_of arm_sku_name rates

  unfoldable pub hourly_rate_of : VmTargetSelectionRequest D → VmSizeCandidate D → Option D
  unfolding rate_of
  hourly_rate_of request candidate =
      map_or request.price_availability none
        λ availability. rate_of candidate.arm_sku_name availability.vm_hourly_rates
