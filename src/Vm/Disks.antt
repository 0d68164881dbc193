-- ===== src/Vm/Disks.antt =====
-- `select_disk` of rust/src/calculation/vm_target_selector.rs, and what it calls.
pub mod Laws
use Prim.Native.Nat.{Ordering}
use Prim.Native.String.{compare as compare_text}
use text.Mathlib.Text.{◌==◌ as text_eq}
use tco_calculator.Prelude.{
  ◌-◌ as minus_ℕ, max, Bool, true, false, not, ◌&&◌, String, Option, none, some, List, [], ◌∷◌, any,
  filter, first, map_or, is_some_and, ltb, leb, if◌then◌else◌,
}
use tco_calculator.Ordering.{then_with, is_lt}
use tco_calculator.Ordering.Extremes.{least}
use tco_calculator.Decimal.{Decimal, ◌+◌, ◌-◌, ◌%◌, ◌<◌, ◌<=◌, nought, max_decimal}
use tco_calculator.Domain.Resource.{VmDiskRole}
use tco_calculator.Vm.Types.{
  ManagedDiskTier, ManagedDiskOffer, ManagedDiskCatalog, VmVolumeRequirement, SelectedManagedDisk,
}
use tco_calculator.Vm.Text.{eq_ignore_ascii_case}

-- the derived `==`
abbrev pub role_eq : VmDiskRole → VmDiskRole → Bool
role_eq VmDiskRole.os VmDiskRole.os = true
role_eq VmDiskRole.disk_data VmDiskRole.disk_data = true
role_eq VmDiskRole.unknown VmDiskRole.unknown = true
role_eq _ _ = false

-- `bool::cmp`
abbrev pub compare_bool : Bool → Bool → Ordering
compare_bool false false = Ordering.eq
compare_bool false true = Ordering.lt
compare_bool true false = Ordering.gt
compare_bool true true = Ordering.eq

-- `Option::unwrap_or`
abbrev pub unwrap_or {ℓ} : {A : Type ℓ} → Option A → A → A
unwrap_or o a = map_or o a (λ x. x)

module _ {D : Type 0} ⦃d : Decimal D⦄ where
  -- the capacity that an offer provisions for a volume, in whole increments
  unfoldable pub independent_capacity : ManagedDiskOffer D → VmVolumeRequirement D → D → D
  unfolding max_decimal
  independent_capacity offer volume increment =
      let capacity = max_decimal volume.capacity_gb (unwrap_or offer.minimum_capacity_gb nought) in
      let remainder = capacity % increment in
      if nought < remainder then capacity + (increment - remainder) else capacity

  unfoldable pub independent_disk_with :
      ManagedDiskOffer D → VmVolumeRequirement D → D → Option (SelectedManagedDisk D)
  unfolding independent_capacity max_decimal
  independent_disk_with offer volume increment =
      let capacity = independent_capacity offer volume increment in
      let included_iops = unwrap_or offer.included_iops 0 in
      let included_throughput = unwrap_or offer.included_throughput_mbps nought in
      let provisioned_iops = max volume.iops included_iops in
      let provisioned_throughput = max_decimal volume.throughput_mbps included_throughput in
      if offer.maximum_capacity_gb < capacity
      then none
      else some (record {
        volume_id = volume.volume_id;
        label = volume.label;
        role = volume.role;
        offer_key = offer.offer_key;
        display_name = offer.display_name;
        tier_key = none;
        capacity_gb = capacity;
        provisioned_iops = provisioned_iops;
        provisioned_throughput_mbps = provisioned_throughput;
        billed_additional_iops = minus_ℕ provisioned_iops included_iops;
        billed_additional_throughput_mbps =
            max_decimal (provisioned_throughput - included_throughput) nought;
      })

  unfoldable pub independent_disk :
      ManagedDiskOffer D → VmVolumeRequirement D → Option (SelectedManagedDisk D)
  unfolding independent_disk_with
  independent_disk offer volume =
      map_or offer.capacity_increment_gb none λ increment.
        if nought < increment then independent_disk_with offer volume increment else none

  unfoldable pub tier_fits : VmVolumeRequirement D → ManagedDiskTier D → Bool
  tier_fits volume tier =
      volume.capacity_gb <= tier.capacity_gb
      && leb volume.iops tier.provisioned_iops
      && volume.throughput_mbps <= tier.provisioned_throughput_mbps

  abbrev pub compare_tiers : ManagedDiskTier D → ManagedDiskTier D → Ordering
  compare_tiers left right =
      then_with (d.cmp left.capacity_gb right.capacity_gb)
        (compare_text left.tier_key right.tier_key)

  unfoldable pub tiered_disk :
      ManagedDiskOffer D → VmVolumeRequirement D → Option (SelectedManagedDisk D)
  unfolding tier_fits filter least
  tiered_disk offer volume =
      map_or (least compare_tiers (filter (tier_fits volume) offer.tiers)) none λ tier.
        some (record {
          volume_id = volume.volume_id;
          label = volume.label;
          role = volume.role;
          offer_key = offer.offer_key;
          display_name = offer.display_name;
          tier_key = some tier.tier_key;
          capacity_gb = tier.capacity_gb;
          provisioned_iops = tier.provisioned_iops;
          provisioned_throughput_mbps = tier.provisioned_throughput_mbps;
          billed_additional_iops = 0;
          billed_additional_throughput_mbps = nought;
        })

  -- the closure `independent` of `prefer_disk`
  unfoldable pub is_independent : ManagedDiskCatalog D → SelectedManagedDisk D → Bool
  unfolding filter
  is_independent catalog disk =
      is_some_and (first (filter (λ offer. text_eq offer.offer_key disk.offer_key) catalog.offers))
        λ offer. offer.performance_is_provisioned_independently

  unfoldable pub prefer_disk :
      SelectedManagedDisk D → SelectedManagedDisk D → ManagedDiskCatalog D → Bool
  unfolding is_independent
  prefer_disk candidate current catalog = is_lt (
      then_with (d.cmp candidate.capacity_gb current.capacity_gb) (
        then_with (compare_bool (is_independent catalog current) (is_independent catalog candidate))
          (compare_text candidate.offer_key current.offer_key)))

  -- the disk of an offer, with the tests that `continue`
  unfoldable pub offer_disk :
      String → VmVolumeRequirement D → ManagedDiskOffer D → Option (SelectedManagedDisk D)
  unfolding any eq_ignore_ascii_case independent_disk tiered_disk
  offer_disk azure_region volume offer =
      if not (any (λ region. eq_ignore_ascii_case region azure_region) offer.azure_regions)
      then none
      else if not (any (λ role. role_eq role volume.role) offer.allowed_roles)
      then none
      else if ltb offer.maximum_iops volume.iops
      then none
      else if d.from offer.maximum_throughput_mbps < volume.throughput_mbps
      then none
      else if offer.performance_is_provisioned_independently
      then independent_disk offer volume
      else tiered_disk offer volume

  -- the better one of the best so far and the disk of the next offer
  unfoldable pub keep_better :
      ManagedDiskCatalog D
      → Option (SelectedManagedDisk D)
      → Option (SelectedManagedDisk D)
      → Option (SelectedManagedDisk D)
  unfolding prefer_disk
  keep_better catalog best none = best
  keep_better catalog none (some disk) = some disk
  keep_better catalog (some current) (some disk) =
      if prefer_disk disk current catalog then some disk else some current

  -- the loop over the offers
  unfoldable pub select_disk_from :
      ManagedDiskCatalog D
      → String
      → VmVolumeRequirement D
      → Option (SelectedManagedDisk D)
      → List (ManagedDiskOffer D)
      → Option (SelectedManagedDisk D)
  unfolding offer_disk keep_better
  select_disk_from catalog azure_region volume best [] = best
  select_disk_from catalog azure_region volume best (offer ∷ offers) =
      select_disk_from catalog azure_region volume
        (keep_better catalog best (offer_disk azure_region volume offer)) offers

  unfoldable pub select_disk :
      ManagedDiskCatalog D → String → VmVolumeRequirement D → Option (SelectedManagedDisk D)
  unfolding select_disk_from
  select_disk catalog azure_region volume =
      select_disk_from catalog azure_region volume none catalog.offers
