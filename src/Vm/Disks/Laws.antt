-- ===== src/Vm/Disks/Laws.antt =====
-- A disk that rust/src/calculation/vm_target_selector.rs selects for a volume holds it.
use tco_calculator.Prelude.{
  ◌≤◌, Bool, true, false, not, ◌≡◌, refl, String, Option, none, some, List, [], ◌∷◌, any, ltb,
  if◌then◌else◌, inl, inr, Bool-cases, Option-cases, arith, filter, Memᴰ-of_filter,
}
use tco_calculator.Ordering.Extremes.{least}
use tco_calculator.Ordering.Extremes.Laws.{Memᴰ-least}
use tco_calculator.Decimal.{Decimal, IsDecimal, ◌+◌, ◌-◌, ◌%◌, ◌<◌, ◌≼◌, nought, max_decimal}
use tco_calculator.Decimal.Signs.{≼_refl, ≼_trans, le-plus, nonneg-max}
use tco_calculator.Vm.Types.{
  ManagedDiskTier, ManagedDiskOffer, ManagedDiskCatalog, VmVolumeRequirement, SelectedManagedDisk,
}
use tco_calculator.Vm.Text.{eq_ignore_ascii_case}
use tco_calculator.Vm.Disks.{
  role_eq, unwrap_or, independent_capacity, independent_disk_with, independent_disk, tier_fits,
  compare_tiers, tiered_disk, prefer_disk, offer_disk, keep_better, select_disk_from, select_disk,
}

module _ {D : Type 0} ⦃d : Decimal D⦄ where
  -- the disk stands for the volume, is at least as large and as fast, and bills no negative throughput
  pub record IsDiskFor (volume : VmVolumeRequirement D) (disk : SelectedManagedDisk D)
      : Type 0 where
    pub id : disk.volume_id ≡ volume.volume_id
    pub role : disk.role ≡ volume.role
    pub capacity : volume.capacity_gb ≼ disk.capacity_gb
    pub iops : volume.iops ≤ disk.provisioned_iops
    pub throughput : volume.throughput_mbps ≼ disk.provisioned_throughput_mbps
    pub billed : nought ≼ disk.billed_additional_throughput_mbps

  data Fits (volume : VmVolumeRequirement D) : Option (SelectedManagedDisk D) → Type 0 where
    missing : Fits volume none
    found : {disk : SelectedManagedDisk D} → IsDiskFor volume disk → Fits volume (some disk)

  Fits-found :
      (volume : VmVolumeRequirement D) (disk : SelectedManagedDisk D)
      → Fits volume (some disk)
      → IsDiskFor volume disk
  Fits-found volume disk (found h) = h

  Fits-if :
      (volume : VmVolumeRequirement D) (b : Bool) (o p : Option (SelectedManagedDisk D))
      → Fits volume o
      → Fits volume p
      → Fits volume (if b then o else p)
  Fits-if volume true o p h k = h
  Fits-if volume false o p h k = k

module _ {D : Type 0} ⦃d : Decimal D⦄ (laws : IsDecimal D) where
  max_left : (a b : D) → a ≼ max_decimal a b
  unfolding max_decimal
  max_left a b = elim (Bool-cases (b < a)) [
    | inl e ↦ rw e (≼_refl laws a)
    | inr e ↦ rw e (ground (arith, laws.order.flips a b))
  ]

  round_up_le :
      (capacity increment : D)
      → nought ≼ capacity
      → (nought < increment) ≡ true
      → capacity ≼ (
          if nought < (capacity % increment)
          then capacity + (increment - (capacity % increment))
          else capacity)
  round_up_le capacity increment h k = elim (Bool-cases (nought < (capacity % increment))) [
    | inl e ↦ rw e (
        le-plus laws capacity _ (
          laws.minus_nonneg increment (capacity % increment)
            (laws.remainder_le capacity increment h k)))
    | inr e ↦ rw e (≼_refl laws capacity)
  ]

  independent_capacity_le :
      (offer : ManagedDiskOffer D) (volume : VmVolumeRequirement D) (increment : D)
      → nought ≼ volume.capacity_gb
      → (nought < increment) ≡ true
      → volume.capacity_gb ≼ independent_capacity offer volume increment
  unfolding independent_capacity
  independent_capacity_le offer volume increment h k =
      let low = max_left volume.capacity_gb (unwrap_or offer.minimum_capacity_gb nought) in
      ≼_trans laws volume.capacity_gb _ _ low
        (round_up_le _ increment (≼_trans laws nought volume.capacity_gb _ h low) k)

  independent_disk-Fits :
      (offer : ManagedDiskOffer D) (volume : VmVolumeRequirement D)
      → nought ≼ volume.capacity_gb
      → Fits volume (independent_disk offer volume)
  unfolding independent_disk independent_disk_with
  independent_disk-Fits offer volume h = elim (Option-cases offer.capacity_increment_gb) [
    | inl e ↦ rw e missing
    | inr (increment, e) ↦ elim (Bool-cases (nought < increment)) [
      | inr k ↦ rw (e, k) missing
      | inl k ↦
          rw (e, k)
            (Fits-if volume
              (offer.maximum_capacity_gb < independent_capacity offer volume increment) none _
              missing
              (found (record {
                id = refl;
                role = refl;
                capacity = independent_capacity_le offer volume increment h k;
                iops = omega arith;
                throughput =
                    max_left volume.throughput_mbps
                      (unwrap_or offer.included_throughput_mbps nought);
                billed = nonneg-max laws _;
              })))
    ]
  ]

  tier_disk :
      (volume : VmVolumeRequirement D) (tier : ManagedDiskTier D) (disk : SelectedManagedDisk D)
      → disk.volume_id ≡ volume.volume_id
      → disk.role ≡ volume.role
      → disk.capacity_gb ≡ tier.capacity_gb
      → disk.provisioned_iops ≡ tier.provisioned_iops
      → disk.provisioned_throughput_mbps ≡ tier.provisioned_throughput_mbps
      → disk.billed_additional_throughput_mbps ≡ nought
      → tier_fits volume tier ≡ true
      → IsDiskFor volume disk
  unfolding tier_fits
  tier_disk volume tier disk i r c p t b h = record {
    id = i;
    role = r;
    capacity = rw c (ground arith);
    iops = rw p (ground arith);
    throughput = rw t (ground arith);
    billed = rw b (≼_refl laws nought);
  }

  tiered_disk-Fits :
      (offer : ManagedDiskOffer D) (volume : VmVolumeRequirement D)
      → Fits volume (tiered_disk offer volume)
  unfolding tiered_disk
  tiered_disk-Fits offer volume =
      elim (Option-cases (least compare_tiers (filter (tier_fits volume) offer.tiers))) [
        | inl e ↦ rw e missing
        | inr (tier, e) ↦
            let (member, fits) =
              Memᴰ-of_filter (tier_fits volume) offer.tiers (Memᴰ-least compare_tiers _ e) in
            rw e (found (tier_disk volume tier _ refl refl refl refl refl refl fits))
      ]

  offer_disk-Fits :
      (region : String) (volume : VmVolumeRequirement D) (offer : ManagedDiskOffer D)
      → nought ≼ volume.capacity_gb
      → Fits volume (offer_disk region volume offer)
  unfolding offer_disk
  offer_disk-Fits region volume offer h =
      Fits-if volume
        (not (any (λ region'. eq_ignore_ascii_case region' region) offer.azure_regions)) none _
        missing
        (Fits-if volume (not (any (λ role. role_eq role volume.role) offer.allowed_roles)) none _
          missing
          (Fits-if volume (ltb offer.maximum_iops volume.iops) none _ missing (
            Fits-if volume (d.from offer.maximum_throughput_mbps < volume.throughput_mbps) none _
              missing
              (Fits-if volume offer.performance_is_provisioned_independently _ _
                (independent_disk-Fits offer volume h) (tiered_disk-Fits offer volume)))))

  keep_better-Fits :
      (catalog : ManagedDiskCatalog D) (volume : VmVolumeRequirement D)
      (o p : Option (SelectedManagedDisk D))
      → Fits volume o
      → Fits volume p
      → Fits volume (keep_better catalog o p)
  unfolding keep_better
  keep_better-Fits catalog volume o none h k = h
  keep_better-Fits catalog volume none (some disk) h k = k
  keep_better-Fits catalog volume (some current) (some disk) h k =
      Fits-if volume (prefer_disk disk current catalog) (some disk) (some current) k h

  select_disk_from-Fits :
      (catalog : ManagedDiskCatalog D) (region : String) (volume : VmVolumeRequirement D)
      (best : Option (SelectedManagedDisk D)) (offers : List (ManagedDiskOffer D))
      → nought ≼ volume.capacity_gb
      → Fits volume best
      → Fits volume (select_disk_from catalog region volume best offers)
  unfolding select_disk_from
  select_disk_from-Fits catalog region volume best [] h k = k
  select_disk_from-Fits catalog region volume best (offer ∷ offers) h k =
      select_disk_from-Fits catalog region volume
        (keep_better catalog best (offer_disk region volume offer)) offers h
        (keep_better-Fits catalog volume best _ k (offer_disk-Fits region volume offer h))

  -- A disk that `select_disk` returns for a volume whose size is not negative has the identifier and
  -- the role of the volume, and at least its capacity, its IOPS and its throughput. The throughput that
  -- is billed for it is not negative.
  pub select_disk-IsDiskFor :
      (catalog : ManagedDiskCatalog D) (region : String) (volume : VmVolumeRequirement D)
      (disk : SelectedManagedDisk D)
      → nought ≼ volume.capacity_gb
      → select_disk catalog region volume ≡ some disk
      → IsDiskFor volume disk
  unfolding select_disk
  select_disk-IsDiskFor catalog region volume disk h e =
      let fits = select_disk_from-Fits catalog region volume none catalog.offers h missing in
      Fits-found volume disk (rw e at fits)
