-- ===== src/Vm/Laws.antt =====
-- What `select_vm_target` of rust/src/calculation/vm_target_selector.rs selects.
pub mod Ranking
pub mod Selection
pub mod DiskCosts
use mathlib.Core.List.{Memᴰ}
use mathlib.Core.Option.{some-injective}
use tco_calculator.Prelude.{
  ℕ, suc, ◌+◌, ◌%◌, ◌^◌, ◌<◌, ◌≤◌, Bool, true, false, not, ◌&&◌, ◌≡◌, refl, sym, ap, Option, none,
  some, List, [], ◌∷◌, filter_map, All, All-of_Memᴰ, All-Memᴰ, concat-empty, length,
  Memᴰ-filter_map, inl, inr, Option-cases, Bool-cases, arith, is_some, is_empty, ◌==◌,
}
use tco_calculator.Decimal.{Decimal, IsDecimal, ◌≼◌, nought}
use tco_calculator.Decimal.Signs.{le_of_not-lt}
use tco_calculator.Vm.Types.{
  VmLineage, VmLifecycle, current, previous, VmCapabilityCatalog, VmSizeCandidate,
  ManagedDiskCatalog, VmVolumeRequirement, VmTargetSelectionRequest, SelectedManagedDisk,
  VmSelectionReason, EvaluatedCandidate,
}
use tco_calculator.Vm.Disks.{select_disk}
use tco_calculator.Vm.Disks.Laws.{IsDiskFor, select_disk-IsDiskFor}
use tco_calculator.Vm.Prices.{hourly_rate_of}
use tco_calculator.Vm.Reasons.{
  reject_if, is_current, lineage_eq, target_lineage, disks_for, sum_iops, capability_checks,
  missing_disk_reason, aggregate_checks, rejection_checks, capability_reasons, missing_disk_reasons,
  aggregate_reasons, rejection_reasons,
}
use tco_calculator.Vm.Candidate.{in_region, eligible_candidate}

reject_if-empty : (b : Bool) (r : VmSelectionReason) → reject_if b r ≡ [] → b ≡ false
reject_if-empty true r h = absurd cc
reject_if-empty false r h = refl

passes : {b : Bool} → not b ≡ false → b ≡ true
passes h = ground arith

current_eq : (l : VmLifecycle) → not (is_current l) ≡ false → l ≡ current
current_eq current h = refl
current_eq previous h = absurd cc

lineage_sound : (a b : VmLineage) → lineage_eq a b ≡ true → a ≡ b
lineage_sound VmLineage.burstable VmLineage.burstable h = refl
lineage_sound VmLineage.general_purpose VmLineage.general_purpose h = refl
lineage_sound VmLineage.memory_optimized VmLineage.memory_optimized h = refl
lineage_sound a b h = ground arith

no_member : {r : VmSelectionReason} → Memᴰ r [] → ⊥
no_member m = elim m [ ]

not_empty : {A : Type 0} (xs : List A) → is_empty xs ≡ true → xs ≡ []
not_empty [] h = refl
not_empty (x ∷ xs) h = absurd cc

length-filter_map {ℓ κ} :
    {A : Type ℓ} {B : Type κ} (f : A → Option B) (xs : List A)
    → All (λ (x : A). is_some (f x) ≡ true) xs
    → length (filter_map f xs) ≡ length xs
unfolding filter_map
length-filter_map f [] h = refl
length-filter_map f (x ∷ xs) h = elim (Option-cases (f x)) [
  | inl e ↦ let h' = rw e at h.0 in absurd cc
  | inr (y, e) ↦ rw e (ap suc (length-filter_map f xs h.1))
]

module _ {D : Type 0} ⦃d : Decimal D⦄ where
  -- the sum of the IOPS, which `sum_iops` wraps
  unfoldable pub total_iops : List (SelectedManagedDisk D) → ℕ
  total_iops [] = 0
  total_iops (disk ∷ disks) = disk.provisioned_iops + total_iops disks

  sum_iops_wraps :
      (disks : List (SelectedManagedDisk D)) → sum_iops disks ≡ total_iops disks % 2 ^ 64
  unfolding sum_iops total_iops
  sum_iops_wraps [] = refl
  sum_iops_wraps (disk ∷ disks) = omega (arith, sum_iops_wraps disks)

  sum_iops_total :
      (disks : List (SelectedManagedDisk D))
      → total_iops disks < 2 ^ 64
      → sum_iops disks ≡ total_iops disks
  sum_iops_total disks h = omega (arith, sum_iops_wraps disks)

  -- A target for the request: a current Windows size of the catalog in the region and the lineage, with
  -- the cores and the memory, and with a disk for each volume, which together have no more IOPS than
  -- the size allows.
  pub record IsTarget (vm_catalog : VmCapabilityCatalog D) (request : VmTargetSelectionRequest D)
      (evaluated : EvaluatedCandidate D) : Type 0 where
    pub member : Memᴰ evaluated.candidate vm_catalog.candidates
    pub region : in_region request evaluated.candidate ≡ true
    pub lineage : evaluated.candidate.lineage ≡ target_lineage request.source_class
    pub lifecycle : evaluated.candidate.lifecycle ≡ current
    pub windows : evaluated.candidate.windows_eligible ≡ true
    pub vcpus : request.minimum_vcpu ≤ evaluated.candidate.vcpus
    pub memory : request.minimum_memory_gb ≼ evaluated.candidate.memory_gb
    pub disks :
        All
          (λ (volume : VmVolumeRequirement D).
            (disk : SelectedManagedDisk D) × Memᴰ disk evaluated.disks × IsDiskFor volume disk)
          request.volumes
    pub count : length evaluated.disks ≡ length request.volumes
    pub iops : total_iops evaluated.disks ≤ evaluated.candidate.uncached_disk_iops

module _ {D : Type 0} ⦃d : Decimal D⦄ (laws : IsDecimal D) where
  missing_reported :
      (disk_catalog : ManagedDiskCatalog D) (request : VmTargetSelectionRequest D)
      (volume : VmVolumeRequirement D)
      → select_disk disk_catalog request.azure_region volume ≡ none
      → (r : VmSelectionReason) × (missing_disk_reason disk_catalog request volume ≡ some r)
  unfolding missing_disk_reason
  missing_reported disk_catalog request volume e = rw e (_, refl)

  no_missing :
      (disk_catalog : ManagedDiskCatalog D) (request : VmTargetSelectionRequest D)
      (volume : VmVolumeRequirement D)
      → missing_disk_reasons disk_catalog request ≡ []
      → Memᴰ volume request.volumes
      → (disk : SelectedManagedDisk D) × (select_disk disk_catalog request.azure_region volume
          ≡ some disk)
  unfolding missing_disk_reasons missing_disk_reason
  no_missing disk_catalog request volume h m =
      elim (Option-cases (select_disk disk_catalog request.azure_region volume)) [
        | inr (disk, e) ↦ (disk, e)
        | inl e ↦
            let (reported, r) = missing_reported disk_catalog request volume e in
            let listed =
              Memᴰ-filter_map (missing_disk_reason disk_catalog request) request.volumes m r in
            absurd (no_member (rw h at listed))
      ]

  accepted-IsTarget :
      (vm_catalog : VmCapabilityCatalog D) (disk_catalog : ManagedDiskCatalog D)
      (request : VmTargetSelectionRequest D) (candidate : VmSizeCandidate D)
      → All (λ (v : VmVolumeRequirement D). nought ≼ v.capacity_gb) request.volumes
      → total_iops (disks_for disk_catalog request) < 2 ^ 64
      → Memᴰ candidate vm_catalog.candidates
      → in_region request candidate ≡ true
      → lineage_eq candidate.lineage (target_lineage request.source_class) ≡ true
      → rejection_reasons disk_catalog request candidate ≡ []
      → IsTarget vm_catalog request (record {
        candidate = candidate;
        disks = disks_for disk_catalog request;
        hourly_rate = hourly_rate_of request candidate;
      })
  unfolding rejection_reasons capability_reasons aggregate_reasons disks_for
  accepted-IsTarget vm_catalog disk_catalog request candidate sizes bound m region lineage h =
      let (capability, (missing, (aggregate, prices))) =
        concat-empty (rejection_checks disk_catalog request candidate) h in
      let (lifecycle, (windows, (cpu, (premium, (vcpus, (memory, local)))))) =
        concat-empty (capability_checks request candidate) capability in
      let select = select_disk disk_catalog request.azure_region in
      let has_disk = no_missing disk_catalog request in
      let count = length-filter_map select request.volumes (
        All-of_Memᴰ (λ volume. is_some (select volume) ≡ true) request.volumes
          λ volume i. let (disk, e) = has_disk volume missing i in rw e refl) in
      let counted : (length (disks_for disk_catalog request) == length request.volumes) ≡ true =
        ground (arith, count) in
      let (iops, throughput) =
        concat-empty (aggregate_checks request candidate (disks_for disk_catalog request))
          (rw counted at aggregate) in
      record {
        member = m;
        region = region;
        lineage = lineage_sound candidate.lineage (target_lineage request.source_class) lineage;
        lifecycle = current_eq candidate.lifecycle (reject_if-empty _ _ lifecycle);
        windows = passes (reject_if-empty _ _ windows);
        vcpus = ground (arith, reject_if-empty _ _ vcpus);
        memory = le_of_not-lt laws _ _ (reject_if-empty _ _ memory);
        disks = All-of_Memᴰ _ request.volumes λ volume i.
            let (disk, e) = has_disk volume missing i in
            (
              disk,
              Memᴰ-filter_map select request.volumes i e,
              select_disk-IsDiskFor laws disk_catalog request.azure_region volume disk
                  (All-Memᴰ (λ (v : VmVolumeRequirement D). nought ≼ v.capacity_gb) sizes i) e,
            );
        count = count;
        iops = ground (
          arith,
          reject_if-empty _ _ iops,
          sum_iops_total (disks_for disk_catalog request) bound,
        );
      }

  pub eligible-IsTarget :
      (vm_catalog : VmCapabilityCatalog D) (disk_catalog : ManagedDiskCatalog D)
      (request : VmTargetSelectionRequest D) (candidate : VmSizeCandidate D)
      (evaluated : EvaluatedCandidate D)
      → All (λ (v : VmVolumeRequirement D). nought ≼ v.capacity_gb) request.volumes
      → total_iops (disks_for disk_catalog request) < 2 ^ 64
      → Memᴰ candidate vm_catalog.candidates
      → eligible_candidate disk_catalog request candidate ≡ some evaluated
      → IsTarget vm_catalog request evaluated
  unfolding eligible_candidate
  eligible-IsTarget vm_catalog disk_catalog request candidate evaluated sizes bound m h =
      elim (Bool-cases (
        in_region request candidate
        && lineage_eq candidate.lineage (target_lineage request.source_class)
        && is_empty (rejection_reasons disk_catalog request candidate))) [
          | inr e ↦ let h' = rw e at h in absurd cc
          | inl e ↦
              let region : in_region request candidate ≡ true = ground arith in
              let lineage : lineage_eq candidate.lineage (target_lineage request.source_class)
                  ≡ true =
                ground arith in
              let clear : is_empty (rejection_reasons disk_catalog request candidate) ≡ true =
                ground arith in
              let same = rw e at h in
              rw (sym (some-injective _ _ same)) (
                accepted-IsTarget vm_catalog disk_catalog request candidate sizes bound m region
                  lineage (not_empty _ clear))
        ]
