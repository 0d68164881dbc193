-- ===== src/Vm/Laws/Selection.antt =====
-- The best of the eligible sizes in rust/src/calculation/vm_target_selector.rs.
use Prim.Native.Nat.{compare}
use mathlib.Core.List.{Memᴰ}
use mathlib.Core.Option.{some-injective}
use tco_calculator.Prelude.{
  ◌<◌, ◌^◌, true, ◌≡◌, refl, sym, ap, ◌∙◌, Option, none, some, List, All, Memᴰ-filter_map,
  Memᴰ-of_filter_map, Memᴰ-of_filter, Memᴰ-of_first, ok, bind-eq-ok, is_none_or,
}
use tco_calculator.Decimal.{Decimal, IsDecimal, ◌≼◌, nought}
use Prim.Native.String.{String, compare as compare_text}
use tco_calculator.Ordering.{
  IsOrder, is_le, reverse, then_with-IsOrder, swap-IsOrder, pull-IsOrder, compare-IsOrder,
  compare_text-IsOrder,
}
use tco_calculator.Ordering.Extremes.{least}
use tco_calculator.Target.Types.{mapped}
use tco_calculator.Ordering.Extremes.Laws.{Memᴰ-least, least-IsSome, least-le}
use tco_calculator.Vm.Types.{
  VmCapabilityCatalog, VmSizeCandidate, ManagedDiskCatalog, VmVolumeRequirement,
  VmTargetSelectionRequest, SelectedVmTarget, VmTargetSelection, EvaluatedCandidate,
}
use tco_calculator.Vm.Text.{eq_ignore_ascii_case}
use tco_calculator.Vm.Candidate.{eligible_candidate}
use tco_calculator.Vm.Select.{
  lifecycle_rank, compare_option, disk_capacity, validate_request, rank, eligible_targets,
  best_target, selected_target, target_selection, select_vm_target,
}
use tco_calculator.Vm.Reasons.{disks_for}
use tco_calculator.Vm.Laws.{total_iops, IsTarget, eligible-IsTarget}
use tco_calculator.Vm.Laws.Ranking.{NoWorse, rank-NoWorse}

module _ {D : Type 0} ⦃d : Decimal D⦄ (laws : IsDecimal D) where
  best_target-listed :
      (requested : Option String) (eligible : List (EvaluatedCandidate D))
      (best : EvaluatedCandidate D)
      → best_target requested eligible ≡ some best
      → Memᴰ best eligible
        × (is_none_or requested (eq_ignore_ascii_case best.candidate.arm_sku_name) ≡ true)
  unfolding best_target
  best_target-listed none eligible best h = (Memᴰ-least rank eligible h, refl)
  best_target-listed (some requested) eligible best h =
      Memᴰ-of_filter (λ evaluated. eq_ignore_ascii_case evaluated.candidate.arm_sku_name requested)
        eligible (Memᴰ-of_first _ best h)

  selected_best :
      (vm_catalog : VmCapabilityCatalog D) (disk_catalog : ManagedDiskCatalog D)
      (request : VmTargetSelectionRequest D) (best : Option (EvaluatedCandidate D))
      (target : SelectedVmTarget D)
      → (target_selection vm_catalog disk_catalog request best).selected ≡ some target
      → (b : EvaluatedCandidate D) × (best ≡ some b) × (target ≡ selected_target b)
  unfolding target_selection
  selected_best vm_catalog disk_catalog request none target h = absurd cc
  selected_best vm_catalog disk_catalog request (some b) target h =
      (b, refl, sym (some-injective _ _ h))

  selection_of :
      (vm_catalog : VmCapabilityCatalog D) (disk_catalog : ManagedDiskCatalog D)
      (request : VmTargetSelectionRequest D) (selection : VmTargetSelection D)
      → select_vm_target vm_catalog disk_catalog request ≡ ok selection
      → target_selection vm_catalog disk_catalog request (
          best_target request.requested_target_arm_sku
            (eligible_targets vm_catalog disk_catalog request))
        ≡ selection
  unfolding select_vm_target
  selection_of vm_catalog disk_catalog request selection h =
      let (t, v, e) = bind-eq-ok (validate_request request) _ h in cc

  -- If no volume has a negative size, and the IOPS of the disks for the volumes sum to less than 2^64,
  -- where the source would wrap, a target that `select_vm_target` selects is that of a current
  -- Windows size of the catalog in the requested region and the lineage of the source, with at least the
  -- cores and the memory of the source, and is the requested size if one is requested. It has as many
  -- disks as there are volumes, and for each volume one of its identifier and role that is at least as
  -- large and as fast; the disks together have no more IOPS than the size allows.
  pub select_vm_target-IsTarget :
      (vm_catalog : VmCapabilityCatalog D) (disk_catalog : ManagedDiskCatalog D)
      (request : VmTargetSelectionRequest D) (selection : VmTargetSelection D)
      (target : SelectedVmTarget D)
      → All (λ (v : VmVolumeRequirement D). nought ≼ v.capacity_gb) request.volumes
      → total_iops (disks_for disk_catalog request) < 2 ^ 64
      → select_vm_target vm_catalog disk_catalog request ≡ ok selection
      → selection.selected ≡ some target
      → (best : EvaluatedCandidate D) × (target ≡ selected_target best)
        × IsTarget vm_catalog request best
        × (is_none_or request.requested_target_arm_sku
              (eq_ignore_ascii_case best.candidate.arm_sku_name)
            ≡ true)
  unfolding eligible_targets
  select_vm_target-IsTarget vm_catalog disk_catalog request selection target sizes bound h s =
      let made = selection_of vm_catalog disk_catalog request selection h in
      let (best, b, same) =
        selected_best vm_catalog disk_catalog request _ target (ap (λ x. x.selected) made ∙ s) in
      let (member, named) =
        best_target-listed request.requested_target_arm_sku
          (eligible_targets vm_catalog disk_catalog request) best b in
      let (candidate, m, e) =
        Memᴰ-of_filter_map (eligible_candidate disk_catalog request) vm_catalog.candidates member in
      (
        best,
        same,
        eligible-IsTarget laws vm_catalog disk_catalog request candidate best sizes bound m e,
        named,
      )

  option_flips : (a b : Option D) → compare_option d.cmp b a ≡ reverse (compare_option d.cmp a b)
  option_flips none none = refl
  option_flips none (some b) = refl
  option_flips (some a) none = refl
  option_flips (some a) (some b) = laws.order.flips a b

  option_trans :
      (a b c : Option D)
      → is_le (compare_option d.cmp a b) ≡ true
      → is_le (compare_option d.cmp b c) ≡ true
      → is_le (compare_option d.cmp a c) ≡ true
  option_trans none none c h k = k
  option_trans none (some b) none h k = refl
  option_trans none (some b) (some c) h k = refl
  option_trans (some a) none c h k = absurd cc
  option_trans (some a) (some b) none h k = k
  option_trans (some a) (some b) (some c) h k = laws.order.trans a b c h k

  compare_option-IsOrder : IsOrder (compare_option d.cmp)
  compare_option-IsOrder = record { flips = option_flips; trans = option_trans }

  rank-IsOrder : IsOrder (rank {D = D})
  unfolding rank
  rank-IsOrder =
      then_with-IsOrder _ _
        (pull-IsOrder compare (λ (e : EvaluatedCandidate D). lifecycle_rank e.candidate.lifecycle)
          compare-IsOrder)
        (then_with-IsOrder _ _
          (swap-IsOrder _ (
            pull-IsOrder compare (λ (e : EvaluatedCandidate D). e.candidate.generation_rank)
              compare-IsOrder))
          (then_with-IsOrder _ _
            (pull-IsOrder compare (λ (e : EvaluatedCandidate D). e.candidate.vcpus) compare-IsOrder)
            (then_with-IsOrder _ _
              (pull-IsOrder d.cmp (λ (e : EvaluatedCandidate D). e.candidate.memory_gb) laws.order)
              (then_with-IsOrder _ _ (pull-IsOrder d.cmp disk_capacity laws.order) (
                then_with-IsOrder _ _
                  (pull-IsOrder (compare_option d.cmp) (λ (e : EvaluatedCandidate D). e.hourly_rate)
                    compare_option-IsOrder)
                  (pull-IsOrder compare_text
                    (λ (e : EvaluatedCandidate D). e.candidate.arm_sku_name)
                    compare_text-IsOrder))))))

  best_of_none :
      (requested : Option String) (eligible : List (EvaluatedCandidate D))
      (best : EvaluatedCandidate D)
      → requested ≡ none
      → least rank eligible ≡ some best
      → best_target requested eligible ≡ some best
  unfolding best_target
  best_of_none requested eligible best e h = rw e h

  -- If no size is requested and a size of the catalog is eligible, a selection is mapped to an eligible
  -- size of the catalog that is no worse: a current one before a previous one, then a newer generation,
  -- fewer vCPUs, less memory, disks of less capacity in all, and last an hourly rate that is not higher,
  -- or not known.
  pub select_vm_target-least :
      (vm_catalog : VmCapabilityCatalog D) (disk_catalog : ManagedDiskCatalog D)
      (request : VmTargetSelectionRequest D) (selection : VmTargetSelection D)
      (candidate : VmSizeCandidate D) (evaluated : EvaluatedCandidate D)
      → request.requested_target_arm_sku ≡ none
      → Memᴰ candidate vm_catalog.candidates
      → eligible_candidate disk_catalog request candidate ≡ some evaluated
      → select_vm_target vm_catalog disk_catalog request ≡ ok selection
      → (best : EvaluatedCandidate D) × (selection.mapping_status ≡ mapped)
        × (selection.selected ≡ some (selected_target best))
        × ((size : VmSizeCandidate D) × Memᴰ size vm_catalog.candidates
            × (eligible_candidate disk_catalog request size ≡ some best))
        × NoWorse best evaluated
  unfolding eligible_targets target_selection
  select_vm_target-least vm_catalog disk_catalog request selection candidate evaluated
        none_requested m e h =
      let made = selection_of vm_catalog disk_catalog request selection h in
      let listed =
        Memᴰ-filter_map (eligible_candidate disk_catalog request) vm_catalog.candidates m e in
      let (best, b) = least-IsSome rank _ listed in
      let found = best_of_none request.requested_target_arm_sku _ best none_requested b in
      let made' = rw found at made in
      (
        best,
        sym (ap (λ x. x.mapping_status) made'),
        sym (ap (λ x. x.selected) made'),
        Memᴰ-of_filter_map (eligible_candidate disk_catalog request) vm_catalog.candidates
            (Memᴰ-least rank _ b),
        rank-NoWorse best evaluated (least-le rank-IsOrder _ b listed),
      )
