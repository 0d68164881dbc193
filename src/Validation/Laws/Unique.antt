-- ===== src/Validation/Laws/Unique.antt =====
-- The identifiers of a project that passes the validation of rust/src/domain/project.rs.
use mathlib.Core.List.{Memᴰ}
use tco_calculator.Prelude.{
  ℕ, ◌+◌, true, false, ◌≡◌, refl, sym, ◌∙◌, List, [], ◌∷◌, map, any, append, false≢true,
  append-empty, concat-empty, arith,
}
use tco_calculator.Decimal.{Decimal}
use tco_calculator.Domain.Resource.{Uuid, ProjectType, Resource, EbsVolume, VmVolume, shared}
use tco_calculator.Domain.Project.{EditableProject}
use tco_calculator.Validation.{validate}
use tco_calculator.Validation.Issues.{push_if-empty}
use tco_calculator.Validation.Volumes.{
  met, ebs_volume_checks, ebs_volume_issues, ebs_volumes_issues, vm_volume_checks, vm_volume_issues,
  vm_volumes_issues,
}
use tco_calculator.Validation.Resources.{
  ec2_checks, ec2_vm_checks, shared_checks, shared_issues, kind_issues, validate_resources,
}
use tco_calculator.Validation.Laws.{validate_parts}

-- no number stands twice in the list
abbrev pub Distinct : List ℕ → Type 0
Distinct [] = Unit
Distinct (x ∷ xs) = ¬ Memᴰ x xs × Distinct xs

-- each number is new where it stands, after those of `seen`
abbrev NewAfter : List ℕ → List ℕ → Type 0
NewAfter seen [] = Unit
NewAfter seen (x ∷ xs) = (met seen x ≡ false) × NewAfter (x ∷ seen) xs

-- `seen` after the numbers of a list are met
abbrev meet : List ℕ → List ℕ → List ℕ
meet seen [] = seen
meet seen (x ∷ xs) = meet (x ∷ seen) xs

met-NewAfter : (seen xs : List ℕ) (x : ℕ) → met seen x ≡ true → NewAfter seen xs → ¬ Memᴰ x xs
unfolding any
met-NewAfter seen [] x h n m = elim m [ ]
met-NewAfter seen (y ∷ ys) x h n (Memᴰ.head e) = false≢true (sym n.0 ∙ rw (sym e) h)
met-NewAfter seen (y ∷ ys) x h n (Memᴰ.tail m) =
    met-NewAfter (y ∷ seen) ys x (ground (arith, h)) n.1 m

met_self : (seen : List ℕ) (x : ℕ) → met (x ∷ seen) x ≡ true
unfolding any
met_self seen x = ground arith

NewAfter-Distinct : (seen xs : List ℕ) → NewAfter seen xs → Distinct xs
NewAfter-Distinct seen [] n = tt
NewAfter-Distinct seen (x ∷ xs) n =
    (met-NewAfter (x ∷ seen) xs x (met_self seen x) n.1, NewAfter-Distinct (x ∷ seen) xs n.1)

NewAfter-append :
    (seen xs ys : List ℕ)
    → NewAfter seen xs
    → NewAfter (meet seen xs) ys
    → NewAfter seen (append xs ys)
unfolding append
NewAfter-append seen [] ys n m = m
NewAfter-append seen (x ∷ xs) ys n m = (n.0, NewAfter-append (x ∷ seen) xs ys n.1 m)

module _ {D : Type 0} where
  -- the identifiers of the volumes of a resource, and of a project
  unfoldable pub volume_ids : Resource D → List Uuid
  volume_ids (Resource.ec2 resource) = map (λ volume. volume.id) resource.volumes
  volume_ids (Resource.ec2_vm resource) = map (λ volume. volume.id) resource.volumes
  volume_ids (Resource.rds resource) = []
  volume_ids (Resource.on_prem resource) = []

  unfoldable pub all_volume_ids : List (Resource D) → List Uuid
  unfolding append volume_ids
  all_volume_ids [] = []
  all_volume_ids (resource ∷ resources) = append (volume_ids resource) (all_volume_ids resources)

module _ {D : Type 0} ⦃d : Decimal D⦄ where
  ebs_ids :
      (index volume_index : ℕ) (seen : List Uuid) (volumes : List (EbsVolume D))
      → (ebs_volumes_issues index volume_index seen volumes).0 ≡ []
      → NewAfter seen (map (λ volume. volume.id) volumes)
        × ((ebs_volumes_issues index volume_index seen volumes).1
            ≡ meet seen (map (λ volume. volume.id) volumes))
  unfolding ebs_volumes_issues ebs_volume_issues
  ebs_ids index volume_index seen [] h = (tt, refl)
  ebs_ids index volume_index seen (v ∷ vs) h =
      let (first, rest) = append-empty (ebs_volume_issues index volume_index seen v) _ h in
      let (id, others) = concat-empty (ebs_volume_checks index volume_index seen v) first in
      let (new, ids) = ebs_ids index (volume_index + 1) (v.id ∷ seen) vs rest in
      ((push_if-empty _ _ id, new), ids)

  vm_ids :
      (index volume_index : ℕ) (seen : List Uuid) (volumes : List (VmVolume D))
      → (vm_volumes_issues index volume_index seen volumes).0 ≡ []
      → NewAfter seen (map (λ volume. volume.id) volumes)
        × ((vm_volumes_issues index volume_index seen volumes).1
            ≡ meet seen (map (λ volume. volume.id) volumes))
  unfolding vm_volumes_issues vm_volume_issues
  vm_ids index volume_index seen [] h = (tt, refl)
  vm_ids index volume_index seen (v ∷ vs) h =
      let (first, rest) = append-empty (vm_volume_issues index volume_index seen v) _ h in
      let (id, others) = concat-empty (vm_volume_checks index volume_index seen v) first in
      let (new, ids) = vm_ids index (volume_index + 1) (v.id ∷ seen) vs rest in
      ((push_if-empty _ _ id, new), ids)

  kind_ids :
      (index : ℕ) (seen : List Uuid) (resource : Resource D)
      → (kind_issues index seen resource).0 ≡ []
      → NewAfter seen (volume_ids resource)
        × ((kind_issues index seen resource).1 ≡ meet seen (volume_ids resource))
  unfolding kind_issues volume_ids
  kind_ids index seen (Resource.ec2 resource) h =
      let (kind, (count, (volumes, end))) = concat-empty (ec2_checks index resource _) h in
      ebs_ids index 0 seen resource.volumes volumes
  kind_ids index seen (Resource.ec2_vm resource) h =
      let (kind, (needs, (count, (os, (volumes, end))))) =
        concat-empty (ec2_vm_checks index resource _) h in
      vm_ids index 0 seen resource.volumes volumes
  kind_ids index seen (Resource.rds resource) h = (tt, refl)
  kind_ids index seen (Resource.on_prem resource) h = (tt, refl)

  resources_ids :
      (type : ProjectType) (index : ℕ) (seen seen_volumes : List Uuid)
      (resources : List (Resource D))
      → validate_resources type index seen seen_volumes resources ≡ []
      → NewAfter seen (map (λ resource. (shared resource).id) resources)
        × NewAfter seen_volumes (all_volume_ids resources)
  unfolding validate_resources shared_issues all_volume_ids
  resources_ids type index seen seen_volumes [] h = (tt, tt)
  resources_ids type index seen seen_volumes (r ∷ rs) h =
      let (shared_part, rest) = append-empty (shared_issues type index seen r) _ h in
      let (kind_part, others) = append-empty (kind_issues index seen_volumes r).0 _ rest in
      let (kind, (id, checks)) = concat-empty (shared_checks type index seen r) shared_part in
      let (new, ids) = kind_ids index seen_volumes r kind_part in
      let (new_ids, new_volumes) = resources_ids type (index + 1) _ _ rs others in
      (
        (push_if-empty _ _ id, new_ids),
        NewAfter-append seen_volumes (volume_ids r) (all_volume_ids rs) new (rw⁻¹ ids new_volumes),
      )

  -- In a project without issues no two resources have the same identifier, and no two volumes, even
  -- of different resources.
  pub validate-Distinct :
      (project : EditableProject D)
      → validate project ≡ []
      → Distinct (map (λ resource. (shared resource).id) project.resources)
        × Distinct (all_volume_ids project.resources)
  validate-Distinct project h =
      let (settings, resources) = validate_parts project h in
      let (ids, volumes) =
        resources_ids project.settings.project_type 0 [] [] project.resources resources in
      (NewAfter-Distinct [] _ ids, NewAfter-Distinct [] _ volumes)
