-- ===== src/Cost/Iops.antt =====
-- `source_max_iops` of rust/src/calculation/cost.rs: the IOPS that the target must provide.
use mathlib.Core.List.{Memᴰ}
use tco_calculator.Prelude.{
  ℕ, ◌≤◌, max, ◌≡◌, ◌⊎◌, inl, inr, refl, ap, ◌∙◌, leb, Bool-cases, false, not, Bool, some, List, [],
  ◌∷◌, filter, ok, try_fold, Option-cases, Memᴰ-filter, Memᴰ-of_filter, arith,
}
use tco_calculator.Domain.Resource.{EbsVolume, Ec2Resource, ephemeral, volume_type_eq}
use tco_calculator.Cost.Volumes.{larger_iops, source_max_iops}

module _ {D : Type 0} where
  -- `m` is the largest number of IOPS of the volumes, or `start`.
  record IsLargest (start : ℕ) (vs : List (EbsVolume D)) (m : ℕ) : Type 0 where
    start_le : start ≤ m
    bound : (v : EbsVolume D) → Memᴰ v vs → (n : ℕ) × (v.provisioned_iops ≡ some n) × (n ≤ m)
    attained : (m ≡ start) ⊎ ((v : EbsVolume D) × Memᴰ v vs × (v.provisioned_iops ≡ some m))

  bound_step :
      (start n : ℕ) (v : EbsVolume D) (vs : List (EbsVolume D)) (m : ℕ)
      → v.provisioned_iops ≡ some n
      → IsLargest (max start n) vs m
      → (w : EbsVolume D) → Memᴰ w (v ∷ vs)
      → (k : ℕ) × (w.provisioned_iops ≡ some k) × (k ≤ m)
  bound_step start n v vs m e rest w (Memᴰ.head h) =
      (n, ap (λ (w : EbsVolume D). w.provisioned_iops) h ∙ e, omega (arith, rest.start_le))
  bound_step start n v vs m e rest w (Memᴰ.tail k) = rest.bound w k

  attained_step :
      (start n : ℕ) (v : EbsVolume D) (vs : List (EbsVolume D)) (m : ℕ)
      → v.provisioned_iops ≡ some n
      → (m ≡ max start n) ⊎ ((w : EbsVolume D) × Memᴰ w vs × (w.provisioned_iops ≡ some m))
      → (m ≡ start) ⊎ ((w : EbsVolume D) × Memᴰ w (v ∷ vs) × (w.provisioned_iops ≡ some m))
  attained_step start n v vs m e (inl h) = elim (Bool-cases (leb n start)) [
    | inl k ↦ inl (ground arith)
    | inr k ↦ let same : n ≡ m = ground arith in inr (v, Memᴰ.head refl, e ∙ ap some same)
  ]
  attained_step start n v vs m e (inr (w, k, h)) = inr (w, Memᴰ.tail k, h)

  IsLargest-step :
      (start n : ℕ) (v : EbsVolume D) (vs : List (EbsVolume D)) (m : ℕ)
      → v.provisioned_iops ≡ some n
      → IsLargest (max start n) vs m
      → IsLargest start (v ∷ vs) m
  IsLargest-step start n v vs m e rest = record {
    start_le = omega (arith, rest.start_le);
    bound = bound_step start n v vs m e rest;
    attained = attained_step start n v vs m e rest.attained;
  }

  fold-IsLargest :
      (start : ℕ) (vs : List (EbsVolume D)) (m : ℕ)
      → try_fold larger_iops start vs ≡ ok m
      → IsLargest start vs m
  unfolding try_fold
  fold-IsLargest start [] m h = record {
    start_le = ground arith;
    bound = λ v k. elim k [ ];
    attained = inl (ground arith);
  }
  fold-IsLargest start (v ∷ vs) m h = elim (Option-cases v.provisioned_iops) [
    | inl e ↦ absurd (ground arith)
    | inr (n, e) ↦ IsLargest-step start n v vs m e (fold-IsLargest (max start n) vs m (rw e at h))
  ]

  -- Every volume that is not ephemeral has its IOPS given, and at most as many as `source_max_iops`
  -- returns, which is the IOPS of a volume that is not ephemeral, or 0.
  pub source_max_iops_bounds :
      (resource : Ec2Resource D) (m : ℕ) (v : EbsVolume D)
      → source_max_iops resource ≡ ok m
      → Memᴰ v resource.volumes
      → volume_type_eq v.volume_type ephemeral ≡ false
      → ((n : ℕ) × (v.provisioned_iops ≡ some n) × (n ≤ m))
        × ((m ≡ 0)
            ⊎ ((w : EbsVolume D) × Memᴰ w resource.volumes
                × (volume_type_eq w.volume_type ephemeral ≡ false)
                × (w.provisioned_iops ≡ some m)))
  unfolding source_max_iops
  source_max_iops_bounds resource m v h listed kept =
      let persistent : EbsVolume D → Bool =
        λ volume. not (volume_type_eq volume.volume_type ephemeral) in
      let largest = fold-IsLargest 0 (filter persistent resource.volumes) m h in
      (
        largest.bound v (Memᴰ-filter persistent resource.volumes listed (ground arith)),
        elim largest.attained [
          | inl e ↦ inl e
          | inr (w, k, e) ↦
              let (listed', kept') = Memᴰ-of_filter persistent resource.volumes k in
              inr (w, listed', ground arith, e)
        ],
      )
