-- ===== src/Maps/Laws.antt =====
-- The laws of the map operations.
use mathlib.Core.List.{Memᴰ}
use tco_calculator.Prelude.{
  Bool, not, true, false, ◌≡◌, ◌≢◌, refl, sym, ap, ◌∙◌, none, some, List, [], ◌∷◌, ◌⊎◌, inl, inr,
  if◌then◌else◌, Option-cases, Memᴰ-filter, false≢true, Bool-cases, arith, filter, Memᴰ-of_filter,
}
use tco_calculator.Maps.{Key, get_key, remove_key, insert_key}

module _ {K : Type 0} ⦃key : Key K⦄ where
  pub same_self : (k : K) → key.same k k ≡ true
  same_self k = (key.same_iff k k).1 refl

  pub same_other : (k k' : K) → k ≢ k' → key.same k k' ≡ false
  same_other k k' o = elim (Bool-cases (key.same k k')) [
    | inl h ↦ absurd (o ((key.same_iff k k').0 h))
    | inr h ↦ h
  ]

  pub key_cases : (k k' : K) → (k ≡ k') ⊎ (k ≢ k')
  key_cases k k' = elim (Bool-cases (key.same k k')) [
    | inl h ↦ inl ((key.same_iff k k').0 h)
    | inr h ↦ inr (λ e. false≢true (sym h ∙ (key.same_iff k k').1 e))
  ]

module _ {ℓ} {K : Type 0} {V : Type ℓ} ⦃key : Key K⦄ where
  pub get-insert : (k : K) (v : V) (m : List (K × V)) → get_key k (insert_key k v m) ≡ some v
  unfolding get_key insert_key
  get-insert k v m = rw (same_self k) refl

  pub get-remove : (k : K) (m : List (K × V)) → get_key k (remove_key k m) ≡ none
  unfolding get_key remove_key filter
  get-remove k [] = refl
  get-remove k (e ∷ es) = elim (Bool-cases (key.same e.0 k)) [
    | inl h ↦ rw h (get-remove k es)
    | inr h ↦ rw (h, h) (get-remove k es)
  ]

  pub get-remove_other :
      (k k' : K) (m : List (K × V)) → k ≢ k' → get_key k' (remove_key k m) ≡ get_key k' m
  unfolding get_key remove_key filter
  get-remove_other k k' [] o = refl
  get-remove_other k k' (e ∷ es) o = elim (Bool-cases (key.same e.0 k)) [
    | inl h ↦
        let other : key.same e.0 k' ≡ false =
          same_other e.0 k' (λ p. o (sym ((key.same_iff e.0 k).0 h) ∙ p)) in
        rw (h, other) (get-remove_other k k' es o)
    | inr h ↦ elim (Bool-cases (key.same e.0 k')) [
      | inl q ↦ rw (h, q) refl
      | inr q ↦ rw (h, q) (get-remove_other k k' es o)
    ]
  ]

  pub get-insert_other :
      (k k' : K) (v : V) (m : List (K × V)) → k ≢ k' → get_key k' (insert_key k v m) ≡ get_key k' m
  unfolding get_key insert_key
  get-insert_other k k' v m o = rw (same_other k k' o) (get-remove_other k k' m o)

  pub Memᴰ-of_get : (k : K) {v : V} (m : List (K × V)) → get_key k m ≡ some v → Memᴰ (k, v) m
  unfolding get_key
  Memᴰ-of_get k [] h = cc
  Memᴰ-of_get k (e ∷ es) h = elim (Bool-cases (key.same e.0 k)) [
    | inl q ↦ let same = (key.same_iff e.0 k).0 q in let h' = rw q at h in Memᴰ.head (ground arith)
    | inr q ↦ let h' = rw q at h in Memᴰ.tail (Memᴰ-of_get k es h')
  ]

  -- an entry of a map after an insertion is the new one, or an old one of another key
  pub Memᴰ-of_insert :
      (k : K) (v : V) {e : K × V} (m : List (K × V))
      → Memᴰ e (insert_key k v m)
      → (e ≡ (k, v)) ⊎ (Memᴰ e m × (e.0 ≢ k))
  unfolding insert_key remove_key
  Memᴰ-of_insert k v m (Memᴰ.head p) = inl p
  Memᴰ-of_insert k v {e} m (Memᴰ.tail q) =
      let (member, other) = Memᴰ-of_filter (λ entry. not (key.same entry.0 k)) m q in
      inr (member, λ p. let h = (key.same_iff e.0 k).1 p in ground arith)

  -- no key has two values
  abbrev pub IsMap : List (K × V) → Type ℓ
  IsMap m = (k : K) (v v' : V) → Memᴰ (k, v) m → Memᴰ (k, v') m → v ≡ v'

  pub get-IsMap :
      (k : K) {v : V} (m : List (K × V)) → IsMap m → Memᴰ (k, v) m → get_key k m ≡ some v
  unfolding get_key
  get-IsMap k [] u q = elim q [ ]
  get-IsMap k {v} (e ∷ es) u (Memᴰ.head p) =
      let same = (key.same_iff e.0 k).1 (sym (ap (λ x. x.0) p)) in
      rw (same, sym (ap (λ x. x.1) p)) refl
  get-IsMap k {v} (e ∷ es) u (Memᴰ.tail q) = elim (Bool-cases (key.same e.0 k)) [
    | inl h ↦
        let same = (key.same_iff e.0 k).0 h in
        rw h (ap some (u k e.1 v (Memᴰ.head (ground arith)) (Memᴰ.tail q)))
    | inr h ↦ rw h (get-IsMap k es (λ k' w w' x y. u k' w w' (Memᴰ.tail x) (Memᴰ.tail y)) q)
  ]

  pub filter-IsMap : (p : K × V → Bool) (m : List (K × V)) → IsMap m → IsMap (filter p m)
  filter-IsMap p m u k v v' x y = u k v v' (Memᴰ-of_filter p m x).0 (Memᴰ-of_filter p m y).0

  pub insert-IsMap : (k : K) (w : V) (m : List (K × V)) → IsMap m → IsMap (insert_key k w m)
  insert-IsMap k w m u k' v v' x y = elim (Memᴰ-of_insert k w m x) [
    | inl e ↦ elim (Memᴰ-of_insert k w m y) [
      | inl f ↦ ap (λ entry. entry.1) (e ∙ sym f)
      | inr (f, o) ↦ absurd (o (ap (λ entry. entry.0) e))
    ]
    | inr (e, o) ↦ elim (Memᴰ-of_insert k w m y) [
      | inl f ↦ absurd (o (ap (λ entry. entry.0) f))
      | inr (f, q) ↦ u k' v v' e f
    ]
  ]

  -- Under a key a filter keeps what it finds, or drops a value that fails its test.
  pub get-filter :
      (p : K × V → Bool) (k : K) (m : List (K × V))
      → IsMap m
      → (get_key k (filter p m) ≡ get_key k m)
        ⊎ ((v : V) × (get_key k m ≡ some v) × (p (k, v) ≡ false) × (get_key k (filter p m) ≡ none))
  get-filter p k m u = elim (Option-cases (get_key k (filter p m))) [
    | inr (w, e) ↦
        inl (e ∙ sym (get-IsMap k m u (Memᴰ-of_filter p m (Memᴰ-of_get k (filter p m) e)).0))
    | inl e ↦ elim (Option-cases (get_key k m)) [
      | inl f ↦ inl (e ∙ sym f)
      | inr (v, f) ↦ elim (Bool-cases (p (k, v))) [
        | inl q ↦
            let kept =
              get-IsMap k (filter p m) (filter-IsMap p m u)
                (Memᴰ-filter p m (Memᴰ-of_get k m f) q) in
            absurd cc
        | inr q ↦ inr (v, f, q, e)
      ]
    ]
  ]

  pub get-filter-none :
      (p : K × V → Bool) (k : K) (m : List (K × V))
      → IsMap m
      → get_key k m ≡ none
      → get_key k (filter p m) ≡ none
  get-filter-none p k m u h = elim (get-filter p k m u) [ inl e ↦ e ∙ h | inr (v, f, q, e) ↦ e ]

  pub get-filter-some :
      (p : K × V → Bool) (k : K) (v : V) (m : List (K × V))
      → IsMap m
      → get_key k m ≡ some v
      → get_key k (filter p m) ≡ (if p (k, v) then some v else none)
  get-filter-some p k v m u h = elim (get-filter p k m u) [
    | inl e ↦
        let passed = (Memᴰ-of_filter p m (Memᴰ-of_get k (filter p m) (e ∙ h))).1 in
        rw passed (e ∙ h)
    | inr (w, f, q, e) ↦
        let same : w ≡ v = cc in let failed : p (k, v) ≡ false = rw⁻¹ same q in rw failed e
  ]
