-- ===== src/Projects/Store.antt =====
-- The map of rust/src/persistence/repository.rs under its writes.
pub mod Laws
pub mod Updates
pub mod Deletes
pub mod Reachable
pub mod Listing
use text.Mathlib.TextEquality.{eq_iff}
use tco_calculator.Prelude.{
  true, false, ◌≡◌, ◌≢◌, refl, sym, ◌∙◌, ◌⊎◌, inl, inr, String, none, some, List, [], ◌∷◌,
  Bool-cases, arith, filter,
}
use tco_calculator.Domain.Resource.{Uuid}
use tco_calculator.Projects.Types.{Entry, StoredProject}
use tco_calculator.Projects.Repository.{has_key, lookup, remove, insert}

-- two keys of the map that differ
abbrev pub IsOther : String → Uuid → String → Uuid → Type 0
IsOther owner id owner' id' = (owner ≢ owner') ⊎ (id ≢ id')

module _ {D R : Type 0} where
  pub has_key_self :
      (owner : String) (id : Uuid) (entry : Entry D R)
      → entry.owner_id ≡ owner
      → entry.id ≡ id
      → has_key owner id entry ≡ true
  has_key_self owner id entry h k = let e = (eq_iff entry.owner_id owner).1 h in ground arith

  has_key_keys :
      (owner : String) (id : Uuid) (entry : Entry D R)
      → has_key owner id entry ≡ true
      → (entry.owner_id ≡ owner) × (entry.id ≡ id)
  has_key_keys owner id entry h = ((eq_iff entry.owner_id owner).0 (ground arith), ground arith)

  has_key_other :
      (owner owner' : String) (id id' : Uuid) (entry : Entry D R)
      → IsOther owner id owner' id'
      → has_key owner id entry ≡ true
      → has_key owner' id' entry ≡ false
  has_key_other owner owner' id id' entry o h = elim (Bool-cases (has_key owner' id' entry)) [
    | inl k ↦
        let (p, q) = has_key_keys owner id entry h in
        let (p', q') = has_key_keys owner' id' entry k in
        absurd (elim o [ inl n ↦ n (sym p ∙ p') | inr n ↦ n (sym q ∙ q') ])
    | inr k ↦ k
  ]

  pub lookup-remove :
      (owner : String) (id : Uuid) (entries : List (Entry D R))
      → lookup owner id (remove owner id entries) ≡ none
  unfolding lookup remove filter
  lookup-remove owner id [] = refl
  lookup-remove owner id (e ∷ es) = elim (Bool-cases (has_key owner id e)) [
    | inl h ↦ rw h (lookup-remove owner id es)
    | inr h ↦ rw (h, h) (lookup-remove owner id es)
  ]

  pub lookup-remove_other :
      (owner owner' : String) (id id' : Uuid) (entries : List (Entry D R))
      → IsOther owner id owner' id'
      → lookup owner' id' (remove owner id entries) ≡ lookup owner' id' entries
  unfolding lookup remove filter
  lookup-remove_other owner owner' id id' [] o = refl
  lookup-remove_other owner owner' id id' (e ∷ es) o = elim (Bool-cases (has_key owner id e)) [
    | inl h ↦
        let k = has_key_other owner owner' id id' e o h in
        rw (h, k) (lookup-remove_other owner owner' id id' es o)
    | inr h ↦ ground (arith, lookup-remove_other owner owner' id id' es o)
  ]

  pub lookup-insert :
      (owner : String) (id : Uuid) (stored : StoredProject D R) (entries : List (Entry D R))
      → lookup owner id (insert owner id stored entries) ≡ some stored
  unfolding lookup insert
  lookup-insert owner id stored entries =
      rw (has_key_self owner id (record { owner_id = owner; id = id; stored = stored }) refl refl)
        refl

  pub lookup-insert_other :
      (owner owner' : String) (id id' : Uuid) (stored : StoredProject D R)
      (entries : List (Entry D R))
      → IsOther owner id owner' id'
      → lookup owner' id' (insert owner id stored entries) ≡ lookup owner' id' entries
  unfolding lookup insert
  lookup-insert_other owner owner' id id' stored entries o =
      let written : Entry D R = record { owner_id = owner; id = id; stored = stored } in
      rw (has_key_other owner owner' id id' written o (has_key_self owner id written refl refl))
        (lookup-remove_other owner owner' id id' entries o)
