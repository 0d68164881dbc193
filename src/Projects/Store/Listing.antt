-- ===== src/Projects/Store/Listing.antt =====
-- `list` of rust/src/persistence/repository.rs against `get`.
use Prim.Native.Nat.{compare}
use Prim.Native.String.{compare as compare_text}
use mathlib.Core.List.{Memᴰ}
use text.Mathlib.Text.{◌==◌ as text_eq}
use text.Mathlib.TextEquality.{eq_iff}
use tco_calculator.Prelude.{
  not, true, false, ◌≡◌, refl, sym, ◌∙◌, ap, String, some, List, [], ◌∷◌, All, map, filter, ok,
  ok_or, done, Ensures-then, ok_or-eq-ok, Ensures-eq-ok, ◌↔◌, Memᴰ-map, Memᴰ-of_map, Memᴰ-filter,
  Memᴰ-of_filter, arith, Bool-cases, inl, inr,
}
use tco_calculator.Ordering.{
  IsOrder, is_le, then_with-IsOrder, pull-IsOrder, swap-IsOrder, compare-IsOrder,
  compare_text-IsOrder,
}
use tco_calculator.Ordering.Sort.{
  sort_by, IsSorted, sort_by-IsSorted, Memᴰ-sort_by, Memᴰ-of_sort_by,
}
use tco_calculator.Domain.Resource.{Uuid}
use tco_calculator.Domain.Project.{ProjectDocument}
use tco_calculator.Projects.Types.{
  not_found, Services, StoredProject, Entry, InMemoryProjectRepository,
}
use tco_calculator.Projects.Repository.{
  has_key, lookup, insert, remove, new, locked, compare_documents, list, get,
}
use tco_calculator.Projects.Store.{
  IsOther, has_key_self, lookup-insert, lookup-insert_other, lookup-remove_other,
}
use tco_calculator.Projects.Store.Laws.{locked_open, create_writes}
use tco_calculator.Projects.Store.Updates.{update_writes}
use tco_calculator.Projects.Store.Deletes.{delete_writes}
use tco_calculator.Projects.Store.Reachable.{
  Holds, Reachable, fresh, created, updated, deleted, key_cases, Reachable-Holds,
}

module _ {D R : Type 0} where
  -- every entry is the one that its key finds
  abbrev pub IsUnique : List (Entry D R) → Type 0
  IsUnique entries =
      (e : Entry D R) → Memᴰ e entries → lookup e.owner_id e.id entries ≡ some e.stored

  removed-IsOther :
      (owner : String) (id : Uuid) (e : Entry D R)
      → not (has_key owner id e) ≡ true
      → IsOther owner id e.owner_id e.id
  removed-IsOther owner id e h = elim (key_cases owner e.owner_id id e.id) [
    | inl o ↦ o
    | inr (p, q) ↦ let k = has_key_self owner id e (sym p) (sym q) in absurd (ground arith)
  ]

  remove-IsUnique :
      (owner : String) (id : Uuid) (entries : List (Entry D R))
      → IsUnique entries
      → IsUnique (remove owner id entries)
  unfolding remove
  remove-IsUnique owner id entries unique e m =
      let (listed, k) = Memᴰ-of_filter (λ entry. not (has_key owner id entry)) entries m in
      lookup-remove_other owner e.owner_id id e.id entries (removed-IsOther owner id e k)
      ∙ unique e listed

  insert-IsUnique :
      (owner : String) (id : Uuid) (stored : StoredProject D R) (entries : List (Entry D R))
      → IsUnique entries
      → IsUnique (insert owner id stored entries)
  unfolding insert remove
  insert-IsUnique owner id stored entries unique e (Memᴰ.head h) =
      rw h (lookup-insert owner id stored entries)
  insert-IsUnique owner id stored entries unique e (Memᴰ.tail m) =
      let (listed, k) = Memᴰ-of_filter (λ entry. not (has_key owner id entry)) entries m in
      lookup-insert_other owner e.owner_id id e.id stored entries (removed-IsOther owner id e k)
      ∙ unique e listed

  new_empty :
      (e : Entry D R)
      → Memᴰ e (new {D = D} {R = R}).projects
      → lookup e.owner_id e.id (new {D = D} {R = R}).projects ≡ some e.stored
  unfolding new
  new_empty e m = elim m [ ]

  -- No document has an earlier time of update than one behind it. The times are texts, in the order of
  -- texts.
  abbrev pub NewestFirst : List (ProjectDocument D R) → Type 0
  NewestFirst [] = Unit
  NewestFirst (x ∷ xs) =
      All (λ (y : ProjectDocument D R). is_le (compare_text y.updated_at x.updated_at) ≡ true) xs
      × NewestFirst xs

  not_earlier :
      (x : ProjectDocument D R) (xs : List (ProjectDocument D R))
      → All (λ y. is_le (compare_documents x y) ≡ true) xs
      → All (λ (y : ProjectDocument D R). is_le (compare_text y.updated_at x.updated_at) ≡ true) xs
  unfolding compare_documents
  not_earlier x [] h = tt
  not_earlier x (y ∷ ys) h = (ground arith, not_earlier x ys h.1)

  IsSorted-NewestFirst :
      (xs : List (ProjectDocument D R)) → IsSorted compare_documents xs → NewestFirst xs
  IsSorted-NewestFirst [] s = tt
  IsSorted-NewestFirst (x ∷ xs) s = (not_earlier x xs s.0, IsSorted-NewestFirst xs s.1)

  compare_documents-IsOrder : IsOrder (compare_documents {D = D} {R = R})
  unfolding compare_documents
  compare_documents-IsOrder =
      then_with-IsOrder _ _
        (pull-IsOrder (λ a b. compare_text b a) (λ (d : ProjectDocument D R). d.updated_at)
          (swap-IsOrder compare_text compare_text-IsOrder))
        (pull-IsOrder compare (λ d. d.id) compare-IsOrder)

  lookup_listed :
      (owner : String) (id : Uuid) (entries : List (Entry D R)) (s : StoredProject D R)
      → lookup owner id entries ≡ some s
      → (e : Entry D R) × Memᴰ e entries × (e.owner_id ≡ owner) × (e.stored ≡ s)
  unfolding lookup
  lookup_listed owner id [] s h = absurd cc
  lookup_listed owner id (x ∷ xs) s h = elim (Bool-cases (has_key owner id x)) [
    | inl k ↦ (x, Memᴰ.head refl, (eq_iff x.owner_id owner).0 (ground arith), ground arith)
    | inr k ↦ let (e, m, p, q) = lookup_listed owner id xs s (rw k at h) in (e, Memᴰ.tail m, p, q)
  ]

  -- the documents that `list` returns
  documents_of : String → List (Entry D R) → List (ProjectDocument D R)
  documents_of owner entries = sort_by compare_documents (
      map (λ entry. entry.stored.document) (filter (λ entry. text_eq entry.owner_id owner) entries))

  documents_of-IsSorted :
      (owner : String) (entries : List (Entry D R))
      → IsSorted compare_documents (documents_of owner entries)
  unfolding documents_of
  documents_of-IsSorted owner entries = sort_by-IsSorted compare_documents-IsOrder _

module _ {D R : Type 0} (services : Services D R) where
  Reachable-IsUnique :
      (r : InMemoryProjectRepository D R) → Reachable services r → IsUnique r.projects
  Reachable-IsUnique _ fresh = λ e m. new_empty e m
  Reachable-IsUnique _ (created owner project revision now id r0 r document from h) =
      let (p, q, st, w) = create_writes services owner project revision now id r0 r document h in
      rw w.placed (insert-IsUnique owner id _ r0.projects (Reachable-IsUnique r0 from))
  Reachable-IsUnique _ (updated owner id if_match project revision now r0 r document from h) =
      let (p, q, u) =
        update_writes services owner id if_match project revision now r0 r document h in
      rw u.written.placed (insert-IsUnique owner id _ r0.projects (Reachable-IsUnique r0 from))
  Reachable-IsUnique _ (deleted owner id r0 r from h) =
      let (p, q, w) = delete_writes owner id r0 r h in
      rw w.placed (remove-IsUnique owner id r0.projects (Reachable-IsUnique r0 from))

  found_of_listed :
      (entries : List (Entry D R)) (owner : String) (document : ProjectDocument D R)
      → IsUnique entries
      → Holds services entries
      → Memᴰ document (documents_of owner entries)
      → (s : StoredProject D R) × (lookup owner document.id entries ≡ some s)
        × (document ≡ s.document)
  unfolding documents_of
  found_of_listed entries owner document unique holds m =
      let (e, k, same) =
        Memᴰ-of_map (λ (e : Entry D R). e.stored.document) _
          (Memᴰ-of_sort_by compare_documents _ m) in
      let (listed, own) = Memᴰ-of_filter (λ (e : Entry D R). text_eq e.owner_id owner) entries k in
      let owned = (eq_iff e.owner_id owner).0 own in
      let found = unique e listed in
      let named = (holds e.owner_id e.id e.stored found).named in
      let id : e.id ≡ document.id = sym named ∙ sym (ap (λ (d : ProjectDocument D R). d.id) same) in
      (e.stored, (rw (owned, id) at found), same)

  listed_of_found :
      (entries : List (Entry D R)) (owner : String) (id : Uuid) (s : StoredProject D R)
      → lookup owner id entries ≡ some s
      → Memᴰ s.document (documents_of owner entries)
  unfolding documents_of
  listed_of_found entries owner id s h =
      let (e, m, own, same) = lookup_listed owner id entries s h in
      let kept =
        Memᴰ-filter (λ (e : Entry D R). text_eq e.owner_id owner) entries m
          ((eq_iff e.owner_id owner).1 own) in
      Memᴰ-sort_by compare_documents _
        (rw⁻¹ same (Memᴰ-map (λ (e : Entry D R). e.stored.document) _ kept))

  list_open :
      (r : InMemoryProjectRepository D R) (owner : String) (documents : List (ProjectDocument D R))
      → list owner r ≡ ok documents
      → (r.poisoned ≡ false) × (documents ≡ documents_of owner r.projects)
  unfolding list documents_of
  list_open r owner documents h =
      Ensures-eq-ok
        {P = λ documents. (r.poisoned ≡ false) × (documents ≡ documents_of owner r.projects)}
        (Ensures-then (locked r)
          λ entries l. let (p, e) = locked_open r entries l in done (p, rw e refl))
        h

  get_found :
      (r : InMemoryProjectRepository D R) (owner : String) (id : Uuid)
      (document : ProjectDocument D R)
      → get owner id r ≡ ok document
      → (s : StoredProject D R) × (lookup owner id r.projects ≡ some s) × (document ≡ s.document)
  unfolding get
  get_found r owner id document h =
      Ensures-eq-ok
        {P = λ document.
          (s : StoredProject D R) × (lookup owner id r.projects ≡ some s) × (document ≡ s.document)}
        (Ensures-then (locked r) λ entries l.
          Ensures-then (ok_or (lookup owner id entries) not_found)
            λ s f. done (s, rw⁻¹ (locked_open r entries l).1 (ok_or-eq-ok not_found _ f), refl))
        h

  got :
      (r : InMemoryProjectRepository D R) (owner : String) (id : Uuid) (s : StoredProject D R)
      → r.poisoned ≡ false
      → lookup owner id r.projects ≡ some s
      → get owner id r ≡ ok s.document
  unfolding get locked
  got r owner id s p h = rw (p, h) refl

  -- In a repository that the operations reach, the documents that `list` returns for an owner stand
  -- newest first, by the texts of their times of update, and a document is among them exactly if `get` finds it under its identifier.
  pub list-get :
      (r : InMemoryProjectRepository D R) (owner : String) (documents : List (ProjectDocument D R))
      (document : ProjectDocument D R)
      → Reachable services r
      → list owner r ≡ ok documents
      → NewestFirst documents × (Memᴰ document documents ↔ (get owner document.id r ≡ ok document))
  list-get r owner documents document from h =
      let (p, e) = list_open r owner documents h in
      (
        rw e (IsSorted-NewestFirst _ (documents_of-IsSorted owner r.projects)),
        (
          λ m.
              let (s, found, same) =
                found_of_listed r.projects owner document (Reachable-IsUnique r from)
                  (Reachable-Holds services r from) (rw e at m) in
              got r owner document.id s p found ∙ ap ok (sym same),
          λ g.
              let (s, found, same) = get_found r owner document.id document g in
              rw (same, e) (listed_of_found r.projects owner document.id s found),
        ),
      )
