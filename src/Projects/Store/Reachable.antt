-- ===== src/Projects/Store/Reachable.antt =====
-- The states of `InMemoryProjectRepository` in rust/src/persistence/repository.rs that its operations
-- reach, and what they store.
use Prim.Native.String.{◌++◌, []}
use text.Mathlib.Text.{◌==◌ as text_eq}
use text.Mathlib.TextEquality.{eq_iff}
use tco_calculator.Prelude.{
  ℕ, ◌+◌, true, false, ◌≡◌, sym, ◌∙◌, String, Option, none, some, List, ok, err, ok_or, done,
  Ensures-then, ok_or-eq-ok, Ensures-eq-ok, arith, Bool-cases, ◌⊎◌, ◌==◌, inl, inr,
}
use tco_calculator.Prelude.Text.{show_ℕ, append_nonempty}
use tco_calculator.Domain.Resource.{Uuid}
use tco_calculator.Domain.Project.{EditableProject, ProjectDocument}
use tco_calculator.Projects.Types.{
  project_document_type, not_found, precondition_failed, Services, StoredProject, Entry,
  InMemoryProjectRepository,
}
use tco_calculator.Projects.Document.{etag, validate_stored_document}
use tco_calculator.Projects.Repository.{lookup, locked, new, create, get, update, delete}
use tco_calculator.Projects.Store.{IsOther}
use tco_calculator.Projects.Store.Laws.{IsWritten, IsStored, locked_open, create_writes}
use tco_calculator.Projects.Store.Updates.{IsTagged, update_stale, Updates, update_writes}
use tco_calculator.Projects.Store.Deletes.{IsRemoved, delete_writes}

etag_nonempty : (version : ℕ) → text_eq (etag version) "" ≡ false
unfolding etag
etag_nonempty version = append_nonempty _ [] (show_ℕ version ++ "\"")

pub key_cases :
    (owner owner' : String) (id id' : Uuid)
    → IsOther owner id owner' id' ⊎ ((owner ≡ owner') × (id ≡ id'))
key_cases owner owner' id id' = elim (Bool-cases (text_eq owner owner')) [
  | inl e ↦ elim (Bool-cases (id == id')) [
    | inl k ↦ inr ((eq_iff owner owner').0 e, ground arith)
    | inr k ↦ inl (inr (λ p. ground arith))
  ]
  | inr e ↦ inl (inl (λ p. let t = (eq_iff owner owner').1 p in ground arith))
]

module _ {D R : Type 0} where
  found_again :
      (owner owner' : String) (id id' : Uuid) (entries : List (Entry D R))
      {s s' : StoredProject D R}
      → lookup owner id entries ≡ some s
      → owner ≡ owner'
      → id ≡ id'
      → lookup owner' id' entries ≡ some s'
      → s ≡ s'
  found_again owner owner' id id' entries h p q k = cc

  missing_found :
      (owner owner' : String) (id id' : Uuid) (entries : List (Entry D R)) {s' : StoredProject D R}
      → lookup owner id entries ≡ none
      → owner ≡ owner'
      → id ≡ id'
      → lookup owner' id' entries ≡ some s'
      → ⊥
  missing_found owner owner' id id' entries h p q k = cc

  nothing_stored :
      (owner : String) (id : Uuid) (s : StoredProject D R)
      → lookup owner id (new {D = D} {R = R}).projects ≡ some s
      → ⊥
  unfolding new lookup
  nothing_stored owner id s h = cc

module _ {D R : Type 0} (services : Services D R) where
  -- Runs of the service: operations that return, one after the other. An operation that fails keeps
  -- the state it found.
  pub data Reachable : InMemoryProjectRepository D R → Type 0 where
    fresh : Reachable new
    created :
        (owner : String) (project : EditableProject D) (revision : Option R) (now : Option String)
        (id : Uuid) (r r' : InMemoryProjectRepository D R) (document : ProjectDocument D R)
        → Reachable r
        → create services owner project revision now id r ≡ (ok document, r')
        → Reachable r'
    updated :
        (owner : String) (id : Uuid) (if_match : String) (project : EditableProject D)
        (revision : Option R) (now : Option String) (r r' : InMemoryProjectRepository D R)
        (document : ProjectDocument D R)
        → Reachable r
        → update services owner id if_match project revision now r ≡ (ok document, r')
        → Reachable r'
    deleted :
        (owner : String) (id : Uuid) (r r' : InMemoryProjectRepository D R)
        → Reachable r
        → delete owner id r ≡ (ok tt, r')
        → Reachable r'

  abbrev pub Holds : List (Entry D R) → Type 0
  Holds entries =
      (owner : String) (id : Uuid) (s : StoredProject D R)
      → lookup owner id entries ≡ some s
      → IsStored services owner id s

  written-Holds :
      (owner : String) (id : Uuid) (s : StoredProject D R) (before after : List (Entry D R))
      → IsStored services owner id s
      → IsWritten owner id s before after
      → Holds before
      → Holds after
  written-Holds owner id s before after stored w holds owner' id' s' h =
      elim (key_cases owner owner' id id') [
        | inl o ↦ holds owner' id' s' (sym (w.others owner' id' o) ∙ h)
        | inr (p, q) ↦
            let e = found_again owner owner' id id' after w.found p q h in rw⁻¹ (p, q, e) stored
      ]

  removed-Holds :
      (owner : String) (id : Uuid) (before after : List (Entry D R))
      → IsRemoved owner id before after
      → Holds before
      → Holds after
  removed-Holds owner id before after w holds owner' id' s' h =
      elim (key_cases owner owner' id id') [
        | inl o ↦ holds owner' id' s' (sym (w.others owner' id' o) ∙ h)
        | inr (p, q) ↦ absurd (missing_found owner owner' id id' after w.missing p q h)
      ]

  updated-IsStored :
      (owner : String) (id : Uuid) (if_match : String) (document : ProjectDocument D R)
      (before after : List (Entry D R))
      (u : Updates services owner id if_match document before after)
      → Holds before
      → IsStored services owner id (record { document = document; version = u.old.version + 1 })
  updated-IsStored owner id if_match document before after u holds =
      let s = holds owner id u.old u.stored in
      record {
        owned = u.update.owner ∙ s.owned;
        named = u.update.id ∙ s.named;
        kind = u.update.kind;
        tag = u.update.tag;
        size = u.update.size;
      }

  pub Reachable-Holds : (r : InMemoryProjectRepository D R) → Reachable r → Holds r.projects
  Reachable-Holds _ fresh = λ owner id s h. absurd (nothing_stored owner id s h)
  Reachable-Holds _ (created owner project revision now id r0 r document from h) =
      let (p, q, st, w) = create_writes services owner project revision now id r0 r document h in
      written-Holds owner id _ r0.projects r.projects st w (Reachable-Holds r0 from)
  Reachable-Holds _ (updated owner id if_match project revision now r0 r document from h) =
      let (p, q, u) =
        update_writes services owner id if_match project revision now r0 r document h in
      let holds = Reachable-Holds r0 from in
      written-Holds owner id _ r0.projects r.projects
        (updated-IsStored owner id if_match document r0.projects r.projects u holds) u.written holds
  Reachable-Holds _ (deleted owner id r0 r from h) =
      let (p, q, w) = delete_writes owner id r0 r h in
      removed-Holds owner id r0.projects r.projects w (Reachable-Holds r0 from)

  stored_validates :
      (owner : String) (id : Uuid) (s : StoredProject D R)
      → IsStored services owner id s
      → validate_stored_document services s.document owner (some id) ≡ ok tt
  unfolding validate_stored_document
  stored_validates owner id s stored =
      let kind = (eq_iff s.document.document_type project_document_type).1 stored.kind in
      let owned = (eq_iff s.document.owner_id owner).1 stored.owned in
      let named : (s.document.id == id) ≡ true = ground (arith, stored.named) in
      let tagged : text_eq s.document.etag "" ≡ false = rw stored.tag (etag_nonempty s.version) in
      rw (kind, owned, named, tagged) stored.size

  -- Every document of a repository that the operations reach passes `validate_stored_document` for
  -- the key that it is found under.
  pub Reachable-validate :
      (r : InMemoryProjectRepository D R) (owner : String) (id : Uuid)
      (document : ProjectDocument D R)
      → Reachable r
      → get owner id r ≡ ok document
      → validate_stored_document services document owner (some id) ≡ ok tt
  unfolding get
  Reachable-validate r owner id document h g =
      Ensures-eq-ok
        {P = λ document. validate_stored_document services document owner (some id) ≡ ok tt}
        (Ensures-then (locked r) λ entries l.
          Ensures-then (ok_or (lookup owner id entries) not_found) λ s e.
            let (p, q) = locked_open r entries l in
            done (
              stored_validates owner id s
                (Reachable-Holds r h owner id s (rw⁻¹ q (ok_or-eq-ok not_found _ e)))))
        g

  -- In a repository that the operations reach, the tags are those of the versions.
  pub Reachable-IsTagged : (r : InMemoryProjectRepository D R) → Reachable r → IsTagged r.projects
  Reachable-IsTagged r h = λ owner id s e. (Reachable-Holds r h owner id s e).tag

  -- In a repository that the operations reach, an update that repeats the tag with which an update of
  -- the project has just succeeded is refused with `precondition_failed`, and changes nothing.
  pub update_once :
      (owner : String) (id : Uuid) (if_match : String) (project project' : EditableProject D)
      (revision revision' : Option R) (now now' : Option String)
      (r r' : InMemoryProjectRepository D R) (document : ProjectDocument D R)
      → Reachable r
      → update services owner id if_match project revision now r ≡ (ok document, r')
      → update services owner id if_match project' revision' now' r' ≡ (err precondition_failed, r')
  update_once owner id if_match project project' revision revision' now now' r r' document h u =
      update_stale services owner id if_match project project' revision revision' now now' r r'
        document (Reachable-IsTagged r h) u
