-- ===== src/Projects/Store/Updates.antt =====
-- `update` and `delete` of rust/src/persistence/repository.rs: optimistic concurrency by tags.
use text.Mathlib.Text.{◌==◌ as text_eq}
use text.Mathlib.TextEquality.{eq_iff}
use tco_calculator.Prelude.{
  ◌+◌, not, false, ◌≡◌, refl, sym, ◌∙◌, String, Option, some, List, ok, err, fail_if, ok_or,
  if◌then◌else◌, done, ok_or-eq-ok, Ensures-then, Ensures-eq-ok, arith, Bool-cases, inl, inr,
}
use tco_calculator.Domain.Resource.{Uuid}
use tco_calculator.Domain.Project.{EditableProject, ProjectDocument}
use tco_calculator.Projects.Types.{
  project_document_type, not_found, precondition_failed, unavailable, Services, StoredProject,
  Entry, InMemoryProjectRepository,
}
use tco_calculator.Projects.Document.{
  etag, enforce_document_size, updated_project_document, updated_document, pricing_inputs_unchanged,
}
use tco_calculator.Projects.Etag.{etag_injective}
use tco_calculator.Projects.Repository.{checked_add, lookup, locked, get, update}
use tco_calculator.Projects.Store.{IsOther}
use tco_calculator.Projects.Store.Laws.{
  IsWritten, insert-IsWritten, settle-eq-ok, locked_open, get_written,
}

module _ {D R : Type 0} where
  -- What an update keeps of the stored project, and what it sets.
  pub record IsUpdate (services : Services D R) (old new : StoredProject D R) : Type 0 where
    pub id : new.document.id ≡ old.document.id
    pub owner : new.document.owner_id ≡ old.document.owner_id
    pub created : new.document.created_at ≡ old.document.created_at
    pub version : new.version ≡ old.version + 1
    pub tag : new.document.etag ≡ etag (old.version + 1)
    pub kind : new.document.document_type ≡ project_document_type
    pub size : enforce_document_size services new.document ≡ ok tt

  updated_keeps :
      (services : Services D R) (old : StoredProject D R) (project : EditableProject D)
      (revision : Option R) (timestamp : String) (document : ProjectDocument D R)
      → updated_project_document services old.document project revision timestamp
          (etag (old.version + 1))
        ≡ ok document
      → IsUpdate services old (record { document = document; version = old.version + 1 })
  unfolding updated_project_document updated_document
  updated_keeps services old project revision timestamp document h =
      Ensures-eq-ok
        {P = λ document.
          IsUpdate services old (record { document = document; version = old.version + 1 })}
        (Ensures-then (pricing_inputs_unchanged services old.document project) λ unchanged _.
          Ensures-then
            (enforce_document_size services (
              updated_document old.document project
                (if unchanged then old.document.latest_calculation_revision else revision) timestamp
                (etag (old.version + 1))))
            λ t e. done (record {
              id = refl;
              owner = refl;
              created = refl;
              version = refl;
              tag = refl;
              kind = refl;
              size = e;
            }))
        h

  -- a successful update, in terms of the map
  pub record Updates (services : Services D R) (owner : String) (id : Uuid) (if_match : String)
      (document : ProjectDocument D R) (before after : List (Entry D R)) : Type 0 where
    pub old : StoredProject D R
    pub stored : lookup owner id before ≡ some old
    pub matches : old.document.etag ≡ if_match
    pub update : IsUpdate services old (record { document = document; version = old.version + 1 })
    pub written :
        IsWritten owner id (record { document = document; version = old.version + 1 }) before after

  pub update_writes :
      (services : Services D R) (owner : String) (id : Uuid) (if_match : String)
      (project : EditableProject D) (revision : Option R) (now : Option String)
      (r r' : InMemoryProjectRepository D R) (document : ProjectDocument D R)
      → update services owner id if_match project revision now r ≡ (ok document, r')
      → (r.poisoned ≡ false)
        × (r'.poisoned ≡ r.poisoned)
        × Updates services owner id if_match document r.projects r'.projects
  unfolding update
  update_writes services owner id if_match project revision now r r' document h =
      let (m, lock) = settle-eq-ok r r' _ h in
      let (p, w) =
        Ensures-eq-ok
          {P = λ ((document, projects) : ProjectDocument D R × List (Entry D R)).
            (r.poisoned ≡ false) × Updates services owner id if_match document r.projects projects}
          (Ensures-then (locked r) λ entries l.
            Ensures-then (ok_or (lookup owner id entries) not_found) λ old s.
              Ensures-then (fail_if (not (text_eq old.document.etag if_match)) precondition_failed)
                λ t e. Ensures-then (ok_or (checked_add old.version 1) unavailable) λ version v.
                  Ensures-then (ok_or now unavailable) λ timestamp _.
                    Ensures-then
                      (updated_project_document services old.document project revision timestamp
                        (etag version))
                      λ document d.
                        let (p, e0) = locked_open r entries l in
                        let ve : version ≡ old.version + 1 = ground arith in
                        done (
                          p,
                          record {
                            old = old;
                            stored = rw⁻¹ e0 (ok_or-eq-ok not_found _ s);
                            matches = (eq_iff old.document.etag if_match).0 (ground arith);
                            update =
                                updated_keeps services old project revision timestamp document
                                  (rw⁻¹ ve d);
                            written = rw (e0, ve) (insert-IsWritten owner id _ r.projects);
                          },
                        ))
          m in
      (p, lock, w)

  -- `update` returns a document only for the stored document whose tag is `if_match`: it keeps the
  -- identifier, the owner and the creation time, `get` then finds it, and `get` of another key answers
  -- as before.
  pub get-update :
      (services : Services D R) (owner : String) (id : Uuid) (if_match : String)
      (project : EditableProject D) (revision : Option R) (now : Option String)
      (r r' : InMemoryProjectRepository D R) (document : ProjectDocument D R) (owner' : String)
      (id' : Uuid)
      → update services owner id if_match project revision now r ≡ (ok document, r')
      → IsOther owner id owner' id'
      → (old : ProjectDocument D R) × (get owner id r ≡ ok old)
        × (old.etag ≡ if_match)
        × (document.id ≡ old.id)
        × (document.owner_id ≡ old.owner_id)
        × (document.created_at ≡ old.created_at)
        × (get owner id r' ≡ ok document)
        × (get owner' id' r' ≡ get owner' id' r)
  unfolding get locked
  get-update services owner id if_match project revision now r r' document owner' id' h o =
      let (p, q, u) =
        update_writes services owner id if_match project revision now r r' document h in
      let (found, others) = get_written owner id _ r r' p q u.written in
      (
        u.old.document,
        rw (p, u.stored) refl,
        u.matches,
        u.update.id,
        u.update.owner,
        u.update.created,
        found,
        others owner' id' o,
      )

  -- the tags of a map are those of its versions
  abbrev pub IsTagged : List (Entry D R) → Type 0
  IsTagged entries =
      (owner : String) (id : Uuid) (s : StoredProject D R)
      → lookup owner id entries ≡ some s
      → s.document.etag ≡ etag s.version

  -- In a repository whose tags are those of its versions, the tag that an update was made with is
  -- stale after it: a second update with that tag is refused, and changes nothing.
  pub update_stale :
      (services : Services D R) (owner : String) (id : Uuid) (if_match : String)
      (project project' : EditableProject D) (revision revision' : Option R)
      (now now' : Option String) (r r' : InMemoryProjectRepository D R)
      (document : ProjectDocument D R)
      → IsTagged r.projects
      → update services owner id if_match project revision now r ≡ (ok document, r')
      → update services owner id if_match project' revision' now' r' ≡ (err precondition_failed, r')
  unfolding update locked
  update_stale services owner id if_match project project' revision revision' now now' r r' document
        tagged h =
      let (p, q, u) =
        update_writes services owner id if_match project revision now r r' document h in
      let differs : text_eq document.etag if_match ≡ false =
        elim (Bool-cases (text_eq document.etag if_match)) [
          | inl e ↦
              let same =
                sym u.update.tag
                ∙ (eq_iff document.etag if_match).0 e
                ∙ sym u.matches
                ∙ tagged owner id u.old u.stored in
              let v = etag_injective (u.old.version + 1) u.old.version same in absurd (omega arith)
          | inr e ↦ e
        ] in
      rw (q, p, u.written.found, differs) refl
