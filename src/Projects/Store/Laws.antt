-- ===== src/Projects/Store/Laws.antt =====
-- What the operations of `InMemoryProjectRepository` in rust/src/persistence/repository.rs write.
use tco_calculator.Prelude.{
  false, ◌≡◌, refl, String, Option, some, List, Result, ok, err, ok_or, done, Ensures-then,
  Ensures-eq-ok, arith,
}
use tco_calculator.Domain.Resource.{Uuid}
use tco_calculator.Domain.Project.{EditableProject, ProjectDocument}
use tco_calculator.Projects.Types.{
  RepositoryError, unavailable, project_document_type, Services, StoredProject, Entry,
  InMemoryProjectRepository,
}
use tco_calculator.Projects.Document.{
  etag, enforce_document_size, new_document, new_project_document,
}
use tco_calculator.Projects.Repository.{lookup, insert, locked, settle, create, get}
use tco_calculator.Projects.Store.{IsOther, lookup-insert, lookup-insert_other}

module _ {D R : Type 0} where
  -- The map `after` has `stored` under the key, and what `before` had under every other key.
  pub record IsWritten (owner : String) (id : Uuid) (stored : StoredProject D R)
      (before after : List (Entry D R)) : Type 0 where
    pub placed : after ≡ insert owner id stored before
    pub found : lookup owner id after ≡ some stored
    pub others :
        (owner' : String) (id' : Uuid)
        → IsOther owner id owner' id'
        → lookup owner' id' after ≡ lookup owner' id' before

  -- What is stored under a key: a document that is due to be stored there, with the tag of its
  -- version, and not over the limit.
  pub record IsStored (services : Services D R) (owner : String) (id : Uuid) (s : StoredProject D R)
      : Type 0 where
    pub owned : s.document.owner_id ≡ owner
    pub named : s.document.id ≡ id
    pub kind : s.document.document_type ≡ project_document_type
    pub tag : s.document.etag ≡ etag s.version
    pub size : enforce_document_size services s.document ≡ ok tt

  new_project_document-IsStored :
      (services : Services D R) (owner : String) (id : Uuid) (project : EditableProject D)
      (revision : Option R) (timestamp : String) (document : ProjectDocument D R)
      → new_project_document services owner id project revision timestamp (etag 1) ≡ ok document
      → IsStored services owner id (record { document = document; version = 1 })
  unfolding new_project_document new_document
  new_project_document-IsStored services owner id project revision timestamp document h =
      Ensures-eq-ok
        {P = λ document. IsStored services owner id (record { document = document; version = 1 })}
        (Ensures-then
          (enforce_document_size services
            (new_document owner id project revision timestamp (etag 1)))
          λ t e. done (record { owned = refl; named = refl; kind = refl; tag = refl; size = e }))
        h

  pub insert-IsWritten :
      (owner : String) (id : Uuid) (stored : StoredProject D R) (entries : List (Entry D R))
      → IsWritten owner id stored entries (insert owner id stored entries)
  insert-IsWritten owner id stored entries = record {
    placed = refl;
    found = lookup-insert owner id stored entries;
    others = λ owner' id' o. lookup-insert_other owner owner' id id' stored entries o;
  }

  pub settle-eq-ok {κ} :
      {A : Type κ} (r r' : InMemoryProjectRepository D R)
      (m : Result RepositoryError (A × List (Entry D R))) {a : A}
      → settle r m ≡ (ok a, r')
      → (m ≡ ok (a, r'.projects)) × (r'.poisoned ≡ r.poisoned)
  settle-eq-ok r r' (ok (b, projects)) h = (cc, cc)
  settle-eq-ok r r' (err e) h = absurd cc

  pub locked_open :
      (r : InMemoryProjectRepository D R) (entries : List (Entry D R))
      → locked r ≡ ok entries
      → (r.poisoned ≡ false) × (entries ≡ r.projects)
  unfolding locked
  locked_open r entries h = ground arith

  -- what a write under a key says of `get`
  pub get_written :
      (owner : String) (id : Uuid) (stored : StoredProject D R)
      (r r' : InMemoryProjectRepository D R)
      → r.poisoned ≡ false
      → r'.poisoned ≡ r.poisoned
      → IsWritten owner id stored r.projects r'.projects
      → (get owner id r' ≡ ok stored.document)
        × ((owner' : String) (id' : Uuid)
            → IsOther owner id owner' id'
            → get owner' id' r' ≡ get owner' id' r)
  unfolding get locked
  get_written owner id stored r r' p q w =
      (rw (q, p, w.found) refl, λ owner' id' o. rw (q, p, w.others owner' id' o) refl)

  pub create_writes :
      (services : Services D R) (owner : String) (project : EditableProject D) (revision : Option R)
      (now : Option String) (id : Uuid) (r r' : InMemoryProjectRepository D R)
      (document : ProjectDocument D R)
      → create services owner project revision now id r ≡ (ok document, r')
      → (r.poisoned ≡ false)
        × (r'.poisoned ≡ r.poisoned)
        × IsStored services owner id (record { document = document; version = 1 })
        × IsWritten owner id (record { document = document; version = 1 }) r.projects r'.projects
  unfolding create
  create_writes services owner project revision now id r r' document h =
      let (m, lock) = settle-eq-ok r r' _ h in
      let (p, st, w) =
        Ensures-eq-ok
          {P = λ ((document, projects) : ProjectDocument D R × List (Entry D R)).
            (r.poisoned ≡ false)
            × IsStored services owner id (record { document = document; version = 1 })
            × IsWritten owner id (record { document = document; version = 1 }) r.projects projects}
          (Ensures-then (ok_or now unavailable) λ timestamp _.
            Ensures-then
              (new_project_document services owner id project revision timestamp (etag 1))
              λ document n. Ensures-then (locked r) λ entries l.
                let (p, e) = locked_open r entries l in
                done (
                  p,
                  new_project_document-IsStored services owner id project revision timestamp
                      document n,
                  rw⁻¹ e (insert-IsWritten owner id _ entries),
                ))
          m in
      (p, lock, st, w)

  -- A project that `create` returns is the one that `get` finds under its owner and identifier, and
  -- `get` of another owner or identifier answers as before.
  pub get-create :
      (services : Services D R) (owner : String) (project : EditableProject D) (revision : Option R)
      (now : Option String) (id : Uuid) (r r' : InMemoryProjectRepository D R)
      (document : ProjectDocument D R) (owner' : String) (id' : Uuid)
      → create services owner project revision now id r ≡ (ok document, r')
      → IsOther owner id owner' id'
      → (get owner id r' ≡ ok document) × (get owner' id' r' ≡ get owner' id' r)
  get-create services owner project revision now id r r' document owner' id' h o =
      let (p, q, st, w) = create_writes services owner project revision now id r r' document h in
      let (found, others) =
        get_written owner id (record { document = document; version = 1 }) r r' p q w in
      (found, others owner' id' o)
