-- ===== src/Projects/Repository.antt =====
-- `InMemoryProjectRepository` of rust/src/persistence/repository.rs. Each operation makes its one
-- write after everything that can fail, so `settle` gives the state that an error leaves.
use Prim.Native.Nat.{Ordering, compare}
use Prim.Native.String.{compare as compare_text}
use text.Mathlib.Text.{◌==◌ as text_eq}
use tco_calculator.Prelude.{
  ℕ, ◌+◌, ◌^◌, Bool, false, not, ◌&&◌, String, Option, none, some, List, [], ◌∷◌, map, filter, ltb,
  ◌==◌, if◌then◌else◌, Result, ok, err, ◌>>=◌, ◌>>◌, fail_if, ok_or,
}
use tco_calculator.Ordering.{then_with}
use tco_calculator.Ordering.Sort.{sort_by}
use tco_calculator.Domain.Resource.{Uuid}
use tco_calculator.Domain.Project.{EditableProject, ProjectDocument}
use tco_calculator.Projects.Types.{
  RepositoryError, not_found, precondition_failed, unavailable, Services, StoredProject, Entry,
  InMemoryProjectRepository,
}
use tco_calculator.Projects.Document.{etag, new_project_document, updated_project_document}

-- `u64::checked_add`
abbrev pub checked_add : ℕ → ℕ → Option ℕ
checked_add a b = if ltb (a + b) (2 ^ 64) then some (a + b) else none

module _ {D R : Type 0} where
  abbrev pub has_key : String → Uuid → Entry D R → Bool
  has_key owner_id id entry = text_eq entry.owner_id owner_id && (entry.id == id)

  -- `HashMap::get`, `HashMap::remove` and `HashMap::insert`
  unfoldable pub lookup : String → Uuid → List (Entry D R) → Option (StoredProject D R)
  lookup owner_id id [] = none
  lookup owner_id id (entry ∷ entries) =
      if has_key owner_id id entry then some entry.stored else lookup owner_id id entries

  unfoldable pub remove : String → Uuid → List (Entry D R) → List (Entry D R)
  unfolding filter
  remove owner_id id entries = filter (λ entry. not (has_key owner_id id entry)) entries

  unfoldable pub insert : String → Uuid → StoredProject D R → List (Entry D R) → List (Entry D R)
  unfolding remove
  insert owner_id id stored entries =
      record { owner_id = owner_id; id = id; stored = stored } ∷ remove owner_id id entries

  unfoldable pub new : InMemoryProjectRepository D R
  new = record { poisoned = false; projects = [] }

  -- `read_projects` and `write_projects`
  unfoldable pub locked : InMemoryProjectRepository D R → Result RepositoryError (List (Entry D R))
  locked repository = if repository.poisoned then err unavailable else ok repository.projects

  abbrev pub settle {κ} :
      {A : Type κ}
      → InMemoryProjectRepository D R
      → Result RepositoryError (A × List (Entry D R))
      → Result RepositoryError A × InMemoryProjectRepository D R
  settle repository (ok (a, projects)) =
      (ok a, record { poisoned = repository.poisoned; projects = projects })
  settle repository (err e) = (err e, repository)

  unfoldable pub check_health : InMemoryProjectRepository D R → Result RepositoryError (Unit {0})
  unfolding locked
  check_health repository = do projects ← locked repository; ok tt

  -- newest first, then by identifier
  unfoldable pub compare_documents : ProjectDocument D R → ProjectDocument D R → Ordering
  compare_documents left right =
      then_with (compare_text right.updated_at left.updated_at) (compare left.id right.id)

  unfoldable pub list :
      String → InMemoryProjectRepository D R → Result RepositoryError (List (ProjectDocument D R))
  unfolding locked compare_documents sort_by filter
  list owner_id repository = do
    projects ← locked repository
    let documents =
        map (λ entry. entry.stored.document)
          (filter (λ entry. text_eq entry.owner_id owner_id) projects)
    ok (sort_by compare_documents documents)

  -- `now` is the answer of `current_timestamp`, and `id` that of `Uuid::new_v4`.
  unfoldable pub create :
      Services D R
      → String
      → EditableProject D
      → Option R
      → Option String
      → Uuid
      → InMemoryProjectRepository D R
      → Result RepositoryError (ProjectDocument D R) × InMemoryProjectRepository D R
  unfolding locked insert new_project_document
  create services owner_id project calculation_revision now id repository = settle repository do
    timestamp ← ok_or now unavailable
    let version : ℕ = 1
    document ←
        new_project_document services owner_id id project calculation_revision timestamp
          (etag version)
    projects ← locked repository
    ok (document, insert owner_id id (record { document = document; version = version }) projects)

  unfoldable pub get :
      String → Uuid → InMemoryProjectRepository D R → Result RepositoryError (ProjectDocument D R)
  unfolding locked lookup
  get owner_id project_id repository = do
    projects ← locked repository
    stored ← ok_or (lookup owner_id project_id projects) not_found
    ok stored.document

  unfoldable pub update :
      Services D R
      → String
      → Uuid
      → String
      → EditableProject D
      → Option R
      → Option String
      → InMemoryProjectRepository D R
      → Result RepositoryError (ProjectDocument D R) × InMemoryProjectRepository D R
  unfolding locked lookup insert updated_project_document
  update services owner_id project_id if_match project calculation_revision now repository =
      settle repository do
        projects ← locked repository
        stored ← ok_or (lookup owner_id project_id projects) not_found
        fail_if (not (text_eq stored.document.etag if_match)) precondition_failed
        version ← ok_or (checked_add stored.version 1) unavailable
        timestamp ← ok_or now unavailable
        document ←
            updated_project_document services stored.document project calculation_revision timestamp
              (etag version)
        ok (
          document,
          insert owner_id project_id (record { document = document; version = version }) projects,
        )

  unfoldable pub delete :
      String
      → Uuid
      → InMemoryProjectRepository D R
      → Result RepositoryError (Unit {0}) × InMemoryProjectRepository D R
  unfolding locked lookup remove
  delete owner_id project_id repository = settle repository do
    projects ← locked repository
    stored ← ok_or (lookup owner_id project_id projects) not_found
    ok (tt, remove owner_id project_id projects)
