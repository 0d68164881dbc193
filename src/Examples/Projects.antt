-- ===== src/Examples/Projects.antt =====
-- A run of the repository in rust/src/persistence/repository.rs. Its parameters serialize a document
-- to its name, and pricing inputs to a snapshot identifier.
use tco_calculator.Prelude.{
  ◌↔◌, ℕ, ◌≡◌, refl, false, none, some, [], ◌∷◌, inr, ok, err, map_or, arith, filter,
}
use tco_calculator.Prelude.Text.{digit, show_digits, show_ℕ}
use tco_calculator.Decimal.Thousandths.{Thousandths}
use tco_calculator.Domain.Project.{EditableProject, ProjectDocument}
use tco_calculator.Projects.Types.{
  Services, InMemoryProjectRepository, not_found, precondition_failed,
}
use tco_calculator.Projects.Document.{
  etag, enforce_document_size, new_document, new_project_document, pricing_inputs_unchanged,
  updated_document, updated_project_document, validate_stored_document,
}
use tco_calculator.Projects.Repository.{
  list, compare_documents, lookup, remove, insert, new, locked, create, get, update, delete,
}
use tco_calculator.Projects.Store.Laws.{get-create}
use tco_calculator.Projects.Store.Updates.{get-update}
use tco_calculator.Projects.Store.Deletes.{get-delete}
use tco_calculator.Projects.Store.Reachable.{
  Reachable, fresh, created, Reachable-validate, update_once,
}
use mathlib.Core.List.{Memᴰ}
use tco_calculator.Ordering.Sort.{sort_by, insert_by}
use tco_calculator.Projects.Store.Listing.{NewestFirst, list-get}
use tco_calculator.Examples.Cost.{settings}

abbrev services : Services Thousandths ℕ
services = record {
  document_to_vec = λ document. some document.name;
  inputs_to_vec = λ inputs. some (map_or inputs.aws_price_snapshot_id "" (λ id. id));
}

abbrev pub project : EditableProject Thousandths
project = record {
  name = "Plan";
  description = none;
  settings = settings;
  resources = [];
  aws_price_snapshot_id = none;
  azure_price_snapshot_id = none;
}

abbrev first_document : ProjectDocument Thousandths ℕ
first_document = new_document "ann" 7 project (some 5) "2026-08-01T00:00:00Z" (etag 1)

abbrev one_project : InMemoryProjectRepository Thousandths ℕ
one_project = record {
  poisoned = false;
  projects =
      record {
        owner_id = "ann";
        id = 7;
        stored = record { document = first_document; version = 1 };
      }
      ∷ [];
}

creates :
    create services "ann" project (some 5) (some "2026-08-01T00:00:00Z") 7 new
    ≡ (ok first_document, one_project)
unfolding create etag show_ℕ show_digits digit enforce_document_size new_document
    new_project_document pricing_inputs_unchanged updated_document updated_project_document lookup
    remove insert filter new locked
creates = refl

get-create_example :
    (get "ann" 7 one_project ≡ ok first_document) × (get "ben" 8 one_project ≡ get "ben" 8 new)
get-create_example =
    get-create services "ann" project (some 5) (some "2026-08-01T00:00:00Z") 7 new one_project
      first_document "ben" 8 creates (inr (λ p. omega arith))

abbrev second_document : ProjectDocument Thousandths ℕ
second_document =
    updated_document first_document (record project { name = "Plan B" }) (some 5)
      "2026-08-02T00:00:00Z" (etag 2)

abbrev updated_project : InMemoryProjectRepository Thousandths ℕ
updated_project = record {
  poisoned = false;
  projects =
      record {
        owner_id = "ann";
        id = 7;
        stored = record { document = second_document; version = 2 };
      }
      ∷ [];
}

updates :
    update services "ann" 7
      (etag 1)
      (record project { name = "Plan B" })
      (some 6)
      (some "2026-08-02T00:00:00Z")
      one_project
    ≡ (ok second_document, updated_project)
unfolding update etag show_ℕ show_digits digit enforce_document_size new_document
    new_project_document pricing_inputs_unchanged updated_document updated_project_document lookup
    remove insert filter new locked
updates = refl

get-update_example :
    (old : ProjectDocument Thousandths ℕ) × (get "ann" 7 one_project ≡ ok old)
    × (old.etag ≡ etag 1)
    × (second_document.id ≡ old.id)
    × (second_document.owner_id ≡ old.owner_id)
    × (second_document.created_at ≡ old.created_at)
    × (get "ann" 7 updated_project ≡ ok second_document)
    × (get "ben" 8 updated_project ≡ get "ben" 8 one_project)
get-update_example =
    get-update services "ann" 7 (etag 1) (record project { name = "Plan B" }) (some 6)
      (some "2026-08-02T00:00:00Z") one_project updated_project second_document "ben" 8 updates
      (inr (λ p. omega arith))

reached : Reachable services one_project
reached =
    created "ann" project (some 5) (some "2026-08-01T00:00:00Z") 7 new one_project first_document
      fresh creates

update_once_example :
    update services "ann" 7 (etag 1) project (some 9) (some "2026-08-03T00:00:00Z") updated_project
    ≡ (err precondition_failed, updated_project)
update_once_example =
    update_once services "ann" 7 (etag 1) (record project { name = "Plan B" }) project (some 6)
      (some 9) (some "2026-08-02T00:00:00Z") (some "2026-08-03T00:00:00Z") one_project
      updated_project second_document reached updates

found : get "ann" 7 one_project ≡ ok first_document
unfolding get etag show_ℕ show_digits digit enforce_document_size new_document new_project_document
    pricing_inputs_unchanged updated_document updated_project_document lookup remove insert filter
    new locked
found = refl

Reachable-validate_example : validate_stored_document services first_document "ann" (some 7) ≡ ok tt
Reachable-validate_example =
    Reachable-validate services one_project "ann" 7 first_document reached found

deletes : delete "ann" 7 one_project ≡ (ok tt, new)
unfolding delete etag show_ℕ show_digits digit enforce_document_size new_document
    new_project_document pricing_inputs_unchanged updated_document updated_project_document lookup
    remove insert filter new locked
deletes = refl

get-delete_example :
    (get "ann" 7 (new {D = Thousandths} {R = ℕ}) ≡ err not_found)
    × (delete "ann" 7 (new {D = Thousandths} {R = ℕ}) ≡ (err not_found, new))
    × (get "ben" 8 (new {D = Thousandths} {R = ℕ}) ≡ get "ben" 8 one_project)
get-delete_example = get-delete "ann" 7 one_project new "ben" 8 deletes (inr (λ p. omega arith))

lists : list "ann" one_project ≡ ok (first_document ∷ [])
unfolding list sort_by insert_by compare_documents filter locked etag show_ℕ show_digits digit
    new_document
lists = refl

list-get_example :
    NewestFirst (first_document ∷ [])
    × (Memᴰ first_document (first_document ∷ [])
        ↔ (get "ann" first_document.id one_project ≡ ok first_document))
list-get_example =
    list-get services one_project "ann" (first_document ∷ []) first_document reached lists
