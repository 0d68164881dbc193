-- ===== src/Projects/Store/Deletes.antt =====
-- `delete` of rust/src/persistence/repository.rs.
use tco_calculator.Prelude.{
  false, ◌≡◌, refl, String, none, List, ok, err, ok_or, done, Ensures-then, Ensures-eq-ok,
}
use tco_calculator.Domain.Resource.{Uuid}
use tco_calculator.Projects.Types.{not_found, Entry, InMemoryProjectRepository}
use tco_calculator.Projects.Repository.{remove, lookup, locked, get, delete}
use tco_calculator.Projects.Store.{IsOther, lookup-remove, lookup-remove_other}
use tco_calculator.Projects.Store.Laws.{settle-eq-ok, locked_open}

module _ {D R : Type 0} where
  -- a successful deletion, in terms of the map
  pub record IsRemoved (owner : String) (id : Uuid) (before after : List (Entry D R)) : Type 0 where
    pub placed : after ≡ remove owner id before
    pub missing : lookup owner id after ≡ none
    pub others :
        (owner' : String) (id' : Uuid)
        → IsOther owner id owner' id'
        → lookup owner' id' after ≡ lookup owner' id' before

  pub delete_writes :
      (owner : String) (id : Uuid) (r r' : InMemoryProjectRepository D R)
      → delete owner id r ≡ (ok tt, r')
      → (r.poisoned ≡ false)
        × (r'.poisoned ≡ r.poisoned)
        × IsRemoved owner id r.projects r'.projects
  unfolding delete
  delete_writes owner id r r' h =
      let (m, lock) = settle-eq-ok r r' _ h in
      let (p, w) =
        Ensures-eq-ok
          {P = λ ((t, projects) : Unit {0} × List (Entry D R)).
            (r.poisoned ≡ false) × IsRemoved owner id r.projects projects}
          (Ensures-then (locked r) λ entries l.
            Ensures-then (ok_or (lookup owner id entries) not_found) λ old s.
              let (p, e) = locked_open r entries l in
              done (
                p,
                record {
                  placed = rw e refl;
                  missing = lookup-remove owner id entries;
                  others =
                      λ owner' id' o. rw⁻¹ e (lookup-remove_other owner owner' id id' entries o);
                },
              ))
          m in
      (p, lock, w)

  -- After a deletion that succeeds, `get` reports that the project was not found, a second deletion is
  -- refused without a change, and `get` of another key answers as before.
  pub get-delete :
      (owner : String) (id : Uuid) (r r' : InMemoryProjectRepository D R) (owner' : String)
      (id' : Uuid)
      → delete owner id r ≡ (ok tt, r')
      → IsOther owner id owner' id'
      → (get owner id r' ≡ err not_found)
        × (delete owner id r' ≡ (err not_found, r'))
        × (get owner' id' r' ≡ get owner' id' r)
  unfolding get delete locked
  get-delete owner id r r' owner' id' h o =
      let (p, q, w) = delete_writes owner id r r' h in
      (rw (q, p, w.missing) refl, rw (q, p, w.missing) refl, rw (q, p, w.others owner' id' o) refl)
