-- ===== src/Shares/Revocation.antt =====
-- Revoked shares of rust/src/persistence/project_share.rs.
use text.Mathlib.Text.{◌==◌ as text_eq}
use tco_calculator.Prelude.{
  Bool, true, false, not, ◌&&◌, ◌||◌, ◌≡◌, refl, sym, ap, ◌∙◌, String, none, List, is_some_and, inl,
  inr, ◌==◌, if◌then◌else◌, ok, err, ok_or, attempt-eq-ok, attempt-leaves, arith, Bool-cases,
  Option-cases, filter,
}
use tco_calculator.Maps.{get_key, remove_key, number_key}
use tco_calculator.Maps.Laws.{IsMap, get-filter-none, get-filter-some, insert-IsMap, filter-IsMap}
use tco_calculator.Domain.Resource.{Uuid}
use tco_calculator.Domain.Project.{EditableProject}
use tco_calculator.Shares.Types.{
  ProjectShareDocument, ProjectShareCredentials, not_found, InMemoryProjectShareRepository,
  Services,
}
use tco_calculator.Shares.Repository.{
  is_expired, new, locked, new_share_document, resolve_document, create, resolve, revoke,
  survives_revocation, revoke_project,
}
use tco_calculator.Shares.Laws.{locked_eq_ok}

module _ {D : Type 0} where
  -- the share belongs to the project of the owner
  abbrev pub is_of : String → Uuid → ProjectShareDocument D → Bool
  is_of owner project_id document =
      text_eq document.source_owner_id owner && (document.source_project_id == project_id)

module _ {D T : Type 0} (services : Services D T) where
  -- Runs of the service: calls that return or fail.
  pub data Reachable : InMemoryProjectShareRepository D → Type 0 where
    fresh : Reachable new
    created :
        (owner : String) (project_id : Uuid) (project : EditableProject D)
        (credentials : ProjectShareCredentials) (now : T) (r : InMemoryProjectShareRepository D)
        → Reachable r
        → Reachable (create services owner project_id project credentials now r).1
    resolved :
        (credentials : ProjectShareCredentials) (now : T) (r : InMemoryProjectShareRepository D)
        → Reachable r
        → Reachable (resolve services credentials now r).1
    revoked :
        (owner : String) (project_id id : Uuid) (r : InMemoryProjectShareRepository D)
        → Reachable r
        → Reachable (revoke owner project_id id r).1
    project_revoked :
        (owner : String) (project_id : Uuid) (r : InMemoryProjectShareRepository D)
        → Reachable r
        → Reachable (revoke_project owner project_id r).1

  abbrev HasMap : InMemoryProjectShareRepository D → Type 0
  HasMap r = IsMap r.shares

  removed-HasMap :
      (id : Uuid) (shares : List (Uuid × ProjectShareDocument D))
      → IsMap shares
      → IsMap (remove_key id shares)
  unfolding remove_key
  removed-HasMap id shares u = filter-IsMap _ shares u

  kept-HasMap :
      (b : Bool) (r0 r : InMemoryProjectShareRepository D)
      → HasMap r0
      → HasMap r
      → HasMap (if b then r0 else r)
  kept-HasMap true r0 r u v = u
  kept-HasMap false r0 r u v = v

  Reachable-HasMap : (r : InMemoryProjectShareRepository D) → Reachable r → HasMap r
  unfolding new create resolve revoke revoke_project
  Reachable-HasMap _ fresh = λ k v v' m m'. elim m [ ]
  Reachable-HasMap _ (created owner project_id project credentials now r from) =
      let u = Reachable-HasMap r from in
      attempt-leaves HasMap (new_share_document services owner project_id project credentials now) r
        _ u
        λ document e. attempt-leaves HasMap (locked r) r _ u λ shares l.
          insert-IsMap credentials.share_id document shares (rw (locked_eq_ok r shares l).1 u)
  Reachable-HasMap _ (resolved credentials now r from) =
      let u = Reachable-HasMap r from in
      attempt-leaves HasMap (locked r) r _ u λ shares l.
        attempt-leaves HasMap (ok_or (get_key credentials.share_id shares) not_found) r _ u
          λ document g.
            kept-HasMap (is_expired (resolve_document services document credentials now)) _ r
              (removed-HasMap credentials.share_id r.shares u) u
  Reachable-HasMap _ (revoked owner project_id id r from) =
      let u = Reachable-HasMap r from in
      attempt-leaves HasMap (locked r) r _ u λ shares l.
        attempt-leaves HasMap (ok_or (get_key id shares) not_found) r _ u λ document g.
          elim (Bool-cases (
            not (text_eq document.source_owner_id owner)
            || not (document.source_project_id == project_id))) [
              | inl c ↦ rw c u
              | inr c ↦ rw c (removed-HasMap id shares (rw (locked_eq_ok r shares l).1 u))
            ]
  Reachable-HasMap _ (project_revoked owner project_id r from) =
      let u = Reachable-HasMap r from in
      attempt-leaves HasMap (locked r) r _ u
        λ shares l. filter-IsMap _ shares (rw (locked_eq_ok r shares l).1 u)

  resolve_missing :
      (credentials : ProjectShareCredentials) (now : T) (r : InMemoryProjectShareRepository D)
      → r.poisoned ≡ false
      → get_key credentials.share_id r.shares ≡ none
      → resolve services credentials now r ≡ (err not_found, r)
  unfolding resolve locked
  resolve_missing credentials now r lock g = rw (lock, g) refl

  resolve_same :
      (credentials : ProjectShareCredentials) (now : T) (r r' : InMemoryProjectShareRepository D)
      → r'.poisoned ≡ r.poisoned
      → get_key credentials.share_id r'.shares ≡ get_key credentials.share_id r.shares
      → (resolve services credentials now r').0 ≡ (resolve services credentials now r).0
  unfolding resolve locked
  resolve_same credentials now r r' lock g = elim (Bool-cases r.poisoned) [
    | inl p ↦ rw (lock, p) refl
    | inr p ↦ elim (Option-cases (get_key credentials.share_id r.shares)) [
      | inl e ↦ rw (lock, p, g, e) refl
      | inr (document, e) ↦ rw (lock, p, g, e) refl
    ]
  ]

  revoked_resolve :
      (owner : String) (project_id : Uuid) (credentials : ProjectShareCredentials) (now : T)
      (r : InMemoryProjectShareRepository D)
      → HasMap r
      → r.poisoned ≡ false
      → (resolve services credentials now
          (record r { shares = filter (survives_revocation owner project_id) r.shares })).0
        ≡ (if is_some_and (get_key credentials.share_id r.shares) (is_of owner project_id)
            then err not_found
            else (resolve services credentials now r).0)
  revoked_resolve owner project_id credentials now r u lock =
      let p = survives_revocation {D = D} owner project_id in
      let id = credentials.share_id in
      let left : InMemoryProjectShareRepository D = record r { shares = filter p r.shares } in
      elim (Option-cases (get_key id r.shares)) [
        | inl e ↦
            let same = get-filter-none p id r.shares u e ∙ sym e in
            rw e (resolve_same credentials now r left refl same)
        | inr (document, e) ↦
            let kept = get-filter-some p id document r.shares u e in
            elim (Bool-cases (is_of owner project_id document)) [
              | inl o ↦
                  let dropped : p (id, document) ≡ false = ground arith in
                  rw (e, o)
                    (ap (λ x. x.0) (resolve_missing credentials now left lock (rw dropped at kept)))
              | inr o ↦
                  let passed : p (id, document) ≡ true = ground arith in
                  rw (e, o) (resolve_same credentials now r left refl ((rw passed at kept) ∙ sym e))
            ]
      ]

  -- In a reachable repository, once the shares of a project are revoked, the credentials of a share of
  -- that project find nothing, and all others get the answer that they got before.
  pub resolve-revoke_project :
      (owner : String) (project_id : Uuid) (credentials : ProjectShareCredentials) (now : T)
      (r r' : InMemoryProjectShareRepository D)
      → Reachable r
      → revoke_project owner project_id r ≡ (ok tt, r')
      → (resolve services credentials now r').0 ≡ (
          if is_some_and (get_key credentials.share_id r.shares) (is_of owner project_id)
          then err not_found
          else (resolve services credentials now r).0)
  unfolding revoke_project
  resolve-revoke_project owner project_id credentials now r r' from h =
      let (shares, l, h1) = attempt-eq-ok (locked r) r _ h in
      let (lock, m) = locked_eq_ok r shares l in
      rw⁻¹ (ap (λ x. x.1) h1)
        (rw m (revoked_resolve owner project_id credentials now r (Reachable-HasMap r from) lock))
