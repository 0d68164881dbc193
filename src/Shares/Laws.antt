-- ===== src/Shares/Laws.antt =====
-- What a share of rust/src/persistence/project_share.rs opens, and until when.
use text.Mathlib.Text.{◌==◌ as text_eq}
use text.Mathlib.TextEquality.{eq_iff}
use tco_calculator.Prelude.{
  ◌*◌, Bool, true, false, not, ◌≡◌, refl, sym, ap, String, some, List, inl, inr, if◌then◌else◌,
  Result, ok, err, fail_if, fail_if-eq-ok, bind-eq-ok, ok_or, ok_or-eq-ok, attempt-eq-ok, arith,
  Bool-cases,
}
use tco_calculator.Clock.{IsTimes}
use tco_calculator.Maps.{get_key, remove_key, number_key}
use tco_calculator.Maps.Laws.{get-insert}
use tco_calculator.Domain.Resource.{Uuid}
use tco_calculator.Domain.Project.{EditableProject}
use tco_calculator.Shares.Types.{
  share_lifetime_days, ProjectShareDocument, ProjectShareCredentials, CreatedProjectShare,
  ProjectShareError, not_found, expired, unavailable, InMemoryProjectShareRepository, Services,
}
use tco_calculator.Shares.Repository.{
  is_expired, locked, digest_secret, format_timestamp, validate_document, share_document,
  new_share_document, resolve_document, create, resolve,
}

ok_injective : {A : Type 0} {a b : A} → ◌≡◌ {A = Result ProjectShareError A} (ok a) (ok b) → a ≡ b
ok_injective h = cc

not-false : {b : Bool} → not b ≡ false → b ≡ true
not-false h = ground arith

module _ {D : Type 0} where
  pub locked_eq_ok :
      (r : InMemoryProjectShareRepository D) (shares : List (Uuid × ProjectShareDocument D))
      → locked r ≡ ok shares
      → (r.poisoned ≡ false) × (shares ≡ r.shares)
  unfolding locked
  locked_eq_ok r shares h = ground arith

module _ {D T : Type 0} (services : Services D T) where
  -- what `new_share_document` has checked of the document that it returns
  record IsShare (owner : String) (project_id : Uuid) (project : EditableProject D)
      (credentials : ProjectShareCredentials) (now : T) (document : ProjectShareDocument D)
      : Type 0 where
    expires : T
    lifetime : services.times.checked_plus now (share_lifetime_days * 86400) ≡ some expires
    expiry : services.times.format expires ≡ some document.expires_at
    secret : document.secret_sha256 ≡ digest_secret services credentials.secret
    content : document.project ≡ project
    valid : validate_document services document credentials.share_id ≡ ok tt

  new_share_document-IsShare :
      (owner : String) (project_id : Uuid) (project : EditableProject D)
      (credentials : ProjectShareCredentials) (now : T) (document : ProjectShareDocument D)
      → new_share_document services owner project_id project credentials now ≡ ok document
      → IsShare owner project_id project credentials now document
  unfolding new_share_document share_document format_timestamp
  new_share_document-IsShare owner project_id project credentials now document h =
      let (expires, e, h1) =
        bind-eq-ok
          (ok_or (services.times.checked_plus now (share_lifetime_days * 86400)) unavailable) _ h in
      let (created_at, f, h2) = bind-eq-ok (format_timestamp services now) _ h1 in
      let (expires_at, g, h3) = bind-eq-ok (format_timestamp services expires) _ h2 in
      let written =
        share_document services owner project_id project credentials created_at expires_at in
      let (t, v, h4) = bind-eq-ok (validate_document services written credentials.share_id) _ h3 in
      let same : written ≡ document = cc in
      rw⁻¹ same (record {
        expires = expires;
        lifetime = ok_or-eq-ok unavailable _ e;
        expiry = ok_or-eq-ok unavailable _ g;
        secret = refl;
        content = refl;
        valid = v;
      })

  resolve_document-IsShare :
      (owner : String) (project_id : Uuid) (project : EditableProject D)
      (credentials : ProjectShareCredentials) (now now' : T) (document : ProjectShareDocument D)
      (s : IsShare owner project_id project credentials now document)
      → IsTimes services.times
      → resolve_document services document credentials now'
        ≡ (if services.times.reached now' s.expires then err expired else ok project)
  unfolding resolve_document
  resolve_document-IsShare owner project_id project credentials now now' document s laws =
      let secret : text_eq document.secret_sha256 (digest_secret services credentials.secret)
          ≡ true =
        (eq_iff document.secret_sha256 (digest_secret services credentials.secret)).1 s.secret in
      let expiry = laws.parse-format s.expires document.expires_at s.expiry in
      elim (Bool-cases (services.times.reached now' s.expires)) [
        | inl e ↦ rw (s.valid, secret, expiry, e) refl
        | inr e ↦ rw (s.valid, secret, expiry, e, s.content) refl
      ]

  create-IsShare :
      (owner : String) (project_id : Uuid) (project : EditableProject D)
      (credentials : ProjectShareCredentials) (now : T) (r r' : InMemoryProjectShareRepository D)
      (created : CreatedProjectShare)
      → create services owner project_id project credentials now r ≡ (ok created, r')
      → (document : ProjectShareDocument D) × IsShare owner project_id project credentials now
          document
        × (r'.poisoned ≡ false)
        × (get_key credentials.share_id r'.shares ≡ some document)
        × (created.credentials ≡ credentials)
  unfolding create
  create-IsShare owner project_id project credentials now r r' created h =
      let (document, e, h1) =
        attempt-eq-ok (new_share_document services owner project_id project credentials now) r _
          h in
      let (shares, l, h2) = attempt-eq-ok (locked r) r _ h1 in
      let share = new_share_document-IsShare owner project_id project credentials now document e in
      let found = get-insert credentials.share_id document shares in
      let (lock, m) = locked_eq_ok r shares l in
      let opened : CreatedProjectShare = record {
        credentials = credentials;
        expires_at = document.expires_at;
      } in
      let same : opened ≡ created = ok_injective (ap (λ x. x.0) h2) in
      (
        document,
        share,
        rw⁻¹ (ap (λ x. x.1) h2) lock,
        rw⁻¹ (ap (λ x. x.1) h2) found,
        sym (ap (λ c. c.credentials) same),
      )

  -- The credentials of a share that `create` returns open the project that was shared, without a
  -- change, until the thirtieth day after; from then on `resolve` reports that the share has expired,
  -- and removes it.
  pub resolve-create :
      (owner : String) (project_id : Uuid) (project : EditableProject D)
      (credentials : ProjectShareCredentials) (now now' expires : T)
      (r r' : InMemoryProjectShareRepository D) (created : CreatedProjectShare)
      → IsTimes services.times
      → create services owner project_id project credentials now r ≡ (ok created, r')
      → services.times.checked_plus now (share_lifetime_days * 86400) ≡ some expires
      → resolve services created.credentials now' r' ≡ (
        if services.times.reached now' expires then err expired else ok project,
        if services.times.reached now' expires
            then record r' { shares = remove_key created.credentials.share_id r'.shares }
            else r',
      )
  unfolding resolve locked
  resolve-create owner project_id project credentials now now' expires r r' created laws h x =
      let (document, share, lock, found, same) =
        create-IsShare owner project_id project credentials now r r' created h in
      let e : share.expires ≡ expires = cc in
      let outcome =
        resolve_document-IsShare owner project_id project credentials now now' document share
          laws in
      elim (Bool-cases (services.times.reached now' expires)) [
        | inl k ↦ rw (same, lock, found, outcome, e, k) refl
        | inr k ↦ rw (same, lock, found, outcome, e, k) refl
      ]

  resolve_document-eq-ok :
      (document : ProjectShareDocument D) (credentials : ProjectShareCredentials) (now : T)
      (project : EditableProject D)
      → resolve_document services document credentials now ≡ ok project
      → (document.secret_sha256 ≡ digest_secret services credentials.secret)
        × (document.project ≡ project)
        × (expires : T) × (services.times.parse document.expires_at ≡ some expires)
        × (services.times.reached now expires ≡ false)
  unfolding resolve_document
  resolve_document-eq-ok document credentials now project h =
      let digest = digest_secret services credentials.secret in
      let (t, v, h1) = bind-eq-ok (validate_document services document credentials.share_id) _ h in
      let (t', s, h2) =
        bind-eq-ok (fail_if (not (text_eq document.secret_sha256 digest)) not_found) _ h1 in
      let (expires, e, h3) =
        bind-eq-ok (ok_or (services.times.parse document.expires_at) unavailable) _ h2 in
      let (t'', f, h4) = bind-eq-ok (fail_if (services.times.reached now expires) expired) _ h3 in
      let secret : text_eq document.secret_sha256 digest ≡ true =
        not-false (fail_if-eq-ok not_found _ s) in
      (
        (eq_iff document.secret_sha256 digest).0 secret,
        ok_injective h4,
        expires,
        ok_or-eq-ok unavailable _ e,
        fail_if-eq-ok expired _ f,
      )

  opened_same :
      (outcome : Result ProjectShareError (EditableProject D))
      (r0 r r' : InMemoryProjectShareRepository D) (project : EditableProject D)
      → outcome ≡ ok project
      → (if is_expired outcome then r0 else r) ≡ r'
      → r' ≡ r
  opened_same outcome r0 r r' project e h = let h' = rw e at h in sym h'

  -- `resolve` opens a project only for the secret that a stored share was made with, up to collisions of
  -- the digest, and only before the share expires; it then changes nothing.
  pub resolve_sound :
      (credentials : ProjectShareCredentials) (now : T) (r r' : InMemoryProjectShareRepository D)
      (project : EditableProject D)
      → resolve services credentials now r ≡ (ok project, r')
      → (document : ProjectShareDocument D) × (r' ≡ r)
        × (get_key credentials.share_id r.shares ≡ some document)
        × (document.secret_sha256 ≡ digest_secret services credentials.secret)
        × (document.project ≡ project)
        × (expires : T) × (services.times.parse document.expires_at ≡ some expires)
        × (services.times.reached now expires ≡ false)
  unfolding resolve
  resolve_sound credentials now r r' project h =
      let (shares, l, h1) = attempt-eq-ok (locked r) r _ h in
      let (document, g, h2) =
        attempt-eq-ok (ok_or (get_key credentials.share_id shares) not_found) r _ h1 in
      let opened : resolve_document services document credentials now ≡ ok project =
        ap (λ x. x.0) h2 in
      let (lock, m) = locked_eq_ok r shares l in
      let (secret, content, expires, e, early) =
        resolve_document-eq-ok document credentials now project opened in
      (
        document,
        opened_same (resolve_document services document credentials now) _ r r' project opened
            (ap (λ x. x.1) h2),
        rw⁻¹ m (ok_or-eq-ok not_found _ g),
        secret,
        content,
        expires,
        e,
        early,
      )
