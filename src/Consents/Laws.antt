-- ===== src/Consents/Laws.antt =====
-- What is read back after a consent of rust/src/persistence/privacy_consent.rs was saved.
use text.Mathlib.Text.{◌==◌ as text_eq}
use tco_calculator.Prelude.{
  false, not, ◌&&◌, ◌||◌, ◌≡◌, ◌≢◌, ◌∙◌, refl, sym, ap, String, none, some, is_some, List,
  if◌then◌else◌, Result, ok, fail_if, bind-eq-ok, attempt-eq-ok, arith, Bool-cases, inl, inr,
}
use tco_calculator.Maps.{insert_key, text_key}
use tco_calculator.Maps.Laws.{get-insert, get-insert_other}
use tco_calculator.Clock.{Times}
use tco_calculator.Consents.Repository.{
  PrivacyConsentProfile, PrivacyConsentDocument, PrivacyConsentError, invalid_record,
  InMemoryPrivacyConsentRepository, locked, validate_document, validated, get, current_timestamp,
  consent_document, new_document, save,
}

ok_injective : {A : Type 0} {a b : A} → ◌≡◌ {A = Result PrivacyConsentError A} (ok a) (ok b) → a ≡ b
ok_injective h = cc

locked_eq_ok :
    (r : InMemoryPrivacyConsentRepository) (records : List (String × PrivacyConsentDocument))
    → locked r ≡ ok records
    → (r.poisoned ≡ false) × (records ≡ r.records)
unfolding locked
locked_eq_ok r records h = ground arith

module _ {T : Type 0} (times : Times T) where
  -- what a document that `new_document` returns is
  record IsConsent (owner : String) (profile : PrivacyConsentProfile)
      (document : PrivacyConsentDocument) : Type 0 where
    accepted_at : String
    is : document ≡ consent_document times owner profile accepted_at
    valid : validate_document document owner ≡ ok tt

  new_document-IsConsent :
      (owner : String) (profile : PrivacyConsentProfile) (now : T)
      (document : PrivacyConsentDocument)
      → new_document times owner profile now ≡ ok document
      → IsConsent owner profile document
  unfolding new_document
  new_document-IsConsent owner profile now document h =
      let (t1, e1, h1) =
        bind-eq-ok
          (fail_if
            (text_eq owner "" || (profile.allow_contact && not (is_some profile.email_address)))
            invalid_record)
          _ h in
      let (accepted_at, e2, h2) = bind-eq-ok (current_timestamp times now) _ h1 in
      let made = consent_document times owner profile accepted_at in
      let (t3, e3, h3) = bind-eq-ok (validate_document made owner) _ h2 in
      let same : made ≡ document = cc in
      record { accepted_at = accepted_at; is = sym same; valid = rw⁻¹ same e3 }

  written_get :
      (owner : String) (profile : PrivacyConsentProfile) (r : InMemoryPrivacyConsentRepository)
      (document : PrivacyConsentDocument)
      → IsConsent owner profile document
      → r.poisoned ≡ false
      → get owner (record r { records = insert_key owner document r.records }) ≡ ok (some document)
  unfolding get validated locked
  written_get owner profile r document c lock =
      rw (lock, get-insert {K = String} owner document r.records, c.valid) refl

  written_get_other :
      (owner other : String) (r : InMemoryPrivacyConsentRepository)
      (document : PrivacyConsentDocument)
      → owner ≢ other
      → get other (record r { records = insert_key owner document r.records }) ≡ get other r
  unfolding get locked
  written_get_other owner other r document o = elim (Bool-cases r.poisoned) [
    | inl lost ↦ rw lost refl
    | inr lock ↦ rw (lock, get-insert_other {K = String} owner other document r.records o) refl
  ]

  -- After `save` returned a document, `get` finds it under its owner, and answers for every other owner
  -- as before. The document has the name and the permission of the profile, and keeps the address of
  -- the profile exactly if contact is allowed.
  pub get-save :
      (owner : String) (profile : PrivacyConsentProfile) (now : T)
      (r r' : InMemoryPrivacyConsentRepository) (document : PrivacyConsentDocument)
      → save times owner profile now r ≡ (ok document, r')
      → (get owner r' ≡ ok (some document))
        × (document.email_address ≡ (if profile.allow_contact then profile.email_address else none))
        × (document.allow_contact ≡ profile.allow_contact)
        × (document.display_name ≡ profile.display_name)
        × ((other : String) → owner ≢ other → get other r' ≡ get other r)
  unfolding save consent_document
  get-save owner profile now r r' document h =
      let (made, m, h1) = attempt-eq-ok (new_document times owner profile now) r _ h in
      let (records, l, h2) = attempt-eq-ok (locked r) r _ h1 in
      let (lock, e) = locked_eq_ok r records l in
      let same : made ≡ document = ok_injective (ap (λ x. x.0) h2) in
      let c = new_document-IsConsent owner profile now document (m ∙ ap ok same) in
      rw⁻¹ (ap (λ x. x.1) h2) (
        rw (same, e)
          (
            written_get owner profile r document c lock,
            ap (λ d. d.email_address) c.is,
            ap (λ d. d.allow_contact) c.is,
            ap (λ d. d.display_name) c.is,
            λ other o. written_get_other owner other r document o,
          ))
