-- ===== src/Examples/Consents.antt =====
-- A consent of rust/src/persistence/privacy_consent.rs that is saved without the permission to contact.
use tco_calculator.Prelude.{false, ◌≡◌, ◌≢◌, refl, none, some, [], ◌∷◌, ok, String, filter}
use tco_calculator.Maps.{insert_key, remove_key, text_key}
use tco_calculator.Consents.Repository.{
  PrivacyConsentProfile, PrivacyConsentDocument, InMemoryPrivacyConsentRepository, new, locked,
  validate_document, get, current_timestamp, consent_document, new_document, save,
}
use tco_calculator.Consents.Laws.{get-save}
use tco_calculator.Examples.Clock.{strokes, times}

abbrev profile : PrivacyConsentProfile
profile = record {
  display_name = none;
  email_address = some "discard@example.com";
  allow_contact = false;
}

unfoldable consent : PrivacyConsentDocument
unfolding consent_document strokes
consent = consent_document times "ann" profile (strokes 5)

unfoldable one_consent : InMemoryPrivacyConsentRepository
unfolding consent
one_consent = record { poisoned = false; records = ("ann", consent) ∷ [] }

saves : save times "ann" profile 5 new ≡ (ok consent, one_consent)
unfolding save new locked new_document current_timestamp consent_document validate_document
    insert_key remove_key filter times strokes consent one_consent
saves = refl

get-save_example :
    (get "ann" one_consent ≡ ok (some consent))
    × (consent.email_address ≡ none)
    × (consent.allow_contact ≡ false)
    × (consent.display_name ≡ none)
    × ((other : String) → "ann" ≢ other → get other one_consent ≡ get other new)
get-save_example = get-save times "ann" profile 5 new one_consent consent saves
