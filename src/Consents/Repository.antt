-- ===== src/Consents/Repository.antt =====
-- `InMemoryPrivacyConsentRepository` of rust/src/persistence/privacy_consent.rs. `now` is the answer of
-- `OffsetDateTime::now_utc`.
use text.Mathlib.Text.{◌==◌ as text_eq}
use tco_calculator.Prelude.{
  Bool, true, false, not, ◌&&◌, ◌||◌, String, Option, none, some, is_some, List, [], if◌then◌else◌,
  Result, ok, err, ◌>>=◌, ◌>>◌, fail_if, ok_or, attempt,
}
use tco_calculator.Maps.{get_key, insert_key, text_key}
use tco_calculator.Clock.{Times}

abbrev pub current_privacy_notice_version : String
current_privacy_notice_version = "2026-08-24-internal-pilot-v2"

abbrev pub privacy_consent_document_id : String
privacy_consent_document_id = "privacy-consent"

abbrev pub privacy_consent_document_type : String
privacy_consent_document_type = "privacy_consent"

pub record PrivacyConsentProfile : Type 0 where
  pub display_name : Option String
  pub email_address : Option String
  pub allow_contact : Bool

pub record PrivacyConsentDocument : Type 0 where
  pub id : String
  pub document_type : String
  pub owner_id : String
  pub notice_version : String
  pub accepted_at : String
  pub display_name : Option String
  pub email_address : Option String
  pub allow_contact : Bool

pub data PrivacyConsentError : Type 0 where
  invalid_record unavailable : PrivacyConsentError

-- `poisoned` says whether a thread has panicked with the lock held.
pub record InMemoryPrivacyConsentRepository : Type 0 where
  pub poisoned : Bool
  pub records : List (String × PrivacyConsentDocument)

unfoldable pub new : InMemoryPrivacyConsentRepository
new = record { poisoned = false; records = [] }

-- `read` and `write` of the lock
unfoldable pub locked :
    InMemoryPrivacyConsentRepository
    → Result PrivacyConsentError (List (String × PrivacyConsentDocument))
locked repository = if repository.poisoned then err unavailable else ok repository.records

-- `!=` of two Booleans
abbrev pub differ : Bool → Bool → Bool
differ true b = not b
differ false b = b

unfoldable pub validate_document :
    PrivacyConsentDocument → String → Result PrivacyConsentError (Unit {0})
validate_document document owner_id =
    fail_if
      (not (text_eq document.id privacy_consent_document_id)
        || not (text_eq document.document_type privacy_consent_document_type)
        || not (text_eq document.owner_id owner_id)
        || text_eq document.notice_version ""
        || text_eq document.accepted_at ""
        || differ document.allow_contact (is_some document.email_address))
      invalid_record

-- what `get` answers for what the map holds under its key
unfoldable pub validated :
    String
    → Option PrivacyConsentDocument
    → Result PrivacyConsentError (Option PrivacyConsentDocument)
unfolding validate_document
validated owner_id none = ok none
validated owner_id (some found) = validate_document found owner_id >> ok (some found)

unfoldable pub get :
    String
    → InMemoryPrivacyConsentRepository
    → Result PrivacyConsentError (Option PrivacyConsentDocument)
unfolding locked get_key validated
get owner_id repository =
    locked repository >>= λ records. validated owner_id (get_key owner_id records)

module _ {T : Type 0} (times : Times T) where
  -- `current_timestamp` of rust/src/persistence/repository.rs, with the error that `new_document` maps
  -- it to
  unfoldable pub current_timestamp : T → Result PrivacyConsentError String
  current_timestamp now = ok_or (times.format now) unavailable

  -- the document that `new_document` checks and returns
  unfoldable pub consent_document : String → PrivacyConsentProfile → String → PrivacyConsentDocument
  consent_document owner_id profile accepted_at = record {
    id = privacy_consent_document_id;
    document_type = privacy_consent_document_type;
    owner_id = owner_id;
    notice_version = current_privacy_notice_version;
    accepted_at = accepted_at;
    display_name = profile.display_name;
    email_address = if profile.allow_contact then profile.email_address else none;
    allow_contact = profile.allow_contact;
  }

  unfoldable pub new_document :
      String → PrivacyConsentProfile → T → Result PrivacyConsentError PrivacyConsentDocument
  unfolding current_timestamp consent_document validate_document
  new_document owner_id profile now = do
    fail_if (text_eq owner_id "" || (profile.allow_contact && not (is_some profile.email_address)))
        invalid_record
    accepted_at ← current_timestamp now
    let document = consent_document owner_id profile accepted_at
    validate_document document owner_id
    ok document

  unfoldable pub save :
      String
      → PrivacyConsentProfile
      → T
      → InMemoryPrivacyConsentRepository
      → Result PrivacyConsentError PrivacyConsentDocument × InMemoryPrivacyConsentRepository
  unfolding new_document locked insert_key
  save owner_id profile now repository =
      attempt (new_document owner_id profile now) repository λ document.
        attempt (locked repository) repository λ records.
          (ok document, record repository { records = insert_key owner_id document records })
