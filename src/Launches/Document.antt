-- ===== src/Launches/Document.antt =====
-- The checks of manifests and documents in rust/src/persistence/calculator_launch.rs.
use Prim.Native.String.{◌++◌, len}
use text.Mathlib.Text.{◌==◌ as text_eq}
use tco_calculator.Prelude.{
  ℕ, ◌/◌, ◌%◌, Bool, not, ◌&&◌, ◌||◌, String, Option, none, some, List, [], ◌∷◌, length, is_empty,
  is_some, is_some_and, ltb, leb, ◌==◌, if◌then◌else◌, Result, ok, ◌>>=◌, ◌>>◌, fail_if, ok_or,
}
use tco_calculator.Prelude.Text.{digit, show_ℕ}
use tco_calculator.Domain.Resource.{Uuid}
use tco_calculator.Launches.Types.{
  calculator_launch_document_type, calculator_manifest_version, calculator_protocol_version,
  calculator_contract_version, minimum_companion_version, max_calculator_manifest_items,
  max_calculator_manifest_bytes, CalculatorManifest, CalculatorLaunchStatus,
  CalculatorLaunchDocument, CalculatorLaunchError, Services, ready, claimed, consumed, expired,
  invalid_manifest, payload_too_large, unavailable,
}

-- `{byte:02x}`
unfoldable pub hex_digit : ℕ → String
unfolding digit
hex_digit d =
    if ltb d 10
    then digit d
    else if d == 10
    then "a"
    else if d == 11
    then "b"
    else if d == 12
    then "c"
    else if d == 13
    then "d"
    else if d == 14
    then "e"
    else "f"

unfoldable pub hex : List ℕ → String
unfolding hex_digit
hex [] = ""
hex (byte ∷ bytes) = hex_digit (byte / 16) ++ hex_digit (byte % 16) ++ hex bytes

unfoldable pub launch_etag : ℕ → String
launch_etag version = "\"calculator-launch-" ++ show_ℕ version ++ "\""

abbrev pub status_valid : CalculatorLaunchStatus → Bool → Bool → Bool → Bool
status_valid ready payload instance_set version_set = payload && not instance_set && not version_set
status_valid claimed payload instance_set version_set = payload && instance_set && version_set
status_valid consumed payload instance_set version_set = not payload && instance_set && version_set

module _ {D : Type 0} where
  -- the fields that `validate_document` compares with constants and with the key
  unfoldable pub header_valid : CalculatorLaunchDocument D → String → Option Uuid → Bool
  header_valid document owner_id expected_id = not (
      not (text_eq document.document_type calculator_launch_document_type)
      || not (text_eq document.owner_id owner_id)
      || is_some_and expected_id (λ id. not (document.id == id))
      || not (document.protocol_version == calculator_protocol_version)
      || not (document.manifest_version == calculator_manifest_version)
      || not (text_eq document.calculator_contract_version calculator_contract_version)
      || not (text_eq document.minimum_companion_version minimum_companion_version)
      || leb document.ttl 0
      || text_eq document.etag "")

  unfoldable pub active_payload_present : CalculatorLaunchDocument D → Bool
  active_payload_present document =
      is_some document.source_project_id
      && is_some document.source_project_etag
      && is_some document.source_formula_version
      && is_some document.source_azure_snapshot_id
      && is_some document.manifest_sha256
      && is_some document.manifest

  -- the `match` of `validate_document` on the status
  unfoldable pub shape_valid : CalculatorLaunchDocument D → Bool
  unfolding active_payload_present
  shape_valid document =
      status_valid document.status (active_payload_present document)
        (is_some document.companion_instance_id) (is_some document.companion_version)

module _ {D T : Type 0} (services : Services D T) where
  open services use {times}

  unfoldable pub validate_manifest : CalculatorManifest D → Result CalculatorLaunchError (Unit {0})
  validate_manifest manifest = do
    fail_if
        (not (manifest.schema_version == calculator_manifest_version)
          || not (text_eq manifest.calculator_contract_version calculator_contract_version)
          || not (
              text_eq manifest.calculator_url
                "https://azure.microsoft.com/en-us/pricing/calculator/")
          || not (text_eq manifest.currency "USD")
          || not (text_eq manifest.locale "en-US")
          || is_empty manifest.items
          || ltb max_calculator_manifest_items (length manifest.items))
        invalid_manifest
    bytes ← ok_or (services.manifest_to_vec manifest) invalid_manifest
    fail_if (ltb max_calculator_manifest_bytes (len bytes)) payload_too_large

  -- `write!` to a `String` does not fail.
  unfoldable pub manifest_sha256 : CalculatorManifest D → Result CalculatorLaunchError String
  unfolding hex
  manifest_sha256 manifest = do
    bytes ← ok_or (services.manifest_to_vec manifest) invalid_manifest
    ok (hex (services.sha256 bytes))

  unfoldable pub parse_timestamp : String → Result CalculatorLaunchError T
  parse_timestamp value = ok_or (times.parse value) unavailable

  unfoldable pub format_timestamp : T → Result CalculatorLaunchError String
  format_timestamp value = ok_or (times.format value) unavailable

  unfoldable pub is_expired : CalculatorLaunchDocument D → T → Result CalculatorLaunchError Bool
  unfolding parse_timestamp
  is_expired document now = do
    expires ← parse_timestamp document.claim_expires_at
    ok (times.reached now expires)

  unfoldable pub ensure_not_expired :
      CalculatorLaunchDocument D → T → Result CalculatorLaunchError (Unit {0})
  unfolding is_expired
  ensure_not_expired document now = do over ← is_expired document now; fail_if over expired

  unfoldable pub validate_hash :
      Option (CalculatorManifest D) → Option String → Result CalculatorLaunchError (Unit {0})
  unfolding validate_manifest manifest_sha256
  validate_hash none expected = ok tt
  validate_hash (some manifest) none = ok tt
  validate_hash (some manifest) (some expected_hash) = do
    validate_manifest manifest
    hash ← manifest_sha256 manifest
    fail_if (not (text_eq hash expected_hash)) unavailable

  unfoldable pub validate_document :
      CalculatorLaunchDocument D → String → Option Uuid → Result CalculatorLaunchError (Unit {0})
  unfolding header_valid shape_valid validate_hash parse_timestamp
  validate_document document owner_id expected_id = do
    fail_if (not (header_valid document owner_id expected_id)) unavailable
    fail_if (not (shape_valid document)) unavailable
    validate_hash document.manifest document.manifest_sha256
    created ← parse_timestamp document.created_at
    expires ← parse_timestamp document.claim_expires_at
    updated ← parse_timestamp document.updated_at
    ok tt
