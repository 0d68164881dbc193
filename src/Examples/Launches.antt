-- ===== src/Examples/Launches.antt =====
-- A launch in rust/src/persistence/calculator_launch.rs from its creation to its acknowledgement. The
-- parameters serialize a manifest to its name, and count instants in spans of ten minutes, which they
-- write as so many strokes.
use Prim.Native.String.{len}
use tco_calculator.Prelude.{ℕ, ◌≡◌, refl, false, true, none, some, [], ◌∷◌, ok, err, filter, arith}
use tco_calculator.Prelude.Text.{digit, show_digits, show_ℕ}
use tco_calculator.Clock.{IsTimes}
use tco_calculator.Maps.{get_key, insert_key, remove_key, pair_key}
use tco_calculator.Decimal.Thousandths.{Thousandths}
use tco_calculator.Examples.{whole}
use tco_calculator.Examples.Clock.{strokes, count, times, times-IsTimes}
use tco_calculator.Launches.Types.{
  CalculatorManifest, CalculatorManifestItem, CalculatorExpectedPublicAnnual, NewCalculatorLaunch,
  CalculatorLaunchDocument, InMemoryCalculatorLaunchRepository, StoredLaunch, Services, consumed,
  conflict, azure_sql_managed_instance, single_instance, next_generation_general_purpose,
  premium_series, payg,
}
use tco_calculator.Launches.Document.{
  hex_digit, hex, launch_etag, validate_manifest, manifest_sha256, parse_timestamp,
  format_timestamp, is_expired, ensure_not_expired, header_valid, active_payload_present,
  shape_valid, validate_hash, validate_document,
}
use tco_calculator.Launches.Repository.{new, write_launches, new_document, claimed_document}
use tco_calculator.Launches.Repository.Create.{
  ensure_no_active_launch, insert_launch, create_in, create,
}
use tco_calculator.Launches.Repository.Claim.{claim_ready, claim_stored, claim}
use tco_calculator.Launches.Repository.Acknowledge.{acknowledge}
use tco_calculator.Launches.Changes.{run, creates, claims}
use tco_calculator.Launches.Reachable.{Invariant, Reachable, fresh, called, Reachable-Invariant}
use tco_calculator.Launches.Phases.{◌⟶◌, phase, run-⟶}
use tco_calculator.Launches.Claims.{claim_again}
use tco_calculator.Launches.Acknowledgement.{acknowledge-claim}

abbrev annual : CalculatorExpectedPublicAnnual Thousandths
annual = record {
  compute = whole 1000;
  additional_memory = whole 0;
  license = whole 500;
  storage = whole 100;
  total_before_parity = whole 1600;
}

abbrev item : CalculatorManifestItem Thousandths
item = record {
  item_key = "001";
  display_name = "VM5";
  product = azure_sql_managed_instance;
  region = "eastus";
  deployment_model = single_instance;
  service_tier = next_generation_general_purpose;
  hardware_family = premium_series;
  vcores = 8;
  selected_memory_gb = whole 64;
  zone_redundant = false;
  quantity = 1;
  hours_per_month = whole 730;
  purchase_option = payg;
  azure_hybrid_benefit = false;
  data_storage_gb = whole 256;
  backup_storage_gb = whole 0;
  expected_public_annual = annual;
}

abbrev manifest : CalculatorManifest Thousandths
manifest = record {
  schema_version = 2;
  calculator_contract_version = "2026-08-24";
  calculator_url = "https://azure.microsoft.com/en-us/pricing/calculator/";
  generated_at = "2026-08-23T12:00:00Z";
  currency = "USD";
  locale = "en-US";
  estimate_name = "Workload";
  items = item ∷ [];
}

abbrev launch : NewCalculatorLaunch Thousandths
launch = record {
  id = 7;
  source_project_id = 3;
  source_project_etag = "1";
  source_formula_version = "1.3.0";
  source_azure_snapshot_id = "azure-1";
  manifest = manifest;
}

unfoldable services : Services Thousandths ℕ
unfolding times
services = record {
  manifest_to_vec = λ m. some m.estimate_name;
  sha256 = λ bytes. (len bytes ∷ 171 ∷ []);
  times = times;
}

abbrev ready_document : CalculatorLaunchDocument Thousandths
ready_document = new_document "ann" launch "08ab" "IIIII" "IIIIII"

abbrev one_launch : InMemoryCalculatorLaunchRepository Thousandths
one_launch = record {
  poisoned = false;
  launches = (("ann", 7), record { document = ready_document; version = 1 }) ∷ [];
}

creates_one :
    create services "ann" launch 5 new
    ≡ (ok (record { document = ready_document; created = true }), one_launch)
unfolding create services times strokes count new get_key insert_key remove_key filter
    write_launches validate_manifest manifest_sha256 hex hex_digit digit create_in insert_launch
    ensure_no_active_launch format_timestamp new_document launch_etag show_ℕ show_digits
    validate_document header_valid shape_valid active_payload_present validate_hash parse_timestamp
creates_one = refl

reached : Reachable services 5 one_launch
unfolding run create services times strokes count new get_key insert_key remove_key filter
    write_launches validate_manifest manifest_sha256 hex hex_digit digit create_in insert_launch
    ensure_no_active_launch format_timestamp new_document launch_etag show_ℕ show_digits
    validate_document header_valid shape_valid active_payload_present validate_hash parse_timestamp
reached = called 0 5 (creates "ann" launch) new (fresh 0) refl

services-IsTimes : IsTimes services.times
unfolding services
services-IsTimes = times-IsTimes

Reachable-Invariant_example : Invariant services 5 one_launch.launches
Reachable-Invariant_example = Reachable-Invariant services 5 one_launch services-IsTimes reached

abbrev held_document : CalculatorLaunchDocument Thousandths
held_document = claimed_document ready_document 9 "1.2.0" "IIIII" "IIIIII" 2

abbrev one_held : InMemoryCalculatorLaunchRepository Thousandths
one_held = record {
  poisoned = false;
  launches = (("ann", 7), record { document = held_document; version = 2 }) ∷ [];
}

claims_one : claim services "ann" 7 9 "1.2.0" 5 one_launch ≡ (ok held_document, one_held)
unfolding claim services times strokes count get_key insert_key remove_key filter write_launches
    validate_manifest manifest_sha256 hex hex_digit digit claim_stored claim_ready claimed_document
    format_timestamp new_document launch_etag show_ℕ show_digits validate_document header_valid
    shape_valid active_payload_present validate_hash parse_timestamp ensure_not_expired is_expired
claims_one = refl

run-⟶_example :
    phase "ann" 7 one_launch.launches
    ⟶ phase "ann" 7 (run services (claims "ann" 7 9 "1.2.0") 5 one_launch).launches
run-⟶_example =
    run-⟶ services (claims "ann" 7 9 "1.2.0") 5 one_launch "ann" 7
      (Reachable-Invariant services 5 one_launch services-IsTimes reached).map

held_open : is_expired services held_document 5 ≡ ok false
unfolding is_expired services times count parse_timestamp claimed_document new_document
held_open = refl

claim_again_example : claim services "ann" 7 8 "1.2.0" 5 one_held ≡ (err conflict, one_held)
claim_again_example =
    claim_again services "ann" 7 9 8 "1.2.0" "1.2.0" 5 5 one_launch one_held held_document false
      claims_one held_open

acknowledge-claim_example :
    (r : InMemoryCalculatorLaunchRepository Thousandths) × (used : StoredLaunch Thousandths)
    × (acknowledge services "ann" 7 9 held_document.etag 5 one_held ≡ (ok tt, r))
    × (get_key ("ann", 7) r.launches ≡ some used)
    × (used.document.status ≡ consumed)
    × (used.document.manifest ≡ none)
    × (used.document.source_project_id ≡ none)
    × (acknowledge services "ann" 7 9 "" 90 r ≡ (ok tt, r))
unfolding services times get_key
acknowledge-claim_example =
    acknowledge-claim services "ann" 7 9 "1.2.0" (strokes 5) (strokes 149) "" 5 5 90 one_launch
      one_held held_document (record { document = held_document; version = 2 }) services-IsTimes
      claims_one refl (omega arith) held_open refl refl
