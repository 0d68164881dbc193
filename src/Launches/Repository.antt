-- ===== src/Launches/Repository.antt =====
-- `InMemoryCalculatorLaunchRepository` of rust/src/persistence/calculator_launch.rs. `now` is the answer
-- of `clock.now()`. A write through `get_mut` is an insertion: the order of a map's entries has no
-- meaning. `claim` and `acknowledge` write field by field, and an error between two writes leaves the
-- ones already made.
pub mod Create
pub mod Claim
pub mod Acknowledge
use text.Mathlib.Text.{◌==◌ as text_eq}
use tco_calculator.Prelude.{
  ℕ, Bool, true, false, not, ◌&&◌, ◌||◌, String, none, some, List, [], filter, is_some_and, ◌==◌,
  if◌then◌else◌, Result, ok, err, attempt,
}
use tco_calculator.Domain.Resource.{Uuid}
use tco_calculator.Launches.Types.{
  calculator_launch_document_type, calculator_manifest_version, calculator_protocol_version,
  calculator_contract_version, minimum_companion_version, active_ttl_seconds, consumed_ttl_seconds,
  CalculatorLaunchStatus, CalculatorLaunchDocument, NewCalculatorLaunch, CalculatorLaunchError,
  StoredLaunch, InMemoryCalculatorLaunchRepository, ready, claimed, consumed, unavailable,
}
use tco_calculator.Launches.Document.{launch_etag}

-- `matches!` of a status
abbrev pub is_ready : CalculatorLaunchStatus → Bool
is_ready ready = true
is_ready _ = false

abbrev pub is_claimed : CalculatorLaunchStatus → Bool
is_claimed claimed = true
is_claimed _ = false

abbrev pub is_consumed : CalculatorLaunchStatus → Bool
is_consumed consumed = true
is_consumed _ = false

abbrev pub is_active : CalculatorLaunchStatus → Bool
is_active ready = true
is_active claimed = true
is_active consumed = false

abbrev pub LaunchMap : Type 0 → Type 0
LaunchMap D = List ((String × Uuid) × StoredLaunch D)

module _ {D : Type 0} where
  unfoldable pub new : InMemoryCalculatorLaunchRepository D
  new = record { poisoned = false; launches = [] }

  unfoldable pub write_launches :
      InMemoryCalculatorLaunchRepository D → Result CalculatorLaunchError (LaunchMap D)
  write_launches repository =
      if repository.poisoned then err unavailable else ok repository.launches

  -- `same_binding` of `create`
  unfoldable pub same_binding : CalculatorLaunchDocument D → NewCalculatorLaunch D → String → Bool
  same_binding document launch hash =
      is_some_and document.source_project_id (λ id. id == launch.source_project_id)
      && is_some_and document.source_project_etag (λ tag. text_eq tag launch.source_project_etag)
      && is_some_and document.manifest_sha256 (λ found. text_eq found hash)

  -- the closure that `purge_project` retains by
  abbrev pub survives_purge : String → Uuid → (String × Uuid) × StoredLaunch D → Bool
  survives_purge owner_id project_id (key, stored) =
      not (text_eq key.0 owner_id)
      || not (is_some_and stored.document.source_project_id (λ id. id == project_id))
      || is_consumed stored.document.status

  unfoldable pub purge_project :
      String
      → Uuid
      → InMemoryCalculatorLaunchRepository D
      → Result CalculatorLaunchError (Unit {0}) × InMemoryCalculatorLaunchRepository D
  unfolding write_launches filter
  purge_project owner_id project_id repository =
      attempt (write_launches repository) repository λ launches. (
        ok tt,
        record repository { launches = filter (survives_purge owner_id project_id) launches },
      )

  -- the document that `create` checks and stores
  unfoldable pub new_document :
      String → NewCalculatorLaunch D → String → String → String → CalculatorLaunchDocument D
  unfolding launch_etag
  new_document owner_id launch hash timestamp claim_expires_at = record {
    id = launch.id;
    document_type = calculator_launch_document_type;
    owner_id = owner_id;
    source_project_id = some launch.source_project_id;
    source_project_etag = some launch.source_project_etag;
    source_formula_version = some launch.source_formula_version;
    source_azure_snapshot_id = some launch.source_azure_snapshot_id;
    status = ready;
    protocol_version = calculator_protocol_version;
    manifest_version = calculator_manifest_version;
    calculator_contract_version = calculator_contract_version;
    minimum_companion_version = minimum_companion_version;
    manifest_sha256 = some hash;
    manifest = some launch.manifest;
    companion_instance_id = none;
    companion_version = none;
    created_at = timestamp;
    claim_expires_at = claim_expires_at;
    updated_at = timestamp;
    ttl = active_ttl_seconds;
    etag = launch_etag 1;
  }

  unfoldable pub claimed_by : CalculatorLaunchDocument D → Uuid → Bool
  claimed_by document companion_instance_id =
      is_claimed document.status
      && is_some_and document.companion_instance_id (λ id. id == companion_instance_id)

  -- the document that `claim` makes of a launch that is ready, all its writes done
  unfoldable pub claimed_document :
      CalculatorLaunchDocument D → Uuid → String → String → String → ℕ → CalculatorLaunchDocument D
  unfolding launch_etag
  claimed_document document companion_instance_id companion_version timestamp expires version =
      record document {
        status = claimed;
        companion_instance_id = some companion_instance_id;
        companion_version = some companion_version;
        updated_at = timestamp;
        claim_expires_at = expires;
        ttl = active_ttl_seconds;
        etag = launch_etag version;
      }

  -- the document that `acknowledge` makes, all its writes done
  unfoldable pub consumed_document :
      CalculatorLaunchDocument D → String → String → ℕ → CalculatorLaunchDocument D
  unfolding launch_etag
  consumed_document document timestamp expires version = record document {
    status = consumed;
    source_project_id = none;
    source_project_etag = none;
    source_formula_version = none;
    source_azure_snapshot_id = none;
    manifest_sha256 = none;
    manifest = none;
    updated_at = timestamp;
    claim_expires_at = expires;
    ttl = consumed_ttl_seconds;
    etag = launch_etag version;
  }
