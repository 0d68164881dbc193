-- ===== src/Launches/Repository/Acknowledge.antt =====
-- `acknowledge` of `InMemoryCalculatorLaunchRepository` in rust/src/persistence/calculator_launch.rs.
-- The writes are made field by field.
use text.Mathlib.Text.{◌==◌ as text_eq}
use tco_calculator.Prelude.{
  not, ◌&&◌, String, none, some, is_some_and, ◌==◌, if◌then◌else◌, Result, ok, err, ok_or, attempt,
}
use tco_calculator.Maps.{get_key, insert_key, pair_key}
use tco_calculator.Domain.Resource.{Uuid}
use tco_calculator.Projects.Repository.{checked_add}
use tco_calculator.Launches.Types.{
  consumed_ttl_seconds, CalculatorLaunchError, StoredLaunch, InMemoryCalculatorLaunchRepository,
  Services, consumed, not_found, conflict, precondition_failed, unavailable,
}
use tco_calculator.Launches.Document.{format_timestamp, ensure_not_expired, validate_document}
use tco_calculator.Launches.Repository.{
  is_consumed, LaunchMap, write_launches, claimed_by, consumed_document,
}

module _ {D T : Type 0} (services : Services D T) where
  open services use {times}

  -- the writes of `acknowledge`
  unfoldable pub consume :
      String → Uuid → T → StoredLaunch D → Result CalculatorLaunchError (Unit {0}) × StoredLaunch D
  unfolding format_timestamp consumed_document validate_document
  consume owner_id launch_id now stored =
      attempt (ok_or (checked_add stored.version 1) unavailable) stored λ version.
        let purged : StoredLaunch D = record {
          version = version;
          document = record stored.document {
            status = consumed;
            source_project_id = none;
            source_project_etag = none;
            source_formula_version = none;
            source_azure_snapshot_id = none;
            manifest_sha256 = none;
            manifest = none;
          };
        } in
        attempt (format_timestamp services now) purged λ timestamp.
          let touched : StoredLaunch D = record purged {
            document = record purged.document { updated_at = timestamp };
          } in
          attempt (format_timestamp services (times.plus now consumed_ttl_seconds)) touched
            λ expires.
              let final : StoredLaunch D = record {
                version = version;
                document = consumed_document stored.document timestamp expires version;
              } in
              (validate_document services final.document owner_id (some launch_id), final)

  -- `acknowledge` from the test of expiry on
  unfoldable pub acknowledge_claimed :
      String
      → Uuid
      → Uuid
      → String
      → T
      → InMemoryCalculatorLaunchRepository D
      → LaunchMap D
      → StoredLaunch D
      → Result CalculatorLaunchError (Unit {0}) × InMemoryCalculatorLaunchRepository D
  unfolding ensure_not_expired claimed_by consume insert_key
  acknowledge_claimed owner_id launch_id companion_instance_id if_match now repository launches
        stored =
      attempt (ensure_not_expired services stored.document now) repository λ open_still.
        if not (claimed_by stored.document companion_instance_id)
        then (err conflict, repository)
        else if not (text_eq stored.document.etag if_match)
        then (err precondition_failed, repository)
        else (let (answer, written) = consume owner_id launch_id now stored in
            (
              answer,
              record repository { launches = insert_key (owner_id, launch_id) written launches },
            ))

  unfoldable pub acknowledge :
      String
      → Uuid
      → Uuid
      → String
      → T
      → InMemoryCalculatorLaunchRepository D
      → Result CalculatorLaunchError (Unit {0}) × InMemoryCalculatorLaunchRepository D
  unfolding write_launches get_key validate_document acknowledge_claimed
  acknowledge owner_id launch_id companion_instance_id if_match now repository =
      attempt (write_launches repository) repository λ launches.
        attempt (ok_or (get_key (owner_id, launch_id) launches) not_found) repository λ stored.
          attempt (validate_document services stored.document owner_id (some launch_id)) repository
            λ valid.
              if is_consumed stored.document.status
                && is_some_and stored.document.companion_instance_id
                    (λ id. id == companion_instance_id)
              then (ok tt, repository)
              else acknowledge_claimed owner_id launch_id companion_instance_id if_match now
                  repository launches stored
