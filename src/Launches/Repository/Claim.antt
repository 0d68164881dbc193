-- ===== src/Launches/Repository/Claim.antt =====
-- `claim` of `InMemoryCalculatorLaunchRepository` in rust/src/persistence/calculator_launch.rs. The
-- writes are made field by field.
use tco_calculator.Prelude.{
  String, some, is_some_and, ◌==◌, if◌then◌else◌, Result, ok, err, ◌>>◌, ok_or, attempt,
}
use tco_calculator.Maps.{get_key, insert_key, pair_key}
use tco_calculator.Domain.Resource.{Uuid}
use tco_calculator.Projects.Repository.{checked_add}
use tco_calculator.Launches.Types.{
  active_ttl_seconds, CalculatorLaunchStatus, CalculatorLaunchDocument, CalculatorLaunchError,
  StoredLaunch, InMemoryCalculatorLaunchRepository, Services, ready, claimed, consumed, not_found,
  conflict, unavailable,
}
use tco_calculator.Launches.Document.{format_timestamp, ensure_not_expired, validate_document}
use tco_calculator.Launches.Repository.{LaunchMap, write_launches, claimed_document}

module _ {D T : Type 0} (services : Services D T) where
  open services use {times}

  -- the writes of `claim` to a launch that is ready
  unfoldable pub claim_ready :
      String
      → Uuid
      → Uuid
      → String
      → T
      → StoredLaunch D
      → Result CalculatorLaunchError (CalculatorLaunchDocument D) × StoredLaunch D
  unfolding format_timestamp claimed_document validate_document
  claim_ready owner_id launch_id companion_instance_id companion_version now stored =
      attempt (ok_or (checked_add stored.version 1) unavailable) stored λ version.
        let taken : StoredLaunch D = record {
          version = version;
          document = record stored.document {
            status = claimed;
            companion_instance_id = some companion_instance_id;
            companion_version = some companion_version;
          };
        } in
        attempt (format_timestamp services now) taken λ timestamp.
          let touched : StoredLaunch D = record taken {
            document = record taken.document { updated_at = timestamp };
          } in
          attempt (format_timestamp services (times.plus now active_ttl_seconds)) touched λ expires.
            let final : StoredLaunch D = record {
              version = version;
              document =
                  claimed_document stored.document companion_instance_id companion_version timestamp
                    expires version;
            } in
            (
              validate_document services final.document owner_id (some launch_id)
                  >> ok final.document,
              final,
            )

  -- the `match` of `claim` on the status
  unfoldable pub claim_stored :
      String
      → Uuid
      → Uuid
      → String
      → T
      → InMemoryCalculatorLaunchRepository D
      → LaunchMap D
      → StoredLaunch D
      → CalculatorLaunchStatus
      → Result CalculatorLaunchError (CalculatorLaunchDocument D)
        × InMemoryCalculatorLaunchRepository D
  unfolding claim_ready insert_key
  claim_stored owner_id launch_id companion_instance_id companion_version now repository launches
        stored ready =
      let (answer, written) =
        claim_ready owner_id launch_id companion_instance_id companion_version now stored in
      (answer, record repository { launches = insert_key (owner_id, launch_id) written launches })
  claim_stored owner_id launch_id companion_instance_id companion_version now repository launches
        stored claimed =
      (
        if is_some_and stored.document.companion_instance_id (λ id. id == companion_instance_id)
            then ok stored.document
            else err conflict,
        repository,
      )
  claim_stored owner_id launch_id companion_instance_id companion_version now repository launches
        stored consumed =
      (err conflict, repository)

  unfoldable pub claim :
      String
      → Uuid
      → Uuid
      → String
      → T
      → InMemoryCalculatorLaunchRepository D
      → Result CalculatorLaunchError (CalculatorLaunchDocument D)
        × InMemoryCalculatorLaunchRepository D
  unfolding write_launches get_key validate_document ensure_not_expired claim_stored
  claim owner_id launch_id companion_instance_id companion_version now repository =
      attempt (write_launches repository) repository λ launches.
        attempt (ok_or (get_key (owner_id, launch_id) launches) not_found) repository λ stored.
          attempt (validate_document services stored.document owner_id (some launch_id)) repository
            λ valid.
              attempt (ensure_not_expired services stored.document now) repository λ open_still.
                claim_stored owner_id launch_id companion_instance_id companion_version now
                  repository launches stored stored.document.status
