-- ===== src/Launches/Repository/Create.antt =====
-- `create` of `InMemoryCalculatorLaunchRepository` in rust/src/persistence/calculator_launch.rs.
use text.Mathlib.Text.{◌==◌ as text_eq}
use tco_calculator.Prelude.{
  true, false, ◌&&◌, String, Option, none, some, [], ◌∷◌, if◌then◌else◌, Result, ok, err, ◌>>=◌,
  ◌>>◌, attempt,
}
use tco_calculator.Maps.{get_key, insert_key, pair_key}
use tco_calculator.Launches.Types.{
  active_ttl_seconds, CalculatorLaunchDocument, NewCalculatorLaunch, CreatedCalculatorLaunch,
  CalculatorLaunchError, StoredLaunch, InMemoryCalculatorLaunchRepository, Services, conflict,
}
use tco_calculator.Launches.Document.{
  validate_manifest, manifest_sha256, format_timestamp, is_expired, ensure_not_expired,
  validate_document,
}
use tco_calculator.Launches.Repository.{
  is_ready, is_active, LaunchMap, write_launches, same_binding, new_document,
}

module _ {D T : Type 0} (services : Services D T) where
  open services use {times}

  -- the loop of `create` over the launches
  unfoldable pub ensure_no_active_launch :
      String → T → LaunchMap D → Result CalculatorLaunchError (Unit {0})
  unfolding is_expired
  ensure_no_active_launch owner_id now [] = ok tt
  ensure_no_active_launch owner_id now ((key, stored) ∷ launches) =
      let rest = ensure_no_active_launch owner_id now launches in
      if text_eq stored.document.owner_id owner_id && is_active stored.document.status
      then (is_expired services stored.document now >>= λ over. if over then rest else err conflict)
      else rest

  -- the branch of `create` for a key that is taken
  unfoldable pub reuse_launch :
      CalculatorLaunchDocument D
      → NewCalculatorLaunch D
      → String
      → T
      → Result CalculatorLaunchError (CreatedCalculatorLaunch D)
  unfolding same_binding ensure_not_expired
  reuse_launch document launch hash now =
      if same_binding document launch hash && is_ready document.status
      then (ensure_not_expired services document now
          >> ok (record { document = document; created = false }))
      else err conflict

  -- the branch of `create` for a key that is free
  unfoldable pub insert_launch :
      String
      → NewCalculatorLaunch D
      → String
      → T
      → LaunchMap D
      → Result CalculatorLaunchError (CalculatorLaunchDocument D)
  unfolding ensure_no_active_launch format_timestamp new_document validate_document
  insert_launch owner_id launch hash now launches = do
    ensure_no_active_launch owner_id now launches
    timestamp ← format_timestamp services now
    claim_expires_at ← format_timestamp services (times.plus now active_ttl_seconds)
    let document = new_document owner_id launch hash timestamp claim_expires_at
    validate_document services document owner_id (some launch.id)
    ok document

  unfoldable pub create_in :
      String
      → NewCalculatorLaunch D
      → String
      → T
      → LaunchMap D
      → InMemoryCalculatorLaunchRepository D
      → Option (StoredLaunch D)
      → Result CalculatorLaunchError (CreatedCalculatorLaunch D)
        × InMemoryCalculatorLaunchRepository D
  unfolding reuse_launch insert_launch insert_key
  create_in owner_id launch hash now launches repository (some stored) =
      (reuse_launch stored.document launch hash now, repository)
  create_in owner_id launch hash now launches repository none =
      attempt (insert_launch owner_id launch hash now launches) repository λ document. (
        ok (record { document = document; created = true }),
        record repository {
          launches =
              insert_key (owner_id, launch.id) (record { document = document; version = 1 })
                launches;
        },
      )

  unfoldable pub create :
      String
      → NewCalculatorLaunch D
      → T
      → InMemoryCalculatorLaunchRepository D
      → Result CalculatorLaunchError (CreatedCalculatorLaunch D)
        × InMemoryCalculatorLaunchRepository D
  unfolding validate_manifest manifest_sha256 write_launches get_key create_in
  create owner_id launch now repository =
      attempt (validate_manifest services launch.manifest) repository λ valid.
        attempt (manifest_sha256 services launch.manifest) repository λ hash.
          attempt (write_launches repository) repository λ launches.
            create_in owner_id launch hash now launches repository
              (get_key (owner_id, launch.id) launches)
