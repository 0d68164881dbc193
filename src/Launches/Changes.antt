-- ===== src/Launches/Changes.antt =====
-- What the operations of rust/src/persistence/calculator_launch.rs do to the map of launches, whether
-- they return or fail, as a step relation.
pub mod Writes
pub mod Runs
use tco_calculator.Prelude.{true, false, ◌≡◌, String, none, some, filter, ok}
use tco_calculator.Maps.{get_key, pair_key, insert_key}
use tco_calculator.Domain.Resource.{Uuid}
use tco_calculator.Launches.Types.{
  ready, claimed, consumed, NewCalculatorLaunch, InMemoryCalculatorLaunchRepository, StoredLaunch,
  Services,
}
use tco_calculator.Launches.Document.{shape_valid, is_expired}
use tco_calculator.Launches.Repository.{LaunchMap, new_document, survives_purge, purge_project}
use tco_calculator.Launches.Repository.Create.{ensure_no_active_launch, create}
use tco_calculator.Launches.Repository.Claim.{claim}
use tco_calculator.Launches.Repository.Acknowledge.{acknowledge}

-- the calls of the trait `CalculatorLaunchRepository`
pub data Call (D : Type 0) : Type 0 where
  creates : String → NewCalculatorLaunch D → Call D
  claims : String → Uuid → Uuid → String → Call D
  acknowledges : String → Uuid → Uuid → String → Call D
  purges : String → Uuid → Call D

module _ {D T : Type 0} (services : Services D T) where
  unfoldable pub run :
      Call D → T → InMemoryCalculatorLaunchRepository D → InMemoryCalculatorLaunchRepository D
  unfolding create claim acknowledge purge_project
  run (creates owner launch) now r = (create services owner launch now r).1
  run (claims owner id companion version) now r =
      (claim services owner id companion version now r).1
  run (acknowledges owner id companion tag) now r =
      (acknowledge services owner id companion tag now r).1
  run (purges owner project) now r = (purge_project owner project r).1

module _ {D : Type 0} where
  -- a launch that keeps its key and the shape of its status
  pub record IsRewritten (stored written : StoredLaunch D) : Type 0 where
    pub owner : written.document.owner_id ≡ stored.document.owner_id
    pub id : written.document.id ≡ stored.document.id
    pub shape : shape_valid written.document ≡ true

  pub data Takes (companion : Uuid) (stored written : StoredLaunch D) : Type 0 where
    not_taken : written ≡ stored → Takes companion stored written
    taken :
        written.document.status ≡ claimed
        → written.document.companion_instance_id ≡ some companion
        → Takes companion stored written

  pub data Finishes (companion : Uuid) (stored written : StoredLaunch D) : Type 0 where
    not_finished : written ≡ stored → Finishes companion stored written
    finished :
        written.document.status ≡ consumed
        → written.document.companion_instance_id ≡ some companion
        → Finishes companion stored written

module _ {D T : Type 0} (services : Services D T) where
  -- The step relation of the map at the instant `now`. A write that an error interrupts is a step too.
  pub data Change (now : T) (before after : LaunchMap D) : Type 0 where
    unchanged : after ≡ before → Change now before after
    added :
        (owner : String) (launch : NewCalculatorLaunch D) (hash timestamp expires : String)
        → get_key (owner, launch.id) before ≡ none
        → ensure_no_active_launch services owner now before ≡ ok tt
        → after
          ≡ insert_key
              (owner, launch.id)
              (record { document = new_document owner launch hash timestamp expires; version = 1 })
              before
        → Change now before after
    took :
        (owner : String) (id companion : Uuid) (stored written : StoredLaunch D)
        → get_key (owner, id) before ≡ some stored
        → stored.document.status ≡ ready
        → is_expired services stored.document now ≡ ok false
        → IsRewritten stored written
        → Takes companion stored written
        → after ≡ insert_key (owner, id) written before
        → Change now before after
    ended :
        (owner : String) (id companion : Uuid) (stored written : StoredLaunch D)
        → get_key (owner, id) before ≡ some stored
        → stored.document.status ≡ claimed
        → stored.document.companion_instance_id ≡ some companion
        → is_expired services stored.document now ≡ ok false
        → IsRewritten stored written
        → Finishes companion stored written
        → after ≡ insert_key (owner, id) written before
        → Change now before after
    purged :
        (owner : String) (project : Uuid)
        → after ≡ filter (survives_purge owner project) before
        → Change now before after
