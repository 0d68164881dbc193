-- ===== src/Examples/Shares.antt =====
-- A share in rust/src/persistence/project_share.rs that is opened, and then revoked. The parameters
-- serialize a document to the name of its project, and digest a secret to as many bytes as it counts.
use tco_calculator.Prelude.{ℕ, zero, suc, ◌≡◌, refl, some, false, List, [], ◌∷◌, ok, err, filter}
use tco_calculator.Prelude.Text.{digit}
use tco_calculator.Clock.{IsTimes}
use tco_calculator.Maps.{get_key, insert_key, remove_key, number_key}
use tco_calculator.Decimal.Thousandths.{Thousandths}
use tco_calculator.Launches.Document.{hex, hex_digit}
use tco_calculator.Shares.Types.{
  ProjectShareDocument, ProjectShareCredentials, CreatedProjectShare,
  InMemoryProjectShareRepository, Services, not_found,
}
use tco_calculator.Shares.Repository.{
  new, locked, digest_secret, format_timestamp, validate_document, share_document,
  new_share_document, create, resolve, revoke_project,
}
use tco_calculator.Shares.Laws.{resolve-create, resolve_sound}
use tco_calculator.Shares.Revocation.{Reachable, fresh, created, resolve-revoke_project}
use tco_calculator.Examples.Clock.{strokes, times, times-IsTimes}
use tco_calculator.Examples.Projects.{project}

abbrev bytes : ℕ → ℕ → List ℕ
bytes zero secret = []
bytes (suc n) secret = secret ∷ bytes n secret

unfoldable services : Services Thousandths ℕ
unfolding times
services = record {
  document_to_vec = λ document. some document.project.name;
  sha256 = λ secret. bytes 32 secret;
  times = times;
}

services-IsTimes : IsTimes services.times
unfolding services
services-IsTimes = times-IsTimes

abbrev credentials : ProjectShareCredentials
credentials = record { share_id = 4; secret = 171 }

unfoldable shared_document : ProjectShareDocument Thousandths
unfolding share_document strokes
shared_document = share_document services "ann" 3 project credentials (strokes 5) (strokes 4325)

unfoldable one_share : InMemoryProjectShareRepository Thousandths
unfolding shared_document
one_share = record { poisoned = false; shares = (4, shared_document) ∷ [] }

unfoldable handed_out : CreatedProjectShare
unfolding shared_document
handed_out = record { credentials = credentials; expires_at = shared_document.expires_at }

creates_one : create services "ann" 3 project credentials 5 new ≡ (ok handed_out, one_share)
unfolding create services new locked new_share_document share_document format_timestamp
    validate_document digest_secret hex hex_digit digit insert_key remove_key filter times
    shared_document one_share handed_out
creates_one = refl

resolve-create_example : resolve services credentials 4324 one_share ≡ (ok project, one_share)
unfolding services times handed_out
resolve-create_example =
    resolve-create services "ann" 3 project credentials 5 4324 4325 new one_share handed_out
      services-IsTimes creates_one refl

resolves : resolve services credentials 4324 one_share ≡ (ok project, one_share)
unfolding services times handed_out
resolves =
    resolve-create services "ann" 3 project credentials 5 4324 4325 new one_share handed_out
      services-IsTimes creates_one refl

resolve_sound_example :
    (document : ProjectShareDocument Thousandths) × (one_share ≡ one_share)
    × (get_key 4 one_share.shares ≡ some document)
    × (document.secret_sha256 ≡ digest_secret services 171)
    × (document.project ≡ project)
    × (expires : ℕ) × (services.times.parse document.expires_at ≡ some expires)
    × (services.times.reached 4324 expires ≡ false)
resolve_sound_example = resolve_sound services credentials 4324 one_share one_share project resolves

reached : Reachable services one_share
unfolding create services new locked new_share_document share_document format_timestamp
    validate_document digest_secret hex hex_digit digit insert_key remove_key filter times
    shared_document one_share
reached = created "ann" 3 project credentials 5 new fresh

abbrev no_shares : InMemoryProjectShareRepository Thousandths
no_shares = record { poisoned = false; shares = [] }

revokes : revoke_project "ann" 3 one_share ≡ (ok tt, no_shares)
unfolding revoke_project locked filter one_share shared_document share_document
revokes = refl

resolve-revoke_project_example : (resolve services credentials 4324 no_shares).0 ≡ err not_found
unfolding one_share shared_document share_document get_key
resolve-revoke_project_example =
    resolve-revoke_project services "ann" 3 credentials 4324 one_share no_shares reached revokes
