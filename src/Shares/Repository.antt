-- ===== src/Shares/Repository.antt =====
-- `InMemoryProjectShareRepository` of rust/src/persistence/project_share.rs. `now` is the answer of
-- `OffsetDateTime::now_utc`, and the credentials those of two calls of `Uuid::new_v4`. The two locks
-- that `resolve` takes one after the other are one step here.
use Prim.Native.String.{len}
use text.Mathlib.Text.{◌==◌ as text_eq}
use tco_calculator.Prelude.{
  ◌*◌, Bool, true, false, not, ◌||◌, String, List, [], filter, leb, ◌==◌, if◌then◌else◌, Result, ok,
  err, ◌>>=◌, ◌>>◌, fail_if, ok_or, attempt,
}
use tco_calculator.Maps.{get_key, insert_key, remove_key, number_key}
use tco_calculator.Domain.Resource.{Uuid}
use tco_calculator.Domain.Project.{EditableProject}
use tco_calculator.Projects.Types.{max_project_document_bytes}
use tco_calculator.Launches.Document.{hex}
use tco_calculator.Shares.Types.{
  project_share_document_type, project_share_partition, share_lifetime_days, ProjectShareDocument,
  ProjectShareCredentials, CreatedProjectShare, ProjectShareError, not_found, expired,
  payload_too_large, unavailable, InMemoryProjectShareRepository, Services,
}

-- `matches!(outcome, Err(ProjectShareError::Expired))`
abbrev pub is_expired : {A : Type 0} → Result ProjectShareError A → Bool
is_expired (ok a) = false
is_expired (err not_found) = false
is_expired (err expired) = true
is_expired (err payload_too_large) = false
is_expired (err unavailable) = false

module _ {D : Type 0} where
  unfoldable pub new : InMemoryProjectShareRepository D
  new = record { poisoned = false; shares = [] }

  -- `read` and `write` of the lock
  unfoldable pub locked :
      InMemoryProjectShareRepository D
      → Result ProjectShareError (List (Uuid × ProjectShareDocument D))
  locked repository = if repository.poisoned then err unavailable else ok repository.shares

  unfoldable pub revoke :
      String
      → Uuid
      → Uuid
      → InMemoryProjectShareRepository D
      → Result ProjectShareError (Unit {0}) × InMemoryProjectShareRepository D
  unfolding locked get_key remove_key
  revoke source_owner_id source_project_id share_id repository =
      attempt (locked repository) repository λ shares.
        attempt (ok_or (get_key share_id shares) not_found) repository λ document.
          if not (text_eq document.source_owner_id source_owner_id)
            || not (document.source_project_id == source_project_id)
          then (err not_found, repository)
          else (ok tt, record repository { shares = remove_key share_id shares })

  -- the closure that `revoke_project` retains by
  abbrev pub survives_revocation : String → Uuid → Uuid × ProjectShareDocument D → Bool
  survives_revocation source_owner_id source_project_id (id, document) =
      not (text_eq document.source_owner_id source_owner_id)
      || not (document.source_project_id == source_project_id)

  unfoldable pub revoke_project :
      String
      → Uuid
      → InMemoryProjectShareRepository D
      → Result ProjectShareError (Unit {0}) × InMemoryProjectShareRepository D
  unfolding locked filter
  revoke_project source_owner_id source_project_id repository =
      attempt (locked repository) repository λ shares. (
        ok tt,
        record repository {
          shares = filter (survives_revocation source_owner_id source_project_id) shares;
        },
      )

module _ {D T : Type 0} (services : Services D T) where
  open services use {times}

  unfoldable pub digest_secret : Uuid → String
  unfolding hex
  digest_secret secret = hex (services.sha256 secret)

  unfoldable pub format_timestamp : T → Result ProjectShareError String
  format_timestamp timestamp = ok_or (times.format timestamp) unavailable

  unfoldable pub validate_document :
      ProjectShareDocument D → Uuid → Result ProjectShareError (Unit {0})
  validate_document document expected_id = do
    fail_if
        (not (document.id == expected_id)
          || not (text_eq document.document_type project_share_document_type)
          || not (text_eq document.partition_key project_share_partition)
          || text_eq document.source_owner_id ""
          || not (len document.secret_sha256 == 64))
        unavailable
    bytes ← ok_or (services.document_to_vec document) unavailable
    fail_if (leb max_project_document_bytes (len bytes)) payload_too_large

  -- the document that `new_share_document` checks and returns
  unfoldable pub share_document :
      String
      → Uuid
      → EditableProject D
      → ProjectShareCredentials
      → String
      → String
      → ProjectShareDocument D
  unfolding digest_secret
  share_document source_owner_id source_project_id project credentials created_at expires_at =
      record {
        id = credentials.share_id;
        document_type = project_share_document_type;
        partition_key = project_share_partition;
        source_owner_id = source_owner_id;
        source_project_id = source_project_id;
        secret_sha256 = digest_secret credentials.secret;
        project = project;
        created_at = created_at;
        expires_at = expires_at;
      }

  unfoldable pub new_share_document :
      String
      → Uuid
      → EditableProject D
      → ProjectShareCredentials
      → T
      → Result ProjectShareError (ProjectShareDocument D)
  unfolding format_timestamp share_document validate_document
  new_share_document source_owner_id source_project_id project credentials now = do
    expires ← ok_or (times.checked_plus now (share_lifetime_days * 86400)) unavailable
    created_at ← format_timestamp now
    expires_at ← format_timestamp expires
    let document =
        share_document source_owner_id source_project_id project credentials created_at expires_at
    validate_document document credentials.share_id
    ok document

  unfoldable pub resolve_document :
      ProjectShareDocument D
      → ProjectShareCredentials
      → T
      → Result ProjectShareError (EditableProject D)
  unfolding validate_document digest_secret
  resolve_document document credentials now = do
    validate_document document credentials.share_id
    fail_if (not (text_eq document.secret_sha256 (digest_secret credentials.secret))) not_found
    expires_at ← ok_or (times.parse document.expires_at) unavailable
    fail_if (times.reached now expires_at) expired
    ok document.project

  unfoldable pub create :
      String
      → Uuid
      → EditableProject D
      → ProjectShareCredentials
      → T
      → InMemoryProjectShareRepository D
      → Result ProjectShareError CreatedProjectShare × InMemoryProjectShareRepository D
  unfolding new_share_document locked insert_key
  create source_owner_id source_project_id project credentials now repository =
      attempt (new_share_document source_owner_id source_project_id project credentials now)
        repository
        λ document. attempt (locked repository) repository λ shares. (
          ok (record { credentials = credentials; expires_at = document.expires_at }),
          record repository { shares = insert_key credentials.share_id document shares },
        )

  unfoldable pub resolve :
      ProjectShareCredentials
      → T
      → InMemoryProjectShareRepository D
      → Result ProjectShareError (EditableProject D) × InMemoryProjectShareRepository D
  unfolding locked get_key remove_key resolve_document
  resolve credentials now repository = attempt (locked repository) repository λ shares.
      attempt (ok_or (get_key credentials.share_id shares) not_found) repository λ document.
        let outcome = resolve_document document credentials now in
        (
          outcome,
          if is_expired outcome
              then record repository { shares = remove_key credentials.share_id repository.shares }
              else repository,
        )
