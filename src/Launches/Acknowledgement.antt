-- ===== src/Launches/Acknowledgement.antt =====
-- The acknowledgement of a launch that was claimed, in rust/src/persistence/calculator_launch.rs.
use Prim.Native.String.{◌++◌}
use text.Mathlib.Text.{◌==◌ as text_eq}
use text.Mathlib.TextEquality.{eq_iff}
use tco_calculator.Prelude.{
  ℕ, ◌+◌, ◌^◌, ◌<◌, true, false, not, ◌≡◌, refl, ap, String, Option, none, some, ltb, ◌==◌, ok,
  fail_if, bind-eq-ok, arith,
}
use tco_calculator.Prelude.Text.{show_ℕ, append_nonempty}
use tco_calculator.Clock.{IsTimes}
use tco_calculator.Maps.{get_key, insert_key, pair_key}
use tco_calculator.Maps.Laws.{get-insert}
use tco_calculator.Domain.Resource.{Uuid}
use tco_calculator.Launches.Types.{
  claimed, consumed, CalculatorLaunchDocument, InMemoryCalculatorLaunchRepository, StoredLaunch,
  Services, unavailable, consumed_ttl_seconds,
}
use tco_calculator.Launches.Document.{
  launch_etag, is_expired, ensure_not_expired, header_valid, shape_valid, active_payload_present,
  validate_hash, parse_timestamp, format_timestamp, validate_document,
}
use tco_calculator.Launches.Repository.{LaunchMap, consumed_document, write_launches, claimed_by}
use tco_calculator.Launches.Repository.Claim.{claim}
use tco_calculator.Launches.Repository.Acknowledge.{consume, acknowledge_claimed, acknowledge}
use tco_calculator.Launches.Changes.Writes.{validate_document-valid}
use tco_calculator.Launches.Claims.{IsClaimed, claim-IsClaimed}

module _ {D T : Type 0} (services : Services D T) where
  launch_etag_nonempty : (version : ℕ) → text_eq (launch_etag version) "" ≡ false
  unfolding launch_etag
  launch_etag_nonempty version = append_nonempty _ "calculator-launch-" (show_ℕ version ++ "\"")

  consumed_header :
      (document : CalculatorLaunchDocument D) (owner : String) (id : Option Uuid)
      (timestamp expires : String) (version : ℕ)
      → header_valid document owner id ≡ true
      → header_valid (consumed_document document timestamp expires version) owner id ≡ true
  unfolding header_valid consumed_document
  consumed_header document owner id timestamp expires version h =
      ground (arith, launch_etag_nonempty version)

  parse-format :
      (t : T) (text : String)
      → IsTimes services.times
      → services.times.format t ≡ some text
      → parse_timestamp services text ≡ ok t
  unfolding parse_timestamp
  parse-format t text laws h = rw (laws.parse-format t text h) refl

  validate_document-created :
      (document : CalculatorLaunchDocument D) (owner : String) (id : Option Uuid)
      → validate_document services document owner id ≡ ok tt
      → (t : T) × (parse_timestamp services document.created_at ≡ ok t)
  unfolding validate_document
  validate_document-created document owner id h =
      let (t1, e1, h1) =
        bind-eq-ok (fail_if (not (header_valid document owner id)) unavailable) _ h in
      let (t2, e2, h2) = bind-eq-ok (fail_if (not (shape_valid document)) unavailable) _ h1 in
      let (t3, e3, h3) =
        bind-eq-ok (validate_hash services document.manifest document.manifest_sha256) _ h2 in
      let (created, e4, h4) = bind-eq-ok (parse_timestamp services document.created_at) _ h3 in
      (created, e4)

  consumed_shape :
      (document : CalculatorLaunchDocument D) (timestamp expires : String) (version : ℕ)
      → document.status ≡ claimed
      → shape_valid document ≡ true
      → shape_valid (consumed_document document timestamp expires version) ≡ true
  unfolding shape_valid active_payload_present consumed_document
  consumed_shape document timestamp expires version s h = let h' = rw s at h in ground arith

  consumed_valid :
      (document : CalculatorLaunchDocument D) (owner : String) (id : Option Uuid)
      (timestamp expires : String) (version : ℕ) (now later : T)
      → IsTimes services.times
      → services.times.format now ≡ some timestamp
      → services.times.format later ≡ some expires
      → document.status ≡ claimed
      → validate_document services document owner id ≡ ok tt
      → validate_document services (consumed_document document timestamp expires version) owner id
        ≡ ok tt
  unfolding validate_document validate_hash consumed_document
  consumed_valid document owner id timestamp expires version now later laws f g s v =
      let (header, shape) = validate_document-valid services document owner id v in
      let (created, c) = validate_document-created document owner id v in
      let header' = consumed_header document owner id timestamp expires version header in
      let shape' = consumed_shape document timestamp expires version s shape in
      rw (header', shape', c, parse-format now timestamp laws f, parse-format later expires laws g)
        refl

  found_same :
      (owner : String) (id : Uuid) (launches : LaunchMap D) {s s' : StoredLaunch D}
      → get_key (owner, id) launches ≡ some s
      → get_key (owner, id) launches ≡ some s'
      → s ≡ s'
  found_same owner id launches h k = cc

  consume-eq-ok :
      (owner : String) (id : Uuid) (timestamp expires : String) (now : T) (stored : StoredLaunch D)
      → stored.version + 1 < 2 ^ 64
      → services.times.format now ≡ some timestamp
      → services.times.format (services.times.plus now consumed_ttl_seconds) ≡ some expires
      → validate_document services
          (consumed_document stored.document timestamp expires (stored.version + 1))
          owner
          (some id)
        ≡ ok tt
      → consume services owner id now stored ≡ (
        ok tt,
        record {
          version = stored.version + 1;
          document = consumed_document stored.document timestamp expires (stored.version + 1);
        },
      )
  unfolding consume format_timestamp
  consume-eq-ok owner id timestamp expires now stored bound f f' valid =
      let room : ltb (stored.version + 1) (2 ^ 64) ≡ true = ground arith in
      rw (room, f, f', valid) refl

  acknowledge-IsClaimed :
      (owner : String) (id companion : Uuid) (now : T) (r : InMemoryCalculatorLaunchRepository D)
      (document : CalculatorLaunchDocument D) (used : StoredLaunch D)
      (k : IsClaimed services owner id companion document r)
      → is_expired services document now ≡ ok false
      → consume services owner id now k.stored ≡ (ok tt, used)
      → acknowledge services owner id companion document.etag now r
        ≡ (ok tt, record r { launches = insert_key (owner, id) used r.launches })
  unfolding acknowledge acknowledge_claimed claimed_by write_launches ensure_not_expired
  acknowledge-IsClaimed owner id companion now r document used k live c =
      let live' : is_expired services k.stored.document now ≡ ok false = rw k.answer live in
      let mine : (companion == companion) ≡ true = ground arith in
      let tag : text_eq k.stored.document.etag document.etag ≡ true =
        (eq_iff k.stored.document.etag document.etag).1 (ap (λ d. d.etag) k.answer) in
      rw (k.lock, k.found, k.valid, live', c, tag, k.status, k.by, mine) refl

  acknowledge_again :
      (owner : String) (id companion : Uuid) (tag : String) (now : T)
      (r : InMemoryCalculatorLaunchRepository D) (used : StoredLaunch D)
      → r.poisoned ≡ false
      → get_key (owner, id) r.launches ≡ some used
      → validate_document services used.document owner (some id) ≡ ok tt
      → used.document.status ≡ consumed
      → used.document.companion_instance_id ≡ some companion
      → acknowledge services owner id companion tag now r ≡ (ok tt, r)
  unfolding acknowledge write_launches
  acknowledge_again owner id companion tag now r used lock found valid status by =
      let mine : (companion == companion) ≡ true = ground arith in
      rw (lock, found, valid, status, by, mine) refl

  -- After a claim that returned `document`, the companion that holds the launch can acknowledge it
  -- before it expires, if the version has not reached its bound and the instants can be written: the
  -- launch is then consumed, and keeps neither its manifest nor its project; the same companion can
  -- acknowledge again at any time without a change.
  pub acknowledge-claim :
      (owner : String) (id companion : Uuid) (version timestamp expires tag : String)
      (now now' now'' : T) (r r' : InMemoryCalculatorLaunchRepository D)
      (document : CalculatorLaunchDocument D) (stored : StoredLaunch D)
      → IsTimes services.times
      → claim services owner id companion version now r ≡ (ok document, r')
      → get_key (owner, id) r'.launches ≡ some stored
      → stored.version + 1 < 2 ^ 64
      → is_expired services document now' ≡ ok false
      → services.times.format now' ≡ some timestamp
      → services.times.format (services.times.plus now' consumed_ttl_seconds) ≡ some expires
      → (r'' : InMemoryCalculatorLaunchRepository D) × (used : StoredLaunch D) × (acknowledge
            services owner id companion document.etag now' r'
          ≡ (ok tt, r''))
        × (get_key (owner, id) r''.launches ≡ some used)
        × (used.document.status ≡ consumed)
        × (used.document.manifest ≡ none)
        × (used.document.source_project_id ≡ none)
        × (acknowledge services owner id companion tag now'' r'' ≡ (ok tt, r''))
  unfolding consumed_document
  acknowledge-claim owner id companion version timestamp expires tag now now' now'' r r' document
        stored laws h g bound open_still f f' =
      let k = claim-IsClaimed services owner id companion version now r r' document h in
      let same : k.stored ≡ stored = found_same owner id r'.launches k.found g in
      let next = k.stored.version + 1 in
      let bound' : k.stored.version + 1 < 2 ^ 64 = rw same bound in
      let used : StoredLaunch D = record {
        version = next;
        document = consumed_document k.stored.document timestamp expires next;
      } in
      let valid =
        consumed_valid k.stored.document owner (some id) timestamp expires next now'
          (services.times.plus now' consumed_ttl_seconds) laws f f' k.status k.valid in
      let found = get-insert {K = String × Uuid} (owner, id) used r'.launches in
      (
        record r' { launches = insert_key (owner, id) used r'.launches },
        used,
        acknowledge-IsClaimed owner id companion now' r' document used k open_still
            (consume-eq-ok owner id timestamp expires now' k.stored bound' f f' valid),
        found,
        refl,
        refl,
        refl,
        acknowledge_again owner id companion tag now'' _ used k.lock found valid refl k.by,
      )
