-- ===== src/Launches/Changes/Writes.antt =====
-- What `claim` and `acknowledge` of rust/src/persistence/calculator_launch.rs write.
use tco_calculator.Prelude.{
  true, false, ◌≡◌, refl, ap, ◌∙◌, String, Option, none, some, inl, inr, is_some, ok, err, ok_or,
  ◌>>=◌, attempt-leaves, fail_if-eq-ok, fail_if, arith, Bool-cases,
}
use tco_calculator.Maps.{pair_key}
use tco_calculator.Domain.Resource.{Uuid}
use tco_calculator.Projects.Repository.{checked_add}
use tco_calculator.Launches.Types.{
  ready, claimed, consumed, CalculatorLaunchDocument, InMemoryCalculatorLaunchRepository,
  StoredLaunch, Services, unavailable, expired, active_ttl_seconds, consumed_ttl_seconds,
}
use tco_calculator.Launches.Document.{
  header_valid, shape_valid, active_payload_present, is_expired, ensure_not_expired,
  validate_document, format_timestamp,
}
use tco_calculator.Launches.Repository.{
  LaunchMap, write_launches, claimed_document, consumed_document,
}
use tco_calculator.Launches.Repository.Claim.{claim_ready}
use tco_calculator.Launches.Repository.Acknowledge.{consume}
use tco_calculator.Launches.Changes.{
  IsRewritten, Takes, not_taken, taken, Finishes, not_finished, finished,
}

module _ {D T : Type 0} (services : Services D T) where
  pub validate_document-valid :
      (document : CalculatorLaunchDocument D) (owner : String) (id : Option Uuid)
      → validate_document services document owner id ≡ ok tt
      → (header_valid document owner id ≡ true) × (shape_valid document ≡ true)
  unfolding validate_document
  validate_document-valid document owner id h = elim (Bool-cases (header_valid document owner id)) [
    | inl e ↦ elim (Bool-cases (shape_valid document)) [
      | inl f ↦ (e, f)
      | inr f ↦ let h' = rw (e, f) at h in absurd cc
    ]
    | inr e ↦ let h' = rw e at h in absurd cc
  ]

  pub ensure_not_expired-open :
      (document : CalculatorLaunchDocument D) (now : T)
      → ensure_not_expired services document now ≡ ok tt
      → is_expired services document now ≡ ok false
  unfolding ensure_not_expired
  ensure_not_expired-open document now h =
      elim (is_expired services document now)
          as (λ m. (m >>= (λ over. fail_if over expired)) ≡ ok tt → m ≡ ok false) [
            | ok over ↦ λ k. ap ok (fail_if-eq-ok expired over k)
            | err e ↦ λ k. absurd cc
          ]
        h

  pub write_launches-open :
      (r : InMemoryCalculatorLaunchRepository D) (launches : LaunchMap D)
      → write_launches r ≡ ok launches
      → launches ≡ r.launches
  unfolding write_launches
  write_launches-open r launches h = ground arith

  ready_shape :
      (document : CalculatorLaunchDocument D)
      → shape_valid document ≡ true
      → document.status ≡ ready
      → active_payload_present document ≡ true
  unfolding shape_valid
  ready_shape document h e = let h' = rw e at h in ground arith

  claimed_companion :
      (document : CalculatorLaunchDocument D)
      → shape_valid document ≡ true
      → document.status ≡ claimed
      → (is_some document.companion_instance_id ≡ true)
        × (is_some document.companion_version ≡ true)
  unfolding shape_valid
  claimed_companion document h e = let h' = rw e at h in ground arith

  claimed_written :
      (companion : Uuid) (version : String) (stored : StoredLaunch D) {written : StoredLaunch D}
      → written.document.owner_id ≡ stored.document.owner_id
      → written.document.id ≡ stored.document.id
      → active_payload_present written.document ≡ true
      → written.document.status ≡ claimed
      → written.document.companion_instance_id ≡ some companion
      → written.document.companion_version ≡ some version
      → IsRewritten stored written × Takes companion stored written
  unfolding shape_valid
  claimed_written companion version stored o i p s c v =
      (record { owner = o; id = i; shape = rw (s, p, c, v) refl }, taken s c)

  pub claim_ready-writes :
      (owner : String) (id companion : Uuid) (version : String) (now : T) (stored : StoredLaunch D)
      → shape_valid stored.document ≡ true
      → stored.document.status ≡ ready
      → let written = (claim_ready services owner id companion version now stored).1 in
        IsRewritten stored written × Takes companion stored written
  unfolding claim_ready claimed_document active_payload_present
  claim_ready-writes owner id companion version now stored shape status =
      let payload = ready_shape stored.document shape status in
      let P : StoredLaunch D → Type 0 =
        λ written. IsRewritten stored written × Takes companion stored written in
      attempt-leaves P (ok_or (checked_add stored.version 1) unavailable) stored _
        (record { owner = refl; id = refl; shape = shape }, not_taken refl)
        λ next v.
          attempt-leaves P (format_timestamp services now) _ _
            (claimed_written companion version stored refl refl payload refl refl refl)
            λ timestamp t.
              attempt-leaves P
                (format_timestamp services (services.times.plus now active_ttl_seconds)) _ _
                (claimed_written companion version stored refl refl payload refl refl refl)
                λ expires x.
                  claimed_written companion version stored refl refl payload refl refl refl

  finished_written :
      (companion : Uuid) (stored : StoredLaunch D) {written : StoredLaunch D}
      → stored.document.companion_instance_id ≡ some companion
      → is_some stored.document.companion_version ≡ true
      → written.document.owner_id ≡ stored.document.owner_id
      → written.document.id ≡ stored.document.id
      → written.document.source_project_id ≡ none
      → written.document.status ≡ consumed
      → written.document.companion_instance_id ≡ stored.document.companion_instance_id
      → written.document.companion_version ≡ stored.document.companion_version
      → IsRewritten stored written × Finishes companion stored written
  unfolding shape_valid active_payload_present
  finished_written companion stored by set o i p s c v =
      (record { owner = o; id = i; shape = rw (s, p, c, v, by) set }, finished s (c ∙ by))

  pub consume-writes :
      (owner : String) (id companion : Uuid) (now : T) (stored : StoredLaunch D)
      → shape_valid stored.document ≡ true
      → stored.document.status ≡ claimed
      → stored.document.companion_instance_id ≡ some companion
      → let written = (consume services owner id now stored).1 in
        IsRewritten stored written × Finishes companion stored written
  unfolding consume consumed_document
  consume-writes owner id companion now stored shape status by =
      let (q, set) = claimed_companion stored.document shape status in
      let P : StoredLaunch D → Type 0 =
        λ written. IsRewritten stored written × Finishes companion stored written in
      attempt-leaves P (ok_or (checked_add stored.version 1) unavailable) stored _
        (record { owner = refl; id = refl; shape = shape }, not_finished refl)
        λ next v.
          attempt-leaves P (format_timestamp services now) _ _
            (finished_written companion stored by set refl refl refl refl refl refl)
            λ timestamp t.
              attempt-leaves P
                (format_timestamp services (services.times.plus now consumed_ttl_seconds)) _ _
                (finished_written companion stored by set refl refl refl refl refl refl)
                λ expires x. finished_written companion stored by set refl refl refl refl refl refl
