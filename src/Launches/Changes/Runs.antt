-- ===== src/Launches/Changes/Runs.antt =====
-- Every call of rust/src/persistence/calculator_launch.rs makes a step.
use text.Mathlib.Text.{◌==◌ as text_eq}
use tco_calculator.Prelude.{
  true, false, ◌&&◌, ◌≡◌, refl, String, Option, none, some, inl, inr, is_some_and, ◌==◌, ok, ok_or,
  attempt-leaves, ok_or-eq-ok, Ensures-then, Ensures-eq-ok, done, arith, Bool-cases,
}
use tco_calculator.Maps.{get_key, pair_key}
use tco_calculator.Domain.Resource.{Uuid}
use tco_calculator.Launches.Types.{
  CalculatorLaunchStatus, ready, claimed, consumed, CalculatorLaunchDocument, NewCalculatorLaunch,
  InMemoryCalculatorLaunchRepository, StoredLaunch, Services, not_found, active_ttl_seconds,
}
use tco_calculator.Launches.Document.{
  shape_valid, is_expired, ensure_not_expired, validate_document, format_timestamp,
  validate_manifest, manifest_sha256,
}
use tco_calculator.Launches.Repository.{
  is_consumed, LaunchMap, write_launches, new_document, claimed_by, purge_project,
}
use tco_calculator.Launches.Repository.Create.{
  ensure_no_active_launch, insert_launch, create_in, create,
}
use tco_calculator.Launches.Repository.Claim.{claim_stored, claim}
use tco_calculator.Launches.Repository.Acknowledge.{acknowledge_claimed, acknowledge}
use tco_calculator.Launches.Changes.{
  Call, creates, claims, acknowledges, purges, run, Change, unchanged, added, took, ended, purged,
}
use tco_calculator.Launches.Changes.Writes.{
  validate_document-valid, ensure_not_expired-open, write_launches-open, claim_ready-writes,
  consume-writes,
}

module _ {D T : Type 0} (services : Services D T) where
  abbrev Leads :
      T → InMemoryCalculatorLaunchRepository D → InMemoryCalculatorLaunchRepository D → Type 0
  Leads now r r' = Change services now r.launches r'.launches

  insert_launch-checks :
      (owner : String) (launch : NewCalculatorLaunch D) (hash : String) (now : T)
      (launches : LaunchMap D) (document : CalculatorLaunchDocument D)
      → insert_launch services owner launch hash now launches ≡ ok document
      → (ensure_no_active_launch services owner now launches ≡ ok tt)
        × (timestamp : String) × (expires : String) × (document
            ≡ new_document owner launch hash timestamp expires)
  unfolding insert_launch
  insert_launch-checks owner launch hash now launches document h =
      Ensures-eq-ok
        {P = λ document.
          (ensure_no_active_launch services owner now launches ≡ ok tt)
          × (timestamp : String) × (expires : String) × (document
              ≡ new_document owner launch hash timestamp expires)}
        (Ensures-then (ensure_no_active_launch services owner now launches) λ t e.
          Ensures-then (format_timestamp services now) λ timestamp f.
            Ensures-then (format_timestamp services (services.times.plus now active_ttl_seconds))
              λ expires x.
                Ensures-then
                  (validate_document services (new_document owner launch hash timestamp expires)
                    owner (some launch.id))
                  λ valid v. done (e, timestamp, expires, refl))
        h

  create_in-Change :
      (owner : String) (launch : NewCalculatorLaunch D) (hash : String) (now : T)
      (r : InMemoryCalculatorLaunchRepository D) (found : Option (StoredLaunch D))
      → get_key (owner, launch.id) r.launches ≡ found
      → Leads now r (create_in services owner launch hash now r.launches r found).1
  unfolding create_in
  create_in-Change owner launch hash now r (some stored) h = unchanged refl
  create_in-Change owner launch hash now r none h =
      attempt-leaves (Leads now r) (insert_launch services owner launch hash now r.launches) r _
        (unchanged refl)
        λ document e.
          let (free, timestamp, expires, new) =
            insert_launch-checks owner launch hash now r.launches document e in
          added owner launch hash timestamp expires h free (rw new refl)

  create-Change :
      (owner : String) (launch : NewCalculatorLaunch D) (now : T)
      (r : InMemoryCalculatorLaunchRepository D)
      → Leads now r (create services owner launch now r).1
  unfolding create
  create-Change owner launch now r =
      attempt-leaves (Leads now r) (validate_manifest services launch.manifest) r _ (unchanged refl)
        λ valid v.
          attempt-leaves (Leads now r) (manifest_sha256 services launch.manifest) r _
            (unchanged refl)
            λ hash m.
              attempt-leaves (Leads now r) (write_launches r) r _ (unchanged refl) λ launches w.
                let e = write_launches-open services r launches w in
                rw e (create_in-Change owner launch hash now r _ refl)

  claim_stored-Change :
      (owner : String) (id companion : Uuid) (version : String) (now : T)
      (r : InMemoryCalculatorLaunchRepository D) (stored : StoredLaunch D)
      (status : CalculatorLaunchStatus)
      → get_key (owner, id) r.launches ≡ some stored
      → stored.document.status ≡ status
      → shape_valid stored.document ≡ true
      → is_expired services stored.document now ≡ ok false
      → Leads now r
          (claim_stored services owner id companion version now r r.launches stored status).1
  unfolding claim_stored
  claim_stored-Change owner id companion version now r stored ready g s shape open_still =
      let (rewritten, takes) =
        claim_ready-writes services owner id companion version now stored shape s in
      took owner id companion stored _ g s open_still rewritten takes refl
  claim_stored-Change owner id companion version now r stored claimed g s shape open_still =
      unchanged refl
  claim_stored-Change owner id companion version now r stored consumed g s shape open_still =
      unchanged refl

  claim-Change :
      (owner : String) (id companion : Uuid) (version : String) (now : T)
      (r : InMemoryCalculatorLaunchRepository D)
      → Leads now r (claim services owner id companion version now r).1
  unfolding claim
  claim-Change owner id companion version now r =
      attempt-leaves (Leads now r) (write_launches r) r _ (unchanged refl) λ launches w.
        attempt-leaves (Leads now r) (ok_or (get_key (owner, id) launches) not_found) r _
          (unchanged refl)
          λ stored g.
            attempt-leaves (Leads now r)
              (validate_document services stored.document owner (some id)) r _ (unchanged refl)
              λ valid v.
                attempt-leaves (Leads now r) (ensure_not_expired services stored.document now) r _
                  (unchanged refl)
                  λ open_still o.
                    let e = write_launches-open services r launches w in
                    rw e (
                      claim_stored-Change owner id companion version now r stored _
                        (rw⁻¹ e (ok_or-eq-ok not_found _ g)) refl
                        (validate_document-valid services stored.document owner (some id) v).1
                        (ensure_not_expired-open services stored.document now o))

  claimed_by_sound :
      (document : CalculatorLaunchDocument D) (companion : Uuid)
      → claimed_by document companion ≡ true
      → (document.status ≡ claimed) × (document.companion_instance_id ≡ some companion)
  unfolding claimed_by
  claimed_by_sound document companion h = (ground arith, ground arith)

  acknowledge_claimed-Change :
      (owner : String) (id companion : Uuid) (tag : String) (now : T)
      (r : InMemoryCalculatorLaunchRepository D) (stored : StoredLaunch D)
      → get_key (owner, id) r.launches ≡ some stored
      → shape_valid stored.document ≡ true
      → Leads now r (acknowledge_claimed services owner id companion tag now r r.launches stored).1
  unfolding acknowledge_claimed
  acknowledge_claimed-Change owner id companion tag now r stored g shape =
      attempt-leaves (Leads now r) (ensure_not_expired services stored.document now) r _
        (unchanged refl)
        λ open_still o. elim (Bool-cases (claimed_by stored.document companion)) [
          | inl c ↦ elim (Bool-cases (text_eq stored.document.etag tag)) [
            | inl t ↦
                let (s, by) = claimed_by_sound stored.document companion c in
                let (rewritten, finishes) =
                  consume-writes services owner id companion now stored shape s by in
                rw (c, t)
                  (ended owner id companion stored _ g s by
                    (ensure_not_expired-open services stored.document now o) rewritten finishes
                    refl)
            | inr t ↦ rw (c, t) (unchanged refl)
          ]
          | inr c ↦ rw c (unchanged refl)
        ]

  acknowledge-Change :
      (owner : String) (id companion : Uuid) (tag : String) (now : T)
      (r : InMemoryCalculatorLaunchRepository D)
      → Leads now r (acknowledge services owner id companion tag now r).1
  unfolding acknowledge
  acknowledge-Change owner id companion tag now r =
      attempt-leaves (Leads now r) (write_launches r) r _ (unchanged refl) λ launches w.
        attempt-leaves (Leads now r) (ok_or (get_key (owner, id) launches) not_found) r _
          (unchanged refl)
          λ stored g.
            attempt-leaves (Leads now r)
              (validate_document services stored.document owner (some id)) r _ (unchanged refl)
              λ valid v.
                elim (Bool-cases (
                  is_consumed stored.document.status
                  && is_some_and stored.document.companion_instance_id (λ id. id == companion))) [
                    | inl c ↦ rw c (unchanged refl)
                    | inr c ↦
                        let e = write_launches-open services r launches w in
                        rw (c, e)
                          (acknowledge_claimed-Change owner id companion tag now r stored
                            (rw⁻¹ e (ok_or-eq-ok not_found _ g))
                            (validate_document-valid services stored.document owner (some id) v).1)
                  ]

  purge_project-Change :
      (owner : String) (project : Uuid) (now : T) (r : InMemoryCalculatorLaunchRepository D)
      → Leads now r (purge_project owner project r).1
  unfolding purge_project
  purge_project-Change owner project now r =
      attempt-leaves (Leads now r) (write_launches r) r _ (unchanged refl)
        λ launches w. purged owner project (rw (write_launches-open services r launches w) refl)

  pub run-Change :
      (call : Call D) (now : T) (r : InMemoryCalculatorLaunchRepository D)
      → Change services now r.launches (run services call now r).launches
  unfolding run
  run-Change (creates owner launch) now r = create-Change owner launch now r
  run-Change (claims owner id companion version) now r =
      claim-Change owner id companion version now r
  run-Change (acknowledges owner id companion tag) now r =
      acknowledge-Change owner id companion tag now r
  run-Change (purges owner project) now r = purge_project-Change owner project now r
