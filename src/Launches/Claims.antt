-- ===== src/Launches/Claims.antt =====
-- Claims of a launch in rust/src/persistence/calculator_launch.rs.
use tco_calculator.Prelude.{
  Bool, false, ◌≡◌, refl, ap, String, some, is_some_and, ◌==◌, if◌then◌else◌, Result, ok, err, ◌>>◌,
  ok_or, attempt-eq-ok, ok_or-eq-ok, arith, Bool-cases, inl, inr,
}
use tco_calculator.Maps.{get_key, pair_key}
use tco_calculator.Maps.Laws.{get-insert}
use tco_calculator.Domain.Resource.{Uuid}
use tco_calculator.Projects.Repository.{checked_add}
use tco_calculator.Launches.Types.{
  CalculatorLaunchStatus, ready, claimed, consumed, CalculatorLaunchDocument, CalculatorLaunchError,
  InMemoryCalculatorLaunchRepository, StoredLaunch, Services, not_found, unavailable, conflict,
  expired, active_ttl_seconds,
}
use tco_calculator.Launches.Document.{
  is_expired, ensure_not_expired, format_timestamp, validate_document,
}
use tco_calculator.Launches.Repository.{LaunchMap, claimed_document, write_launches}
use tco_calculator.Launches.Repository.Claim.{claim_ready, claim_stored, claim}

module _ {D T : Type 0} (services : Services D T) where
  -- the launch that a claim leaves
  pub record IsClaimed (owner : String) (id companion : Uuid)
      (document : CalculatorLaunchDocument D) (r : InMemoryCalculatorLaunchRepository D)
      : Type 0 where
    pub lock : r.poisoned ≡ false
    pub stored : StoredLaunch D
    pub found : get_key (owner, id) r.launches ≡ some stored
    pub answer : stored.document ≡ document
    pub status : stored.document.status ≡ claimed
    pub by : stored.document.companion_instance_id ≡ some companion
    pub valid : validate_document services stored.document owner (some id) ≡ ok tt

  then-eq-ok :
      {A : Type 0} (m : Result CalculatorLaunchError (Unit {0})) {a b : A}
      → (m >> ok a) ≡ ok b
      → (m ≡ ok tt) × (a ≡ b)
  then-eq-ok (ok tt) h = (refl, cc)
  then-eq-ok (err e) h = absurd cc

  claim_ready-eq-ok :
      (owner : String) (id companion : Uuid) (version : String) (now : T)
      (stored written : StoredLaunch D) (document : CalculatorLaunchDocument D)
      → claim_ready services owner id companion version now stored ≡ (ok document, written)
      → (written.document ≡ document)
        × (written.document.status ≡ claimed)
        × (written.document.companion_instance_id ≡ some companion)
        × (validate_document services written.document owner (some id) ≡ ok tt)
  unfolding claim_ready claimed_document
  claim_ready-eq-ok owner id companion version now stored written document h =
      let (next, v, h1) =
        attempt-eq-ok (ok_or (checked_add stored.version 1) unavailable) stored _ h in
      let (timestamp, t, h2) = attempt-eq-ok (format_timestamp services now) _ _ h1 in
      let (expires, x, h3) =
        attempt-eq-ok (format_timestamp services (services.times.plus now active_ttl_seconds)) _ _
          h2 in
      let final = claimed_document stored.document companion version timestamp expires next in
      let (valid, same) =
        then-eq-ok (validate_document services final owner (some id)) (ap (λ x. x.0) h3) in
      rw⁻¹ (ap (λ x. x.1) h3) (same, refl, refl, valid)

  claim_stored-IsClaimed :
      (owner : String) (id companion : Uuid) (version : String) (now : T)
      (r r' : InMemoryCalculatorLaunchRepository D) (launches : LaunchMap D)
      (stored : StoredLaunch D) (status : CalculatorLaunchStatus)
      (document : CalculatorLaunchDocument D)
      → r.poisoned ≡ false
      → launches ≡ r.launches
      → get_key (owner, id) launches ≡ some stored
      → stored.document.status ≡ status
      → validate_document services stored.document owner (some id) ≡ ok tt
      → claim_stored services owner id companion version now r launches stored status
        ≡ (ok document, r')
      → IsClaimed owner id companion document r'
  unfolding claim_stored
  claim_stored-IsClaimed owner id companion version now r r' launches stored ready document lock e g
        s v h =
      let written = (claim_ready services owner id companion version now stored).1 in
      let (same, status, by, valid) =
        claim_ready-eq-ok owner id companion version now stored written document
          (ap (λ x. (x, written)) (ap (λ x. x.0) h)) in
      rw⁻¹ (ap (λ x. x.1) h) (record {
        lock = lock;
        stored = written;
        found = get-insert {K = String × Uuid} (owner, id) written launches;
        answer = same;
        status = status;
        by = by;
        valid = valid;
      })
  claim_stored-IsClaimed owner id companion version now r r' launches stored claimed document lock e
        g s v h =
      elim (Bool-cases
        (is_some_and stored.document.companion_instance_id (λ id. id == companion))) [
          | inl c ↦
              let h' = rw c at h in
              rw⁻¹ (ap (λ x. x.1) h') (record {
                lock = lock;
                stored = stored;
                found = rw⁻¹ e g;
                answer = ground arith;
                status = s;
                by = ground arith;
                valid = v;
              })
          | inr c ↦ let h' = rw c at h in absurd cc
        ]
  claim_stored-IsClaimed owner id companion version now r r' launches stored consumed document lock
        e g s v h =
      absurd cc

  write_launches-eq-ok :
      (r : InMemoryCalculatorLaunchRepository D) (launches : LaunchMap D)
      → write_launches r ≡ ok launches
      → (r.poisoned ≡ false) × (launches ≡ r.launches)
  unfolding write_launches
  write_launches-eq-ok r launches h = ground arith

  pub claim-IsClaimed :
      (owner : String) (id companion : Uuid) (version : String) (now : T)
      (r r' : InMemoryCalculatorLaunchRepository D) (document : CalculatorLaunchDocument D)
      → claim services owner id companion version now r ≡ (ok document, r')
      → IsClaimed owner id companion document r'
  unfolding claim
  claim-IsClaimed owner id companion version now r r' document h =
      let (launches, w, h1) = attempt-eq-ok (write_launches r) r _ h in
      let (stored, g, h2) = attempt-eq-ok (ok_or (get_key (owner, id) launches) not_found) r _ h1 in
      let (valid, v, h3) =
        attempt-eq-ok (validate_document services stored.document owner (some id)) r _ h2 in
      let (open_still, o, h4) =
        attempt-eq-ok (ensure_not_expired services stored.document now) r _ h3 in
      let (lock, e) = write_launches-eq-ok r launches w in
      claim_stored-IsClaimed owner id companion version now r r' launches stored _ document lock e
        (ok_or-eq-ok not_found _ g) refl v h4

  -- After a claim that returned `document`, and while its expiry can be tested, a claim by the same
  -- companion returns the same document, a claim by another companion is refused as a conflict, and any
  -- claim once the launch has expired is refused as expired. None of them changes the repository.
  pub claim_again :
      (owner : String) (id companion companion' : Uuid) (version version' : String) (now now' : T)
      (r r' : InMemoryCalculatorLaunchRepository D) (document : CalculatorLaunchDocument D)
      (over : Bool)
      → claim services owner id companion version now r ≡ (ok document, r')
      → is_expired services document now' ≡ ok over
      → claim services owner id companion' version' now' r' ≡ (
        if over then err expired else if companion == companion' then ok document else err conflict,
        r',
      )
  unfolding claim write_launches ensure_not_expired claim_stored
  claim_again owner id companion companion' version version' now now' r r' document over h e =
      let k = claim-IsClaimed owner id companion version now r r' document h in
      let e' : is_expired services k.stored.document now' ≡ ok over = rw k.answer e in
      elim (Bool-cases over) [
        | inl o ↦ rw (k.lock, k.found, k.valid, e', o) refl
        | inr o ↦ rw (k.lock, k.found, k.valid, e', o, k.status, k.by, k.answer) refl
      ]
