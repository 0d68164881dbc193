-- ===== src/Launches/Reachable.antt =====
-- What holds of every launch that the operations of rust/src/persistence/calculator_launch.rs keep.
use mathlib.Core.List.{Memᴰ}
use text.Mathlib.Text.{◌==◌ as text_eq}
use text.Mathlib.TextEquality.{eq_iff}
use tco_calculator.Prelude.{
  Bool, true, false, ◌&&◌, ◌≡◌, ◌≢◌, refl, ap, subst, sym, ◌∙◌, String, Option, none, some, [], ◌∷◌,
  inl, inr, filter, Memᴰ-of_filter, Result, ok, err, ◌>>=◌, if◌then◌else◌, Bool-cases, ok_or,
}
use tco_calculator.Clock.{IsTimes}
use tco_calculator.Maps.{get_key, insert_key, pair_key}
use tco_calculator.Maps.Laws.{IsMap, insert-IsMap, filter-IsMap, Memᴰ-of_get, Memᴰ-of_insert}
use tco_calculator.Domain.Resource.{Uuid}
use tco_calculator.Launches.Types.{
  NewCalculatorLaunch, InMemoryCalculatorLaunchRepository, StoredLaunch, Services, conflict,
  unavailable, CalculatorLaunchError,
}
use tco_calculator.Launches.Document.{
  shape_valid, active_payload_present, is_expired, parse_timestamp,
}
use tco_calculator.Launches.Repository.{is_active, LaunchMap, new, new_document}
use tco_calculator.Launches.Repository.Create.{ensure_no_active_launch}
use tco_calculator.Launches.Changes.{
  Call, run, IsRewritten, Change, unchanged, added, took, ended, purged,
}
use tco_calculator.Launches.Changes.Runs.{run-Change}

module _ {D : Type 0} where
  -- a launch belongs to its key, and has the fields of its status
  pub record IsKept (key : String × Uuid) (stored : StoredLaunch D) : Type 0 where
    pub owned : stored.document.owner_id ≡ key.0
    pub named : stored.document.id ≡ key.1
    pub shape : shape_valid stored.document ≡ true

  abbrev pub AllKept : LaunchMap D → Type 0
  AllKept launches =
      (key : String × Uuid) (stored : StoredLaunch D)
      → Memᴰ (key, stored) launches
      → IsKept key stored

module _ {D T : Type 0} (services : Services D T) where
  -- an active launch of `owner` that has not expired at `now`
  pub record IsOpen (owner : String) (now : T) (stored : StoredLaunch D) : Type 0 where
    pub owned : stored.document.owner_id ≡ owner
    pub active : is_active stored.document.status ≡ true
    pub open_still : is_expired services stored.document now ≡ ok false

  abbrev pub AtMostOneOpen : T → LaunchMap D → Type 0
  AtMostOneOpen now launches =
      (owner : String) (key key' : String × Uuid) (stored stored' : StoredLaunch D)
      → Memᴰ (key, stored) launches
      → Memᴰ (key', stored') launches
      → IsOpen owner now stored
      → IsOpen owner now stored'
      → key ≡ key'

  pub record Invariant (now : T) (launches : LaunchMap D) : Type 0 where
    pub map : IsMap launches
    pub kept : AllKept launches
    pub single : AtMostOneOpen now launches

  insert-Invariant :
      (now : T) (key : String × Uuid) (written : StoredLaunch D) (before : LaunchMap D)
      → Invariant now before
      → IsKept key written
      → ((owner : String) (key' : String × Uuid) (stored : StoredLaunch D)
          → Memᴰ (key', stored) before
          → key' ≢ key
          → IsOpen owner now stored
          → IsOpen owner now written
          → ⊥)
      → Invariant now (insert_key key written before)
  insert-Invariant now key written before v k alone = record {
    map = insert-IsMap key written before v.map;
    kept = λ key' stored m. elim (Memᴰ-of_insert key written before m) [
      | inl e ↦ rw (ap (λ x. x.0) e, ap (λ x. x.1) e) k
      | inr (old, o) ↦ v.kept key' stored old
    ];
    single = λ owner a b s s' m m' live live'. elim (Memᴰ-of_insert key written before m) [
      | inl e ↦ elim (Memᴰ-of_insert key written before m') [
        | inl e' ↦ ap (λ x. x.0) (e ∙ sym e')
        | inr (old, o) ↦
            absurd (alone owner b s' old o live' (subst (IsOpen owner now) (ap (λ x. x.1) e) live))
      ]
      | inr (old, o) ↦ elim (Memᴰ-of_insert key written before m') [
        | inl e' ↦
            absurd (alone owner a s old o live (subst (IsOpen owner now) (ap (λ x. x.1) e') live'))
        | inr (old', o') ↦ v.single owner a b s s' old old' live live'
      ]
    ];
  }

  filter-Invariant :
      (now : T) (p : (String × Uuid) × StoredLaunch D → Bool) (before : LaunchMap D)
      → Invariant now before
      → Invariant now (filter p before)
  filter-Invariant now p before v = record {
    map = filter-IsMap p before v.map;
    kept = λ key stored m. v.kept key stored (Memᴰ-of_filter p before m).0;
    single = λ owner a b s s' m m'.
        v.single owner a b s s' (Memᴰ-of_filter p before m).0 (Memᴰ-of_filter p before m').0;
  }

  over-eq-ok :
      (m : Result CalculatorLaunchError Bool) (rest : Result CalculatorLaunchError (Unit {0}))
      → (m >>= (λ over. if over then rest else err conflict)) ≡ ok tt
      → rest ≡ ok tt
  over-eq-ok (ok true) rest h = h
  over-eq-ok (ok false) rest h = absurd cc
  over-eq-ok (err e) rest h = absurd cc

  no_active_none :
      (owner : String) (now : T) (launches : LaunchMap D) (key : String × Uuid)
      (stored : StoredLaunch D)
      → ensure_no_active_launch services owner now launches ≡ ok tt
      → Memᴰ (key, stored) launches
      → IsOpen owner now stored
      → ⊥
  unfolding ensure_no_active_launch
  no_active_none owner now [] key stored h m live = elim m [ ]
  no_active_none owner now (entry ∷ launches) key stored h (Memᴰ.head e) live =
      let s = ap (λ x. x.1) e in
      let owned = (eq_iff stored.document.owner_id owner).1 live.owned in
      let h' = rw (sym s, owned, live.active, live.open_still) at h in absurd cc
  no_active_none owner now (entry ∷ launches) key stored h (Memᴰ.tail m) live =
      elim (Bool-cases
        (text_eq entry.1.document.owner_id owner && is_active entry.1.document.status)) [
          | inl c ↦
              no_active_none owner now launches key stored
                (over-eq-ok (is_expired services entry.1.document now) _ (rw c at h)) m live
          | inr c ↦ let h' = rw c at h in no_active_none owner now launches key stored h' m live
        ]

  earlier :
      (t now : T) (parsed : Option T)
      → IsTimes services.times
      → services.times.reached now t ≡ true
      → (ok_or parsed unavailable >>= (λ expires. ok (services.times.reached now expires)))
        ≡ ok false
      → (ok_or parsed unavailable >>= (λ expires. ok (services.times.reached t expires))) ≡ ok false
  earlier t now none laws later h = absurd cc
  earlier t now (some expires) laws later h = elim (Bool-cases (services.times.reached t expires)) [
    | inl e ↦ let e' = laws.reached_trans expires t now e later in let h' = rw e' at h in absurd cc
    | inr e ↦ ap ok e
  ]

  earlier-IsOpen :
      (t now : T) (owner : String) (stored : StoredLaunch D)
      → IsTimes services.times
      → services.times.reached now t ≡ true
      → IsOpen owner now stored
      → IsOpen owner t stored
  unfolding is_expired parse_timestamp
  earlier-IsOpen t now owner stored laws later live = record {
    owned = live.owned;
    active = live.active;
    open_still =
        earlier t now (services.times.parse stored.document.claim_expires_at) laws later
          live.open_still;
  }

  earlier-Invariant :
      (t now : T) (launches : LaunchMap D)
      → IsTimes services.times
      → services.times.reached now t ≡ true
      → Invariant t launches
      → Invariant now launches
  earlier-Invariant t now launches laws later v = record {
    map = v.map;
    kept = v.kept;
    single = λ owner a b s s' m m' live live'.
        v.single owner a b s s' m m' (earlier-IsOpen t now owner s laws later live)
          (earlier-IsOpen t now owner s' laws later live');
  }

  -- a launch that was open and keeps its owner may be written over
  rewrite-Invariant :
      (now : T) (owner : String) (id : Uuid) (stored written : StoredLaunch D)
      (before : LaunchMap D)
      → Invariant now before
      → get_key (owner, id) before ≡ some stored
      → is_active stored.document.status ≡ true
      → is_expired services stored.document now ≡ ok false
      → IsRewritten stored written
      → Invariant now (insert_key (owner, id) written before)
  rewrite-Invariant now owner id stored written before v g active still w =
      let member = Memᴰ-of_get (owner, id) before g in
      let kept = v.kept (owner, id) stored member in
      insert-Invariant now (owner, id) written before v
        (record { owned = w.owner ∙ kept.owned; named = w.id ∙ kept.named; shape = w.shape })
        λ owner' key' other m o live live'. o (
          v.single owner' key' (owner, id) other stored m member live
            (record { owned = sym w.owner ∙ live'.owned; active = active; open_still = still }))

  new_document-IsKept :
      (owner : String) (launch : NewCalculatorLaunch D) (hash timestamp expires : String)
      → IsKept
          (owner, launch.id)
          (record { document = new_document owner launch hash timestamp expires; version = 1 })
  unfolding new_document shape_valid active_payload_present
  new_document-IsKept owner launch hash timestamp expires = record {
    owned = refl;
    named = refl;
    shape = refl;
  }

  new_document-owner :
      (owner : String) (launch : NewCalculatorLaunch D) (hash timestamp expires : String)
      → (new_document owner launch hash timestamp expires).owner_id ≡ owner
  unfolding new_document
  new_document-owner owner launch hash timestamp expires = refl

  pub Change-Invariant :
      (now : T) (before after : LaunchMap D)
      → Invariant now before
      → Change services now before after
      → Invariant now after
  Change-Invariant now before after v (unchanged e) = rw e v
  Change-Invariant now before after v (added owner launch hash timestamp expires free none_open e) =
      rw e (
        insert-Invariant now (owner, launch.id) _ before v
          (new_document-IsKept owner launch hash timestamp expires)
          λ owner' key' other m o live live'.
            let same = sym live'.owned ∙ new_document-owner owner launch hash timestamp expires in
            no_active_none owner now before key' other none_open m
              (subst (λ o. IsOpen o now other) same live))
  Change-Invariant now before after v (took owner id companion stored written g s still w t e) =
      rw e (rewrite-Invariant now owner id stored written before v g (rw s refl) still w)
  Change-Invariant now before after v (ended owner id companion stored written g s by still w t e) =
      rw e (rewrite-Invariant now owner id stored written before v g (rw s refl) still w)
  Change-Invariant now before after v (purged owner project e) =
      rw e (filter-Invariant now _ before v)

  -- Runs of the service: calls, whether they return or fail, at instants that do not decrease.
  pub data Reachable : T → InMemoryCalculatorLaunchRepository D → Type 0 where
    fresh : (now : T) → Reachable now new
    called :
        (t now : T) (call : Call D) (r : InMemoryCalculatorLaunchRepository D)
        → Reachable t r
        → services.times.reached now t ≡ true
        → Reachable now (run services call now r)

  new-Invariant : (now : T) → Invariant now (new {D = D}).launches
  unfolding new
  new-Invariant now = record {
    map = λ k v v' m m'. elim m [ ];
    kept = λ key stored m. elim m [ ];
    single = λ owner a b s s' m m' live live'. elim m [ ];
  }

  -- In every state that calls lead to, no key has two launches, every launch belongs to its key and has
  -- the fields of its status, and no owner has two active launches that have not expired. The instants
  -- of the calls do not decrease.
  pub Reachable-Invariant :
      (now : T) (r : InMemoryCalculatorLaunchRepository D)
      → IsTimes services.times
      → Reachable now r
      → Invariant now r.launches
  Reachable-Invariant _ _ laws (fresh now) = new-Invariant now
  Reachable-Invariant _ _ laws (called t now call r from later) =
      Change-Invariant now r.launches (run services call now r).launches
        (earlier-Invariant t now r.launches laws later (Reachable-Invariant t r laws from))
        (run-Change services call now r)
