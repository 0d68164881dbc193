-- ===== src/Launches/Phases.antt =====
-- The launches of rust/src/persistence/calculator_launch.rs as the phases of a one-time offer. A phase
-- forgets documents, instants, tags and versions.
use tco_calculator.Prelude.{false, ◌≡◌, refl, subst, String, Option, none, some, inl, inr, arith}
use tco_calculator.Maps.{get_key, insert_key, pair_key}
use tco_calculator.Maps.Laws.{IsMap, get-insert, get-insert_other, get-filter, key_cases}
use tco_calculator.Domain.Resource.{Uuid}
use tco_calculator.Launches.Types.{
  NewCalculatorLaunch, CalculatorLaunchStatus, ready, claimed, consumed,
  InMemoryCalculatorLaunchRepository, StoredLaunch, Services,
}
use tco_calculator.Launches.Repository.{is_consumed, survives_purge, LaunchMap, new_document}
use tco_calculator.Launches.Changes.{
  Call, run, Change, unchanged, added, took, ended, purged, Takes, not_taken, taken, Finishes,
  not_finished, finished,
}
use tco_calculator.Launches.Changes.Runs.{run-Change}

-- The specification: an offer is made once, held by one companion, and used by that companion.
pub data Phase : Type 0 where
  absent offered : Phase
  held used : Option Uuid → Phase

infix 40 ◌⟶◌
pub data ◌⟶◌ : Phase → Phase → Type 0 where
  stay : {p : Phase} → p ⟶ p
  offer : absent ⟶ offered
  hold : (companion : Uuid) → offered ⟶ held (some companion)
  use_up : (companion : Uuid) → held (some companion) ⟶ used (some companion)
  withdraw : offered ⟶ absent
  withdraw_held : {companion : Option Uuid} → held companion ⟶ absent

abbrev pub phase_of : CalculatorLaunchStatus → Option Uuid → Phase
phase_of ready companion = offered
phase_of claimed companion = held companion
phase_of consumed companion = used companion

withdraw_phase :
    (status : CalculatorLaunchStatus) (companion : Option Uuid)
    → is_consumed status ≡ false
    → phase_of status companion ⟶ absent
withdraw_phase ready companion h = withdraw
withdraw_phase claimed companion h = withdraw_held
withdraw_phase consumed companion h = absurd cc

module _ {D : Type 0} where
  unfoldable pub stored_phase : StoredLaunch D → Phase
  stored_phase stored = phase_of stored.document.status stored.document.companion_instance_id

  abbrev pub found_phase : Option (StoredLaunch D) → Phase
  found_phase none = absent
  found_phase (some stored) = stored_phase stored

  unfoldable pub phase : String → Uuid → LaunchMap D → Phase
  unfolding get_key stored_phase
  phase owner id launches = found_phase (get_key (owner, id) launches)

  Takes-⟶ :
      (companion : Uuid) (stored written : StoredLaunch D)
      → stored.document.status ≡ ready
      → Takes companion stored written
      → stored_phase stored ⟶ stored_phase written
  unfolding stored_phase
  Takes-⟶ companion stored written s (not_taken e) = rw e stay
  Takes-⟶ companion stored written s (taken t c) = rw (s, t, c) (hold companion)

  Finishes-⟶ :
      (companion : Uuid) (stored written : StoredLaunch D)
      → stored.document.status ≡ claimed
      → stored.document.companion_instance_id ≡ some companion
      → Finishes companion stored written
      → stored_phase stored ⟶ stored_phase written
  unfolding stored_phase
  Finishes-⟶ companion stored written s by (not_finished e) = rw e stay
  Finishes-⟶ companion stored written s by (finished t c) = rw (s, t, c, by) (use_up companion)

  -- a write under one key moves the phase of that key only
  insert-⟶ :
      (owner owner' : String) (id id' : Uuid) (written : StoredLaunch D) (before : LaunchMap D)
      → phase owner' id' before ⟶ stored_phase written
      → phase owner id before ⟶ phase owner id (insert_key (owner', id') written before)
  unfolding phase
  insert-⟶ owner owner' id id' written before move =
      elim (key_cases {K = String × Uuid} (owner', id') (owner, id)) [
        | inl e ↦
            let moved : found_phase (get_key (owner', id') before)
                ⟶ found_phase (get_key (owner', id') (insert_key (owner', id') written before)) =
              rw (get-insert (owner', id') written before) move in
            subst
              (λ (key : String × Uuid).
                found_phase (get_key key before)
                ⟶ found_phase (get_key key (insert_key (owner', id') written before)))
              e moved
        | inr o ↦ rw (get-insert_other (owner', id') (owner, id) written before o) stay
      ]

module _ {D T : Type 0} (services : Services D T) where
  new_document-phase :
      (owner : String) (launch : NewCalculatorLaunch D) (hash timestamp expires : String)
      → stored_phase
          (record { document = new_document owner launch hash timestamp expires; version = 1 })
        ≡ offered
  unfolding stored_phase new_document
  new_document-phase owner launch hash timestamp expires = refl

  Change-⟶ :
      (now : T) (owner : String) (id : Uuid) (before after : LaunchMap D)
      → IsMap before
      → Change services now before after
      → phase owner id before ⟶ phase owner id after
  unfolding phase
  Change-⟶ now owner id before after u (unchanged e) = rw e stay
  Change-⟶ now owner id before after u (added owner' launch hash timestamp expires free clear e) =
      rw e (
        insert-⟶ owner owner' id launch.id _ before
          (rw (free, new_document-phase owner' launch hash timestamp expires) offer))
  Change-⟶ now owner id before after u (took owner' id' companion stored written g s still w t e) =
      rw e
        (insert-⟶ owner owner' id id' written before (rw g (Takes-⟶ companion stored written s t)))
  Change-⟶ now owner id before after u
        (ended owner' id' companion stored written g s by still w t e) =
      rw e (
        insert-⟶ owner owner' id id' written before
          (rw g (Finishes-⟶ companion stored written s by t)))
  Change-⟶ now owner id before after u (purged owner' project e) =
      rw e (elim (get-filter (survives_purge owner' project) (owner, id) before u) [
        | inl same ↦ rw same stay
        | inr (stored, found, dropped, gone) ↦ rw (found, gone) (withdraw_phase _ _ (ground arith))
      ])

  -- In a repository that has no key twice, every call at every instant, whether it returns or fails,
  -- makes at most one move of the specification on each launch: an absent one is offered, an offer is
  -- claimed by one companion, what that companion holds is consumed by it, and what is not consumed
  -- can be withdrawn.
  pub run-⟶ :
      (call : Call D) (now : T) (r : InMemoryCalculatorLaunchRepository D) (owner : String)
      (id : Uuid)
      → IsMap r.launches
      → phase owner id r.launches ⟶ phase owner id (run services call now r).launches
  run-⟶ call now r owner id unique =
      Change-⟶ now owner id r.launches (run services call now r).launches unique
        (run-Change services call now r)
