-- ===== src/RoutingStore/Handlers.antt =====
-- The handlers of backend/modeldeck/v2_api.py that change routing profiles, over the tables, with the
-- validator unique_capabilities of backend/modeldeck/domain.py. What validate_routing_profile says of
-- the workers, and what the smoke test of a route says, are arguments.
use model_deck.Base.{
  ℕ, String, Bool, true, not, ◌&&◌, Option, none, some, List, [], ◌∷◌, if◌then◌else◌, str_eq,
}
use model_deck.Text.{member}
use model_deck.RoutingStore.{
  Binding, ProfileDocument, Snapshot, Active, Store, StoreOutcome, done, fails, has_profile,
  save_draft, find_revision, routing_snapshot, folded_names, publish_routing_profile,
  activate_revision, deactivate, delete_profile, discard_draft, rebind_drafts,
}

-- `len(xs) == len(set(xs))`
abbrev pub all_distinct : List String → Bool
all_distinct [] = true
all_distinct (x ∷ xs) = not (member x xs) && all_distinct xs

abbrev pub ids_of : List Binding → List String
ids_of [] = []
ids_of (b ∷ bs) = b.id ∷ ids_of bs

abbrev pub find_profile : String → List ProfileDocument → Option ProfileDocument
find_profile id [] = none
find_profile id (p ∷ ps) = if str_eq p.id id then some p else find_profile id ps

pub data Answer : Type 0 where
  success conflict not_found unprocessable failure : Answer

abbrev pub answer_of : Store × StoreOutcome → Store × Answer
answer_of (s, done) = (s, success)
answer_of (s, fails e) = (s, conflict)

-- what follows a call that raises where it fails
abbrev pub or_failure : Store × StoreOutcome → Store × Answer → Store × Answer
or_failure (s, done) rest = rest
or_failure (s, fails e) rest = (s, failure)

module _ (casefold : String → String) where
  -- unique_capabilities
  abbrev pub unique_capabilities : ProfileDocument → Bool
  unique_capabilities p =
      all_distinct (ids_of p.capabilities) && all_distinct (folded_names casefold p.capabilities)

  -- create_routing_profile
  unfoldable pub create_routing_profile : ProfileDocument → Store → Store × Answer
  create_routing_profile p s =
      if not (unique_capabilities p)
      then (s, unprocessable)
      else if has_profile p.id s.profiles
      then (s, conflict)
      else (save_draft p s, success)

  -- save_routing_profile_draft
  unfoldable pub save_routing_profile_draft : String → ProfileDocument → Store → Store × Answer
  save_routing_profile_draft id p s =
      if not (unique_capabilities p)
      then (s, unprocessable)
      else if not (str_eq p.id id)
      then (s, conflict)
      else if not (has_profile id s.profiles)
      then (s, not_found)
      else (save_draft p s, success)

  -- publish_routing_profile, which reads the draft and validates it again
  unfoldable pub publish_profile : String → Bool → Store → Store × Answer
  publish_profile id valid s = elim (find_profile id s.profiles) [
    | none ↦ (s, not_found)
    | some p ↦
        if not (unique_capabilities p)
        then (s, failure)
        else if not valid
        then (s, conflict)
        else answer_of (publish_routing_profile casefold p (routing_snapshot p 0) s)
  ]

  -- reactivate_routing_profile_revision
  unfoldable pub reactivate_revision : String → ℕ → Bool → Store → Store × Answer
  reactivate_revision id n valid s = elim (find_revision id n s.revisions) [
    | none ↦ (s, not_found)
    | some p ↦
        if not (unique_capabilities p)
        then (s, failure)
        else if not valid
        then (s, conflict)
        else answer_of (activate_revision casefold id n (routing_snapshot p n) s)
  ]

  -- publish_capability_setup up to the smoke test: the reviewed profile is saved and published
  unfoldable pub publish_guided : ProfileDocument → Bool → Store → Store × Answer
  publish_guided p valid s =
      if not (unique_capabilities p)
      then (s, failure)
      else if not valid
      then (s, conflict)
      else answer_of (publish_routing_profile casefold p (routing_snapshot p 0) (save_draft p s))

  -- the loop over the previous snapshots; a collision leaves it by its ValueError
  unfoldable pub reactivate_all : List Snapshot → Store → Store × Answer
  reactivate_all [] s = (s, success)
  reactivate_all (r ∷ previous) s =
      let unchanged = reactivate_all previous s in
      elim (find_revision r.profile_id r.revision s.revisions) [
        | none ↦ unchanged
        | some p ↦
            let activated =
              activate_revision casefold p.id r.revision (routing_snapshot p r.revision) s in
            let rest = reactivate_all previous activated.0 in
            if not (unique_capabilities p) then (s, failure) else or_failure activated rest
      ]

  -- and after a smoke test that has failed, with the snapshots that were active before
  unfoldable pub restore_routing : String → List Snapshot → Store → Store × Answer
  restore_routing id previous s = reactivate_all previous (deactivate id s)

-- active_routing_snapshots
abbrev pub snapshots_of : List Active → List Snapshot
snapshots_of [] = []
snapshots_of (a ∷ rows) = a.routing ∷ snapshots_of rows

-- What changes the routing tables.
pub data Request : Type 0 where
  creates : ProfileDocument → Request
  saves : String → ProfileDocument → Request
  discards deletes deactivates : String → Request
  publishes : String → Bool → Request
  reactivates : String → ℕ → Bool → Request
  publishes_guided : ProfileDocument → Bool → Request
  restores : String → List Snapshot → Request
  rebinds : String → String → Request

module _ (casefold : String → String) where
  unfoldable pub serve : Request → Store → Store
  serve (creates p) s = (create_routing_profile casefold p s).0
  serve (saves id p) s = (save_routing_profile_draft casefold id p s).0
  serve (discards id) s = (discard_draft id s).0
  serve (deletes id) s = (delete_profile id s).0
  serve (deactivates id) s = deactivate id s
  serve (publishes id valid) s = (publish_profile casefold id valid s).0
  serve (reactivates id n valid) s = (reactivate_revision casefold id n valid s).0
  serve (publishes_guided p valid) s = (publish_guided casefold p valid s).0
  serve (restores id previous) s = (restore_routing casefold id previous s).0
  serve (rebinds old new) s = rebind_drafts old new s

  unfoldable pub serve_all : List Request → Store → Store
  serve_all [] s = s
  serve_all (r ∷ rs) s = serve_all rs (serve r s)
