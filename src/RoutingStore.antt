-- ===== src/RoutingStore.antt =====
-- The routing tables of CompatibilityStore in backend/modeldeck/compatibility/store.py, with the
-- validator and routing_snapshot of backend/modeldeck/domain.py. A table is the list of its rows; a
-- transaction that raises leaves the store as it was. The time of a row is its place: the row that was
-- activated last stands last. `casefold` is an argument.
pub mod Handlers
pub mod Names
pub mod Unique
pub mod Invariant
pub mod Revisions
pub mod Sound
pub mod ActiveRows
pub mod Backed
pub mod Collisions
pub mod Restore
pub mod Rollback
use model_deck.Base.{
  ℕ, suc, ◌+◌, String, Bool, true, false, not, ◌&&◌, ◌||◌, Option, none, some, List, [], ◌∷◌, ◌++◌,
  ◌==◌, leb, map, all, any, is_none, if◌then◌else◌, str_eq,
}
use model_deck.Text.{member}

-- CapabilityBinding
pub record Binding : Type 0 where
  pub id : String
  pub display_name : String
  pub public_name : String
  pub protocol_contract : String
  pub tool_calling_enabled : Bool
  pub worker_ids : List String

-- RoutingProfile, a draft or a revision
pub record ProfileDocument : Type 0 where
  pub id : String
  pub name : String
  pub capabilities : List Binding

-- routing_json
pub record Snapshot : Type 0 where
  pub profile_id : String
  pub profile_name : String
  pub revision : ℕ
  pub capabilities : List Binding

-- a row of routing_profile_revisions, and one of active_routing_profiles
pub record Revision : Type 0 where
  pub profile_id : String
  pub revision : ℕ
  pub definition : ProfileDocument

pub record Active : Type 0 where
  pub profile_id : String
  pub revision : ℕ
  pub routing : Snapshot

pub record Store : Type 0 where
  pub profiles : List ProfileDocument
  -- the newest one first
  pub revisions : List Revision
  pub active : List Active

-- PersistenceConstraintError, the ValueError of a collision, KeyError, and the two RuntimeErrors
pub data StoreError : Type 0 where
  constraint conflict unknown_revision published never_published : StoreError

pub data StoreOutcome : Type 0 where
  done : StoreOutcome
  fails : StoreError → StoreOutcome

abbrev pub routing_snapshot : ProfileDocument → ℕ → Snapshot
routing_snapshot p revision = record {
  profile_id = p.id;
  profile_name = p.name;
  revision = revision;
  capabilities = p.capabilities;
}

abbrev pub has_profile : String → List ProfileDocument → Bool
has_profile id ps = any (λ (p : ProfileDocument). str_eq p.id id) ps

-- save_routing_profile_draft
abbrev pub put_profile : ProfileDocument → List ProfileDocument → List ProfileDocument
put_profile p [] = p ∷ []
put_profile p (q ∷ qs) =
    let rest = put_profile p qs in if str_eq q.id p.id then p ∷ qs else q ∷ rest

unfoldable pub save_draft : ProfileDocument → Store → Store
save_draft p s = record s { profiles = put_profile p s.profiles }

abbrev pub max : ℕ → ℕ → ℕ
max a b = if leb a b then b else a

-- `COALESCE(MAX(revision), 0)`
unfoldable pub max_revision : String → List Revision → ℕ
max_revision id [] = 0
max_revision id (r ∷ rs) =
    let rest = max_revision id rs in if str_eq r.profile_id id then max r.revision rest else rest

-- get_routing_profile_revision
unfoldable pub find_revision : String → ℕ → List Revision → Option ProfileDocument
find_revision id n [] = none
find_revision id n (r ∷ rs) =
    let rest = find_revision id n rs in
    if str_eq r.profile_id id && (r.revision == n) then some r.definition else rest

abbrev pub without_active : String → List Active → List Active
without_active id [] = []
without_active id (a ∷ rows) =
    let rest = without_active id rows in if str_eq a.profile_id id then rest else a ∷ rest

-- INSERT ... ON CONFLICT(profile_id) DO UPDATE
abbrev pub put_active : Active → List Active → List Active
put_active a rows = without_active a.profile_id rows ++ a ∷ []

-- some of the names is among the others
abbrev pub shares : List String → List String → Bool
shares xs ys = any (λ (x : String). member x ys) xs

-- the rest of the transaction of publish_routing_profile; a failure takes the insertion back
abbrev pub or_rollback : Store → Store × StoreOutcome → Store × StoreOutcome
or_rollback before (after, done) = (after, done)
or_rollback before (after, fails e) = (before, fails e)

module _ (casefold : String → String) where
  -- `requested`: the folded names that are not empty
  abbrev pub requested : List Binding → List String
  requested [] = []
  requested (b ∷ bs) =
      let rest = requested bs in
      if str_eq b.public_name "" then rest else casefold b.public_name ∷ rest

  abbrev pub folded_names : List Binding → List String
  folded_names [] = []
  folded_names (b ∷ bs) = casefold b.public_name ∷ folded_names bs

  -- _ensure_no_active_capability_collisions
  unfoldable pub collides : String → List String → List Active → Bool
  collides id names [] = false
  collides id names (a ∷ rows) =
      (not (str_eq a.profile_id id) && shares names (folded_names a.routing.capabilities))
      || collides id names rows

  -- _set_active_routing_profile
  unfoldable pub set_active_routing_profile : String → ℕ → Snapshot → Store → Store × StoreOutcome
  set_active_routing_profile id revision routing s =
      if collides id (requested routing.capabilities) s.active
      then (s, fails conflict)
      else if not (has_profile id s.profiles)
      then (s, fails constraint)
      else (
        record s {
          active =
              put_active
                (record {
                  profile_id = id;
                  revision = revision;
                  routing = record routing { revision = revision };
                })
                s.active;
        },
        done,
      )

  unfoldable pub publish_routing_profile : ProfileDocument → Snapshot → Store → Store × StoreOutcome
  publish_routing_profile p routing s =
      let n = suc (max_revision p.id s.revisions) in
      let row : Revision = record { profile_id = p.id; revision = n; definition = p } in
      if not (has_profile p.id s.profiles)
      then (s, fails constraint)
      else or_rollback s
          (set_active_routing_profile p.id n routing (record s { revisions = row ∷ s.revisions }))

  -- activate_routing_profile_revision
  unfoldable pub activate_revision : String → ℕ → Snapshot → Store → Store × StoreOutcome
  activate_revision id n routing s =
      if is_none (find_revision id n s.revisions)
      then (s, fails unknown_revision)
      else set_active_routing_profile id n routing s

-- deactivate_routing_profile
unfoldable pub deactivate : String → Store → Store
deactivate id s = record s { active = without_active id s.active }

abbrev pub has_revision : String → List Revision → Bool
has_revision id rs = any (λ (r : Revision). str_eq r.profile_id id) rs

abbrev pub is_active : String → List Active → Bool
is_active id rows = any (λ (a : Active). str_eq a.profile_id id) rows

abbrev pub without_profile : String → List ProfileDocument → List ProfileDocument
without_profile id [] = []
without_profile id (p ∷ ps) =
    let rest = without_profile id ps in if str_eq p.id id then rest else p ∷ rest

-- delete_routing_profile
unfoldable pub delete_profile : String → Store → Store × StoreOutcome
delete_profile id s =
    if is_active id s.active || has_revision id s.revisions
    then (s, fails published)
    else (record s { profiles = without_profile id s.profiles }, done)

-- discard_routing_profile_draft: the latest revision is the draft again
unfoldable pub discard_draft : String → Store → Store × StoreOutcome
discard_draft id s = elim (find_revision id (max_revision id s.revisions) s.revisions) [
  | none ↦ (s, fails never_published)
  | some p ↦ (save_draft p s, done)
]

abbrev pub rebind_ids : String → String → List String → List String
rebind_ids old new [] = []
rebind_ids old new (w ∷ ws) =
    let rest = rebind_ids old new ws in if str_eq w old then new ∷ rest else w ∷ rest

abbrev pub rebind_bindings : String → String → List Binding → List Binding
rebind_bindings old new [] = []
rebind_bindings old new (b ∷ bs) =
    record b { worker_ids = rebind_ids old new b.worker_ids } ∷ rebind_bindings old new bs

-- rebind_routing_profile_drafts
abbrev pub rebind_profiles : String → String → List ProfileDocument → List ProfileDocument
rebind_profiles old new [] = []
rebind_profiles old new (p ∷ ps) =
    record p { capabilities = rebind_bindings old new p.capabilities } ∷ rebind_profiles old new ps

unfoldable pub rebind_drafts : String → String → Store → Store
rebind_drafts old new s = record s { profiles = rebind_profiles old new s.profiles }

abbrev pub empty_store : Store
empty_store = record { profiles = []; revisions = []; active = [] }
