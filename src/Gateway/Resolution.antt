-- ===== src/Gateway/Resolution.antt =====
-- ResolvedRoute.resolve of backend/modeldeck/gateway/resolution.py, and active_route_records with
-- active_routes of backend/modeldeck/gateway/app.py, over the routing tables. What the validation of a
-- stored worker says is in its record; what identifies an execution and the state of tool calling are
-- left out.
pub mod Served
use model_deck.Base.{
  String, Bool, true, false, not, ◌&&◌, ◌||◌, Option, none, some, List, [], ◌∷◌, ◌++◌, is_none,
  if◌then◌else◌, str_eq,
}
use model_deck.Text.{member}
use model_deck.RoutingStore.{Binding, Active}

-- WorkerDefinition, once it is validated and has its profile
pub record Definition : Type 0 where
  pub id : String
  pub archived : Bool

-- a row of the workers, whose document may fail the validation
pub record WorkerRow : Type 0 where
  pub id : String
  pub definition : Option Definition
  pub archived_at : Bool

pub data RouteStatus : Type 0 where
  missing configured archived invalid_or_retired : RouteStatus

-- `by_id.get(id)`: of two rows with one identifier the last one counts
unfoldable pub row_by_id : String → List WorkerRow → Option WorkerRow
row_by_id id [] = none
row_by_id id (r ∷ rs) =
    let later = row_by_id id rs in
    if is_none later then (if str_eq r.id id then some r else none) else later

unfoldable pub status_of_row : String → Option WorkerRow → RouteStatus
status_of_row id none = missing
status_of_row id (some r) = elim r.definition [
  | none ↦ invalid_or_retired
  | some d ↦
      if not (str_eq d.id id)
      then invalid_or_retired
      else if r.archived_at || d.archived
      then archived
      else configured
]

abbrev pub is_configured : RouteStatus → Bool
is_configured configured = true
is_configured _ = false

pub record ResolvedRoute : Type 0 where
  pub public_name : String
  pub configured_workers : List (String × RouteStatus)
  -- the identifiers of the candidates' profiles
  pub candidates : List String

-- the loop of resolve
unfoldable pub resolve_all :
    List String → List WorkerRow → List (String × RouteStatus) × List String
resolve_all [] rows = ([], [])
resolve_all (id ∷ ids) rows =
    let status = status_of_row id (row_by_id id rows) in
    let (workers, candidates) = resolve_all ids rows in
    ((id, status) ∷ workers, if is_configured status then id ∷ candidates else candidates)

unfoldable pub resolve : String → List String → List WorkerRow → ResolvedRoute
resolve name ids rows =
    let (workers, candidates) = resolve_all ids rows in
    record { public_name = name; configured_workers = workers; candidates = candidates }

-- Which contracts are asked for: all, or some.
abbrev pub is_asked : Option (List String) → Binding → Bool
is_asked none b = true
is_asked (some contracts) b = member b.protocol_contract contracts

-- the loop over the capabilities of a snapshot
unfoldable pub capability_routes :
    Option (List String) → List WorkerRow → List Binding → List ResolvedRoute
capability_routes contracts rows [] = []
capability_routes contracts rows (b ∷ bs) =
    let rest = capability_routes contracts rows bs in
    if is_asked contracts b && not (str_eq b.public_name "")
    then resolve b.public_name b.worker_ids rows ∷ rest
    else rest

-- active_route_records
unfoldable pub active_route_records :
    Option (List String) → List WorkerRow → List Active → List ResolvedRoute
active_route_records contracts rows [] = []
active_route_records contracts rows (a ∷ active) =
    capability_routes contracts rows a.routing.capabilities
    ++ active_route_records contracts rows active

-- `active_routes().get(name)`: the dict has the last of the routes with a name
unfoldable pub active_route : String → List ResolvedRoute → Option ResolvedRoute
active_route name [] = none
active_route name (r ∷ rs) =
    let later = active_route name rs in
    if is_none later then (if str_eq r.public_name name then some r else none) else later
