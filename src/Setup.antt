-- ===== src/Setup.antt =====
-- The setup of a capability in backend/modeldeck/v2_api.py: run_setup with transition_setup and
-- cancel_setup_worker, and the handlers that cancel, retry and publish a setup, with
-- reconcile_setups. A handler stops at each `await` and goes on later with its own copy of the
-- document, which it saves as a whole. The setup lock and other setups only decide when a run begins.
pub mod Sound
pub mod Cancellation
use model_deck.Base.{
  ℕ, zero, suc, String, Bool, true, false, not, ◌&&◌, ◌||◌, Option, none, some, List, [], ◌∷◌,
  is_none, if◌then◌else◌,
}

pub data SetupState : Type 0 where
  queued applying_policy creating_worker starting_worker : SetupState
  waiting_for_thermal_capacity verifying_identity qualifying awaiting_publication : SetupState
  publishing verifying_route succeeded failed cancelled : SetupState

pub data ErrorCode : Type 0 where
  setup_failed publication_not_completed publication_interrupted : ErrorCode
  routing_conflict route_verification_failed : ErrorCode

-- The document of a setup; `qualification` has the `ok` of the test that it names, and `publication`
-- the revision.
pub record Setup : Type 0 where
  pub state : SetupState
  pub cancel_requested : Bool
  pub worker_id : Option String
  pub qualification : Option Bool
  pub publication : Option ℕ
  pub error : Option ErrorCode

-- The `await` at which run_setup stands: the calls of create_worker, of the supervisor's start, of
-- qualify_worker_capability and of the supervisor's stop, and the two pauses.
pub data Position : Type 0 where
  creation start qualification_call stop start_pause qualification_pause : Position

pub record Run : Type 0 where
  pub copy : Setup
  pub position : Position

-- The stored document and its events, the run, the copies of cancel_capability_setup while it stops
-- the worker, and those of publish_capability_setup while it verifies the route.
pub record Manager : Type 0 where
  pub stored : Setup
  pub events : List SetupState
  pub run : Option Run
  pub cancelling : List Setup
  pub verifying : List Setup

-- save_capability_setup
abbrev pub save : Setup → Manager → Manager
save d m = record m { stored = d }

abbrev pub as_state : Setup → SetupState → Setup
as_state d state = record d { state = state }

-- transition_setup
unfoldable pub transition_setup : Setup → SetupState → Manager → Manager
transition_setup d state m = record m { stored = as_state d state; events = state ∷ m.events }

abbrev pub wait_at : Position → Setup → Manager → Manager
wait_at p d m = record m { run = some (record { copy = d; position = p }) }

-- run_setup returns
abbrev pub ends : Manager → Manager
ends m = record m { run = none }

-- cancel_setup_worker; the flag says that the worker is neither stopped nor failed
abbrev pub must_stop : Bool → Setup → Bool
must_stop is_up d = not (is_none d.worker_id) && is_up

unfoldable pub cancel_run : Bool → Setup → Manager → Manager
cancel_run is_up d m =
    if must_stop is_up d then wait_at stop d m else ends (transition_setup d cancelled m)

-- `except Exception`
unfoldable pub fail_run : Manager → Manager
fail_run m = ends (transition_setup (record m.stored { error = some setup_failed }) failed m)

-- the loop around the start
unfoldable pub start_worker : Setup → Manager → Manager
start_worker d m = wait_at start (as_state d starting_worker) (transition_setup d starting_worker m)

unfoldable pub with_worker : Bool → Setup → Manager → Manager
with_worker is_up d m = if d.cancel_requested then cancel_run is_up d m else start_worker d m

abbrev pub may_run : SetupState → Bool
may_run queued = true
may_run waiting_for_thermal_capacity = true
may_run _ = false

-- from the policy on; the flag says that the policy could be stored
unfoldable pub apply_policy : Bool → Bool → Setup → Manager → Manager
apply_policy is_up stores d m =
    let d1 = as_state d applying_policy in
    let m1 = transition_setup d applying_policy m in
    if not stores
    then fail_run m1
    else if is_none d.worker_id
    then wait_at creation (as_state d1 creating_worker) (transition_setup d1 creating_worker m1)
    else with_worker is_up d1 m1

-- run_setup up to its first `await`
unfoldable pub begin_run : Bool → Bool → Manager → Manager
begin_run is_up stores m =
    if not (is_none m.run) || not (may_run m.stored.state)
    then m
    else if m.stored.cancel_requested
    then cancel_run is_up m.stored m
    else apply_policy is_up stores m.stored m

-- How a call ends: it returns (create_worker with an identifier, the qualification with `ok`), it
-- raises ThermalAdmissionError, or another exception.
pub data CallEnd : Type 0 where
  returns : String → Bool → CallEnd
  thermal raises : CallEnd

-- the worker has been started
unfoldable pub verify_identity : Setup → Manager → Manager
verify_identity d m =
    let d1 = as_state d verifying_identity in
    wait_at qualification_call (as_state d1 qualifying)
      (transition_setup d1 qualifying (save d1 (transition_setup d verifying_identity m)))

unfoldable pub pause_at : Position → Setup → Manager → Manager
pause_at p d m =
    wait_at p (as_state d waiting_for_thermal_capacity)
      (transition_setup d waiting_for_thermal_capacity m)

-- the qualification has returned
unfoldable pub keep_qualification : Bool → Setup → Manager → Manager
keep_qualification ok d m =
    let d1 = record d { qualification = some ok } in
    let m1 = save d1 m in
    if ok then ends (transition_setup d1 awaiting_publication m1) else fail_run m1

-- run_setup from one `await` to the next
unfoldable pub go_on : Bool → CallEnd → Position → Setup → Manager → Manager
go_on is_up (returns id ok) creation d m =
    let d1 = record d { worker_id = some id } in with_worker is_up d1 (save d1 m)
go_on is_up (returns id ok) start d m = verify_identity d m
go_on is_up thermal start d m = pause_at start_pause d m
go_on is_up (returns id ok) qualification_call d m = keep_qualification ok d m
go_on is_up thermal qualification_call d m = pause_at qualification_pause d m
go_on is_up (returns id ok) stop d m = ends (transition_setup d cancelled m)
go_on is_up (returns id ok) start_pause d m = with_worker is_up m.stored m
go_on is_up (returns id ok) qualification_pause d m =
    if m.stored.cancel_requested
    then cancel_run is_up m.stored m
    else wait_at qualification_call (as_state m.stored qualifying)
        (transition_setup m.stored qualifying m)
go_on is_up _ p d m = fail_run m

unfoldable pub proceed : Bool → CallEnd → Manager → Manager
proceed is_up end m = elim m.run [ none ↦ m | some r ↦ go_on is_up end r.position r.copy m ]

abbrev pub is_published : SetupState → Bool
is_published publishing = true
is_published verifying_route = true
is_published succeeded = true
is_published _ = false

abbrev pub is_ended : SetupState → Bool
is_ended cancelled = true
is_ended failed = true
is_ended awaiting_publication = true
is_ended _ = false

-- cancel_capability_setup
unfoldable pub cancel_setup : Bool → Manager → Manager
cancel_setup is_up m =
    if is_published m.stored.state
    then m
    else if is_ended m.stored.state
    then if must_stop is_up m.stored
      then record m { cancelling = m.stored ∷ m.cancelling }
      else transition_setup m.stored cancelled m
    else save (record m.stored { cancel_requested = true }) m

abbrev pub entry : ℕ → List Setup → Option Setup
entry n [] = none
entry zero (d ∷ ds) = some d
entry (suc n) (d ∷ ds) = entry n ds

abbrev pub without : ℕ → List Setup → List Setup
without n [] = []
without zero (d ∷ ds) = ds
without (suc n) (d ∷ ds) = d ∷ without n ds

-- the supervisor's stop in it returns, or raises
unfoldable pub cancel_stopped : ℕ → Bool → Manager → Manager
cancel_stopped n returned m = elim (entry n m.cancelling) [
  | none ↦ m
  | some d ↦
      let rest = record m { cancelling = without n m.cancelling } in
      if returned then transition_setup d cancelled rest else rest
]

abbrev pub may_retry : SetupState → Bool
may_retry failed = true
may_retry cancelled = true
may_retry _ = false

-- retry_capability_setup; the flag says that the fingerprint of the preview is the same
unfoldable pub retry_setup : Bool → Manager → Manager
retry_setup same m =
    if may_retry m.stored.state && same
    then save (record m.stored { state = queued; cancel_requested = false; error = none }) m
    else m

abbrev pub is_awaiting : SetupState → Bool
is_awaiting awaiting_publication = true
is_awaiting _ = false

-- publish_capability_setup: the flag says that the reviewed preview is valid and not stale, and the
-- revision is none in a routing conflict
unfoldable pub publish_setup : Bool → Option ℕ → Manager → Manager
publish_setup fresh revision m =
    if not (is_awaiting m.stored.state && fresh)
    then m
    else let d = as_state (record m.stored { error = none }) publishing in
      let m1 = transition_setup (record m.stored { error = none }) publishing m in
      elim revision [
        | none ↦
            transition_setup (record d { error = some routing_conflict }) awaiting_publication m1
        | some r ↦
            let d1 = record d { publication = some r } in
            let m2 = transition_setup d1 verifying_route m1 in
            record m2 { verifying = as_state d1 verifying_route ∷ m2.verifying }
      ]

-- How the smoke test of the route ends: it passes, or raises HTTPException or another exception.
pub data Verification : Type 0 where
  passes http_error breaks : Verification

unfoldable pub route_verified : ℕ → Verification → Manager → Manager
route_verified n verification m = elim (entry n m.verifying) [
  | none ↦ m
  | some d ↦
      let rest = record m { verifying = without n m.verifying } in
      elim verification [
        | passes ↦ transition_setup d succeeded rest
        | http_error ↦
            transition_setup (record d { error = some route_verification_failed }) failed rest
        | breaks ↦ rest
      ]
]

abbrev pub reconciled : Bool → SetupState → Option (SetupState × Option ErrorCode)
reconciled has_revision queued = some (queued, none)
reconciled has_revision applying_policy = some (queued, none)
reconciled has_revision creating_worker = some (queued, none)
reconciled has_revision starting_worker = some (queued, none)
reconciled has_revision verifying_identity = some (queued, none)
reconciled has_revision qualifying = some (queued, none)
reconciled has_revision waiting_for_thermal_capacity = some (queued, none)
reconciled false publishing = some (awaiting_publication, some publication_not_completed)
reconciled true publishing = some (failed, some publication_interrupted)
reconciled has_revision verifying_route = some (failed, some publication_interrupted)
reconciled has_revision _ = none

abbrev pub or_old : Option ErrorCode → Option ErrorCode → Option ErrorCode
or_old none old = old
or_old (some c) old = some c

-- The service ends with its tasks and starts again: reconcile_setups. The flag says that the guided
-- profile has a revision.
unfoldable pub restart : Bool → Manager → Manager
restart has_revision m =
    let idle = record m { run = none; cancelling = []; verifying = [] } in
    elim (reconciled has_revision m.stored.state) [
      | none ↦ idle
      | some (state, code) ↦
          transition_setup (record m.stored { error = or_old code m.stored.error }) state idle
    ]

-- What happens to a setup.
pub data Happening : Type 0 where
  begins : Bool → Bool → Happening
  proceeds : Bool → CallEnd → Happening
  cancels : Bool → Happening
  cancel_stops : ℕ → Bool → Happening
  retries : Bool → Happening
  publishes : Bool → Option ℕ → Happening
  verifies : ℕ → Verification → Happening
  restarts : Bool → Happening

unfoldable pub happen : Happening → Manager → Manager
happen (begins is_up stores) m = begin_run is_up stores m
happen (proceeds is_up end) m = proceed is_up end m
happen (cancels is_up) m = cancel_setup is_up m
happen (cancel_stops n returned) m = cancel_stopped n returned m
happen (retries same) m = retry_setup same m
happen (publishes fresh revision) m = publish_setup fresh revision m
happen (verifies n verification) m = route_verified n verification m
happen (restarts has_revision) m = restart has_revision m

unfoldable pub happen_all : List Happening → Manager → Manager
happen_all [] m = m
happen_all (h ∷ hs) m = happen_all hs (happen h m)

-- the document that create_capability_setup stores
abbrev pub new_manager : Manager
new_manager = record {
  stored = record {
    state = queued;
    cancel_requested = false;
    worker_id = none;
    qualification = none;
    publication = none;
    error = none;
  };
  events = [];
  run = none;
  cancelling = [];
  verifying = [];
}
