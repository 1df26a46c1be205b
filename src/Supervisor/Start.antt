-- ===== src/Supervisor/Start.antt =====
-- start and restart of backend/modeldeck/supervisor/service.py, and sequences of all operations.
use model_deck.Base.{
  ℕ, String, Bool, not, ◌&&◌, Option, none, some, List, [], ◌∷◌, if◌then◌else◌, str_eq,
}
use model_deck.Thermal.Admission.{AdmissionAction, allow, allow_degraded}
use model_deck.Supervisor.{
  create_process, LifecycleClass, validating, starting, loading, warming, ready, failed,
  incompatible, WorkerError, port_in_use, invalid_launch, launch_failed, identity_mismatch,
  startup_failed, Worker, Supervisor, is_alive, is_exclusive, find, transition, change, fail_as,
  refresh_exits, process_exits, stop, stop_ids, stop_all, critical_stop_all, register_profile,
  remove_profile,
}

-- How a started process comes up: it fails before or in its load, its identity is refused, its
-- warmup fails, or it is ready.
pub data Startup : Type 0 where
  load_error identity_error warmup_error is_ready : Startup

-- What a start is answered: the thermal decision (none without a manager), whether the port is free,
-- whether a stale endpoint could be reclaimed, whether the launch is valid, whether the process
-- could be created, and how it comes up.
pub record StartAnswers : Type 0 where
  pub decision : Option AdmissionAction
  pub port_free : Bool
  pub reclaimed : Bool
  pub launch_valid : Bool
  pub spawned : Bool
  pub startup : Startup

pub data StartResult : Type 0 where
  snapshot : StartResult
  thermal_refusal : AdmissionAction → StartResult
  runtime_error : WorkerError → StartResult
  no_such_worker : StartResult

-- `decision.action not in {ALLOW, ALLOW_DEGRADED}`
abbrev pub refused : Option AdmissionAction → Option AdmissionAction
refused none = none
refused (some allow) = none
refused (some allow_degraded) = none
refused (some action) = some action

-- the exclusive workers to stop before another one starts
unfoldable pub rivals : String → List Worker → List String
rivals id [] = []
rivals id (w ∷ ws) =
    let rest = rivals id ws in
    if not (str_eq w.id id) && is_exclusive w.lifecycle && is_alive w.process
    then w.id ∷ rest
    else rest

-- the `try` block around the startup, for a process that has been created
unfoldable pub come_up : Startup → String → Supervisor → Supervisor × StartResult
come_up load_error id s =
    (process_exits id (fail_as id failed startup_failed s), runtime_error startup_failed)
come_up identity_error id s = (
  process_exits id (fail_as id incompatible identity_mismatch s),
  runtime_error identity_mismatch,
)
come_up warmup_error id s = (
  process_exits id (fail_as id failed startup_failed (transition id warming s)),
  runtime_error startup_failed,
)
come_up is_ready id s = (transition id ready (transition id warming s), snapshot)

-- from the validated launch on
unfoldable pub launch : StartAnswers → String → Supervisor → Supervisor × StartResult
unfolding come_up
launch a id s =
    let starting_up = transition id starting s in
    let created = change id create_process starting_up in
    if not a.spawned
    then (fail_as id failed launch_failed starting_up, runtime_error launch_failed)
    else come_up a.startup id (transition id loading created)

-- from the transition to VALIDATING on
unfoldable pub validate : StartAnswers → String → Supervisor → Supervisor × StartResult
unfolding launch
validate a id s =
    let checked = transition id validating s in
    if not a.port_free && not a.reclaimed
    then (fail_as id failed port_in_use checked, runtime_error port_in_use)
    else if not a.launch_valid
    then (fail_as id failed invalid_launch checked, runtime_error invalid_launch)
    else launch a id checked

unfoldable pub admitted : StartAnswers → String → Worker → Supervisor → Supervisor × StartResult
unfolding validate
admitted a id w s =
    validate a id (if is_exclusive w.lifecycle then stop_ids (rivals id s.workers) s else s)

unfoldable pub start_worker : StartAnswers → String → Worker → Supervisor → Supervisor × StartResult
unfolding admitted
start_worker a id w s = if is_alive w.process then (s, snapshot) else elim (refused a.decision) [
  | some action ↦ (s, thermal_refusal action)
  | none ↦ admitted a id w s
]

-- start. A failure ends the process, whose watcher then runs.
unfoldable pub start : StartAnswers → String → Supervisor → Supervisor × StartResult
unfolding start_worker
start a id s = elim (find id s.workers) [
  | none ↦ (s, no_such_worker)
  | some w ↦ start_worker a id w s
]

-- restart
unfoldable pub restart : StartAnswers → String → Supervisor → Supervisor × StartResult
restart a id s = start a id (stop id s)

-- The operations in the order in which they happen.
pub data Op : Type 0 where
  register : String → ℕ → LifecycleClass → Op
  remove exits stops : String → Op
  starts restarts : StartAnswers → String → Op
  list_workers stops_all critical_stops_all : Op

unfoldable pub perform : Op → Supervisor → Supervisor
perform (register id port lifecycle) s = (register_profile id port lifecycle s).0
perform (remove id) s = (remove_profile id s).0
perform (exits id) s = process_exits id s
perform (stops id) s = stop id s
perform (starts a id) s = (start a id s).0
perform (restarts a id) s = (restart a id s).0
perform list_workers s = refresh_exits s
perform stops_all s = stop_all s
perform critical_stops_all s = critical_stop_all s

unfoldable pub perform_all : List Op → Supervisor → Supervisor
perform_all [] s = s
perform_all (op ∷ ops) s = perform_all ops (perform op s)

unfoldable pub no_workers : Supervisor
no_workers = record { workers = []; events = []; event_history = [] }
