-- ===== src/Supervisor.antt =====
-- ManagedWorker and WorkerSupervisor of backend/modeldeck/supervisor/service.py, with WorkerState and
-- LifecycleClass of backend/modeldeck/protocol.py. An operation is a function on the supervisor. What
-- the operating system, the worker's endpoints and the thermal policy answer during a start is its
-- argument. Operations are taken one at a time, as the source runs start and stop under the lock of their
-- worker; critical_stop_all has none, and Sections cuts a start in two for it. A process that ends by
-- itself is an operation of its own, `process_exits`, between two others.
pub mod Start
pub mod Keys
pub mod Unique
pub mod Admit
pub mod AtMostOne
pub mod Exclusive
pub mod Failure
pub mod Critical
pub mod Running
pub mod Sections
use model_deck.Base.{
  ℕ, suc, ◌+◌, ◌-◌, String, Bool, true, false, not, ◌&&◌, ◌||◌, Option, none, some, List, [], ◌∷◌,
  ◌++◌, map, length, any, ltb, ◌==◌, if◌then◌else◌, str_eq,
}
use model_deck.Thermal.Admission.{AdmissionAction, allow, allow_degraded}

pub data WorkerState : Type 0 where
  discovered stopped validating starting loading warming ready busy : WorkerState
  degraded stopping failed orphaned incompatible : WorkerState

pub data LifecycleClass : Type 0 where
  resident on_demand exclusive : LifecycleClass

-- `process`: None, or a process whose return code is not set, or set
pub data Process : Type 0 where
  no_process alive exited : Process

pub data WorkerError : Type 0 where
  port_in_use invalid_launch launch_failed identity_mismatch startup_failed : WorkerError
  exited_unexpectedly process_exited : WorkerError

-- A profile and its managed worker. The log session, the environment and the identity that a
-- running worker reports are left out. `process` is the handle that the supervisor keeps, `running` the
-- number of the worker's processes that the operating system runs, whether there is a handle or not.
pub record Worker : Type 0 where
  pub id : String
  pub port : ℕ
  pub lifecycle : LifecycleClass
  pub state : WorkerState
  pub process : Process
  pub running : ℕ
  pub started : Bool
  pub last_error : Option WorkerError

pub record Event : Type 0 where
  pub worker_id : String
  pub state : WorkerState

pub record Supervisor : Type 0 where
  -- the dictionary, in insertion order
  pub workers : List Worker
  -- `_events`, oldest first
  pub events : List Event
  -- `_event_history`, oldest first
  pub event_history : List Event

-- `maxsize` and `maxlen`
abbrev pub event_limit : ℕ
event_limit = 256

abbrev pub is_alive : Process → Bool
is_alive alive = true
is_alive _ = false

abbrev pub is_exclusive : LifecycleClass → Bool
is_exclusive exclusive = true
is_exclusive _ = false

unfoldable pub find : String → List Worker → Option Worker
find id [] = none
find id (w ∷ ws) = if str_eq w.id id then some w else find id ws

-- a change of the worker `id` in place
unfoldable pub modify : String → (Worker → Worker) → List Worker → List Worker
modify id f ws = map (λ w. if str_eq w.id id then f w else w) ws

abbrev drop_oldest : List Event → List Event
drop_oldest [] = []
drop_oldest (e ∷ es) = es

-- putting into a full queue or deque drops its oldest entry first
unfoldable pub push : List Event → Event → List Event
push es e = (if ltb (length es) event_limit then es else drop_oldest es) ++ e ∷ []

-- _transition
unfoldable pub transition : String → WorkerState → Supervisor → Supervisor
transition id state s =
    let event : Event = record { worker_id = id; state = state } in
    record {
      workers = modify id (λ w. record w { state = state }) s.workers;
      events = push s.events event;
      event_history = push s.event_history event;
    }

-- changes of a worker that make no event
unfoldable pub change : String → (Worker → Worker) → Supervisor → Supervisor
change id f s = record s { workers = modify id f s.workers }

-- `worker.last_error = ...` and then _transition
unfoldable pub fail_as : String → WorkerState → WorkerError → Supervisor → Supervisor
fail_as id state error s =
    transition id state (change id (λ w. record w { last_error = some error }) s)

-- _terminate: the process, if it was alive, has ended and has a return code afterwards
abbrev pub ended : Process → Process
ended alive = exited
ended p = p

abbrev pub left_running : Process → ℕ → ℕ
left_running alive n = n - 1
left_running _ n = n

abbrev pub end_process : Worker → Worker
end_process w = record w { process = ended w.process; running = left_running w.process w.running }

-- create_subprocess_exec
abbrev pub create_process : Worker → Worker
create_process w = record w {
  process = alive;
  running = w.running + 1;
  started = true;
  last_error = none;
}

unfoldable pub terminate : String → Supervisor → Supervisor
terminate id s = change id end_process s

abbrev is_final : WorkerState → Bool
is_final stopped = true
is_final failed = true
is_final _ = false

-- `worker.state not in {STOPPING, STOPPED, FAILED}`
abbrev is_unexpected : WorkerState → Bool
is_unexpected stopping = false
is_unexpected stopped = false
is_unexpected failed = false
is_unexpected _ = true

-- what _refresh_exits does to a worker
unfoldable pub refresh_exit : Worker → Worker
refresh_exit w = elim w.process [
  | exited ↦
      if is_final w.state then w else record w { state = failed; last_error = some process_exited }
  | _ ↦ w
]

-- _refresh_exits
unfoldable pub refresh_exits : Supervisor → Supervisor
refresh_exits s = record s { workers = map refresh_exit s.workers }

-- the end of _watch_exit, for a worker whose process has ended
unfoldable pub watch_exit : String → Supervisor → Supervisor
watch_exit id s = elim (find id s.workers) [
  | none ↦ s
  | some w ↦ if is_unexpected w.state then fail_as id failed exited_unexpectedly s else s
]

-- a process ends by itself, and its watcher runs
unfoldable pub process_exits : String → Supervisor → Supervisor
process_exits id s = watch_exit id (terminate id s)

-- stop of a worker that is there. Its process has ended before the handle is cleared: it has ended by
-- itself after the request to shut down, or by _terminate.
abbrev forget_process : Worker → Worker
forget_process w = record w { process = no_process }

unfoldable pub stop_worker : String → Worker → Supervisor → Supervisor
stop_worker id w s =
    if is_alive w.process
    then transition id stopped (
        change id (λ v. record v { process = no_process; started = false })
          (terminate id (transition id stopping s)))
    else transition id stopped (change id forget_process s)

-- stop; an unknown worker is a KeyError, and nothing changes
unfoldable pub stop : String → Supervisor → Supervisor
unfolding stop_worker
stop id s = elim (find id s.workers) [ none ↦ s | some w ↦ stop_worker id w s ]

unfoldable pub stop_ids : List String → Supervisor → Supervisor
stop_ids [] s = s
stop_ids (id ∷ ids) s = stop_ids ids (stop id s)

abbrev id_of : Worker → String
id_of w = w.id

-- stop_all
unfoldable pub stop_all : Supervisor → Supervisor
stop_all s = stop_ids (map id_of s.workers) s

-- the loop of critical_stop_all over the workers that it started with
unfoldable pub critical_stop : List Worker → Supervisor → Supervisor
critical_stop [] s = s
critical_stop (w ∷ ws) s = critical_stop ws (
    if is_alive w.process
    then transition w.id stopped (
        change w.id (λ v. record v { process = no_process; started = false })
          (terminate w.id (transition w.id stopping s)))
    else s)

unfoldable pub critical_stop_all : Supervisor → Supervisor
unfolding critical_stop
critical_stop_all s = critical_stop s.workers s

pub data RegisterError : Type 0 where
  already_exists port_assigned : RegisterError

-- register_profile
unfoldable pub register_profile :
    String → ℕ → LifecycleClass → Supervisor → Supervisor × Option RegisterError
register_profile id port lifecycle s =
    if any (λ w. str_eq w.id id) s.workers
    then (s, some already_exists)
    else if any (λ w. w.port == port) s.workers
    then (s, some port_assigned)
    else (
      record s {
        workers =
            s.workers
            ++ record {
              id = id;
              port = port;
              lifecycle = lifecycle;
              state = stopped;
              process = no_process;
              running = 0;
              started = false;
              last_error = none;
            }
              ∷ [];
      },
      none,
    )

pub data RemoveError : Type 0 where
  unknown_worker still_running in_transition : RemoveError

unfoldable pub without : String → List Worker → List Worker
without id [] = []
without id (w ∷ ws) = let rest = without id ws in if str_eq w.id id then rest else w ∷ rest

unfoldable pub removed : String → Worker → Supervisor → Supervisor × Option RemoveError
unfolding without
removed id w s =
    if is_alive w.process
    then (s, some still_running)
    else if not (is_final w.state)
    then (s, some in_transition)
    else (record s { workers = without id s.workers }, none)

-- remove_profile; the exits are refreshed once the worker is found
unfoldable pub remove_profile : String → Supervisor → Supervisor × Option RemoveError
unfolding removed
remove_profile id s =
    let refreshed = refresh_exits s in
    elim (find id s.workers) [
      | none ↦ (s, some unknown_worker)
      | some w ↦ removed id (refresh_exit w) refreshed
    ]
