-- ===== src/Lib.antt =====
-- ModelDeck: a local supervisor of AI model workers, with a gateway in front of them.
--
-- The backend has these parts, with their files under backend/modeldeck. The thermal policy
-- (thermal.py) turns telemetry into one of six states and decides on every piece of work by it.
-- The supervisor (supervisor/service.py) starts and stops worker processes, asks the thermal
-- policy before a start, and is told by it to stop all of them in the critical state. A routing
-- profile (domain.py) publishes capabilities under protocol contracts (capabilities.py,
-- protocol_contracts.py), each served by workers, and every request to an application passes the
-- boundary of security.py first. The gateway (gateway/app.py) takes the requests of applications,
-- claims capacity for each by the published thermal status, and passes it on to a worker that serves
-- the route; a worker such as workers/autoregressive_worker.py runs one model.
--
-- Base, Float and Text hold what the parts share: lists over the native numbers; the numbers of the
-- source's `float`, as exact thousandths with both infinities and NaN, whose comparisons behave as
-- Python's; and the string operations that the source calls.
--
-- Thermal/ models backend/modeldeck/thermal.py:
--   Thermal/Config     ThermalState, ThermalPolicyConfig and __post_init__, capacity_for_state
--   Thermal/Machine    ThermalStateMachine: update, refresh and their helpers, with `self` as the
--                      record Machine that goes in and out
--   Thermal/Admission  classify_workload and ThermalAdmissionController
--   Thermal/Telemetry  select_control_reading
--   Thermal/Guard      ThermalGuard and read_temperatures
--   Thermal/Status     the published status and activity files with their readers
--   Thermal/Manager    ThermalPolicyManager: poll_once and status
-- Supervisor models backend/modeldeck/supervisor/service.py, with the whole supervisor as the record Supervisor:
--   Supervisor         ManagedWorker, _transition, stop, stop_all, critical_stop_all, register_profile,
--                      remove_profile, the handling of exits
--   Supervisor/Start   start and restart, and sequences of operations
--   Supervisor/Sections   start in two parts, around a critical stop
--   Supervisor/Running    the processes that run, against the handles
-- Capabilities models backend/modeldeck/capabilities.py and backend/modeldeck/protocol_contracts.py:
--   Capabilities/Contracts, Tables   PROTOCOL_CONTRACTS, CAPABILITY_DEFINITIONS and the other tables
--   Capabilities/Matching            capabilities_for_worker and what it calls
--   Capabilities/Evidence            capability_evidence_status
-- Routing models validate_routing_profile of backend/modeldeck/domain.py, and Security the checks of
-- backend/modeldeck/security.py.
-- Gateway models backend/modeldeck/gateway/app.py, with what requests share in `app.state` as the
-- record Gateway:
--   Gateway            the shared state and the critical sections in which a request changes it
--   Gateway/Claim      claim_thermal_capacity, round by round, and thermal_queue_timeout
--   Gateway/Proxy      route_candidates, worker_health, proxy_request, release_gateway_claims
--   Gateway/Binary     proxy_binary_request
--   Gateway/Jobs       monitor_thermal_job
--   Gateway/System     requests side by side, whose critical sections come in any order
--   Gateway/Resolution ResolvedRoute.resolve of backend/modeldeck/gateway/resolution.py, and
--                      active_route_records and active_routes
-- Autoregressive models backend/modeldeck/workers/autoregressive_worker.py:
--   Autoregressive/PrefixCache   the stable prefix of prepare_prompt, _initial_forward,
--                                clear_prefix_cache
--   Autoregressive/BodyLimit     RequestBodyLimitMiddleware
--   Autoregressive/Tools         _qwen_chat_messages, _qwen_tool_schemas, _openai_tool_call,
--                                _validate_tool_request, _enforce_tool_choice
--   Autoregressive/Generation    trace and validate_token_budget, over the prefix cache
--   Autoregressive/Service       the handlers around the engine: the lock of the generation and the
--                                cancellations
-- RoutingStore models the routing tables of CompatibilityStore in
-- backend/modeldeck/compatibility/store.py, with the uniqueness of names and routing_snapshot of
-- backend/modeldeck/domain.py:
--   RoutingStore            the tables as the record Store, and each operation of the store on them
--   RoutingStore/Handlers   the handlers of backend/modeldeck/v2_api.py that change routing profiles
-- SceneChat models backend/modeldeck/workers/scenechat_worker.py:
--   SceneChat          the handlers that claim, use and release the slot, with `app.state` as App
--   SceneChat/Slot     requests in every interleaving
--   SceneChat/Image    _decode_image_with_metadata
-- Setup models run_setup of backend/modeldeck/v2_api.py with the handlers that cancel, retry and
-- publish a capability setup, and reconcile_setups.
-- The modules below each of these hold the proofs, and Examples the tests and runs.
--
-- Rounding of floats, messages, wall-clock strings and logging are left out. A clock's value and a
-- file's parsed contents are arguments. The operations of the supervisor are taken one at a time, since
-- start and stop run under locks in the source. critical_stop_all does not: a start is cut in two
-- where it waits for the check of the port and the installation, and the critical stop may come
-- there; the other places of a start where it may come are not modelled. A process that ends on its
-- own is an operation between two others. A worker has the handle that the supervisor keeps of its
-- process and, apart from it, the number of its processes that run: create_subprocess_exec raises it,
-- the end of a process lowers it, and clearing the handle leaves it as it is. What the operating system and a starting worker answer is
-- an argument of a start. No definition needs fuel.
--
-- A request of the gateway is the sequence of its critical sections. The source holds a lock for the
-- test and the change of each, so a section is one step, and a section whose test fails does not
-- happen in System (the request waits there): capacity is taken in a section that finds the count which
-- the round has compared with its limit. What the request finds in the shared state and what
-- workers answer are arguments of its function, in the record Environment, so the theorems hold for
-- each of them. Exceptions that no `except` of the source names are not among the ways in which
-- sending ends.
--
-- The language model of the worker is the argument LanguageModel, with its tensors. Its caches are
-- handles into a memory, which the engine carries, and a call of the model changes the cache that it
-- gets in place. What the worker relies on is the record IsIncremental: a cache stands for the tokens
-- from which it was computed, and a call leaves alone the caches that share no storage with its own.
-- The attention mask is its length. Each call of the model may succeed, exhaust the memory or raise, and the request may be
-- cancelled wherever the source looks, by the record Weather.
--
-- Generation is the loop of trace over the same argument, with the record Decoder for the sampler and
-- the tokeniser: it goes over the steps that are left, min(max_tokens, maximum_new_tokens) of them,
-- so that no fuel is needed. The reference against which it is held calls the model for the whole
-- text at each step. In Service and SceneChat an end of a request is a step of its own, and may come
-- at any time after its start.
--
-- A table of the store is the list of its rows, and a transaction that raises leaves it as it was. The
-- time of an activation is its place in the list, as it is for a clock that gives each activation
-- a later time. The legacy table that only repeats the latest activation is left out. str.casefold is an argument: the database, the validators and the gateway only compare
-- its results.
--
-- A setup is one document that several handlers read, change and save as a whole. Each handler is cut
-- at its `await`s, where others may come in between, and its copy of the document waits with it.
--
-- Not modelled: the records by which the gateway describes its routes, its WebSocket conversation and
-- the forwarding of streams, the registry, the other tables of the compatibility store, the other
-- routes of the control API, the chat messages of the SceneChat worker, the other worker
-- processes around third-party model runtimes, and the web console.
pub mod Base
pub mod Float
pub mod Text
pub mod Thermal
pub mod Supervisor
pub mod Capabilities
pub mod Routing
pub mod Security
pub mod Gateway
pub mod Autoregressive
pub mod RoutingStore
pub mod SceneChat
pub mod Setup
pub mod Examples
