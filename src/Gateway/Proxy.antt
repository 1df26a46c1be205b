-- ===== src/Gateway/Proxy.antt =====
-- proxy_request of backend/modeldeck/gateway/app.py, with route_candidates and worker_health. The
-- function gives the critical sections of the request in their order, and its answer. What other
-- processes answer is its argument, and so is what the request finds in the shared state. Metrics,
-- headers and the text of the payload are left out.
use model_deck.Base.{
  ℕ, String, Bool, true, false, not, ◌&&◌, Option, none, some, List, [], ◌∷◌, ◌++◌, any,
  if◌then◌else◌, str_eq,
}
use model_deck.Float.{Float}
use model_deck.Thermal.Config.{ThermalPolicyConfig}
use model_deck.Thermal.Admission.{AdmissionDecision, WorkloadRequest, classify_workload}
use model_deck.Thermal.Status.{Status}
use model_deck.Gateway.{Action, release_capacity, retain_job, claim_request, release_request}
use model_deck.Gateway.Claim.{Verdict, granted, refused, waiting, Round, claim_thermal_capacity}

pub record Profile : Type 0 where
  pub id : String
  pub model_id : String
  pub vision_language : Bool

abbrev serves_model : String → Profile → Bool
serves_model name p = str_eq p.model_id name && p.vision_language

-- `routes[name]`
abbrev route_named : String → List (String × List Profile) → Option (List Profile)
route_named name [] = none
route_named name ((n, ps) ∷ routes) = if str_eq name n then some ps else route_named name routes

abbrev route_serving : String → List (String × List Profile) → Option (List Profile)
route_serving name [] = none
route_serving name ((n, ps) ∷ routes) =
    if any (serves_model name) ps then some ps else route_serving name routes

-- route_candidates
unfoldable pub route_candidates : List (String × List Profile) → String → Option (List Profile)
route_candidates routes name = elim (route_named name routes) [
  | some ps ↦ some ps
  | none ↦ route_serving name routes
]

-- `health` of a worker's answer that is a mapping
pub record Health : Type 0 where
  pub worker_id : Option String
  pub ready : Bool
  pub busy : Bool

-- The answer of /health: none at all, one that is no mapping, or a mapping with the success of its
-- status code.
pub data HealthAnswer : Type 0 where
  no_answer no_mapping : HealthAnswer
  mapping : Bool → Health → HealthAnswer

abbrev other_worker : Option String → String → Bool
other_worker none id = false
other_worker (some w) id = not (str_eq w id)

-- worker_health: `busy` of the health that it returns, none for no health, and whether it is ready
unfoldable pub worker_health : HealthAnswer → Profile → Option Bool × Bool
worker_health no_answer p = (none, false)
worker_health no_mapping p = (some false, false)
worker_health (mapping success h) p =
    if other_worker h.worker_id p.id
    then (some h.busy, false)
    else (some h.busy, success && h.ready)

-- What the loop over the candidates finds: a ready one, or that none is, with the fact that all of
-- them are busy.
pub data Selection : Type 0 where
  selected : Profile → Selection
  nobody : Bool → Selection

abbrev is_busy : Option Bool → Bool
is_busy none = false
is_busy (some b) = b

-- the loop, with the conjunction over the health results so far
unfoldable pub select_ready : (Profile → HealthAnswer) → Bool → List Profile → Selection
select_ready health all_busy [] = nobody all_busy
select_ready health all_busy (p ∷ ps) =
    let (busy, ready) = worker_health (health p) p in
    let rest = select_ready health (all_busy && is_busy busy) ps in
    if ready then selected p else rest

-- A JSON payload of a worker: `job_id` if it is a mapping with a true one, and the result of
-- trace_token_metadata_error.
pub record Payload : Type 0 where
  pub job_id : Option String
  pub metadata_error : Bool

-- `response`: its success, whether its body could be read, and its payload, if that is JSON
pub record Response : Type 0 where
  pub is_success : Bool
  pub readable : Bool
  pub payload : Option Payload

-- How sending the request to the worker ends.
pub data Sending : Type 0 where
  timed_out disconnected cancelled failed : Sending
  responded : Response → Sending

pub record Environment : Type 0 where
  pub routes : List (String × List Profile)
  -- the policy, what claim_thermal_capacity finds first, and its rounds
  pub policy : ThermalPolicyConfig
  pub status : Status
  pub now : Float
  pub rounds : List Round
  -- the task is cancelled while it asks the candidates for their health
  pub cancelled_early : Bool
  pub health : Profile → HealthAnswer
  -- claim_active_request finds the identifier free
  pub identifier_free : Bool
  pub sending : Sending

pub record Query : Type 0 where
  -- the number of the request, and its identifier
  pub number : ℕ
  pub request_id : String
  pub alias : String
  pub path : String
  pub stream : Bool
  pub automatic : Bool

pub data Answer : Type 0 where
  unavailable worker_busy duplicate_request_id gateway_timeout client_disconnected : Answer
  worker_protocol_error invalid_trace_metadata : Answer
  -- an exception leaves the function
  raised : Answer
  throttled : AdmissionDecision → Answer
  forwarded : Bool → Answer
  -- a response whose body is still to be sent by forward_stream, for this worker
  streaming : String → Answer
  -- the request still waits for capacity
  pending : Answer

-- the `finally` and the `except` branches, once the identifier is claimed
abbrev pub release_both : Query → Profile → List Action
release_both q p = release_request q.request_id q.number p.id ∷ release_capacity ∷ []

abbrev pub abandon : Query → Profile → List Action
abandon q p = release_capacity ∷ release_request q.request_id q.number p.id ∷ []

-- the payload's part of the last `try` block
retained_job : Query → Response → Payload → Option String
retained_job q r payload =
    if str_eq q.path "/v1/diffuse" && r.is_success then payload.job_id else none

unfoldable pub finish : Query → Profile → Response → List Action × Answer
unfolding retained_job
finish q p r = if not r.readable then (release_both q p, raised) else elim r.payload [
  | none ↦ (release_both q p, worker_protocol_error)
  | some payload ↦ elim (retained_job q r payload) [
    | some job ↦
        (retain_job job ∷ release_request q.request_id q.number p.id ∷ [], forwarded r.is_success)
    | none ↦ (
      release_both q p,
      if str_eq q.path "/native/autoregressive/trace" && r.is_success && payload.metadata_error
          then invalid_trace_metadata
          else forwarded r.is_success,
    )
  ]
]

-- from the claimed identifier on
unfoldable pub send : Query → Profile → Sending → List Action × Answer
unfolding finish
send q p timed_out = (abandon q p, gateway_timeout)
send q p disconnected = (abandon q p, client_disconnected)
send q p cancelled = (abandon q p, raised)
send q p failed = (abandon q p, unavailable)
send q p (responded r) = if q.stream then ([], streaming p.id) else finish q p r

-- from the granted capacity on
unfoldable pub serve : Environment → Query → List Profile → List Action × Answer
unfolding send
serve e q candidates =
    if e.cancelled_early
    then (release_capacity ∷ [], raised)
    else elim (select_ready e.health true candidates) [
      | nobody all_busy ↦ (release_capacity ∷ [], if all_busy then worker_busy else unavailable)
      | selected p ↦
          if not e.identifier_free
          then (release_capacity ∷ [], duplicate_request_id)
          else let (done, answer) = send q p e.sending in
            (claim_request q.request_id q.number p.id ∷ done, answer)
    ]

-- gateway_operation
unfoldable pub gateway_operation : String → String
gateway_operation path =
    if str_eq path "/v1/chat/completions"
    then "chat"
    else if str_eq path "/v1/completions"
    then "completion"
    else if str_eq path "/v1/embeddings"
    then "embedding"
    else if str_eq path "/v1/translations"
    then "translation"
    else if str_eq path "/v1/audio/speech"
    then "speech"
    else if str_eq path "/v1/audio/transcriptions"
    then "speech"
    else if str_eq path "/v1/refine"
    then "refinement"
    else if str_eq path "/v1/diffuse"
    then "diffusion"
    else if str_eq path "/native/autoregressive/trace"
    then "completion"
    else "heavy_inference"

-- the call of claim_thermal_capacity
abbrev pub workload_of : Query → WorkloadRequest
workload_of q = record {
  workload_id = q.request_id;
  workload_class = classify_workload (gateway_operation q.path) q.automatic;
  automatic = q.automatic;
  backend = none;
  model = some q.alias;
}

abbrev pub claim_of : Environment → Query → List Action × Verdict
claim_of e q = claim_thermal_capacity e.policy (workload_of q) e.status e.now e.rounds

unfoldable pub claimed : Environment → Query → List Profile → List Action × Answer
unfolding serve
claimed e q candidates = elim (claim_of e q).1 [
  | waiting ↦ ((claim_of e q).0, pending)
  | refused decision ↦ ((claim_of e q).0, throttled decision)
  | granted decision ↦
      let (done, answer) = serve e q candidates in ((claim_of e q).0 ++ done, answer)
]

-- proxy_request; an alias with an empty list of candidates is unavailable too
unfoldable pub proxy_request : Environment → Query → List Action × Answer
unfolding claimed
proxy_request e q = elim (route_candidates e.routes q.alias) [
  | none ↦ ([], unavailable)
  | some [] ↦ ([], unavailable)
  | some (p ∷ ps) ↦ claimed e q (p ∷ ps)
]

-- release_gateway_claims, which forward_stream runs when the body has been sent or given up
unfoldable pub release_gateway_claims : Query → String → List Action
release_gateway_claims q worker =
    release_request q.request_id q.number worker ∷ release_capacity ∷ []
