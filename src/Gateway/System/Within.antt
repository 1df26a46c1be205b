-- ===== src/Gateway/System/Within.antt =====
-- The limit on the shared count of the gateway, backend/modeldeck/gateway/app.py.
use model_deck.Base.{
  ℕ, zero, suc, ltb, ◌≤◌, ◌≡◌, refl, inl, inr, Bool, true, false, ◌&&◌, List, [], ◌∷◌, ◌++◌, arith,
  leb, all, Bool-cases, Option-cases,
}
use model_deck.Thermal.Config.{ThermalPolicyConfig}
use model_deck.Thermal.Admission.{WorkloadRequest}
use model_deck.Thermal.Status.{Status}
use model_deck.Float.{Float, fadd}
use model_deck.Gateway.{
  Gateway, Action, take_capacity, queue_once, throttle, release_capacity, retain_job, release_job,
  claim_request, release_request, apply,
}
use model_deck.Gateway.Claim.{Round, claim_round, claim_rounds, claim_thermal_capacity}
use model_deck.Gateway.Proxy.{
  Profile, Environment, Query, Answer, streaming, select_ready, finish, send, serve, claimed,
  proxy_request, route_candidates, workload_of, claim_of, release_gateway_claims,
}
use model_deck.Gateway.Binary
use model_deck.Gateway.Binary.{Posting, proxy_binary_request}
use model_deck.Gateway.Balance.{Held, picked, stream_end, request_sections}
use model_deck.Gateway.System.{
  Thread, System, allowed, step_thread, step_at, Event, arrives, arrives_binary, job_ends, steps,
  happen, happen_all, idle_system,
}

-- Capacity is only taken at counts below `k`.
abbrev is_within : ℕ → Action → Bool
is_within k (take_capacity seen) = ltb seen k
is_within k _ = true

all-append :
    {A : Type 0} (p : A → Bool) (xs ys : List A) → all p (xs ++ ys) ≡ (all p xs && all p ys)
all-append p [] ys = refl
all-append p (x ∷ xs) ys = ground (arith, all-append p xs ys)

-- The limit of each status that the requests find is at most `k`.
abbrev pub round_within : ℕ → Round → Bool
round_within k r = leb r.status.heavy_concurrency_limit k

abbrev pub event_within : ℕ → Event → Bool
event_within k (arrives e q) = all (round_within k) e.rounds
event_within k (arrives_binary e q is_json posting) = all (round_within k) e.rounds
event_within k (job_ends id) = true
event_within k (steps i) = true

claim_round-within :
    (k : ℕ) (c : ThermalPolicyConfig) (w : WorkloadRequest) (deadline : Float) (is_queued : Bool)
    (r : Round)
    → round_within k r ≡ true
    → all (is_within k) (claim_round c w deadline is_queued r).0 ≡ true
unfolding claim_round
claim_round-within k c w deadline is_queued r h = ground arith

claim_rounds-within :
    (k : ℕ) (c : ThermalPolicyConfig) (w : WorkloadRequest) (deadline : Float) (is_queued : Bool)
    (rs : List Round)
    → all (round_within k) rs ≡ true
    → all (is_within k) (claim_rounds c w deadline is_queued rs).0 ≡ true
unfolding claim_rounds
claim_rounds-within k c w deadline is_queued [] h = refl
claim_rounds-within k c w deadline is_queued (r ∷ rs) h = ground (
  arith,
  claim_round-within k c w deadline is_queued r,
  claim_rounds-within k c w deadline true rs,
  all-append (is_within k) (claim_round c w deadline is_queued r).0
      (claim_rounds c w deadline true rs).0,
)

claim-within :
    (k : ℕ) (c : ThermalPolicyConfig) (w : WorkloadRequest) (status : Status) (now : Float)
    (rs : List Round)
    → all (round_within k) rs ≡ true
    → all (is_within k) (claim_thermal_capacity c w status now rs).0 ≡ true
unfolding claim_thermal_capacity
claim-within k c w status now rs h =
    ground (arith, claim_rounds-within k c w (fadd now c.recovery_step_seconds) false rs)

serve-within :
    (k : ℕ) (e : Environment) (q : Query) (candidates : List Profile)
    → all (is_within k) (serve e q candidates).0 ≡ true
unfolding serve send finish
serve-within k e q candidates =
    elim (Option-cases (picked (select_ready e.health true candidates))) [
      | inl s ↦ ground (arith, s)
      | inr (p, s) ↦ ground (arith, s)
    ]

claimed-within :
    (k : ℕ) (e : Environment) (q : Query) (candidates : List Profile)
    → all (round_within k) e.rounds ≡ true
    → all (is_within k) (claimed e q candidates).0 ≡ true
unfolding claimed
claimed-within k e q candidates h = ground (
  arith,
  claim-within k e.policy (workload_of q) e.status e.now e.rounds,
  serve-within k e q candidates,
  all-append (is_within k) (claim_of e q).0 (serve e q candidates).0,
)

proxy-within :
    (k : ℕ) (e : Environment) (q : Query)
    → all (round_within k) e.rounds ≡ true
    → all (is_within k) (proxy_request e q).0 ≡ true
unfolding proxy_request
proxy-within k e q h = elim (Option-cases (route_candidates e.routes q.alias)) [
  | inl s ↦ rw (s, proxy_request) refl
  | inr ([], s) ↦ rw (s, proxy_request) refl
  | inr (p ∷ ps, s) ↦ rw (s, proxy_request) (claimed-within k e q (p ∷ ps) h)
]

stream_end-within :
    (k : ℕ) (q : Query) (answer : Answer) → all (is_within k) (stream_end q answer) ≡ true
unfolding release_gateway_claims
stream_end-within k q (streaming worker) = refl
stream_end-within k q _ = refl

request-within :
    (k : ℕ) (e : Environment) (q : Query)
    → all (round_within k) e.rounds ≡ true
    → all (is_within k) (request_sections e q) ≡ true
unfolding request_sections
request-within k e q h = ground (
  arith,
  proxy-within k e q h,
  stream_end-within k q (proxy_request e q).1,
  all-append (is_within k) (proxy_request e q).0 (stream_end q (proxy_request e q).1),
)

binary_serve-within :
    (k : ℕ) (e : Environment) (q : Query) (posting : Posting) (candidates : List Profile)
    → all (is_within k) (model_deck.Gateway.Binary.serve e q posting candidates).0 ≡ true
unfolding model_deck.Gateway.Binary.serve
binary_serve-within k e q posting candidates =
    elim (Option-cases (picked (select_ready e.health true candidates))) [
      | inl s ↦ ground (arith, s)
      | inr (p, s) ↦ ground (arith, s)
    ]

binary_claimed-within :
    (k : ℕ) (e : Environment) (q : Query) (posting : Posting) (candidates : List Profile)
    → all (round_within k) e.rounds ≡ true
    → all (is_within k) (model_deck.Gateway.Binary.claimed e q posting candidates).0 ≡ true
unfolding model_deck.Gateway.Binary.claimed
binary_claimed-within k e q posting candidates h = ground (
  arith,
  claim-within k e.policy (workload_of q) e.status e.now e.rounds,
  binary_serve-within k e q posting candidates,
  all-append (is_within k) (claim_of e q).0
      (model_deck.Gateway.Binary.serve e q posting candidates).0,
)

binary-within :
    (k : ℕ) (e : Environment) (q : Query) (is_json : Bool) (posting : Posting)
    → all (round_within k) e.rounds ≡ true
    → all (is_within k) (proxy_binary_request e q is_json posting).0 ≡ true
unfolding proxy_binary_request
binary-within k e q is_json posting h = elim (Option-cases (route_candidates e.routes q.alias)) [
  | inl s ↦ ground (arith, s)
  | inr ([], s) ↦ ground (arith, s)
  | inr (p ∷ ps, s) ↦ ground (arith, s, binary_claimed-within k e q posting (p ∷ ps) h)
]

abbrev thread_within : ℕ → Thread → Bool
thread_within k t = all (is_within k) t.todo

record IsWithin (k : ℕ) (g : Gateway) (ts : List Thread) : Type 0 where
  bounded : g.active_heavy ≤ k
  limits : all (thread_within k) ts ≡ true

apply-bounded :
    (k : ℕ) (a : Action) (g : Gateway)
    → allowed a g ≡ true
    → is_within k a ≡ true
    → g.active_heavy ≤ k
    → (apply a g).active_heavy ≤ k
unfolding apply
apply-bounded k (take_capacity seen) g l w b = ground arith
apply-bounded k queue_once g l w b = ground arith
apply-bounded k throttle g l w b = ground arith
apply-bounded k release_capacity g l w b = ground arith
apply-bounded k (retain_job id) g l w b = ground arith
apply-bounded k (release_job id) g l w b = ground arith
apply-bounded k (claim_request id n v) g l w b = ground arith
apply-bounded k (release_request id n v) g l w b = ground arith

step_thread-within :
    (k n : ℕ) (g : Gateway) (h : Held) (todo : List Action)
    → g.active_heavy ≤ k
    → all (is_within k) todo ≡ true
    → let r = step_thread (record { held = h; todo = todo; merged = n }) g in
      (r.0.active_heavy ≤ k) × (thread_within k r.1 ≡ true)
unfolding step_thread
step_thread-within k n g h [] b w = (b, w)
step_thread-within k n g h (a ∷ more) b w = elim (Bool-cases (allowed a g)) [
  | inr l ↦ rw l (b, w)
  | inl l ↦ rw l (apply-bounded k a g l (ground (arith, w)) b, ground (arith, w))
]

step_at-IsWithin :
    (i k : ℕ) (g : Gateway) (ts : List Thread)
    → IsWithin k g ts
    → IsWithin k (step_at i ts g).0 (step_at i ts g).1
unfolding step_at
step_at-IsWithin i k g [] a = a
step_at-IsWithin zero k g (t ∷ ts) a =
    let o = step_thread-within k t.merged g t.held t.todo a.bounded (ground (arith, a.limits)) in
    record { bounded = o.0; limits = ground (arith, a.limits, o.1) }
step_at-IsWithin (suc i) k g (t ∷ ts) a =
    let o =
      step_at-IsWithin i k g ts
        (record { bounded = a.bounded; limits = ground (arith, a.limits) }) in
    record { bounded = o.bounded; limits = ground (arith, a.limits, o.limits) }

happen-IsWithin :
    (k : ℕ) (e : Event) (s : System)
    → event_within k e ≡ true
    → IsWithin k s.gateway s.threads
    → IsWithin k (happen e s).gateway (happen e s).threads
unfolding happen
happen-IsWithin k (arrives e q) s w a = record {
  bounded = a.bounded;
  limits = ground (arith, request-within k e q w, a.limits);
}
happen-IsWithin k (arrives_binary e q is_json posting) s w a = record {
  bounded = a.bounded;
  limits = ground (arith, binary-within k e q is_json posting w, a.limits);
}
happen-IsWithin k (job_ends id) s w a = record { bounded = a.bounded; limits = a.limits }
happen-IsWithin k (steps i) s w a = step_at-IsWithin i k s.gateway s.threads a

happen_all-IsWithin :
    (k : ℕ) (es : List Event) (s : System)
    → all (event_within k) es ≡ true
    → IsWithin k s.gateway s.threads
    → IsWithin k (happen_all es s).gateway (happen_all es s).threads
unfolding happen_all
happen_all-IsWithin k [] s w a = a
happen_all-IsWithin k (e ∷ es) s w a =
    happen_all-IsWithin k es (happen e s) (ground (arith, w))
      (happen-IsWithin k e s (ground (arith, w)) a)

-- When each thermal status that the arriving requests find allows at most `k` pieces of heavy work,
-- the shared count never exceeds `k`, however the critical sections of the requests interleave.
pub gateway_within_limit :
    (k : ℕ) (es : List Event)
    → all (event_within k) es ≡ true
    → (happen_all es idle_system).gateway.active_heavy ≤ k
gateway_within_limit k es w =
    (happen_all-IsWithin k es idle_system w
      (record { bounded = ground arith; limits = refl })).bounded
