-- ===== src/Gateway/Balance.antt =====
-- What a request of backend/modeldeck/gateway/app.py holds after its critical sections.
use model_deck.Base.{
  ℕ, zero, suc, ◌+◌, ◌==◌, ◌≡◌, refl, ap, ◌∙◌, inl, inr, String, Bool, true, false, ◌&&◌, Option,
  none, some, List, [], ◌∷◌, ◌++◌, arith, Option-cases, if◌then◌else◌, str_eq,
}
use text.Mathlib.TextPositions.{eq_refl}
use model_deck.Gateway.{
  Action, take_capacity, queue_once, throttle, release_capacity, retain_job, release_job,
  claim_request, release_request,
}
use model_deck.Gateway.Claim.{
  Verdict, granted, Round, claim_round, claim_rounds, claim_thermal_capacity,
}
use model_deck.Gateway.Proxy.{
  Profile, Selection, selected, nobody, select_ready, Environment, Query, Answer, streaming, finish,
  send, serve, claimed, proxy_request, route_candidates, workload_of, release_gateway_claims,
  claim_of,
}
use model_deck.Thermal.Config.{ThermalPolicyConfig}
use model_deck.Thermal.Admission.{WorkloadRequest}
use model_deck.Thermal.Status.{Status}
use model_deck.Float.{Float, fadd}

-- Capacity that is held, and the identifier that is claimed, with the request and the worker.
pub record Held : Type 0 where
  pub capacity : ℕ
  pub identifier : Option (String × ℕ × String)

abbrev pub nothing : Held
nothing = record { capacity = 0; identifier = none }

abbrev give_back : ℕ → Option (String × ℕ × String) → Option Held
give_back zero i = none
give_back (suc n) i = some (record { capacity = n; identifier = i })

abbrev same_claim : Option (String × ℕ × String) → String → ℕ → String → Bool
same_claim none id n w = false
same_claim (some (i, m, v)) id n w = str_eq i id && (m == n) && str_eq v w

abbrev no_claim : Option (String × ℕ × String) → Bool
no_claim none = true
no_claim (some c) = false

-- A critical section, or none where it gives back what is not held, or claims a second identifier.
-- A retained job takes the capacity over.
unfoldable pub advance : Action → Held → Option Held
advance (take_capacity seen) h = some (record h { capacity = h.capacity + 1 })
advance queue_once h = some h
advance throttle h = some h
advance release_capacity h = give_back h.capacity h.identifier
advance (retain_job id) h = give_back h.capacity h.identifier
advance (release_job id) h = some h
advance (claim_request id n w) h =
    if no_claim h.identifier then some (record h { identifier = some (id, n, w) }) else none
advance (release_request id n w) h =
    if same_claim h.identifier id n w then some (record h { identifier = none }) else none

unfoldable pub settle : Held → List Action → Option Held
settle h [] = some h
settle h (a ∷ more) = elim (advance a h) [ none ↦ none | some h' ↦ settle h' more ]

pub settle-append :
    (h m : Held) (xs ys : List Action) → settle h xs ≡ some m → settle h (xs ++ ys) ≡ settle m ys
unfolding settle
settle-append h m [] ys e = let same : h ≡ m = cc e in ap (λ k. settle k ys) same
settle-append h m (a ∷ xs) ys e = elim (Option-cases (advance a h)) [
  | inl q ↦ absurd (cc (rw (q, settle) at e))
  | inr (k, q) ↦ rw (q, settle) (settle-append k m xs ys (rw (q, settle) at e))
]

abbrev pub taken : Verdict → Held
taken (granted d) = record { capacity = 1; identifier = none }
taken _ = nothing

claim_round-settle :
    (c : ThermalPolicyConfig) (w : WorkloadRequest) (deadline : Float) (is_queued : Bool)
    (r : Round)
    → settle nothing (claim_round c w deadline is_queued r).0
      ≡ some (taken (claim_round c w deadline is_queued r).1)
unfolding claim_round settle advance
claim_round-settle c w deadline is_queued r = ground arith

claim_rounds-settle :
    (c : ThermalPolicyConfig) (w : WorkloadRequest) (deadline : Float) (is_queued : Bool)
    (rs : List Round)
    → settle nothing (claim_rounds c w deadline is_queued rs).0
      ≡ some (taken (claim_rounds c w deadline is_queued rs).1)
unfolding claim_rounds settle
claim_rounds-settle c w deadline is_queued [] = refl
claim_rounds-settle c w deadline is_queued (r ∷ rs) = ground (
  arith,
  claim_round-settle c w deadline is_queued r,
  claim_rounds-settle c w deadline true rs,
  settle-append nothing nothing (claim_round c w deadline is_queued r).0
      (claim_rounds c w deadline true rs).0,
)

pub claim-settle :
    (c : ThermalPolicyConfig) (w : WorkloadRequest) (status : Status) (now : Float)
    (rs : List Round)
    → settle nothing (claim_thermal_capacity c w status now rs).0
      ≡ some (taken (claim_thermal_capacity c w status now rs).1)
unfolding claim_thermal_capacity settle advance
claim-settle c w status now rs =
    ground (arith, claim_rounds-settle c w (fadd now c.recovery_step_seconds) false rs)

-- What a request holds when its function has returned: a response that is still to be sent holds
-- both, everything else nothing.
abbrev pub left_over : Query → Answer → Held
left_over q (streaming worker) = record {
  capacity = 1;
  identifier = some (q.request_id, q.number, worker);
}
left_over q _ = nothing

abbrev pub picked : Selection → Option Profile
picked (selected p) = some p
picked (nobody b) = none

serve-settle :
    (e : Environment) (q : Query) (candidates : List Profile)
    → settle (record { capacity = 1; identifier = none }) (serve e q candidates).0
      ≡ some (left_over q (serve e q candidates).1)
unfolding serve send finish settle advance
serve-settle e q candidates = elim (Option-cases (picked (select_ready e.health true candidates))) [
  | inl s ↦ ground (arith, s)
  | inr (p, s) ↦ ground (arith, eq_refl q.request_id, eq_refl p.id, s)
]

claimed-settle :
    (e : Environment) (q : Query) (candidates : List Profile)
    → settle nothing (claimed e q candidates).0 ≡ some (left_over q (claimed e q candidates).1)
unfolding claimed
claimed-settle e q candidates = ground (
  arith,
  claim-settle e.policy (workload_of q) e.status e.now e.rounds,
  serve-settle e q candidates,
  settle-append nothing (record { capacity = 1; identifier = none }) (claim_of e q).0
      (serve e q candidates).0,
)

stream-settle :
    (q : Query) (worker : String)
    → settle (left_over q (streaming worker)) (release_gateway_claims q worker) ≡ some nothing
unfolding release_gateway_claims settle advance
stream-settle q worker = ground (arith, eq_refl q.request_id, eq_refl worker)

proxy-left_over :
    (e : Environment) (q : Query)
    → settle nothing (proxy_request e q).0 ≡ some (left_over q (proxy_request e q).1)
unfolding proxy_request settle
proxy-left_over e q = elim (Option-cases (route_candidates e.routes q.alias)) [
  | inl s ↦ rw (s, proxy_request) refl
  | inr ([], s) ↦ rw (s, proxy_request) refl
  | inr (p ∷ ps, s) ↦ rw (s, proxy_request) (claimed-settle e q (p ∷ ps))
]

-- Whatever the workers answer and whenever the client leaves, proxy_request gives back the capacity
-- and the request identifier that it has claimed, in each of its ends but one: for a response that is
-- still to be streamed it holds both, and release_gateway_claims then gives both back.
pub proxy-settle :
    (e : Environment) (q : Query)
    → (settle nothing (proxy_request e q).0 ≡ some (left_over q (proxy_request e q).1))
      × ((worker : String)
          → settle (left_over q (streaming worker)) (release_gateway_claims q worker)
            ≡ some nothing)
proxy-settle e q = (proxy-left_over e q, stream-settle q)

-- All critical sections of a request: a streamed response ends with release_gateway_claims.
abbrev pub stream_end : Query → Answer → List Action
stream_end q (streaming worker) = release_gateway_claims q worker
stream_end q _ = []

unfoldable pub request_sections : Environment → Query → List Action
request_sections e q = (proxy_request e q).0 ++ stream_end q (proxy_request e q).1

end-settle :
    (q : Query) (answer : Answer) → settle (left_over q answer) (stream_end q answer) ≡ some nothing
unfolding settle
end-settle q (streaming worker) = stream-settle q worker
end-settle q _ = refl

pub request_sections-settle :
    (e : Environment) (q : Query) → settle nothing (request_sections e q) ≡ some nothing
unfolding request_sections
request_sections-settle e q =
    settle-append nothing (left_over q (proxy_request e q).1) (proxy_request e q).0
      (stream_end q (proxy_request e q).1) (proxy-left_over e q)
    ∙ end-settle q (proxy_request e q).1
