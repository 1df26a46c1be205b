-- ===== src/Gateway.antt =====
-- The state that requests share in the gateway, backend/modeldeck/gateway/app.py, and the critical
-- sections in which a request changes it. A request is the sequence of its critical sections; those
-- of several requests interleave.
pub mod Resolution
pub mod Claim
pub mod Proxy
pub mod Binary
pub mod Balance
pub mod System
pub mod Jobs
use model_deck.Base.{
  ℕ, suc, ◌+◌, ◌-◌, String, Bool, true, false, ◌&&◌, Option, none, some, List, [], ◌∷◌, ◌++◌, ◌==◌,
  is_none, if◌then◌else◌, str_eq,
}
use model_deck.Text.{member}

-- `app.state`: thermal_active_heavy with the count that was last published,
-- thermal_throttled_requests, thermal_queued_requests, thermal_job_claims, and the identifiers in
-- active_request_workers with the worker of each. A profile object belongs to one request, so it is
-- the number of that request with the worker's identifier.
pub record Gateway : Type 0 where
  pub active_heavy : ℕ
  pub published : ℕ
  pub throttled : ℕ
  pub queued : ℕ
  pub job_claims : List String
  pub active_requests : List (String × ℕ × String)

pub data Action : Type 0 where
  -- what claim_thermal_capacity does when it grants, queues or refuses
  -- a capacity is taken in the section that has read this count
  take_capacity : ℕ → Action
  queue_once throttle : Action
  release_capacity : Action
  retain_job release_job : String → Action
  -- a request's identifier, the request's number and the worker's identifier
  claim_request release_request : String → ℕ → String → Action

-- thermal_active_heavy changes, and publish_gateway_workload_activity
abbrev pub set_active : ℕ → Gateway → Gateway
set_active n g = record g { active_heavy = n; published = n }

abbrev pub without_text : String → List String → List String
without_text x [] = []
without_text x (y ∷ ys) = let rest = without_text x ys in if str_eq x y then rest else y ∷ rest

abbrev pub entry_for : String → List (String × ℕ × String) → Option (ℕ × String)
entry_for id [] = none
entry_for id ((k, n, w) ∷ es) = if str_eq id k then some (n, w) else entry_for id es

abbrev without_entry : String → List (String × ℕ × String) → List (String × ℕ × String)
without_entry id [] = []
without_entry id ((k, n, w) ∷ es) =
    let rest = without_entry id es in if str_eq id k then rest else (k, n, w) ∷ rest

-- release_thermal_job_capacity
release_job_claim : String → Gateway → Gateway
release_job_claim id g =
    if member id g.job_claims
    then record (set_active (g.active_heavy - 1) g) { job_claims = without_text id g.job_claims }
    else g

abbrev same_owner : Option (ℕ × String) → ℕ → String → Bool
same_owner none request worker = false
same_owner (some (n, w)) request worker = (n == request) && str_eq w worker

-- release_active_request
release_request_claim : String → ℕ → String → Gateway → Gateway
release_request_claim id request worker g =
    if same_owner (entry_for id g.active_requests) request worker
    then record g { active_requests = without_entry id g.active_requests }
    else g

-- claim_active_request, for an identifier that may be there already
claim_request_entry : String → ℕ → String → Gateway → Gateway
claim_request_entry id request worker g =
    if is_none (entry_for id g.active_requests)
    then record g { active_requests = (id, request, worker) ∷ g.active_requests }
    else g

-- A critical section.
unfoldable pub apply : Action → Gateway → Gateway
unfolding release_job_claim release_request_claim claim_request_entry
apply (take_capacity seen) g = set_active (g.active_heavy + 1) g
apply queue_once g = record g { queued = g.queued + 1 }
apply throttle g = record g { throttled = g.throttled + 1 }
apply release_capacity g = set_active (g.active_heavy - 1) g
apply (retain_job id) g = record g {
  job_claims = if member id g.job_claims then g.job_claims else id ∷ g.job_claims;
}
apply (release_job id) g = release_job_claim id g
apply (claim_request id request worker) g = claim_request_entry id request worker g
apply (release_request id request worker) g = release_request_claim id request worker g

unfoldable pub apply_all : List Action → Gateway → Gateway
apply_all [] g = g
apply_all (a ∷ more) g = apply_all more (apply a g)

-- The state of a gateway that starts.
abbrev pub idle_gateway : Gateway
idle_gateway = record {
  active_heavy = 0;
  published = 0;
  throttled = 0;
  queued = 0;
  job_claims = [];
  active_requests = [];
}
