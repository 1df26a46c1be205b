-- ===== src/Examples/Gateways.antt =====
-- Runs of the gateway, backend/modeldeck/gateway/app.py.
use model_deck.Base.{
  ℕ, ◌+◌, ◌≤◌, ◌≡◌, refl, String, Bool, true, false, none, some, List, [], ◌∷◌, length,
}
use model_deck.Float.{fadd, units, fsub, fle, flt}
use model_deck.Thermal.Config.{normal, default_config}
use model_deck.Thermal.Admission.{evaluate, outcome, classify_workload}
use model_deck.Thermal.Machine.{throttling_disabled}
use model_deck.Thermal.Status.{Status, machine}
use model_deck.Gateway.{Gateway, apply, apply_all, idle_gateway}
use model_deck.Gateway.Jobs.{
  Poll, no_answer, job_answer, sections, Released, monitor_thermal_job, monitor-releases,
}
use model_deck.Gateway.Claim.{
  Round, timed_out, notified, claim_round, claim_rounds, claim_thermal_capacity,
}
use model_deck.Gateway.Claim.Bounds.{is_waiting, claim-answers}
use model_deck.Gateway.Proxy.{
  Profile, mapping, Environment, Query, Sending, responded, disconnected, forwarded, streaming,
  proxy_request, route_candidates, workload_of, release_gateway_claims, gateway_operation,
  select_ready, worker_health,
}
use model_deck.Gateway.Binary.{posted, proxy_binary_request}
use model_deck.Gateway.Binary.Balance.{binary-settle}
use model_deck.Gateway.Balance.{nothing, settle, left_over, request_sections, proxy-settle}
use model_deck.Gateway.System.{
  Event, arrives, arrives_binary, steps, happen_all, happen, step_at, step_thread, idle_system,
  total, total_merged,
}
use model_deck.Gateway.System.Within.{gateway_within_limit}
use model_deck.Gateway.System.Counted.{gateway_counts, gateway_regains}

-- A published status that admits everything, with the number of heavy requests at once.
abbrev calm : ℕ → Status
calm limit = record {
  enabled = true;
  state = normal;
  temperature_c = some (units 50);
  sensor_id = none;
  telemetry_age_seconds = some (units 1);
  heavy_concurrency_limit = limit;
  active_heavy_concurrency = none;
  model_load_concurrency_limit = 1;
  background_concurrency_limit = 1;
  background_paused = false;
  model_loading_allowed = true;
  scene_active = false;
  scene_interval = units 0;
  automatic_capture_allowed = some true;
  reason_code = machine throttling_disabled;
  published_monotonic = some (units 9);
}

abbrev worker : Profile
worker = record { id = "w1"; model_id = "m"; vision_language = false }

abbrev ask : Bool → Query
ask stream = record {
  number = 1;
  request_id = "r1";
  alias = "chat";
  path = "/v1/diffuse";
  stream = stream;
  automatic = false;
}

abbrev around : Sending → Environment
around sending = record {
  routes = ("chat", worker ∷ []) ∷ [];
  policy = default_config;
  status = calm 1;
  now = units 10;
  rounds = record { status = calm 1; active_heavy = 0; now = units 10; wake = notified } ∷ [];
  cancelled_early = false;
  health = λ p. mapping true (record { worker_id = some p.id; ready = true; busy = false });
  identifier_free = true;
  sending = sending;
}

-- The worker starts a job.
abbrev job_started : Sending
job_started = responded (record {
  is_success = true;
  readable = true;
  payload = some (record { job_id = some "j1"; metadata_error = false });
})

job_is_forwarded : (proxy_request (around job_started) (ask false)).1 ≡ forwarded true
unfolding proxy_request default_config claim_thermal_capacity route_candidates evaluate outcome
    classify_workload gateway_operation claim_rounds claim_round select_ready worker_health
job_is_forwarded = refl

-- The first round finds no capacity and is notified, the second one times out at the deadline.
abbrev full_rounds : List Round
full_rounds =
    record { status = calm 1; active_heavy = 1; now = units 10; wake = notified }
    ∷ record { status = calm 1; active_heavy = 1; now = units 11; wake = timed_out (units 70) }
    ∷ []

claim-answers_example :
    is_waiting
      (claim_thermal_capacity default_config
        (workload_of (ask false))
        (calm 1)
        (units 10)
        full_rounds).1
    ≡ false
unfolding default_config fle fsub fadd flt
claim-answers_example =
    claim-answers default_config (workload_of (ask false)) (calm 1) (units 10) full_rounds refl

proxy-settle_example :
    (settle nothing (proxy_request (around disconnected) (ask true)).0
      ≡ some (left_over (ask true) (proxy_request (around disconnected) (ask true)).1))
    × ((w : String)
        → settle (left_over (ask true) (streaming w)) (release_gateway_claims (ask true) w)
          ≡ some nothing)
proxy-settle_example = proxy-settle (around disconnected) (ask true)

abbrev leaves_early : Environment
leaves_early = record (around job_started) { cancelled_early = true }

binary-settle_example :
    settle nothing (proxy_binary_request leaves_early (ask false) true (posted true true)).0
    ≡ some (record { capacity = 1; identifier = none })
unfolding default_config claim_thermal_capacity route_candidates evaluate outcome classify_workload
    gateway_operation claim_rounds claim_round
binary-settle_example = binary-settle leaves_early (ask false) true (posted true true)

-- Two requests whose sections interleave: the first one starts a job and ends.
abbrev two_requests : List Event
two_requests =
    arrives (around job_started) (ask false)
    ∷ steps 0
    ∷ arrives_binary leaves_early (ask false) true (posted true true)
    ∷ steps 1
    ∷ steps 0
    ∷ steps 1
    ∷ steps 1
    ∷ []

gateway_counts_example :
    ((happen_all two_requests idle_system).gateway.active_heavy
      ≡ total (happen_all two_requests idle_system).threads
        + total_merged (happen_all two_requests idle_system).threads
        + length (happen_all two_requests idle_system).gateway.job_claims)
    × ((happen_all two_requests idle_system).gateway.published
        ≡ (happen_all two_requests idle_system).gateway.active_heavy)
gateway_counts_example = gateway_counts two_requests

abbrev one_request : List Event
one_request = arrives (around job_started) (ask false) ∷ steps 0 ∷ steps 0 ∷ steps 0 ∷ steps 0 ∷ []

gateway_regains_example :
    (happen_all one_request idle_system).gateway.active_heavy
    ≡ length (happen_all one_request idle_system).gateway.job_claims
unfolding default_config happen_all happen step_at step_thread request_sections proxy_request
    route_candidates claim_thermal_capacity evaluate outcome classify_workload gateway_operation
    claim_rounds claim_round select_ready worker_health apply total_merged
gateway_regains_example = gateway_regains one_request refl refl refl

gateway_within_limit_example : (happen_all two_requests idle_system).gateway.active_heavy ≤ 1
gateway_within_limit_example = gateway_within_limit 1 two_requests refl

-- The worker does not answer twice, then the job runs, then it is complete.
abbrev polls : List Poll
polls =
    record { in_time = true; answer = no_answer }
    ∷ record { in_time = true; answer = no_answer }
    ∷ record { in_time = true; answer = job_answer false (some "running") }
    ∷ record { in_time = true; answer = job_answer false (some "complete") }
    ∷ []

abbrev one_job : Gateway
one_job = record idle_gateway { active_heavy = 1; published = 1; job_claims = "j1" ∷ [] }

monitor-releases_example :
    Released "j1" one_job (apply_all (sections (monitor_thermal_job "j1" 0 polls)) one_job)
monitor-releases_example = monitor-releases "j1" polls one_job refl
