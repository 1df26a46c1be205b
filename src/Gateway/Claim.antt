-- ===== src/Gateway/Claim.antt =====
-- claim_thermal_capacity of backend/modeldeck/gateway/app.py, with thermal_queue_timeout. The request
-- looks at the published status and at the shared count, round by round, and waits in between. The
-- metric of the time spent in the queue is left out.
pub mod Bounds
use model_deck.Base.{
  ℕ, ◌+◌, Bool, true, false, not, ◌&&◌, ◌||◌, Option, none, some, List, [], ◌∷◌, ◌++◌, ltb,
  if◌then◌else◌,
}
use model_deck.Float.{Float, flt, fle, fsub, fadd, units}
use model_deck.Thermal.Config.{ThermalState, ThermalPolicyConfig}
use model_deck.Thermal.Admission.{
  AdmissionAction, allow, allow_degraded, queue, reject_retryable, queue_timed_out, WorkloadRequest,
  AdmissionDecision, evaluate,
}
use model_deck.Thermal.Status.{Status}
use model_deck.Gateway.{Action, take_capacity, queue_once, throttle}

abbrev pub proceeds : AdmissionAction → Bool
proceeds allow = true
proceeds allow_degraded = true
proceeds _ = false

abbrev is_queue : AdmissionAction → Bool
is_queue queue = true
is_queue _ = false

-- thermal_queue_timeout
unfoldable pub thermal_queue_timeout :
    ThermalPolicyConfig → Status → AdmissionDecision → AdmissionDecision
thermal_queue_timeout c status decision = record {
  action = reject_retryable;
  reason_code = queue_timed_out;
  thermal_state = status.state;
  temperature_c = status.temperature_c;
  suggested_retry_seconds = some c.recovery_step_seconds;
  degradation = decision.degradation;
  telemetry_age_seconds = status.telemetry_age_seconds;
}

-- How a wait ends: by a notification, or by its timeout, with the time that the clock then shows.
pub data Wake : Type 0 where
  notified : Wake
  timed_out : Float → Wake

-- What a round finds: the status, the shared count, the time, and the wake from its wait.
pub record Round : Type 0 where
  pub status : Status
  pub active_heavy : ℕ
  pub now : Float
  pub wake : Wake

-- The answer, or that the request waits for its next round; and what the round did to the state.
pub data Verdict : Type 0 where
  granted refused : AdmissionDecision → Verdict
  waiting : Verdict

abbrev pub decide : ThermalPolicyConfig → WorkloadRequest → Status → AdmissionDecision
decide c w s = evaluate c w s.state s.temperature_c s.telemetry_age_seconds none

-- `except TimeoutError`
after_wait : ThermalPolicyConfig → Status → AdmissionDecision → Float → Wake → List Action × Verdict
after_wait c s decision deadline notified = ([], waiting)
after_wait c s decision deadline (timed_out time) =
    if flt time deadline
    then ([], waiting)
    else (throttle ∷ [], refused (thermal_queue_timeout c s decision))

-- a round that has found no capacity
abbrev enqueue : Bool → List Action
enqueue true = []
enqueue false = queue_once ∷ []

no_capacity : ThermalPolicyConfig → Float → Bool → Round → AdmissionDecision → List Action × Verdict
unfolding after_wait
no_capacity c deadline is_queued r decision =
    if fle (fsub deadline r.now) (units 0)
    then (enqueue is_queued ++ throttle ∷ [], refused (thermal_queue_timeout c r.status decision))
    else let (done, verdict) = after_wait c r.status decision deadline r.wake in
      (enqueue is_queued ++ done, verdict)

-- one round of `while True`; the flag says that the request has been counted as queued
unfoldable pub claim_round :
    ThermalPolicyConfig → WorkloadRequest → Float → Bool → Round → List Action × Verdict
unfolding no_capacity
claim_round c w deadline is_queued r =
    let decision = decide c w r.status in
    if not (proceeds decision.action)
    then (throttle ∷ [], refused decision)
    else if ltb r.active_heavy r.status.heavy_concurrency_limit
    then (take_capacity r.active_heavy ∷ [], granted decision)
    else no_capacity c deadline is_queued r decision

-- the loop, for the rounds that it comes to; `waiting` if it needs more of them
unfoldable pub claim_rounds :
    ThermalPolicyConfig → WorkloadRequest → Float → Bool → List Round → List Action × Verdict
claim_rounds c w deadline is_queued [] = ([], waiting)
claim_rounds c w deadline is_queued (r ∷ rs) =
    let (done, verdict) = claim_round c w deadline is_queued r in
    let rest = claim_rounds c w deadline true rs in
    elim verdict [
      | granted decision ↦ (done, granted decision)
      | refused decision ↦ (done, refused decision)
      | waiting ↦ (done ++ rest.0, rest.1)
    ]

-- claim_thermal_capacity, from the status and the time of its first look
unfoldable pub claim_thermal_capacity :
    ThermalPolicyConfig → WorkloadRequest → Status → Float → List Round → List Action × Verdict
claim_thermal_capacity c w status now rounds =
    let decision = decide c w status in
    if not (proceeds decision.action)
    then (throttle ∷ (if is_queue decision.action then queue_once ∷ [] else []), refused decision)
    else claim_rounds c w (fadd now c.recovery_step_seconds) false rounds
