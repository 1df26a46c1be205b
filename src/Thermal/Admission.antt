-- ===== src/Thermal/Admission.antt =====
-- Workload classes and ThermalAdmissionController of backend/modeldeck/thermal.py. The messages
-- that go with the reason codes, and the wall-clock timestamp of a decision, are left out.
pub mod Policy
use model_deck.Base.{
  ℕ, String, Bool, true, false, not, ◌&&◌, ◌||◌, Option, none, some, [], ◌∷◌, ltb, if◌then◌else◌,
}
use model_deck.Float.{Float}
use model_deck.Text.{strip, casefold, one_of}
use model_deck.Thermal.Config.{
  ThermalState, normal, warm, hot, very_hot, critical, telemetry_degraded, ThermalPolicyConfig,
}

pub data WorkloadClass : Type 0 where
  light_control interactive background benchmark model_load heavy_inference : WorkloadClass

pub data AdmissionAction : Type 0 where
  allow allow_degraded queue pause reject_retryable cancel : AdmissionAction

pub record WorkloadRequest : Type 0 where
  pub workload_id : String
  pub workload_class : WorkloadClass
  pub automatic : Bool
  pub backend : Option String
  pub model : Option String

unfoldable pub classify_workload : String → Bool → WorkloadClass
unfolding strip casefold one_of
classify_workload operation automatic =
    let normalised = casefold (strip operation) in
    if one_of normalised ("health" ∷ "status" ∷ "metrics" ∷ "cancel" ∷ "logs" ∷ [])
    then light_control
    else if one_of normalised ("benchmark" ∷ "compatibility_test" ∷ "stability_test" ∷ [])
    then benchmark
    else if one_of normalised ("worker_start" ∷ "model_load" ∷ "preload" ∷ [])
    then model_load
    else if automatic
    then background
    else if one_of normalised (
        "chat" ∷ "completion" ∷ "scene_analysis" ∷ "translation" ∷ "speech" ∷ "refinement"
        ∷ "diffusion" ∷ [])
    then interactive
    else heavy_inference

-- the reason codes of `_outcome`, and the one with which the gateway ends a wait for capacity
pub data AdmissionReason : Type 0 where
  thermal_throttling_disabled light_control_allowed critical_thermal_limit : AdmissionReason
  background_paused_for_thermal_state thermal_capacity_available : AdmissionReason
  model_load_blocked_by_active_inference model_load_blocked_for_thermal_state : AdmissionReason
  model_load_serialised telemetry_degraded_interactive_only thermal_telemetry_degraded :
      AdmissionReason
  cooldown_required very_hot_work_paused hot_interactive_degraded : AdmissionReason
  hot_heavy_concurrency_limited warm_interactive_degraded : AdmissionReason
  queue_timed_out : AdmissionReason

-- `active_heavy_workloads is None or active_heavy_workloads > 0`
abbrev heavy_work_active : Option ℕ → Bool
heavy_work_active none = true
heavy_work_active (some n) = ltb 0 n

-- the branches of `_outcome` for background work and benchmarks, below the critical state
outcome_background : ThermalState → AdmissionAction × AdmissionReason
outcome_background normal = (allow, thermal_capacity_available)
outcome_background _ = (pause, background_paused_for_thermal_state)

-- those for model loads
outcome_model_load : ThermalState → Option ℕ → AdmissionAction × AdmissionReason
outcome_model_load warm active =
    if heavy_work_active active
    then (reject_retryable, model_load_blocked_by_active_inference)
    else (allow, model_load_serialised)
outcome_model_load hot active = (reject_retryable, model_load_blocked_for_thermal_state)
outcome_model_load very_hot active = (reject_retryable, model_load_blocked_for_thermal_state)
outcome_model_load telemetry_degraded active =
    (reject_retryable, model_load_blocked_for_thermal_state)
outcome_model_load _ active = (allow, model_load_serialised)

-- those for inference; the first argument says that the class is INTERACTIVE
outcome_inference : Bool → Bool → ThermalState → AdmissionAction × AdmissionReason
outcome_inference is_interactive automatic telemetry_degraded =
    if is_interactive && not automatic
    then (allow_degraded, telemetry_degraded_interactive_only)
    else (reject_retryable, thermal_telemetry_degraded)
outcome_inference is_interactive automatic very_hot =
    if is_interactive && not automatic
    then (reject_retryable, cooldown_required)
    else (pause, very_hot_work_paused)
outcome_inference is_interactive automatic hot =
    if is_interactive
    then (allow_degraded, hot_interactive_degraded)
    else (queue, hot_heavy_concurrency_limited)
outcome_inference is_interactive automatic warm =
    if is_interactive
    then (allow_degraded, warm_interactive_degraded)
    else (allow, thermal_capacity_available)
outcome_inference is_interactive automatic _ = (allow, thermal_capacity_available)

outcome_class : WorkloadRequest → ThermalState → Option ℕ → AdmissionAction × AdmissionReason
unfolding outcome_background outcome_model_load outcome_inference
outcome_class request state active = elim request.workload_class [
  | light_control ↦ (allow, light_control_allowed)
  | background ↦ outcome_background state
  | benchmark ↦ outcome_background state
  | model_load ↦ outcome_model_load state active
  | interactive ↦ outcome_inference true request.automatic state
  | heavy_inference ↦ outcome_inference false request.automatic state
]

is_critical : ThermalState → Bool
is_critical critical = true
is_critical _ = false

is_light : WorkloadClass → Bool
is_light light_control = true
is_light _ = false

-- _outcome
unfoldable pub outcome :
    ThermalPolicyConfig
    → WorkloadRequest
    → ThermalState
    → Option ℕ
    → AdmissionAction × AdmissionReason
unfolding outcome_class is_critical is_light
outcome c request state active =
    if not c.enabled
    then (allow, thermal_throttling_disabled)
    else if is_critical state && not (is_light request.workload_class)
    then (cancel, critical_thermal_limit)
    else outcome_class request state active

-- a non-empty result of `_degradation`; `active` and `prevent_overlapping_analysis` are always true
pub record Degradation : Type 0 where
  pub minimum_frame_interval_seconds : Float
  pub automatic_capture_allowed : Bool

is_very_hot : ThermalState → Bool
is_very_hot very_hot = true
is_very_hot _ = false

frame_interval : ThermalPolicyConfig → ThermalState → Float
frame_interval c hot = c.hot_scene_interval_seconds
frame_interval c telemetry_degraded = c.hot_scene_interval_seconds
frame_interval c _ = c.warm_scene_interval_seconds

-- _degradation; none is the empty mapping
unfoldable pub degradation :
    ThermalPolicyConfig → WorkloadRequest → ThermalState → AdmissionAction → Option Degradation
unfolding is_very_hot frame_interval
degradation c request state allow_degraded = some (record {
  minimum_frame_interval_seconds = frame_interval c state;
  automatic_capture_allowed =
      not (request.automatic && is_very_hot state && c.stop_automatic_scene_when_very_hot);
})
degradation c request state _ = none

pub record AdmissionDecision : Type 0 where
  pub action : AdmissionAction
  pub reason_code : AdmissionReason
  pub thermal_state : ThermalState
  pub temperature_c : Option Float
  pub suggested_retry_seconds : Option Float
  pub degradation : Option Degradation
  pub telemetry_age_seconds : Option Float

retry_after : ThermalPolicyConfig → AdmissionAction → Option Float
retry_after c queue = some c.recovery_step_seconds
retry_after c pause = some c.recovery_step_seconds
retry_after c reject_retryable = some c.recovery_step_seconds
retry_after c _ = none

-- evaluate
unfoldable pub evaluate :
    ThermalPolicyConfig
    → WorkloadRequest
    → ThermalState
    → Option Float
    → Option Float
    → Option ℕ
    → AdmissionDecision
unfolding retry_after
evaluate c request state temperature age active =
    let (action, code) = outcome c request state active in
    record {
      action = action;
      reason_code = code;
      thermal_state = state;
      temperature_c = temperature;
      suggested_retry_seconds = retry_after c action;
      degradation = degradation c request state action;
      telemetry_age_seconds = age;
    }
