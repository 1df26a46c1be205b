-- ===== src/Thermal/Status.antt =====
-- The files by which processes share the thermal state: read_thermal_status,
-- read_thermal_workload_activity and write_thermal_workload_activity of
-- backend/modeldeck/thermal.py, and the status that ThermalPolicyManager.status publishes. A file is
-- the value that its JSON text encodes, or none where the source's reader would raise (no file, no
-- JSON, a missing or ill-typed entry). The metrics, the host power policy and the wall-clock
-- timestamp of a status are left out.
pub mod Reading
use model_deck.Base.{
  ℕ, String, Bool, true, false, not, ◌&&◌, ◌||◌, Option, none, some, ltb, ◌==◌, if◌then◌else◌,
}
use model_deck.Float.{Float, ℤ, pos, negsuc, units, flt, fadd, fsub, fmax}
use model_deck.Thermal.Config.{
  ThermalState, normal, warm, hot, very_hot, critical, telemetry_degraded, ThermalPolicyConfig,
  ThermalCapacity, capacity_for_state,
}
use model_deck.Thermal.Machine.{Machine, ThermalReading, Reason, throttling_disabled, telemetry_age}

pub record Activity : Type 0 where
  pub active_heavy_concurrency : ℤ
  pub published_monotonic : Float

-- `max(0, active_heavy)`
abbrev not_negative : ℤ → ℤ
not_negative (pos n) = pos n
not_negative (negsuc n) = pos 0

-- what write_thermal_workload_activity leaves in the file
unfoldable pub write_thermal_workload_activity : ℤ → Float → Activity
write_thermal_workload_activity active now = record {
  active_heavy_concurrency = not_negative active;
  published_monotonic = now;
}

abbrev active_count : ℤ → Option ℕ
active_count (pos n) = some n
active_count (negsuc n) = none

-- `age < 0 or age > telemetry_stale_seconds`
unfoldable pub is_stale : ThermalPolicyConfig → Float → Bool
is_stale c age = flt age (units 0) || flt c.telemetry_stale_seconds age

unfoldable pub read_thermal_workload_activity :
    ThermalPolicyConfig → Option Activity → Float → Option ℕ
read_thermal_workload_activity c file now = if not c.enabled then some 0 else elim file [
  | none ↦ none
  | some payload ↦
      if is_stale c (fsub now payload.published_monotonic)
      then none
      else active_count payload.active_heavy_concurrency
]

-- reason_code of a status
pub data StatusReason : Type 0 where
  machine : Reason → StatusReason
  thermal_status_unavailable_or_stale : StatusReason

pub record Status : Type 0 where
  pub enabled : Bool
  pub state : ThermalState
  pub temperature_c : Option Float
  pub sensor_id : Option String
  pub telemetry_age_seconds : Option Float
  pub heavy_concurrency_limit : ℕ
  pub active_heavy_concurrency : Option ℕ
  pub model_load_concurrency_limit : ℕ
  pub background_concurrency_limit : ℕ
  pub background_paused : Bool
  pub model_loading_allowed : Bool
  pub scene_active : Bool
  pub scene_interval : Float
  -- none where the mapping has no such entry
  pub automatic_capture_allowed : Option Bool
  pub reason_code : StatusReason
  pub published_monotonic : Option Float

scene_degraded : ThermalState → Bool
scene_degraded normal = false
scene_degraded critical = false
scene_degraded _ = true

scene_interval_for : ThermalPolicyConfig → ThermalState → Float
scene_interval_for c hot = c.hot_scene_interval_seconds
scene_interval_for c very_hot = c.hot_scene_interval_seconds
scene_interval_for c telemetry_degraded = c.hot_scene_interval_seconds
scene_interval_for c warm = c.warm_scene_interval_seconds
scene_interval_for c _ = units 0

-- `self.machine.state in {VERY_HOT, CRITICAL}`
stops_scene : ThermalState → Bool
stops_scene very_hot = true
stops_scene critical = true
stops_scene _ = false

abbrev temperature_of : Option ThermalReading → Option Float
temperature_of none = none
temperature_of (some r) = some r.celsius

abbrev sensor_of : Option ThermalReading → Option String → Option String
sensor_of none selected = selected
sensor_of (some r) selected = some r.sensor_id

-- the mapping that `status` returns for a machine that has been refreshed at `now`
unfoldable pub status_of : Machine → Option ℕ → Float → Status
unfolding scene_degraded scene_interval_for stops_scene
status_of m active now =
    let capacity = capacity_for_state m.config m.state in
    record {
      enabled = m.config.enabled;
      state = m.state;
      temperature_c = temperature_of m.reading;
      sensor_id = sensor_of m.reading m.selected_sensor_id;
      telemetry_age_seconds = telemetry_age m now;
      heavy_concurrency_limit = capacity.heavy_inference_concurrency;
      active_heavy_concurrency = active;
      model_load_concurrency_limit = capacity.model_load_concurrency;
      background_concurrency_limit = capacity.background_concurrency;
      background_paused = capacity.background_concurrency == 0;
      model_loading_allowed = ltb 0 capacity.model_load_concurrency;
      scene_active = scene_degraded m.state;
      scene_interval = scene_interval_for m.config m.state;
      automatic_capture_allowed =
          some (not (stops_scene m.state && m.config.stop_automatic_scene_when_very_hot));
      reason_code = machine m.reason_code;
      published_monotonic = some now;
    }

-- the mapping of read_thermal_status with throttling disabled
disabled_status : ThermalPolicyConfig → Status
disabled_status c =
    let capacity = capacity_for_state c normal in
    record {
      enabled = false;
      state = normal;
      temperature_c = none;
      sensor_id = c.sensor_id;
      telemetry_age_seconds = none;
      heavy_concurrency_limit = capacity.heavy_inference_concurrency;
      active_heavy_concurrency = some 0;
      model_load_concurrency_limit = capacity.model_load_concurrency;
      background_concurrency_limit = capacity.background_concurrency;
      background_paused = false;
      model_loading_allowed = true;
      scene_active = false;
      scene_interval = units 0;
      automatic_capture_allowed = none;
      reason_code = machine throttling_disabled;
      published_monotonic = none;
    }

-- and the one of its `except` branch
unavailable_status : ThermalPolicyConfig → Status
unavailable_status c =
    let capacity = capacity_for_state c telemetry_degraded in
    record {
      enabled = true;
      state = telemetry_degraded;
      temperature_c = none;
      sensor_id = c.sensor_id;
      telemetry_age_seconds = none;
      heavy_concurrency_limit = capacity.heavy_inference_concurrency;
      active_heavy_concurrency = none;
      model_load_concurrency_limit = capacity.model_load_concurrency;
      background_concurrency_limit = capacity.background_concurrency;
      background_paused = true;
      model_loading_allowed = false;
      scene_active = true;
      scene_interval = c.hot_scene_interval_seconds;
      automatic_capture_allowed = some false;
      reason_code = thermal_status_unavailable_or_stale;
      published_monotonic = none;
    }

-- `status.get("telemetry_age_seconds") or 0.0`
abbrev age_or_zero : Option Float → Float
age_or_zero none = units 0
age_or_zero (some age) = age

published_at : ThermalPolicyConfig → Status → Option Float → Float → Status
unfolding unavailable_status
published_at c status none now = unavailable_status c
published_at c status (some published) now =
    let age = fsub now published in
    if is_stale c age then unavailable_status c else record status {
      telemetry_age_seconds =
          some (fmax (fadd (age_or_zero status.telemetry_age_seconds) age) (units 0));
    }

unfoldable pub read_thermal_status : ThermalPolicyConfig → Option Status → Float → Status
unfolding disabled_status unavailable_status published_at
read_thermal_status c file now = if not c.enabled then disabled_status c else elim file [
  | none ↦ unavailable_status c
  | some status ↦ published_at c status status.published_monotonic now
]
