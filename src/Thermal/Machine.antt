-- ===== src/Thermal/Machine.antt =====
-- ThermalStateMachine of backend/modeldeck/thermal.py. A method that mutates the machine returns
-- the new record. The wall-clock timestamps and the log lines are left out. A reading's temperature
-- is a `Float` by its type, so the source's `isinstance` test is always passed.
pub mod Cases
pub mod Safety
pub mod Log
pub mod Hysteresis
pub mod Freshness
use model_deck.Base.{
  ℕ, ◌+◌, String, Bool, true, false, not, ◌&&◌, ◌||◌, Option, none, some, List, [], ◌∷◌, ◌++◌, ltb,
  leb, if◌then◌else◌, str_eq,
}
use model_deck.Float.{Float, units, is_finite, fle, flt, feq, fsub, fmax}
use model_deck.Thermal.Config.{
  ThermalState, normal, warm, hot, very_hot, critical, telemetry_degraded, severity,
  ThermalPolicyConfig, min_credible_c, max_credible_c,
}

pub record ThermalReading : Type 0 where
  pub sensor_id : String
  pub celsius : Float
  pub observed_monotonic : Float

-- reason_code; `threshold_exceeded s` is f"{s.value}_threshold_exceeded", and
-- `recovered_below s` is f"recovered_below_{s.value}_threshold"
pub data Reason : Type 0 where
  awaiting_fresh_telemetry throttling_disabled telemetry_unavailable sensor_missing : Reason
  sensor_identity_changed reading_invalid clock_invalid telemetry_stale : Reason
  fresh_telemetry_restored : Reason
  threshold_exceeded recovered_below : ThermalState → Reason

pub record ThermalTransition : Type 0 where
  pub previous_state : ThermalState
  pub new_state : ThermalState
  pub temperature_c : Option Float
  pub sensor_id : Option String
  pub telemetry_age_seconds : Option Float
  pub reason_code : Reason

pub record Machine : Type 0 where
  pub config : ThermalPolicyConfig
  pub state : ThermalState
  pub state_entered_monotonic : Float
  pub last_recovery_monotonic : Float
  pub reading : Option ThermalReading
  pub reason_code : Reason
  pub recovery_readings : ℕ
  pub transitions : List ThermalTransition
  pub last_observation : Option (String × Float)
  pub selected_sensor_id : Option String

-- ThermalStateMachine.__init__ at the time `now`
unfoldable pub new_machine : ThermalPolicyConfig → Float → Machine
new_machine config now = record {
  config = config;
  state = if config.enabled then telemetry_degraded else normal;
  state_entered_monotonic = now;
  last_recovery_monotonic = now;
  reading = none;
  reason_code = if config.enabled then awaiting_fresh_telemetry else throttling_disabled;
  recovery_readings = 0;
  transitions = [];
  last_observation = none;
  selected_sensor_id = config.sensor_id;
}

-- the age of a reading, for `telemetry_age`
abbrev age_of : Option ThermalReading → Float → Option Float
age_of none now = none
age_of (some r) now = some (fmax (units 0) (fsub now r.observed_monotonic))

unfoldable pub telemetry_age : Machine → Float → Option Float
telemetry_age m now = age_of m.reading now

-- `self._selected_sensor_id is not None and reading.sensor_id != self._selected_sensor_id`
abbrev identity_changed : Option String → String → Bool
identity_changed none sensor = false
identity_changed (some selected) sensor = not (str_eq sensor selected)

-- the checks of `_invalid_reason` on a reading that is there
unfoldable pub reading_fault : Machine → ThermalReading → Float → Option Reason
reading_fault m r now =
    let age = fsub now r.observed_monotonic in
    if str_eq r.sensor_id ""
    then some sensor_missing
    else if identity_changed m.selected_sensor_id r.sensor_id
    then some sensor_identity_changed
    else if not (is_finite r.celsius)
        || not (fle min_credible_c r.celsius && fle r.celsius max_credible_c)
    then some reading_invalid
    else if flt age (units 0)
    then some clock_invalid
    else if flt m.config.telemetry_stale_seconds age
    then some telemetry_stale
    else none

unfoldable pub invalid_reason : Machine → Option ThermalReading → Float → Option Reason
invalid_reason m none now = some telemetry_unavailable
invalid_reason m (some r) now = reading_fault m r now

unfoldable pub entry_state : ThermalPolicyConfig → Float → ThermalState
entry_state c temperature =
    if fle c.critical_threshold_c temperature
    then critical
    else if fle c.very_hot_threshold_c temperature
    then very_hot
    else if fle c.hot_threshold_c temperature
    then hot
    else if fle c.warm_threshold_c temperature
    then warm
    else normal

-- `state is self.state`
unfoldable pub same_state : ThermalState → ThermalState → Bool
same_state normal normal = true
same_state warm warm = true
same_state hot hot = true
same_state very_hot very_hot = true
same_state critical critical = true
same_state telemetry_degraded telemetry_degraded = true
same_state _ _ = false

-- the reading's sensor, or the selected one
abbrev sensor_of : Option ThermalReading → Option String → Option String
sensor_of none selected = selected
sensor_of (some r) selected = some r.sensor_id

abbrev celsius_of : Option ThermalReading → Option Float
celsius_of none = none
celsius_of (some r) = some r.celsius

-- _transition
unfoldable pub transition : Machine → ThermalState → Reason → Float → Machine
unfolding same_state
transition m state reason now =
    if same_state state m.state then record m { reason_code = reason } else record m {
      state = state;
      state_entered_monotonic = now;
      last_recovery_monotonic = now;
      reason_code = reason;
      recovery_readings = 0;
      transitions =
          m.transitions
          ++ record {
            previous_state = m.state;
            new_state = state;
            temperature_c = celsius_of m.reading;
            sensor_id = sensor_of m.reading m.selected_sensor_id;
            telemetry_age_seconds = age_of m.reading now;
            reason_code = reason;
          }
            ∷ [];
    }

unfoldable pub recovery_ready : Machine → Float → Bool
recovery_ready m now =
    leb m.config.recovery_reading_count m.recovery_readings
    && fle m.config.minimum_state_dwell_seconds (fsub now m.state_entered_monotonic)
    && fle m.config.recovery_step_seconds (fsub now m.last_recovery_monotonic)

-- _recover_from_degraded
unfoldable pub recover_from_degraded : Machine → ThermalState → Float → Machine
recover_from_degraded m target now =
    let counted = record m { recovery_readings = m.recovery_readings + 1 } in
    let restored =
      if recovery_ready counted now
      then transition counted target fresh_telemetry_restored now
      else counted in
    elim target [
      | very_hot ↦ transition counted very_hot (threshold_exceeded very_hot) now
      | hot ↦ transition counted hot (threshold_exceeded hot) now
      | _ ↦ restored
    ]

-- the table `recovery` of `_recover_one_step`
unfoldable pub recovery_row : ThermalPolicyConfig → ThermalState → Option (Float × ThermalState)
recovery_row c critical = some (c.very_hot_recovery_c, very_hot)
recovery_row c very_hot = some (c.very_hot_recovery_c, hot)
recovery_row c hot = some (c.hot_recovery_c, warm)
recovery_row c warm = some (c.warm_recovery_c, normal)
recovery_row c _ = none

-- the rest of `_recover_one_step`, at a row of the table
unfoldable pub recover_at : Machine → Option (Float × ThermalState) → Float → Float → Machine
recover_at m none temperature now = record m { recovery_readings = 0 }
recover_at m (some (threshold, target)) temperature now =
    let counted = record m { recovery_readings = m.recovery_readings + 1 } in
    if fle threshold temperature
    then record m { recovery_readings = 0 }
    else if recovery_ready counted now
    then transition counted target (recovered_below m.state) now
    else counted

-- _recover_one_step
unfoldable pub recover_one_step : Machine → Float → Float → Machine
unfolding recover_at
recover_one_step m temperature now = recover_at m (recovery_row m.config m.state) temperature now

-- `_SEVERITY[target] > _SEVERITY[self.state]`, both having a severity
abbrev pub more_severe : Option ℕ → Option ℕ → Bool
more_severe (some a) (some b) = ltb b a
more_severe _ _ = false

abbrev pub seen_before : Option (String × Float) → ThermalReading → Bool
seen_before none r = false
seen_before (some (sensor, time)) r = str_eq r.sensor_id sensor && feq r.observed_monotonic time

-- `if self._selected_sensor_id is None: ...`
abbrev select_sensor : Option String → String → Option String
select_sensor none sensor = some sensor
select_sensor (some selected) sensor = some selected

-- the part of `update` for a new, valid reading that has been stored, with its target state
unfoldable pub settle : Machine → ThermalState → Float → Float → Machine
settle m target temperature now =
    let reset = record m { recovery_readings = 0 } in
    if same_state target critical
    then transition reset critical (threshold_exceeded critical) now
    else if not (same_state m.state telemetry_degraded)
        && more_severe (severity target) (severity m.state)
    then transition reset target (threshold_exceeded target) now
    else if same_state m.state telemetry_degraded
    then recover_from_degraded m target now
    else recover_one_step m temperature now

-- the stores of `update` before the target state is computed
unfoldable pub observe : Machine → ThermalReading → Machine
observe m r = record m {
  reading = some r;
  last_observation = some (r.sensor_id, r.observed_monotonic);
  selected_sensor_id = select_sensor m.selected_sensor_id r.sensor_id;
}

-- what `update` does with an invalid reading or none
unfoldable pub degrade : Machine → Option ThermalReading → Reason → Float → Machine
degrade m reading reason now =
    transition (record m { reading = reading; recovery_readings = 0 }) telemetry_degraded reason now

-- what `update` does with a valid reading
unfoldable pub accept : Machine → ThermalReading → Float → Machine
unfolding observe
accept m r now =
    if seen_before m.last_observation r
    then m
    else settle (observe m r) (entry_state m.config r.celsius) r.celsius now

abbrev pub checked : Machine → Option ThermalReading → Option Reason → Float → Machine
checked m reading (some reason) now = degrade m reading reason now
checked m none none now = m
checked m (some r) none now = accept m r now

-- update
unfoldable pub update : Machine → Option ThermalReading → Float → Machine
update m reading now =
    if not m.config.enabled
    then record m { state = normal; reason_code = throttling_disabled }
    else checked m reading (invalid_reason m reading now) now

-- refresh
unfoldable pub refresh : Machine → Float → Machine
refresh m now = elim (invalid_reason m m.reading now) [ some reason ↦ update m none now | none ↦ m ]

-- A run of the machine: the readings (or none) that `poll_once` hands to it, each at its time.
unfoldable pub run : Machine → List (Option ThermalReading × Float) → Machine
run m [] = m
run m ((reading, now) ∷ rest) = run (update m reading now) rest
