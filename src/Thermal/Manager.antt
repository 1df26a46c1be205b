-- ===== src/Thermal/Manager.antt =====
-- ThermalPolicyManager.poll_once and status of backend/modeldeck/thermal.py. The telemetry reader is
-- a value: its readings, or none where it raises. The host status reader and the logging are left
-- out, and so is the background task that calls poll_once.
pub mod Poll
use model_deck.Base.{
  ℕ, ◌+◌, String, Bool, true, false, not, ◌&&◌, ◌||◌, Option, none, some, List, [], ◌∷◌, length,
  ltb, if◌then◌else◌,
}
use model_deck.Float.{Float, units, fle, flt, fadd, fsub, fmax}
use model_deck.Thermal.Config.{
  ThermalState, normal, warm, hot, very_hot, critical, telemetry_degraded, ThermalPolicyConfig,
}
use model_deck.Thermal.Machine.{Machine, ThermalReading, new_machine, same_state, update, refresh}
use model_deck.Thermal.Telemetry.{TelemetryItem, select_control_reading}
use model_deck.Thermal.Status.{Activity, read_thermal_workload_activity, Status, status_of}

pub record Manager : Type 0 where
  pub machine : Machine
  pub last_poll_monotonic : Option Float
  -- _state_seconds, by state
  pub state_seconds : ThermalState → Float
  pub peak_temperature_c : Option Float
  -- _threshold_seconds, by threshold
  pub threshold_seconds : ℕ → Float
  -- the file of THERMAL_STATUS_FILENAME
  pub status_file : Option Status

unfoldable pub new_manager : ThermalPolicyConfig → Float → Manager
new_manager c now = record {
  machine = new_machine c now;
  last_poll_monotonic = none;
  state_seconds = λ _. units 0;
  peak_temperature_c = none;
  threshold_seconds = λ _. units 0;
  status_file = none;
}

elapsed_since : Option Float → Float → Float
elapsed_since none now = units 0
elapsed_since (some last) now = fmax (units 0) (fsub now last)

-- `previous_temperature is not None and previous_temperature >= threshold`
reached : Option ThermalReading → ℕ → Bool
reached none threshold = false
reached (some r) threshold = fle (units threshold) r.celsius

-- the accounting at the start of poll_once
unfoldable pub account : Manager → Float → Manager
unfolding elapsed_since reached
account g now =
    let elapsed = elapsed_since g.last_poll_monotonic now in
    record g {
      last_poll_monotonic = some now;
      state_seconds = λ s.
          if same_state s g.machine.state
          then fadd (g.state_seconds s) elapsed
          else g.state_seconds s;
      threshold_seconds = λ t.
          if reached g.machine.reading t
          then fadd (g.threshold_seconds t) elapsed
          else g.threshold_seconds t;
    }

read_telemetry : Option (List TelemetryItem) → Option String → Float → Option ThermalReading
read_telemetry none sensor now = none
read_telemetry (some items) sensor now = select_control_reading items sensor now

-- the reading that poll_once hands to the machine
unfoldable pub poll_reading : Machine → Option (List TelemetryItem) → Float → Option ThermalReading
unfolding read_telemetry
poll_reading m telemetry now =
    if m.config.enabled then read_telemetry telemetry m.selected_sensor_id now else none

unfoldable pub peak_with : Option Float → Option ThermalReading → Option Float
peak_with peak none = peak
peak_with none (some r) = some r.celsius
peak_with (some peak) (some r) = if flt peak r.celsius then some r.celsius else some peak

-- whether the critical handler is called, given the machine before and after the update
unfoldable pub calls_critical : Machine → Machine → Bool
calls_critical before after =
    ltb (length before.transitions) (length after.transitions) && same_state after.state critical

-- status: the machine is refreshed, and the mapping returned
unfoldable pub status : Manager → Option Activity → Float → Manager × Status
status g workloads now =
    let m = refresh g.machine now in
    (
      record g { machine = m },
      status_of m (read_thermal_workload_activity m.config workloads now) now,
    )

-- poll_once at the time `now`, the clock read once; true says that the critical handler was called
unfoldable pub poll_once :
    Manager → Option (List TelemetryItem) → Option Activity → Float → Manager × Bool
unfolding calls_critical
poll_once g telemetry workloads now =
    let reading = poll_reading g.machine telemetry now in
    let machine = update g.machine reading now in
    let updated = record (account g now) {
      machine = machine;
      peak_temperature_c = peak_with g.peak_temperature_c reading;
    } in
    let (refreshed, published) = status updated workloads now in
    (record refreshed { status_file = some published }, calls_critical g.machine machine)
