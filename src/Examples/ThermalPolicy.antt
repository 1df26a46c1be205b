-- ===== src/Examples/ThermalPolicy.antt =====
-- The theorems on admission, telemetry, guard, status and polling at concrete inputs.
use model_deck.Base.{ℕ, ◌≡◌, ◌≢◌, ◌↔◌, refl, String, true, false, none, some, List, [], ◌∷◌}
use model_deck.Float.{units, is_finite, fle, flt}
use model_deck.Thermal.Config.{hot, critical, default_config, post_init, capacity_for_state}
use model_deck.Thermal.Machine.{Machine, ThermalReading, new_machine, update}
use model_deck.Thermal.Admission.{
  WorkloadClass, interactive, WorkloadRequest, Degradation, classify_workload, outcome,
}
use model_deck.Thermal.Admission.Policy.{capacity_of, admitted-capacity}
use model_deck.Thermal.Telemetry.{TelemetryItem}
use model_deck.Thermal.Guard.{TemperatureSnapshot, SensorInput, Device}
use model_deck.Thermal.Manager.{Manager, new_manager, poll_reading, poll_once}
use model_deck.Thermal.Manager.Poll.{poll-calls_critical}

abbrev request_of : WorkloadClass → WorkloadRequest
request_of class = record {
  workload_id = "w";
  workload_class = class;
  automatic = false;
  backend = none;
  model = none;
}

admitted-capacity_example : capacity_of (capacity_for_state default_config hot) interactive ≢ some 0
unfolding outcome default_config post_init fle flt is_finite
admitted-capacity_example =
    admitted-capacity default_config (request_of interactive) hot none refl refl

abbrev slower : Degradation
slower = record { minimum_frame_interval_seconds = units 10; automatic_capture_allowed = true }

chat_interactive : classify_workload " Chat " false ≡ interactive
unfolding classify_workload
chat_interactive = refl

abbrev item : String → String → ℕ → TelemetryItem
item source label degrees = record {
  source = some source;
  label = some label;
  sensor_id = none;
  celsius = some (units degrees);
}

abbrev sensors : List TelemetryItem
sensors = item "amdgpu" "edge" 60 ∷ item "k10temp" "Tctl" 50 ∷ item "k10temp" "Tdie" 55 ∷ []

abbrev control : ThermalReading
control = record { sensor_id = "k10temp:Tdie"; celsius = units 55; observed_monotonic = units 7 }

abbrev idle : TemperatureSnapshot
idle = record { gpu_edge_celsius = units 40; cpu_package_celsius = units 50 }

abbrev tctl : SensorInput
tctl = record { label = "Tctl"; celsius = units 50 }

abbrev edge : SensorInput
edge = record { label = "edge"; celsius = units 40 }

abbrev gpu : Device
gpu = record { name = some "amdgpu"; inputs = some edge ∷ [] }

abbrev cpu : Device
cpu = record { name = some "k10temp"; inputs = none ∷ some tctl ∷ [] }

new : Machine
unfolding default_config new_machine
new = new_machine default_config (units 0)

manager : Manager
unfolding default_config new_manager new_machine
manager = new_manager default_config (units 0)

abbrev burning : List TelemetryItem
burning = item "k10temp" "Tctl" 90 ∷ []

poll-calls_critical_example : ((poll_once manager (some burning) none (units 5)).1 ≡ true) ↔ (
    (manager.machine.state ≢ critical)
    × ((update manager.machine
          (poll_reading manager.machine (some burning) (units 5))
          (units 5)).state
        ≡ critical))
unfolding manager
poll-calls_critical_example = poll-calls_critical manager (some burning) none (units 5) refl

abbrev absurd_items : List TelemetryItem
absurd_items = item "k10temp" "Tctl" 200 ∷ []
