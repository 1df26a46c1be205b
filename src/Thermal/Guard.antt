-- ===== src/Thermal/Guard.antt =====
-- ThermalGuard and read_temperatures of backend/modeldeck/thermal.py. The reader is a value: the
-- snapshot it returns, the ThermalGuardError it raises, or any other exception. A device of
-- /sys/class/hwmon is its name (none if it cannot be read) and its inputs in the order of the
-- directory, each with its label and value (none if one of them cannot be read or parsed).
pub mod Limits
use Prim.Native.String
use model_deck.Base.{
  String, Bool, true, false, ◌&&◌, ◌||◌, Option, none, some, List, [], ◌∷◌, if◌then◌else◌, str_eq,
}
use model_deck.Float.{Float, units, fle, flt, fmax}
use model_deck.Text.{codes, casefold, same_text, one_of}

pub record TemperatureSnapshot : Type 0 where
  pub gpu_edge_celsius : Float
  pub cpu_package_celsius : Float

-- the codes of ThermalGuardError
pub data GuardCode : Type 0 where
  thermal_monitor_unavailable thermal_cooldown_required : GuardCode

pub data Read {ℓ} (A : Type ℓ) : Type ℓ where
  returns : A → Read A
  raises : GuardCode → Option TemperatureSnapshot → Read A
  fails : Read A

-- GPU_START_LIMIT_C and its three companions
abbrev pub gpu_start_limit_c : Float
gpu_start_limit_c = units 55

abbrev pub cpu_start_limit_c : Float
cpu_start_limit_c = units 75

abbrev pub gpu_terminate_limit_c : Float
gpu_terminate_limit_c = units 80

abbrev pub cpu_terminate_limit_c : Float
cpu_terminate_limit_c = units 95

-- ThermalGuard.sample: other exceptions become the code of an unavailable monitor
unfoldable pub sample : Read TemperatureSnapshot → Read TemperatureSnapshot
sample (returns s) = returns s
sample (raises code s) = raises code s
sample fails = raises thermal_monitor_unavailable none

start_check : Read TemperatureSnapshot → Read TemperatureSnapshot
start_check (returns s) =
    if flt gpu_start_limit_c s.gpu_edge_celsius || flt cpu_start_limit_c s.cpu_package_celsius
    then raises thermal_cooldown_required (some s)
    else returns s
start_check other = other

-- require_start_safe
unfoldable pub require_start_safe : Read TemperatureSnapshot → Read TemperatureSnapshot
unfolding sample start_check
require_start_safe reader = start_check (sample reader)

pub data Termination : Type 0 where
  gpu_thermal_limit cpu_thermal_limit : Termination

limit_of : TemperatureSnapshot → Option (Termination × TemperatureSnapshot)
limit_of s =
    if fle gpu_terminate_limit_c s.gpu_edge_celsius
    then some (gpu_thermal_limit, s)
    else if fle cpu_terminate_limit_c s.cpu_package_celsius
    then some (cpu_thermal_limit, s)
    else none

sampled_limit : Read TemperatureSnapshot → Read (Option (Termination × TemperatureSnapshot))
unfolding limit_of
sampled_limit (returns s) = returns (limit_of s)
sampled_limit (raises code s) = raises code s
sampled_limit fails = fails

-- termination_reason: a snapshot that is given, or a new sample
unfoldable pub termination_reason :
    Option TemperatureSnapshot
    → Read TemperatureSnapshot
    → Read (Option (Termination × TemperatureSnapshot))
unfolding sampled_limit sample
termination_reason (some s) reader = sampled_limit (returns s)
termination_reason none reader = sampled_limit (sample reader)

pub record SensorInput : Type 0 where
  pub label : String
  pub celsius : Float

pub record Device : Type 0 where
  pub name : Option String
  pub inputs : List (Option SensorInput)

-- the two variables of the loops
pub record Seen : Type 0 where
  pub gpu : Option Float
  pub cpu : Option Float

-- `value if cpu is None else max(cpu, value)`
abbrev pub hotter : Option Float → Float → Float
hotter none value = value
hotter (some cpu) value = fmax cpu value

unfoldable pub see_input : String → SensorInput → Seen → Seen
see_input source input seen =
    if str_eq source "amdgpu" && same_text (casefold input.label) (codes "edge")
    then record seen { gpu = some input.celsius }
    else if str_eq source "k10temp" && one_of (casefold input.label) ("tctl" ∷ "tdie" ∷ [])
    then record seen { cpu = some (hotter seen.cpu input.celsius) }
    else seen

unfoldable pub see_inputs : String → List (Option SensorInput) → Seen → Seen
see_inputs source [] seen = seen
see_inputs source (none ∷ inputs) seen = see_inputs source inputs seen
see_inputs source (some input ∷ inputs) seen =
    see_inputs source inputs (see_input source input seen)

unfoldable pub see_devices : List Device → Seen → Seen
see_devices [] seen = seen
see_devices (device ∷ devices) seen =
    see_devices devices
      (elim device.name [ none ↦ seen | some source ↦ see_inputs source device.inputs seen ])

snapshot_of : Option Float → Option Float → Read TemperatureSnapshot
snapshot_of (some gpu) (some cpu) =
    returns (record { gpu_edge_celsius = gpu; cpu_package_celsius = cpu })
snapshot_of _ _ = raises thermal_monitor_unavailable none

-- read_temperatures; none stands for a directory that cannot be listed
unfoldable pub read_temperatures : Option (List Device) → Read TemperatureSnapshot
unfolding snapshot_of
read_temperatures none = raises thermal_monitor_unavailable none
read_temperatures (some devices) =
    let seen = see_devices devices (record { gpu = none; cpu = none }) in
    snapshot_of seen.gpu seen.cpu
