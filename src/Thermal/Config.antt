-- ===== src/Thermal/Config.antt =====
-- ThermalPolicyConfig and its checks, ThermalState and capacity_for_state of
-- backend/modeldeck/thermal.py. Counts are natural numbers: a negative one is refused as 0 is.
-- The two scene intervals and the sensor name are not checked by the source.
pub mod Valid
use Prim.Native.Char.{code}
use model_deck.Base.{
  ℕ, String, Bool, true, not, ◌&&◌, ◌||◌, Option, none, some, [], ◌∷◌, ltb, leb, ◌==◌,
  if◌then◌else◌, str_eq, all,
}
use model_deck.Float.{Float, negsuc, finite, units, is_finite, fle, flt}

pub data ThermalState : Type 0 where
  normal warm hot very_hot critical telemetry_degraded : ThermalState

-- _SEVERITY; TELEMETRY_DEGRADED has no severity
unfoldable pub severity : ThermalState → Option ℕ
severity normal = some 0
severity warm = some 1
severity hot = some 2
severity very_hot = some 3
severity critical = some 4
severity telemetry_degraded = none

pub record ThermalPolicyConfig : Type 0 where
  pub enabled : Bool
  pub sensor_id : Option String
  pub warm_threshold_c : Float
  pub hot_threshold_c : Float
  pub very_hot_threshold_c : Float
  pub critical_threshold_c : Float
  pub warm_recovery_c : Float
  pub hot_recovery_c : Float
  pub very_hot_recovery_c : Float
  pub telemetry_stale_seconds : Float
  pub poll_interval_seconds : Float
  pub minimum_state_dwell_seconds : Float
  pub recovery_step_seconds : Float
  pub recovery_reading_count : ℕ
  pub configured_heavy_concurrency : ℕ
  pub configured_background_concurrency : ℕ
  pub warm_scene_interval_seconds : Float
  pub hot_scene_interval_seconds : Float
  pub stop_automatic_scene_when_very_hot : Bool
  pub host_policy_status_enabled : Bool
  pub host_policy_service_name : String

-- _MIN_CREDIBLE_C and _MAX_CREDIBLE_C
abbrev pub min_credible_c : Float
min_credible_c = finite (negsuc 19999)

abbrev pub max_credible_c : Float
max_credible_c = units 125

-- the defaults of the fields
unfoldable pub default_config : ThermalPolicyConfig
default_config = record {
  enabled = true;
  sensor_id = none;
  warm_threshold_c = units 75;
  hot_threshold_c = units 80;
  very_hot_threshold_c = units 83;
  critical_threshold_c = units 85;
  warm_recovery_c = units 72;
  hot_recovery_c = units 76;
  very_hot_recovery_c = units 79;
  telemetry_stale_seconds = units 15;
  poll_interval_seconds = units 5;
  minimum_state_dwell_seconds = units 30;
  recovery_step_seconds = units 30;
  recovery_reading_count = 3;
  configured_heavy_concurrency = 2;
  configured_background_concurrency = 1;
  warm_scene_interval_seconds = units 5;
  hot_scene_interval_seconds = units 10;
  stop_automatic_scene_when_very_hot = true;
  host_policy_status_enabled = true;
  host_policy_service_name = "framework-thermal-policy.service";
}

pub data ConfigError : Type 0 where
  not_finite entry_order recovery_order interval_not_positive : ConfigError
  interval_negative no_recovery_reading concurrency_too_low service_name : ConfigError

-- the letters, digits and "@_.-"
abbrev is_service_char : ℕ → Bool
is_service_char c =
    (leb b'a' c && leb c b'z')
    || (leb b'A' c && leb c b'Z')
    || (leb b'0' c && leb c b'9')
    || c == b'@'
    || c == b'_'
    || c == b'.'
    || c == b'-'

all_service_chars : String → Bool
all_service_chars String.[] = true
all_service_chars (String.◌∷◌ c s) = is_service_char (code c) && all_service_chars s

abbrev zero_seconds : Float
zero_seconds = units 0

thresholds_finite : ThermalPolicyConfig → Bool
thresholds_finite c = all is_finite (
    c.warm_threshold_c ∷ c.hot_threshold_c ∷ c.very_hot_threshold_c ∷ c.critical_threshold_c
    ∷ c.warm_recovery_c ∷ c.hot_recovery_c ∷ c.very_hot_recovery_c ∷ [])

entries_ordered : ThermalPolicyConfig → Bool
entries_ordered c =
    flt min_credible_c c.warm_threshold_c
    && flt c.warm_threshold_c c.hot_threshold_c
    && flt c.hot_threshold_c c.very_hot_threshold_c
    && flt c.very_hot_threshold_c c.critical_threshold_c
    && fle c.critical_threshold_c max_credible_c

recoveries_ordered : ThermalPolicyConfig → Bool
recoveries_ordered c =
    flt min_credible_c c.warm_recovery_c
    && flt c.warm_recovery_c c.hot_recovery_c
    && flt c.hot_recovery_c c.very_hot_recovery_c
    && flt c.warm_recovery_c c.warm_threshold_c
    && flt c.hot_recovery_c c.hot_threshold_c
    && flt c.very_hot_recovery_c c.very_hot_threshold_c

-- __post_init__: the first failing check, or none
unfoldable pub post_init : ThermalPolicyConfig → Option ConfigError
unfolding thresholds_finite entries_ordered recoveries_ordered all_service_chars
post_init c =
    if not (thresholds_finite c)
    then some not_finite
    else if not (entries_ordered c)
    then some entry_order
    else if not (recoveries_ordered c)
    then some recovery_order
    else if fle c.telemetry_stale_seconds zero_seconds || fle c.poll_interval_seconds zero_seconds
    then some interval_not_positive
    else if flt c.minimum_state_dwell_seconds zero_seconds
        || flt c.recovery_step_seconds zero_seconds
    then some interval_negative
    else if ltb c.recovery_reading_count 1
    then some no_recovery_reading
    else if ltb c.configured_heavy_concurrency 1 || ltb c.configured_background_concurrency 1
    then some concurrency_too_low
    else if str_eq c.host_policy_service_name ""
        || not (all_service_chars c.host_policy_service_name)
    then some service_name
    else none

pub record ThermalCapacity : Type 0 where
  pub heavy_inference_concurrency : ℕ
  pub model_load_concurrency : ℕ
  pub background_concurrency : ℕ

unfoldable pub capacity_for_state : ThermalPolicyConfig → ThermalState → ThermalCapacity
capacity_for_state c state = if not c.enabled then full else elim state [
  | normal ↦ full
  | warm ↦ record {
    heavy_inference_concurrency = c.configured_heavy_concurrency;
    model_load_concurrency = 1;
    background_concurrency = 0;
  }
  | hot ↦ reduced
  | telemetry_degraded ↦ reduced
  | _ ↦ record {
    heavy_inference_concurrency = 0;
    model_load_concurrency = 0;
    background_concurrency = 0;
  }
]
  where
    full : ThermalCapacity
    full = record {
      heavy_inference_concurrency = c.configured_heavy_concurrency;
      model_load_concurrency = 1;
      background_concurrency = c.configured_background_concurrency;
    }

    reduced : ThermalCapacity
    reduced = record {
      heavy_inference_concurrency = 1;
      model_load_concurrency = 0;
      background_concurrency = 0;
    }
