-- ===== src/Thermal/Config/Valid.antt =====
-- What the checks of `__post_init__` give, and what they let through.
use model_deck.Base.{◌≡◌, true, none, arith, ◌≤◌}
use model_deck.Float.{flt}
use model_deck.Thermal.Config.{ThermalPolicyConfig, post_init}

-- The parts of an accepted configuration that the proofs use.
pub record Accepted (c : ThermalPolicyConfig) : Type 0 where
  pub warm_lt_hot : flt c.warm_threshold_c c.hot_threshold_c ≡ true
  pub hot_lt_very_hot : flt c.hot_threshold_c c.very_hot_threshold_c ≡ true
  pub very_hot_lt_critical : flt c.very_hot_threshold_c c.critical_threshold_c ≡ true
  pub recovery_warm : flt c.warm_recovery_c c.warm_threshold_c ≡ true
  pub recovery_hot : flt c.hot_recovery_c c.hot_threshold_c ≡ true
  pub recovery_very_hot : flt c.very_hot_recovery_c c.very_hot_threshold_c ≡ true
  pub counted : 1 ≤ c.recovery_reading_count
  pub heavy : 1 ≤ c.configured_heavy_concurrency
  pub background : 1 ≤ c.configured_background_concurrency

pub post_init-Accepted : (c : ThermalPolicyConfig) → post_init c ≡ none → Accepted c
unfolding post_init
post_init-Accepted c h = ground arith
