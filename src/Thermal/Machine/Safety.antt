-- ===== src/Thermal/Machine/Safety.antt =====
-- What one call of `update` may do to the thermal state: the state is never milder than the
-- reading asks for, and recovery goes one level at a time.
use model_deck.Base.{ℕ, ◌+◌, ◌≤◌, ◌<◌, ◌≡◌, ◌≢◌, ◌⊎◌, true, false, Option, none, some, arith}
use model_deck.Float.{Float, fle, fsub, flt-fle_trans, flt-fle, flt_trans}
use model_deck.Thermal.Config.{
  ThermalState, normal, warm, hot, very_hot, critical, telemetry_degraded, severity,
  ThermalPolicyConfig, post_init,
}
use model_deck.Thermal.Config.Valid.{Accepted, post_init-Accepted}
use model_deck.Thermal.Machine.{
  Machine, ThermalReading, invalid_reason, entry_state, transition, recovery_ready, recovery_row,
  recover_one_step, recover_from_degraded, seen_before, settle, observe, accept, degrade, update,
}

-- How severe a state is, 0 for the two states that ask for no mitigation by temperature.
unfoldable pub rank : ThermalState → ℕ
rank normal = 0
rank warm = 1
rank hot = 2
rank very_hot = 3
rank critical = 4
rank telemetry_degraded = 0

-- Below the recovery threshold of a state the temperature asks for a milder state.
entry_below_very_hot :
    (c : ThermalPolicyConfig) (t : Float)
    → Accepted c
    → fle c.very_hot_recovery_c t ≡ false
    → rank (entry_state c t) ≤ 2
unfolding entry_state rank
entry_below_very_hot c t a h = ground (
  arith,
  flt-fle_trans c.very_hot_recovery_c c.very_hot_threshold_c t,
  flt_trans c.very_hot_recovery_c c.very_hot_threshold_c c.critical_threshold_c,
  flt-fle_trans c.very_hot_recovery_c c.critical_threshold_c t,
  flt-fle c.very_hot_recovery_c t,
)

entry_below_hot :
    (c : ThermalPolicyConfig) (t : Float)
    → Accepted c
    → fle c.hot_recovery_c t ≡ false
    → rank (entry_state c t) ≤ 1
unfolding entry_state rank
entry_below_hot c t a h = ground (
  arith,
  flt-fle_trans c.hot_recovery_c c.hot_threshold_c t,
  flt_trans c.hot_recovery_c c.hot_threshold_c c.very_hot_threshold_c,
  flt-fle_trans c.hot_recovery_c c.very_hot_threshold_c t,
  flt_trans c.hot_recovery_c c.very_hot_threshold_c c.critical_threshold_c,
  flt-fle_trans c.hot_recovery_c c.critical_threshold_c t,
  flt-fle c.hot_recovery_c t,
)

entry_below_warm :
    (c : ThermalPolicyConfig) (t : Float)
    → Accepted c
    → fle c.warm_recovery_c t ≡ false
    → rank (entry_state c t) ≡ 0
unfolding entry_state rank
entry_below_warm c t a h = ground (
  arith,
  flt-fle_trans c.warm_recovery_c c.warm_threshold_c t,
  flt_trans c.warm_recovery_c c.warm_threshold_c c.hot_threshold_c,
  flt-fle_trans c.warm_recovery_c c.hot_threshold_c t,
  flt_trans c.warm_recovery_c c.hot_threshold_c c.very_hot_threshold_c,
  flt-fle_trans c.warm_recovery_c c.very_hot_threshold_c t,
  flt_trans c.warm_recovery_c c.very_hot_threshold_c c.critical_threshold_c,
  flt-fle_trans c.warm_recovery_c c.critical_threshold_c t,
  flt-fle c.warm_recovery_c t,
)

-- A state of the machine after a reading whose target is `target`.
abbrev pub Covers : ThermalState → ThermalState → Type 0
Covers target state = (state ≡ telemetry_degraded) ⊎ (rank target ≤ rank state)

settle-Covers :
    (m : Machine) (t now : Float)
    → Accepted m.config
    → Covers (entry_state m.config t) (settle m (entry_state m.config t) t now).state
unfolding settle recover_one_step recover_from_degraded recovery_row transition severity rank
settle-Covers m t now a = ground (
  arith,
  entry_below_very_hot m.config t a,
  entry_below_hot m.config t a,
  entry_below_warm m.config t a,
)

-- When the policy is enabled and its configuration is accepted, a valid reading that is not the one
-- observed last leaves the machine at least as severe as the reading's temperature asks for, or (while
-- it waits for trusted telemetry) in the degraded state.
pub update-Covers :
    (m : Machine) (r : ThermalReading) (now : Float)
    → post_init m.config ≡ none
    → m.config.enabled ≡ true
    → invalid_reason m (some r) now ≡ none
    → seen_before m.last_observation r ≡ false
    → Covers (entry_state m.config r.celsius) (update m (some r) now).state
unfolding update accept observe
update-Covers m r now ok on valid fresh =
    ground (arith, settle-Covers (observe m r) r.celsius now (post_init-Accepted m.config ok))

-- The conditions of a step down: enough readings, and both waiting times since the last change.
pub record IsRecovery (m : Machine) (now : Float) : Type 0 where
  pub readings : m.config.recovery_reading_count ≤ m.recovery_readings + 1
  pub dwell : fle m.config.minimum_state_dwell_seconds (fsub now m.state_entered_monotonic) ≡ true
  pub step : fle m.config.recovery_step_seconds (fsub now m.last_recovery_monotonic) ≡ true

settle-down :
    (m : Machine) (target : ThermalState) (t now : Float)
    → rank (settle m target t now).state < rank m.state
    → (rank m.state ≡ rank (settle m target t now).state + 1) × IsRecovery m now
unfolding settle recover_one_step recovery_row recovery_ready transition severity rank
settle-down m target t now h = ground arith

-- A step down between two undegraded states goes down by one level, and only by a reading that
-- completes the required count of recovery readings, after both waiting times.
pub update-IsRecovery :
    (m : Machine) (reading : Option ThermalReading) (now : Float)
    → m.config.enabled ≡ true
    → (update m reading now).state ≢ telemetry_degraded
    → rank (update m reading now).state < rank m.state
    → (rank m.state ≡ rank (update m reading now).state + 1) × IsRecovery m now
unfolding update accept observe degrade transition
update-IsRecovery m none now on live h = ground arith
update-IsRecovery m (some r) now on live h =
    ground (arith, settle-down (observe m r) (entry_state m.config r.celsius) r.celsius now)
