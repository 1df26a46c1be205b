-- ===== src/Thermal/Machine/Freshness.antt =====
-- Invalid, stale and repeated telemetry.
use model_deck.Base.{
  ◌≡◌, ◌≢◌, ◌↔◌, refl, ap, ◌∙◌, ◌⊎◌, true, false, Option, none, some, arith, is_none,
}
use text.Mathlib.TextPositions.{eq_refl}
use model_deck.Float.{Float, nan, units, fle, flt, feq, fsub, is_finite}
use model_deck.Thermal.Config.{
  ThermalState, hot, critical, telemetry_degraded, ThermalPolicyConfig, default_config, post_init,
  severity, capacity_for_state,
}
use model_deck.Thermal.Machine.{
  Machine, ThermalReading, telemetry_stale, invalid_reason, reading_fault, entry_state,
  recovery_row, recover_one_step, recover_from_degraded, seen_before, settle, observe, accept,
  degrade, transition, update, refresh,
}
use model_deck.Thermal.Machine.Hysteresis.{config-update}

settle-live :
    (m : Machine) (t now : Float)
    → m.state ≢ telemetry_degraded
    → (settle m (entry_state m.config t) t now).state ≢ telemetry_degraded
unfolding settle recover_one_step recovery_row transition severity entry_state
settle-live m t now live = ground arith

-- An enabled machine outside the degraded state enters it exactly when the reading is invalid.
pub update-degrades_iff :
    (m : Machine) (reading : Option ThermalReading) (now : Float)
    → m.config.enabled ≡ true
    → m.state ≢ telemetry_degraded
    → ((update m reading now).state ≡ telemetry_degraded)
      ↔ (is_none (invalid_reason m reading now) ≡ false)
unfolding update invalid_reason degrade transition accept
update-degrades_iff m none now on live = ground arith
update-degrades_iff m (some r) now on live = ground (arith, settle-live (observe m r) r.celsius now)

-- A refresh only ever degrades: either the machine is left whole, or an enabled machine stands in
-- the degraded state with no reading and no recovery readings.
pub refresh-degrades :
    (m : Machine) (now : Float)
    → m.config.enabled ≡ true
    → (refresh m now ≡ m)
      ⊎ (((refresh m now).state ≡ telemetry_degraded)
          × ((refresh m now).reading ≡ none)
          × ((refresh m now).recovery_readings ≡ 0))
unfolding refresh update degrade invalid_reason transition
refresh-degrades m now on = ground arith

-- The age of a reading lies between 0 and the staleness limit, as the source's two comparisons say.
abbrev pub IsFresh : ThermalPolicyConfig → Option ThermalReading → Float → Type 0
IsFresh c none now = ⊥
IsFresh c (some r) now =
    (flt (fsub now r.observed_monotonic) (units 0) ≡ false)
    × (flt c.telemetry_stale_seconds (fsub now r.observed_monotonic) ≡ false)

-- After a refresh an enabled machine is degraded, or its reading is neither stale nor from the
-- future at that time.
pub refresh-IsFresh :
    (m : Machine) (now : Float)
    → m.config.enabled ≡ true
    → ((refresh m now).state ≡ telemetry_degraded) ⊎ IsFresh m.config (refresh m now).reading now
unfolding refresh update degrade invalid_reason reading_fault transition
refresh-IsFresh m now on = ground arith

-- What an enabled machine does with a valid reading, by whether it has seen the sample before.
update_new :
    (m : Machine) (r : ThermalReading) (now : Float)
    → m.config.enabled ≡ true
    → invalid_reason m (some r) now ≡ none
    → seen_before m.last_observation r ≡ false
    → update m (some r) now ≡ settle (observe m r) (entry_state m.config r.celsius) r.celsius now
unfolding update accept
update_new m r now on valid new = ground arith

update_seen :
    (m : Machine) (r : ThermalReading) (now : Float)
    → m.config.enabled ≡ true
    → invalid_reason m (some r) now ≡ none
    → seen_before m.last_observation r ≡ true
    → update m (some r) now ≡ m
unfolding update accept
update_seen m r now on valid seen = ground arith

last_observation-settle :
    (m : Machine) (target : ThermalState) (t now : Float)
    → (settle m target t now).last_observation ≡ m.last_observation
unfolding settle recover_one_step recover_from_degraded recovery_row transition severity
last_observation-settle m target t now = ground arith

feq_refl : (a : Float) → is_finite a ≡ true → feq a a ≡ true
unfolding is_finite feq
feq_refl a h = ground arith

-- The same sample seen again is no further recovery reading: once a valid reading with a finite
-- time has been taken, the machine does not change when it comes again and is still valid.
pub update-update_same :
    (m : Machine) (r : ThermalReading) (earlier later : Float)
    → m.config.enabled ≡ true
    → is_finite r.observed_monotonic ≡ true
    → invalid_reason m (some r) earlier ≡ none
    → seen_before m.last_observation r ≡ false
    → invalid_reason (update m (some r) earlier) (some r) later ≡ none
    → update (update m (some r) earlier) (some r) later ≡ update m (some r) earlier
unfolding observe
update-update_same m r earlier later on fin valid new again =
    update_seen (update m (some r) earlier) r later
      (ap (λ (c : ThermalPolicyConfig). c.enabled) (config-update m (some r) earlier) ∙ on) again
      (rw (update_new m r earlier on valid new, last_observation-settle)
        (rw (eq_refl r.sensor_id, feq_refl r.observed_monotonic fin)))

settle_hot :
    (m : Machine) (t now : Float)
    → fle m.config.very_hot_recovery_c t ≡ true
    → (m.state ≡ critical → (settle m hot t now).state ≡ critical)
      × (m.state ≡ telemetry_degraded → (settle m hot t now).state ≡ hot)
unfolding settle recover_one_step recover_from_degraded recovery_row transition severity
settle_hot m t now k = (λ c. ground arith, λ d. ground arith)

-- A lost poll degrades an enabled machine and drops its reading; sensor and last sample stay.
update_lost :
    (m : Machine) (now : Float)
    → m.config.enabled ≡ true
    → ((update m none now).state ≡ telemetry_degraded)
      × ((update m none now).selected_sensor_id ≡ m.selected_sensor_id)
      × ((update m none now).last_observation ≡ m.last_observation)
unfolding update degrade invalid_reason transition
update_lost m now on = ground arith

pub reading_fault-cong :
    (m n : Machine) (r : ThermalReading) (now : Float)
    → n.config ≡ m.config
    → n.selected_sensor_id ≡ m.selected_sensor_id
    → invalid_reason n (some r) now ≡ invalid_reason m (some r) now
unfolding invalid_reason reading_fault
reading_fault-cong m n r now c s = cc

update_hot :
    (m : Machine) (r : ThermalReading) (now : Float)
    → m.config.enabled ≡ true
    → invalid_reason m (some r) now ≡ none
    → seen_before m.last_observation r ≡ false
    → entry_state m.config r.celsius ≡ hot
    → fle m.config.very_hot_recovery_c r.celsius ≡ true
    → (m.state ≡ critical → (update m (some r) now).state ≡ critical)
      × (m.state ≡ telemetry_degraded → (update m (some r) now).state ≡ hot)
unfolding observe
update_hot m r now on valid new e k =
    rw (update_new m r now on valid new) (rw e (settle_hot (observe m r) r.celsius now k))

-- From the critical state a valid new reading in the hot band, not below the recovery threshold of
-- `very_hot`, keeps the machine critical. After one lost poll the same reading makes it hot at
-- once, with no recovery readings and no waiting times.
pub dropout_skips_recovery :
    (m : Machine) (r : ThermalReading) (lost now : Float)
    → m.config.enabled ≡ true
    → m.state ≡ critical
    → invalid_reason m (some r) now ≡ none
    → seen_before m.last_observation r ≡ false
    → entry_state m.config r.celsius ≡ hot
    → fle m.config.very_hot_recovery_c r.celsius ≡ true
    → ((update m (some r) now).state ≡ critical)
      × ((update (update m none lost) (some r) now).state ≡ hot)
dropout_skips_recovery m r lost now on c valid new e k = (
  (update_hot m r now on valid new e k).0 c,
  (update_hot (update m none lost) r now (cc same) (cc fault) (cc (new, dropped.2)) (cc (e, same))
        (cc (k, same))).1
      dropped.0,
)
  where
    dropped :
        ((update m none lost).state ≡ telemetry_degraded)
        × ((update m none lost).selected_sensor_id ≡ m.selected_sensor_id)
        × ((update m none lost).last_observation ≡ m.last_observation)
    dropped = update_lost m lost on

    same : (update m none lost).config ≡ m.config
    same = config-update m none lost

    fault : invalid_reason (update m none lost) (some r) now ≡ none
    fault = reading_fault-cong m (update m none lost) r now same dropped.1 ∙ valid

-- A lost poll raises the capacity that the critical state took away: from no heavy work to one.
pub dropout_raises_capacity :
    (m : Machine) (lost : Float)
    → m.config.enabled ≡ true
    → m.state ≡ critical
    → ((capacity_for_state m.config m.state).heavy_inference_concurrency ≡ 0)
      × ((capacity_for_state m.config (update m none lost).state).heavy_inference_concurrency ≡ 1)
unfolding update invalid_reason degrade transition capacity_for_state
dropout_raises_capacity m lost on c = ground arith

-- A staleness limit that is not a number: the configuration is accepted, and no reading with a
-- finite time is ever stale, however old it is.
pub nan_limit_never_stale :
    (m : Machine) (r : ThermalReading) (now : Float)
    → m.config ≡ record default_config { telemetry_stale_seconds = nan }
    → (post_init m.config ≡ none) × (invalid_reason m (some r) now ≢ some telemetry_stale)
unfolding invalid_reason reading_fault flt default_config post_init fle is_finite
nan_limit_never_stale m r now c = (rw c refl, ground arith)
