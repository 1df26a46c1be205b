-- ===== src/Thermal/Manager/Poll.antt =====
-- What one poll does to the machine and to the published status.
use model_deck.Base.{
  ℕ, suc, ◌≡◌, ◌≢◌, ◌↔◌, refl, ap, sym, ◌∙◌, ◌⊎◌, true, Option, none, some, List, length,
  length-append, arith, Bool-cases, inl, inr,
}
use model_deck.Float.{Float}
use model_deck.Thermal.Config.{ThermalState, critical, telemetry_degraded, ThermalPolicyConfig}
use model_deck.Thermal.Machine.{
  Machine, ThermalReading, Reason, telemetry_unavailable, invalid_reason, same_state, transition,
  settle, observe, checked, seen_before, entry_state, accept, degrade, update, refresh,
}
use model_deck.Thermal.Machine.Cases.{same_state_iff, if_cases, settle_cases}
use model_deck.Thermal.Machine.Freshness.{reading_fault-cong}
use model_deck.Thermal.Machine.Hysteresis.{config-update}
use model_deck.Thermal.Telemetry.{TelemetryItem}
use model_deck.Thermal.Status.{Activity}
use model_deck.Thermal.Manager.{Manager, poll_reading, status, poll_once}

-- The log grew, by one entry, exactly if the state changed.
record Logs (m : Machine) (m' : Machine) : Type 0 where
  entry :
      (m.state ≡ m'.state) × (length m'.transitions ≡ length m.transitions)
      ⊎ (m.state ≢ m'.state) × (length m'.transitions ≡ suc (length m.transitions))

transition-Logs :
    (m : Machine) (n : ℕ) (state : ThermalState) (reason : Reason) (now : Float)
    → Logs m (transition (record m { recovery_readings = n }) state reason now)
unfolding transition
transition-Logs m n state reason now = elim (Bool-cases (same_state state m.state)) [
  | inl same ↦ rw (same, transition) (record { entry = inl (refl, refl) })
  | inr other ↦
      rw (other, transition)
        (record {
          entry = inr (
            λ e. cc (other, (same_state_iff state m.state).1 (sym e)),
            omega (arith, length-append {0} m.transitions _),
          );
        })
]

settle-Logs : (m : Machine) (target : ThermalState) (t now : Float) → Logs m (settle m target t now)
settle-Logs m =
    settle_cases (Logs m) m (λ n. record { entry = inl (refl, refl) })
      (λ n state reason now. transition-Logs m n state reason now)

checked-Logs :
    (m : Machine) (reading : Option ThermalReading) (fault : Option Reason) (now : Float)
    → Logs m (checked m reading fault now)
unfolding degrade accept observe
checked-Logs m reading (some reason) now = record {
  entry = (transition-Logs (record m { reading = reading }) 0 telemetry_degraded reason now).entry;
}
checked-Logs m none none now = record { entry = inl (refl, refl) }
checked-Logs m (some r) none now =
    if_cases (Logs m) (seen_before m.last_observation r) _ _ (record { entry = inl (refl, refl) })
      (record {
        entry = (settle-Logs (observe m r) (entry_state m.config r.celsius) r.celsius now).entry;
      })

update-Logs :
    (m : Machine) (reading : Option ThermalReading) (now : Float)
    → m.config.enabled ≡ true
    → Logs m (update m reading now)
unfolding update
update-Logs m reading now on = record {
  entry = ground (arith, (checked-Logs m reading (invalid_reason m reading now) now).entry);
}

-- With throttling enabled a poll calls the critical handler exactly when its reading takes the
-- machine into the critical state from another one.
pub poll-calls_critical :
    (g : Manager) (telemetry : Option (List TelemetryItem)) (workloads : Option Activity)
    (now : Float)
    → g.machine.config.enabled ≡ true
    → ((poll_once g telemetry workloads now).1 ≡ true) ↔ (
        (g.machine.state ≢ critical)
        × ((update g.machine (poll_reading g.machine telemetry now) now).state ≡ critical))
unfolding poll_once status
poll-calls_critical g telemetry workloads now on =
    let reading = poll_reading g.machine telemetry now in
    ground (
      arith,
      (update-Logs g.machine reading now on).entry,
      same_state_iff (update g.machine reading now).state critical,
    )

update_unavailable :
    (m : Machine) (now : Float)
    → m.config.enabled ≡ true
    → ((update m none now).reason_code ≡ telemetry_unavailable)
      × ((update m none now).reading ≡ none)
unfolding update invalid_reason degrade transition
update_unavailable m now on = ground arith

update_bad :
    (m : Machine) (reading : Option ThermalReading) (reason : Reason) (now : Float)
    → m.config.enabled ≡ true
    → invalid_reason m reading now ≡ some reason
    → ((update m reading now).reading ≡ reading)
      × ((update m reading now).selected_sensor_id ≡ m.selected_sensor_id)
      × ((update m reading now).reason_code ≡ reason)
unfolding update degrade transition
update_bad m reading reason now on bad = ground arith

invalid_reason-cong :
    (m n : Machine) (reading : Option ThermalReading) (now : Float)
    → n.config ≡ m.config
    → n.selected_sensor_id ≡ m.selected_sensor_id
    → invalid_reason n reading now ≡ invalid_reason m reading now
unfolding invalid_reason
invalid_reason-cong m n none now c s = refl
invalid_reason-cong m n (some r) now c s = reading_fault-cong m n r now c s

refresh_invalid :
    (m : Machine) (reason : Reason) (now : Float)
    → invalid_reason m m.reading now ≡ some reason
    → refresh m now ≡ update m none now
unfolding refresh
refresh_invalid m reason now bad = ground arith

-- Refreshing a machine at the time of an update with an invalid reading forgets the reason.
refresh-update_invalid :
    (m : Machine) (reading : Option ThermalReading) (reason : Reason) (now : Float)
    → m.config.enabled ≡ true
    → invalid_reason m reading now ≡ some reason
    → refresh (update m reading now) now ≡ update (update m reading now) none now
refresh-update_invalid m reading reason now on bad =
    refresh_invalid (update m reading now) reason now (
      ap (λ o. invalid_reason (update m reading now) o now) fields.0
      ∙ invalid_reason-cong m (update m reading now) reading now (config-update m reading now)
          fields.1
      ∙ bad)
  where
    fields :
        ((update m reading now).reading ≡ reading)
        × ((update m reading now).selected_sensor_id ≡ m.selected_sensor_id)
        × ((update m reading now).reason_code ≡ reason)
    fields = update_bad m reading reason now on bad

-- An enabled poll whose reading is invalid, for whatever reason, publishes the one reason
-- "unavailable" and no temperature: the refresh inside `status` replaces the particular reason that
-- `update` has just recorded.
pub poll_forgets_reason :
    (g : Manager) (telemetry : Option (List TelemetryItem)) (workloads : Option Activity)
    (now : Float) (reason : Reason)
    → g.machine.config.enabled ≡ true
    → invalid_reason g.machine (poll_reading g.machine telemetry now) now ≡ some reason
    → ((update g.machine (poll_reading g.machine telemetry now) now).reason_code ≡ reason)
      × ((poll_once g telemetry workloads now).0.machine.reason_code ≡ telemetry_unavailable)
      × ((poll_once g telemetry workloads now).0.machine.reading ≡ none)
unfolding poll_once status
poll_forgets_reason g telemetry workloads now reason on bad = (
  (update_bad g.machine reading reason now on bad).2,
  ap (λ (m : Machine). m.reason_code) same ∙ (update_unavailable updated now on').0,
  ap (λ (m : Machine). m.reading) same ∙ (update_unavailable updated now on').1,
)
  where
    reading : Option ThermalReading
    reading = poll_reading g.machine telemetry now

    updated : Machine
    updated = update g.machine reading now

    on' : updated.config.enabled ≡ true
    on' = ap (λ (c : ThermalPolicyConfig). c.enabled) (config-update g.machine reading now) ∙ on

    same : refresh updated now ≡ update updated none now
    same = refresh-update_invalid g.machine reading reason now on bad
