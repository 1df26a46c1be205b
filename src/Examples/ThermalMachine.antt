-- ===== src/Examples/ThermalMachine.antt =====
-- Runs of the thermal state machine, and its theorems at concrete machines.
use model_deck.Base.{ℕ, ◌+◌, ◌≤◌, ◌≡◌, refl, Option, none, some, List, [], ◌∷◌, arith}
use model_deck.Float.{Float, nan, units, is_finite, fle, flt, feq, fsub, fmax}
use model_deck.Thermal.Config.{
  normal, hot, critical, telemetry_degraded, default_config, post_init, severity,
}
use model_deck.Thermal.Machine.{
  Machine, ThermalReading, new_machine, invalid_reason, reading_fault, entry_state, transition,
  recovery_ready, recover_from_degraded, recovery_row, recover_one_step, settle, observe, degrade,
  accept, update, refresh, run,
}
use model_deck.Thermal.Machine.Safety.{rank, Covers, IsRecovery, update-Covers, update-IsRecovery}
use model_deck.Thermal.Machine.Hysteresis.{run-rank_le}
use model_deck.Thermal.Machine.Log.{Inv, run_new-Inv}
use model_deck.Thermal.Machine.Freshness.{dropout_skips_recovery}

-- A reading of 80 degrees and more at a whole second.
abbrev at : ℕ → ℕ → ThermalReading
at degrees seconds = record {
  sensor_id = "k10temp:Tctl";
  celsius = units degrees;
  observed_monotonic = units seconds;
}

abbrev fed : List (ℕ × ℕ) → List (Option ThermalReading × Float)
fed [] = []
fed ((degrees, seconds) ∷ rest) = (some (at degrees seconds), units seconds) ∷ fed rest

-- The machine after these readings, with the default configuration. Opening it opens the machine.
after : List (ℕ × ℕ) → Machine
unfolding run new_machine default_config update invalid_reason reading_fault degrade accept observe
    settle recover_from_degraded recover_one_step recovery_row recovery_ready transition entry_state
    severity refresh fle flt feq fsub fmax is_finite post_init
after inputs = run (new_machine default_config (units 0)) (fed inputs)

abbrev cool : List (ℕ × ℕ)
cool = (50, 10) ∷ (50, 20) ∷ (50, 30) ∷ []

abbrev heated : List (ℕ × ℕ)
heated = (50, 10) ∷ (50, 20) ∷ (50, 30) ∷ (86, 40) ∷ []

-- Three cool readings over 30 seconds leave the degraded state.
cool_normal : (after cool).state ≡ normal
unfolding after
cool_normal = refl

heated_critical : (after heated).state ≡ critical
unfolding after
heated_critical = refl

update-Covers_example :
    Covers
      (entry_state default_config (units 81))
      (update (after cool) (some (at 81 40)) (units 40)).state
unfolding after
update-Covers_example = update-Covers (after cool) (at 81 40) (units 40) refl refl refl refl

-- Three readings below 79 degrees, half a minute after the critical one.
abbrev cooling : List (ℕ × ℕ)
cooling = (50, 10) ∷ (50, 20) ∷ (50, 30) ∷ (86, 40) ∷ (70, 50) ∷ (70, 60) ∷ []

update-IsRecovery_example :
    (4 ≡ rank (update (after cooling) (some (at 70 70)) (units 70)).state + 1)
    × IsRecovery (after cooling) (units 70)
unfolding after rank
update-IsRecovery_example =
    update-IsRecovery (after cooling) (some (at 70 70)) (units 70) refl (λ e. cc) (omega arith)

run-rank_le_example : 4 ≤ rank (run (after heated) (fed ((70, 50) ∷ (70, 90) ∷ []))).state
unfolding after rank
run-rank_le_example =
    run-rank_le (after heated) (fed ((70, 50) ∷ (70, 90) ∷ [])) refl (λ e. cc, (λ e. cc, tt))
      (omega arith)

run_new-Inv_example :
    Inv telemetry_degraded (run (new_machine default_config (units 0)) (fed heated))
unfolding default_config
run_new-Inv_example = run_new-Inv default_config (units 0) (fed heated) refl

dropout_skips_recovery_example :
    ((update (after heated) (some (at 80 50)) (units 50)).state ≡ critical)
    × ((update (update (after heated) none (units 45)) (some (at 80 50)) (units 50)).state ≡ hot)
unfolding after
dropout_skips_recovery_example =
    dropout_skips_recovery (after heated) (at 80 50) (units 45) (units 50) refl refl refl refl refl
      refl

abbrev careless : Machine
careless = record (after cool) { config = record default_config { telemetry_stale_seconds = nan } }
