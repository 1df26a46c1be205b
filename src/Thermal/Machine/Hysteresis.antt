-- ===== src/Thermal/Machine/Hysteresis.antt =====
-- Over a run of updates: how many readings a recovery needs.
use model_deck.Base.{
  ◌+◌, ◌≤◌, ◌<◌, ◌≡◌, ◌≢◌, true, Option, none, some, List, [], ◌∷◌, length, arith,
}
use model_deck.Float.{Float}
use model_deck.Thermal.Config.{telemetry_degraded, severity}
use model_deck.Thermal.Machine.{
  Machine, ThermalReading, transition, recovery_row, recover_one_step, recover_from_degraded,
  settle, observe, accept, degrade, update, run,
}
use model_deck.Thermal.Machine.Safety.{rank, update-IsRecovery}

-- The configuration never changes.
pub config-update :
    (m : Machine) (reading : Option ThermalReading) (now : Float)
    → (update m reading now).config ≡ m.config
unfolding update accept observe settle recover_one_step recover_from_degraded degrade transition
    recovery_row severity
config-update m none now = ground arith
config-update m (some r) now = ground arith

recovery_readings-update :
    (m : Machine) (reading : Option ThermalReading) (now : Float)
    → (update m reading now).recovery_readings ≤ m.recovery_readings + 1
unfolding update accept observe settle recover_one_step recover_from_degraded degrade transition
    recovery_row severity
recovery_readings-update m none now = ground arith
recovery_readings-update m (some r) now = ground arith

-- No update of the run ends in the degraded state.
abbrev pub IsLive : Machine → List (Option ThermalReading × Float) → Type 0
IsLive m [] = Unit
IsLive m ((reading, now) ∷ rest) =
    ((update m reading now).state ≢ telemetry_degraded) × IsLive (update m reading now) rest

-- While the machine is enabled and never degraded, fewer updates than are missing to
-- `recovery_reading_count` never lower the severity, whatever the readings and times are.
pub run-rank_le :
    (m : Machine) (inputs : List (Option ThermalReading × Float))
    → m.config.enabled ≡ true
    → IsLive m inputs
    → m.recovery_readings + length inputs < m.config.recovery_reading_count
    → rank m.state ≤ rank (run m inputs).state
unfolding run
run-rank_le m [] on live few = omega arith
run-rank_le m ((reading, now) ∷ rest) on live few = ground (
  arith,
  update-IsRecovery m reading now on live.0,
  config-update m reading now,
  recovery_readings-update m reading now,
  run-rank_le (update m reading now) rest,
)
