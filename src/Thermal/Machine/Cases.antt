-- ===== src/Thermal/Machine/Cases.antt =====
-- How `update` can end: a property of machines holds after it, if it holds of the machine with any
-- count of recovery readings, and after any transition from there.
use model_deck.Base.{ℕ, ◌≡◌, Bool, true, false, Option, none, some, if◌then◌else◌, arith, ◌↔◌}
use model_deck.Float.{Float}
use model_deck.Thermal.Config.{ThermalState, hot, very_hot, critical}
use model_deck.Thermal.Machine.{
  Machine, Reason, same_state, transition, recover_at, recovery_row, recover_one_step,
  recover_from_degraded, settle, threshold_exceeded,
}

pub same_state_iff : (a b : ThermalState) → (same_state a b ≡ true) ↔ (a ≡ b)
unfolding same_state
same_state_iff a b = ground arith

pub if_cases {ℓ} :
    (P : Machine → Type ℓ) (b : Bool) (x y : Machine) → P x → P y → P (if b then x else y)
if_cases P true x y px py = px
if_cases P false x y px py = py

module _ {ℓ} (P : Machine → Type ℓ) (m : Machine)
    (counts : (n : ℕ) → P (record m { recovery_readings = n }))
    (moves : (n : ℕ) (state : ThermalState) (reason : Reason) (now : Float)
      → P (transition (record m { recovery_readings = n }) state reason now)) where
  recover_from_degraded_cases :
      (target : ThermalState) (now : Float) → P (recover_from_degraded m target now)
  unfolding recover_from_degraded
  recover_from_degraded_cases very_hot now = moves _ _ _ now
  recover_from_degraded_cases hot now = moves _ _ _ now
  recover_from_degraded_cases target now = if_cases P _ _ _ (moves _ target _ now) (counts _)

  recover_at_cases :
      (row : Option (Float × ThermalState)) (t now : Float) → P (recover_at m row t now)
  unfolding recover_at
  recover_at_cases none t now = counts 0
  recover_at_cases (some (threshold, target)) t now =
      if_cases P _ _ _ (counts 0) (if_cases P _ _ _ (moves _ target _ now) (counts _))

  pub settle_cases : (target : ThermalState) (t now : Float) → P (settle m target t now)
  unfolding settle recover_one_step
  settle_cases target t now =
      if_cases P _ _ _ (moves 0 critical (threshold_exceeded critical) now) (
        if_cases P _ _ _ (moves 0 target (threshold_exceeded target) now) (
          if_cases P _ _ _ (recover_from_degraded_cases target now)
            (recover_at_cases (recovery_row m.config m.state) t now)))
