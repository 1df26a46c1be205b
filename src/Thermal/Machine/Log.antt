-- ===== src/Thermal/Machine/Log.antt =====
-- What holds of the machine between two updates: its log of transitions leads from the first state
-- to the current one, and only a credible reading keeps it out of the degraded state.
use model_deck.Base.{
  ◌≡◌, ◌≢◌, inl, inr, refl, sym, ap, ◌∙◌, Bool-cases, true, Option, none, some, List, [], ◌∷◌, ◌++◌,
  arith,
}
use model_deck.Float.{Float, is_finite, fle}
use model_deck.Thermal.Config.{
  ThermalState, telemetry_degraded, ThermalPolicyConfig, min_credible_c, max_credible_c,
}
use model_deck.Thermal.Machine.{
  Machine, ThermalReading, ThermalTransition, Reason, new_machine, reading_fault, invalid_reason,
  entry_state, settle, observe, accept, degrade, transition, same_state, checked, seen_before,
  telemetry_unavailable, update, run,
}
use model_deck.Thermal.Machine.Cases.{same_state_iff, if_cases, settle_cases}
use model_deck.Thermal.Machine.Hysteresis.{config-update}

-- The entries lead from `first` to `last`, each from the state that the one before it entered, and
-- each to another state.
abbrev pub Leads : ThermalState → List ThermalTransition → ThermalState → Type 0
Leads first [] last = first ≡ last
Leads first (t ∷ ts) last =
    (t.previous_state ≡ first) × (t.previous_state ≢ t.new_state) × Leads t.new_state ts last

Leads-append :
    (first middle : ThermalState) (ts : List ThermalTransition) (t : ThermalTransition)
    → Leads first ts middle
    → t.previous_state ≡ middle
    → middle ≢ t.new_state
    → Leads first (ts ++ t ∷ []) t.new_state
Leads-append first middle [] t l p n = ground arith
Leads-append first middle (s ∷ ts) t l p n = ground (arith, Leads-append s.new_state middle ts t)

-- A reading that passed the checks of `_invalid_reason`.
abbrev pub IsCredible : Option ThermalReading → Type 0
IsCredible none = ⊥
IsCredible (some r) =
    (is_finite r.celsius ≡ true)
    × (fle min_credible_c r.celsius ≡ true)
    × (fle r.celsius max_credible_c ≡ true)

pub record Inv (first : ThermalState) (m : Machine) : Type 0 where
  pub log : Leads first m.transitions m.state
  pub clocks : m.state_entered_monotonic ≡ m.last_recovery_monotonic
  pub credible : m.state ≢ telemetry_degraded → IsCredible m.reading

transition-Inv :
    (first : ThermalState) (m : Machine) (state : ThermalState) (reason : Reason) (now : Float)
    → Leads first m.transitions m.state
    → m.state_entered_monotonic ≡ m.last_recovery_monotonic
    → (state ≢ telemetry_degraded → IsCredible m.reading)
    → Inv first (transition m state reason now)
unfolding transition
transition-Inv first m state reason now l c r = elim (Bool-cases (same_state state m.state)) [
  | inl same ↦
      rw (same, transition)
        (record { log = l; clocks = c; credible = rw ((same_state_iff state m.state).0 same) at r })
  | inr other ↦
      rw (other, transition)
        (record {
          log =
              Leads-append first m.state m.transitions _ l refl
                λ e. cc (other, (same_state_iff state m.state).1 (sym e));
          clocks = refl;
          credible = r;
        })
]

-- The rest of `update`, once a credible reading has been stored.
settle-Inv :
    (first : ThermalState) (m : Machine) (target : ThermalState) (t now : Float)
    → Leads first m.transitions m.state
    → m.state_entered_monotonic ≡ m.last_recovery_monotonic
    → IsCredible m.reading
    → Inv first (settle m target t now)
settle-Inv first m target t now l c r =
    settle_cases (Inv first) m (λ n. record { log = l; clocks = c; credible = λ _. r })
      (λ n state reason at.
        transition-Inv first (record m { recovery_readings = n }) state reason at l c (λ _. r))
      target t now

reading_fault-IsCredible :
    (m : Machine) (r : ThermalReading) (now : Float)
    → reading_fault m r now ≡ none
    → IsCredible (some r)
unfolding reading_fault
reading_fault-IsCredible m r now h = ground arith

checked-Inv :
    (first : ThermalState) (m : Machine) (r : ThermalReading) (fault : Option Reason) (now : Float)
    → (fault ≡ none → IsCredible (some r))
    → Inv first m
    → Inv first (checked m (some r) fault now)
unfolding degrade accept
checked-Inv first m r (some reason) now valid v =
    transition-Inv first (record m { reading = some r; recovery_readings = 0 }) telemetry_degraded
      reason now v.log v.clocks (λ n. absurd (n refl))
checked-Inv first m r none now valid v =
    if_cases (Inv first) (seen_before m.last_observation r) _ _ v (
      settle-Inv first (observe m r) (entry_state m.config r.celsius) r.celsius now v.log v.clocks
        (valid refl))

-- One update of an enabled machine keeps the invariant.
update-Inv :
    (first : ThermalState) (m : Machine) (reading : Option ThermalReading) (now : Float)
    → m.config.enabled ≡ true
    → Inv first m
    → Inv first (update m reading now)
unfolding update degrade invalid_reason
update-Inv first m none now on v = simp on (
    transition-Inv first (record m { reading = none; recovery_readings = 0 }) telemetry_degraded
      telemetry_unavailable now v.log v.clocks (λ n. absurd (n refl)))
update-Inv first m (some r) now on v =
    simp on (checked-Inv first m r (reading_fault m r now) now (reading_fault-IsCredible m r now) v)

run-Inv :
    (first : ThermalState) (m : Machine) (inputs : List (Option ThermalReading × Float))
    → m.config.enabled ≡ true
    → Inv first m
    → Inv first (run m inputs)
unfolding run
run-Inv first m [] on v = v
run-Inv first m ((reading, now) ∷ rest) on v =
    run-Inv first (update m reading now) rest
      (ap (λ (c : ThermalPolicyConfig). c.enabled) (config-update m reading now) ∙ on)
      (update-Inv first m reading now on v)

-- A new, enabled machine that is fed any readings at any times logs a path of transitions from the
-- degraded state to its current one, keeps its two clocks equal, and is out of the degraded state
-- only with a finite reading between -20 and 125 degrees.
pub run_new-Inv :
    (c : ThermalPolicyConfig) (start : Float) (inputs : List (Option ThermalReading × Float))
    → c.enabled ≡ true
    → Inv telemetry_degraded (run (new_machine c start) inputs)
unfolding new_machine
run_new-Inv c start inputs on =
    run-Inv telemetry_degraded (new_machine c start) inputs on
      (record { log = ground arith; clocks = refl; credible = ground arith })
