-- ===== src/Gateway/Claim/Bounds.antt =====
-- Limits of claim_thermal_capacity in backend/modeldeck/gateway/app.py: on the capacity that it takes,
-- and on the time that it waits.
use model_deck.Base.{◌≡◌, Bool, true, false, not, ◌||◌, List, [], ◌∷◌, arith, any}
use model_deck.Float.{Float, flt, fle, fsub, fadd, units}
use model_deck.Thermal.Config.{ThermalPolicyConfig}
use model_deck.Thermal.Admission.{WorkloadRequest}
use model_deck.Thermal.Status.{Status}
use model_deck.Gateway.Claim.{
  notified, timed_out, Round, Verdict, waiting, claim_round, claim_rounds, claim_thermal_capacity,
}

-- The round begins when the deadline is reached, or its wait times out then.
abbrev pub is_last : Float → Round → Bool
is_last deadline r =
    fle (fsub deadline r.now) (units 0)
    || (elim r.wake [ notified ↦ false | timed_out time ↦ not (flt time deadline) ])

abbrev pub is_waiting : Verdict → Bool
is_waiting waiting = true
is_waiting _ = false

claim_round-answers :
    (c : ThermalPolicyConfig) (w : WorkloadRequest) (deadline : Float) (is_queued : Bool)
    (r : Round)
    → is_last deadline r ≡ true
    → is_waiting (claim_round c w deadline is_queued r).1 ≡ false
unfolding claim_round
claim_round-answers c w deadline is_queued r h = ground arith

claim_rounds-answers :
    (c : ThermalPolicyConfig) (w : WorkloadRequest) (deadline : Float) (is_queued : Bool)
    (rs : List Round)
    → any (is_last deadline) rs ≡ true
    → is_waiting (claim_rounds c w deadline is_queued rs).1 ≡ false
unfolding claim_rounds
claim_rounds-answers c w deadline is_queued [] h = cc
claim_rounds-answers c w deadline is_queued (r ∷ rs) h =
    ground (
      arith,
      claim_round-answers c w deadline is_queued r,
      claim_rounds-answers c w deadline true rs,
    )

-- A request for capacity is answered, granted or refused, by the first round that begins, or whose
-- wait ends, at the deadline: no notification and no change of the status keeps it waiting longer.
pub claim-answers :
    (c : ThermalPolicyConfig) (w : WorkloadRequest) (status : Status) (now : Float)
    (rs : List Round)
    → any (is_last (fadd now c.recovery_step_seconds)) rs ≡ true
    → is_waiting (claim_thermal_capacity c w status now rs).1 ≡ false
unfolding claim_thermal_capacity
claim-answers c w status now rs h =
    ground (arith, claim_rounds-answers c w (fadd now c.recovery_step_seconds) false rs)
