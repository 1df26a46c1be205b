-- ===== src/Thermal/Admission/Policy.antt =====
-- What the admission policy promises, against the order of severity and the capacity table.
use model_deck.Base.{
  ℕ, ◌≤◌, ◌≡◌, ◌≢◌, ◌↔◌, ◌⊎◌, String, Bool, true, false, Option, none, some, arith, is_none,
}
use model_deck.Float.{Float}
use model_deck.Thermal.Config.{
  ThermalState, normal, telemetry_degraded, ThermalPolicyConfig, ThermalCapacity,
  capacity_for_state, post_init,
}
use model_deck.Thermal.Config.Valid.{post_init-Accepted}
use model_deck.Thermal.Machine.Safety.{rank}
use model_deck.Thermal.Admission.{
  WorkloadClass, light_control, interactive, background, benchmark, model_load, heavy_inference,
  AdmissionAction, allow, allow_degraded, queue, pause, reject_retryable, cancel, WorkloadRequest,
  Degradation, classify_workload, outcome, evaluate, degradation,
}

-- The actions with which a caller goes on.
abbrev pub admits : AdmissionAction → Bool
admits allow = true
admits allow_degraded = true
admits _ = false

-- What is admitted in a state is admitted in every milder one, the degraded state aside.
pub outcome_antitone :
    (c : ThermalPolicyConfig) (request : WorkloadRequest) (mild severe : ThermalState)
    (active : Option ℕ)
    → mild ≢ telemetry_degraded
    → rank mild ≤ rank severe
    → admits (outcome c request severe active).0 ≡ true
    → severe ≢ telemetry_degraded
    → admits (outcome c request mild active).0 ≡ true
unfolding outcome rank
outcome_antitone c request mild severe active m le h s = ground arith

-- The capacity that a class of work draws on; control work draws on none.
unfoldable pub capacity_of : ThermalCapacity → WorkloadClass → Option ℕ
capacity_of k light_control = none
capacity_of k background = some k.background_concurrency
capacity_of k benchmark = some k.background_concurrency
capacity_of k model_load = some k.model_load_concurrency
capacity_of k _ = some k.heavy_inference_concurrency

-- Under an accepted configuration the policy admits work only into a capacity that is not 0.
pub admitted-capacity :
    (c : ThermalPolicyConfig) (request : WorkloadRequest) (state : ThermalState) (active : Option ℕ)
    → post_init c ≡ none
    → admits (outcome c request state active).0 ≡ true
    → capacity_of (capacity_for_state c state) request.workload_class ≢ some 0
unfolding outcome capacity_of capacity_for_state
admitted-capacity c request state active ok h = ground (arith, post_init-Accepted c ok)

-- A more severe state has no more capacity of any kind; both states are undegraded, or the degraded
-- state stands against one of the two coolest.
pub capacity_antitone :
    (c : ThermalPolicyConfig) (mild severe : ThermalState)
    → post_init c ≡ none
    → mild ≢ telemetry_degraded
    → (severe ≢ telemetry_degraded) × (rank mild ≤ rank severe)
      ⊎ (severe ≡ telemetry_degraded) × (rank mild ≤ 1)
    → let k = capacity_for_state c mild in
      let l = capacity_for_state c severe in
      (l.heavy_inference_concurrency ≤ k.heavy_inference_concurrency)
      × (l.model_load_concurrency ≤ k.model_load_concurrency)
      × (l.background_concurrency ≤ k.background_concurrency)
unfolding capacity_for_state rank
capacity_antitone c mild severe ok m h = ground (arith, post_init-Accepted c ok)

-- With throttling enabled, background work and benchmarks go on in the normal state only: in every
-- other state they are paused, and in the critical state cancelled.
pub background_needs_normal :
    (c : ThermalPolicyConfig) (request : WorkloadRequest) (state : ThermalState) (active : Option ℕ)
    → c.enabled ≡ true
    → (request.workload_class ≡ background) ⊎ (request.workload_class ≡ benchmark)
    → (admits (outcome c request state active).0 ≡ true ↔ state ≡ normal)
      × ((state ≡ normal)
          ⊎ ((outcome c request state active).0 ≡ pause)
          ⊎ ((outcome c request state active).0 ≡ cancel))
unfolding outcome
background_needs_normal c request state active on h = ground arith

-- A decision suggests a retry after the recovery step exactly when it queues, pauses or rejects,
-- and carries a degradation exactly when it allows degraded work.
pub evaluate_parts :
    (c : ThermalPolicyConfig) (request : WorkloadRequest) (state : ThermalState)
    (temperature age : Option Float) (active : Option ℕ)
    → let d = evaluate c request state temperature age active in
      (is_none d.degradation ≡ false ↔ d.action ≡ allow_degraded)
      × (d.suggested_retry_seconds ≡ some c.recovery_step_seconds
          ↔ ((d.action ≡ queue) ⊎ (d.action ≡ pause) ⊎ (d.action ≡ reject_retryable)))
unfolding evaluate degradation
evaluate_parts c request state temperature age active = ground arith

-- No decision of the policy forbids automatic capture: the very hot state never allows degraded
-- work, so the setting that stops automatic scenes there has no effect on a decision.
pub capture_always_allowed :
    (c : ThermalPolicyConfig) (request : WorkloadRequest) (state : ThermalState)
    (temperature age : Option Float) (active : Option ℕ) (d : Degradation)
    → (evaluate c request state temperature age active).degradation ≡ some d
    → d.automatic_capture_allowed ≡ true
unfolding evaluate degradation outcome
capture_always_allowed c request state temperature age active d h = ground arith

-- The automatic flag turns only inference into background work: control, benchmark and load
-- operations keep their class.
pub classify_automatic :
    (operation : String)
    → (classify_workload operation true ≡ classify_workload operation false)
      ⊎ ((classify_workload operation true ≡ background)
          × ((classify_workload operation false ≡ interactive)
              ⊎ (classify_workload operation false ≡ heavy_inference)))
unfolding classify_workload
classify_automatic operation = ground arith
