-- ===== src/Supervisor/Critical.antt =====
-- critical_stop_all of backend/modeldeck/supervisor/service.py, and a start that it meets.
use model_deck.Base.{
  ◌≡◌, refl, inl, inr, String, Bool, true, false, not, ◌&&◌, ◌||◌, List, [], ◌∷◌, any, all, arith,
  Bool-cases, str_eq, eq_iff,
}
use model_deck.Supervisor.{
  end_process, stopped, stopping, no_process, Worker, Supervisor, is_alive, modify, transition,
  change, terminate, critical_stop, critical_stop_all,
}

-- a worker of the list has this identifier and runs
abbrev pub runs : String → List Worker → Bool
runs id ws = any (λ (w : Worker). str_eq w.id id && is_alive w.process) ws

-- every worker that runs is one of those that are still to be stopped
abbrev covered : List Worker → List Worker → Bool
covered ws [] = true
covered ws (v ∷ vs) = (not (is_alive v.process) || runs v.id ws) && covered ws vs

abbrev pub none_runs : List Worker → Bool
none_runs ws = all (λ (w : Worker). not (is_alive w.process)) ws

-- what the loop does to the workers when it meets one that runs
isolated : String → List Worker → List Worker
isolated id ws =
    modify id (λ w. record w { state = stopped })
      (modify id (λ v. record v { process = no_process; started = false })
        (modify id end_process (modify id (λ w. record w { state = stopping }) ws)))

isolated-covered :
    (w : Worker) (ws vs : List Worker)
    → covered (w ∷ ws) vs ≡ true
    → covered ws (isolated w.id vs) ≡ true
unfolding isolated modify
isolated-covered w ws [] h = refl
isolated-covered w ws (v ∷ vs) h =
    ground (arith, h, isolated-covered w ws vs, eq_iff w.id v.id, eq_iff v.id w.id)

skipped-covered :
    (w : Worker) (ws vs : List Worker)
    → is_alive w.process ≡ false
    → covered (w ∷ ws) vs ≡ true
    → covered ws vs ≡ true
skipped-covered w ws [] e h = refl
skipped-covered w ws (v ∷ vs) e h = ground (arith, e, h, skipped-covered w ws vs e)

covered-none_runs : (vs : List Worker) → covered [] vs ≡ true → none_runs vs ≡ true
covered-none_runs [] h = refl
covered-none_runs (v ∷ vs) h = ground (arith, h, covered-none_runs vs)

critical_stop-none_runs :
    (ws : List Worker) (s : Supervisor)
    → covered ws s.workers ≡ true
    → none_runs (critical_stop ws s).workers ≡ true
unfolding critical_stop transition change terminate isolated
critical_stop-none_runs [] s h = covered-none_runs s.workers h
critical_stop-none_runs (w ∷ ws) s h = elim (Bool-cases (is_alive w.process)) [
  | inl e ↦ rw (critical_stop, e) (critical_stop-none_runs ws _ (isolated-covered w ws s.workers h))
  | inr e ↦
      rw (critical_stop, e) (critical_stop-none_runs ws s (skipped-covered w ws s.workers e h))
]

covered-weaken :
    (w : Worker) (ws vs : List Worker) → covered ws vs ≡ true → covered (w ∷ ws) vs ≡ true
covered-weaken w ws [] h = refl
covered-weaken w ws (v ∷ vs) h = ground (arith, h, covered-weaken w ws vs)

covered_self : (ws : List Worker) → covered ws ws ≡ true
covered_self [] = refl
covered_self (w ∷ ws) = ground (arith, covered-weaken w ws ws (covered_self ws), eq_iff w.id w.id)

-- Whatever the states of the workers are: once critical_stop_all has gone over them without an
-- interruption, no worker has the handle of a process that runs.
pub critical_stop_all-none_runs : (s : Supervisor) → none_runs (critical_stop_all s).workers ≡ true
unfolding critical_stop_all
critical_stop_all-none_runs s = critical_stop-none_runs s.workers s (covered_self s.workers)
