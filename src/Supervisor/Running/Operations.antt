-- ===== src/Supervisor/Running/Operations.antt =====
-- The operations of backend/modeldeck/supervisor/service.py, and what critical_stop_all leaves running.
use model_deck.Base.{
  ℕ, ◌≡◌, refl, inl, inr, String, Bool, true, false, not, ◌&&◌, ◌==◌, List, [], ◌∷◌, map, any, all,
  arith, All, All-append, Bool-cases, Option-cases, str_eq,
}
use model_deck.Supervisor.{
  Process, alive, no_process, exited, Worker, Supervisor, LifecycleClass, is_alive, is_exclusive,
  find, create_process, refresh_exit, refresh_exits, stop, stop_all, critical_stop,
  critical_stop_all, register_profile, remove_profile, removed, without, failed, validating,
  starting, loading, warming, ready, incompatible, startup_failed, identity_mismatch, launch_failed,
  port_in_use, invalid_launch,
}
use model_deck.Supervisor.Start.{
  StartAnswers, Startup, load_error, identity_error, warmup_error, is_ready, refused, rivals,
  come_up, launch, validate, admitted, start_worker, start, restart, Op, register, remove, exits,
  stops, starts, restarts, list_workers, stops_all, critical_stops_all, perform, perform_all,
  no_workers,
}
use model_deck.Supervisor.Keys.{keys, keys-stop}
use model_deck.Supervisor.Unique.{Distinct, perform-Distinct}
use model_deck.Supervisor.Critical.{none_runs, critical_stop_all-none_runs}
use model_deck.Supervisor.Running.{
  AllSound, fail_as-AllSound, found-quiet, halted, halted-AllSound, if-AllSound, loosen,
  pair-AllSound, process_exits-AllSound, quiet_change, sound, stop-AllSound, stop_ids-AllSound,
  transition-AllSound,
}

come_up-AllSound :
    (how : Startup) (id : String) (s : Supervisor)
    → AllSound [] s
    → AllSound [] (come_up how id s).0
unfolding come_up
come_up-AllSound load_error id s h =
    process_exits-AllSound [] id _ (fail_as-AllSound [] id failed startup_failed s h)
come_up-AllSound identity_error id s h =
    process_exits-AllSound [] id _ (fail_as-AllSound [] id incompatible identity_mismatch s h)
come_up-AllSound warmup_error id s h =
    process_exits-AllSound [] id _
      (fail_as-AllSound [] id failed startup_failed _ (transition-AllSound [] id warming s h))
come_up-AllSound is_ready id s h =
    transition-AllSound [] id ready _ (transition-AllSound [] id warming s h)

-- A process is created where none runs.
launch-AllSound :
    (a : StartAnswers) (id : String) (s : Supervisor)
    → AllSound (id ∷ []) s
    → AllSound [] (launch a id s).0
unfolding launch
launch-AllSound a id s h =
    let starting_up = transition-AllSound (id ∷ []) id starting s h in
    let created = quiet_change id [] create_process _ (λ w r x p. ground arith) starting_up in
    pair-AllSound [] id (not a.spawned) _ _
      (loosen id [] _ (fail_as-AllSound (id ∷ []) id failed launch_failed _ starting_up))
      (come_up-AllSound a.startup id _ (transition-AllSound [] id loading _ created))

validate-AllSound :
    (a : StartAnswers) (id : String) (s : Supervisor)
    → AllSound (id ∷ []) s
    → AllSound [] (validate a id s).0
unfolding validate
validate-AllSound a id s h =
    let checked = transition-AllSound (id ∷ []) id validating s h in
    pair-AllSound [] id (not a.port_free && not a.reclaimed) _ _
      (loosen id [] _ (fail_as-AllSound (id ∷ []) id failed port_in_use _ checked))
      (pair-AllSound [] id (not a.launch_valid) _ _
        (loosen id [] _ (fail_as-AllSound (id ∷ []) id failed invalid_launch _ checked))
        (launch-AllSound a id _ checked))

start-AllSound :
    (a : StartAnswers) (id : String) (s : Supervisor)
    → Distinct (keys s)
    → AllSound [] s
    → AllSound [] (start a id s).0
unfolding start start_worker admitted keys
start-AllSound a id s d h = elim (Option-cases (find id s.workers)) [
  | inl e ↦ rw (e, start) h
  | inr (w, e) ↦ elim (Bool-cases (is_alive w.process)) [
    | inl l ↦ rw (e, l, start) h
    | inr l ↦ elim (Option-cases (refused a.decision)) [
      | inr (action, r) ↦ rw (e, l, r, start) h
      | inl r ↦
          let quiet = found-quiet [] id s.workers w d e l h in
          rw (e, l, r, start)
            (validate-AllSound a id _ (
              if-AllSound (id ∷ []) id (is_exclusive w.lifecycle) _ s
                (stop_ids-AllSound (id ∷ []) (rivals id s.workers) s d quiet) quiet))
    ]
  ]
]

critical_stop-AllSound :
    (ws : List Worker) (s : Supervisor) → AllSound [] s → AllSound [] (critical_stop ws s)
unfolding critical_stop halted
critical_stop-AllSound [] s h = h
critical_stop-AllSound (w ∷ ws) s h =
    critical_stop-AllSound ws _
      (if-AllSound [] w.id (is_alive w.process) (halted w.id s) s (halted-AllSound [] w.id s h) h)

without-AllSound :
    (id : String) (ws : List Worker)
    → All (λ w. sound [] w ≡ true) ws
    → All (λ w. sound [] w ≡ true) (without id ws)
unfolding without
without-AllSound id [] h = tt
without-AllSound id (w ∷ ws) h = elim (Bool-cases (str_eq w.id id)) [
  | inl e ↦ rw e (without-AllSound id ws h.1)
  | inr e ↦ rw e (h.0, without-AllSound id ws h.1)
]

refreshed-AllSound :
    (ws : List Worker)
    → All (λ w. sound [] w ≡ true) ws
    → All (λ w. sound [] w ≡ true) (map refresh_exit ws)
unfolding refresh_exit
refreshed-AllSound [] h = tt
refreshed-AllSound (w ∷ ws) h = (ground (arith, h.0), refreshed-AllSound ws h.1)

remove-AllSound :
    (id : String) (s : Supervisor) → AllSound [] s → AllSound [] (remove_profile id s).0
unfolding remove_profile refresh_exits removed
remove-AllSound id s h = elim (Option-cases (find id s.workers)) [
  | inl e ↦ rw (e, remove_profile) h
  | inr (w, e) ↦
      let fresh = refreshed-AllSound s.workers h in
      rw (e, remove_profile) (ground (arith, fresh, without-AllSound id _ fresh))
]

register-AllSound :
    (id : String) (port : ℕ) (lifecycle : LifecycleClass) (s : Supervisor)
    → AllSound [] s
    → AllSound [] (register_profile id port lifecycle s).0
unfolding register_profile
register-AllSound id port lifecycle s h = elim (Bool-cases (any (λ w. str_eq w.id id) s.workers)) [
  | inl e ↦ rw e h
  | inr e ↦ elim (Bool-cases (any (λ w. w.port == port) s.workers)) [
    | inl f ↦ rw (e, f) h
    | inr f ↦ rw (e, f) (All-append (λ w. sound [] w ≡ true) s.workers _ h (refl, tt))
  ]
]

perform-AllSound :
    (op : Op) (s : Supervisor) → Distinct (keys s) → AllSound [] s → AllSound [] (perform op s)
unfolding perform restart stop_all critical_stop_all refresh_exits
perform-AllSound (register id port lifecycle) s d h = register-AllSound id port lifecycle s h
perform-AllSound (remove id) s d h = remove-AllSound id s h
perform-AllSound (exits id) s d h = process_exits-AllSound [] id s h
perform-AllSound (stops id) s d h = stop-AllSound [] id s d h
perform-AllSound (starts a id) s d h = start-AllSound a id s d h
perform-AllSound (restarts a id) s d h =
    start-AllSound a id (stop id s) (rw (keys-stop id s) d) (stop-AllSound [] id s d h)
perform-AllSound list_workers s d h = refreshed-AllSound s.workers h
perform-AllSound stops_all s d h = stop_ids-AllSound [] _ s d h
perform-AllSound critical_stops_all s d h = critical_stop-AllSound s.workers s h

perform_all-AllSound :
    (ops : List Op) (s : Supervisor)
    → Distinct (keys s)
    → AllSound [] s
    → AllSound [] (perform_all ops s)
unfolding perform_all
perform_all-AllSound [] s d h = h
perform_all-AllSound (op ∷ ops) s d h =
    perform_all-AllSound ops (perform op s) (perform-Distinct op s d) (perform-AllSound op s d h)

abbrev pub is_gone : Process → Bool
is_gone no_process = true
is_gone exited = true
is_gone alive = false

abbrev pub none_running : List Worker → Bool
none_running ws = all (λ (w : Worker). (w.running == 0) && is_gone w.process) ws

dead-none_running :
    (ws : List Worker)
    → All (λ w. sound [] w ≡ true) ws
    → none_runs ws ≡ true
    → none_running ws ≡ true
dead-none_running [] h n = refl
dead-none_running (w ∷ ws) h n = ground (arith, h.0, n, dead-none_running ws h.1)

-- Whatever operations have gone before: once critical_stop_all has gone over the workers without an
-- interruption, the operating system runs no process of any of them, and no handle is that of a process
-- which runs.
pub critical_stop_all-none_running :
    (ops : List Op) → none_running (critical_stop_all (perform_all ops no_workers)).workers ≡ true
unfolding critical_stop_all no_workers keys Distinct
critical_stop_all-none_running ops =
    let s = perform_all ops no_workers in
    dead-none_running (critical_stop_all s).workers
      (critical_stop-AllSound s.workers s (perform_all-AllSound ops no_workers tt tt))
      (critical_stop_all-none_runs s)
