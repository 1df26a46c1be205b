-- ===== src/Supervisor/Failure.antt =====
-- What is left of a worker after the startup of start in backend/modeldeck/supervisor/service.py has
-- succeeded or failed and the watcher of its process has run.
use model_deck.Base.{
  ◌≡◌, refl, ap, ◌∙◌, inl, inr, String, some, List, [], ◌∷◌, Bool-cases, str_eq, if◌then◌else◌,
}
use model_deck.Supervisor.{
  end_process, left_running, WorkerState, failed, incompatible, warming, ready, Worker, WorkerError,
  startup_failed, identity_mismatch, exited_unexpectedly, Supervisor, ended, is_unexpected, find,
  modify, transition, change, fail_as, terminate, watch_exit, process_exits,
}
use model_deck.Supervisor.Start.{
  Startup, load_error, identity_error, warmup_error, is_ready, come_up,
}

some-ap : (f : Worker → Worker) (v w : Worker) → some v ≡ some w → some (f v) ≡ some (f w)
some-ap f v w e = cc e

find-modify :
    (id : String) (f : Worker → Worker) (ws : List Worker) (w : Worker)
    → ((v : Worker) → (f v).id ≡ v.id)
    → find id ws ≡ some w
    → find id (modify id f ws) ≡ some (f w)
unfolding find modify
find-modify id f [] w same e = absurd (cc e)
find-modify id f (v ∷ ws) w same e = elim (Bool-cases (str_eq v.id id)) [
  | inl t ↦ rw t (rw (ap (λ x. str_eq x id) (same v) ∙ t) (some-ap f v w (rw t at e)))
  | inr t ↦ rw (t, t) (find-modify id f ws w same (rw t at e))
]

-- The worker that a startup leaves.
unfoldable pub settled : Startup → Worker → Worker
settled is_ready w = record w { state = ready }
settled identity_error w = record w {
  state = failed;
  process = ended w.process;
  running = left_running w.process w.running;
  last_error = some exited_unexpectedly;
}
settled _ w = record w {
  state = failed;
  process = ended w.process;
  running = left_running w.process w.running;
  last_error = some startup_failed;
}

module _ (id : String) (s : Supervisor) (w : Worker) (e : find id s.workers ≡ some w) where
  find-transition :
      (state : WorkerState)
      → find id (transition id state s).workers ≡ some (record w { state = state })
  unfolding transition
  find-transition state = find-modify id _ s.workers w (λ v. refl) e

  find-fail_as :
      (state : WorkerState) (error : WorkerError)
      → find id (fail_as id state error s).workers
        ≡ some (record w { state = state; last_error = some error })
  unfolding fail_as transition change
  find-fail_as state error =
      find-modify id _ _ _ (λ v. refl) (find-modify id _ s.workers w (λ v. refl) e)

  find-terminate : find id (terminate id s).workers ≡ some (end_process w)
  unfolding terminate change
  find-terminate = find-modify id _ s.workers w (λ v. refl) e

watched : Worker → Worker
watched w =
    if is_unexpected w.state
    then record w { state = failed; last_error = some exited_unexpectedly }
    else w

find-watch_exit :
    (id : String) (s : Supervisor) (w : Worker)
    → find id s.workers ≡ some w
    → find id (watch_exit id s).workers ≡ some (watched w)
unfolding watch_exit watched
find-watch_exit id s w e = elim (Bool-cases (is_unexpected w.state)) [
  | inl u ↦ rw (e, u, watch_exit) (find-fail_as id s w e failed exited_unexpectedly)
  | inr u ↦ rw (e, u, watch_exit) e
]

find-process_exits :
    (id : String) (s : Supervisor) (w : Worker)
    → find id s.workers ≡ some w
    → find id (process_exits id s).workers ≡ some (watched (end_process w))
unfolding process_exits
find-process_exits id s w e = find-watch_exit id _ _ (find-terminate id s w e)

-- After the startup of a worker that is there, the worker is READY with its process as it was, or
-- FAILED with its process ended. A refused identity leaves FAILED with the error "exited
-- unexpectedly", in place of INCOMPATIBLE with the error of the identity.
pub come_up-settled :
    (how : Startup) (id : String) (s : Supervisor) (w : Worker)
    → find id s.workers ≡ some w
    → find id (come_up how id s).0.workers ≡ some (settled how w)
unfolding come_up settled watched
come_up-settled load_error id s w e =
    find-process_exits id _ _ (find-fail_as id s w e failed startup_failed)
come_up-settled identity_error id s w e =
    find-process_exits id _ _ (find-fail_as id s w e incompatible identity_mismatch)
come_up-settled warmup_error id s w e =
    find-process_exits id _ _
      (find-fail_as id _ _ (find-transition id s w e warming) failed startup_failed)
come_up-settled is_ready id s w e = find-transition id _ _ (find-transition id s w e warming) ready
