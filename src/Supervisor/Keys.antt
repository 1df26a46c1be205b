-- ===== src/Supervisor/Keys.antt =====
-- The identifiers and ports of the workers, which no operation but register and remove changes.
use model_deck.Base.{
  ℕ, ◌≡◌, refl, ap₂, ◌∙◌, String, Bool, true, false, List, [], ◌∷◌, map, arith, str_eq,
  if◌then◌else◌,
}
use model_deck.Supervisor.{
  WorkerState, Worker, WorkerError, Supervisor, modify, transition, change, fail_as, terminate,
  watch_exit, process_exits, LifecycleClass, refresh_exit, refresh_exits, stop_worker, stop,
  stop_ids, stop_all, critical_stop,
}
use model_deck.Supervisor.Start.{
  come_up, launch, validate, admitted, start_worker, start, StartAnswers, Startup, load_error,
  identity_error, warmup_error, is_ready,
}

unfoldable pub key_of : Worker → String × ℕ × LifecycleClass
key_of w = (w.id, w.port, w.lifecycle)

-- The identifiers, ports and lifecycles, in the order of the dictionary.
unfoldable pub keys : Supervisor → List (String × ℕ × LifecycleClass)
keys s = map key_of s.workers

keys-modify :
    (id : String) (f : Worker → Worker) (ws : List Worker)
    → ((w : Worker) → key_of (f w) ≡ key_of w)
    → map key_of (modify id f ws) ≡ map key_of ws
unfolding modify
keys-modify id f [] same = refl
keys-modify id f (w ∷ ws) same = ap₂ ◌∷◌ (key_if (str_eq w.id id)) (keys-modify id f ws same)
  where
    key_if : (b : Bool) → key_of (if b then f w else w) ≡ key_of w
    key_if true = same w
    key_if false = refl

pub keys-transition :
    (id : String) (state : WorkerState) (s : Supervisor) → keys (transition id state s) ≡ keys s
unfolding keys transition key_of
keys-transition id state s = keys-modify id _ s.workers (λ w. refl)

pub keys-change :
    (id : String) (f : Worker → Worker) (s : Supervisor)
    → ((w : Worker) → key_of (f w) ≡ key_of w)
    → keys (change id f s) ≡ keys s
unfolding keys change
keys-change id f s same = keys-modify id f s.workers same

pub keys-fail_as :
    (id : String) (state : WorkerState) (e : WorkerError) (s : Supervisor)
    → keys (fail_as id state e s) ≡ keys s
unfolding fail_as key_of
keys-fail_as id state e s = keys-transition id state _ ∙ keys-change id _ s (λ w. refl)

keys-terminate : (id : String) (s : Supervisor) → keys (terminate id s) ≡ keys s
unfolding terminate key_of
keys-terminate id s = keys-change id _ s (λ w. refl)

keys-watch_exit : (id : String) (s : Supervisor) → keys (watch_exit id s) ≡ keys s
unfolding watch_exit
keys-watch_exit id s = grind (arith, keys-fail_as)

pub keys-process_exits : (id : String) (s : Supervisor) → keys (process_exits id s) ≡ keys s
unfolding process_exits
keys-process_exits id s = keys-watch_exit id _ ∙ keys-terminate id s

keys-stop_worker : (id : String) (w : Worker) (s : Supervisor) → keys (stop_worker id w s) ≡ keys s
unfolding stop_worker key_of
keys-stop_worker id w s = grind (arith, keys-transition, keys-change, keys-terminate)

pub keys-stop : (id : String) (s : Supervisor) → keys (stop id s) ≡ keys s
unfolding stop
keys-stop id s = grind (arith, keys-stop_worker)

pub keys-stop_ids : (ids : List String) (s : Supervisor) → keys (stop_ids ids s) ≡ keys s
unfolding stop_ids
keys-stop_ids [] s = refl
keys-stop_ids (id ∷ ids) s = keys-stop_ids ids (stop id s) ∙ keys-stop id s

pub keys-stop_all : (s : Supervisor) → keys (stop_all s) ≡ keys s
unfolding stop_all
keys-stop_all s = keys-stop_ids _ s

pub keys-critical_stop : (ws : List Worker) (s : Supervisor) → keys (critical_stop ws s) ≡ keys s
unfolding critical_stop key_of
keys-critical_stop [] s = refl
keys-critical_stop (w ∷ ws) s =
    keys-critical_stop ws _ ∙ grind (arith, keys-transition, keys-change, keys-terminate)

pub keys-refresh_exits : (s : Supervisor) → keys (refresh_exits s) ≡ keys s
unfolding keys refresh_exits key_of refresh_exit
keys-refresh_exits s = go s.workers
  where
    go : (ws : List Worker) → map key_of (map refresh_exit ws) ≡ map key_of ws
    go [] = refl
    go (w ∷ ws) = ap₂ ◌∷◌ (ground arith) (go ws)

keys-come_up : (how : Startup) (id : String) (s : Supervisor) → keys (come_up how id s).0 ≡ keys s
unfolding come_up
keys-come_up load_error id s = grind (arith, keys-process_exits, keys-fail_as)
keys-come_up identity_error id s = grind (arith, keys-process_exits, keys-fail_as)
keys-come_up warmup_error id s = grind (arith, keys-process_exits, keys-fail_as, keys-transition)
keys-come_up is_ready id s = grind (arith, keys-transition)

keys-launch : (a : StartAnswers) (id : String) (s : Supervisor) → keys (launch a id s).0 ≡ keys s
unfolding launch key_of
keys-launch a id s = grind (arith, keys-come_up, keys-fail_as, keys-transition, keys-change)

keys-validate :
    (a : StartAnswers) (id : String) (s : Supervisor) → keys (validate a id s).0 ≡ keys s
unfolding validate
keys-validate a id s = grind (arith, keys-launch, keys-fail_as, keys-transition)

pub keys-start : (a : StartAnswers) (id : String) (s : Supervisor) → keys (start a id s).0 ≡ keys s
unfolding start start_worker admitted
keys-start a id s = grind (arith, keys-validate, keys-stop_ids)
