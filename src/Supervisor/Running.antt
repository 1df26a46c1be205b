-- ===== src/Supervisor/Running.antt =====
-- The processes of backend/modeldeck/supervisor/service.py that the operating system runs, against the
-- handles that the supervisor keeps.
pub mod Operations
use model_deck.Base.{
  ℕ, ◌+◌, ◌-◌, ◌≡◌, refl, ap, sym, ◌∙◌, inl, inr, String, Bool, true, false, not, ◌&&◌, ◌||◌, ◌==◌,
  some, none, List, [], ◌∷◌, ◌++◌, map, any, all, arith, All, All-append, Bool-cases, Option-cases,
  str_eq, eq_iff, if◌then◌else◌,
}
use model_deck.Text.{member}
use model_deck.Supervisor.{
  Process, alive, no_process, exited, Worker, WorkerState, WorkerError, Supervisor, LifecycleClass,
  is_alive, is_exclusive, is_unexpected, find, modify, transition, change, fail_as, end_process,
  left_running, create_process, terminate, refresh_exit, refresh_exits, watch_exit, process_exits,
  stop_worker, stop, stop_ids, stop_all, critical_stop, critical_stop_all, register_profile,
  remove_profile, removed, without, forget_process, stopped, stopping, failed, validating, starting,
  loading, warming, ready, incompatible, exited_unexpectedly, startup_failed, identity_mismatch,
  launch_failed, port_in_use, invalid_launch,
}
use model_deck.Supervisor.Start.{
  StartAnswers, StartResult, Startup, load_error, identity_error, warmup_error, is_ready, refused,
  rivals, come_up, launch, validate, admitted, start_worker, start, restart, Op, register, remove,
  exits, stops, starts, restarts, list_workers, stops_all, critical_stops_all, perform, perform_all,
  no_workers,
}
use model_deck.Supervisor.Keys.{key_of, keys, keys-stop}
use model_deck.Supervisor.Unique.{Distinct, perform-Distinct}
use model_deck.Supervisor.Exclusive.{modify-All, find-none}
use model_deck.Supervisor.Critical.{none_runs, critical_stop_all-none_runs}
use model_deck.Supervisor.Admit.{str_eq-right}

abbrev pub handles : Process → ℕ
handles alive = 1
handles _ = 0

-- One process runs where the handle is alive, and none where it is not; and the handles of the workers
-- `ids` are not.
abbrev pub sound : List String → Worker → Bool
sound ids w = (w.running == handles w.process) && not (member w.id ids && is_alive w.process)

abbrev pub AllSound : List String → Supervisor → Type 0
AllSound ids s = All (λ w. sound ids w ≡ true) s.workers

-- An operation that changes one worker at a time, in a way that keeps it sound.
module _ (ids : List String) (key : String) where
  pub change-AllSound :
      (f : Worker → Worker) (s : Supervisor)
      → ((w : Worker) → sound ids w ≡ true → sound ids (f w) ≡ true)
      → AllSound ids s
      → AllSound ids (change key f s)
  unfolding change
  change-AllSound f s same h =
      modify-All (λ w. sound ids w ≡ true) (λ w. sound ids w ≡ true) key f s.workers
        (λ w e p. same w p) (λ w e p. p) h

  pub transition-AllSound :
      (state : WorkerState) (s : Supervisor)
      → AllSound ids s
      → AllSound ids (transition key state s)
  unfolding transition
  transition-AllSound state s h =
      modify-All (λ w. sound ids w ≡ true) (λ w. sound ids w ≡ true) key _ s.workers (λ w e p. p)
        (λ w e p. p) h

  pub terminate-AllSound : (s : Supervisor) → AllSound ids s → AllSound ids (terminate key s)
  unfolding terminate
  terminate-AllSound s h = change-AllSound end_process s (λ w p. ground arith) h

  pub fail_as-AllSound :
      (state : WorkerState) (e : WorkerError) (s : Supervisor)
      → AllSound ids s
      → AllSound ids (fail_as key state e s)
  unfolding fail_as
  fail_as-AllSound state e s h = transition-AllSound state _ (change-AllSound _ s (λ w p. p) h)

  pub if-AllSound :
      (b : Bool) (x y : Supervisor)
      → AllSound ids x
      → AllSound ids y
      → AllSound ids (if b then x else y)
  if-AllSound true x y hx hy = hx
  if-AllSound false x y hx hy = hy

  pub pair-AllSound :
      (b : Bool) (x y : Supervisor × StartResult)
      → AllSound ids x.0
      → AllSound ids y.0
      → AllSound ids (if b then x else y).0
  pair-AllSound true x y hx hy = hx
  pair-AllSound false x y hx hy = hy

  pub process_exits-AllSound :
      (s : Supervisor) → AllSound ids s → AllSound ids (process_exits key s)
  unfolding process_exits watch_exit
  process_exits-AllSound s h =
      let t = terminate key s in
      let ht = terminate-AllSound s h in
      elim (Option-cases (find key t.workers)) [
        | inl e ↦ rw (e, watch_exit) ht
        | inr (w, e) ↦
            rw (e, watch_exit)
              (if-AllSound (is_unexpected w.state) _ t
                (fail_as-AllSound failed exited_unexpectedly t ht) ht)
      ]

-- Ending the process of a worker makes it quiet, and what is quiet can be forgotten, or created anew.
pub quieten :
    (ids : List String) (key : String) (s : Supervisor)
    → AllSound ids s
    → AllSound (key ∷ ids) (terminate key s)
unfolding terminate change
quieten ids key s h =
    modify-All (λ w. sound ids w ≡ true) (λ w. sound (key ∷ ids) w ≡ true) key end_process s.workers
      (λ w e p. ground arith) (λ w e p. ground arith) h

pub loosen :
    (key : String) (ids : List String) (ws : List Worker)
    → All (λ w. sound (key ∷ ids) w ≡ true) ws
    → All (λ w. sound ids w ≡ true) ws
loosen key ids [] h = tt
loosen key ids (w ∷ ws) h = (ground (arith, h.0), loosen key ids ws h.1)

pub quiet_change :
    (key : String) (ids : List String) (f : Worker → Worker) (s : Supervisor)
    → ((w : Worker)
        → (w.running == handles w.process) ≡ true
        → is_alive w.process ≡ false
        → sound ids w ≡ true
        → sound ids (f w) ≡ true)
    → AllSound (key ∷ ids) s
    → AllSound ids (change key f s)
unfolding change
quiet_change key ids f s good h =
    modify-All (λ w. sound (key ∷ ids) w ≡ true) (λ w. sound ids w ≡ true) key f s.workers
      (λ w e p. good w (ground (arith, p)) (ground (arith, p, e)) (ground (arith, p)))
      (λ w e p. ground (arith, p)) h

apart-quiet :
    (ids : List String) (id : String) (v : Worker) (us : List Worker)
    → str_eq v.id id ≡ true
    → All (λ j. (str_eq v.id j.0 || (v.port == j.1)) ≡ false) (map key_of us)
    → All (λ u. sound ids u ≡ true) us
    → All (λ u. sound (id ∷ ids) u ≡ true) us
unfolding key_of
apart-quiet ids id v [] t c h = tt
apart-quiet ids id v (u ∷ us) t c h =
    (ground (arith, c.0, h.0, t, str_eq-right v.id u.id id t), apart-quiet ids id v us t c.1 h.1)

-- The worker found has no live handle, and its identifier is its own.
pub found-quiet :
    (ids : List String) (id : String) (ws : List Worker) (w : Worker)
    → Distinct (map key_of ws)
    → find id ws ≡ some w
    → is_alive w.process ≡ false
    → All (λ v. sound ids v ≡ true) ws
    → All (λ v. sound (id ∷ ids) v ≡ true) ws
unfolding Distinct find key_of
found-quiet ids id [] w d e x h = tt
found-quiet ids id (v ∷ ws) w d e x h = elim (Bool-cases (str_eq v.id id)) [
  | inl t ↦
      let dead : is_alive v.process ≡ false = cc (rw t at e, x) in
      (ground (arith, h.0, dead), apart-quiet ids id v ws t d.0 h.1)
  | inr t ↦ (ground (arith, h.0, t), found-quiet ids id ws w d.1 (rw t at e) x h.1)
]

-- The stop of a process that runs, by stop and by critical_stop_all.
unfoldable pub halted : String → Supervisor → Supervisor
halted key s = transition key stopped (
    change key (λ v. record v { process = no_process; started = false })
      (terminate key (transition key stopping s)))

pub halted-AllSound :
    (ids : List String) (key : String) (s : Supervisor)
    → AllSound ids s
    → AllSound ids (halted key s)
unfolding halted
halted-AllSound ids key s h = transition-AllSound ids key stopped _ (
    quiet_change key ids _ _ (λ w r d p. ground arith)
      (quieten ids key _ (transition-AllSound ids key stopping s h)))

pub stop-AllSound :
    (ids : List String) (key : String) (s : Supervisor)
    → Distinct (keys s)
    → AllSound ids s
    → AllSound ids (stop key s)
unfolding stop stop_worker halted keys
stop-AllSound ids key s d h = elim (Option-cases (find key s.workers)) [
  | inl e ↦ rw (e, stop) h
  | inr (w, e) ↦ elim (Bool-cases (is_alive w.process)) [
    | inl l ↦ rw (e, l, stop) (halted-AllSound ids key s h)
    | inr l ↦
        rw (e, l, stop)
          (transition-AllSound ids key stopped _ (
            quiet_change key ids forget_process s (λ w r x p. ground arith)
              (found-quiet ids key s.workers w d e l h)))
  ]
]

pub stop_ids-AllSound :
    (ids more : List String) (s : Supervisor)
    → Distinct (keys s)
    → AllSound ids s
    → AllSound ids (stop_ids more s)
unfolding stop_ids
stop_ids-AllSound ids [] s d h = h
stop_ids-AllSound ids (key ∷ more) s d h =
    stop_ids-AllSound ids more (stop key s) (rw (keys-stop key s) d) (stop-AllSound ids key s d h)
