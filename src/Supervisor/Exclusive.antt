-- ===== src/Supervisor/Exclusive.antt =====
-- At most one exclusive worker has a running process.
use model_deck.Base.{
  ◌≡◌, refl, inl, inr, String, Bool, true, false, not, ◌&&◌, none, List, [], ◌∷◌, ◌++◌, map, arith,
  All, Bool-cases, Option-cases, str_eq, if◌then◌else◌,
}
use text.Mathlib.TextPositions.{eq_refl}
use model_deck.Text.{member}
use model_deck.Supervisor.{
  stop_worker, forget_process, stopping, is_unexpected, failed, exited_unexpectedly, no_process,
  WorkerState, stopped, Worker, Supervisor, is_alive, is_exclusive, find, modify, transition,
  change, fail_as, terminate, refresh_exit, watch_exit, process_exits, stop, stop_ids, WorkerError,
}
use model_deck.Supervisor.Start.{rivals}

-- An exclusive worker whose process runs.
abbrev pub live : Worker → Bool
live w = is_exclusive w.lifecycle && is_alive w.process

-- A live worker outside `ids`.
abbrev pub strays : List String → Worker → Bool
strays ids w = live w && not (member w.id ids)

abbrev pub NoStray : List String → List Worker → Type 0
NoStray ids ws = All (λ w. strays ids w ≡ false) ws

-- A change of one worker, from one property of workers to another.
pub modify-All :
    (P Q : Worker → Type 0) (id : String) (f : Worker → Worker) (ws : List Worker)
    → ((w : Worker) → str_eq w.id id ≡ true → P w → Q (f w))
    → ((w : Worker) → str_eq w.id id ≡ false → P w → Q w)
    → All P ws
    → All Q (modify id f ws)
unfolding modify
modify-All P Q id f [] same other h = tt
modify-All P Q id f (w ∷ ws) same other h = elim (Bool-cases (str_eq w.id id)) [
  | inl e ↦ rw e (same w e h.0, modify-All P Q id f ws same other h.1)
  | inr e ↦ rw e (other w e h.0, modify-All P Q id f ws same other h.1)
]

-- What leaves identity and liveness alone, or ends a process, makes no strays.
module _ (ids : List String) (id : String) (s : Supervisor) (h : NoStray ids s.workers) where
  abbrev Kept : Supervisor → Type 0
  Kept t = NoStray ids t.workers

  pub change-NoStray :
      (f : Worker → Worker)
      → ((w : Worker) → strays ids w ≡ false → strays ids (f w) ≡ false)
      → Kept (change id f s)
  unfolding change
  change-NoStray f tame =
      modify-All (λ w. strays ids w ≡ false) (λ w. strays ids w ≡ false) id f s.workers
        (λ w e p. tame w p) (λ w e p. p) h

  pub transition-NoStray : (state : WorkerState) → Kept (transition id state s)
  unfolding transition
  transition-NoStray state =
      modify-All (λ w. strays ids w ≡ false) (λ w. strays ids w ≡ false) id _ s.workers (λ w e p. p)
        (λ w e p. p) h

  pub terminate-NoStray : Kept (terminate id s)
  unfolding terminate
  terminate-NoStray = change-NoStray _ (λ w p. ground arith)

pub if-NoStray :
    (ids : List String) (b : Bool) (x y : Supervisor)
    → NoStray ids x.workers
    → NoStray ids y.workers
    → NoStray ids (if b then x else y).workers
if-NoStray ids true x y hx hy = hx
if-NoStray ids false x y hx hy = hy

module _ (ids : List String) (id : String) (s : Supervisor) (h : NoStray ids s.workers) where
  pub fail_as-NoStray :
      (state : WorkerState) (e : WorkerError) → NoStray ids (fail_as id state e s).workers
  unfolding fail_as
  fail_as-NoStray state e =
      transition-NoStray ids id _ (change-NoStray ids id s h _ (λ w p. p)) state

  pub watch_exit-NoStray : NoStray ids (watch_exit id s).workers
  unfolding watch_exit
  watch_exit-NoStray = elim (Option-cases (find id s.workers)) [
    | inl e ↦ rw (e, watch_exit) h
    | inr (w, e) ↦
        rw (e, watch_exit)
          (if-NoStray ids (is_unexpected w.state) _ s (fail_as-NoStray failed exited_unexpectedly)
            h)
  ]

module _ (ids : List String) (id : String) (s : Supervisor) (h : NoStray ids s.workers) where
  pub process_exits-NoStray : NoStray ids (process_exits id s).workers
  unfolding process_exits
  process_exits-NoStray = watch_exit-NoStray ids id _ (terminate-NoStray ids id s h)

pub refresh_exits-NoStray :
    (ids : List String) (ws : List Worker) → NoStray ids ws → NoStray ids (map refresh_exit ws)
unfolding refresh_exit
refresh_exits-NoStray ids [] h = tt
refresh_exits-NoStray ids (w ∷ ws) h = (ground (arith, h.0), refresh_exits-NoStray ids ws h.1)

pub find-none :
    (id : String) (ws : List Worker) → find id ws ≡ none → All (λ w. str_eq w.id id ≡ false) ws
unfolding find
find-none id [] e = tt
find-none id (w ∷ ws) e = elim (Bool-cases (str_eq w.id id)) [
  | inl t ↦ absurd (cc (e, t))
  | inr f ↦ (f, find-none id ws (rw f at e))
]

pub unlisted :
    (ids : List String) (id : String) (ws : List Worker)
    → All (λ w. str_eq w.id id ≡ false) ws
    → NoStray (id ∷ ids) ws
    → NoStray ids ws
unlisted ids id [] u h = tt
unlisted ids id (w ∷ ws) u h = (ground (arith, u.0, h.0), unlisted ids id ws u.1 h.1)

-- Ending the process of the worker `id` takes it off the list of those that may run.
pub silence :
    (ids : List String) (id : String) (s : Supervisor) (f : Worker → Worker)
    → ((w : Worker) → is_alive (f w).process ≡ false)
    → NoStray (id ∷ ids) s.workers
    → NoStray ids (change id f s).workers
unfolding change
silence ids id s f quiet h =
    modify-All (λ w. strays (id ∷ ids) w ≡ false) (λ w. strays ids w ≡ false) id f s.workers
      (λ w e p. ground (arith, quiet w)) (λ w e p. ground arith) h

stop_worker-NoStray :
    (ids : List String) (id : String) (w : Worker) (s : Supervisor)
    → NoStray (id ∷ ids) s.workers
    → NoStray ids (stop_worker id w s).workers
unfolding stop_worker
stop_worker-NoStray ids id w s h =
    if-NoStray ids (is_alive w.process) _ _
      (transition-NoStray ids id _
        (silence ids id _ (λ v. record v { process = no_process; started = false }) (λ v. refl)
          (terminate-NoStray (id ∷ ids) id _ (transition-NoStray (id ∷ ids) id s h stopping)))
        stopped)
      (transition-NoStray ids id _ (silence ids id s forget_process (λ v. refl) h) stopped)

-- After a stop its worker is no stray any more.
pub stop-NoStray :
    (ids : List String) (id : String) (s : Supervisor)
    → NoStray (id ∷ ids) s.workers
    → NoStray ids (stop id s).workers
unfolding stop
stop-NoStray ids id s h = elim (Option-cases (find id s.workers)) [
  | inl e ↦ rw (e, stop) (unlisted ids id s.workers (find-none id s.workers e) h)
  | inr (w, e) ↦ rw (e, stop) (stop_worker-NoStray ids id w s h)
]

pub more-NoStray :
    (ids : List String) (id : String) (ws : List Worker) → NoStray ids ws → NoStray (id ∷ ids) ws
more-NoStray ids id [] h = tt
more-NoStray ids id (w ∷ ws) h = (ground (arith, h.0), more-NoStray ids id ws h.1)

pub stop_ids-NoStray :
    (ids more : List String) (s : Supervisor)
    → NoStray (more ++ ids) s.workers
    → NoStray ids (stop_ids more s).workers
unfolding stop_ids
stop_ids-NoStray ids [] s h = h
stop_ids-NoStray ids (id ∷ more) s h =
    stop_ids-NoStray ids more (stop id s) (stop-NoStray (more ++ ids) id s h)

member-last :
    (ids : List String) (x id : String) → str_eq x id ≡ true → member x (ids ++ id ∷ []) ≡ true
member-last [] x id e = ground arith
member-last (y ∷ ids) x id e = ground (arith, member-last ids x id e)

rivals_step :
    (rival : Bool) (id : String) (w : Worker) (ws : List Worker) (ids : List String)
    → (not (str_eq w.id id) && is_exclusive w.lifecycle && is_alive w.process) ≡ rival
    → NoStray (ids ++ id ∷ []) ws
    → NoStray ((if rival then w.id ∷ ids else ids) ++ id ∷ []) (w ∷ ws)
rivals_step true id w ws ids e h = (ground (arith, eq_refl w.id), more-NoStray _ w.id ws h)
rivals_step false id w ws ids e h = (ground (arith, e, member-last ids w.id id), h)

-- Every live worker but `id` is among the rivals of `id`.
pub rivals-NoStray : (id : String) (ws : List Worker) → NoStray (rivals id ws ++ id ∷ []) ws
unfolding rivals
rivals-NoStray id [] = tt
rivals-NoStray id (w ∷ ws) = rivals_step _ id w ws (rivals id ws) refl (rivals-NoStray id ws)
