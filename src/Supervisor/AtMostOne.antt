-- ===== src/Supervisor/AtMostOne.antt =====
-- The `exclusive` lifecycle of backend/modeldeck/supervisor/service.py, over all operations: a start
-- keeps at most one exclusive process.
use model_deck.Base.{
  ℕ, suc, ◌≤◌, ◌≡◌, refl, inl, inr, String, true, false, ◌==◌, ◌||◌, some, List, [], ◌∷◌, ◌++◌, map,
  any, arith, All, All-append, Bool-cases, Option-cases, str_eq, if◌then◌else◌,
}
use model_deck.Supervisor.{
  LifecycleClass, stopped, stopping, Worker, Supervisor, is_alive, is_exclusive, find, refresh_exit,
  refresh_exits, stop, register_profile, remove_profile, removed, without, critical_stop,
  critical_stop_all, stop_all,
}
use model_deck.Supervisor.Start.{
  StartAnswers, refused, admitted, start_worker, start, restart, Op, register, remove, exits, stops,
  starts, restarts, list_workers, stops_all, critical_stops_all, perform, perform_all, no_workers,
}
use model_deck.Supervisor.Keys.{key_of, keys, keys-stop}
use model_deck.Supervisor.Unique.{Key, Distinct, perform-Distinct}
use model_deck.Supervisor.Exclusive.{
  live, strays, NoStray, change-NoStray, transition-NoStray, if-NoStray, process_exits-NoStray,
  refresh_exits-NoStray, stop-NoStray, stop_ids-NoStray, terminate-NoStray, rivals-NoStray,
  more-NoStray,
}
use model_deck.Supervisor.Admit.{validate-NoStray, Fits-self, Fits-other, str_eq-right}

-- One identifier, at most, is that of live exclusive workers.
abbrev Owned : Supervisor → Type 0
Owned s = (owner : String) × NoStray (owner ∷ []) s.workers

admitted-Owned :
    (a : StartAnswers) (id : String) (w : Worker) (s : Supervisor)
    → find id s.workers ≡ some w
    → Distinct (keys s)
    → Owned s
    → Owned (admitted a id w s).0
unfolding admitted keys
admitted-Owned a id w s e d (owner, h) = elim (Bool-cases (is_exclusive w.lifecycle)) [
  | inl x ↦ rw x (
    id,
    validate-NoStray (id ∷ []) id a _ (Fits-self id _)
        (stop_ids-NoStray (id ∷ []) _ s (rivals-NoStray id s.workers)),
  )
  | inr x ↦
      rw x (
        owner,
        validate-NoStray (owner ∷ []) id a s (Fits-other (owner ∷ []) id s.workers w d e x) h,
      )
]

start-Owned :
    (a : StartAnswers) (id : String) (s : Supervisor)
    → Distinct (keys s)
    → Owned s
    → Owned (start a id s).0
unfolding start start_worker
start-Owned a id s d h = elim (Option-cases (find id s.workers)) [
  | inl e ↦ rw (e, start) h
  | inr (w, e) ↦
      rw (e, start)
        (elim (Bool-cases (is_alive w.process)) [
          | inl l ↦ rw l h
          | inr l ↦ rw l (elim (Option-cases (refused a.decision)) [
            | inl r ↦ rw r (admitted-Owned a id w s e d h)
            | inr (action, r) ↦ rw r h
          ])
        ])
]

critical_stop-Owned : (ws : List Worker) (s : Supervisor) → Owned s → Owned (critical_stop ws s)
unfolding critical_stop
critical_stop-Owned [] s h = h
critical_stop-Owned (w ∷ ws) s (owner, h) = critical_stop-Owned ws _ (
  owner,
  if-NoStray (owner ∷ []) (is_alive w.process) _ s
      (transition-NoStray (owner ∷ []) w.id _
        (change-NoStray (owner ∷ []) w.id _
          (terminate-NoStray (owner ∷ []) w.id _
            (transition-NoStray (owner ∷ []) w.id s h stopping))
          _ (λ v p. ground arith))
        stopped)
      h,
)

without-NoStray :
    (ids : List String) (id : String) (ws : List Worker)
    → NoStray ids ws
    → NoStray ids (without id ws)
unfolding without
without-NoStray ids id [] h = tt
without-NoStray ids id (w ∷ ws) h = elim (Bool-cases (str_eq w.id id)) [
  | inl e ↦ rw e (without-NoStray ids id ws h.1)
  | inr e ↦ rw e (h.0, without-NoStray ids id ws h.1)
]

removed-Owned : (id : String) (w : Worker) (s : Supervisor) → Owned s → Owned (removed id w s).0
unfolding removed
removed-Owned id w s (owner, h) =
    (owner, ground (arith, h, without-NoStray (owner ∷ []) id s.workers h))

remove-Owned : (id : String) (s : Supervisor) → Owned s → Owned (remove_profile id s).0
unfolding remove_profile refresh_exits
remove-Owned id s (owner, h) = elim (Option-cases (find id s.workers)) [
  | inl e ↦ rw (e, remove_profile) (owner, h)
  | inr (w, e) ↦
      rw (e, remove_profile)
        (removed-Owned id (refresh_exit w) (refresh_exits s)
          (owner, refresh_exits-NoStray (owner ∷ []) s.workers h))
]

register-NoStray :
    (ids : List String) (id : String) (port : ℕ) (lifecycle : LifecycleClass) (s : Supervisor)
    → NoStray ids s.workers
    → NoStray ids (register_profile id port lifecycle s).0.workers
unfolding register_profile
register-NoStray ids id port lifecycle s h =
    elim (Bool-cases (any (λ w. str_eq w.id id) s.workers)) [
      | inl e ↦ rw e h
      | inr e ↦ elim (Bool-cases (any (λ w. w.port == port) s.workers)) [
        | inl f ↦ rw (e, f) h
        | inr f ↦
            rw (e, f) (All-append (λ w. strays ids w ≡ false) s.workers _ h (ground arith, tt))
      ]
    ]

more_ids-NoStray :
    (more ids : List String) (ws : List Worker) → NoStray ids ws → NoStray (more ++ ids) ws
more_ids-NoStray [] ids ws h = h
more_ids-NoStray (id ∷ more) ids ws h =
    more-NoStray (more ++ ids) id ws (more_ids-NoStray more ids ws h)

perform-Owned : (op : Op) (s : Supervisor) → Distinct (keys s) → Owned s → Owned (perform op s)
unfolding perform restart stop_all critical_stop_all refresh_exits
perform-Owned (register id port lifecycle) s d (owner, h) =
    (owner, register-NoStray (owner ∷ []) id port lifecycle s h)
perform-Owned (remove id) s d h = remove-Owned id s h
perform-Owned (exits id) s d (owner, h) = (owner, process_exits-NoStray (owner ∷ []) id s h)
perform-Owned (stops id) s d (owner, h) =
    (owner, stop-NoStray (owner ∷ []) id s (more-NoStray (owner ∷ []) id s.workers h))
perform-Owned (starts a id) s d h = start-Owned a id s d h
perform-Owned (restarts a id) s d (owner, h) =
    start-Owned a id (stop id s) (rw (keys-stop id s) d)
      (owner, stop-NoStray (owner ∷ []) id s (more-NoStray (owner ∷ []) id s.workers h))
perform-Owned list_workers s d (owner, h) = (owner, refresh_exits-NoStray (owner ∷ []) s.workers h)
perform-Owned stops_all s d (owner, h) =
    (owner, stop_ids-NoStray (owner ∷ []) _ s (more_ids-NoStray _ (owner ∷ []) s.workers h))
perform-Owned critical_stops_all s d h = critical_stop-Owned s.workers s h

-- The exclusive workers whose process runs.
unfoldable pub live_count : List Worker → ℕ
live_count [] = 0
live_count (w ∷ ws) = let rest = live_count ws in if live w then suc rest else rest

others_quiet :
    (owner : String) (k : Key) (ws : List Worker)
    → str_eq k.0 owner ≡ true
    → All (λ j. (str_eq k.0 j.0 || (k.1 == j.1)) ≡ false) (map key_of ws)
    → NoStray (owner ∷ []) ws
    → live_count ws ≡ 0
unfolding live_count key_of
others_quiet owner k [] e c h = refl
others_quiet owner k (w ∷ ws) e c h = elim (Bool-cases (str_eq w.id owner)) [
  | inl f ↦ absurd (cc (str_eq-right k.0 w.id owner e f, c.0))
  | inr f ↦ ground (arith, others_quiet owner k ws e c.1 h.1)
]

Owned-count :
    (owner : String) (ws : List Worker)
    → Distinct (map key_of ws)
    → NoStray (owner ∷ []) ws
    → live_count ws ≤ 1
unfolding live_count Distinct key_of
Owned-count owner [] d h = omega arith
Owned-count owner (w ∷ ws) d h = elim (Bool-cases (str_eq w.id owner)) [
  | inl e ↦ ground (arith, others_quiet owner (key_of w) ws e d.0 h.1)
  | inr e ↦ ground (arith, Owned-count owner ws d.1 h.1)
]

perform_all-Owned :
    (ops : List Op) (s : Supervisor)
    → Distinct (keys s)
    → Owned s
    → Distinct (keys (perform_all ops s)) × Owned (perform_all ops s)
unfolding perform_all
perform_all-Owned [] s d h = (d, h)
perform_all-Owned (op ∷ ops) s d h =
    perform_all-Owned ops (perform op s) (perform-Distinct op s d) (perform-Owned op s d h)

-- After any sequence of operations on a supervisor without workers, no two workers have the same
-- identifier or the same port.
pub perform_all-Distinct : (ops : List Op) → Distinct (keys (perform_all ops no_workers))
unfolding no_workers keys Distinct
perform_all-Distinct ops = (perform_all-Owned ops no_workers tt ("", tt)).0

-- After any sequence of operations on a supervisor without workers, at most one worker of the
-- exclusive lifecycle has a running process.
pub at_most_one_exclusive : (ops : List Op) → live_count (perform_all ops no_workers).workers ≤ 1
unfolding no_workers keys Distinct
at_most_one_exclusive ops =
    let (d, (owner, h)) = perform_all-Owned ops no_workers tt ("", tt) in Owned-count owner _ d h
