-- ===== src/Supervisor/Unique.antt =====
-- The identifiers and the ports of the workers are distinct: what register_profile checks, and what
-- no other operation of backend/modeldeck/supervisor/service.py undoes.
use model_deck.Base.{
  ℕ, ◌≡◌, All-append, inl, inr, String, Bool, false, ◌||◌, ◌==◌, List, [], ◌∷◌, ◌++◌, map, any,
  arith, All, Bool-cases, Option-cases, str_eq,
}
use mathlib.Core.List.{map-append}
use model_deck.Supervisor.{
  LifecycleClass, Worker, Supervisor, find, refresh_exits, register_profile, remove_profile,
  removed, without, stop, stop_all, critical_stop_all, refresh_exit,
}
use model_deck.Supervisor.Start.{
  restart, Op, register, remove, exits, stops, starts, restarts, list_workers, stops_all,
  critical_stops_all, perform,
}
use model_deck.Supervisor.Keys.{
  key_of, keys, keys-refresh_exits, keys-process_exits, keys-stop, keys-stop_all,
  keys-critical_stop, keys-start,
}

abbrev pub Key : Type 0
Key = String × ℕ × LifecycleClass

abbrev clash : Key → Key → Bool
clash j k = str_eq j.0 k.0 || (j.1 == k.1)

-- No two keys have the same identifier or the same port.
unfoldable pub Distinct : List Key → Type 0
Distinct [] = Unit
Distinct (k ∷ ks) = All (λ j. clash k j ≡ false) ks × Distinct ks

Distinct-snoc :
    (ks : List Key) (k : Key)
    → All (λ j. clash j k ≡ false) ks
    → Distinct ks
    → Distinct (ks ++ k ∷ [])
unfolding Distinct
Distinct-snoc [] k c h = (tt, tt)
Distinct-snoc (j ∷ ks) k c h =
    (All-append (λ i. clash j i ≡ false) ks (k ∷ []) h.0 (c.0, tt), Distinct-snoc ks k c.1 h.1)

-- What the two tests of register_profile find.
free-clash :
    (ws : List Worker) (k : Key)
    → any (λ w. str_eq w.id k.0) ws ≡ false
    → any (λ w. w.port == k.1) ws ≡ false
    → All (λ j. clash j k ≡ false) (map key_of ws)
unfolding key_of
free-clash [] k i p = tt
free-clash (w ∷ ws) k i p = (ground arith, free-clash ws k (ground arith) (ground arith))

register-Distinct :
    (id : String) (port : ℕ) (lifecycle : LifecycleClass) (s : Supervisor)
    → Distinct (keys s)
    → Distinct (keys (register_profile id port lifecycle s).0)
unfolding register_profile keys key_of
register-Distinct id port lifecycle s h = elim (Bool-cases (any (λ w. str_eq w.id id) s.workers)) [
  | inl e ↦ rw e h
  | inr e ↦ elim (Bool-cases (any (λ w. w.port == port) s.workers)) [
    | inl f ↦ rw (e, f) h
    | inr f ↦
        rw (e, f, map-append key_of s.workers _)
          (Distinct-snoc _ _ (free-clash s.workers (id, port, lifecycle) e f) h)
  ]
]

All-without :
    (id : String) (ws : List Worker) (P : Key → Type 0)
    → All P (map key_of ws)
    → All P (map key_of (without id ws))
unfolding without
All-without id [] P h = tt
All-without id (w ∷ ws) P h = elim (Bool-cases (str_eq w.id id)) [
  | inl e ↦ rw e (All-without id ws P h.1)
  | inr e ↦ rw e (h.0, All-without id ws P h.1)
]

without-Distinct :
    (id : String) (ws : List Worker)
    → Distinct (map key_of ws)
    → Distinct (map key_of (without id ws))
unfolding without Distinct
without-Distinct id [] h = tt
without-Distinct id (w ∷ ws) h = elim (Bool-cases (str_eq w.id id)) [
  | inl e ↦ rw e (without-Distinct id ws h.1)
  | inr e ↦ rw e (All-without id ws _ h.0, without-Distinct id ws h.1)
]

removed-Distinct :
    (id : String) (w : Worker) (s : Supervisor)
    → Distinct (keys s)
    → Distinct (keys (removed id w s).0)
unfolding removed keys
removed-Distinct id w s h = ground (arith, without-Distinct id s.workers h)

remove-Distinct :
    (id : String) (s : Supervisor) → Distinct (keys s) → Distinct (keys (remove_profile id s).0)
unfolding remove_profile
remove-Distinct id s h = elim (Option-cases (find id s.workers)) [
  | inl e ↦ rw (e, remove_profile) h
  | inr (w, e) ↦
      rw (e, remove_profile)
        (removed-Distinct id (refresh_exit w) (refresh_exits s) (rw (keys-refresh_exits s) h))
]

pub perform-Distinct :
    (op : Op) (s : Supervisor) → Distinct (keys s) → Distinct (keys (perform op s))
unfolding perform restart stop_all critical_stop_all
perform-Distinct (register id port lifecycle) s h = register-Distinct id port lifecycle s h
perform-Distinct (remove id) s h = remove-Distinct id s h
perform-Distinct (exits id) s h = rw (keys-process_exits id s) h
perform-Distinct (stops id) s h = rw (keys-stop id s) h
perform-Distinct (starts a id) s h = rw (keys-start a id s) h
perform-Distinct (restarts a id) s h = rw (keys-start a id (stop id s), keys-stop id s) h
perform-Distinct list_workers s h = rw (keys-refresh_exits s) h
perform-Distinct stops_all s h = rw (keys-stop_all s) h
perform-Distinct critical_stops_all s h = rw (keys-critical_stop s.workers s) h
