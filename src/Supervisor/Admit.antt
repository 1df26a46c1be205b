-- ===== src/Supervisor/Admit.antt =====
-- When start of backend/modeldeck/supervisor/service.py may create a process: no second worker then
-- runs outside a list of identifiers.
use model_deck.Base.{
  ◌≡◌, sym, ◌∙◌, inl, inr, String, Bool, true, false, not, ◌==◌, ◌&&◌, ◌||◌, some, List, [], ◌∷◌,
  map, arith, All, Bool-cases, str_eq, eq_iff, if◌then◌else◌,
}
use model_deck.Text.{member}
use model_deck.Supervisor.{
  create_process, validating, starting, loading, warming, ready, failed, incompatible, Worker,
  port_in_use, invalid_launch, launch_failed, identity_mismatch, startup_failed, Supervisor,
  is_exclusive, find, modify, transition, change,
}
use model_deck.Supervisor.Start.{
  StartResult, Startup, load_error, identity_error, warmup_error, is_ready, StartAnswers, come_up,
  launch, validate,
}
use model_deck.Supervisor.Keys.{key_of, keys, keys-transition}
use model_deck.Supervisor.Unique.{Key, Distinct}
use model_deck.Supervisor.Exclusive.{
  NoStray, transition-NoStray, fail_as-NoStray, process_exits-NoStray,
}

-- `id` is the identifier of no exclusive worker but those in `ids`.
abbrev pub fits : List String → String → Key → Bool
fits ids id k = not (str_eq k.0 id && is_exclusive k.2 && not (member k.0 ids))

-- A process may be created for `id`: no stray arises.
unfoldable pub Fits : List String → String → List Key → Type 0
Fits ids id ks = All (λ k. fits ids id k ≡ true) ks

created-NoStray :
    (ids : List String) (id : String) (ws : List Worker)
    → Fits ids id (map key_of ws)
    → NoStray ids ws
    → NoStray ids (modify id create_process ws)
unfolding modify Fits key_of
created-NoStray ids id [] f h = tt
created-NoStray ids id (w ∷ ws) f h = (
  elim (Bool-cases (str_eq w.id id)) [
    | inl e ↦ rw e (ground (arith, f.0, h.0, e))
    | inr e ↦ rw e h.0
  ],
  created-NoStray ids id ws f.1 h.1,
)

module _ (ids : List String) (id : String) where
  abbrev Kept : Supervisor → Type 0
  Kept t = NoStray ids t.workers

  started-NoStray :
      (s : Supervisor) → Fits ids id (keys s) → Kept s → Kept (change id create_process s)
  unfolding change keys
  started-NoStray s f h = created-NoStray ids id s.workers f h

  come_up-NoStray : (how : Startup) (s : Supervisor) → Kept s → Kept (come_up how id s).0
  unfolding come_up
  come_up-NoStray load_error s h =
      process_exits-NoStray ids id _ (fail_as-NoStray ids id s h failed startup_failed)
  come_up-NoStray identity_error s h =
      process_exits-NoStray ids id _ (fail_as-NoStray ids id s h incompatible identity_mismatch)
  come_up-NoStray warmup_error s h =
      process_exits-NoStray ids id _
        (fail_as-NoStray ids id _ (transition-NoStray ids id s h warming) failed startup_failed)
  come_up-NoStray is_ready s h =
      transition-NoStray ids id _ (transition-NoStray ids id s h warming) ready

  Kept-if :
      (b : Bool) (x y : Supervisor × StartResult)
      → Kept x.0
      → Kept y.0
      → Kept (if b then x else y).0
  Kept-if true x y hx hy = hx
  Kept-if false x y hx hy = hy

  launch-NoStray :
      (a : StartAnswers) (s : Supervisor) → Fits ids id (keys s) → Kept s → Kept (launch a id s).0
  unfolding launch
  launch-NoStray a s f h =
      let starting_up = transition-NoStray ids id s h starting in
      Kept-if (not a.spawned) _ _ (fail_as-NoStray ids id _ starting_up failed launch_failed) (
        come_up-NoStray a.startup _ (
          transition-NoStray ids id _
            (started-NoStray (transition id starting s) (rw (keys-transition id starting s) f)
              starting_up)
            loading))

  pub validate-NoStray :
      (a : StartAnswers) (s : Supervisor) → Fits ids id (keys s) → Kept s → Kept (validate a id s).0
  unfolding validate
  validate-NoStray a s f h =
      let checked = transition-NoStray ids id s h validating in
      Kept-if (not a.port_free && not a.reclaimed) _ _
        (fail_as-NoStray ids id _ checked failed port_in_use)
        (Kept-if (not a.launch_valid) _ _ (fail_as-NoStray ids id _ checked failed invalid_launch) (
          launch-NoStray a (transition id validating s) (rw (keys-transition id validating s) f)
            checked))

-- An exclusive worker fits once its rivals are stopped.
pub Fits-self : (id : String) (ks : List Key) → Fits (id ∷ []) id ks
unfolding Fits
Fits-self id [] = tt
Fits-self id (k ∷ ks) = (ground arith, Fits-self id ks)

-- A worker of another lifecycle fits always, since its identifier is its own.
pub str_eq-right : (x y z : String) → str_eq x z ≡ true → str_eq y z ≡ true → str_eq x y ≡ true
str_eq-right x y z e f = (eq_iff x y).1 ((eq_iff x z).0 e ∙ sym ((eq_iff y z).0 f))

apart_key_lem :
    (ids : List String) (id : String) (k j : Key)
    → str_eq k.0 id ≡ true
    → (str_eq k.0 j.0 || (k.1 == j.1)) ≡ false
    → fits ids id j ≡ true
apart_key_lem ids id k j e h = elim (Bool-cases (str_eq j.0 id)) [
  | inl f ↦ ground (arith, str_eq-right k.0 j.0 id e f)
  | inr f ↦ ground arith
]

apart-Fits :
    (ids : List String) (id : String) (k : Key) (ks : List Key)
    → str_eq k.0 id ≡ true
    → All (λ j. (str_eq k.0 j.0 || (k.1 == j.1)) ≡ false) ks
    → Fits ids id ks
unfolding Fits
apart-Fits ids id k [] e h = tt
apart-Fits ids id k (j ∷ ks) e h = (apart_key_lem ids id k j e h.0, apart-Fits ids id k ks e h.1)

first_key_lem :
    (ids : List String) (id : String) (v w : Worker)
    → some v ≡ some w
    → is_exclusive w.lifecycle ≡ false
    → fits ids id (key_of v) ≡ true
unfolding key_of
first_key_lem ids id v w e x =
    let soft : is_exclusive v.lifecycle ≡ false = cc (e, x) in ground (arith, soft)

pub Fits-other :
    (ids : List String) (id : String) (ws : List Worker) (w : Worker)
    → Distinct (map key_of ws)
    → find id ws ≡ some w
    → is_exclusive w.lifecycle ≡ false
    → Fits ids id (map key_of ws)
unfolding Distinct find Fits key_of
Fits-other ids id [] w d e x = tt
Fits-other ids id (v ∷ ws) w d e x = elim (Bool-cases (str_eq v.id id)) [
  | inl t ↦
      (first_key_lem ids id v w (rw t at e) x, apart-Fits ids id (key_of v) (map key_of ws) t d.0)
  | inr t ↦ (ground arith, Fits-other ids id ws w d.1 (rw t at e) x)
]
