-- ===== src/Supervisor/Sections.antt =====
-- start of backend/modeldeck/supervisor/service.py in two parts, between which it waits for the check of
-- the port and of the installation. critical_stop_all takes no lock, so it can run there.
use model_deck.Base.{
  ◌≡◌, refl, inl, inr, String, Bool, not, ◌&&◌, none, some, Option, List, any, Bool-cases,
  Option-cases, str_eq, if◌then◌else◌,
}
use model_deck.Supervisor.{
  validating, failed, Worker, Supervisor, is_alive, is_exclusive, find, transition, fail_as,
  port_in_use, invalid_launch, stop_ids,
}
use model_deck.Supervisor.Start.{
  StartAnswers, StartResult, snapshot, thermal_refusal, runtime_error, no_such_worker, refused,
  rivals, launch, validate, admitted, start_worker, start,
}

abbrev begin_worker : StartAnswers → String → Worker → Supervisor → Supervisor × Option StartResult
begin_worker a id w s =
    if is_alive w.process then (s, some snapshot) else elim (refused a.decision) [
      | some action ↦ (s, some (thermal_refusal action))
      | none ↦ (
        transition id validating
            (if is_exclusive w.lifecycle then stop_ids (rivals id s.workers) s else s),
        none,
      )
    ]

-- start up to its transition to VALIDATING: it is over by then, or it goes on
unfoldable pub begin_start : StartAnswers → String → Supervisor → Supervisor × Option StartResult
begin_start a id s = elim (find id s.workers) [
  | none ↦ (s, some no_such_worker)
  | some w ↦ begin_worker a id w s
]

-- and from there on
unfoldable pub rest_of_start : StartAnswers → String → Supervisor → Supervisor × StartResult
rest_of_start a id s =
    if not a.port_free && not a.reclaimed
    then (fail_as id failed port_in_use s, runtime_error port_in_use)
    else if not a.launch_valid
    then (fail_as id failed invalid_launch s, runtime_error invalid_launch)
    else launch a id s

abbrev pub then_rest :
    StartAnswers → String → Supervisor × Option StartResult → Supervisor × StartResult
then_rest a id (s, some result) = (s, result)
then_rest a id (s, none) = rest_of_start a id s

-- Without an interruption the two parts are start.
start-sections :
    (a : StartAnswers) (id : String) (s : Supervisor)
    → then_rest a id (begin_start a id s) ≡ start a id s
unfolding begin_start start start_worker admitted validate rest_of_start
start-sections a id s = elim (Option-cases (find id s.workers)) [
  | inl e ↦ rw (begin_start, start, e) refl
  | inr (w, e) ↦ elim (Bool-cases (is_alive w.process)) [
    | inl l ↦ rw (begin_start, start, e, l) refl
    | inr l ↦ elim (Option-cases (refused a.decision)) [
      | inl r ↦ rw (begin_start, start, e, l, r) refl
      | inr (x, r) ↦ rw (begin_start, start, e, l, r) refl
    ]
  ]
]

abbrev has_worker : String → List Worker → Bool
has_worker id ws = any (λ (w : Worker). str_eq w.id id) ws
