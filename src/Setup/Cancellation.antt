-- ===== src/Setup/Cancellation.antt =====
-- When a cancellation of a setup in backend/modeldeck/v2_api.py takes effect.
use model_deck.Base.{
  ◌≡◌, refl, sym, ap, ◌∙◌, String, Bool, true, false, not, ◌&&◌, none, some, ◌∷◌, arith,
  if◌then◌else◌,
}
use model_deck.Setup.{
  SetupState, cancelled, Setup, Position, creation, start, qualification_call, stop, start_pause,
  qualification_pause, Run, Manager, transition_setup, as_state, save, wait_at, must_stop,
  cancel_run, fail_run, start_worker, with_worker, CallEnd, returns, thermal, raises,
  verify_identity, pause_at, keep_qualification, go_on, proceed, is_published, is_ended,
  cancel_setup,
}

-- run_setup saves its own copy when this call ends so.
abbrev pub saves_copy : Position → CallEnd → Bool
saves_copy creation (returns id ok) = true
saves_copy start (returns id ok) = true
saves_copy start thermal = true
saves_copy qualification_call (returns id ok) = true
saves_copy qualification_call thermal = true
saves_copy stop (returns id ok) = true
saves_copy _ _ = false

abbrev pub in_progress : SetupState → Bool
in_progress state = not (is_published state) && not (is_ended state)

-- The document of the first is the only difference.
go_on-forgets :
    (is_up : Bool) (end : CallEnd) (p : Position) (d e : Setup) (m : Manager)
    → saves_copy p end ≡ true
    → go_on is_up end p d (save e m) ≡ go_on is_up end p d m
unfolding go_on with_worker start_worker cancel_run verify_identity pause_at keep_qualification
    fail_run transition_setup
go_on-forgets is_up (returns id ok) creation d e m h = refl
go_on-forgets is_up (returns id ok) start d e m h = refl
go_on-forgets is_up thermal start d e m h = refl
go_on-forgets is_up (returns id ok) qualification_call d e m h = refl
go_on-forgets is_up thermal qualification_call d e m h = refl
go_on-forgets is_up (returns id ok) stop d e m h = refl
go_on-forgets is_up (returns id ok) start_pause d e m h = absurd (cc h)
go_on-forgets is_up (returns id ok) qualification_pause d e m h = absurd (cc h)
go_on-forgets is_up thermal creation d e m h = absurd (cc h)
go_on-forgets is_up thermal stop d e m h = absurd (cc h)
go_on-forgets is_up thermal start_pause d e m h = absurd (cc h)
go_on-forgets is_up thermal qualification_pause d e m h = absurd (cc h)
go_on-forgets is_up raises creation d e m h = absurd (cc h)
go_on-forgets is_up raises start d e m h = absurd (cc h)
go_on-forgets is_up raises qualification_call d e m h = absurd (cc h)
go_on-forgets is_up raises stop d e m h = absurd (cc h)
go_on-forgets is_up raises start_pause d e m h = absurd (cc h)
go_on-forgets is_up raises qualification_pause d e m h = absurd (cc h)

cancel_setup-saves :
    (stops : Bool) (m : Manager)
    → in_progress m.stored.state ≡ true
    → cancel_setup stops m ≡ save (record m.stored { cancel_requested = true }) m
unfolding cancel_setup
cancel_setup-saves stops m p =
    let unpublished : is_published m.stored.state ≡ false = ground arith in
    let unended : is_ended m.stored.state ≡ false = ground arith in rw (unpublished, unended) refl

proceed-go_on :
    (is_up : Bool) (end : CallEnd) (r : Run) (m : Manager)
    → m.run ≡ some r
    → proceed is_up end m ≡ go_on is_up end r.position r.copy m
unfolding proceed
proceed-go_on is_up end r m e = simp (e, proceed)

-- A cancellation that comes while run_setup creates, starts or qualifies the worker is accepted and
-- then lost, unless that call raises: run_setup saves its own copy of the document over it and goes
-- on as if nothing had been asked.
pub cancellation_lost :
    (is_up stops : Bool) (end : CallEnd) (r : Run) (m : Manager)
    → m.run ≡ some r
    → saves_copy r.position end ≡ true
    → in_progress m.stored.state ≡ true
    → proceed is_up end (cancel_setup stops m) ≡ proceed is_up end m
cancellation_lost is_up stops end r m e h p =
    let asked = record m.stored { cancel_requested = true } in
    ap (proceed is_up end) (cancel_setup-saves stops m p)
    ∙ proceed-go_on is_up end r (save asked m) e
    ∙ go_on-forgets is_up end r.position r.copy asked m h
    ∙ sym (proceed-go_on is_up end r m e)

abbrev pub is_pause : Position → Bool
is_pause start_pause = true
is_pause qualification_pause = true
is_pause _ = false

pause-cancels :
    (is_up ok : Bool) (id : String) (p : Position) (d e : Setup) (m : Manager)
    → is_pause p ≡ true
    → e.cancel_requested ≡ true
    → go_on is_up (returns id ok) p d (save e m) ≡ (
        if must_stop is_up e
        then wait_at stop e (save e m)
        else record m { stored = as_state e cancelled; events = cancelled ∷ m.events; run = none })
unfolding go_on with_worker cancel_run transition_setup
pause-cancels is_up ok id start_pause d e m h c = simp c
pause-cancels is_up ok id qualification_pause d e m h c = simp c
pause-cancels is_up ok id creation d e m h c = absurd (cc h)
pause-cancels is_up ok id start d e m h c = absurd (cc h)
pause-cancels is_up ok id qualification_call d e m h c = absurd (cc h)
pause-cancels is_up ok id stop d e m h c = absurd (cc h)

-- A cancellation that comes while run_setup pauses for a safe thermal state takes effect at the end of
-- the pause: run_setup stops the worker if it is up, and else the setup is cancelled and the run ends.
pub cancellation_in_pause :
    (is_up stops ok : Bool) (id : String) (r : Run) (m : Manager)
    → m.run ≡ some r
    → is_pause r.position ≡ true
    → in_progress m.stored.state ≡ true
    → proceed is_up (returns id ok) (cancel_setup stops m) ≡ (
        let asked = record m.stored { cancel_requested = true } in
        if must_stop is_up m.stored then wait_at stop asked (save asked m) else record m {
          stored = as_state asked cancelled;
          events = cancelled ∷ m.events;
          run = none;
        })
cancellation_in_pause is_up stops ok id r m e h p =
    let asked = record m.stored { cancel_requested = true } in
    ap (proceed is_up (returns id ok)) (cancel_setup-saves stops m p)
    ∙ proceed-go_on is_up (returns id ok) r (save asked m) e
    ∙ pause-cancels is_up ok id r.position r.copy asked m h refl
