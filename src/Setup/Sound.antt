-- ===== src/Setup/Sound.antt =====
-- What a setup of backend/modeldeck/v2_api.py has passed before it is published.
use model_deck.Base.{
  ℕ, zero, suc, ◌≡◌, refl, inl, inr, Bool, true, false, not, ◌&&◌, ◌||◌, Option, none, some, List,
  [], ◌∷◌, arith, all, Option-cases, is_none, if◌then◌else◌,
}
use model_deck.Setup.{
  SetupState, waiting_for_thermal_capacity, qualifying, awaiting_publication, verifying_route,
  succeeded, failed, cancelled, Setup, Position, creation, start, qualification_call, stop,
  start_pause, qualification_pause, Run, Manager, transition_setup, as_state, save, ends, wait_at,
  cancel_run, fail_run, start_worker, with_worker, apply_policy, begin_run, CallEnd, returns,
  thermal, raises, verify_identity, pause_at, keep_qualification, go_on, proceed, is_published,
  cancel_setup, entry, without, cancel_stopped, retry_setup, publish_setup, Verification, passes,
  http_error, breaks, route_verification_failed, route_verified, restart, Happening, begins,
  proceeds, cancels, cancel_stops, retries, publishes, verifies, restarts, happen, happen_all,
  new_manager,
}

-- The setup waits for its publication, or has been published.
abbrev pub is_past : SetupState → Bool
is_past awaiting_publication = true
is_past state = is_published state

abbrev pub has_passed : Option Bool → Bool
has_passed none = false
has_passed (some ok) = ok

abbrev pub is_routed : SetupState → Bool
is_routed verifying_route = true
is_routed succeeded = true
is_routed _ = false

abbrev pub sound : Setup → Bool
sound d =
    (not (is_past d.state) || has_passed d.qualification)
    && (not (is_routed d.state) || not (is_none d.publication))

-- What publish_capability_setup keeps while it verifies the route.
abbrev pub verifiable : Setup → Bool
verifiable d = has_passed d.qualification && not (is_none d.publication)

-- What run_setup saves later: its copy is none that waits for its publication. While it stops the
-- worker, the state of the copy does not matter.
abbrev pub run_fits : Option Run → Bool
run_fits none = true
run_fits (some r) = elim r.position [
  | stop ↦ true
  | creation ↦ not (is_past r.copy.state)
  | start ↦ not (is_past r.copy.state)
  | qualification_call ↦ not (is_past r.copy.state)
  | start_pause ↦ true
  | qualification_pause ↦ true
]

abbrev pub keeps_sound : Manager → Bool
keeps_sound m = sound m.stored && all verifiable m.verifying && run_fits m.run

cancel_run-keeps_sound :
    (is_up : Bool) (d : Setup) (m : Manager)
    → keeps_sound m ≡ true
    → keeps_sound (cancel_run is_up d m) ≡ true
unfolding cancel_run transition_setup
cancel_run-keeps_sound is_up d m s = ground arith

with_worker-keeps_sound :
    (is_up : Bool) (d : Setup) (m : Manager)
    → keeps_sound m ≡ true
    → keeps_sound (with_worker is_up d m) ≡ true
unfolding with_worker start_worker transition_setup
with_worker-keeps_sound is_up d m s = ground (arith, cancel_run-keeps_sound is_up d m)

apply_policy-keeps_sound :
    (is_up stores : Bool) (d : Setup) (m : Manager)
    → keeps_sound m ≡ true
    → keeps_sound (apply_policy is_up stores d m) ≡ true
unfolding apply_policy with_worker start_worker cancel_run fail_run transition_setup
apply_policy-keeps_sound is_up stores d m s = ground arith

begin_run-keeps_sound :
    (is_up stores : Bool) (m : Manager)
    → keeps_sound m ≡ true
    → keeps_sound (begin_run is_up stores m) ≡ true
unfolding begin_run
begin_run-keeps_sound is_up stores m s = ground (
  arith,
  cancel_run-keeps_sound is_up m.stored m,
  apply_policy-keeps_sound is_up stores m.stored m,
)

fail_run-keeps_sound :
    (m : Manager) → all verifiable m.verifying ≡ true → keeps_sound (fail_run m) ≡ true
unfolding fail_run transition_setup
fail_run-keeps_sound m s = ground arith

verify_identity-keeps_sound :
    (d : Setup) (m : Manager)
    → all verifiable m.verifying ≡ true
    → keeps_sound (verify_identity d m) ≡ true
unfolding verify_identity transition_setup
verify_identity-keeps_sound d m s = ground (arith, s)

pause_at-keeps_sound :
    (p : Position) (d : Setup) (m : Manager)
    → all verifiable m.verifying ≡ true
    → run_fits (some (record { copy = as_state d waiting_for_thermal_capacity; position = p }))
      ≡ true
    → keeps_sound (pause_at p d m) ≡ true
unfolding pause_at transition_setup
pause_at-keeps_sound p d m s f = ground (arith, s, f)

keep_qualification-keeps_sound :
    (ok : Bool) (d : Setup) (m : Manager)
    → all verifiable m.verifying ≡ true
    → keeps_sound (keep_qualification ok d m) ≡ true
unfolding keep_qualification transition_setup fail_run
keep_qualification-keeps_sound true d m s = ground (arith, s)
keep_qualification-keeps_sound false d m s = ground (arith, s)

keeps_sound-verifiable : (m : Manager) → keeps_sound m ≡ true → all verifiable m.verifying ≡ true
keeps_sound-verifiable m s = ground arith

not_past-sound : (d : Setup) → not (is_past d.state) ≡ true → sound d ≡ true
not_past-sound d f = ground arith

saved-keeps_sound :
    (d : Setup) (m : Manager)
    → keeps_sound m ≡ true
    → not (is_past d.state) ≡ true
    → keeps_sound (save d m) ≡ true
saved-keeps_sound d m s f =
    let document = not_past-sound d f in
    let copies = keeps_sound-verifiable m s in
    let fits : run_fits m.run ≡ true = ground (arith, s) in ground (arith, document, copies, fits)

stopped-keeps_sound :
    (d : Setup) (m : Manager)
    → all verifiable m.verifying ≡ true
    → keeps_sound (ends (transition_setup d cancelled m)) ≡ true
unfolding transition_setup
stopped-keeps_sound d m s = ground (arith, s)

requalify-keeps_sound :
    (d : Setup) (m : Manager)
    → all verifiable m.verifying ≡ true
    → keeps_sound
        (wait_at qualification_call (as_state d qualifying) (transition_setup d qualifying m))
      ≡ true
unfolding transition_setup
requalify-keeps_sound d m s = ground (arith, s)

either-keeps_sound :
    (b : Bool) (m n : Manager)
    → keeps_sound m ≡ true
    → keeps_sound n ≡ true
    → keeps_sound (if b then m else n) ≡ true
either-keeps_sound true m n s t = s
either-keeps_sound false m n s t = t

go_on-keeps_sound :
    (is_up : Bool) (end : CallEnd) (p : Position) (d : Setup) (m : Manager)
    → keeps_sound m ≡ true
    → run_fits (some (record { copy = d; position = p })) ≡ true
    → keeps_sound (go_on is_up end p d m) ≡ true
unfolding go_on
go_on-keeps_sound is_up (returns id ok) creation d m s f =
    let d1 = record d { worker_id = some id } in
    with_worker-keeps_sound is_up d1 (save d1 m) (saved-keeps_sound d1 m s f)
go_on-keeps_sound is_up (returns id ok) start d m s f =
    verify_identity-keeps_sound d m (keeps_sound-verifiable m s)
go_on-keeps_sound is_up (returns id ok) qualification_call d m s f =
    keep_qualification-keeps_sound ok d m (keeps_sound-verifiable m s)
go_on-keeps_sound is_up (returns id ok) stop d m s f =
    stopped-keeps_sound d m (keeps_sound-verifiable m s)
go_on-keeps_sound is_up (returns id ok) start_pause d m s f =
    with_worker-keeps_sound is_up m.stored m s
go_on-keeps_sound is_up (returns id ok) qualification_pause d m s f =
    either-keeps_sound m.stored.cancel_requested _ _ (cancel_run-keeps_sound is_up m.stored m s)
      (requalify-keeps_sound m.stored m (keeps_sound-verifiable m s))
go_on-keeps_sound is_up thermal start d m s f =
    pause_at-keeps_sound start_pause d m (keeps_sound-verifiable m s) refl
go_on-keeps_sound is_up thermal qualification_call d m s f =
    pause_at-keeps_sound qualification_pause d m (keeps_sound-verifiable m s) refl
go_on-keeps_sound is_up thermal creation d m s f =
    fail_run-keeps_sound m (keeps_sound-verifiable m s)
go_on-keeps_sound is_up thermal stop d m s f = fail_run-keeps_sound m (keeps_sound-verifiable m s)
go_on-keeps_sound is_up thermal start_pause d m s f =
    fail_run-keeps_sound m (keeps_sound-verifiable m s)
go_on-keeps_sound is_up thermal qualification_pause d m s f =
    fail_run-keeps_sound m (keeps_sound-verifiable m s)
go_on-keeps_sound is_up raises p d m s f = fail_run-keeps_sound m (keeps_sound-verifiable m s)

entry-verifiable :
    (n : ℕ) (ds : List Setup) (d : Setup)
    → entry n ds ≡ some d
    → all verifiable ds ≡ true
    → verifiable d ≡ true
entry-verifiable n [] d e s = absurd (cc e)
entry-verifiable zero (x ∷ ds) d e s = ground (arith, e)
entry-verifiable (suc n) (x ∷ ds) d e s = entry-verifiable n ds d e (ground arith)

without-verifiable :
    (n : ℕ) (ds : List Setup) → all verifiable ds ≡ true → all verifiable (without n ds) ≡ true
without-verifiable n [] s = refl
without-verifiable zero (x ∷ ds) s = ground arith
without-verifiable (suc n) (x ∷ ds) s = ground (arith, without-verifiable n ds)

verified-keeps_sound :
    (v : Verification) (d : Setup) (m : Manager)
    → verifiable d ≡ true
    → keeps_sound m ≡ true
    → keeps_sound (elim v [
      | passes ↦ transition_setup d succeeded m
      | http_error ↦ transition_setup (record d { error = some route_verification_failed }) failed m
      | breaks ↦ m
    ])
      ≡ true
unfolding transition_setup
verified-keeps_sound passes d m h s = ground (arith, h)
verified-keeps_sound http_error d m h s = ground (arith, h)
verified-keeps_sound breaks d m h s = s

route_verified-keeps_sound :
    (n : ℕ) (v : Verification) (m : Manager)
    → keeps_sound m ≡ true
    → keeps_sound (route_verified n v m) ≡ true
unfolding route_verified transition_setup
route_verified-keeps_sound n v m s = elim (Option-cases (entry n m.verifying)) [
  | inl e ↦ rw (e, route_verified) s
  | inr (d, e) ↦
      rw (e, route_verified)
        (verified-keeps_sound v d (record m { verifying = without n m.verifying })
          (entry-verifiable n m.verifying d e (keeps_sound-verifiable m s))
          (ground (arith, s, without-verifiable n m.verifying)))
]

cancel_stopped-keeps_sound :
    (n : ℕ) (returned : Bool) (m : Manager)
    → keeps_sound m ≡ true
    → keeps_sound (cancel_stopped n returned m) ≡ true
unfolding cancel_stopped transition_setup
cancel_stopped-keeps_sound n returned m s = elim (Option-cases (entry n m.cancelling)) [
  | inl e ↦ ground (arith, e)
  | inr (d, e) ↦ ground (arith, e)
]

restart-keeps_sound :
    (has_revision : Bool) (m : Manager)
    → keeps_sound m ≡ true
    → keeps_sound (restart has_revision m) ≡ true
unfolding restart transition_setup
restart-keeps_sound has_revision m s = ground arith

happen-keeps_sound :
    (h : Happening) (m : Manager) → keeps_sound m ≡ true → keeps_sound (happen h m) ≡ true
unfolding happen proceed cancel_setup retry_setup publish_setup transition_setup
happen-keeps_sound (begins is_up stores) m s = begin_run-keeps_sound is_up stores m s
happen-keeps_sound (proceeds is_up end) m s = elim (Option-cases m.run) [
  | inl e ↦ ground (arith, e)
  | inr (r, e) ↦
      rw (e, happen, proceed)
        (go_on-keeps_sound is_up end r.position r.copy m s (ground (arith, e)))
]
happen-keeps_sound (cancels is_up) m s = ground arith
happen-keeps_sound (cancel_stops n returned) m s = cancel_stopped-keeps_sound n returned m s
happen-keeps_sound (retries same) m s = ground arith
happen-keeps_sound (publishes fresh revision) m s = ground arith
happen-keeps_sound (verifies n v) m s = route_verified-keeps_sound n v m s
happen-keeps_sound (restarts has_revision) m s = restart-keeps_sound has_revision m s

happen_all-keeps_sound :
    (hs : List Happening) (m : Manager)
    → keeps_sound m ≡ true
    → keeps_sound (happen_all hs m) ≡ true
unfolding happen_all
happen_all-keeps_sound [] m s = s
happen_all-keeps_sound (h ∷ hs) m s =
    happen_all-keeps_sound hs (happen h m) (happen-keeps_sound h m s)

-- However the steps of run_setup, cancellations, retries, publications and restarts of the service
-- interleave, and although each saves its own copy of the document: a setup that waits for its
-- publication, is being published or has succeeded names a qualification that has passed, and one
-- whose route is being verified or that has succeeded names its publication.
pub setup_qualified : (hs : List Happening) → sound (happen_all hs new_manager).stored ≡ true
setup_qualified hs = ground (arith, happen_all-keeps_sound hs new_manager refl)
