-- ===== src/Examples/Setups.antt =====
-- Runs of a capability setup of backend/modeldeck/v2_api.py.
use model_deck.Base.{◌≡◌, refl, true, false, none, some, List, [], ◌∷◌}
use model_deck.Setup.{
  starting_worker, waiting_for_thermal_capacity, succeeded, cancelled, Setup, start, start_pause,
  Manager, Happening, begins, proceeds, publishes, verifies, passes, returns, thermal, new_manager,
  happen, happen_all, begin_run, apply_policy, go_on, proceed, with_worker, start_worker,
  verify_identity, pause_at, keep_qualification, transition_setup, publish_setup, route_verified,
  cancel_setup, as_state,
}
use model_deck.Setup.Sound.{sound, setup_qualified}
use model_deck.Setup.Cancellation.{cancellation_lost, cancellation_in_pause}

-- The worker is started after a pause, qualified and published.
abbrev to_success : List Happening
to_success =
    begins false true
    ∷ proceeds true (returns "w" true)
    ∷ proceeds true thermal
    ∷ proceeds true (returns "" true)
    ∷ proceeds true (returns "" true)
    ∷ proceeds true (returns "" true)
    ∷ publishes true (some 1)
    ∷ verifies 0 passes
    ∷ []

to_success_succeeds : (happen_all to_success new_manager).stored.state ≡ succeeded
unfolding happen_all happen begin_run apply_policy proceed go_on with_worker start_worker
    verify_identity pause_at keep_qualification transition_setup publish_setup route_verified
to_success_succeeds = refl

setup_qualified_example : sound (happen_all to_success new_manager).stored ≡ true
setup_qualified_example = setup_qualified to_success

abbrev with_state : Setup
with_state = record new_manager.stored { state = starting_worker; worker_id = some "w" }

-- run_setup awaits the start.
abbrev starting : Manager
starting = record new_manager {
  stored = with_state;
  run = some (record { copy = with_state; position = start });
}

cancellation_lost_example :
    proceed true (returns "" true) (cancel_setup true starting)
    ≡ proceed true (returns "" true) starting
cancellation_lost_example =
    cancellation_lost true true (returns "" true) (record { copy = with_state; position = start })
      starting refl refl refl

-- run_setup pauses before it tries the start again.
abbrev pausing : Manager
pausing = record new_manager {
  stored = as_state with_state waiting_for_thermal_capacity;
  run =
      some (record {
        copy = as_state with_state waiting_for_thermal_capacity;
        position = start_pause;
      });
}

cancellation_in_pause_example :
    proceed false (returns "" true) (cancel_setup true pausing) ≡ record pausing {
      stored = record with_state { state = cancelled; cancel_requested = true };
      events = cancelled ∷ [];
      run = none;
    }
cancellation_in_pause_example =
    cancellation_in_pause false true true ""
      (record { copy = as_state with_state waiting_for_thermal_capacity; position = start_pause })
      pausing refl refl refl
