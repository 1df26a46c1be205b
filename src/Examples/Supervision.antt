-- ===== src/Examples/Supervision.antt =====
-- Runs of the supervisor of backend/modeldeck/supervisor/service.py.
use model_deck.Base.{◌≡◌, refl, ◌≤◌, true, false, none, some, List, [], ◌∷◌}
use model_deck.Thermal.Admission.{allow}
use model_deck.Supervisor.{
  resident, exclusive, loading, alive, no_process, ready, critical_stop_all, Worker, Supervisor,
  find, register_profile, transition, modify, change, stop_ids, stop, terminate,
}
use model_deck.Supervisor.Start.{
  is_ready, StartAnswers, Op, register, starts, perform, start, rivals, perform_all, no_workers,
}
use model_deck.Supervisor.Keys.{keys}
use model_deck.Supervisor.Unique.{Distinct}
use model_deck.Supervisor.AtMostOne.{live_count, perform_all-Distinct, at_most_one_exclusive}
use model_deck.Supervisor.Running.Operations.{none_running, critical_stop_all-none_running}

abbrev all_well : StartAnswers
all_well = record {
  decision = some allow;
  port_free = true;
  reclaimed = false;
  launch_valid = true;
  spawned = true;
  startup = is_ready;
}

-- Two exclusive workers and a resident one, which start one after the other.
abbrev day : List Op
day =
    register "chat" 8101 exclusive
    ∷ register "image" 8102 exclusive
    ∷ register "embed" 8103 resident
    ∷ starts all_well "chat"
    ∷ starts all_well "embed"
    ∷ starts all_well "image"
    ∷ []

day_runs_one : live_count (perform_all day no_workers).workers ≡ 1
unfolding live_count perform_all no_workers perform start find register_profile transition modify
    change stop_ids rivals stop terminate
day_runs_one = refl

perform_all-Distinct_example : Distinct (keys (perform_all day no_workers))
perform_all-Distinct_example = perform_all-Distinct day

at_most_one_exclusive_example : live_count (perform_all day no_workers).workers ≤ 1
at_most_one_exclusive_example = at_most_one_exclusive day

abbrev chat : Worker
chat = record {
  id = "chat";
  port = 8101;
  lifecycle = exclusive;
  state = loading;
  process = alive;
  running = 1;
  started = true;
  last_error = none;
}

abbrev chat_embed : Worker
chat_embed = record chat { id = "embed"; port = 8103; lifecycle = resident; state = ready }

critical_stop_all-none_running_example :
    none_running (critical_stop_all (perform_all day no_workers)).workers ≡ true
critical_stop_all-none_running_example = critical_stop_all-none_running day

abbrev waits_for_chat : Supervisor
waits_for_chat = record {
  workers = record chat { process = no_process; running = 0; started = false } ∷ chat_embed ∷ [];
  events = [];
  event_history = [];
}
