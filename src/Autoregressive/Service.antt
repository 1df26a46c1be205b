-- ===== src/Autoregressive/Service.antt =====
-- The requests of the application in backend/modeldeck/workers/autoregressive_worker.py around the
-- engine: the lock of the generation, the events by which a request is cancelled, and the state.
-- A handler is cut at its `await`s. An event is the number of its request.
pub mod Registered
pub mod Reaches
use model_deck.Base.{
  ℕ, suc, ◌+◌, String, Bool, true, false, not, ◌&&◌, ◌||◌, ◌==◌, Option, none, some, List, [], ◌∷◌,
  any, is_none, if◌then◌else◌, str_eq,
}
use model_deck.Supervisor.{WorkerState, loading, ready, busy, stopping}

-- A request between its registration and its end: with its event, and whether it streams.
pub record Live : Type 0 where
  pub request_id : String
  pub event : ℕ
  pub streams : Bool

-- app.state; the events that are set; the requests; the event of the one that has the lock; and the
-- number of the next event
pub record Service : Type 0 where
  pub worker_state : WorkerState
  pub is_ready : Bool
  pub cancellations : List (String × ℕ)
  pub set_events : List ℕ
  pub live : List Live
  pub holder : Option ℕ
  pub requests : ℕ
  pub cancelled_requests : ℕ
  pub next_event : ℕ

unfoldable pub new_service : Service
new_service = record {
  worker_state = loading;
  is_ready = false;
  cancellations = [];
  set_events = [];
  live = [];
  holder = none;
  requests = 0;
  cancelled_requests = 0;
  next_event = 0;
}

-- the dict of cancellations: `.get(id)`, `.pop(id, None)` and `[id] = event`
abbrev pub event_of_id : String → List (String × ℕ) → Option ℕ
event_of_id id [] = none
event_of_id id ((k, n) ∷ ks) = let rest = event_of_id id ks in if str_eq k id then some n else rest

abbrev pub pop_id : String → List (String × ℕ) → List (String × ℕ)
pop_id id [] = []
pop_id id ((k, n) ∷ ks) = let rest = pop_id id ks in if str_eq k id then rest else (k, n) ∷ rest

abbrev pub put_id : String → ℕ → List (String × ℕ) → List (String × ℕ)
put_id id n ks = (id, n) ∷ pop_id id ks

abbrev pub find_live : ℕ → List Live → Option Live
find_live n [] = none
find_live n (r ∷ rs) = let rest = find_live n rs in if r.event == n then some r else rest

abbrev pub without_live : ℕ → List Live → List Live
without_live n [] = []
without_live n (r ∷ rs) = let rest = without_live n rs in if r.event == n then rest else r ∷ rest

-- How a generation ends: it comes back, the memory is exhausted, or another exception leaves it.
pub data GenerationEnd : Type 0 where
  came_back out_of_memory left : GenerationEnd

abbrev pub has_come_back : GenerationEnd → Bool
has_come_back came_back = true
has_come_back _ = false

-- _trace_response, up to the lock; its prompt fits into the context or it does not
unfoldable pub register_request : String → Bool → Bool → Service → Service
register_request id fits streams s = if not s.is_ready || not fits then s else record s {
  cancellations = put_id id s.next_event s.cancellations;
  live = record { request_id = id; event = s.next_event; streams = streams } ∷ s.live;
  next_event = suc s.next_event;
}

-- `async with generation_lock`, once it is free
unfoldable pub take_lock : ℕ → Service → Service
take_lock n s =
    if is_none s.holder && not (is_none (find_live n s.live))
    then record s { holder = some n; worker_state = busy }
    else s

abbrev pub holds_lock : ℕ → Option ℕ → Bool
holds_lock n none = false
holds_lock n (some k) = k == n

abbrev pub finish_live : GenerationEnd → ℕ → Option Live → Service → Service
finish_live e n none s = s
finish_live e n (some r) s = record s {
  cancellations = pop_id r.request_id s.cancellations;
  set_events = if r.streams then n ∷ s.set_events else s.set_events;
  live = without_live n s.live;
  holder = none;
  worker_state = ready;
  requests = if has_come_back e then s.requests + 1 else s.requests;
}

-- the rest of _trace_response or of _stream_trace, with the `finally`
unfoldable pub finish_request : ℕ → GenerationEnd → Service → Service
finish_request n e s = if holds_lock n s.holder then finish_live e n (find_live n s.live) s else s

-- the task of a request that waits for the lock is cancelled: no `finally` is entered yet
unfoldable pub abandon_request : ℕ → Service → Service
abandon_request n s = if holds_lock n s.holder then s else record s { live = without_live n s.live }

-- POST /cancel
unfoldable pub cancel_request : String → Service → Service × Bool
cancel_request id s = elim (event_of_id id s.cancellations) [
  | none ↦ (s, false)
  | some n ↦ (
    record s { set_events = n ∷ s.set_events; cancelled_requests = s.cancelled_requests + 1 },
    true,
  )
]

abbrev pub all_events : List (String × ℕ) → List ℕ → List ℕ
all_events [] ns = ns
all_events ((k, n) ∷ ks) ns = n ∷ all_events ks ns

-- POST /shutdown
unfoldable pub shut_down : Service → Service
shut_down s = record s {
  worker_state = stopping;
  set_events = all_events s.cancellations s.set_events;
}

-- POST /warmup that succeeds
unfoldable pub warm_up : Service → Service
warm_up s = record s { is_ready = true; worker_state = ready }

-- POST /prefix-cache/clear: whether it is let through
unfoldable pub may_clear_cache : Service → Bool
may_clear_cache s = is_none s.holder

pub data ServiceStep : Type 0 where
  warms shuts : ServiceStep
  arrives : String → Bool → Bool → ServiceStep
  enters abandons : ℕ → ServiceStep
  ends : ℕ → GenerationEnd → ServiceStep
  cancels : String → ServiceStep

unfoldable pub happen : ServiceStep → Service → Service
happen warms s = warm_up s
happen shuts s = shut_down s
happen (arrives id fits streams) s = register_request id fits streams s
happen (enters n) s = take_lock n s
happen (abandons n) s = abandon_request n s
happen (ends n e) s = finish_request n e s
happen (cancels id) s = (cancel_request id s).0

unfoldable pub happen_all : List ServiceStep → Service → Service
happen_all [] s = s
happen_all (x ∷ xs) s = happen_all xs (happen x s)
