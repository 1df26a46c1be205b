-- ===== src/SceneChat.antt =====
-- The application of backend/modeldeck/workers/scenechat_worker.py: one request at a time has the slot
-- of the worker. A handler is cut at its `await`s; what the engine and the request bring is an argument.
-- Diagnostics, latencies and the text of answers are left out.
pub mod Slot
pub mod Image
use model_deck.Base.{
  ℕ, suc, ◌+◌, String, Bool, true, false, not, ◌&&◌, Option, none, some, if◌then◌else◌, str_eq,
  is_none,
}
use model_deck.Supervisor.{WorkerState, loading, warming, ready, busy, failed, stopping}

-- app.state, with whether the cancellation of the active request is set
pub record App : Type 0 where
  pub worker_state : WorkerState
  pub is_ready : Bool
  pub has_load_error : Bool
  pub active_request_id : Option String
  pub cancelled : Bool
  pub requests : ℕ
  pub successes : ℕ
  pub failures : ℕ
  pub cancelled_requests : ℕ
  pub timed_out_requests : ℕ
  pub concurrent_rejections : ℕ

-- the codes of SceneChatRequestError
pub data RequestError : Type 0 where
  unauthorised model_not_ready model_unavailable invalid_model invalid_request : RequestError
  invalid_request_id worker_busy invalid_image request_cancelled generation_timeout : RequestError
  client_disconnected invalid_model_output internal_error : RequestError

pub data Reply : Type 0 where
  ok : Reply
  error : RequestError → Reply
  -- the request has the slot, and goes on to its generation
  starts : String → Reply

-- lifespan
unfoldable pub new_app : App
new_app = record {
  worker_state = loading;
  is_ready = false;
  has_load_error = false;
  active_request_id = none;
  cancelled = false;
  requests = 0;
  successes = 0;
  failures = 0;
  cancelled_requests = 0;
  timed_out_requests = 0;
  concurrent_rejections = 0;
}

-- _load_engine, with whether the engine loads
unfoldable pub load_engine : Bool → App → App
load_engine true a = record a { worker_state = warming }
load_engine false a = record a { has_load_error = true; worker_state = failed }

-- POST /warmup, before and after the engine is warmed up
unfoldable pub warmup : App → App × Reply
warmup a =
    if a.has_load_error
    then (a, error model_unavailable)
    else (record a { worker_state = warming }, ok)

unfoldable pub warmed_up : Bool → App → App × Reply
warmed_up true a = (record a { is_ready = true; worker_state = ready }, ok)
warmed_up false a =
    (record a { worker_state = failed; has_load_error = true }, error model_unavailable)

abbrev pub has_slot : String → Option String → Bool
has_slot id none = false
has_slot id (some active) = str_eq active id

-- POST /cancel
unfoldable pub cancel : String → App → App × Bool
cancel id a =
    if not (str_eq id "") && has_slot id a.active_request_id
    then (record a { cancelled = true; cancelled_requests = a.cancelled_requests + 1 }, true)
    else (a, false)

-- POST /shutdown
unfoldable pub shutdown : App → App
shutdown a = record a {
  worker_state = stopping;
  cancelled = if is_none a.active_request_id then a.cancelled else true;
}

-- _claim_slot
unfoldable pub claim_slot : String → App → App × Bool
claim_slot id a =
    if is_none a.active_request_id
    then (record a { active_request_id = some id; cancelled = false }, true)
    else (a, false)

-- _release_slot
unfoldable pub release_slot : String → App → App
release_slot id a =
    if has_slot id a.active_request_id
    then record a {
      active_request_id = none;
      cancelled = false;
      worker_state = if a.is_ready then ready else a.worker_state;
    }
    else a

-- A request of POST /v1/chat/completions: what its checks say, and its identifier.
pub record Chat : Type 0 where
  pub authorised : Bool
  pub model_allowed : Bool
  pub messages_valid : Bool
  pub has_safe_request_id : Bool
  pub request_id : String

-- chat, up to the first `await` behind its claim of the slot
unfoldable pub chat : Chat → App → App × Reply
chat c a =
    if not c.authorised
    then (a, error unauthorised)
    else if not a.is_ready
    then (a, error model_not_ready)
    else if not c.model_allowed
    then (a, error invalid_model)
    else if not c.messages_valid
    then (a, error invalid_request)
    else if not c.has_safe_request_id
    then (a, error invalid_request_id)
    else let (claimed, granted) = claim_slot c.request_id a in
      if granted
      then (record claimed { requests = a.requests + 1; worker_state = busy }, starts c.request_id)
      else (
        record claimed { concurrent_rejections = a.concurrent_rejections + 1 },
        error worker_busy,
      )

-- How the wait of _run_generation ends, and the task that it waits for: a result with whether it is a
-- cancelled one, or an exception.
pub data Stop : Type 0 where
  task_done timed_out disconnected : Stop

pub data Generated : Type 0 where
  result : Bool → Generated
  raises : Generated

-- The end of a request: the image is refused, or there was a generation, with whether its output is
-- valid.
pub data ChatEnd : Type 0 where
  image_refused : ChatEnd
  generated : Stop → Generated → Bool → ChatEnd

-- _run_generation, behind the task
unfoldable pub run_generation : Stop → Generated → App → App × Option RequestError
run_generation stop raises a = (a, some internal_error)
run_generation timed_out (result c) a =
    (record a { timed_out_requests = a.timed_out_requests + 1 }, some generation_timeout)
run_generation disconnected (result c) a =
    (record a { cancelled_requests = a.cancelled_requests + 1 }, some client_disconnected)
run_generation task_done (result c) a = (a, if c then some request_cancelled else none)

abbrev pub fail_with : RequestError → App → App × Reply
fail_with code a = (record a { failures = a.failures + 1 }, error code)

abbrev pub conclude : Bool → App × Option RequestError → App × Reply
conclude valid (a, some code) = fail_with code a
conclude valid (a, none) =
    if valid
    then (record a { successes = a.successes + 1 }, ok)
    else fail_with invalid_model_output a

-- the `try` of chat
unfoldable pub chat_body : ChatEnd → App → App × Reply
chat_body image_refused a = fail_with invalid_image a
chat_body (generated stop g valid) a = conclude valid (run_generation stop g a)

-- and its `finally`
unfoldable pub end_chat : String → ChatEnd → App → App × Reply
end_chat id e a = let (a', reply) = chat_body e a in (release_slot id a', reply)

-- POST /native/vision-language/smoke, which counts nothing
unfoldable pub smoke : Bool → String → App → App × Reply
smoke authorised id a =
    if not authorised
    then (a, error unauthorised)
    else if not a.is_ready
    then (a, error model_not_ready)
    else let (claimed, granted) = claim_slot id a in
      if granted then (claimed, starts id) else (claimed, error worker_busy)

unfoldable pub end_smoke : String → App → App
end_smoke id a = release_slot id a
