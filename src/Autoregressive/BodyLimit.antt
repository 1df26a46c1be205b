-- ===== src/Autoregressive/BodyLimit.antt =====
-- RequestBodyLimitMiddleware of backend/modeldeck/workers/autoregressive_worker.py.
pub mod Bounds
use model_deck.Base.{
  ℕ, ◌+◌, ◌≤◌, ◌≡◌, refl, inl, inr, Bool, true, false, List, [], ◌∷◌, arith, ltb, Bool-cases,
  if◌then◌else◌, ap,
}

abbrev pub max_request_bytes : ℕ
max_request_bytes = 4194304

-- A message of the server: `http.request` with the length of its body, or another one.
pub data Message : Type 0 where
  http_request : ℕ → Message
  other : Message

-- What the application's call of `receive` gives: a message, or _RequestBodyTooLarge.
pub data Received : Type 0 where
  message : Message → Received
  too_large : Received

-- The application, an argument of the middleware: it receives and goes on by what it gets (it may
-- well handle the exception), comes to its end, or lets _RequestBodyTooLarge out.
pub data Application : Type 0 where
  receives : (Received → Application) → Application
  completes escapes : Application

-- The Content-Length header: absent or empty, not an integer, below zero, or a number.
pub data ContentLength : Type 0 where
  absent malformed negative : ContentLength
  declared : ℕ → ContentLength

pub data Answer : Type 0 where
  application_answer request_too_large invalid_request waiting : Answer

-- The messages that the application got, and the answer.
pub record Served : Type 0 where
  pub seen : List Message
  pub answer : Answer

abbrev pub see : Message → Served → Served
see m s = record s { seen = m ∷ s.seen }

-- limited_receive: the new `received`, and what the application gets
abbrev pub limited_receive : ℕ → ℕ → Message → ℕ × Received
limited_receive maximum_bytes received (http_request n) =
    (received + n, if ltb maximum_bytes (received + n) then too_large else message (http_request n))
limited_receive maximum_bytes received other = (received, message other)

abbrev pub seen_with : Received → Served → Served
seen_with (message m) s = see m s
seen_with too_large s = s

-- `await self.app(scope, limited_receive, send)` with its `except`; without another message
-- the application waits
unfoldable pub limited : ℕ → ℕ → Application → List Message → Served
limited maximum_bytes received completes ms = record { seen = []; answer = application_answer }
limited maximum_bytes received escapes ms = record { seen = []; answer = request_too_large }
limited maximum_bytes received (receives next) [] = record { seen = []; answer = waiting }
limited maximum_bytes received (receives next) (m ∷ ms) =
    let (received', got) = limited_receive maximum_bytes received m in
    seen_with got (limited maximum_bytes received' (next got) ms)

-- the application without the limit
unfoldable pub unlimited : Application → List Message → Served
unlimited completes ms = record { seen = []; answer = application_answer }
unlimited escapes ms = record { seen = []; answer = request_too_large }
unlimited (receives next) [] = record { seen = []; answer = waiting }
unlimited (receives next) (m ∷ ms) = see m (unlimited (next (message m)) ms)

abbrev pub refusal : Answer → Served
refusal answer = record { seen = []; answer = answer }

-- the call of the middleware; a scope is `http` or another one
unfoldable pub request_body_limit : ℕ → Bool → ContentLength → Application → List Message → Served
request_body_limit maximum_bytes false length app ms = unlimited app ms
request_body_limit maximum_bytes true malformed app ms = refusal invalid_request
request_body_limit maximum_bytes true (declared n) app ms =
    if ltb maximum_bytes n then refusal request_too_large else limited maximum_bytes 0 app ms
request_body_limit maximum_bytes true absent app ms = limited maximum_bytes 0 app ms
request_body_limit maximum_bytes true negative app ms = limited maximum_bytes 0 app ms
