-- ===== src/Autoregressive/BodyLimit/Bounds.antt =====
-- What the limit of backend/modeldeck/workers/autoregressive_worker.py bounds.
use model_deck.Base.{
  ℕ, ◌+◌, ◌≤◌, ◌≡◌, refl, inl, inr, Bool, true, false, not, List, [], ◌∷◌, arith, ltb, Bool-cases,
  ap,
}
use model_deck.Autoregressive.BodyLimit.{
  Message, http_request, other, message, too_large, Application, receives, completes, escapes,
  ContentLength, absent, malformed, negative, declared, see, limited, unlimited, request_body_limit,
}

abbrev pub total_bytes : List Message → ℕ
total_bytes [] = 0
total_bytes (http_request n ∷ ms) = n + total_bytes ms
total_bytes (other ∷ ms) = total_bytes ms

-- The Content-Length is absent, negative, or within the maximum.
abbrev pub length_fits : ℕ → ContentLength → Bool
length_fits maximum_bytes absent = true
length_fits maximum_bytes malformed = false
length_fits maximum_bytes negative = true
length_fits maximum_bytes (declared n) = not (ltb maximum_bytes n)

limited-stuck :
    (maximum_bytes received : ℕ) (app : Application) (ms : List Message)
    → ltb maximum_bytes received ≡ true
    → total_bytes (limited maximum_bytes received app ms).seen ≡ 0
unfolding limited
limited-stuck k r completes ms h = refl
limited-stuck k r escapes ms h = refl
limited-stuck k r (receives next) [] h = refl
limited-stuck k r (receives next) (other ∷ ms) h = limited-stuck k r (next (message other)) ms h
limited-stuck k r (receives next) (http_request n ∷ ms) h =
    let over : ltb k (r + n) ≡ true = ground arith in
    rw over (limited-stuck k (r + n) (next too_large) ms over)

limited-bounded :
    (maximum_bytes received : ℕ) (app : Application) (ms : List Message)
    → received ≤ maximum_bytes
    → received + total_bytes (limited maximum_bytes received app ms).seen ≤ maximum_bytes
unfolding limited
limited-bounded k r completes ms h = ground arith
limited-bounded k r escapes ms h = ground arith
limited-bounded k r (receives next) [] h = ground arith
limited-bounded k r (receives next) (other ∷ ms) h = limited-bounded k r (next (message other)) ms h
limited-bounded k r (receives next) (http_request n ∷ ms) h = elim (Bool-cases (ltb k (r + n))) [
  | inl over ↦
      rw over
        (let none_left = limited-stuck k (r + n) (next too_large) ms over in ground (arith, h))
  | inr within ↦ rw within (
      let rest =
        limited-bounded k (r + n) (next (message (http_request n))) ms (ground (arith, within)) in
      ground arith)
]

limited-same :
    (maximum_bytes received : ℕ) (app : Application) (ms : List Message)
    → received + total_bytes ms ≤ maximum_bytes
    → limited maximum_bytes received app ms ≡ unlimited app ms
unfolding limited unlimited
limited-same k r completes ms h = refl
limited-same k r escapes ms h = refl
limited-same k r (receives next) [] h = refl
limited-same k r (receives next) (other ∷ ms) h =
    ap (see other) (limited-same k r (next (message other)) ms h)
limited-same k r (receives next) (http_request n ∷ ms) h =
    let within : ltb k (r + n) ≡ false = ground arith in
    rw within (
      ap (see (http_request n))
        (limited-same k (r + n) (next (message (http_request n))) ms (ground arith)))

from_start :
    (maximum_bytes : ℕ) (app : Application) (ms : List Message)
    → total_bytes (limited maximum_bytes 0 app ms).seen ≤ maximum_bytes
from_start k app ms =
    let within : 0 + total_bytes (limited k 0 app ms).seen ≤ k =
      limited-bounded k 0 app ms (ground arith) in
    ground (arith, within)

-- For every HTTP request, whatever its Content-Length says, however its body is cut into messages,
-- and even if the application handles the exception and receives again, the bodies that the
-- application gets have together at most the maximum number of bytes.
pub body_limit_bounds :
    (maximum_bytes : ℕ) (length : ContentLength) (app : Application) (ms : List Message)
    → total_bytes (request_body_limit maximum_bytes true length app ms).seen ≤ maximum_bytes
unfolding request_body_limit
body_limit_bounds k absent app ms = from_start k app ms
body_limit_bounds k malformed app ms = ground arith
body_limit_bounds k negative app ms = from_start k app ms
body_limit_bounds k (declared n) app ms = elim (Bool-cases (ltb k n)) [
  | inl over ↦ rw over (ground arith)
  | inr within ↦ rw within (from_start k app ms)
]

-- An HTTP request whose bodies have together at most the maximum number of bytes, and whose
-- Content-Length is absent, negative or at most that number, is served as if there were no limit.
pub body_limit_transparent :
    (maximum_bytes : ℕ) (length : ContentLength) (app : Application) (ms : List Message)
    → total_bytes ms ≤ maximum_bytes
    → length_fits maximum_bytes length ≡ true
    → request_body_limit maximum_bytes true length app ms ≡ unlimited app ms
unfolding request_body_limit
body_limit_transparent k absent app ms h f = limited-same k 0 app ms (ground arith)
body_limit_transparent k malformed app ms h f = absurd (cc f)
body_limit_transparent k negative app ms h f = limited-same k 0 app ms (ground arith)
body_limit_transparent k (declared n) app ms h f =
    let within : ltb k n ≡ false = ground (arith, f) in
    rw within (limited-same k 0 app ms (ground arith))
