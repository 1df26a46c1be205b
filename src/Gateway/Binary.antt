-- ===== src/Gateway/Binary.antt =====
-- proxy_binary_request of backend/modeldeck/gateway/app.py, like proxy_request in Gateway/Proxy.
pub mod Balance
use model_deck.Base.{
  ℕ, String, Bool, true, false, not, ◌&&◌, ◌||◌, Option, none, some, List, [], ◌∷◌, ◌++◌,
  if◌then◌else◌, str_eq,
}
use model_deck.Thermal.Admission.{AdmissionDecision}
use model_deck.Gateway.{Action, release_capacity, claim_request, release_request}
use model_deck.Gateway.Claim.{Verdict, granted, refused, waiting}
use model_deck.Gateway.Proxy.{
  Profile, Environment, Query, selected, nobody, Selection, select_ready, route_candidates,
  claim_of, release_both,
}

-- How posting the request to the worker ends; a response has its success and whether it is WAV audio.
pub data Posting : Type 0 where
  timed_out cancelled failed : Posting
  posted : Bool → Bool → Posting

pub data BinaryAnswer : Type 0 where
  invalid_request invalid_request_id unavailable duplicate_request_id : BinaryAnswer
  gateway_timeout invalid_worker_audio error_forwarded audio raised pending : BinaryAnswer
  throttled : AdmissionDecision → BinaryAnswer

post_answer : Posting → BinaryAnswer
post_answer timed_out = gateway_timeout
post_answer cancelled = raised
post_answer failed = unavailable
post_answer (posted false wav) = error_forwarded
post_answer (posted true wav) = if wav then audio else invalid_worker_audio

-- from the granted capacity on; here no `except` or `finally` stands around the health checks
unfoldable pub serve : Environment → Query → Posting → List Profile → List Action × BinaryAnswer
unfolding post_answer
serve e q posting candidates =
    if e.cancelled_early then ([], raised) else elim (select_ready e.health true candidates) [
      | nobody all_busy ↦ (release_capacity ∷ [], unavailable)
      | selected p ↦
          if not e.identifier_free
          then (release_capacity ∷ [], duplicate_request_id)
          else (claim_request q.request_id q.number p.id ∷ release_both q p, post_answer posting)
    ]

unfoldable pub claimed : Environment → Query → Posting → List Profile → List Action × BinaryAnswer
unfolding serve
claimed e q posting candidates = elim (claim_of e q).1 [
  | waiting ↦ ((claim_of e q).0, pending)
  | refused decision ↦ ((claim_of e q).0, throttled decision)
  | granted decision ↦
      let (done, answer) = serve e q posting candidates in ((claim_of e q).0 ++ done, answer)
]

-- proxy_binary_request; the Boolean says that the body is JSON
unfoldable pub proxy_binary_request :
    Environment → Query → Bool → Posting → List Action × BinaryAnswer
unfolding claimed
proxy_binary_request e q is_json posting =
    if not is_json
    then ([], invalid_request)
    else if str_eq q.request_id ""
    then ([], invalid_request_id)
    else elim (route_candidates e.routes q.alias) [
      | none ↦ ([], unavailable)
      | some [] ↦ ([], unavailable)
      | some (p ∷ ps) ↦ claimed e q posting (p ∷ ps)
    ]
