-- ===== src/Autoregressive/Service/Reaches.antt =====
-- Cancellations of live requests in backend/modeldeck/workers/autoregressive_worker.py.
use model_deck.Base.{
  ℕ, ◌≡◌, refl, inl, inr, String, Bool, true, false, not, ◌&&◌, Option, none, some, List, [], ◌∷◌,
  eq_iff, arith, Option-cases,
}
use model_deck.Autoregressive.Service.{
  Live, Service, new_service, event_of_id, find_live, without_live, GenerationEnd, register_request,
  take_lock, finish_live, finish_request, abandon_request, cancel_request, shut_down, warm_up,
  ServiceStep, warms, shuts, arrives, enters, abandons, ends, cancels, happen, happen_all,
}
use model_deck.Autoregressive.Service.Registered.{
  has_id, all_registered, pop-all_registered, put-all_registered, without_live-all_registered,
  find_live-gone, find_live-registered,
}

abbrev pub is_reachable : Service → Bool
is_reachable s = all_registered s.next_event s.cancellations s.live

register_request-is_reachable :
    (id : String) (fits streams : Bool) (s : Service)
    → has_id id s.live ≡ false
    → is_reachable s ≡ true
    → is_reachable (register_request id fits streams s) ≡ true
unfolding register_request
register_request-is_reachable id fits streams s d h = ground (
  arith,
  d,
  h,
  put-all_registered s.next_event s.next_event s.cancellations id s.live,
  eq_iff id id,
)

finish_live-is_reachable :
    (e : GenerationEnd) (n : ℕ) (r : Option Live) (s : Service)
    → find_live n s.live ≡ r
    → is_reachable s ≡ true
    → is_reachable (finish_live e n r s) ≡ true
finish_live-is_reachable e n none s f h = h
finish_live-is_reachable e n (some r) s f h =
    pop-all_registered s.next_event s.cancellations r.request_id (without_live n s.live)
      (find_live-gone s.next_event n s.cancellations s.live r h f)
      (without_live-all_registered s.next_event n s.cancellations s.live h)

-- Each request that arrives has an identifier that no live request has.
unfoldable pub is_fresh : ServiceStep → Service → Bool
is_fresh (arrives id fits streams) s = not (has_id id s.live)
is_fresh _ s = true

unfoldable pub are_fresh : List ServiceStep → Service → Bool
are_fresh [] s = true
are_fresh (x ∷ xs) s = is_fresh x s && are_fresh xs (happen x s)

happen-is_reachable :
    (x : ServiceStep) (s : Service)
    → is_fresh x s ≡ true
    → is_reachable s ≡ true
    → is_reachable (happen x s) ≡ true
unfolding happen is_fresh warm_up shut_down take_lock abandon_request finish_request cancel_request
happen-is_reachable warms s d h = h
happen-is_reachable shuts s d h = h
happen-is_reachable (arrives id fits streams) s d h =
    register_request-is_reachable id fits streams s (ground (arith, d)) h
happen-is_reachable (enters n) s d h = ground (arith, h)
happen-is_reachable (abandons n) s d h =
    ground (arith, h, without_live-all_registered s.next_event n s.cancellations s.live)
happen-is_reachable (ends n e) s d h =
    ground (arith, h, finish_live-is_reachable e n (find_live n s.live) s refl)
happen-is_reachable (cancels id) s d h = elim (Option-cases (event_of_id id s.cancellations)) [
  | inl e ↦ ground (arith, e, h)
  | inr (n, e) ↦ ground (arith, e, h)
]

happen_all-is_reachable :
    (xs : List ServiceStep) (s : Service)
    → are_fresh xs s ≡ true
    → is_reachable s ≡ true
    → is_reachable (happen_all xs s) ≡ true
unfolding happen_all are_fresh
happen_all-is_reachable [] s d h = h
happen_all-is_reachable (x ∷ xs) s d h =
    happen_all-is_reachable xs (happen x s) (ground (arith, d))
      (happen-is_reachable x s (ground (arith, d)) h)

-- While no request arrives under the identifier of one that is live: in every interleaving of arrivals,
-- generations, ends, cancellations, warm-ups and a shutdown, also for a request that still waits for the
-- lock, POST /cancel with the identifier of a live request answers ok and sets the event of that request.
pub happen_all-cancel_request :
    (xs : List ServiceStep) (n : ℕ) (r : Live)
    → are_fresh xs new_service ≡ true
    → find_live n (happen_all xs new_service).live ≡ some r
    → ((cancel_request r.request_id (happen_all xs new_service)).1 ≡ true)
      × ((cancel_request r.request_id (happen_all xs new_service)).0.set_events
          ≡ n ∷ (happen_all xs new_service).set_events)
unfolding cancel_request new_service
happen_all-cancel_request xs n r d f =
    let s = happen_all xs new_service in
    let e =
      find_live-registered s.next_event n s.cancellations s.live r
        (happen_all-is_reachable xs new_service d refl) f in
    rw (cancel_request, e) (refl, refl)
