-- ===== src/Autoregressive/Service/Registered.antt =====
-- The cancellations and the live requests of backend/modeldeck/workers/autoregressive_worker.py.
use model_deck.Base.{
  ℕ, suc, ◌≡◌, refl, inl, inr, String, Bool, true, false, not, ◌&&◌, ◌==◌, some, List, [], ◌∷◌, any,
  str_eq, eq_iff, arith, Bool-cases, Option-cases, ltb,
}
use model_deck.Autoregressive.Service.{
  Live, event_of_id, pop_id, put_id, find_live, without_live, holds_lock,
}

abbrev pub has_id : String → List Live → Bool
has_id id rs = any (λ (r : Live). str_eq r.request_id id) rs

-- Each live request is registered with its own event, which is older than the next one, and no two have
-- one identifier.
abbrev pub is_registered : List (String × ℕ) → Live → Bool
is_registered ks r = holds_lock r.event (event_of_id r.request_id ks)

abbrev pub all_registered : ℕ → List (String × ℕ) → List Live → Bool
all_registered next ks [] = true
all_registered next ks (r ∷ rs) =
    is_registered ks r
    && ltb r.event next
    && not (has_id r.request_id rs)
    && all_registered next ks rs

event_of_id-pop :
    (id k : String) (ks : List (String × ℕ))
    → str_eq k id ≡ false
    → event_of_id id (pop_id k ks) ≡ event_of_id id ks
event_of_id-pop id k [] d = refl
event_of_id-pop id k ((j, n) ∷ ks) d =
    ground (arith, d, event_of_id-pop id k ks d, eq_iff j k, eq_iff j id)

-- what happens to the entry of one identifier leaves the requests with others registered
pub pop-all_registered :
    (next : ℕ) (ks : List (String × ℕ)) (id : String) (rs : List Live)
    → has_id id rs ≡ false
    → all_registered next ks rs ≡ true
    → all_registered next (pop_id id ks) rs ≡ true
pop-all_registered next ks id [] d h = refl
pop-all_registered next ks id (r ∷ rs) d h = ground (
  arith,
  d,
  h,
  pop-all_registered next ks id rs,
  event_of_id-pop r.request_id id ks,
  eq_iff r.request_id id,
  eq_iff id r.request_id,
)

pub put-all_registered :
    (next n : ℕ) (ks : List (String × ℕ)) (id : String) (rs : List Live)
    → has_id id rs ≡ false
    → all_registered next ks rs ≡ true
    → all_registered (suc next) (put_id id n ks) rs ≡ true
put-all_registered next n ks id [] d h = refl
put-all_registered next n ks id (r ∷ rs) d h = ground (
  arith,
  d,
  h,
  put-all_registered next n ks id rs,
  event_of_id-pop r.request_id id ks,
  eq_iff r.request_id id,
  eq_iff id r.request_id,
)

without_live-has_id :
    (id : String) (n : ℕ) (rs : List Live)
    → has_id id rs ≡ false
    → has_id id (without_live n rs) ≡ false
without_live-has_id id n [] h = h
without_live-has_id id n (r ∷ rs) h = ground (arith, h, without_live-has_id id n rs)

pub without_live-all_registered :
    (next n : ℕ) (ks : List (String × ℕ)) (rs : List Live)
    → all_registered next ks rs ≡ true
    → all_registered next ks (without_live n rs) ≡ true
without_live-all_registered next n ks [] h = h
without_live-all_registered next n ks (r ∷ rs) h =
    ground
      (arith, h, without_live-all_registered next n ks rs, without_live-has_id r.request_id n rs)

find_live-has_id :
    (n : ℕ) (rs : List Live) (r : Live) → find_live n rs ≡ some r → has_id r.request_id rs ≡ true
find_live-has_id n [] r f = ground (arith, f)
find_live-has_id n (q ∷ rs) r f =
    ground (arith, f, find_live-has_id n rs r, eq_iff r.request_id r.request_id)

-- the request with an event is gone, and so is its identifier
pub find_live-gone :
    (next n : ℕ) (ks : List (String × ℕ)) (rs : List Live) (r : Live)
    → all_registered next ks rs ≡ true
    → find_live n rs ≡ some r
    → has_id r.request_id (without_live n rs) ≡ false
find_live-gone next n ks [] r h f = ground (arith, f)
find_live-gone next n ks (q ∷ rs) r h f = elim (Bool-cases (q.event == n)) [
  | inl e ↦ ground (arith, h, f, e, without_live-has_id r.request_id n rs)
  | inr e ↦ ground (
    arith,
    h,
    f,
    e,
    find_live-gone next n ks rs r,
    find_live-has_id n rs r,
    eq_iff q.request_id r.request_id,
  )
]

pub find_live-registered :
    (next n : ℕ) (ks : List (String × ℕ)) (rs : List Live) (r : Live)
    → all_registered next ks rs ≡ true
    → find_live n rs ≡ some r
    → event_of_id r.request_id ks ≡ some n
find_live-registered next n ks [] r h f = ground (arith, f)
find_live-registered next n ks (q ∷ rs) r h f = elim (Option-cases (event_of_id q.request_id ks)) [
  | inl e ↦ ground (arith, e, h)
  | inr (k, e) ↦ ground (arith, e, h, f, find_live-registered next n ks rs r)
]
