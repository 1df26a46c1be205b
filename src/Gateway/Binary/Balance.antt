-- ===== src/Gateway/Binary/Balance.antt =====
-- What proxy_binary_request of backend/modeldeck/gateway/app.py holds after its critical sections.
use model_deck.Base.{
  ◌≡◌, inl, inr, Bool, true, false, not, ◌&&◌, none, some, List, [], ◌∷◌, arith, Option-cases,
  if◌then◌else◌, str_eq,
}
use text.Mathlib.TextPositions.{eq_refl}
use model_deck.Gateway.Claim.{granted, refused, waiting}
use model_deck.Gateway.Proxy.{
  Profile, select_ready, Environment, Query, route_candidates, claim_of, workload_of,
}
use model_deck.Gateway.Binary.{Posting, serve, claimed, proxy_binary_request}
use model_deck.Gateway.Balance.{Held, nothing, advance, settle, settle-append, claim-settle, picked}

-- One unit of capacity for a request that was cancelled during the health checks.
abbrev pub lost : Environment → Held
lost e = if e.cancelled_early then record { capacity = 1; identifier = none } else nothing

abbrev pub reaches_workers : Environment → Query → Bool → Bool
reaches_workers e q is_json =
    is_json
    && not (str_eq q.request_id "")
    && (elim (route_candidates e.routes q.alias) [
      | none ↦ false
      | some [] ↦ false
      | some (p ∷ ps) ↦ true
    ])
    && (elim (claim_of e q).1 [ granted d ↦ true | refused d ↦ false | waiting ↦ false ])

serve-settle :
    (e : Environment) (q : Query) (posting : Posting) (candidates : List Profile)
    → settle (record { capacity = 1; identifier = none }) (serve e q posting candidates).0
      ≡ some (lost e)
unfolding serve settle advance
serve-settle e q posting candidates =
    elim (Option-cases (picked (select_ready e.health true candidates))) [
      | inl s ↦ ground (arith, s)
      | inr (p, s) ↦ ground (arith, eq_refl q.request_id, eq_refl p.id, s)
    ]

claimed-settle :
    (e : Environment) (q : Query) (posting : Posting) (candidates : List Profile)
    → settle nothing (claimed e q posting candidates).0
      ≡ some
          (elim (claim_of e q).1 [ granted d ↦ lost e | refused d ↦ nothing | waiting ↦ nothing ])
unfolding claimed
claimed-settle e q posting candidates = ground (
  arith,
  claim-settle e.policy (workload_of q) e.status e.now e.rounds,
  serve-settle e q posting candidates,
  settle-append nothing (record { capacity = 1; identifier = none }) (claim_of e q).0
      (serve e q posting candidates).0,
)

-- proxy_binary_request gives back everything that it has taken, whatever the worker answers, except
-- when its task is cancelled while it asks the candidates for their health: then it keeps the
-- capacity that it was granted.
pub binary-settle :
    (e : Environment) (q : Query) (is_json : Bool) (posting : Posting)
    → settle nothing (proxy_binary_request e q is_json posting).0
      ≡ some (if reaches_workers e q is_json then lost e else nothing)
unfolding proxy_binary_request settle
binary-settle e q is_json posting = elim (Option-cases (route_candidates e.routes q.alias)) [
  | inl s ↦ ground (arith, s)
  | inr ([], s) ↦ ground (arith, s)
  | inr (p ∷ ps, s) ↦ ground (arith, s, claimed-settle e q posting (p ∷ ps))
]
