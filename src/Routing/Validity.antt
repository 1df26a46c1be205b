-- ===== src/Routing/Validity.antt =====
-- What the absence of faults in validate_routing_profile of backend/modeldeck/domain.py says of the
-- workers of a capability.
use model_deck.Base.{
  sym, ap, ◌∙◌, subst, ◌≡◌, refl, String, Bool, true, false, not, ◌&&◌, Option, none, some, List,
  [], ◌∷◌, ◌++◌, map, all, arith, All, inl, inr, Bool-cases, Option-cases, str_eq,
}
use model_deck.Text.{member}
use model_deck.Capabilities.Contracts.{ProtocolContract, contract_in, protocol_contracts, Expected}
use model_deck.Capabilities.Matching.{Setting, has_all, meets}
use model_deck.Routing.{
  WorkerDefinition, CapabilityBinding, RoutingProfile, Records, ResolvedWorker, ProfileError, Fault,
  worker_faults, no_more, resolve_workers, missing_names, mismatched, compatible_families,
  find_worker,
}

pub no_more-append : (A : Type 0) (xs ys : List A) → no_more (xs ++ ys) ≡ (no_more xs && no_more ys)
no_more-append A [] ys = refl
no_more-append A (x ∷ xs) ys = refl

no_more-map : (A B : Type 0) (f : A → B) (xs : List A) → no_more (map f xs) ≡ no_more xs
no_more-map A B f [] = refl
no_more-map A B f (x ∷ xs) = refl

-- Every worker of a capability is marked as valid.
abbrev pub all_valid : List ResolvedWorker → Bool
all_valid rs = all (λ r. r.valid) rs

pub resolve_workers-valid :
    (p : RoutingProfile) (r : Records) (ws : List WorkerDefinition) (b : CapabilityBinding)
    (c : ProtocolContract) (primary : Bool) (ids : List String)
    → no_more (resolve_workers p r ws b c primary ids).0
      ≡ all_valid (resolve_workers p r ws b c primary ids).1
unfolding resolve_workers
resolve_workers-valid p r ws b c primary [] = refl
resolve_workers-valid p r ws b c primary (id ∷ ids) =
    rw
      (
        no_more-append ProfileError _ (resolve_workers p r ws b c false ids).0,
        no_more-map Fault ProfileError _ (worker_faults p r b c (find_worker id ws)),
        resolve_workers-valid p r ws b c false ids,
      )
      refl

missing-has_all :
    (held names : List String) → no_more (missing_names held names) ≡ has_all held names
unfolding missing_names has_all
missing-has_all held [] = refl
missing-has_all held (n ∷ ns) = ground (arith, missing-has_all held ns)

mismatched-meets :
    (setting : String → Option Setting) (rs : List (String × Expected))
    → no_more (mismatched setting rs) ≡ meets setting rs
unfolding mismatched meets
mismatched-meets setting [] = refl
mismatched-meets setting (r ∷ rs) = ground (arith, mismatched-meets setting rs)

-- The worker fulfils the contract.
unfoldable pub fulfils : ProtocolContract → WorkerDefinition → Bool
fulfils c w =
    member w.generation_family (compatible_families c)
    && has_all w.capabilities c.required_capabilities
    && meets w.settings c.required_worker_settings

faultless-fulfils :
    (p : RoutingProfile) (r : Records) (b : CapabilityBinding) (c : ProtocolContract)
    (w : WorkerDefinition)
    → no_more (worker_faults p r b c (some w)) ≡ true
    → fulfils c w ≡ true
unfolding worker_faults fulfils
faultless-fulfils p r b c w h = ground (
  arith,
  h,
  missing-has_all w.capabilities c.required_capabilities,
  mismatched-meets w.settings c.required_worker_settings,
)

first_lem :
    (id : String) (v w : WorkerDefinition)
    → (not v.archived && str_eq v.id id) ≡ true
    → some v ≡ some w
    → (not w.archived && str_eq w.id id) ≡ true
first_lem id v w t e =
    let same : v ≡ w = cc e in subst (λ u. (not u.archived && str_eq u.id id) ≡ true) same t

found_lem :
    (id : String) (ws : List WorkerDefinition) (w : WorkerDefinition)
    → find_worker id ws ≡ some w
    → (not w.archived && str_eq w.id id) ≡ true
unfolding find_worker
found_lem id [] w e = absurd (cc e)
found_lem id (v ∷ ws) w e = elim (Option-cases (find_worker id ws)) [
  | inl q ↦ elim (Bool-cases (not v.archived && str_eq v.id id)) [
    | inl t ↦ first_lem id v w t (rw (q, t) at e)
    | inr f ↦ absurd (cc (rw (q, f) at e))
  ]
  | inr (u, q) ↦ found_lem id ws w (q ∙ (rw q at e))
]

-- The worker `id` is there, is not archived, and fulfils the contract.
abbrev pub Provides : List WorkerDefinition → ProtocolContract → String → Type 0
Provides ws c id =
    (w : WorkerDefinition) × (find_worker id ws ≡ some w)
    × ((not w.archived && str_eq w.id id && fulfils c w) ≡ true)

-- The contract is known, and every worker of the capability provides it.
unfoldable pub Served : List WorkerDefinition → CapabilityBinding → Type 0
Served ws b =
    (c : ProtocolContract) × (contract_in b.protocol_contract protocol_contracts ≡ some c)
    × All (Provides ws c) b.worker_ids

no_fault_lem :
    (p : RoutingProfile) (r : Records) (b : CapabilityBinding) (c : ProtocolContract)
    → ¬ (no_more (worker_faults p r b c none) ≡ true)
unfolding worker_faults
no_fault_lem p r b c e = absurd (cc e)

provides_lem :
    (p : RoutingProfile) (r : Records) (ws : List WorkerDefinition) (b : CapabilityBinding)
    (c : ProtocolContract) (id : String)
    → no_more (worker_faults p r b c (find_worker id ws)) ≡ true
    → Provides ws c id
provides_lem p r ws b c id h = elim (Option-cases (find_worker id ws)) [
  | inl e ↦ absurd (no_fault_lem p r b c (rw e at h))
  | inr (w, e) ↦
      (w, e, ground (arith, found_lem id ws w e, faultless-fulfils p r b c w (rw e at h)))
]

pub workers-Provides :
    (p : RoutingProfile) (r : Records) (ws : List WorkerDefinition) (b : CapabilityBinding)
    (c : ProtocolContract) (primary : Bool) (ids : List String)
    → no_more (resolve_workers p r ws b c primary ids).0 ≡ true
    → All (Provides ws c) ids
unfolding resolve_workers
workers-Provides p r ws b c primary [] h = tt
workers-Provides p r ws b c primary (id ∷ ids) h =
    let both : (no_more (worker_faults p r b c (find_worker id ws))
          && no_more (resolve_workers p r ws b c false ids).0)
        ≡ true =
      sym (
        no_more-append ProfileError _ (resolve_workers p r ws b c false ids).0
        ∙ ap (λ x. x && no_more (resolve_workers p r ws b c false ids).0)
            (no_more-map Fault ProfileError _ (worker_faults p r b c (find_worker id ws))))
      ∙ h in
    (
      provides_lem p r ws b c id (ground (arith, both)),
      workers-Provides p r ws b c false ids (ground (arith, both)),
    )
