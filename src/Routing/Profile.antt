-- ===== src/Routing/Profile.antt =====
-- The report of validate_routing_profile in backend/modeldeck/domain.py on a whole profile.
use model_deck.Base.{
  sym, ap₂, ◌∙◌, subst, ◌≡◌, refl, String, true, ◌&&◌, some, List, [], ◌∷◌, ◌++◌, all, arith, All,
  inl, inr, Option-cases,
}
use model_deck.Capabilities.Contracts.{ProtocolContract, contract_in, protocol_contracts}
use model_deck.Routing.{
  WorkerDefinition, CapabilityBinding, RoutingProfile, Records, Report, ResolvedWorker,
  ProfileError, no_more, resolve_workers, resolve_capabilities, validate_routing_profile, is_valid,
}
use model_deck.Routing.Validity.{
  no_more-append, all_valid, resolve_workers-valid, workers-Provides, Served,
}

-- The two parts of the result agree, and without errors every capability is served.
Resolved :
    List WorkerDefinition
    → List CapabilityBinding
    → List ProfileError × List (String × List ResolvedWorker)
    → Type 0
Resolved ws bs out =
    (no_more out.0 ≡ all (λ c. all_valid c.1) out.1) × (no_more out.0 ≡ true → All (Served ws) bs)

cons-Resolved :
    (p : RoutingProfile) (r : Records) (ws : List WorkerDefinition) (b : CapabilityBinding)
    (bs : List CapabilityBinding) (c : ProtocolContract)
    (out : List ProfileError × List (String × List ResolvedWorker))
    → contract_in b.protocol_contract protocol_contracts ≡ some c
    → Resolved ws bs out
    → Resolved ws (b ∷ bs) (
      (resolve_workers p r ws b c true b.worker_ids).0 ++ out.0,
      (b.id, (resolve_workers p r ws b c true b.worker_ids).1) ∷ out.1,
    )
unfolding Resolved Served
cons-Resolved p r ws b bs c out e (agree, served) =
    let split =
      no_more-append ProfileError (resolve_workers p r ws b c true b.worker_ids).0 out.0 in
    let valid = resolve_workers-valid p r ws b c true b.worker_ids in
    (
      split ∙ ap₂ ◌&&◌ valid agree,
      λ h.
          let both = sym split ∙ h in
          (
            (c, e, workers-Provides p r ws b c true b.worker_ids (ground (arith, both))),
            served (ground (arith, both)),
          ),
    )

nil-Resolved : (ws : List WorkerDefinition) → Resolved ws [] ([], [])
unfolding Resolved
nil-Resolved ws = (refl, λ h. tt)

some_lem : (x y : List ProfileError × List (String × List ResolvedWorker)) → some x ≡ some y → x ≡ y
some_lem x y e = cc e

resolve_capabilities-Resolved :
    (p : RoutingProfile) (r : Records) (ws : List WorkerDefinition) (bs : List CapabilityBinding)
    (out : List ProfileError × List (String × List ResolvedWorker))
    → resolve_capabilities p r ws bs ≡ some out
    → Resolved ws bs out
unfolding resolve_capabilities
resolve_capabilities-Resolved p r ws [] out e =
    subst (Resolved ws []) (some_lem _ _ e) (nil-Resolved ws)
resolve_capabilities-Resolved p r ws (b ∷ bs) out e =
    elim (Option-cases (contract_in b.protocol_contract protocol_contracts)) [
      | inl q ↦ absurd (cc (rw (q, resolve_capabilities) at e))
      | inr (c, q) ↦ elim (Option-cases (resolve_capabilities p r ws bs)) [
        | inl u ↦ absurd (cc (rw (q, u, resolve_capabilities) at e))
        | inr (more, u) ↦
            subst (Resolved ws (b ∷ bs)) (some_lem _ _ (rw (q, u, resolve_capabilities) at e))
              (cons-Resolved p r ws b bs c more q (resolve_capabilities-Resolved p r ws bs more u))
      ]
    ]

abbrev build : RoutingProfile → List ProfileError × List (String × List ResolvedWorker) → Report
build p out = record {
  errors = out.0;
  capabilities = out.1;
  publishes_nothing = no_more p.capabilities;
}

-- A report is valid exactly when it marks every worker of every capability as valid.
pub report_valid_iff :
    (p : RoutingProfile) (ws : List WorkerDefinition) (r : Records) (report : Report)
    → validate_routing_profile p ws r ≡ some report
    → is_valid report ≡ all (λ c. all_valid c.1) report.capabilities
unfolding validate_routing_profile Resolved
report_valid_iff p ws r report e =
    elim (Option-cases (resolve_capabilities p r ws p.capabilities)) [
      | inl q ↦ absurd (cc (rw (q, validate_routing_profile) at e))
      | inr (out, q) ↦
          let same : build p out ≡ report = cc (rw (q, validate_routing_profile) at e) in
          subst (λ t. is_valid t ≡ all (λ c. all_valid c.1) t.capabilities) same
            (resolve_capabilities-Resolved p r ws p.capabilities out q).0
    ]

-- In a profile with a valid report every capability has a known contract, and each of its workers is
-- there, is not archived, and has the family, capabilities and settings that the contract requires.
pub valid-Served :
    (p : RoutingProfile) (ws : List WorkerDefinition) (r : Records) (report : Report)
    → validate_routing_profile p ws r ≡ some report
    → is_valid report ≡ true
    → All (Served ws) p.capabilities
unfolding validate_routing_profile Resolved
valid-Served p ws r report e v = elim (Option-cases (resolve_capabilities p r ws p.capabilities)) [
  | inl q ↦ absurd (cc (rw (q, validate_routing_profile) at e))
  | inr (out, q) ↦
      let same : build p out ≡ report = cc (rw (q, validate_routing_profile) at e) in
      (resolve_capabilities-Resolved p r ws p.capabilities out q).1
        (subst (λ t. is_valid t ≡ true) (sym same) v)
]
