-- ===== src/Routing/Capable.antt =====
-- The contracts of backend/modeldeck/protocol_contracts.py against the capabilities of
-- backend/modeldeck/capabilities.py that are published under them.
use text.Mathlib.TextEquality.{eq_iff}
use model_deck.Base.{
  ◌≡◌, refl, sym, ◌∙◌, subst, inl, inr, String, Bool, true, false, ◌&&◌, ◌==◌, Option, none, some,
  List, [], ◌∷◌, all, any, arith, Bool-cases, Option-cases, str_eq, if◌then◌else◌,
}
use model_deck.Text.{member}
use model_deck.Capabilities.Contracts.{
  ProtocolContract, protocol_contracts, contract_in, Expected, expected_text, expected_number,
}
use model_deck.Capabilities.Tables.{
  CapabilityDefinition, capability_definitions, required_worker_traits,
}
use model_deck.Capabilities.Matching.{
  Setting, Document, equals, has_all, meets, required_settings, worker_matches_capability,
  id_by_contract, capability_id_for_contract,
}
use model_deck.Routing.{WorkerDefinition}
use model_deck.Routing.Validity.{fulfils}

member-has_all :
    (held big : List String) (n : String)
    → has_all held big ≡ true
    → member n big ≡ true
    → member n held ≡ true
unfolding has_all
member-has_all held [] n h e = absurd (cc e)
member-has_all held (b ∷ big) n h e = elim (Bool-cases (str_eq n b)) [
  | inl q ↦ subst (λ x. member x held ≡ true) (sym ((eq_iff n b).0 q)) (ground (arith, h))
  | inr q ↦ member-has_all held big n (ground (arith, h)) (ground (arith, e, q))
]

has_all_trans :
    (held big small : List String)
    → has_all held big ≡ true
    → has_all big small ≡ true
    → has_all held small ≡ true
unfolding has_all
has_all_trans held big [] h e = refl
has_all_trans held big (n ∷ small) h e =
    ground (arith, member-has_all held big n h, has_all_trans held big small h, e)

abbrev same_expected : Expected → Expected → Bool
same_expected (expected_text a) (expected_text b) = str_eq a b
same_expected (expected_number m) (expected_number n) = m == n
same_expected (expected_text a) (expected_number n) = false
same_expected (expected_number m) (expected_text b) = false

abbrev same_pair : String × Expected → String × Expected → Bool
same_pair q r = str_eq q.0 r.0 && same_expected q.1 r.1

-- Every requirement of `small` is one of `big`.
abbrev includes : List (String × Expected) → List (String × Expected) → Bool
includes big small = all (λ r. any (λ q. same_pair q r) big) small

equals-same :
    (value : Option Setting) (x y : Expected)
    → same_expected x y ≡ true
    → equals value x ≡ true
    → equals value y ≡ true
equals-same value (expected_text a) (expected_text b) s e =
    subst (λ c. equals value (expected_text c) ≡ true) ((eq_iff a b).0 s) e
equals-same value (expected_number m) (expected_number n) s e =
    let same : m ≡ n = ground (arith, s) in
    subst (λ c. equals value (expected_number c) ≡ true) same e
equals-same value (expected_text a) (expected_number n) s e = absurd (cc s)
equals-same value (expected_number m) (expected_text b) s e = absurd (cc s)

equals-any :
    (setting : String → Option Setting) (big : List (String × Expected)) (r : String × Expected)
    → meets setting big ≡ true
    → any (λ q. same_pair q r) big ≡ true
    → equals (setting r.0) r.1 ≡ true
unfolding meets
equals-any setting [] r h e = absurd (cc e)
equals-any setting (q ∷ big) r h e = elim (Bool-cases (same_pair q r)) [
  | inl s ↦
      subst (λ n. equals (setting n) r.1 ≡ true) ((eq_iff q.0 r.0).0 (ground (arith, s)))
        (equals-same (setting q.0) q.1 r.1 (ground (arith, s)) (ground (arith, h)))
  | inr s ↦ equals-any setting big r (ground (arith, h)) (ground (arith, e, s))
]

meets-includes :
    (setting : String → Option Setting) (big small : List (String × Expected))
    → meets setting big ≡ true
    → includes big small ≡ true
    → meets setting small ≡ true
unfolding meets
meets-includes setting big [] h e = refl
meets-includes setting big (r ∷ small) h e =
    ground (arith, equals-any setting big r h, meets-includes setting big small h, e)

-- The requirements of a capability are among those of its contract.
abbrev covered : ProtocolContract → String → Bool
covered c id =
    has_all c.required_capabilities (required_worker_traits id)
    && includes c.required_worker_settings (required_settings id)

abbrev covered_by : Option ProtocolContract → String → Bool
covered_by none id = false
covered_by (some c) id = covered c id

abbrev consistent : CapabilityDefinition → Bool
consistent d = elim d.protocol_contract_id [
  | none ↦ true
  | some contract ↦ covered_by (contract_in contract protocol_contracts) d.id
]

tables-consistent : all consistent capability_definitions ≡ true
unfolding capability_definitions protocol_contracts contract_in required_worker_traits
    required_settings has_all
tables-consistent = refl

own_entry :
    (contract id own : String) (o : Option String)
    → (elim o as (λ _. Bool) [
      | none ↦ true
      | some c ↦ covered_by (contract_in c protocol_contracts) own
    ])
      ≡ true
    → (elim o as (λ _. Option String) [
      | none ↦ none
      | some c ↦ if str_eq c contract then some own else none
    ])
      ≡ some id
    → covered_by (contract_in contract protocol_contracts) id ≡ true
own_entry contract id own none h e = absurd (cc e)
own_entry contract id own (some c) h e = elim (Bool-cases (str_eq c contract)) [
  | inl q ↦
      let same : own ≡ id = cc (rw q at e) in
      subst (λ i. covered_by (contract_in contract protocol_contracts) i ≡ true) same
        (subst (λ k. covered_by (contract_in k protocol_contracts) own ≡ true)
          ((eq_iff c contract).0 q) h)
  | inr q ↦ absurd (cc (rw q at e))
]

entry-covered :
    (contract id : String) (ds : List CapabilityDefinition)
    → all consistent ds ≡ true
    → id_by_contract contract ds ≡ some id
    → covered_by (contract_in contract protocol_contracts) id ≡ true
unfolding id_by_contract
entry-covered contract id [] h e = absurd (cc e)
entry-covered contract id (d ∷ ds) h e = elim (Option-cases (id_by_contract contract ds)) [
  | inr (x, q) ↦
      entry-covered contract id ds (ground (arith, h)) (q ∙ (rw (q, id_by_contract) at e))
  | inl q ↦
      own_entry contract id d.id d.protocol_contract_id (ground (arith, h))
        (rw (q, id_by_contract) at e)
]

-- The document of a worker definition, as the capability functions read it.
abbrev pub document : WorkerDefinition → Option String → Document
document w template = record {
  id = w.id;
  generation_family = w.generation_family;
  runtime_template_id = template;
  capabilities = some w.capabilities;
  settings = some w.settings;
}

-- A worker that fulfils a contract matches the capability that the contract publishes.
pub contract_gives_capability :
    (contract id : String) (c : ProtocolContract) (w : WorkerDefinition) (template : Option String)
    → contract_in contract protocol_contracts ≡ some c
    → capability_id_for_contract contract ≡ some id
    → fulfils c w ≡ true
    → worker_matches_capability (document w template) id ≡ true
unfolding capability_id_for_contract worker_matches_capability fulfils
contract_gives_capability contract id c w template q e f =
    let met : covered c id ≡ true =
      subst (λ o. covered_by o id ≡ true) q
        (entry-covered contract id capability_definitions tables-consistent e) in
    ground (
      arith,
      f,
      has_all_trans w.capabilities c.required_capabilities (required_worker_traits id),
      meets-includes w.settings c.required_worker_settings (required_settings id),
      met,
    )
