-- ===== src/Capabilities/Matching.antt =====
-- _worker_matches_capability, capabilities_for_worker and capability_id_for_contract of
-- backend/modeldeck/capabilities.py. A worker's document is the record of the fields that they read.
use model_deck.Base.{
  String, Bool, true, false, not, ◌&&◌, Option, none, some, List, [], ◌∷◌, ◌++◌, all, is_none,
  if◌then◌else◌, str_eq,
}
use model_deck.Float.{Float, units, feq}
use model_deck.Text.{member}
use model_deck.Capabilities.Contracts.{Expected, expected_text, expected_number}
use model_deck.Capabilities.Tables.{
  CapabilityDefinition, capability_definitions, family_capabilities, capability_generation_family,
  required_worker_traits,
}

-- A value in a worker's settings. Python's True is the number 1.
pub data Setting : Type 0 where
  text : String → Setting
  number : Float → Setting
  flag : Bool → Setting

-- `capabilities` holds the names that are True; `none` for what is not a mapping.
pub record Document : Type 0 where
  pub id : String
  pub generation_family : String
  pub runtime_template_id : Option String
  pub capabilities : Option (List String)
  pub settings : Option (String → Option Setting)

unfoldable pub equals : Option Setting → Expected → Bool
equals (some (text s)) (expected_text e) = str_eq s e
equals (some (number x)) (expected_number n) = feq x (units n)
equals (some (flag b)) (expected_number n) = feq (units (if b then 1 else 0)) (units n)
equals _ _ = false

-- `required_settings` of _worker_matches_capability
unfoldable pub required_settings : String → List (String × Expected)
required_settings id =
    if str_eq id "translation-en-fr"
    then ("source_language", expected_text "en") ∷ ("target_language", expected_text "fr") ∷ []
    else if str_eq id "translation-en-de"
    then ("source_language", expected_text "en") ∷ ("target_language", expected_text "de") ∷ []
    else []

unfoldable pub has_all : List String → List String → Bool
has_all held names = all (λ name. member name held) names

unfoldable pub meets : (String → Option Setting) → List (String × Expected) → Bool
meets setting required = all (λ r. equals (setting r.0) r.1) required

-- _worker_matches_capability
unfoldable pub worker_matches_capability : Document → String → Bool
worker_matches_capability w id = elim w.capabilities [
  | none ↦ false
  | some held ↦
      if not (has_all held (required_worker_traits id))
      then false
      else elim w.settings [ none ↦ false | some setting ↦ meets setting (required_settings id) ]
]

-- the identifiers of the definitions that pass a test
unfoldable pub ids_where : (CapabilityDefinition → Bool) → List CapabilityDefinition → List String
ids_where test [] = []
ids_where test (d ∷ ds) = let rest = ids_where test ds in if test d then d.id ∷ rest else rest

abbrev from_template : Document → CapabilityDefinition → Bool
from_template w d = elim w.runtime_template_id [
  | none ↦ false
  | some template ↦ member template d.runtime_template_ids && worker_matches_capability w d.id
]

abbrev in_family : Document → CapabilityDefinition → Bool
in_family w d =
    member d.id (family_capabilities w.generation_family)
    && not (is_none d.protocol_contract_id)
    && worker_matches_capability w d.id

-- a capability of CAPABILITY_ID_BY_CONTRACT, whose family is that of the worker
abbrev by_contract : Document → CapabilityDefinition → Bool
by_contract w d =
    not (is_none d.protocol_contract_id)
    && (elim (capability_generation_family d.id) [
      | none ↦ false
      | some family ↦ str_eq family w.generation_family
    ])
    && worker_matches_capability w d.id

abbrev is_empty : List String → Bool
is_empty [] = true
is_empty _ = false

-- The set that capabilities_for_worker returns, as a list.
unfoldable pub capabilities_for_worker : Document → List String
capabilities_for_worker w =
    let result = ids_where (from_template w) capability_definitions in
    if not (is_empty result)
    then result
    else ids_where (in_family w) capability_definitions
      ++ ids_where (by_contract w) capability_definitions

-- CAPABILITY_ID_BY_CONTRACT.get: a later definition of the same contract replaces an earlier one
unfoldable pub id_by_contract : String → List CapabilityDefinition → Option String
id_by_contract contract [] = none
id_by_contract contract (d ∷ ds) = elim (id_by_contract contract ds) [
  | some id ↦ some id
  | none ↦ elim d.protocol_contract_id [
    | none ↦ none
    | some c ↦ if str_eq c contract then some d.id else none
  ]
]

unfoldable pub capability_id_for_contract : String → Option String
capability_id_for_contract contract = id_by_contract contract capability_definitions
