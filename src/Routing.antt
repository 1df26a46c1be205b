-- ===== src/Routing.antt =====
-- validate_routing_profile of backend/modeldeck/domain.py, over the documents WorkerDefinition,
-- CapabilityBinding and RoutingProfile of that file with the fields that it reads.
pub mod Validity
pub mod Profile
pub mod Capable
use model_deck.Base.{
  ℕ, String, Bool, true, false, not, ◌&&◌, ◌||◌, Option, none, some, List, [], ◌∷◌, ◌++◌, map, all,
  any, is_none, if◌then◌else◌, str_eq,
}
use model_deck.Text.{member}
use model_deck.Capabilities.Contracts.{
  GenerationFamily, autoregressive, text_diffusion, embedding, vision_language, vision_detection,
  feature_extraction, speech_conversation, text_translation, speech_synthesis, speech_recognition,
  ProtocolContract, protocol_contracts, contract_in, Expected,
}
use model_deck.Capabilities.Matching.{Setting, equals, capability_id_for_contract}
use model_deck.Capabilities.Evidence.{
  CompatibilityTest, EvidenceStatus, qualified, legacy, Subject, capability_evidence_status,
}

abbrev pub family_value : GenerationFamily → String
family_value autoregressive = "autoregressive"
family_value text_diffusion = "text-diffusion"
family_value embedding = "embedding"
family_value vision_language = "vision-language"
family_value vision_detection = "vision-detection"
family_value feature_extraction = "feature-extraction"
family_value speech_conversation = "speech-conversation"
family_value text_translation = "text-translation"
family_value speech_synthesis = "speech-synthesis"
family_value speech_recognition = "speech-recognition"

-- `capabilities` holds the names that are True, `fingerprint` the hash of the configuration.
pub record WorkerDefinition : Type 0 where
  pub id : String
  pub archived : Bool
  pub generation_family : String
  pub capabilities : List String
  pub settings : String → Option Setting
  pub model_id : String
  pub revision : String
  pub artifact_model_id : Option String
  pub artifact_revision : Option String
  pub capability_policy_version : Option ℕ
  pub fingerprint : String

pub record CapabilityBinding : Type 0 where
  pub id : String
  pub protocol_contract : String
  pub tool_calling_enabled : Bool
  pub worker_ids : List String

pub record RoutingProfile : Type 0 where
  -- `qualification == "tested-working"`
  pub tested_working : Bool
  pub capabilities : List CapabilityBinding

pub data Fault : Type 0 where
  unknown_or_archived wrong_family tool_calling_unsupported not_allowed untested : Fault
  missing_capabilities mismatched_settings : List String → Fault

-- `by_id`: a later worker with the same identifier replaces an earlier one
unfoldable pub find_worker : String → List WorkerDefinition → Option WorkerDefinition
find_worker id [] = none
find_worker id (w ∷ ws) = elim (find_worker id ws) [
  | some v ↦ some v
  | none ↦ if not w.archived && str_eq w.id id then some w else none
]

-- `a or b`
abbrev or_text : Option String → String → String
or_text none b = b
or_text (some a) b = if str_eq a "" then b else a

-- worker_cache_identity
unfoldable pub worker_cache_identity : WorkerDefinition → String × String
worker_cache_identity w =
    (or_text w.artifact_model_id w.model_id, or_text w.artifact_revision w.revision)

abbrev pub compatible_families : ProtocolContract → List String
compatible_families c = elim c.compatible_generation_families [
  | [] ↦ family_value c.generation_family ∷ []
  | (f ∷ fs) ↦ family_value f ∷ map family_value fs
]

unfoldable pub missing_names : List String → List String → List String
missing_names held [] = []
missing_names held (n ∷ ns) =
    let rest = missing_names held ns in if member n held then rest else n ∷ rest

unfoldable pub mismatched : (String → Option Setting) → List (String × Expected) → List String
mismatched setting [] = []
mismatched setting (r ∷ rs) =
    let rest = mismatched setting rs in if equals (setting r.0) r.1 then rest else r.0 ∷ rest

abbrev version_or_zero : Option ℕ → ℕ
version_or_zero none = 0
version_or_zero (some n) = n

abbrev counts : EvidenceStatus → Bool
counts (qualified id) = true
counts (legacy id) = true
counts _ = false

-- _has_matching_success
unfoldable pub has_matching_success : WorkerDefinition → String → List CompatibilityTest → Bool
has_matching_success w capability_id tests = counts (
    capability_evidence_status
      (record {
        worker_id = w.id;
        capability_id = capability_id;
        fingerprint = w.fingerprint;
        capability_policy_version = version_or_zero w.capability_policy_version;
      })
      tests)

abbrev pub when : Bool → Fault → List Fault
when true f = f ∷ []
when false f = []

abbrev named : (List String → Fault) → List String → List Fault
named f [] = []
named f (n ∷ ns) = f (n ∷ ns) ∷ []

-- What the caller knows: the recorded tests and, if there is one, the capability policy.
pub record Records : Type 0 where
  pub tests : List CompatibilityTest
  pub policy : Option (String × String → String → Bool)

abbrev disallowed : Records → WorkerDefinition → Option String → Bool
disallowed r w none = false
disallowed r w (some capability_id) = elim r.policy [
  | none ↦ false
  | some policy ↦ not (policy (worker_cache_identity w) capability_id)
]

abbrev lacks_test : RoutingProfile → Records → WorkerDefinition → Option String → Bool
lacks_test p r w none = false
lacks_test p r w (some capability_id) =
    p.tested_working && not (has_matching_success w capability_id r.tests)

-- `messages` for a worker
unfoldable pub worker_faults :
    RoutingProfile
    → Records
    → CapabilityBinding
    → ProtocolContract
    → Option WorkerDefinition
    → List Fault
worker_faults p r b c none = unknown_or_archived ∷ []
worker_faults p r b c (some w) =
    when (not (member w.generation_family (compatible_families c))) wrong_family
    ++ named missing_capabilities (missing_names w.capabilities c.required_capabilities)
    ++ when (b.tool_calling_enabled && not (member "tool_calling" w.capabilities))
        tool_calling_unsupported
    ++ named mismatched_settings (mismatched w.settings c.required_worker_settings)
    ++ when (disallowed r w (capability_id_for_contract b.protocol_contract)) not_allowed
    ++ when (lacks_test p r w (capability_id_for_contract b.protocol_contract)) untested

-- `resolved`, whose first entry is the primary, and the entries of `errors`
pub record ResolvedWorker : Type 0 where
  pub worker_id : String
  pub primary : Bool
  pub valid : Bool

pub record ProfileError : Type 0 where
  pub capability_id : String
  pub worker_id : String
  pub fault : Fault

pub record Report : Type 0 where
  pub errors : List ProfileError
  pub capabilities : List (String × List ResolvedWorker)
  -- the warning that the profile publishes nothing
  pub publishes_nothing : Bool

abbrev pub no_more {ℓ} : {A : Type ℓ} → List A → Bool
no_more [] = true
no_more (x ∷ xs) = false

abbrev error_of : CapabilityBinding → String → Fault → ProfileError
error_of b worker_id fault = record { capability_id = b.id; worker_id = worker_id; fault = fault }

-- the loop over the workers of a capability; `primary` for its first round
unfoldable pub resolve_workers :
    RoutingProfile
    → Records
    → List WorkerDefinition
    → CapabilityBinding
    → ProtocolContract
    → Bool
    → List String
    → List ProfileError × List ResolvedWorker
resolve_workers p r ws b c primary [] = ([], [])
resolve_workers p r ws b c primary (id ∷ ids) =
    let faults = worker_faults p r b c (find_worker id ws) in
    let rest = resolve_workers p r ws b c false ids in
    (
      map (error_of b id) faults ++ rest.0,
      record { worker_id = id; primary = primary; valid = no_more faults } ∷ rest.1,
    )

-- the loop over the capabilities; a contract that is not in the table is a KeyError
unfoldable pub resolve_capabilities :
    RoutingProfile
    → Records
    → List WorkerDefinition
    → List CapabilityBinding
    → Option (List ProfileError × List (String × List ResolvedWorker))
resolve_capabilities p r ws [] = some ([], [])
resolve_capabilities p r ws (b ∷ bs) = elim (contract_in b.protocol_contract protocol_contracts) [
  | none ↦ none
  | some c ↦ elim (resolve_capabilities p r ws bs) [
    | none ↦ none
    | some (errors, capabilities) ↦ some (
      (resolve_workers p r ws b c true b.worker_ids).0 ++ errors,
      (b.id, (resolve_workers p r ws b c true b.worker_ids).1) ∷ capabilities,
    )
  ]
]

unfoldable pub validate_routing_profile :
    RoutingProfile → List WorkerDefinition → Records → Option Report
validate_routing_profile p ws r = elim (resolve_capabilities p r ws p.capabilities) [
  | none ↦ none
  | some (errors, capabilities) ↦ some (record {
    errors = errors;
    capabilities = capabilities;
    publishes_nothing = no_more p.capabilities;
  })
]

-- `valid`
abbrev pub is_valid : Report → Bool
is_valid report = no_more report.errors
