-- ===== src/Examples/Routes.antt =====
-- Runs of the validation of backend/modeldeck/domain.py and of the evidence of
-- backend/modeldeck/capabilities.py.
use model_deck.Base.{◌≡◌, refl, String, true, false, Option, none, some, [], ◌∷◌, All}
use model_deck.Capabilities.Evidence.{
  CompatibilityTest, Subject, qualified, capability_evidence_status, examine, judge,
}
use model_deck.Capabilities.Evidence.Justified.{rests_on, status-rests_on}
use model_deck.Capabilities.Contracts.{
  ProtocolContract, autoregressive, vision_language, contract_in, protocol_contracts,
}
use model_deck.Capabilities.Tables.{capability_definitions}
use model_deck.Capabilities.Matching.{
  Setting, has_all, meets, capability_id_for_contract, id_by_contract,
}
use model_deck.Routing.{
  WorkerDefinition, CapabilityBinding, RoutingProfile, Records, Report, resolve_capabilities,
  resolve_workers, worker_faults, find_worker, missing_names, mismatched, has_matching_success,
  validate_routing_profile,
}
use model_deck.Routing.Validity.{fulfils, Served}
use model_deck.Routing.Profile.{valid-Served}

abbrev no_settings : String → Option Setting
no_settings name = none

abbrev chat_worker : WorkerDefinition
chat_worker = record {
  id = "w1";
  archived = false;
  generation_family = "autoregressive";
  capabilities = "chat" ∷ "completions" ∷ [];
  settings = no_settings;
  model_id = "org/model";
  revision = "main";
  artifact_model_id = none;
  artifact_revision = none;
  capability_policy_version = some 5;
  fingerprint = "f1";
}

abbrev chat_route : CapabilityBinding
chat_route = record {
  id = "c1";
  protocol_contract = "openai-chat-v1";
  tool_calling_enabled = false;
  worker_ids = "w1" ∷ [];
}

abbrev profile : RoutingProfile
profile = record { tested_working = true; capabilities = chat_route ∷ [] }

abbrev passed : CompatibilityTest
passed = record {
  id = 7;
  tested_working = true;
  fingerprint_version = some 2;
  evidence = some (record {
    capability_id = some "general-chat";
    worker_id = some "w1";
    fingerprint = some "f1";
    fingerprint_version = none;
  });
}

abbrev records : Records
records = record { tests = passed ∷ []; policy = none }

abbrev subject : Subject
subject = record {
  worker_id = "w1";
  capability_id = "general-chat";
  fingerprint = "f1";
  capability_policy_version = 5;
}

passed_qualifies : capability_evidence_status subject (passed ∷ []) ≡ qualified 7
unfolding capability_evidence_status examine judge
passed_qualifies = refl

status-rests_on_example :
    rests_on subject false none (passed ∷ []) (capability_evidence_status subject (passed ∷ []))
    ≡ true
status-rests_on_example = status-rests_on subject (passed ∷ [])

abbrev report : Report
report = record {
  errors = [];
  capabilities = ("c1", record { worker_id = "w1"; primary = true; valid = true } ∷ []) ∷ [];
  publishes_nothing = false;
}

reported : validate_routing_profile profile (chat_worker ∷ []) records ≡ some report
unfolding validate_routing_profile resolve_capabilities contract_in protocol_contracts
    resolve_workers worker_faults find_worker missing_names mismatched capability_id_for_contract
    id_by_contract capability_definitions has_matching_success capability_evidence_status examine
    judge
reported = refl

valid-Served_example : All (Served (chat_worker ∷ [])) profile.capabilities
valid-Served_example = valid-Served profile (chat_worker ∷ []) records report reported refl

abbrev chat_contract : ProtocolContract
chat_contract = record {
  id = "openai-chat-v1";
  generation_family = autoregressive;
  compatible_generation_families = autoregressive ∷ vision_language ∷ [];
  required_capabilities = "chat" ∷ [];
  required_worker_settings = [];
}

chat_contract_listed : contract_in "openai-chat-v1" protocol_contracts ≡ some chat_contract
unfolding contract_in protocol_contracts
chat_contract_listed = refl

chat_capability : capability_id_for_contract "openai-chat-v1" ≡ some "general-chat"
unfolding capability_id_for_contract id_by_contract capability_definitions
chat_capability = refl

chat_worker-fulfils : fulfils chat_contract chat_worker ≡ true
unfolding fulfils has_all meets
chat_worker-fulfils = refl
