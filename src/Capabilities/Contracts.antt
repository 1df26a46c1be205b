-- ===== src/Capabilities/Contracts.antt =====
-- PROTOCOL_CONTRACTS of backend/modeldeck/protocol_contracts.py, with GenerationFamily of
-- backend/modeldeck/protocol.py. Display names and surfaces are left out.
use model_deck.Base.{String, ℕ, Option, none, some, List, [], ◌∷◌, if◌then◌else◌, str_eq}

pub data GenerationFamily : Type 0 where
  autoregressive text_diffusion embedding vision_language vision_detection : GenerationFamily
  feature_extraction speech_conversation text_translation : GenerationFamily
  speech_synthesis speech_recognition : GenerationFamily

-- The values that required_worker_settings has.
pub data Expected : Type 0 where
  expected_text : String → Expected
  expected_number : ℕ → Expected

pub record ProtocolContract : Type 0 where
  pub id : String
  pub generation_family : GenerationFamily
  pub compatible_generation_families : List GenerationFamily
  pub required_capabilities : List String
  pub required_worker_settings : List (String × Expected)

unfoldable pub protocol_contracts : List ProtocolContract
protocol_contracts =
    record {
      id = "openai-chat-v1";
      generation_family = autoregressive;
      compatible_generation_families = autoregressive ∷ vision_language ∷ [];
      required_capabilities = "chat" ∷ [];
      required_worker_settings = [];
    }
    ∷ record {
      id = "openai-image-chat-v1";
      generation_family = autoregressive;
      compatible_generation_families = autoregressive ∷ vision_language ∷ [];
      required_capabilities = "chat" ∷ "image_input" ∷ [];
      required_worker_settings = [];
    }
    ∷ record {
      id = "openai-completions-v1";
      generation_family = autoregressive;
      compatible_generation_families = [];
      required_capabilities = "completions" ∷ [];
      required_worker_settings = [];
    }
    ∷ record {
      id = "openai-embeddings-v1";
      generation_family = embedding;
      compatible_generation_families = [];
      required_capabilities = "embeddings" ∷ [];
      required_worker_settings = [];
    }
    ∷ record {
      id = "native-ar-trace-v1";
      generation_family = autoregressive;
      compatible_generation_families = [];
      required_capabilities = "top_k_trace" ∷ [];
      required_worker_settings = [];
    }
    ∷ record {
      id = "scene-analysis-v1";
      generation_family = vision_language;
      compatible_generation_families = [];
      required_capabilities = "image_input" ∷ "structured_output" ∷ [];
      required_worker_settings = [];
    }
    ∷ record {
      id = "text-diffusion-v1";
      generation_family = text_diffusion;
      compatible_generation_families = [];
      required_capabilities = "iterative_refinement" ∷ "intermediate_frames" ∷ [];
      required_worker_settings = [];
    }
    ∷ record {
      id = "speech-conversation-v1";
      generation_family = speech_conversation;
      compatible_generation_families = [];
      required_capabilities = "audio_input" ∷ "audio_output" ∷ "full_duplex" ∷ [];
      required_worker_settings = [];
    }
    ∷ record {
      id = "translation-en-fr-v1";
      generation_family = text_translation;
      compatible_generation_families = [];
      required_capabilities = "translation" ∷ [];
      required_worker_settings =
          ("source_language", expected_text "en") ∷ ("target_language", expected_text "fr") ∷ [];
    }
    ∷ record {
      id = "translation-en-de-v1";
      generation_family = text_translation;
      compatible_generation_families = [];
      required_capabilities = "translation" ∷ [];
      required_worker_settings =
          ("source_language", expected_text "en") ∷ ("target_language", expected_text "de") ∷ [];
    }
    ∷ record {
      id = "speech-synthesis-v1";
      generation_family = speech_synthesis;
      compatible_generation_families = [];
      required_capabilities = "speech_synthesis" ∷ "audio_output" ∷ "cancellation" ∷ [];
      required_worker_settings = ("sample_rate_hz", expected_number 24000) ∷ [];
    }
    ∷ record {
      id = "speech-recognition-v1";
      generation_family = speech_recognition;
      compatible_generation_families = [];
      required_capabilities = "speech_recognition" ∷ "audio_input" ∷ "cancellation" ∷ [];
      required_worker_settings =
          ("sample_rate_hz", expected_number 16000) ∷ ("channels", expected_number 1) ∷ [];
    }
    ∷ []

-- `PROTOCOL_CONTRACTS.get`
unfoldable pub contract_in : String → List ProtocolContract → Option ProtocolContract
contract_in id [] = none
contract_in id (c ∷ cs) = if str_eq c.id id then some c else contract_in id cs
