-- ===== src/Capabilities/Tables.antt =====
-- The tables of backend/modeldeck/capabilities.py. Display names, descriptions and traits that only
-- the console shows are left out.
use model_deck.Base.{String, Option, none, some, List, [], ◌∷◌, if◌then◌else◌, str_eq}

pub record CapabilityDefinition : Type 0 where
  pub id : String
  pub protocol_contract_id : Option String
  pub runtime_template_ids : List String

unfoldable pub capability_definitions : List CapabilityDefinition
capability_definitions =
    record {
      id = "general-chat";
      protocol_contract_id = some "openai-chat-v1";
      runtime_template_ids =
          "autoregressive-transformers" ∷ "gpt-oss-llama-vulkan" ∷ "qwen35-chat-transformers-rocm"
          ∷ "qwen35-llamacpp-q8-vulkan" ∷ "qwen35-llamacpp-q8-vulkan-adaptive"
          ∷ "qwen35-local-q8-vulkan" ∷ "qwen35-local-q8-vulkan-adaptive"
          ∷ "qwen38-fp8-chat-transformers-rocm" ∷ "qwen38-llamacpp-q8-mtp-vulkan"
          ∷ "qwen38-llamacpp-q8-mtp-vulkan-no-thinking" ∷ "gemma4-general-chat-rocm"
          ∷ "gemma4-general-chat-rocm-adaptive" ∷ [];
    }
    ∷ record {
      id = "text-completion";
      protocol_contract_id = some "openai-completions-v1";
      runtime_template_ids =
          "autoregressive-transformers" ∷ "gpt-oss-llama-vulkan" ∷ "qwen35-chat-transformers-rocm"
          ∷ "qwen35-llamacpp-q8-vulkan" ∷ "qwen35-llamacpp-q8-vulkan-adaptive"
          ∷ "qwen35-local-q8-vulkan" ∷ "qwen35-local-q8-vulkan-adaptive"
          ∷ "qwen38-fp8-chat-transformers-rocm" ∷ "qwen38-llamacpp-q8-mtp-vulkan"
          ∷ "qwen38-llamacpp-q8-mtp-vulkan-no-thinking" ∷ [];
    }
    ∷ record {
      id = "autoregressive-trace";
      protocol_contract_id = some "native-ar-trace-v1";
      runtime_template_ids = "autoregressive-transformers" ∷ [];
    }
    ∷ record {
      id = "embeddings";
      protocol_contract_id = some "openai-embeddings-v1";
      runtime_template_ids = "embedding-transformers" ∷ [];
    }
    ∷ record {
      id = "general-image-chat";
      protocol_contract_id = some "openai-image-chat-v1";
      runtime_template_ids =
          "gemma4-general-chat-rocm" ∷ "gemma4-general-chat-rocm-adaptive"
          ∷ "qwen38-llamacpp-q8-mtp-vulkan" ∷ "qwen38-llamacpp-q8-mtp-vulkan-no-thinking" ∷ [];
    }
    ∷ record { id = "video-understanding"; protocol_contract_id = none; runtime_template_ids = [] }
    ∷ record {
      id = "scene-analysis";
      protocol_contract_id = some "scene-analysis-v1";
      runtime_template_ids = "scenechat-gemma4" ∷ "scenechat-qwen35" ∷ "scenechat-qwen38-fp8" ∷ [];
    }
    ∷ record {
      id = "text-refinement";
      protocol_contract_id = some "text-diffusion-v1";
      runtime_template_ids = "diffusiongemma-transformers" ∷ "diffusiongemma-modeldeck-q4" ∷ [];
    }
    ∷ record {
      id = "speech-conversation";
      protocol_contract_id = some "speech-conversation-v1";
      runtime_template_ids = "moshiko-speech" ∷ [];
    }
    ∷ record {
      id = "translation-en-fr";
      protocol_contract_id = some "translation-en-fr-v1";
      runtime_template_ids = "opus-translation-cpu" ∷ [];
    }
    ∷ record {
      id = "translation-en-de";
      protocol_contract_id = some "translation-en-de-v1";
      runtime_template_ids = "opus-translation-cpu" ∷ [];
    }
    ∷ record {
      id = "speech-synthesis";
      protocol_contract_id = some "speech-synthesis-v1";
      runtime_template_ids = "qwen3-tts-rocm" ∷ [];
    }
    ∷ record {
      id = "speech-recognition";
      protocol_contract_id = some "speech-recognition-v1";
      runtime_template_ids = "whisper-small-en-rocm" ∷ [];
    }
    ∷ []

-- FAMILY_CAPABILITIES
unfoldable pub family_capabilities : String → List String
family_capabilities id =
    if str_eq id "autoregressive"
    then ("general-chat" ∷ "text-completion" ∷ "autoregressive-trace" ∷ [])
    else if str_eq id "embedding"
    then ("embeddings" ∷ [])
    else if str_eq id "vision-language"
    then ("general-image-chat" ∷ [])
    else if str_eq id "text-diffusion"
    then ("text-refinement" ∷ [])
    else if str_eq id "speech-conversation"
    then ("speech-conversation" ∷ [])
    else if str_eq id "text-translation"
    then ([])
    else if str_eq id "speech-synthesis"
    then ("speech-synthesis" ∷ [])
    else if str_eq id "speech-recognition"
    then ("speech-recognition" ∷ [])
    else []

-- CAPABILITY_GENERATION_FAMILIES
unfoldable pub capability_generation_family : String → Option String
capability_generation_family id =
    if str_eq id "general-chat"
    then some "autoregressive"
    else if str_eq id "text-completion"
    then some "autoregressive"
    else if str_eq id "autoregressive-trace"
    then some "autoregressive"
    else if str_eq id "embeddings"
    then some "embedding"
    else if str_eq id "general-image-chat"
    then some "vision-language"
    else if str_eq id "text-refinement"
    then some "text-diffusion"
    else if str_eq id "speech-conversation"
    then some "speech-conversation"
    else if str_eq id "speech-synthesis"
    then some "speech-synthesis"
    else if str_eq id "speech-recognition"
    then some "speech-recognition"
    else if str_eq id "scene-analysis"
    then some "vision-language"
    else if str_eq id "translation-en-fr"
    then some "text-translation"
    else if str_eq id "translation-en-de"
    then some "text-translation"
    else none

-- _required_worker_traits
unfoldable pub required_worker_traits : String → List String
required_worker_traits id =
    if str_eq id "general-chat"
    then ("chat" ∷ [])
    else if str_eq id "text-completion"
    then ("completions" ∷ [])
    else if str_eq id "autoregressive-trace"
    then ("top_k_trace" ∷ [])
    else if str_eq id "embeddings"
    then ("embeddings" ∷ [])
    else if str_eq id "general-image-chat"
    then ("chat" ∷ "image_input" ∷ [])
    else if str_eq id "scene-analysis"
    then ("image_input" ∷ "structured_output" ∷ [])
    else if str_eq id "text-refinement"
    then ("iterative_refinement" ∷ "intermediate_frames" ∷ [])
    else if str_eq id "speech-conversation"
    then ("audio_input" ∷ "audio_output" ∷ "full_duplex" ∷ [])
    else if str_eq id "translation-en-fr"
    then ("translation" ∷ [])
    else if str_eq id "translation-en-de"
    then ("translation" ∷ [])
    else if str_eq id "speech-synthesis"
    then ("speech_synthesis" ∷ "audio_output" ∷ [])
    else if str_eq id "speech-recognition"
    then ("speech_recognition" ∷ "audio_input" ∷ [])
    else []
