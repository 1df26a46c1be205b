-- ===== src/Autoregressive/Generation.antt =====
-- trace of TransformersAutoregressiveEngine in backend/modeldeck/workers/autoregressive_worker.py: one
-- token after the other, with validate_token_budget before and the prefix cache's first pass. Texts are
-- code points. What is done to the logits between a call of the model and the choice of a token is an
-- argument, as is the random generator; timings, alternatives and hidden states are left out. Events
-- are as they are yielded: that an EOS token sets `complete` in the last one afterwards is the end
-- at_eos.
pub mod Cases
pub mod Told
pub mod Refinement
pub mod Requests
pub mod Limits
pub mod Ends
use model_deck.Base.{
  ℕ, zero, suc, ◌+◌, ◌≡◌, String, Bool, true, false, not, ◌&&◌, ◌||◌, ◌==◌, Option, none, some,
  List, [], ◌∷◌, ◌++◌, any, length, leb, ltb, if◌then◌else◌, str_eq,
}
use model_deck.Text.{same_text}
use model_deck.Autoregressive.PrefixCache.{
  LanguageModel, Engine, Status, bypass, Reason, Fault, Weather, Ended, value, generation_cancelled,
  out_of_memory, raised, Called, output, no_memory, failed, Prepared, model_forward,
  initial_forward,
}

-- What the worker uses of its tensors, its generator and its tokeniser: the penalty on the tokens that
-- were generated, the suppression of the EOS tokens, the sampling, and the text of a token.
pub record Decoder (Logits : Type 0) : Type 1 where
  pub Random : Type 0
  pub manual_seed : ℕ → Random
  pub penalise : List ℕ → Logits → Logits
  pub suppress : Logits → Logits
  pub sample : Logits → Random → ℕ × Random
  pub is_eos : ℕ → Bool
  pub decode : ℕ → List ℕ

-- GenerationRequest
pub record Body : Type 0 where
  pub max_tokens : ℕ
  pub min_tokens : ℕ
  pub stop : List (List ℕ)
  pub seed : ℕ
  -- repetition_penalty != 1
  pub penalises : Bool

pub record Config : Type 0 where
  pub context_length : ℕ
  pub maximum_new_tokens : ℕ

-- whether the request is cancelled at a step, and how the step's call of the model goes
pub record Course : Type 0 where
  pub cancelled_at : ℕ → Bool
  pub call_at : ℕ → Fault

-- an event with a token
pub record TokenEvent : Type 0 where
  pub step : ℕ
  pub token_id : ℕ
  pub token : List ℕ
  pub generated_token_ids : List ℕ
  pub text_so_far : List ℕ
  pub complete : Bool

-- and the one that says that the request was cancelled
pub data Emitted : Type 0 where
  selected : TokenEvent → Emitted
  cancelled : ℕ → List ℕ → Emitted

-- returned, also at an EOS token, or left by an exception
pub data Finish : Type 0 where
  returned at_eos no_budget memory_error error : Finish

-- s.endswith(t)
unfoldable pub ends_with : List ℕ → List ℕ → Bool
ends_with [] t = same_text [] t
ends_with (a ∷ s) t = same_text (a ∷ s) t || ends_with s t

abbrev pub min : ℕ → ℕ → ℕ
min a b = if leb a b then a else b

-- validate_token_budget
unfoldable pub validate_token_budget : Config → ℕ → Body → Bool
validate_token_budget config prompt_tokens body =
    leb (prompt_tokens + body.max_tokens) config.context_length

-- the locals of the loop that the choice of a token reads and changes
pub record Progress (Random : Type 0) : Type 0 where
  pub step : ℕ
  pub generated : List ℕ
  pub text_so_far : List ℕ
  pub random : Random

module _ (Logits : Type 0) (d : Decoder Logits) where
  open d use {Random, manual_seed, penalise, suppress, sample, is_eos, decode}

  pub data Choice : Type 0 where
    ends : Choice
    emits : TokenEvent → Progress Random → Choice

  -- the logits after the repetition penalty and the suppression
  abbrev pub adjusted : Body → List ℕ → Logits → Logits
  adjusted body generated l =
      let penalised =
        if body.penalises && not (length generated == 0) then penalise generated l else l in
      if ltb (length generated) body.min_tokens then suppress penalised else penalised

  abbrev pub event_of : Body → ℕ → Progress Random → TokenEvent
  event_of body token_id p =
      let generated = p.generated ++ token_id ∷ [] in
      let text = p.text_so_far ++ decode token_id in
      record {
        step = p.step;
        token_id = token_id;
        token = decode token_id;
        generated_token_ids = generated;
        text_so_far = text;
        complete =
            leb body.min_tokens (length generated)
            && any (λ (s : List ℕ). ends_with text s) body.stop;
      }

  abbrev pub after_token : ℕ → Random → Progress Random → Progress Random
  after_token token_id random p = record {
    step = suc p.step;
    generated = p.generated ++ token_id ∷ [];
    text_so_far = p.text_so_far ++ decode token_id;
    random = random;
  }

  -- the part of a step behind the call of the model
  unfoldable pub select : Body → Progress Random → Logits → Choice
  select body p l =
      let (token_id, random) = sample (adjusted body p.generated l) p.random in
      if is_eos token_id
      then ends
      else emits (event_of body token_id p) (after_token token_id random p)

  abbrev pub beginning : Body → Progress Random
  beginning body = record {
    step = 0;
    generated = [];
    text_so_far = [];
    random = manual_seed body.seed;
  }

  module _ (m : LanguageModel) (logits : m.Output → Logits) where
    open m use {Memory, Cache, Output, past}

    -- what the step has to go on with: the first pass's output, or the cache and the last token; and the
    -- length of the attention mask
    pub data Held : Type 0 where
      first_output : Output → Cache → ℕ → Held
      continues : Cache → ℕ → ℕ → Held

    abbrev pub mask_of : Held → ℕ
    mask_of (first_output o c mask) = mask
    mask_of (continues c token_id mask) = mask

    pub data Computed : Type 0 where
      computed : Output → Cache → Computed
      fails : Finish → Computed

    abbrev pub required_past : Output → Option Cache → Computed
    required_past o none = fails error
    required_past o (some c) = computed o c

    abbrev pub called : Called Output → Computed
    called (output o) = required_past o (past o)
    called no_memory = fails memory_error
    called failed = fails error

    -- the call of the model at a step
    unfoldable pub compute : Fault → Held → Engine Memory Cache → Engine Memory Cache × Computed
    compute fault (first_output o c mask) e = (e, computed o c)
    compute fault (continues c token_id mask) e =
        let (e', r) = model_forward m fault (some c) (token_id ∷ []) mask e in (e', called r)

    abbrev pub Traced : Type 0
    Traced = Engine Memory Cache × List Emitted × Finish

    abbrev pub yields : TokenEvent → Traced → Traced
    yields event (e, events, finish) = (e, selected event ∷ events, finish)

    -- the loop, for as many steps as are left
    unfoldable pub loop : Course → Body → ℕ → Progress Random → Held → Engine Memory Cache → Traced
    loop run body zero p held e = (e, [], returned)
    loop run body (suc left) p held e =
        if run.cancelled_at p.step
        then (e, cancelled p.step p.text_so_far ∷ [], returned)
        else let (e', r) = compute (run.call_at p.step) held e in
          elim r [
            | fails finish ↦ (e', [], finish)
            | computed o c ↦ elim (select body p (logits o)) [
              | ends ↦ (e', [], at_eos)
              | emits event next ↦
                  if event.complete
                  then (e', selected event ∷ [], returned)
                  else yields event
                      (loop run body left next (continues c event.token_id (mask_of held + 1)) e')
            ]
          ]

    abbrev pub after_first :
        Course → Body → ℕ → ℕ → Engine Memory Cache × Ended Output Cache → Traced
    after_first run body steps mask (e, value o c status reason) =
        loop run body steps (beginning body) (first_output o c mask) e
    after_first run body steps mask (e, generation_cancelled) = (e, cancelled 0 [] ∷ [], returned)
    after_first run body steps mask (e, out_of_memory) = (e, [], memory_error)
    after_first run body steps mask (e, raised) = (e, [], error)

    -- trace; the request is looked at once more before the first pass
    unfoldable pub trace :
        Config → Course → Weather → Bool → Body → Prepared → Engine Memory Cache → Traced
    trace config run w cancelled_before body prompt e =
        if not (validate_token_budget config (length prompt.prompt_ids) body)
        then (e, [], no_budget)
        else if cancelled_before
        then (e, cancelled 0 [] ∷ [], returned)
        else after_first run body (min body.max_tokens config.maximum_new_tokens)
            (length prompt.prompt_ids) (initial_forward m w prompt e)
