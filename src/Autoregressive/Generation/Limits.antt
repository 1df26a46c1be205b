-- ===== src/Autoregressive/Generation/Limits.antt =====
-- How long the traces of backend/modeldeck/workers/autoregressive_worker.py are, and which event ends
-- one.
use model_deck.Base.{
  ℕ, zero, suc, ◌+◌, ◌≤◌, ◌≡◌, refl, ◌⊎◌, inl, inr, Bool, true, false, not, ◌||◌, List, [], ◌∷◌,
  ◌++◌, arith, length, leb, Bool-cases, if◌then◌else◌,
}
use model_deck.Autoregressive.PrefixCache.{
  LanguageModel, Engine, Weather, Ended, value, generation_cancelled, out_of_memory, raised,
  Prepared, initial_forward,
}
use model_deck.Autoregressive.Generation.{
  Decoder, Body, Config, TokenEvent, Emitted, selected, cancelled, returned, no_budget, mask_of,
  Held, first_output, continues, Course, compute, Traced, yields, loop, after_first, trace, min,
  validate_token_budget,
}
use model_deck.Autoregressive.Generation.Cases.{Computed-cases}
use model_deck.Autoregressive.Generation.Told.{text_of, told, chosen, at_tokens, select-step_of}

abbrev pub is_last : List Emitted → Bool
is_last [] = true
is_last (x ∷ xs) = false

-- how many tokens it has
abbrev pub tokens_in : List Emitted → ℕ
tokens_in [] = 0
tokens_in (cancelled step text ∷ xs) = tokens_in xs
tokens_in (selected event ∷ xs) = suc (tokens_in xs)

module _ (Logits : Type 0) (d : Decoder Logits) where
  -- The events of a trace behind the tokens `before`: each tells its token behind all the tokens before
  -- it, and one that is complete, or says that the request was cancelled, is the last one.
  abbrev pub InOrder : Body → List ℕ → List Emitted → Type 0
  InOrder body before [] = Unit
  InOrder body before (cancelled step text ∷ xs) =
      (step ≡ length before) × (text ≡ text_of Logits d before) × (is_last xs ≡ true)
  InOrder body before (selected event ∷ xs) =
      (event ≡ told Logits d body before event.token_id)
      × ((not event.complete || is_last xs) ≡ true)
      × InOrder body (before ++ event.token_id ∷ []) xs

module _ (Logits : Type 0) (d : Decoder Logits) (m : LanguageModel)
    (logits : m.Output → Logits) where
  open m use {Memory, Cache, Output}

  abbrev Within : Body → ℕ → List ℕ → Traced Logits d m logits → Type 0
  Within body left before t = InOrder Logits d body before t.1 × (tokens_in t.1 ≤ left)

  after_event-Within :
      (body : Body) (left : ℕ) (before : List ℕ) (event : TokenEvent) (complete : Bool)
      (t : Traced Logits d m logits) (e : Engine Memory Cache)
      → event ≡ told Logits d body before event.token_id
      → event.complete ≡ complete
      → Within body left (before ++ event.token_id ∷ []) t
      → Within body (suc left) before (
          if complete then (e, selected event ∷ [], returned) else yields Logits d m logits event t)
  after_event-Within body left before event true t e same c (w, b) =
      ((same, ground (arith, c), tt), ground arith)
  after_event-Within body left before event false t e same c (w, b) =
      ((same, ground (arith, c), w), ground (arith, b))

  loop-Within :
      (run : Course) (body : Body) (left : ℕ) (before : List ℕ) (random : d.Random)
      (held : Held Logits d m logits) (e : Engine Memory Cache)
      → Within body left before
          (loop Logits d m logits run body left (at_tokens Logits d before random) held e)
  unfolding loop
  loop-Within run body zero before random held e = (tt, omega arith)
  loop-Within run body (suc left) before random held e =
      elim (Bool-cases (run.cancelled_at (length before))) [
        | inl n ↦ rw (loop, n) ((refl, refl, refl), omega arith)
        | inr n ↦
            let r = compute Logits d m logits (run.call_at (length before)) held e in
            elim (Computed-cases Logits d m logits r.1) [
              | inr (f, q) ↦ rw (loop, n, q) (tt, omega arith)
              | inl (o, c, q) ↦
                  let choice = chosen Logits d body before (logits o) random in
                  let same = select-step_of Logits d body before random (logits o) in
                  elim (Bool-cases (d.is_eos choice.0)) [
                    | inl f ↦ rw (loop, n, q, same, f) (tt, omega arith)
                    | inr f ↦
                        rw (loop, n, q, same, f)
                          (after_event-Within body left before (told Logits d body before choice.0)
                            _ _ _ refl refl
                            (loop-Within run body left (before ++ choice.0 ∷ []) choice.1
                              (continues c choice.0 (mask_of Logits d m logits held + 1)) r.0))
                  ]
            ]
      ]

  after_first-Within :
      (run : Course) (body : Body) (steps mask : ℕ) (r : Engine Memory Cache × Ended Output Cache)
      → Within body steps [] (after_first Logits d m logits run body steps mask r)
  after_first-Within run body steps mask (e, value o c status reason) =
      loop-Within run body steps [] (d.manual_seed body.seed) (first_output o c mask) e
  after_first-Within run body steps mask (e, generation_cancelled) =
      ((refl, refl, refl), omega arith)
  after_first-Within run body steps mask (e, out_of_memory) = (tt, omega arith)
  after_first-Within run body steps mask (e, raised) = (tt, omega arith)

  -- Whatever the model and the prefix cache do: a request whose prompt and max_tokens do not fit into the
  -- context is refused before any call of the model. The events of any other are numbered from zero, and
  -- each has, from its own token and those of the events before it alone: that token and its text, all
  -- these tokens, and their text; it is complete, when it is yielded, exactly if there are min_tokens of
  -- them and their text ends with a stop sequence. A cancellation has the number of tokens before it and
  -- their text, and nothing follows an event that is complete or a cancellation. The trace has at most max_tokens and at most maximum_new_tokens tokens, which fit into the context behind
  -- the prompt.
  pub trace-InOrder :
      (config : Config) (run : Course) (w : Weather) (cancelled_before : Bool) (body : Body)
      (prompt : Prepared) (e : Engine Memory Cache)
      → let t = trace Logits d m logits config run w cancelled_before body prompt e in
        ((validate_token_budget config (length prompt.prompt_ids) body ≡ false)
          × (t ≡ (e, [], no_budget)))
        ⊎ InOrder Logits d body [] t.1
          × (tokens_in t.1 ≤ body.max_tokens)
          × (tokens_in t.1 ≤ config.maximum_new_tokens)
          × (length prompt.prompt_ids + tokens_in t.1 ≤ config.context_length)
  unfolding trace validate_token_budget
  trace-InOrder config run w cancelled_before body prompt e =
      let steps = min body.max_tokens config.maximum_new_tokens in
      let first =
        after_first-Within run body steps (length prompt.prompt_ids)
          (initial_forward m w prompt e) in
      elim (Bool-cases (leb (length prompt.prompt_ids + body.max_tokens) config.context_length)) [
        | inr v ↦ rw (trace, validate_token_budget, v) (inl (refl, refl))
        | inl v ↦ elim (Bool-cases cancelled_before) [
          | inl c ↦
              rw (trace, validate_token_budget, v, c)
                (inr ((refl, refl, refl), omega arith, omega arith, ground (arith, v)))
          | inr c ↦
              rw (trace, validate_token_budget, v, c)
                (inr (
                  first.0,
                  ground (arith, first.1),
                  ground (arith, first.1),
                  ground (arith, v, first.1),
                ))
        ]
      ]
