-- ===== src/Autoregressive/Generation/Ends.antt =====
-- Why a trace of backend/modeldeck/workers/autoregressive_worker.py ends.
use model_deck.Base.{
  ℕ, zero, suc, ◌+◌, ◌≤◌, ◌≡◌, refl, sym, ◌⊎◌, inl, inr, Bool, true, false, not, ◌&&◌, ◌||◌, ◌==◌,
  Option, some, List, [], ◌∷◌, arith, length, ltb, Bool-cases, if◌then◌else◌,
}
use model_deck.Autoregressive.PrefixCache.{
  LanguageModel, Engine, Fault, fine, Weather, value, Prepared, initial_forward, model_forward,
  Status, Reason,
}
use model_deck.Autoregressive.Generation.{
  Decoder, Body, Config, TokenEvent, Emitted, selected, cancelled, Finish, returned, at_eos,
  no_budget, memory_error, error, Progress, ends, emits, event_of, after_token, select, beginning,
  Held, first_output, continues, mask_of, Course, computed, compute, Traced, yields, loop, trace,
  min, validate_token_budget,
}
use model_deck.Autoregressive.Generation.Cases.{select-cases}
use model_deck.Autoregressive.Generation.Limits.{tokens_in}
use model_deck.Autoregressive.Generation.Told.{length-append}

-- Some event is complete or says that the request was cancelled.
abbrev pub stopped : List Emitted → Bool
stopped [] = false
stopped (cancelled step text ∷ xs) = true
stopped (selected event ∷ xs) = event.complete || stopped xs

module _ (Logits : Type 0) (d : Decoder Logits) (m : LanguageModel)
    (logits : m.Output → Logits) where
  open m use {Memory, Cache, Output, run, past}

  -- With so many tokens before and so many steps left: an end at an EOS token has the least number of
  -- tokens, and the loop comes back otherwise only if it was stopped or all steps are taken.
  abbrev pub EndsWell : Body → ℕ → ℕ → List Emitted → Finish → Type 0
  EndsWell body left n events at_eos = body.min_tokens ≤ n + tokens_in events
  EndsWell body left n events returned = (stopped events || (tokens_in events == left)) ≡ true
  EndsWell body left n events no_budget = ⊥
  EndsWell body left n events memory_error = ⊥
  EndsWell body left n events error = ⊥

  yields-EndsWell :
      (body : Body) (left n : ℕ) (event : TokenEvent) (t : Traced Logits d m logits)
      → EndsWell body left (suc n) t.1 t.2
      → EndsWell body
          (suc left)
          n
          (yields Logits d m logits event t).1
          (yields Logits d m logits event t).2
  yields-EndsWell body left n event (e, events, at_eos) h = omega arith
  yields-EndsWell body left n event (e, events, returned) h = ground (arith, h)
  yields-EndsWell body left n event (e, events, no_budget) h = h
  yields-EndsWell body left n event (e, events, memory_error) h = h
  yields-EndsWell body left n event (e, events, error) h = h

  after_event-EndsWell :
      (body : Body) (left n : ℕ) (event : TokenEvent) (complete : Bool)
      (t : Traced Logits d m logits) (e : Engine Memory Cache)
      → event.complete ≡ complete
      → EndsWell body left (suc n) t.1 t.2
      → let t' =
          if complete
          then (e, selected event ∷ [], returned)
          else yields Logits d m logits event t in
        EndsWell body (suc left) n t'.1 t'.2
  after_event-EndsWell body left n event true t e c h = ground (arith, c)
  after_event-EndsWell body left n event false t e c h = yields-EndsWell body left n event t h

  -- The documented behaviour: a suppressed EOS token is never sampled, and a call with use_cache gives a
  -- cache.
  module _ (no_eos : (l : Logits) (r : d.Random) → d.is_eos (d.sample (d.suppress l) r).0 ≡ false)
      (gives_past : (a : Memory) (c : Option Cache) (ts : List ℕ) (n : ℕ)
        → (k : Cache) × (past (run a c ts n).1 ≡ some k)) where
    compute-computed :
        (fault : Fault) (held : Held Logits d m logits) (e : Engine Memory Cache)
        → fault ≡ fine
        → (o : Output) × (c : Cache) × ((compute Logits d m logits fault held e).1 ≡ computed o c)
    unfolding compute model_forward
    compute-computed fault (first_output o c mask) e f = (o, c, refl)
    compute-computed fault (continues c t mask) e f =
        let (k, q) = gives_past e.memory (some c) (t ∷ []) mask in
        ((run e.memory (some c) (t ∷ []) mask).1, k, rw (f, model_forward, q) refl)

    -- The tokens are enough where a step ends the loop.
    select-EndsWell :
        (body : Body) (p : Progress d.Random) (l : Logits)
        → ((select Logits d body p l ≡ ends) × (body.min_tokens ≤ length p.generated))
          ⊎ (t : ℕ) × (r : d.Random) × (select Logits d body p l
              ≡ emits (event_of Logits d body t p) (after_token Logits d t r p))
    unfolding select
    select-EndsWell body p l = elim (Bool-cases (ltb (length p.generated) body.min_tokens)) [
      | inr k ↦ elim (select-cases Logits d body p l) [
        | inl f ↦ inl (f, ground (arith, k))
        | inr f ↦ inr f
      ]
      | inl k ↦
          let l' =
            if body.penalises && not (length p.generated == 0)
            then d.penalise p.generated l
            else l in
          let (t, r) = d.sample (d.suppress l') p.random in
          inr (t, r, rw (k, no_eos l' p.random) refl)
    ]

    loop-EndsWell :
        (run : Course) (body : Body) (left : ℕ) (p : Progress d.Random)
        (held : Held Logits d m logits) (e : Engine Memory Cache)
        → ((n : ℕ) → run.call_at n ≡ fine)
        → let t = loop Logits d m logits run body left p held e in
          EndsWell body left (length p.generated) t.1 t.2
    unfolding loop
    loop-EndsWell run body zero p held e h = refl
    loop-EndsWell run body (suc left) p held e h =
        let fault = run.call_at p.step in
        let (o, c, q) = compute-computed fault held e (h p.step) in
        elim (Bool-cases (run.cancelled_at p.step)) [
          | inl n ↦ rw (loop, n) refl
          | inr n ↦ elim (select-EndsWell body p (logits o)) [
            | inl (f, enough) ↦ rw (loop, n, q, f) (omega arith)
            | inr (t, r, f) ↦
                let event = event_of Logits d body t p in
                let next = after_token Logits d t r p in
                let e' = (compute Logits d m logits fault held e).0 in
                let more = continues c t (mask_of Logits d m logits held + 1) in
                let after = loop Logits d m logits run body left next more e' in
                let rest = loop-EndsWell run body left next more e' h in
                rw (loop, n, q, f)
                  (after_event-EndsWell body left (length p.generated) event event.complete after e'
                    refl (rw (sym (length-append p.generated t)) rest))
          ]
        ]

    -- For a request that fits into the context and is not cancelled before its first token, with calls of
    -- the model that succeed and give caches, and where a suppressed EOS token is not sampled: the trace
    -- comes to an end without an exception. It ends at an EOS token, with at least min_tokens tokens; or
    -- an event is complete or says that it was cancelled; or it has all its tokens, max_tokens or
    -- maximum_new_tokens, whichever is smaller.
    pub trace-EndsWell :
        (config : Config) (run : Course) (w : Weather) (body : Body) (prompt : Prepared)
        (e after : Engine Memory Cache) (o : Output) (c : Cache) (status : Status) (reason : Reason)
        → validate_token_budget config (length prompt.prompt_ids) body ≡ true
        → initial_forward m w prompt e ≡ (after, value o c status reason)
        → ((n : ℕ) → run.call_at n ≡ fine)
        → let t = trace Logits d m logits config run w false body prompt e in
          EndsWell body (min body.max_tokens config.maximum_new_tokens) 0 t.1 t.2
    unfolding trace
    trace-EndsWell config run w body prompt e after o c status reason v f h =
        rw (trace, v, f)
          (loop-EndsWell run body (min body.max_tokens config.maximum_new_tokens)
            (beginning Logits d body) (first_output o c (length prompt.prompt_ids)) after h)
