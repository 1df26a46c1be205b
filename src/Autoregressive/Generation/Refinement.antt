-- ===== src/Autoregressive/Generation/Refinement.antt =====
-- trace of backend/modeldeck/workers/autoregressive_worker.py against a generation that computes each
-- step from the whole text.
use mathlib.Core.List.{append_assoc}
use model_deck.Base.{
  ◌+◌, sym, length, arith, ℕ, zero, suc, ◌≡◌, refl, ap, ◌∙◌, subst, inl, inr, Bool, true, false,
  Option, none, some, List, [], ◌∷◌, ◌++◌, Bool-cases, if◌then◌else◌,
}
use model_deck.Autoregressive.PrefixCache.{
  LanguageModel, Engine, Fault, fine, exhausted, broken, model_forward, clear_prefix_cache,
}
use model_deck.Autoregressive.PrefixCache.Transparent.{
  IsIncremental, IsSound, IsApart, StandsFor, later-EntrySound, later_abort-EntrySound,
  later-IsApart,
}
use model_deck.Autoregressive.Generation.{
  Decoder, Body, TokenEvent, Emitted, selected, cancelled, Finish, returned, at_eos, no_budget,
  memory_error, error, Held, first_output, continues, Course, Computed, computed, fails, mask_of,
  required_past, compute, Traced, yields, loop,
}
use model_deck.Autoregressive.Generation.Cases.{Computed-cases}
use model_deck.Autoregressive.Generation.Told.{
  length-append, text_of, told, chosen, at_tokens, step_of, select-step_of,
}

module _ (Logits : Type 0) (d : Decoder Logits) where
  abbrev pub with_event : TokenEvent → List Emitted × Finish → List Emitted × Finish
  with_event event (events, finish) = (selected event ∷ events, finish)

  -- The generation without a cache: at each step the logits are those of the model for the prompt and
  -- all the tokens so far.
  unfoldable pub recomputed :
      (List ℕ → Logits) → (ℕ → Bool) → List ℕ → Body → ℕ → List ℕ → d.Random → List Emitted × Finish
  recomputed meaning cancelled_at prompt body zero before random = ([], returned)
  recomputed meaning cancelled_at prompt body (suc left) before random =
      if cancelled_at (length before)
      then (cancelled (length before) (text_of Logits d before) ∷ [], returned)
      else let (t, next) = chosen Logits d body before (meaning (prompt ++ before)) random in
        let event = told Logits d body before t in
        let rest = recomputed meaning cancelled_at prompt body left (before ++ t ∷ []) next in
        if d.is_eos t
        then ([], at_eos)
        else if event.complete
        then (selected event ∷ [], returned)
        else with_event event rest

-- The events are the other's up to the place where an exception ends them, and all of them, with its
-- end, if none does.
abbrev pub Follows : List Emitted × Finish → List Emitted × Finish → Type 0
Follows (x ∷ xs, finish) r =
    (rest : List Emitted) × (r.0 ≡ x ∷ rest) × Follows (xs, finish) (rest, r.1)
Follows ([], error) r = Unit
Follows ([], memory_error) r = Unit
Follows ([], no_budget) r = Unit
Follows ([], returned) r = r ≡ ([], returned)
Follows ([], at_eos) r = r ≡ ([], at_eos)

-- the end of a generation that an exception has left
abbrev pub Failed : Finish → Type 0
Failed returned = ⊥
Failed at_eos = ⊥
Failed no_budget = Unit
Failed memory_error = Unit
Failed error = Unit

module _ (m : LanguageModel) (i : IsIncremental m) (d : Decoder i.Logits) where
  open m use {Memory, Cache, Output, run, past, read}
  open i use {Logits, logits, meaning, tokens_of, is_live, later_logits, later_past}

  -- What a step goes on with stands for all the tokens, which the attention mask covers.
  abbrev pub HeldRight : List ℕ → Engine Memory Cache → Held Logits d m logits → Type 0
  HeldRight tokens e (first_output o c mask) =
      (mask ≡ length tokens) × (logits o ≡ meaning tokens) × StandsFor m i e tokens c
  HeldRight tokens e (continues c t mask) =
      (mask ≡ length tokens)
      × (is_live e.memory c ≡ true)
      × (tokens_of (read e.memory c) ++ t ∷ [] ≡ tokens)
      × IsApart m i e.memory e.entry c

  HeldRight-mask :
      (tokens : List ℕ) (e : Engine Memory Cache) (held : Held Logits d m logits)
      → HeldRight tokens e held
      → mask_of Logits d m logits held ≡ length tokens
  HeldRight-mask tokens e (first_output o c mask) h = h.0
  HeldRight-mask tokens e (continues c t mask) h = h.0

  abbrev ComputedRight : List ℕ → Engine Memory Cache → Computed Logits d m logits → Type 0
  ComputedRight tokens e (computed o c) = (logits o ≡ meaning tokens) × StandsFor m i e tokens c
  ComputedRight tokens e (fails finish) = Failed finish

  required_past-Right :
      (tokens : List ℕ) (e : Engine Memory Cache) (o : Output) (q : Option Cache)
      → logits o ≡ meaning tokens
      → ((c : Cache) → q ≡ some c → StandsFor m i e tokens c)
      → ComputedRight tokens e (required_past Logits d m logits o q)
  required_past-Right tokens e o none l h = tt
  required_past-Right tokens e o (some c) l h = (l, h c refl)

  -- The call of the model changes the cache in place, and leaves the stored one as it was.
  compute-Right :
      (tokens : List ℕ) (fault : Fault) (held : Held Logits d m logits) (e : Engine Memory Cache)
      → HeldRight tokens e held
      → IsSound m i e
      → let r = compute Logits d m logits fault held e in
        IsSound m i r.0 × ComputedRight tokens r.0 r.1
  unfolding compute model_forward clear_prefix_cache
  compute-Right tokens fault (first_output o c mask) e (k, l, h) s = (s, (l, h))
  compute-Right tokens fine (continues c t mask) e (k, live, h, p) s =
      let a = e.memory in
      let ts = t ∷ [] in
      let (b, o) = run a (some c) ts mask in
      (
        later-EntrySound m i a c ts mask e.entry p s,
        required_past-Right tokens (record e { memory = b }) o (past o)
            (later_logits a c ts mask live (k ∙ ap length (sym h)) ∙ ap meaning h)
            (λ c' q.
              let (l, r) = later_past a c ts mask c' live q in
              (l, r ∙ h, later-IsApart m i a c ts mask e.entry c' s p q)),
      )
  compute-Right tokens exhausted (continues c t mask) e h s = (tt, tt)
  compute-Right tokens broken (continues c t mask) e (k, live, h, p) s =
      (later_abort-EntrySound m i e.memory c (t ∷ []) mask e.entry p s, tt)

  abbrev pub TraceRight : Traced Logits d m logits → List Emitted × Finish → Type 0
  TraceRight r ideal = IsSound m i r.0 × Follows (r.1, r.2) ideal

  yields-Right :
      (event : TokenEvent) (r : Traced Logits d m logits) (ideal : List Emitted × Finish)
      → TraceRight r ideal
      → TraceRight (yields Logits d m logits event r) (with_event Logits d event ideal)
  yields-Right event (e, events, finish) (xs, f) (s, h) = (s, (xs, refl, h))

  after_event-Right :
      (event : TokenEvent) (complete : Bool) (r : Traced Logits d m logits)
      (ideal : List Emitted × Finish) (e : Engine Memory Cache)
      → IsSound m i e
      → TraceRight r ideal
      → TraceRight
          (if complete
            then (e, selected event ∷ [], returned)
            else yields Logits d m logits event r)
          (if complete then (selected event ∷ [], returned) else with_event Logits d event ideal)
  after_event-Right event true r ideal e s h = (s, ([], refl, refl))
  after_event-Right event false r ideal e s h = yields-Right event r ideal h

  Failed-Follows :
      (finish : Finish) (ideal : List Emitted × Finish) → Failed finish → Follows ([], finish) ideal
  Failed-Follows error ideal h = tt
  Failed-Follows memory_error ideal h = tt
  Failed-Follows no_budget ideal h = tt
  Failed-Follows returned ideal h = absurd h
  Failed-Follows at_eos ideal h = absurd h

  module _ (run : Course) (body : Body) (prompt : List ℕ) where
    abbrev ideal : ℕ → List ℕ → d.Random → List Emitted × Finish
    ideal left before random =
        recomputed Logits d meaning run.cancelled_at prompt body left before random

    -- What the next step goes on with.
    continued-Right :
        (before : List ℕ) (e : Engine Memory Cache) (c : Cache) (t mask : ℕ)
        → mask ≡ length (prompt ++ before)
        → StandsFor m i e (prompt ++ before) c
        → HeldRight (prompt ++ (before ++ t ∷ [])) e (continues c t (mask + 1))
    continued-Right before e c t mask k (l, h, p) =
        let joined = append_assoc prompt before (t ∷ []) in
        (
          ground (arith, k, length-append (prompt ++ before) t, ap length joined),
          l,
          ap (λ ts. ts ++ t ∷ []) h ∙ joined,
          p,
        )

    -- the step with its output, where the rest of the loop is right
    selected-Right :
        (left : ℕ) (before : List ℕ) (random : d.Random) (held : Held Logits d m logits)
        (e : Engine Memory Cache) (o : Output) (c : Cache)
        → run.cancelled_at (length before) ≡ false
        → let r = compute Logits d m logits (run.call_at (length before)) held e in
          (r.1 ≡ computed o c)
          → logits o ≡ meaning (prompt ++ before)
          → IsSound m i (compute Logits d m logits (run.call_at (length before)) held e).0
          → ((t : ℕ) (next : d.Random)
              → TraceRight
                  (loop Logits d m logits run body left
                    (at_tokens Logits d (before ++ t ∷ []) next)
                    (continues c t (mask_of Logits d m logits held + 1))
                    (compute Logits d m logits (run.call_at (length before)) held e).0)
                  (ideal left (before ++ t ∷ []) next))
          → TraceRight
              (loop Logits d m logits run body (suc left) (at_tokens Logits d before random) held e)
              (ideal (suc left) before random)
    unfolding loop recomputed
    selected-Right left before random held e o c n q l s rest =
        let choice = chosen Logits d body before (meaning (prompt ++ before)) random in
        let same =
          select-step_of Logits d body before random (logits o)
          ∙ ap (λ x. step_of Logits d body before (chosen Logits d body before x random)) l in
        elim (Bool-cases (d.is_eos choice.0)) [
          | inl f ↦ rw (loop, recomputed, n, q, same, f) (s, refl)
          | inr f ↦
              let event = told Logits d body before choice.0 in
              rw (loop, recomputed, n, q, same, f)
                (after_event-Right event event.complete _ _ _ s (rest choice.0 choice.1))
        ]

    pub loop-Right :
        (left : ℕ) (before : List ℕ) (random : d.Random) (held : Held Logits d m logits)
        (e : Engine Memory Cache)
        → HeldRight (prompt ++ before) e held
        → IsSound m i e
        → TraceRight
            (loop Logits d m logits run body left (at_tokens Logits d before random) held e)
            (ideal left before random)
    unfolding loop recomputed
    loop-Right zero before random held e h s = (s, refl)
    loop-Right (suc left) before random held e h s =
        let tokens = prompt ++ before in
        let fault = run.call_at (length before) in
        let r = compute Logits d m logits fault held e in
        let (s', right) = compute-Right tokens fault held e h s in
        elim (Bool-cases (run.cancelled_at (length before))) [
          | inl n ↦ rw (loop, recomputed, n) (s, ([], refl, refl))
          | inr n ↦ elim (Computed-cases Logits d m logits r.1) [
            | inr (f, q) ↦
                rw (loop, n, q)
                  (s', Failed-Follows f _ (subst (λ x. ComputedRight tokens r.0 x) q right))
            | inl (o, c, q) ↦
                let (l, stands) = subst (λ x. ComputedRight tokens r.0 x) q right in
                selected-Right left before random held e o c n q l s' (λ t next.
                  loop-Right left (before ++ t ∷ []) next
                    (continues c t (mask_of Logits d m logits held + 1)) r.0
                    (continued-Right before r.0 c t (mask_of Logits d m logits held)
                      (HeldRight-mask tokens e held h) stands)
                    s')
          ]
        ]
