-- ===== src/Autoregressive/PrefixCache/Requests.antt =====
-- Requests one after the other at one engine of backend/modeldeck/workers/autoregressive_worker.py.
use model_deck.Base.{
  ℕ, ◌≡◌, inl, inr, String, Bool, Option, none, some, List, [], ◌∷◌, arith, length, All, Bool-cases,
  Option-cases, subst,
}
use model_deck.Autoregressive.PrefixCache.{
  take, same_tokens, LanguageModel, Engine, Weather, Ended, Prepared, stable_prefix, prepare_prompt,
  clear_prefix_cache, initial_forward,
}
use model_deck.Autoregressive.PrefixCache.Transparent.{
  IsIncremental, IsSound, IsRight, IsPrefix, same_tokens-eq,
}
use model_deck.Autoregressive.PrefixCache.Passes.{initial_forward-Sound}

-- What a request brings to prepare_prompt, and what happens during its first pass.
pub record Ask : Type 0 where
  pub weather : Weather
  pub prefix_identity : List ℕ → String
  pub hinted : Bool
  pub enabled : Bool
  pub supported : Bool
  pub has_messages : Bool
  pub candidate : Option (List ℕ)
  pub prompt_ids : List ℕ

-- A request, or POST /cache/clear.
pub data Use : Type 0 where
  asks : Ask → Use
  clears : Use

abbrev pub prepared : Ask → Prepared
prepared a =
    prepare_prompt a.prefix_identity a.hinted a.enabled a.supported a.has_messages a.candidate
      a.prompt_ids

stable_prefix-IsPrefix :
    (hinted enabled supported has_messages : Bool) (candidate : Option (List ℕ))
    (prompt_ids ts : List ℕ)
    → (stable_prefix hinted enabled supported has_messages candidate prompt_ids).0 ≡ some ts
    → take (length ts) prompt_ids ≡ ts
unfolding stable_prefix
stable_prefix-IsPrefix hinted enabled supported has_messages none prompt_ids ts q =
    absurd (ground (arith, q))
stable_prefix-IsPrefix hinted enabled supported has_messages (some tokens) prompt_ids ts q =
    elim (Bool-cases (same_tokens (take (length tokens) prompt_ids) tokens)) [
      | inl v ↦
          let same : tokens ≡ ts = ground (arith, q) in
          subst (λ k. take (length k) prompt_ids ≡ k) same
            (same_tokens-eq (take (length tokens) prompt_ids) tokens v)
      | inr v ↦ absurd (ground (arith, q, v))
    ]

pub prepared-IsPrefix : (a : Ask) → IsPrefix a.prompt_ids (prepared a).prefix
unfolding prepare_prompt
prepared-IsPrefix a =
    let chosen =
      stable_prefix a.hinted a.enabled a.supported a.has_messages a.candidate a.prompt_ids in
    elim (Option-cases chosen.0) [
      | inl q ↦ rw (q, prepare_prompt) tt
      | inr (ts, q) ↦
          rw (q, prepare_prompt)
            (stable_prefix-IsPrefix a.hinted a.enabled a.supported a.has_messages a.candidate
              a.prompt_ids ts q)
    ]

module _ (m : LanguageModel) where
  -- the engine with the memory that it begins with
  abbrev pub new_engine : m.Memory → Engine m.Memory m.Cache
  new_engine memory = record {
    memory = memory;
    entry = none;
    hits = 0;
    misses = 0;
    bypasses = 0;
    evictions = 0;
    clear_events = 0;
  }

  abbrev pub Served : Type 0
  Served = List ℕ × Engine m.Memory m.Cache × Ended m.Output m.Cache

  -- The ends of the requests, each with the tokens of its prompt and the engine at that end, and the
  -- engine after all of them.
  unfoldable pub serve_all :
      List Use → Engine m.Memory m.Cache → List Served × Engine m.Memory m.Cache
  serve_all [] e = ([], e)
  serve_all (clears ∷ us) e = serve_all us (clear_prefix_cache m e)
  serve_all (asks a ∷ us) e =
      let (e', r) = initial_forward m a.weather (prepared a) e in
      let (rs, e'') = serve_all us e' in ((a.prompt_ids, e', r) ∷ rs, e'')

module _ (m : LanguageModel) (i : IsIncremental m) where
  abbrev pub ServedRight : Served m → Type 0
  ServedRight (tokens, e, r) = IsRight m i tokens e r

  serve_all-Sound :
      (us : List Use) (e : Engine m.Memory m.Cache)
      → IsSound m i e
      → All ServedRight (serve_all m us e).0 × IsSound m i (serve_all m us e).1
  unfolding serve_all clear_prefix_cache prepare_prompt
  serve_all-Sound [] e s = (tt, s)
  serve_all-Sound (clears ∷ us) e s = serve_all-Sound us (clear_prefix_cache m e) tt
  serve_all-Sound (asks a ∷ us) e s =
      let p = prepared a in
      let first =
        initial_forward-Sound m i a.weather a.prompt_ids p.prefix p.bypass_reason e
          (prepared-IsPrefix a) s in
      let rest = serve_all-Sound us (initial_forward m a.weather p e).0 first.0 in
      ((first.1, rest.0), rest.1)

  -- With a model whose calls change their caches in place, as documented, the prefix cache is
  -- transparent: whatever the requests are, whichever calls fail or are cancelled, and whenever the cache
  -- is cleared, each first pass that gives a value gives the logits of the model for the whole prompt,
  -- and a past that stands for it in memory and shares no storage with the cache that is stored; and what
  -- is stored at the end stands for its tokens still, within the byte limit.
  pub prefix_cache_transparent :
      (us : List Use) (memory : m.Memory)
      → All ServedRight (serve_all m us (new_engine m memory)).0
        × IsSound m i (serve_all m us (new_engine m memory)).1
  prefix_cache_transparent us memory = serve_all-Sound us (new_engine m memory) tt
