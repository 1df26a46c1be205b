-- ===== src/Autoregressive/Generation/Requests.antt =====
-- Generations one after the other at one engine of backend/modeldeck/workers/autoregressive_worker.py.
use model_deck.Base.{◌≡◌, ◌⊎◌, Bool, List, [], ◌∷◌}
use model_deck.Autoregressive.PrefixCache.{LanguageModel, Engine, clear_prefix_cache}
use model_deck.Autoregressive.PrefixCache.Transparent.{IsIncremental, IsSound}
use model_deck.Autoregressive.PrefixCache.Requests.{Ask, prepared}
use model_deck.Autoregressive.Generation.{
  Decoder, Body, Config, Emitted, cancelled, Finish, returned, Course, Traced, min, trace,
}
use model_deck.Autoregressive.Generation.Refinement.{recomputed, Follows}

-- A request to generate, with what happens while it runs, or POST /cache/clear.
pub record Generate : Type 0 where
  pub ask : Ask
  pub run : Course
  pub body : Body
  pub cancelled_before : Bool

pub data Use : Type 0 where
  generates : Generate → Use
  clears : Use

module _ (Logits : Type 0) (d : Decoder Logits) (m : LanguageModel) (logits : m.Output → Logits)
    (config : Config) where
  -- the trace of a request
  abbrev pub trace_of : Generate → Engine m.Memory m.Cache → Traced Logits d m logits
  trace_of g e =
      trace Logits d m logits config g.run g.ask.weather g.cancelled_before g.body (prepared g.ask)
        e

  unfoldable pub generate_all : List Use → Engine m.Memory m.Cache → List (List Emitted × Finish)
  generate_all [] e = []
  generate_all (clears ∷ us) e = generate_all us (clear_prefix_cache m e)
  generate_all (generates g ∷ us) e = let t = trace_of g e in (t.1, t.2) ∷ generate_all us t.0

module _ (m : LanguageModel) (i : IsIncremental m) (d : Decoder i.Logits) (config : Config) where
  -- the generation of a request without a cache
  abbrev pub ideal_of : Generate → List Emitted × Finish
  ideal_of g =
      recomputed i.Logits d i.meaning g.run.cancelled_at g.ask.prompt_ids g.body
        (min g.body.max_tokens config.maximum_new_tokens) [] (d.manual_seed g.body.seed)

  -- A trace is that generation, or an exception has cut it short, or it was cancelled before it began.
  abbrev pub IsTraceOf : Generate → List Emitted × Finish → Type 0
  IsTraceOf g t = (t ≡ (cancelled 0 [] ∷ [], returned)) ⊎ Follows t (ideal_of g)

  abbrev pub AreTracesOf : List Use → List (List Emitted × Finish) → Type 0
  AreTracesOf [] [] = Unit
  AreTracesOf [] (t ∷ ts) = ⊥
  AreTracesOf (clears ∷ us) ts = AreTracesOf us ts
  AreTracesOf (generates g ∷ us) [] = ⊥
  AreTracesOf (generates g ∷ us) (t ∷ ts) = IsTraceOf g t × AreTracesOf us ts

  abbrev TraceOk : Generate → Traced i.Logits d m i.logits → Type 0
  TraceOk g t = IsSound m i t.0 × IsTraceOf g (t.1, t.2)
