-- ===== src/Examples/Engines.antt =====
-- The worker of backend/modeldeck/workers/autoregressive_worker.py with a model that remembers its
-- tokens, and requests with bodies.
use model_deck.Base.{
  suc, Bool, ◌==◌, ltb, arith, ℕ, ◌≤◌, ◌≡◌, refl, String, true, false, none, some, Option, List, [],
  ◌∷◌, ◌++◌, All, length, str_eq, if◌then◌else◌,
}
use model_deck.Autoregressive.PrefixCache.{
  LanguageModel, Weather, fine, exhausted, initial_forward, prepare_prompt, stable_prefix, on_miss,
  prefill, model_forward, store_prefix, with_entry, clone_cache, use_branch, clear_prefix_cache,
}
use model_deck.Autoregressive.PrefixCache.Transparent.{IsIncremental, IsSound}
use model_deck.Autoregressive.PrefixCache.Requests.{
  Ask, Use, asks, new_engine, serve_all, ServedRight, prefix_cache_transparent,
}
use model_deck.Autoregressive.Tools.{
  Json, text, object, Fields, no_fields, field, ok, native_call, openai_tool_call, call_document,
  ToolRequest, enforce_tool_choice,
}
use model_deck.Autoregressive.Tools.History.{native_document, tool_call-history}
use model_deck.Autoregressive.Tools.Choice.{accepted, enforce_tool_choice-accepted}
use model_deck.Autoregressive.BodyLimit.{
  Message, http_request, Application, receives, completes, declared, request_body_limit,
}
use model_deck.Autoregressive.BodyLimit.Bounds.{total_bytes, body_limit_bounds}

-- Caches are numbered; the memory has the next number and the tokens of each cache. A call writes to the
-- cache that it gets, or to a new one.
abbrev pub Lists : Type 0
Lists = ℕ × (ℕ → List ℕ)

abbrev pub write : ℕ → List ℕ → (ℕ → List ℕ) → ℕ → List ℕ
write c ts f k = if k == c then ts else f k

abbrev pub no_lists : Lists
no_lists = (0, λ k. [])

abbrev pub record_tokens : Lists → Option ℕ → List ℕ → Lists × (ℕ × List ℕ)
record_tokens (next, f) none ts = ((suc next, write next ts f), (next, ts))
record_tokens (next, f) (some c) ts = ((next, write c (f c ++ ts) f), (c, f c ++ ts))

abbrev pub lists_live : Lists → ℕ → Bool
lists_live (next, f) c = ltb c next

abbrev pub recorder : LanguageModel
recorder = record {
  Memory = Lists;
  Cache = ℕ;
  Contents = List ℕ;
  Output = ℕ × List ℕ;
  read = λ a c. a.1 c;
  run = λ a c ts n. record_tokens a c ts;
  abort = λ a c ts n. (record_tokens a c ts).0;
  past = λ o. some o.0;
  tensor_bytes = λ ts. length ts;
  is_dynamic = λ ts. true;
  seq_length = λ ts. length ts;
  copy = λ a c. ((record_tokens a none (a.1 c)).0, a.0);
  shares_storage = λ a c d. c == d;
}

pub kept_elsewhere :
    (a : Lists) (ts : List ℕ) (d : ℕ)
    → lists_live a d ≡ true
    → (lists_live (record_tokens a none ts).0 d ≡ true) × ((record_tokens a none ts).0.1 d ≡ a.1 d)
kept_elsewhere (next, f) ts d l = (ground (arith, l), ground (arith, l))

pub kept_apart :
    (a : Lists) (c : ℕ) (ts : List ℕ) (d : ℕ)
    → lists_live a d ≡ true
    → (d == c) ≡ false
    → (lists_live (record_tokens a (some c) ts).0 d ≡ true)
      × ((record_tokens a (some c) ts).0.1 d ≡ a.1 d)
kept_apart (next, f) c ts d l p = (l, ground (arith, p))

pub written : (c : ℕ) (ts : List ℕ) (f : ℕ → List ℕ) → write c ts f c ≡ ts
written c ts f = ground arith

pub fresh_one :
    (a : Lists) (ts : List ℕ) (c : ℕ)
    → some a.0 ≡ some c
    → (lists_live (record_tokens a none ts).0 c ≡ true) × ((record_tokens a none ts).0.1 c ≡ ts)
fresh_one (next, f) ts c q = ground (arith, q)

pub later_one :
    (a : Lists) (c : ℕ) (ts : List ℕ) (e : ℕ)
    → lists_live a c ≡ true
    → some c ≡ some e
    → (lists_live (record_tokens a (some c) ts).0 e ≡ true)
      × ((record_tokens a (some c) ts).0.1 e ≡ a.1 c ++ ts)
later_one (next, f) c ts e l q = ground (arith, l, q)

pub other_one : (a : Lists) (d c : ℕ) → lists_live a d ≡ true → some a.0 ≡ some c → (d == c) ≡ false
other_one (next, f) d c l q = ground (arith, l, q)

pub same_one : (c d e : ℕ) → (d == c) ≡ false → some c ≡ some e → (d == e) ≡ false
same_one c d e p q = ground (arith, p, q)

pub next_live : (a : Lists) → ltb a.0 (suc a.0) ≡ true
next_live a = ground arith

abbrev pub recorder-IsIncremental : IsIncremental recorder
recorder-IsIncremental = record {
  Logits = List ℕ;
  logits = λ o. o.1;
  meaning = λ ts. ts;
  tokens_of = λ ts. ts;
  is_live = lists_live;
  fresh_logits = λ a ts. refl;
  fresh_past = λ a ts c q. fresh_one a ts c q;
  fresh_kept = λ a ts n d l. kept_elsewhere a ts d l;
  fresh_apart = λ a ts n d c l q. other_one a d c l q;
  later_logits = λ a c ts n l q. refl;
  later_past = λ a c ts n e l q. later_one a c ts e l q;
  later_kept = λ a c ts n d l p. kept_apart a c ts d l p;
  later_apart = λ a c ts n d e l p q. same_one c d e p q;
  fresh_abort = λ a ts n d l. kept_elsewhere a ts d l;
  later_abort = λ a c ts n d l p. kept_apart a c ts d l p;
  copy_kept = λ a c d l. kept_elsewhere a (a.1 c) d l;
  copy_live = λ a c l. next_live a;
  copy_read = λ a c l. written a.0 (a.1 c) a.1;
}

abbrev pub good : Weather
good = record {
  whole_call = fine;
  prefix_call = fine;
  limit_call = fine;
  fallback_call = fine;
  suffix_call = fine;
  cancelled_first = false;
  cancelled_before_branch = false;
  cancelled_after_branch = false;
  cancelled_at_end = false;
}

abbrev pub hello : Weather → List ℕ → Ask
hello w prompt = record {
  weather = w;
  prefix_identity = λ ts. "p";
  hinted = true;
  enabled = true;
  supported = true;
  has_messages = true;
  candidate = some (1 ∷ 2 ∷ []);
  prompt_ids = prompt;
}

-- A miss, a hit, a hit without memory for its suffix, and a miss again.
abbrev four_requests : List Use
four_requests =
    asks (hello good (1 ∷ 2 ∷ 3 ∷ []))
    ∷ asks (hello good (1 ∷ 2 ∷ 4 ∷ []))
    ∷ asks (hello (record good { suffix_call = exhausted }) (1 ∷ 2 ∷ 4 ∷ []))
    ∷ asks (hello good (1 ∷ 2 ∷ 5 ∷ []))
    ∷ []

second_is_hit : (serve_all recorder four_requests (new_engine recorder no_lists)).1.hits ≡ 2
unfolding serve_all initial_forward prepare_prompt stable_prefix on_miss prefill model_forward
    store_prefix with_entry clone_cache use_branch clear_prefix_cache
second_is_hit = refl

prefix_cache_transparent_example :
    All
      (ServedRight recorder recorder-IsIncremental)
      (serve_all recorder four_requests (new_engine recorder no_lists)).0
    × IsSound recorder recorder-IsIncremental
        (serve_all recorder four_requests (new_engine recorder no_lists)).1
prefix_cache_transparent_example =
    prefix_cache_transparent recorder recorder-IsIncremental four_requests no_lists

-- An application that receives twice, whatever it gets.
abbrev twice : Application
twice = receives (λ a. receives (λ b. completes))

abbrev two_bodies : List Message
two_bodies = http_request 5 ∷ http_request 6 ∷ []

body_limit_bounds_example :
    total_bytes (request_body_limit 10 true (declared 9) twice two_bodies).seen ≤ 10
body_limit_bounds_example = body_limit_bounds 10 (declared 9) twice two_bodies

-- A reader and a printer that know the empty object.
abbrev loads_empty : String → Option Json
loads_empty s = if str_eq s "{}" then some (object no_fields) else none

abbrev dumps_empty : Json → String
dumps_empty j = "{}"

abbrev look_up : Fields
look_up = field "name" (text "look_up") (field "arguments" (object no_fields) no_fields)

tool_call-history_example :
    native_call loads_empty dumps_empty (call_document loads_empty dumps_empty "c1" "look_up" "{}")
    ≡ ok (native_document "c1" "look_up" no_fields)
unfolding openai_tool_call
tool_call-history_example =
    tool_call-history loads_empty dumps_empty "c1" "look_up" look_up
      (call_document loads_empty dumps_empty "c1" "look_up" "{}") refl refl refl

-- A definition of that function, and a request that wants it.
abbrev wants_look_up : ToolRequest
wants_look_up =
    let function = field "function" (object (field "name" (text "look_up") no_fields)) no_fields in
    record {
      tools = some (object (field "type" (text "function") function) ∷ []);
      tool_choice = some (object (field "type" (text "function") function));
    }

enforce_tool_choice-accepted_example :
    accepted (enforce_tool_choice (ok []) wants_look_up ("look_up" ∷ [])) ≡ true
enforce_tool_choice-accepted_example =
    enforce_tool_choice-accepted (ok []) wants_look_up ("look_up" ∷ [])
