-- ===== src/Autoregressive/PrefixCache.antt =====
-- The prefix cache of TransformersAutoregressiveEngine in
-- backend/modeldeck/workers/autoregressive_worker.py: the choice of a prefix in prepare_prompt,
-- _initial_forward with what it calls, and clear_prefix_cache. The language model with its tensors is
-- an argument: its caches are handles into a memory that its calls change in place. Timings are left
-- out.
pub mod Transparent
pub mod Passes
pub mod Requests
use model_deck.Base.{
  ℕ, zero, suc, ◌+◌, ◌≡◌, String, Bool, true, false, not, ◌&&◌, ◌||◌, ◌==◌, Option, none, some,
  List, [], ◌∷◌, ◌++◌, length, ltb, if◌then◌else◌, str_eq,
}

abbrev pub prefix_cache_max_bytes : ℕ
prefix_cache_max_bytes = 536870912

abbrev pub same_tokens : List ℕ → List ℕ → Bool
same_tokens [] [] = true
same_tokens (x ∷ xs) (y ∷ ys) = (x == y) && same_tokens xs ys
same_tokens [] (y ∷ ys) = false
same_tokens (x ∷ xs) [] = false

-- `xs[:n]` and `xs[n:]`
abbrev pub take : ℕ → List ℕ → List ℕ
take zero xs = []
take (suc n) [] = []
take (suc n) (x ∷ xs) = x ∷ take n xs

abbrev pub drop : ℕ → List ℕ → List ℕ
drop zero xs = xs
drop (suc n) [] = []
drop (suc n) (x ∷ xs) = drop n xs

-- What the worker uses of the model and of its key-value caches, which are objects in a memory. `run` is
-- a call of the model that succeeds, with the cache that it gets, the tokens and the length of the
-- attention mask, `abort` one that raises, and `past` the past_key_values of an output: a call changes
-- the memory, and the cache that it gives back may be the one that it got. `copy` makes a DynamicCache
-- with clones of the layers' keys and values, and `shares_storage` compares their data pointers.
pub record LanguageModel : Type 1 where
  pub Memory : Type 0
  pub Cache : Type 0
  pub Contents : Type 0
  pub Output : Type 0
  pub read : Memory → Cache → Contents
  pub run : Memory → Option Cache → List ℕ → ℕ → Memory × Output
  pub abort : Memory → Option Cache → List ℕ → ℕ → Memory
  pub past : Output → Option Cache
  pub tensor_bytes : Contents → ℕ
  pub is_dynamic : Contents → Bool
  pub seq_length : Contents → ℕ
  pub copy : Memory → Cache → Memory × Cache
  pub shares_storage : Memory → Cache → Cache → Bool

pub record Entry (C : Type 0) : Type 0 where
  pub identity : String
  pub token_ids : List ℕ
  pub cache : C
  pub bytes : ℕ

-- with the memory of the caches
pub record Engine (M C : Type 0) : Type 0 where
  pub memory : M
  pub entry : Option (Entry C)
  pub hits : ℕ
  pub misses : ℕ
  pub bypasses : ℕ
  pub evictions : ℕ
  pub clear_events : ℕ

pub data Status : Type 0 where
  hit miss bypass : Status

pub data Reason : Type 0 where
  hint_absent disabled unsupported_model render_error empty_prefix prefix_token_limit : Reason
  rendered_token_mismatch dynamic_suffix_empty eligible : Reason
  prefix_byte_limit cache_error branch_error exact_prefix : Reason

-- How a call of the model goes: it succeeds, the accelerator's memory is exhausted, or it raises
-- another exception.
pub data Fault : Type 0 where
  fine exhausted broken : Fault

-- What happens during one request: its calls of the model in their places, and whether it has been
-- cancelled at each place where it looks.
pub record Weather : Type 0 where
  pub whole_call : Fault
  pub prefix_call : Fault
  pub limit_call : Fault
  pub fallback_call : Fault
  pub suffix_call : Fault
  pub cancelled_first : Bool
  pub cancelled_before_branch : Bool
  pub cancelled_after_branch : Bool
  pub cancelled_at_end : Bool

-- The end of a request's first pass: the output with its past and the observation's status and
-- reason, or the exception that is raised.
pub data Ended (O C : Type 0) : Type 0 where
  value : O → C → Status → Reason → Ended O C
  generation_cancelled out_of_memory raised : Ended O C

pub data Called (O : Type 0) : Type 0 where
  output : O → Called O
  no_memory failed : Called O

pub data Prefilled (O C : Type 0) : Type 0 where
  ready : Entry C → Prefilled O C
  ended : Ended O C → Prefilled O C

-- PreparedPrompt: the tokens, and the stable prefix with its identity or the reason for none
pub record Prepared : Type 0 where
  pub prompt_ids : List ℕ
  pub prefix : Option (String × List ℕ)
  pub bypass_reason : Reason

abbrev pub prefix_cache_max_tokens : ℕ
prefix_cache_max_tokens = 8192

-- The stable prefix of prepare_prompt. The hint is there or not; the feature may be off, the model
-- unsupported, the request without messages; and the candidate is none if its rendering fails.
unfoldable pub stable_prefix :
    Bool → Bool → Bool → Bool → Option (List ℕ) → List ℕ → Option (List ℕ) × Reason
stable_prefix hinted enabled supported has_messages candidate prompt_ids =
    if hinted && not enabled
    then (none, disabled)
    else if hinted && not supported
    then (none, unsupported_model)
    else if not (hinted && has_messages)
    then (none, hint_absent)
    else elim candidate [
      | none ↦ (none, render_error)
      | some tokens ↦
          if length tokens == 0
          then (none, empty_prefix)
          else if ltb prefix_cache_max_tokens (length tokens)
          then (none, prefix_token_limit)
          else if not (same_tokens (take (length tokens) prompt_ids) tokens)
          then (none, rendered_token_mismatch)
          else if not (ltb (length tokens) (length prompt_ids))
          then (none, dynamic_suffix_empty)
          else (some tokens, eligible)
    ]

-- prepare_prompt, with the function that hashes the tokens to the identity
unfoldable pub prepare_prompt :
    (List ℕ → String) → Bool → Bool → Bool → Bool → Option (List ℕ) → List ℕ → Prepared
prepare_prompt prefix_identity hinted enabled supported has_messages candidate prompt_ids =
    let (prefix, reason) =
      stable_prefix hinted enabled supported has_messages candidate prompt_ids in
    record {
      prompt_ids = prompt_ids;
      prefix = elim prefix [ none ↦ none | some tokens ↦ some (prefix_identity tokens, tokens) ];
      bypass_reason = reason;
    }

module _ (m : LanguageModel) where
  open m use {
    Memory, Cache, Contents, Output, read, run, abort, past, tensor_bytes, is_dynamic, seq_length,
    copy, shares_storage,
  }

  -- clear_prefix_cache
  unfoldable pub clear_prefix_cache : Engine Memory Cache → Engine Memory Cache
  clear_prefix_cache e = record e { entry = none; clear_events = e.clear_events + 1 }

  abbrev pub count_bypass : Engine Memory Cache → Engine Memory Cache
  count_bypass e = record e { bypasses = e.bypasses + 1 }

  -- _evict_prefix_cache
  abbrev pub evict_prefix_cache : Engine Memory Cache → Engine Memory Cache
  evict_prefix_cache e = elim e.entry [
    | none ↦ e
    | some old ↦ record e { entry = none; evictions = e.evictions + 1 }
  ]

  -- _model_forward
  unfoldable pub model_forward :
      Fault → Option Cache → List ℕ → ℕ → Engine Memory Cache → Engine Memory Cache × Called Output
  model_forward fine c tokens mask e =
      let (memory, o) = run e.memory c tokens mask in (record e { memory = memory }, output o)
  model_forward exhausted c tokens mask e =
      (clear_prefix_cache (record e { memory = abort e.memory c tokens mask }), no_memory)
  model_forward broken c tokens mask e =
      (record e { memory = abort e.memory c tokens mask }, failed)

  -- `_required_past_key_values` and the observation
  abbrev pub past_value : Output → Option Cache → Status → Reason → Ended Output Cache
  past_value o none status reason = raised
  past_value o (some c) status reason = value o c status reason

  abbrev pub with_past : Output → Status → Reason → Ended Output Cache
  with_past o status reason = past_value o (past o) status reason

  abbrev pub pass_ended : Called Output → Status → Reason → Ended Output Cache
  pass_ended (output o) status reason = with_past o status reason
  pass_ended no_memory status reason = out_of_memory
  pass_ended failed status reason = raised

  -- _full_prefill_fallback, and the pass without a stable prefix
  unfoldable pub full_prefill :
      Fault → List ℕ → Reason → Engine Memory Cache → Engine Memory Cache × Ended Output Cache
  full_prefill fault tokens reason e =
      let (e', called) = model_forward fault none tokens (length tokens) e in
      (e', pass_ended called bypass reason)

  -- _validate_qwen_dynamic_cache
  abbrev pub is_valid_cache : Contents → ℕ → Bool
  is_valid_cache c expected = is_dynamic c && (seq_length c == expected) && ltb 0 (tensor_bytes c)

  -- _clone_qwen_dynamic_cache
  unfoldable pub clone_cache : Memory → Cache → ℕ → Memory × Option Cache
  clone_cache memory c expected =
      if not (is_valid_cache (read memory c) expected)
      then (memory, none)
      else let (after, branch) = copy memory c in
        (
          after,
          if not (shares_storage after c branch)
                && is_valid_cache (read after branch) expected
                && (seq_length (read after c) == expected)
              then some branch
              else none,
        )

  -- the `except Exception` around the prefix, and the one around the branch
  unfoldable pub recover :
      Weather → List ℕ → Reason → Engine Memory Cache → Engine Memory Cache × Ended Output Cache
  recover w tokens reason e =
      full_prefill w.fallback_call tokens reason (count_bypass (clear_prefix_cache e))

  abbrev pub ended_first :
      Engine Memory Cache × Ended Output Cache → Engine Memory Cache × Prefilled Output Cache
  ended_first r = (r.0, ended r.1)

  -- the byte limit's `return` inside of the `try`: an exception of the fallback is handled there too
  abbrev pub over_limit_end :
      Weather
      → List ℕ
      → Engine Memory Cache × Ended Output Cache
      → Engine Memory Cache × Prefilled Output Cache
  over_limit_end w tokens (e, raised) = ended_first (recover w tokens cache_error e)
  over_limit_end w tokens (e, value o c status reason) = (e, ended (value o c status reason))
  over_limit_end w tokens (e, generation_cancelled) = (e, ended generation_cancelled)
  over_limit_end w tokens (e, out_of_memory) = (e, ended out_of_memory)

  abbrev pub entry_for : String → List ℕ → Cache → Memory → Entry Cache
  entry_for identity prefix c memory = record {
    identity = identity;
    token_ids = prefix;
    cache = c;
    bytes = tensor_bytes (read memory c);
  }

  -- the prefix has been computed
  unfoldable pub store_prefix :
      Weather
      → List ℕ
      → String
      → List ℕ
      → Option Cache
      → Engine Memory Cache
      → Engine Memory Cache × Prefilled Output Cache
  store_prefix w tokens identity prefix none e = ended_first (recover w tokens cache_error e)
  store_prefix w tokens identity prefix (some c) e =
      if ltb prefix_cache_max_bytes (tensor_bytes (read e.memory c))
      then over_limit_end w tokens
          (full_prefill w.limit_call tokens prefix_byte_limit (count_bypass e))
      else if is_valid_cache (read e.memory c) (length prefix)
      then (
        record e { entry = some (entry_for identity prefix c e.memory) },
        ready (entry_for identity prefix c e.memory),
      )
      else ended_first (recover w tokens cache_error e)

  -- the `try` block of a miss
  unfoldable pub prefill :
      Weather
      → List ℕ
      → String
      → List ℕ
      → Engine Memory Cache
      → Engine Memory Cache × Prefilled Output Cache
  prefill w tokens identity prefix e =
      let first = take (length prefix) tokens in
      let (e', called) = model_forward w.prefix_call none first (length first) e in
      elim called [
        | no_memory ↦ (e', ended out_of_memory)
        | failed ↦ ended_first (recover w tokens cache_error e')
        | output o ↦ store_prefix w tokens identity prefix (past o) e'
      ]

  -- a miss: the old entry goes, then the cancellation is looked at
  unfoldable pub on_miss :
      Weather
      → List ℕ
      → String
      → List ℕ
      → Engine Memory Cache
      → Engine Memory Cache × Prefilled Output Cache
  on_miss w tokens identity prefix e =
      let missed = evict_prefix_cache (record e { misses = e.misses + 1 }) in
      if w.cancelled_first
      then (missed, ended generation_cancelled)
      else prefill w tokens identity prefix missed

  abbrev pub matches : String → List ℕ → Option (Entry Cache) → Option (Entry Cache)
  matches identity prefix none = none
  matches identity prefix (some entry) =
      if str_eq entry.identity identity && same_tokens entry.token_ids prefix
      then some entry
      else none

  -- the pass over the suffix
  unfoldable pub use_branch :
      Weather
      → List ℕ
      → ℕ
      → Status
      → Cache
      → Engine Memory Cache
      → Engine Memory Cache × Ended Output Cache
  use_branch w tokens n status branch e =
      if w.cancelled_after_branch
      then (e, generation_cancelled)
      else let (e', called) =
          model_forward w.suffix_call (some branch) (drop n tokens) (length tokens) e in
        elim called [
          | no_memory ↦ (e', out_of_memory)
          | failed ↦ (e', raised)
          | output o ↦ (
            e',
            if w.cancelled_at_end then generation_cancelled else with_past o status exact_prefix,
          )
        ]

  unfoldable pub with_entry :
      Weather
      → List ℕ
      → ℕ
      → Status
      → Entry Cache
      → Engine Memory Cache
      → Engine Memory Cache × Ended Output Cache
  with_entry w tokens n status entry e =
      if w.cancelled_before_branch
      then (e, generation_cancelled)
      else let (memory, cloned) = clone_cache e.memory entry.cache n in
        let e' = record e { memory = memory } in
        elim cloned [
          | none ↦ recover w tokens branch_error e'
          | some branch ↦ use_branch w tokens n status branch e'
        ]

  abbrev pub after_miss :
      Weather
      → List ℕ
      → ℕ
      → Engine Memory Cache × Prefilled Output Cache
      → Engine Memory Cache × Ended Output Cache
  after_miss w tokens n (e, ready entry) = with_entry w tokens n miss entry e
  after_miss w tokens n (e, ended r) = (e, r)

  -- _initial_forward
  unfoldable pub initial_forward :
      Weather → Prepared → Engine Memory Cache → Engine Memory Cache × Ended Output Cache
  initial_forward w p e = elim p.prefix [
    | none ↦ full_prefill w.whole_call p.prompt_ids p.bypass_reason (count_bypass e)
    | some (identity, prefix) ↦ elim (matches identity prefix e.entry) [
      | some entry ↦
          with_entry w p.prompt_ids (length prefix) hit entry (record e { hits = e.hits + 1 })
      | none ↦ after_miss w p.prompt_ids (length prefix) (on_miss w p.prompt_ids identity prefix e)
    ]
  ]
