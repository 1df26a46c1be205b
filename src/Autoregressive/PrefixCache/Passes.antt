-- ===== src/Autoregressive/PrefixCache/Passes.antt =====
-- The first pass of backend/modeldeck/workers/autoregressive_worker.py with the prefix cache against the
-- model without it.
use model_deck.Base.{
  subst, ◌==◌, ℕ, ◌+◌, ◌≡◌, refl, sym, ap, ◌∙◌, inl, inr, String, Bool, true, false, not, ◌&&◌,
  Option, none, some, List, ◌++◌, arith, length, ltb, Bool-cases, Option-cases, str_eq,
}
use model_deck.Autoregressive.PrefixCache.{
  prefix_cache_max_bytes, same_tokens, take, drop, LanguageModel, Entry, Engine, Status, hit, miss,
  Reason, branch_error, cache_error, prefix_byte_limit, exact_prefix, Fault, fine, exhausted,
  broken, Weather, Ended, value, generation_cancelled, out_of_memory, raised, Prefilled, ready,
  ended, clear_prefix_cache, count_bypass, evict_prefix_cache, model_forward, clone_cache,
  store_prefix, prefill, on_miss, matches, use_branch, with_entry, over_limit_end, is_valid_cache,
  initial_forward, after_miss,
}
use model_deck.Autoregressive.PrefixCache.Transparent.{
  same_tokens-eq, take-drop, IsIncremental, IsPrefix, EntrySound, IsSound, IsApart, StandsFor,
  Sound, copy-EntrySound, later-EntrySound, later_abort-EntrySound, later-IsApart,
  past_value-IsRight, full_prefill-Sound, recover-Sound, fresh-EntrySound,
}

module _ (m : LanguageModel) (i : IsIncremental m) where
  open m use {
    Memory, Cache, Output, read, run, abort, past, tensor_bytes, is_dynamic, seq_length, copy,
    shares_storage,
  }
  open i use {
    Logits, logits, meaning, tokens_of, is_live, fresh_past, later_logits, later_past, copy_live,
    copy_read,
  }

  -- After a miss: a stored entry that stands for the prefix, or an end that is sound.
  abbrev Ready : List ℕ → List ℕ → Engine Memory Cache × Prefilled Output Cache → Type 0
  Ready tokens prefix (e, ready entry) =
      IsSound m i e × (e.entry ≡ some entry) × (entry.token_ids ≡ prefix)
  Ready tokens prefix (e, ended r) = Sound m i tokens (e, r)

  over_limit_end-Ready :
      (w : Weather) (tokens prefix : List ℕ) (r : Engine Memory Cache × Ended Output Cache)
      → Sound m i tokens r
      → Ready tokens prefix (over_limit_end m w tokens r)
  over_limit_end-Ready w tokens prefix (e, raised) s = recover-Sound m i w tokens cache_error e
  over_limit_end-Ready w tokens prefix (e, value o c status reason) s = s
  over_limit_end-Ready w tokens prefix (e, generation_cancelled) s = s
  over_limit_end-Ready w tokens prefix (e, out_of_memory) s = s

  store_prefix-Ready :
      (w : Weather) (tokens : List ℕ) (identity : String) (prefix : List ℕ) (p : Option Cache)
      (e : Engine Memory Cache)
      → IsSound m i e
      → ((c : Cache)
          → p ≡ some c
          → (is_live e.memory c ≡ true) × (tokens_of (read e.memory c) ≡ prefix))
      → Ready tokens prefix (store_prefix m w tokens identity prefix p e)
  unfolding store_prefix
  store_prefix-Ready w tokens identity prefix none e s h = recover-Sound m i w tokens cache_error e
  store_prefix-Ready w tokens identity prefix (some c) e s h =
      elim (Bool-cases (ltb prefix_cache_max_bytes (tensor_bytes (read e.memory c)))) [
        | inl b ↦ rw b (
            over_limit_end-Ready w tokens prefix _
              (full_prefill-Sound m i w.limit_call tokens prefix_byte_limit (count_bypass m e) s))
        | inr b ↦ elim (Bool-cases (is_valid_cache m (read e.memory c) (length prefix))) [
          | inl v ↦ let (l, r) = h c refl in rw (b, v) ((l, r, refl, ground (arith, b)), refl, refl)
          | inr v ↦ rw (b, v) (recover-Sound m i w tokens cache_error e)
        ]
      ]

  prefill-Ready :
      (w : Weather) (tokens : List ℕ) (identity : String) (prefix : List ℕ)
      (e : Engine Memory Cache)
      → IsSound m i e
      → take (length prefix) tokens ≡ prefix
      → Ready tokens prefix (prefill m w tokens identity prefix e)
  unfolding prefill model_forward clear_prefix_cache
  prefill-Ready w tokens identity prefix e s h = go w.prefix_call
    where
      first : List ℕ
      first = take (length prefix) tokens

      go :
          (f : Fault)
          → Ready tokens prefix (prefill m (record w { prefix_call = f }) tokens identity prefix e)
      go fine =
          store_prefix-Ready (record w { prefix_call = fine }) tokens identity prefix _
            (record e { memory = (run e.memory none first (length first)).0 })
            (fresh-EntrySound m i e.memory first (length first) e.entry s)
            (λ c q. let (l, r) = fresh_past e.memory first c q in (l, r ∙ h))
      go exhausted = (tt, tt)
      go broken = recover-Sound m i (record w { prefix_call = broken }) tokens cache_error _

  evicted-Sound :
      (o : Option (Entry Cache)) (e : Engine Memory Cache)
      → EntrySound m i e.memory o
      → IsSound m i (evict_prefix_cache m (record e { entry = o }))
  evicted-Sound none e s = tt
  evicted-Sound (some old) e s = tt

  on_miss-Ready :
      (w : Weather) (tokens : List ℕ) (identity : String) (prefix : List ℕ)
      (e : Engine Memory Cache)
      → IsSound m i e
      → take (length prefix) tokens ≡ prefix
      → Ready tokens prefix (on_miss m w tokens identity prefix e)
  unfolding on_miss
  on_miss-Ready w tokens identity prefix e s h = go w.cancelled_first
    where
      missed : Engine Memory Cache
      missed = evict_prefix_cache m (record e { misses = e.misses + 1 })

      sound : IsSound m i missed
      sound = evicted-Sound e.entry (record e { misses = e.misses + 1 }) s

      go :
          (x : Bool)
          → Ready tokens prefix
              (on_miss m (record w { cancelled_first = x }) tokens identity prefix e)
      go true = (sound, tt)
      go false =
          prefill-Ready (record w { cancelled_first = false }) tokens identity prefix missed sound h

  clone-EntrySound :
      (a : Memory) (c : Cache) (n : ℕ) (o : Option (Entry Cache))
      → EntrySound m i a o
      → EntrySound m i (clone_cache m a c n).0 o
  unfolding clone_cache
  clone-EntrySound a c n o s = elim (Bool-cases (is_valid_cache m (read a c) n)) [
    | inl v ↦ rw v (copy-EntrySound m i a c o s)
    | inr v ↦ rw v s
  ]

  -- A branch is a cache of its own with the contents of the base.
  clone-branch :
      (a : Memory) (c b : Cache) (n : ℕ)
      → is_live a c ≡ true
      → (clone_cache m a c n).1 ≡ some b
      → let after = (clone_cache m a c n).0 in
        (is_live after b ≡ true)
        × (tokens_of (read after b) ≡ tokens_of (read a c))
        × (shares_storage after c b ≡ false)
  unfolding clone_cache
  clone-branch a c b n l q = elim (Bool-cases (is_valid_cache m (read a c) n)) [
    | inr v ↦ absurd (cc (rw v at q))
    | inl v ↦
        let (after, d) = copy a c in
        elim (Bool-cases (
          not (shares_storage after c d)
          && is_valid_cache m (read after d) n
          && (seq_length (read after c) == n))) [
            | inr k ↦ absurd (cc (rw (v, k) at q))
            | inl k ↦
                let same : d ≡ b = cc (rw (v, k) at q) in
                subst
                  (λ x.
                    let after = (clone_cache m a c n).0 in
                    (is_live after x ≡ true)
                    × (tokens_of (read after x) ≡ tokens_of (read a c))
                    × (shares_storage after c x ≡ false))
                  same (rw v (copy_live a c l, ap tokens_of (copy_read a c l), ground (arith, k)))
          ]
  ]

  use_branch-Sound :
      (w : Weather) (tokens : List ℕ) (n : ℕ) (status : Status) (b : Cache)
      (e : Engine Memory Cache)
      → IsSound m i e
      → StandsFor m i e (take n tokens) b
      → Sound m i tokens (use_branch m w tokens n status b e)
  unfolding use_branch model_forward clear_prefix_cache
  use_branch-Sound w tokens n status b e s (live, h, p) =
      go w.cancelled_after_branch w.suffix_call w.cancelled_at_end
    where
      rest : List ℕ
      rest = drop n tokens

      mask : ℕ
      mask = length tokens

      all_tokens : tokens_of (read e.memory b) ++ rest ≡ tokens
      all_tokens = ap (λ k. k ++ rest) h ∙ take-drop n tokens

      kept : EntrySound m i (run e.memory (some b) rest mask).0 e.entry
      kept = later-EntrySound m i e.memory b rest mask e.entry p s

      go :
          (x : Bool) (f : Fault) (y : Bool)
          → Sound m i tokens (
              use_branch m
                (record w { cancelled_after_branch = x; suffix_call = f; cancelled_at_end = y })
                tokens
                n
                status
                b
                e)
      go true f y = (s, tt)
      go false fine true = (kept, tt)
      go false fine false = (
        kept,
        past_value-IsRight m i tokens (record e { memory = (run e.memory (some b) rest mask).0 })
            (run e.memory (some b) rest mask).1 (past (run e.memory (some b) rest mask).1) status
            exact_prefix
            (later_logits e.memory b rest mask live (ap length (sym all_tokens))
              ∙ ap meaning all_tokens)
            (λ c q.
              let (l, r) = later_past e.memory b rest mask c live q in
              (l, r ∙ all_tokens, later-IsApart m i e.memory b rest mask e.entry c s p q)),
      )
      go false exhausted y = (tt, tt)
      go false broken y = (later_abort-EntrySound m i e.memory b rest mask e.entry p s, tt)

  with_entry-Sound :
      (w : Weather) (tokens : List ℕ) (n : ℕ) (status : Status) (entry : Entry Cache)
      (e : Engine Memory Cache)
      → IsSound m i e
      → e.entry ≡ some entry
      → entry.token_ids ≡ take n tokens
      → Sound m i tokens (with_entry m w tokens n status entry e)
  unfolding with_entry
  with_entry-Sound w tokens n status entry e s own h = elim (Bool-cases w.cancelled_before_branch) [
    | inl c ↦ rw c (s, tt)
    | inr c ↦
        let stored = subst (λ (o : Option (Entry Cache)). EntrySound m i e.memory o) own s in
        let kept = clone-EntrySound e.memory entry.cache n e.entry s in
        elim (Option-cases (clone_cache m e.memory entry.cache n).1) [
          | inl q ↦ rw (c, q, with_entry) (recover-Sound m i w tokens branch_error _)
          | inr (b, q) ↦
              let (live, same, apart) = clone-branch e.memory entry.cache b n stored.0 q in
              let e' = record e { memory = (clone_cache m e.memory entry.cache n).0 } in
              rw (c, q, with_entry)
                (use_branch-Sound w tokens n status b e' kept (
                  live,
                  same ∙ stored.1 ∙ h,
                  subst (λ (o : Option (Entry Cache)). IsApart m i e'.memory o b) (sym own) apart,
                ))
        ]
  ]

  matches-entry :
      (identity : String) (prefix : List ℕ) (o : Option (Entry Cache)) (entry : Entry Cache)
      → matches m identity prefix o ≡ some entry
      → (o ≡ some entry) × (entry.token_ids ≡ prefix)
  matches-entry identity prefix none entry q = absurd (cc q)
  matches-entry identity prefix (some old) entry q =
      elim (Bool-cases (str_eq old.identity identity && same_tokens old.token_ids prefix)) [
        | inl v ↦
            let same : old ≡ entry = cc (rw v at q) in
            (
              ap some same,
              ap (λ (k : Entry Cache). k.token_ids) (sym same)
                  ∙ same_tokens-eq old.token_ids prefix (ground (arith, v)),
            )
        | inr v ↦ absurd (cc (rw v at q))
      ]

  after_miss-Sound :
      (w : Weather) (tokens prefix : List ℕ) (r : Engine Memory Cache × Prefilled Output Cache)
      → take (length prefix) tokens ≡ prefix
      → Ready tokens prefix r
      → Sound m i tokens (after_miss m w tokens (length prefix) r)
  after_miss-Sound w tokens prefix (e, ready entry) h (s, own, k) =
      with_entry-Sound w tokens (length prefix) miss entry e s own (k ∙ sym h)
  after_miss-Sound w tokens prefix (e, ended r) h s = s

  pub initial_forward-Sound :
      (w : Weather) (tokens : List ℕ) (p : Option (String × List ℕ)) (reason : Reason)
      (e : Engine Memory Cache)
      → IsPrefix tokens p
      → IsSound m i e
      → Sound m i tokens (
          initial_forward m w
            (record { prompt_ids = tokens; prefix = p; bypass_reason = reason })
            e)
  unfolding initial_forward
  initial_forward-Sound w tokens none reason e h s =
      full_prefill-Sound m i w.whole_call tokens reason _ s
  initial_forward-Sound w tokens (some (identity, prefix)) reason e h s =
      elim (Option-cases (matches m identity prefix e.entry)) [
        | inl q ↦
            rw (q, initial_forward)
              (after_miss-Sound w tokens prefix _ h (on_miss-Ready w tokens identity prefix e s h))
        | inr (entry, q) ↦
            let (own, k) = matches-entry identity prefix e.entry entry q in
            rw (q, initial_forward)
              (with_entry-Sound w tokens (length prefix) hit entry (record e { hits = e.hits + 1 })
                s own (k ∙ sym h))
      ]
