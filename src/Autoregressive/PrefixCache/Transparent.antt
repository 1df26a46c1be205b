-- ===== src/Autoregressive/PrefixCache/Transparent.antt =====
-- What backend/modeldeck/workers/autoregressive_worker.py relies on in its model, and what the prefix
-- cache and the pass without it keep.
use model_deck.Base.{
  subst, ℕ, zero, suc, ◌≤◌, ◌≡◌, refl, sym, ap, ap₂, ◌∙◌, String, Bool, true, false, Option, none,
  some, List, [], ◌∷◌, ◌++◌, arith, length,
}
use model_deck.Autoregressive.PrefixCache.{
  prefix_cache_max_bytes, same_tokens, take, drop, LanguageModel, Entry, Engine, Status, bypass,
  Reason, Fault, fine, exhausted, broken, Weather, Ended, value, clear_prefix_cache, model_forward,
  full_prefill, recover, past_value,
}

pub same_tokens-eq : (xs ys : List ℕ) → same_tokens xs ys ≡ true → xs ≡ ys
same_tokens-eq [] [] e = refl
same_tokens-eq (x ∷ xs) (y ∷ ys) e =
    let head : x ≡ y = ground arith in ap₂ ◌∷◌ head (same_tokens-eq xs ys (ground arith))
same_tokens-eq [] (y ∷ ys) e = absurd (cc e)
same_tokens-eq (x ∷ xs) [] e = absurd (cc e)

pub take-drop : (n : ℕ) (xs : List ℕ) → take n xs ++ drop n xs ≡ xs
take-drop zero xs = refl
take-drop (suc n) [] = refl
take-drop (suc n) (x ∷ xs) = ap (λ r. x ∷ r) (take-drop n xs)

-- A cache of the first memory is in the second, with the same contents.
abbrev pub Kept :
    (m : LanguageModel) → (m.Memory → m.Cache → Bool) → m.Memory → m.Memory → m.Cache → Type 0
Kept m is_live a b d = (is_live b d ≡ true) × (m.read b d ≡ m.read a d)

-- The documented contract of key-value caching. A cache in memory stands for tokens. A call without a
-- cache makes a new one, for its tokens; a call with one gives the logits for all tokens so far, and a
-- past that stands for them, which may be the same object, changed in place: only the caches that share
-- no storage with it are as they were, and share none with the past. A call that raises may have changed
-- as much. A clone is in memory, with the contents of its source, and changes no other cache; that it
-- shares no storage is not part of this.
pub record IsIncremental (m : LanguageModel) : Type 1 where
  pub Logits : Type 0
  pub logits : m.Output → Logits
  pub meaning : List ℕ → Logits
  pub tokens_of : m.Contents → List ℕ
  pub is_live : m.Memory → m.Cache → Bool
  pub fresh_logits :
      (a : m.Memory) (ts : List ℕ) → logits (m.run a none ts (length ts)).1 ≡ meaning ts
  pub fresh_past :
      (a : m.Memory) (ts : List ℕ) (c : m.Cache)
      → m.past (m.run a none ts (length ts)).1 ≡ some c
      → let b = (m.run a none ts (length ts)).0 in
        (is_live b c ≡ true) × (tokens_of (m.read b c) ≡ ts)
  pub fresh_kept :
      (a : m.Memory) (ts : List ℕ) (n : ℕ) (d : m.Cache)
      → is_live a d ≡ true
      → Kept m is_live a (m.run a none ts n).0 d
  pub fresh_apart :
      (a : m.Memory) (ts : List ℕ) (n : ℕ) (d c : m.Cache)
      → is_live a d ≡ true
      → m.past (m.run a none ts n).1 ≡ some c
      → m.shares_storage (m.run a none ts n).0 d c ≡ false
  pub later_logits :
      (a : m.Memory) (c : m.Cache) (ts : List ℕ) (n : ℕ)
      → is_live a c ≡ true
      → n ≡ length (tokens_of (m.read a c) ++ ts)
      → logits (m.run a (some c) ts n).1 ≡ meaning (tokens_of (m.read a c) ++ ts)
  pub later_past :
      (a : m.Memory) (c : m.Cache) (ts : List ℕ) (n : ℕ) (e : m.Cache)
      → is_live a c ≡ true
      → m.past (m.run a (some c) ts n).1 ≡ some e
      → let b = (m.run a (some c) ts n).0 in
        (is_live b e ≡ true) × (tokens_of (m.read b e) ≡ tokens_of (m.read a c) ++ ts)
  pub later_kept :
      (a : m.Memory) (c : m.Cache) (ts : List ℕ) (n : ℕ) (d : m.Cache)
      → is_live a d ≡ true
      → m.shares_storage a d c ≡ false
      → Kept m is_live a (m.run a (some c) ts n).0 d
  pub later_apart :
      (a : m.Memory) (c : m.Cache) (ts : List ℕ) (n : ℕ) (d e : m.Cache)
      → is_live a d ≡ true
      → m.shares_storage a d c ≡ false
      → m.past (m.run a (some c) ts n).1 ≡ some e
      → m.shares_storage (m.run a (some c) ts n).0 d e ≡ false
  pub fresh_abort :
      (a : m.Memory) (ts : List ℕ) (n : ℕ) (d : m.Cache)
      → is_live a d ≡ true
      → Kept m is_live a (m.abort a none ts n) d
  pub later_abort :
      (a : m.Memory) (c : m.Cache) (ts : List ℕ) (n : ℕ) (d : m.Cache)
      → is_live a d ≡ true
      → m.shares_storage a d c ≡ false
      → Kept m is_live a (m.abort a (some c) ts n) d
  pub copy_kept :
      (a : m.Memory) (c d : m.Cache) → is_live a d ≡ true → Kept m is_live a (m.copy a c).0 d
  pub copy_live :
      (a : m.Memory) (c : m.Cache)
      → is_live a c ≡ true
      → is_live (m.copy a c).0 (m.copy a c).1 ≡ true
  pub copy_read :
      (a : m.Memory) (c : m.Cache)
      → is_live a c ≡ true
      → m.read (m.copy a c).0 (m.copy a c).1 ≡ m.read a c

-- The prefix, if there is one, begins the prompt.
abbrev pub IsPrefix : List ℕ → Option (String × List ℕ) → Type 0
IsPrefix tokens none = Unit
IsPrefix tokens (some (identity, prefix)) = take (length prefix) tokens ≡ prefix

module _ (m : LanguageModel) (i : IsIncremental m) where
  open m use {
    Memory, Cache, Output, read, run, abort, past, tensor_bytes, is_dynamic, seq_length, copy,
    shares_storage,
  }
  open i use {
    Logits, logits, meaning, tokens_of, is_live, fresh_logits, fresh_past, fresh_kept, fresh_apart,
    later_logits, later_past, later_kept, later_apart, fresh_abort, later_abort, copy_kept,
    copy_live, copy_read,
  }

  -- The stored cache stands for the stored tokens, and is within the byte limit.
  abbrev pub EntrySound : Memory → Option (Entry Cache) → Type 0
  EntrySound a none = Unit
  EntrySound a (some entry) =
      (is_live a entry.cache ≡ true)
      × (tokens_of (read a entry.cache) ≡ entry.token_ids)
      × (entry.bytes ≡ tensor_bytes (read a entry.cache))
      × (entry.bytes ≤ prefix_cache_max_bytes)

  abbrev pub IsSound : Engine Memory Cache → Type 0
  IsSound e = EntrySound e.memory e.entry

  -- The cache shares no storage with the stored one.
  abbrev pub IsApart : Memory → Option (Entry Cache) → Cache → Type 0
  IsApart a none c = Unit
  IsApart a (some entry) c = shares_storage a entry.cache c ≡ false

  -- A cache of the engine's memory that stands for the tokens, and is not the stored one.
  abbrev pub StandsFor : Engine Memory Cache → List ℕ → Cache → Type 0
  StandsFor e tokens c =
      (is_live e.memory c ≡ true)
      × (tokens_of (read e.memory c) ≡ tokens)
      × IsApart e.memory e.entry c

  -- A value has the logits that the model gives for all the tokens, and a past that stands for them.
  abbrev pub IsRight : List ℕ → Engine Memory Cache → Ended Output Cache → Type 0
  IsRight tokens e (value o c status reason) = (logits o ≡ meaning tokens) × StandsFor e tokens c
  IsRight tokens e _ = Unit

  abbrev pub Sound : List ℕ → Engine Memory Cache × Ended Output Cache → Type 0
  Sound tokens r = IsSound r.0 × IsRight tokens r.0 r.1

  -- What is kept leaves the entry sound.
  Kept-EntrySound :
      (a b : Memory) (o : Option (Entry Cache))
      → ((en : Entry Cache) → o ≡ some en → is_live a en.cache ≡ true → Kept m is_live a b en.cache)
      → EntrySound a o
      → EntrySound b o
  Kept-EntrySound a b none k s = tt
  Kept-EntrySound a b (some en) k s =
      let (l, r) = k en refl s.0 in (l, ap tokens_of r ∙ s.1, s.2 ∙ ap tensor_bytes (sym r), s.3)

  pub fresh-EntrySound :
      (a : Memory) (ts : List ℕ) (n : ℕ) (o : Option (Entry Cache))
      → EntrySound a o
      → EntrySound (run a none ts n).0 o
  fresh-EntrySound a ts n o s = Kept-EntrySound a _ o (λ en q l. fresh_kept a ts n en.cache l) s

  pub abort-EntrySound :
      (a : Memory) (ts : List ℕ) (n : ℕ) (o : Option (Entry Cache))
      → EntrySound a o
      → EntrySound (abort a none ts n) o
  abort-EntrySound a ts n o s = Kept-EntrySound a _ o (λ en q l. fresh_abort a ts n en.cache l) s

  pub copy-EntrySound :
      (a : Memory) (c : Cache) (o : Option (Entry Cache))
      → EntrySound a o
      → EntrySound (copy a c).0 o
  copy-EntrySound a c o s = Kept-EntrySound a _ o (λ en q l. copy_kept a c en.cache l) s

  pub later-EntrySound :
      (a : Memory) (c : Cache) (ts : List ℕ) (n : ℕ) (o : Option (Entry Cache))
      → IsApart a o c
      → EntrySound a o
      → EntrySound (run a (some c) ts n).0 o
  later-EntrySound a c ts n none p s = tt
  later-EntrySound a c ts n (some en) p s =
      Kept-EntrySound a _ (some en)
        (λ k q l.
          later_kept a c ts n k.cache l (subst (λ (x : Option (Entry Cache)). IsApart a x c) q p))
        s

  pub later_abort-EntrySound :
      (a : Memory) (c : Cache) (ts : List ℕ) (n : ℕ) (o : Option (Entry Cache))
      → IsApart a o c
      → EntrySound a o
      → EntrySound (abort a (some c) ts n) o
  later_abort-EntrySound a c ts n none p s = tt
  later_abort-EntrySound a c ts n (some en) p s =
      Kept-EntrySound a _ (some en)
        (λ k q l.
          later_abort a c ts n k.cache l (subst (λ (x : Option (Entry Cache)). IsApart a x c) q p))
        s

  fresh-IsApart :
      (a : Memory) (ts : List ℕ) (n : ℕ) (o : Option (Entry Cache)) (c : Cache)
      → EntrySound a o
      → past (run a none ts n).1 ≡ some c
      → IsApart (run a none ts n).0 o c
  fresh-IsApart a ts n none c s q = tt
  fresh-IsApart a ts n (some en) c s q = fresh_apart a ts n en.cache c s.0 q

  pub later-IsApart :
      (a : Memory) (b : Cache) (ts : List ℕ) (n : ℕ) (o : Option (Entry Cache)) (c : Cache)
      → EntrySound a o
      → IsApart a o b
      → past (run a (some b) ts n).1 ≡ some c
      → IsApart (run a (some b) ts n).0 o c
  later-IsApart a b ts n none c s p q = tt
  later-IsApart a b ts n (some en) c s p q = later_apart a b ts n en.cache c s.0 p q

  pub past_value-IsRight :
      (tokens : List ℕ) (e : Engine Memory Cache) (o : Output) (p : Option Cache) (status : Status)
      (reason : Reason)
      → logits o ≡ meaning tokens
      → ((c : Cache) → p ≡ some c → StandsFor e tokens c)
      → IsRight tokens e (past_value m o p status reason)
  past_value-IsRight tokens e o none status reason l h = tt
  past_value-IsRight tokens e o (some c) status reason l h = (l, h c refl)

  pub full_prefill-Sound :
      (fault : Fault) (tokens : List ℕ) (reason : Reason) (e : Engine Memory Cache)
      → IsSound e
      → Sound tokens (full_prefill m fault tokens reason e)
  unfolding full_prefill model_forward clear_prefix_cache
  full_prefill-Sound fine tokens reason e s =
      let n = length tokens in
      let (b, o) = run e.memory none tokens n in
      (
        fresh-EntrySound e.memory tokens n e.entry s,
        past_value-IsRight tokens (record e { memory = b }) o (past o) bypass reason
            (fresh_logits e.memory tokens)
            (λ c q.
              let (l, r) = fresh_past e.memory tokens c q in
              (l, r, fresh-IsApart e.memory tokens n e.entry c s q)),
      )
  full_prefill-Sound exhausted tokens reason e s = (tt, tt)
  full_prefill-Sound broken tokens reason e s =
      (abort-EntrySound e.memory tokens (length tokens) e.entry s, tt)

  pub recover-Sound :
      (w : Weather) (tokens : List ℕ) (reason : Reason) (e : Engine Memory Cache)
      → Sound tokens (recover m w tokens reason e)
  unfolding recover clear_prefix_cache
  recover-Sound w tokens reason e = full_prefill-Sound w.fallback_call tokens reason _ tt
