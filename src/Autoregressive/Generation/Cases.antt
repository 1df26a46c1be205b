-- ===== src/Autoregressive/Generation/Cases.antt =====
-- The cases of a step in trace of backend/modeldeck/workers/autoregressive_worker.py.
use model_deck.Base.{ℕ, ◌≡◌, refl, ◌⊎◌, inl, inr, Bool-cases}
use model_deck.Autoregressive.PrefixCache.{LanguageModel}
use model_deck.Autoregressive.Generation.{
  Decoder, Body, Finish, Progress, ends, emits, adjusted, event_of, after_token, select, Computed,
  computed, fails,
}

pub select-cases :
    (Logits : Type 0) (d : Decoder Logits) (body : Body) (p : Progress d.Random) (l : Logits)
    → (select Logits d body p l ≡ ends)
      ⊎ (t : ℕ) × (r : d.Random) × (select Logits d body p l
          ≡ emits (event_of Logits d body t p) (after_token Logits d t r p))
unfolding select
select-cases Logits d body p l =
    let (t, r) = d.sample (adjusted Logits d body p.generated l) p.random in
    elim (Bool-cases (d.is_eos t)) [ inl e ↦ inl (rw e refl) | inr e ↦ inr (t, r, rw e refl) ]

module _ (Logits : Type 0) (d : Decoder Logits) (m : LanguageModel)
    (logits : m.Output → Logits) where
  open m use {Cache, Output}

  pub Computed-cases :
      (r : Computed Logits d m logits)
      → ((o : Output) × (c : Cache) × (r ≡ computed o c)) ⊎ (f : Finish) × (r ≡ fails f)
  Computed-cases (computed o c) = inl (o, c, refl)
  Computed-cases (fails f) = inr (f, refl)
