-- ===== src/Autoregressive/Generation/Told.antt =====
-- What the events of backend/modeldeck/workers/autoregressive_worker.py are to tell, from the tokens
-- alone.
use mathlib.Core.List.{append_assoc, append-nil}
use model_deck.Base.{
  ℕ, suc, ◌≡◌, refl, ap, sym, ◌∙◌, Bool, not, ◌&&◌, List, [], ◌∷◌, ◌++◌, arith, any, length, leb,
  ltb, if◌then◌else◌,
}
use model_deck.Autoregressive.Generation.{
  Decoder, Body, TokenEvent, Progress, Choice, ends, emits, adjusted, event_of, after_token, select,
  ends_with,
}

pub length-append : (xs : List ℕ) (t : ℕ) → length (xs ++ t ∷ []) ≡ suc (length xs)
length-append [] t = refl
length-append (x ∷ xs) t = ap suc (length-append xs t)

module _ (Logits : Type 0) (d : Decoder Logits) where
  open d use {Random, penalise, suppress, sample, is_eos, decode}

  -- The text of the tokens.
  abbrev pub text_of : List ℕ → List ℕ
  text_of [] = []
  text_of (t ∷ ts) = decode t ++ text_of ts

  -- The text ends with a stop sequence, and there are enough tokens.
  abbrev pub is_at_stop : Body → List ℕ → Bool
  is_at_stop body tokens =
      not (ltb (length tokens) body.min_tokens)
      && any (λ (s : List ℕ). ends_with (text_of tokens) s) body.stop

  -- The event of a token behind others.
  abbrev pub told : Body → List ℕ → ℕ → TokenEvent
  told body before t = record {
    step = length before;
    token_id = t;
    token = decode t;
    generated_token_ids = before ++ t ∷ [];
    text_so_far = text_of (before ++ t ∷ []);
    complete = is_at_stop body (before ++ t ∷ []);
  }

  -- The logits that are sampled: with the penalty if there are tokens, and without the EOS tokens while
  -- there are too few.
  abbrev pub after_penalty : Body → List ℕ → Logits → Logits
  after_penalty body [] l = l
  after_penalty body (t ∷ ts) l = if body.penalises then penalise (t ∷ ts) l else l

  abbrev pub chosen : Body → List ℕ → Logits → Random → ℕ × Random
  chosen body before l random =
      let l' = after_penalty body before l in
      sample (if leb body.min_tokens (length before) then l' else suppress l') random

  -- The locals of the loop behind these tokens.
  abbrev pub at_tokens : List ℕ → Random → Progress Random
  at_tokens before random = record {
    step = length before;
    generated = before;
    text_so_far = text_of before;
    random = random;
  }

  text_of-append : (xs : List ℕ) (t : ℕ) → text_of (xs ++ t ∷ []) ≡ text_of xs ++ decode t
  text_of-append [] t = append-nil (decode t)
  text_of-append (x ∷ xs) t =
      ap (λ r. decode x ++ r) (text_of-append xs t)
      ∙ sym (append_assoc (decode x) (text_of xs) (decode t))

  leb-not-ltb : (a b : ℕ) → leb a b ≡ not (ltb b a)
  leb-not-ltb a b = ground arith

  event_of-told :
      (body : Body) (before : List ℕ) (random : Random) (t : ℕ)
      → event_of Logits d body t (at_tokens before random) ≡ told body before t
  event_of-told body before random t =
      rw (text_of-append before t, leb-not-ltb body.min_tokens (length (before ++ t ∷ []))) refl

  after_token-at_tokens :
      (before : List ℕ) (random r : Random) (t : ℕ)
      → after_token Logits d t r (at_tokens before random) ≡ at_tokens (before ++ t ∷ []) r
  after_token-at_tokens before random r t =
      rw (text_of-append before t, length-append before t) refl

  adjusted-chosen :
      (body : Body) (before : List ℕ) (l : Logits) (random : Random)
      → sample (adjusted Logits d body before l) random ≡ chosen body before l random
  adjusted-chosen body [] l random = ground arith
  adjusted-chosen body (t ∷ ts) l random = ground arith

  -- A step of the loop by what it is to tell.
  abbrev pub step_of : Body → List ℕ → ℕ × Random → Choice Logits d
  step_of body before (t, r) =
      if is_eos t then ends else emits (told body before t) (at_tokens (before ++ t ∷ []) r)

  pub select-step_of :
      (body : Body) (before : List ℕ) (random : Random) (l : Logits)
      → select Logits d body (at_tokens before random) l
        ≡ step_of body before (chosen body before l random)
  unfolding select
  select-step_of body before random l =
      let (t, r) = chosen body before l random in
      rw
        (
          adjusted-chosen body before l random,
          event_of-told body before random t,
          after_token-at_tokens before random r t,
        )
        refl
