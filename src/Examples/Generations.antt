-- ===== src/Examples/Generations.antt =====
-- Generation in backend/modeldeck/workers/autoregressive_worker.py with a model that remembers its
-- tokens and a sampler that counts.
use model_deck.Base.{
  ℕ, suc, ◌+◌, ◌≤◌, ◌≡◌, ◌⊎◌, refl, true, false, some, List, [], ◌∷◌, length, ◌==◌, arith,
}
use model_deck.Text.{same_text}
use model_deck.Autoregressive.PrefixCache.{
  Engine, fine, initial_forward, prepare_prompt, stable_prefix, on_miss, prefill, model_forward,
  store_prefix, with_entry, clone_cache, use_branch, value, miss, exact_prefix,
}
use model_deck.Autoregressive.PrefixCache.Requests.{new_engine, prepared}
use model_deck.Autoregressive.Generation.{
  Decoder, Body, Config, Course, Emitted, Finish, no_budget, trace, loop, select, compute,
  validate_token_budget, ends_with,
}
use model_deck.Autoregressive.Generation.Requests.{Generate, Use, generates, clears}
use model_deck.Autoregressive.Generation.Limits.{InOrder, tokens_in, trace-InOrder}
use model_deck.Autoregressive.Generation.Ends.{EndsWell, trace-EndsWell}
use model_deck.Autoregressive.Service.{
  Live, new_service, find_live, register_request, take_lock, finish_request, abandon_request,
  cancel_request, warm_up, ServiceStep, warms, arrives, enters, abandons, ends, happen, happen_all,
  came_back,
}
use model_deck.Autoregressive.Service.Reaches.{is_fresh, are_fresh, happen_all-cancel_request}
use model_deck.Examples.Engines.{Lists, no_lists, record_tokens, recorder, good, hello}

-- The token is the number of tokens so far, and never the EOS token 0.
abbrev counter : Decoder (List ℕ)
counter = record {
  Random = ℕ;
  manual_seed = λ n. n;
  penalise = λ generated l. l;
  suppress = λ l. l;
  sample = λ l r. (suc (length l), r);
  is_eos = λ t. t == 0;
  decode = λ t. t ∷ [];
}

abbrev small : Config
small = record { context_length = 8; maximum_new_tokens = 4 }

-- It stops behind the token 6.
abbrev until_six : Body
until_six = record {
  max_tokens = 5;
  min_tokens = 2;
  stop = (6 ∷ []) ∷ [];
  seed = 7;
  penalises = false;
}

abbrev steady : Course
steady = record { cancelled_at = λ n. false; call_at = λ n. fine }

-- The request is cancelled at its second step.
abbrev hasty : Course
hasty = record { cancelled_at = λ n. n == 1; call_at = λ n. fine }

abbrev generation : Course → List ℕ → Generate
generation run prompt = record {
  ask = hello good prompt;
  run = run;
  body = until_six;
  cancelled_before = false;
}

abbrev three_generations : List Use
three_generations =
    generates (generation steady (1 ∷ 2 ∷ 3 ∷ []))
    ∷ generates (generation hasty (1 ∷ 2 ∷ 4 ∷ []))
    ∷ clears
    ∷ generates (generation steady (1 ∷ 2 ∷ 3 ∷ 4 ∷ []))
    ∷ []

abbrev first_trace : Engine Lists ℕ × List Emitted × Finish
first_trace =
    trace (List ℕ) counter recorder (λ o. o.1) small steady good false until_six
      (prepared (hello good (1 ∷ 2 ∷ 3 ∷ []))) (new_engine recorder no_lists)

-- The tokens 4, 5 and 6.
three_tokens : tokens_in first_trace.1 ≡ 3
unfolding trace validate_token_budget initial_forward prepare_prompt stable_prefix on_miss prefill
    model_forward store_prefix with_entry clone_cache use_branch loop compute select ends_with
    same_text
three_tokens = refl

trace-InOrder_example :
    ((validate_token_budget small
          (length (prepared (hello good (1 ∷ 2 ∷ 3 ∷ []))).prompt_ids)
          until_six
        ≡ false)
      × (first_trace ≡ (new_engine recorder no_lists, [], no_budget)))
    ⊎ InOrder (List ℕ) counter until_six [] first_trace.1
      × (tokens_in first_trace.1 ≤ 5)
      × (tokens_in first_trace.1 ≤ 4)
      × (length (prepared (hello good (1 ∷ 2 ∷ 3 ∷ []))).prompt_ids + tokens_in first_trace.1 ≤ 8)
trace-InOrder_example =
    trace-InOrder (List ℕ) counter recorder (λ o. o.1) small steady good false until_six
      (prepared (hello good (1 ∷ 2 ∷ 3 ∷ []))) (new_engine recorder no_lists)

-- The engine behind the first pass, which was a miss.
abbrev warm : Engine Lists ℕ
warm =
    (initial_forward recorder good (prepared (hello good (1 ∷ 2 ∷ 3 ∷ [])))
      (new_engine recorder no_lists)).0

-- The branch has grown, and the stored cache has not.
first_pass :
    initial_forward recorder good
      (prepared (hello good (1 ∷ 2 ∷ 3 ∷ [])))
      (new_engine recorder no_lists)
    ≡ (warm, value (1, 1 ∷ 2 ∷ 3 ∷ []) 1 miss exact_prefix)
unfolding initial_forward prepare_prompt stable_prefix on_miss prefill model_forward store_prefix
    with_entry clone_cache use_branch
first_pass = refl

base_kept : warm.memory.1 0 ≡ 1 ∷ 2 ∷ []
unfolding initial_forward prepare_prompt stable_prefix on_miss prefill model_forward store_prefix
    with_entry clone_cache use_branch
base_kept = refl

counter_goes_on : (l : List ℕ) (r : ℕ) → counter.is_eos (counter.sample l r).0 ≡ false
counter_goes_on l r = ground arith

fits :
    validate_token_budget small
      (length (prepared (hello good (1 ∷ 2 ∷ 3 ∷ []))).prompt_ids)
      until_six
    ≡ true
unfolding validate_token_budget prepare_prompt
fits = refl

trace-EndsWell_example :
    EndsWell (List ℕ) counter recorder (λ o. o.1) until_six 4 0 first_trace.1 first_trace.2
trace-EndsWell_example =
    trace-EndsWell (List ℕ) counter recorder (λ o. o.1) counter_goes_on
      (λ a c ts n. ((record_tokens a c ts).1.0, refl)) small steady good until_six
      (prepared (hello good (1 ∷ 2 ∷ 3 ∷ []))) (new_engine recorder no_lists) warm
      (1, 1 ∷ 2 ∷ 3 ∷ []) 1 miss exact_prefix fits first_pass (λ n. refl)

-- Two requests: the second one waits for the lock.
abbrev two_requests : List ServiceStep
two_requests = warms ∷ arrives "a" true false ∷ enters 0 ∷ arrives "b" true true ∷ []

abbrev waiting : Live
waiting = record { request_id = "b"; event = 1; streams = true }

two_are_fresh : are_fresh two_requests new_service ≡ true
unfolding are_fresh is_fresh happen warm_up register_request take_lock new_service
two_are_fresh = refl

second_waits : find_live 1 (happen_all two_requests new_service).live ≡ some waiting
unfolding happen_all happen warm_up register_request take_lock new_service
second_waits = refl

happen_all-cancel_request_example :
    ((cancel_request waiting.request_id (happen_all two_requests new_service)).1 ≡ true)
    × ((cancel_request waiting.request_id (happen_all two_requests new_service)).0.set_events
        ≡ 1 ∷ (happen_all two_requests new_service).set_events)
happen_all-cancel_request_example =
    happen_all-cancel_request two_requests 1 waiting two_are_fresh second_waits

-- Two requests under one identifier: when the first one has ended, the second cannot be cancelled.
abbrev same_identifier : List ServiceStep
same_identifier =
    warms
    ∷ arrives "a" true false
    ∷ arrives "a" true false
    ∷ enters 0
    ∷ ends 0 came_back
    ∷ enters 1
    ∷ []

second_unreachable : (cancel_request "a" (happen_all same_identifier new_service)).1 ≡ false
unfolding happen_all happen warm_up register_request take_lock new_service finish_request
    cancel_request
second_unreachable = refl

-- A request whose client leaves before it has the lock: its entry stays.
abbrev early_leave : List ServiceStep
early_leave = warms ∷ arrives "a" true true ∷ abandons 0 ∷ []

entry_stays : (cancel_request "a" (happen_all early_leave new_service)).1 ≡ true
unfolding happen_all happen warm_up register_request abandon_request new_service cancel_request
entry_stays = refl
