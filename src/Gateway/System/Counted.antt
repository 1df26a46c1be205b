-- ===== src/Gateway/System/Counted.antt =====
-- The shared count of the gateway, backend/modeldeck/gateway/app.py, in every interleaving.
use model_deck.Base.{
  ℕ, zero, suc, ◌+◌, ◌==◌, ◌≡◌, refl, sym, subst, inl, inr, String, Bool, true, false, not, ◌&&◌,
  ◌||◌, Option, none, some, List, [], ◌∷◌, arith, length, all, Bool-cases, Option-cases, str_eq,
}
use text.Mathlib.TextEquality.{eq_iff}
use model_deck.Text.{member}
use model_deck.Gateway.{
  Gateway, Action, take_capacity, queue_once, throttle, release_capacity, retain_job, release_job,
  claim_request, release_request, apply, without_text,
}
use model_deck.Gateway.Balance.{Held, nothing, advance, settle, request_sections-settle}
use model_deck.Gateway.Binary.Balance.{binary-settle}
use model_deck.Gateway.System.{
  Thread, System, allowed, step_thread, step_at, Event, arrives, arrives_binary, job_ends, steps,
  start_thread, happen, happen_all, idle_system, total, total_merged, merges,
}

-- The rest of a request gives back only what it holds, and, if it is to leave nothing, all of it.
abbrev pub ends_clean : Bool → Option Held → Bool
ends_clean leaves_nothing none = false
ends_clean leaves_nothing (some h) = not leaves_nothing || (h.capacity == 0)

CanSettle : Bool → List Thread → Type 0
CanSettle z [] = Unit
CanSettle z (t ∷ ts) = (ends_clean z (settle t.held t.todo) ≡ true) × CanSettle z ts

-- Not a request of proxy_binary_request that is cancelled during its health checks.
abbrev pub keeps_count : Event → Bool
keeps_count (arrives_binary e q is_json posting) = not e.cancelled_early
keeps_count _ = true

abbrev no_repeats : List String → Bool
no_repeats [] = true
no_repeats (y ∷ ys) = not (member y ys) && no_repeats ys

member-without_text :
    (x y : String) (ys : List String) → member y ys ≡ false → member y (without_text x ys) ≡ false
member-without_text x y [] h = refl
member-without_text x y (z ∷ ys) h = ground (arith, member-without_text x y ys)

without_text-no_repeats :
    (x : String) (ys : List String) → no_repeats ys ≡ true → no_repeats (without_text x ys) ≡ true
without_text-no_repeats x [] h = refl
without_text-no_repeats x (y ∷ ys) h =
    ground (arith, member-without_text x y ys, without_text-no_repeats x ys)

length-without_text_none :
    (x : String) (ys : List String) → member x ys ≡ false → length (without_text x ys) ≡ length ys
length-without_text_none x [] h = refl
length-without_text_none x (y ∷ ys) h = ground (arith, length-without_text_none x ys)

length-without_text :
    (x : String) (ys : List String)
    → no_repeats ys ≡ true
    → member x ys ≡ true
    → suc (length (without_text x ys)) ≡ length ys
length-without_text x [] d h = cc
length-without_text x (y ∷ ys) d h = elim (Bool-cases (str_eq x y)) [
  | inl e ↦
      let same : x ≡ y = (eq_iff x y).0 e in
      let gone : member x ys ≡ false =
        subst (λ z. member z ys ≡ false) (sym same) (ground (arith, d)) in
      ground (arith, e, length-without_text_none x ys gone)
  | inr e ↦ ground (arith, e, length-without_text x ys)
]

-- The shared count is `x` and the capacity that is held or retained; it is the published one.
record IsCounted (x : ℕ) (held : ℕ) (g : Gateway) : Type 0 where
  count : g.active_heavy ≡ x + (held + length g.job_claims)
  told : g.published ≡ g.active_heavy
  distinct : no_repeats g.job_claims ≡ true

act-IsCounted :
    (x l : ℕ) (a : Action) (g : Gateway) (h h' : Held)
    → advance a h ≡ some h'
    → IsCounted x (h.capacity + l) g
    → IsCounted x (h'.capacity + (l + merges a g)) (apply a g)
unfolding apply advance
act-IsCounted x l (take_capacity seen) g h h' e i = ground arith
act-IsCounted x l queue_once g h h' e i = ground arith
act-IsCounted x l throttle g h h' e i = ground arith
act-IsCounted x l release_capacity g h h' e i = ground arith
act-IsCounted x l (retain_job id) g h h' e i = ground arith
act-IsCounted x l (release_job id) g h h' e i =
    ground (arith, length-without_text id g.job_claims, without_text-no_repeats id g.job_claims)
act-IsCounted x l (claim_request id n w) g h h' e i = ground arith
act-IsCounted x l (release_request id n w) g h h' e i = ground arith

-- A request and the rest of its sections, from the state `g` with `x` in use by others.
record Goes (z : Bool) (x : ℕ) (g : Gateway) (t : Thread) : Type 0 where
  counted : IsCounted x (t.held.capacity + t.merged) g
  clean : ends_clean z (settle t.held t.todo) ≡ true

step_thread-Goes :
    (z : Bool) (x l : ℕ) (g : Gateway) (h : Held) (todo : List Action)
    → Goes z x g (record { held = h; todo = todo; merged = l })
    → Goes z x
        (step_thread (record { held = h; todo = todo; merged = l }) g).0
        (step_thread (record { held = h; todo = todo; merged = l }) g).1
unfolding step_thread settle
step_thread-Goes z x l g h [] i = i
step_thread-Goes z x l g h (a ∷ more) i = elim (Bool-cases (allowed a g)) [
  | inr b ↦ rw b i
  | inl b ↦ elim (Option-cases (advance a h)) [
    | inl e ↦ absurd (cc (rw (e, settle) at i.clean))
    | inr (k, e) ↦
        rw (b, e)
          (record {
            counted = act-IsCounted x l a g h k e i.counted;
            clean = rw (e, settle) at i.clean;
          })
  ]
]

record AllGo (z : Bool) (x : ℕ) (g : Gateway) (ts : List Thread) : Type 0 where
  counted : IsCounted x (total ts + total_merged ts) g
  clean : CanSettle z ts

step_at-AllGo :
    (z : Bool) (i x : ℕ) (g : Gateway) (ts : List Thread)
    → AllGo z x g ts
    → AllGo z x (step_at i ts g).0 (step_at i ts g).1
unfolding step_at total total_merged CanSettle
step_at-AllGo z i x g [] a = a
step_at-AllGo z zero x g (t ∷ ts) a =
    let o =
      step_thread-Goes z (x + (total ts + total_merged ts)) t.merged g t.held t.todo
        (record { counted = ground (arith, a.counted); clean = a.clean.0 }) in
    record { counted = ground (arith, o.counted); clean = (o.clean, a.clean.1) }
step_at-AllGo z (suc i) x g (t ∷ ts) a =
    let o =
      step_at-AllGo z i (x + (t.held.capacity + t.merged)) g ts
        (record { counted = ground (arith, a.counted); clean = a.clean.1 }) in
    record { counted = ground (arith, o.counted); clean = (a.clean.0, o.clean) }

start_thread-AllGo :
    (z : Bool) (todo : List Action) (s : System)
    → ends_clean z (settle nothing todo) ≡ true
    → AllGo z 0 s.gateway s.threads
    → AllGo z 0 (start_thread todo s).gateway (start_thread todo s).threads
unfolding total total_merged CanSettle
start_thread-AllGo z todo s c a = record {
  counted = ground (arith, a.counted);
  clean = (ground (arith, c), a.clean);
}

happen-AllGo :
    (z : Bool) (e : Event) (s : System)
    → (not z || keeps_count e) ≡ true
    → AllGo z 0 s.gateway s.threads
    → AllGo z 0 (happen e s).gateway (happen e s).threads
unfolding happen settle advance
happen-AllGo z (arrives e q) s k a =
    start_thread-AllGo z _ s (ground (arith, request_sections-settle e q)) a
happen-AllGo z (arrives_binary e q is_json posting) s k a =
    start_thread-AllGo z _ s (ground (arith, k, binary-settle e q is_json posting)) a
happen-AllGo z (job_ends id) s k a = start_thread-AllGo z _ s (ground arith) a
happen-AllGo z (steps i) s k a = step_at-AllGo z i 0 s.gateway s.threads a

happen_all-AllGo :
    (z : Bool) (es : List Event) (s : System)
    → (not z || all keeps_count es) ≡ true
    → AllGo z 0 s.gateway s.threads
    → AllGo z 0 (happen_all es s).gateway (happen_all es s).threads
unfolding happen_all
happen_all-AllGo z [] s k a = a
happen_all-AllGo z (e ∷ es) s k a =
    happen_all-AllGo z es (happen e s) (ground (arith, k))
      (happen-AllGo z e s (ground (arith, k)) a)

idle-AllGo : (z : Bool) → AllGo z 0 idle_system.gateway idle_system.threads
unfolding total total_merged CanSettle
idle-AllGo z = record { counted = ground arith; clean = tt }

abbrev is_done : Thread → Bool
is_done t = elim t.todo [ [] ↦ true | (a ∷ more) ↦ false ]

done_lem :
    (h : Held) (todo : List Action)
    → ends_clean true (settle h todo) ≡ true
    → (elim todo as (λ _. Bool) [ [] ↦ true | (a ∷ more) ↦ false ]) ≡ true
    → h.capacity ≡ 0
unfolding settle
done_lem h [] c d = ground arith
done_lem h (a ∷ more) c d = cc

done-total : (ts : List Thread) → CanSettle true ts → all is_done ts ≡ true → total ts ≡ 0
unfolding CanSettle total settle
done-total [] c d = refl
done-total (t ∷ ts) c d =
    ground (arith, done_lem t.held t.todo c.0 (ground (arith, d)), done-total ts c.1)

-- Whatever requests of proxy_request and proxy_binary_request arrive, and however their critical
-- sections interleave, the shared count of heavy work is the capacity that requests hold (or held when
-- they were cancelled without giving it back), plus the jobs that are retained, plus one for each time
-- that a job was retained under an identifier that was retained already; and it is what is published.
pub gateway_counts :
    (es : List Event)
    → ((happen_all es idle_system).gateway.active_heavy
        ≡ total (happen_all es idle_system).threads
          + total_merged (happen_all es idle_system).threads
          + length (happen_all es idle_system).gateway.job_claims)
      × ((happen_all es idle_system).gateway.published
          ≡ (happen_all es idle_system).gateway.active_heavy)
gateway_counts es =
    let a = happen_all-AllGo false es idle_system refl (idle-AllGo false) in
    (ground (arith, a.counted), a.counted.told)

-- When every request that has arrived is done, none of proxy_binary_request was cancelled during its
-- health checks, and no job was retained under an identifier that was retained already, only retained jobs count: no capacity is lost.
pub gateway_regains :
    (es : List Event)
    → all keeps_count es ≡ true
    → all is_done (happen_all es idle_system).threads ≡ true
    → total_merged (happen_all es idle_system).threads ≡ 0
    → (happen_all es idle_system).gateway.active_heavy
      ≡ length (happen_all es idle_system).gateway.job_claims
gateway_regains es k d n =
    let a = happen_all-AllGo true es idle_system k (idle-AllGo true) in
    ground (arith, a.counted, done-total _ a.clean d, n)
