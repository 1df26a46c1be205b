-- ===== src/Gateway/System.antt =====
-- Requests of the gateway, backend/modeldeck/gateway/app.py, that run side by side: the critical
-- sections of each in their order, those of different requests in any order.
pub mod Counted
pub mod Within
use model_deck.Base.{
  ℕ, zero, suc, ◌+◌, ◌-◌, ◌≤◌, ◌==◌, ◌≡◌, refl, sym, subst, ◌∙◌, inl, inr, String, Bool, true,
  false, not, ◌&&◌, ◌||◌, Option, none, some, List, [], ◌∷◌, ◌++◌, arith, ltb, length, Bool-cases,
  Option-cases, is_none, if◌then◌else◌, str_eq,
}
use text.Mathlib.TextEquality.{eq_iff}
use model_deck.Text.{member}
use model_deck.Gateway.{
  Gateway, Action, take_capacity, queue_once, throttle, release_capacity, retain_job, release_job,
  claim_request, release_request, apply, entry_for, idle_gateway, without_text,
}
use model_deck.Gateway.Balance.{Held, nothing, advance, settle, request_sections}
use model_deck.Gateway.Proxy.{Environment, Query}
use model_deck.Gateway.Binary.{Posting, proxy_binary_request}

-- A request with what it holds, what it still does, and how often it has retained a job under an
-- identifier that was retained already: then a set does not grow.
pub record Thread : Type 0 where
  pub held : Held
  pub todo : List Action
  pub merged : ℕ

pub record System : Type 0 where
  pub gateway : Gateway
  pub threads : List Thread

-- What a critical section has read is so when it is taken: capacity is taken at the count that the
-- round compared with its limit, an identifier is claimed when it is free.
abbrev pub allowed : Action → Gateway → Bool
allowed (take_capacity seen) g = g.active_heavy == seen
allowed (claim_request id n w) g = is_none (entry_for id g.active_requests)
allowed _ g = true

abbrev pub merges : Action → Gateway → ℕ
merges (retain_job id) g = if member id g.job_claims then 1 else 0
merges _ g = 0

abbrev pub or_same : Option Held → Held → Held
or_same none h = h
or_same (some k) h = k

-- The next critical section of a request; nothing happens if it is not allowed or there is none.
unfoldable pub step_thread : Thread → Gateway → Gateway × Thread
step_thread t g = elim t.todo [
  | [] ↦ (g, t)
  | (a ∷ more) ↦
      if allowed a g
      then (
        apply a g,
        record {
          held = or_same (advance a t.held) t.held;
          todo = more;
          merged = t.merged + merges a g;
        },
      )
      else (g, t)
]

unfoldable pub step_at : ℕ → List Thread → Gateway → Gateway × List Thread
step_at i [] g = (g, [])
step_at zero (t ∷ ts) g = let (g', t') = step_thread t g in (g', t' ∷ ts)
step_at (suc i) (t ∷ ts) g = let (g', rest) = step_at i ts g in (g', t ∷ rest)

pub data Event : Type 0 where
  -- a request of proxy_request arrives
  arrives : Environment → Query → Event
  -- one of proxy_binary_request, with the flag that its body is JSON
  arrives_binary : Environment → Query → Bool → Posting → Event
  -- a task that gives back the capacity of a job: its monitor, or a request that finds it ended
  job_ends : String → Event
  -- the request at this place does its next section
  steps : ℕ → Event

abbrev pub start_thread : List Action → System → System
start_thread todo s = record s {
  threads = record { held = nothing; todo = todo; merged = 0 } ∷ s.threads;
}

unfoldable pub happen : Event → System → System
happen (arrives e q) s = start_thread (request_sections e q) s
happen (arrives_binary e q is_json posting) s =
    start_thread (proxy_binary_request e q is_json posting).0 s
happen (job_ends id) s = start_thread (release_job id ∷ []) s
happen (steps i) s =
    let (g, ts) = step_at i s.threads s.gateway in record { gateway = g; threads = ts }

unfoldable pub happen_all : List Event → System → System
happen_all [] s = s
happen_all (e ∷ more) s = happen_all more (happen e s)

abbrev pub idle_system : System
idle_system = record { gateway = idle_gateway; threads = [] }

-- The capacity that all requests hold.
unfoldable pub total : List Thread → ℕ
total [] = 0
total (t ∷ ts) = t.held.capacity + total ts

-- How often a job was retained under an identifier that was retained already.
unfoldable pub total_merged : List Thread → ℕ
total_merged [] = 0
total_merged (t ∷ ts) = t.merged + total_merged ts
