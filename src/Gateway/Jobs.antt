-- ===== src/Gateway/Jobs.antt =====
-- monitor_thermal_job of backend/modeldeck/gateway/app.py: the task that asks a worker for the state of
-- a job until it has ended, and then gives its capacity back.
use model_deck.Base.{
  ℕ, ◌+◌, ◌≡◌, refl, sym, subst, inl, inr, String, Bool, true, false, not, ◌||◌, Option, none, some,
  List, [], ◌∷◌, ◌-◌, eq_iff, arith, any, leb, Bool-cases, if◌then◌else◌, str_eq,
}
use model_deck.Text.{member}
use model_deck.Gateway.{Gateway, Action, release_job, apply, apply_all, without_text}

-- The answer to a poll: none (or no JSON), or its status 404 and the `state` of its payload.
pub data JobAnswer : Type 0 where
  no_answer : JobAnswer
  job_answer : Bool → Option String → JobAnswer

-- A round of the loop: its beginning before the deadline, and the answer.
pub record Poll : Type 0 where
  pub in_time : Bool
  pub answer : JobAnswer

abbrev pub is_terminal : Option String → Bool
is_terminal none = false
is_terminal (some s) = str_eq s "complete" || str_eq s "cancelled" || str_eq s "failed"

-- The loop, with `unavailable_count`: none while it goes on, and else what `finally` does.
unfoldable pub monitor_thermal_job : String → ℕ → List Poll → Option (List Action)
monitor_thermal_job id unavailable_count [] = none
monitor_thermal_job id unavailable_count (p ∷ ps) =
    let after_failure = monitor_thermal_job id (unavailable_count + 1) ps in
    let after_answer = monitor_thermal_job id 0 ps in
    if not p.in_time then some (release_job id ∷ []) else elim p.answer [
      | no_answer ↦
          if leb 3 (unavailable_count + 1) then some (release_job id ∷ []) else after_failure
      | job_answer not_found state ↦
          if not_found || is_terminal state then some (release_job id ∷ []) else after_answer
    ]

-- A poll that ends the loop whatever came before.
abbrev pub final_states : List String
final_states = "failed" ∷ "complete" ∷ "cancelled" ∷ []

abbrev pub has_ended : Option String → Bool
has_ended none = false
has_ended (some s) = member s final_states

abbrev pub ends_monitor : Poll → Bool
ends_monitor p = not p.in_time || (elim p.answer [
  | no_answer ↦ false
  | job_answer not_found state ↦ not_found || has_ended state
])

state_of : JobAnswer → Option String
state_of no_answer = none
state_of (job_answer not_found state) = state

is_terminal-has_ended : (state : Option String) → is_terminal state ≡ has_ended state
is_terminal-has_ended none = refl
is_terminal-has_ended (some s) = ground (
  arith,
  eq_iff s "failed",
  eq_iff s "complete",
  eq_iff s "cancelled",
  eq_iff "failed" s,
  eq_iff "complete" s,
  eq_iff "cancelled" s,
)

monitor-ends :
    (id : String) (n : ℕ) (ps : List Poll)
    → any ends_monitor ps ≡ true
    → monitor_thermal_job id n ps ≡ some (release_job id ∷ [])
unfolding monitor_thermal_job state_of
monitor-ends id n [] h = cc
monitor-ends id n (p ∷ ps) h = ground (
  arith,
  is_terminal-has_ended (state_of p.answer),
  monitor-ends id (n + 1) ps,
  monitor-ends id 0 ps,
)

member-without_text_same : (x : String) (ys : List String) → member x (without_text x ys) ≡ false
member-without_text_same x [] = refl
member-without_text_same x (y ∷ ys) = ground (arith, member-without_text_same x ys)

abbrev pub sections : Option (List Action) → List Action
sections none = []
sections (some done) = done

-- The job is not retained, and its capacity is given back once if it was.
abbrev pub Released : String → Gateway → Gateway → Type 0
Released id g after =
    (member id after.job_claims ≡ false)
    × (after.active_heavy ≡ (if member id g.job_claims then g.active_heavy - 1 else g.active_heavy))
    × (after.published ≡ (if member id g.job_claims then g.active_heavy - 1 else g.published))

release-Released : (id : String) (g : Gateway) → Released id g (apply (release_job id) g)
unfolding apply
release-Released id g = elim (Bool-cases (member id g.job_claims)) [
  | inl e ↦ ground (arith, e, member-without_text_same id g.job_claims)
  | inr e ↦ ground (arith, e)
]

-- Once a poll finds that the job is complete, cancelled, failed or unknown, or comes after the deadline,
-- the monitor has ended, whatever the polls before were. If the job was retained then, the shared count
-- of heavy work is one less (and not below zero), which is also the count published, and the job is no
-- longer retained; if it was not, both counts are as they were.
pub monitor-releases :
    (id : String) (ps : List Poll) (g : Gateway)
    → any ends_monitor ps ≡ true
    → Released id g (apply_all (sections (monitor_thermal_job id 0 ps)) g)
unfolding apply_all
monitor-releases id ps g h =
    subst (λ r. Released id g (apply_all (sections r) g)) (sym (monitor-ends id 0 ps h))
      (release-Released id g)
