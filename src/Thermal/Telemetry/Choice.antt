-- ===== src/Thermal/Telemetry/Choice.antt =====
-- Which reading is chosen.
use model_deck.Base.{
  ◌≡◌, refl, sym, ap, ◌∙◌, ◌⊎◌, inl, inr, String, true, false, none, some, List, [], ◌∷◌, ◌++◌,
  arith, Bool-cases, Option-cases, str_eq, if◌then◌else◌, All, eq_iff, ltb,
}
use mathlib.Core.List.{Memᴰ, append-nil, append_assoc}
use model_deck.Float.{Float, flt, flt_trans}
use model_deck.Thermal.Machine.{ThermalReading}
use model_deck.Thermal.Telemetry.{
  TelemetryItem, Candidate, Scan, found, gathered, identifier, priority, scan, beats, best, choose,
  select_control_reading,
}

beats_trans : (a b c : Candidate) → beats a b ≡ true → beats b c ≡ true → beats a c ≡ true
unfolding beats
beats_trans a b c h k = ground (arith, flt_trans c.celsius b.celsius a.celsius)

beats_irrefl : (a : Candidate) → beats a a ≡ false
unfolding beats flt
beats_irrefl a = ground arith

-- What does not beat the best so far does not beat the best.
best_keeps :
    (x top : Candidate) (cs : List Candidate) → beats x top ≡ false → beats x (best top cs) ≡ false
unfolding best
best_keeps x top [] h = h
best_keeps x top (c ∷ cs) h =
    best_keeps x (if beats c top then c else top) cs (ground (arith, beats_trans x c top))

-- No candidate beats the chosen one.
abbrev pub Unbeaten : Candidate → List Candidate → Type 0
Unbeaten top cs = All (λ c. beats c top ≡ false) cs

best-Unbeaten : (top : Candidate) (cs : List Candidate) → Unbeaten (best top cs) cs
unfolding best
best-Unbeaten top [] = tt
best-Unbeaten top (c ∷ cs) = (
  best_keeps c (if beats c top then c else top) cs (ground (arith, beats_irrefl c)),
  best-Unbeaten (if beats c top then c else top) cs,
)

best-Memᴰ : (top : Candidate) (cs : List Candidate) → Memᴰ (best top cs) (top ∷ cs)
unfolding best
best-Memᴰ top [] = Memᴰ.head refl
best-Memᴰ top (c ∷ cs) = elim (Bool-cases (beats c top)) [
  | inl more ↦ rw more (Memᴰ.tail (best-Memᴰ c cs))
  | inr less ↦ rw less (skip (best-Memᴰ top cs))
]
  where
    skip : {x : Candidate} → Memᴰ x (top ∷ cs) → Memᴰ x (top ∷ c ∷ cs)
    skip (Memᴰ.head e) = Memᴰ.head e
    skip (Memᴰ.tail m) = Memᴰ.tail (Memᴰ.tail m)

-- The candidates among the items: those with a value and a positive priority, in their order.
unfoldable pub candidates : List TelemetryItem → List Candidate
candidates [] = []
candidates (item ∷ items) = elim item.celsius [
  | none ↦ candidates items
  | some value ↦
      if ltb 0 (priority item)
      then (record { priority = priority item; identifier = identifier item; celsius = value })
        ∷ candidates items
      else candidates items
]

scan-none :
    (items : List TelemetryItem) (acc : List Candidate)
    → scan none items acc ≡ gathered (acc ++ candidates items)
unfolding scan candidates
scan-none [] acc = simp append-nil
scan-none (item ∷ items) acc = elim (Option-cases item.celsius) [
  | inl e ↦ rw (e, scan, candidates) (scan-none items acc)
  | inr (value, e) ↦
      rw (e, scan, candidates)
        (elim (Bool-cases (ltb 0 (priority item))) [
          | inl more ↦ rw more (scan-none items (acc ++ entry value ∷ []) ∙ simp append_assoc)
          | inr less ↦ rw less (scan-none items acc)
        ])
]
  where
    entry : Float → Candidate
    entry value = record { priority = priority item; identifier = identifier item; celsius = value }

-- The reading `r` is made of the candidate `top` at the time `now`.
abbrev pub Of : Candidate → Float → ThermalReading → Type 0
Of top now r =
    r ≡ record { sensor_id = top.identifier; celsius = top.celsius; observed_monotonic = now }

choose-Unbeaten :
    (cs : List Candidate) (now : Float) (r : ThermalReading)
    → choose (gathered cs) now ≡ some r
    → (top : Candidate) × Memᴰ top cs × Unbeaten top cs × Of top now r
unfolding choose
choose-Unbeaten [] now r h = cc
choose-Unbeaten (c ∷ cs) now r h =
    (best c cs, best-Memᴰ c cs, (best_keeps c c cs (beats_irrefl c), best-Unbeaten c cs), cc)

-- With no sensor selected yet, the reading chosen is that of a candidate which no candidate beats
-- in priority, or at equal priority in temperature.
pub select-Unbeaten :
    (items : List TelemetryItem) (now : Float) (r : ThermalReading)
    → select_control_reading items none now ≡ some r
    → (top : Candidate) × Memᴰ top (candidates items)
      × Unbeaten top (candidates items)
      × Of top now r
unfolding select_control_reading
select-Unbeaten items now r h =
    choose-Unbeaten (candidates items) now r (sym (ap (λ s. choose s now) (scan-none items [])) ∙ h)

-- What a scan for `sensor` ends with: nothing, or a reading of that sensor.
abbrev IsScanOf : String → Scan → Type 0
IsScanOf sensor s = (s ≡ gathered []) ⊎ ((value : Float) × (s ≡ found sensor value))

scan-some :
    (sensor : String) (items : List TelemetryItem) → IsScanOf sensor (scan (some sensor) items [])
unfolding scan
scan-some sensor [] = inl refl
scan-some sensor (item ∷ items) = elim (Option-cases item.celsius) [
  | inl e ↦ rw (e, scan) (scan-some sensor items)
  | inr (value, e) ↦
      rw (e, scan)
        (elim (Bool-cases (str_eq (identifier item) sensor)) [
          | inl same ↦ rw same (inr (value, ap (λ n. found n value) ((eq_iff _ sensor).0 same)))
          | inr other ↦ rw other (scan-some sensor items)
        ])
]

-- With a sensor selected, only a reading of that sensor is chosen, and it has the time of the poll.
pub select_selected :
    (items : List TelemetryItem) (sensor : String) (now : Float) (r : ThermalReading)
    → select_control_reading items (some sensor) now ≡ some r
    → (r.sensor_id ≡ sensor) × (r.observed_monotonic ≡ now)
unfolding select_control_reading choose
select_selected items sensor now r h = elim (scan-some sensor items) [
  | inl e ↦ cc (h, ap (λ s. choose s now) e)
  | inr (value, e) ↦ ground (arith, h, ap (λ s. choose s now) e)
]
