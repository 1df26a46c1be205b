-- ===== src/Thermal/Telemetry.antt =====
-- select_control_reading of backend/modeldeck/thermal.py.
pub mod Choice
use Prim.Native.String
use model_deck.Base.{
  ℕ, String, Bool, true, false, ◌&&◌, ◌||◌, Option, none, some, List, [], ◌∷◌, ◌++◌, ltb, ◌==◌,
  if◌then◌else◌, str_eq,
}
use model_deck.Float.{Float, flt}
use model_deck.Text.{codes, strip, casefold, same_text, contains, one_of}
use model_deck.Thermal.Machine.{ThermalReading}

-- One mapping of the telemetry. `celsius` is none where the entry is missing or `float` refuses it.
pub record TelemetryItem : Type 0 where
  pub source : Option String
  pub label : Option String
  pub sensor_id : Option String
  pub celsius : Option Float

-- `str(value or default)`: an empty text is false
abbrev text_or : Option String → String → String
text_or none d = d
text_or (some s) d = if str_eq s "" then d else s

-- what the loop computes of an item
source_of : TelemetryItem → String
source_of item = strip (text_or item.source "")

label_of : TelemetryItem → String
label_of item = strip (text_or item.label (source_of item))

unfoldable pub identifier : TelemetryItem → String
unfolding source_of label_of
identifier item =
    text_or item.sensor_id (String.◌++◌ (source_of item) (String.◌++◌ ":" (label_of item)))

unfoldable pub priority : TelemetryItem → ℕ
unfolding source_of label_of same_text one_of contains
priority item =
    let source = casefold (source_of item) in
    let label = casefold (label_of item) in
    if same_text source (codes "k10temp") && one_of label ("tctl" ∷ "tdie" ∷ [])
    then 3
    else if same_text source (codes "amdgpu") && same_text label (codes "edge")
    then 2
    else if contains source (codes "amd")
    then 1
    else 0

pub record Candidate : Type 0 where
  pub priority : ℕ
  pub identifier : String
  pub celsius : Float

-- what the loop returns or leaves: a reading of the wanted sensor, or the candidates
pub data Scan : Type 0 where
  found : String → Float → Scan
  gathered : List Candidate → Scan

abbrev wanted : Option String → String → Bool
wanted none name = false
wanted (some sensor) name = str_eq name sensor

abbrev offers : Option String → ℕ → Bool
offers none p = ltb 0 p
offers (some sensor) p = false

-- the body of the loop for an item with a value; `rest` is the loop over the other items
visit : Option String → TelemetryItem → Float → List Candidate → (List Candidate → Scan) → Scan
visit sensor item value acc rest =
    if wanted sensor (identifier item)
    then found (identifier item) value
    else rest (
        if offers sensor (priority item)
        then acc
          ++ record { priority = priority item; identifier = identifier item; celsius = value } ∷ []
        else acc)

-- the loop
unfoldable pub scan : Option String → List TelemetryItem → List Candidate → Scan
unfolding visit
scan sensor [] acc = gathered acc
scan sensor (item ∷ items) acc = elim item.celsius [
  | none ↦ scan sensor items acc
  | some value ↦ visit sensor item value acc (scan sensor items)
]

-- the order of the keys `(priority, celsius)`
unfoldable pub beats : Candidate → Candidate → Bool
beats a b = ltb b.priority a.priority || (a.priority == b.priority && flt b.celsius a.celsius)

-- `max(candidates, key=...)`: the first of the greatest
unfoldable pub best : Candidate → List Candidate → Candidate
best top [] = top
best top (c ∷ cs) = best (if beats c top then c else top) cs

choose : Scan → Float → Option ThermalReading
choose (found name value) now =
    some (record { sensor_id = name; celsius = value; observed_monotonic = now })
choose (gathered []) now = none
choose (gathered (c ∷ cs)) now =
    let top = best c cs in
    some (record { sensor_id = top.identifier; celsius = top.celsius; observed_monotonic = now })

unfoldable pub select_control_reading :
    List TelemetryItem → Option String → Float → Option ThermalReading
unfolding choose
select_control_reading readings sensor_id now = choose (scan sensor_id readings []) now
