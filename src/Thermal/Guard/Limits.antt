-- ===== src/Thermal/Guard/Limits.antt =====
-- The limits that the guard enforces, and what a snapshot is made of.
use model_deck.Base.{
  ◌≡◌, ◌≢◌, ◌↔◌, inl, inr, String, Bool, true, false, Option, none, some, List, [], ◌∷◌, arith,
  Option-cases, str_eq, ◌&&◌, if◌then◌else◌,
}
use mathlib.Core.List.{Memᴰ}
use model_deck.Text.{codes, casefold, same_text, one_of}
use model_deck.Float.{Float, is_finite, fle, flt, fmax, flt_trans}
use model_deck.Thermal.Guard.{
  TemperatureSnapshot, Read, returns, fails, gpu_start_limit_c, cpu_start_limit_c,
  require_start_safe, termination_reason, Seen, hotter, see_input, see_inputs, see_devices,
  SensorInput, Device, read_temperatures, snapshot_of,
}

-- A snapshot that is safe to start with, its temperatures being numbers, is one at which the guard
-- does not terminate: the two limits leave a gap.
pub start_safe-survives :
    (reader other : Read TemperatureSnapshot) (s : TemperatureSnapshot)
    → require_start_safe reader ≡ returns s
    → is_finite s.gpu_edge_celsius ≡ true
    → is_finite s.cpu_package_celsius ≡ true
    → termination_reason (some s) other ≡ returns none
unfolding require_start_safe termination_reason flt fle is_finite
start_safe-survives (returns t) other s h g c = ground arith
start_safe-survives _ other s h g c = ground arith

-- The start check lets a snapshot pass only as the reader returned it and within both limits, or
-- with a temperature that is not a number; and the guard never lets another exception through.
pub start_safe_within :
    (reader : Read TemperatureSnapshot) (s : TemperatureSnapshot)
    → (require_start_safe reader ≢ fails)
      × ((require_start_safe reader ≡ returns s) ↔ (
          (reader ≡ returns s)
          × (flt gpu_start_limit_c s.gpu_edge_celsius ≡ false)
          × (flt cpu_start_limit_c s.cpu_package_celsius ≡ false)))
unfolding require_start_safe
start_safe_within (returns t) s = ground arith
start_safe_within _ s = ground arith

-- The temperature `o` is there and is not below `v`.
abbrev pub AtLeast : Option Float → Float → Type 0
AtLeast none v = ⊥
AtLeast (some c) v = flt c v ≡ false

flt_irrefl : (a : Float) → flt a a ≡ false
unfolding flt
flt_irrefl a = ground arith

AtLeast-hotter : (o : Option Float) (x v : Float) → AtLeast o v → AtLeast (some (hotter o x)) v
unfolding fmax
AtLeast-hotter none x v h = absurd h
AtLeast-hotter (some c) x v h = ground (arith, flt_trans c x v)

hotter-AtLeast : (o : Option Float) (v : Float) → AtLeast (some (hotter o v)) v
unfolding fmax
hotter-AtLeast none v = flt_irrefl v
hotter-AtLeast (some c) v = ground (arith, flt_irrefl v)

AtLeast-if :
    (b : Bool) (x y : Seen) (v : Float)
    → AtLeast x.cpu v
    → AtLeast y.cpu v
    → AtLeast (if b then x else y).cpu v
AtLeast-if true x y v hx hy = hx
AtLeast-if false x y v hx hy = hy

AtLeast-see_input :
    (source : String) (input : SensorInput) (seen : Seen) (v : Float)
    → AtLeast seen.cpu v
    → AtLeast (see_input source input seen).cpu v
unfolding see_input
AtLeast-see_input source input seen v h =
    AtLeast-if (str_eq source "amdgpu" && same_text (casefold input.label) (codes "edge"))
      (record seen { gpu = some input.celsius }) _ v h
      (AtLeast-if (str_eq source "k10temp" && one_of (casefold input.label) ("tctl" ∷ "tdie" ∷ []))
        (record seen { cpu = some (hotter seen.cpu input.celsius) }) seen v
        (AtLeast-hotter seen.cpu input.celsius v h) h)

AtLeast-see_inputs :
    (source : String) (inputs : List (Option SensorInput)) (seen : Seen) (v : Float)
    → AtLeast seen.cpu v
    → AtLeast (see_inputs source inputs seen).cpu v
unfolding see_inputs
AtLeast-see_inputs source [] seen v h = h
AtLeast-see_inputs source (none ∷ inputs) seen v h = AtLeast-see_inputs source inputs seen v h
AtLeast-see_inputs source (some input ∷ inputs) seen v h =
    AtLeast-see_inputs source inputs (see_input source input seen) v
      (AtLeast-see_input source input seen v h)

AtLeast-see_devices :
    (devices : List Device) (seen : Seen) (v : Float)
    → AtLeast seen.cpu v
    → AtLeast (see_devices devices seen).cpu v
unfolding see_devices
AtLeast-see_devices [] seen v h = h
AtLeast-see_devices (device ∷ devices) seen v h = elim (Option-cases device.name) [
  | inl e ↦ rw (e, see_devices) (AtLeast-see_devices devices seen v h)
  | inr (source, e) ↦
      rw (e, see_devices)
        (AtLeast-see_devices devices _ v (AtLeast-see_inputs source device.inputs seen v h))
]

-- An input of the CPU package, with its value.
abbrev pub IsPackage : SensorInput → Type 0
IsPackage input = one_of (casefold input.label) ("tctl" ∷ "tdie" ∷ []) ≡ true

see_inputs-AtLeast :
    (inputs : List (Option SensorInput)) (input : SensorInput) (seen : Seen)
    → Memᴰ (some input) inputs
    → IsPackage input
    → AtLeast (see_inputs "k10temp" inputs seen).cpu input.celsius
unfolding see_inputs see_input
see_inputs-AtLeast [] input seen m p = elim m [ ]
see_inputs-AtLeast (i ∷ inputs) input seen (Memᴰ.head e) p = rw (← e) (
    AtLeast-see_inputs "k10temp" inputs _ input.celsius
      (rw p (hotter-AtLeast seen.cpu input.celsius)))
see_inputs-AtLeast (none ∷ inputs) input seen (Memᴰ.tail m) p =
    see_inputs-AtLeast inputs input seen m p
see_inputs-AtLeast (some i ∷ inputs) input seen (Memᴰ.tail m) p =
    see_inputs-AtLeast inputs input _ m p

see_devices-AtLeast :
    (devices : List Device) (device : Device) (input : SensorInput) (seen : Seen)
    → Memᴰ device devices
    → device.name ≡ some "k10temp"
    → Memᴰ (some input) device.inputs
    → IsPackage input
    → AtLeast (see_devices devices seen).cpu input.celsius
unfolding see_devices
see_devices-AtLeast [] device input seen t n m p = elim t [ ]
see_devices-AtLeast (d ∷ devices) device input seen (Memᴰ.head e) n m p = rw (← e) (
    rw (n, see_devices)
      (AtLeast-see_devices devices _ input.celsius
        (see_inputs-AtLeast device.inputs input seen m p)))
see_devices-AtLeast (d ∷ devices) device input seen (Memᴰ.tail t) n m p =
    see_devices-AtLeast devices device input _ t n m p

AtLeast-snapshot_of :
    (gpu cpu : Option Float) (s : TemperatureSnapshot) (v : Float)
    → snapshot_of gpu cpu ≡ returns s
    → AtLeast cpu v
    → flt s.cpu_package_celsius v ≡ false
unfolding snapshot_of
AtLeast-snapshot_of (some gpu) (some cpu) s v h a = ground arith
AtLeast-snapshot_of none _ s v h a = cc
AtLeast-snapshot_of (some gpu) none s v h a = cc

-- A snapshot's CPU temperature is not below any Tctl or Tdie input of any k10temp device.
pub read_temperatures-hottest :
    (devices : List Device) (device : Device) (input : SensorInput) (s : TemperatureSnapshot)
    → read_temperatures (some devices) ≡ returns s
    → Memᴰ device devices
    → device.name ≡ some "k10temp"
    → Memᴰ (some input) device.inputs
    → IsPackage input
    → flt s.cpu_package_celsius input.celsius ≡ false
unfolding read_temperatures
read_temperatures-hottest devices device input s h d n m p =
    AtLeast-snapshot_of _ _ s input.celsius h (see_devices-AtLeast devices device input _ d n m p)
