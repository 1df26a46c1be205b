-- ===== src/Thermal/Status/Reading.antt =====
-- What another process sees of the published files.
use model_deck.Base.{ℕ, ◌≡◌, Bool, true, false, Option, none, some, arith, not, if◌then◌else◌}
use model_deck.Float.{Float, ℤ, fsub}
use model_deck.Thermal.Config.{telemetry_degraded, ThermalPolicyConfig, capacity_for_state}
use model_deck.Thermal.Machine.{Machine}
use model_deck.Thermal.Status.{
  write_thermal_workload_activity, is_stale, read_thermal_workload_activity, Status, status_of,
  read_thermal_status, not_negative, active_count,
}

-- A count of active workloads that is written and then read under an enabled policy is read back,
-- a negative one as 0; it is unknown once it is stale or from the future.
pub read-write_activity :
    (c : ThermalPolicyConfig) (active : ℤ) (written now : Float)
    → c.enabled ≡ true
    → read_thermal_workload_activity c (some (write_thermal_workload_activity active written)) now
      ≡ (if is_stale c (fsub now written) then none else active_count (not_negative active))
unfolding read_thermal_workload_activity write_thermal_workload_activity
read-write_activity c active written now on = ground arith

-- A published status is read back with the machine's state and limits while it is fresh; a missing
-- or stale one reads as the degraded state, where one heavy workload, no model load and no
-- background work may run.
pub read-status_of :
    (m : Machine) (active : Option ℕ) (published now : Float)
    → m.config.enabled ≡ true
    → let s = read_thermal_status m.config (some (status_of m active published)) now in
      let seen = (if is_stale m.config (fsub now published) then telemetry_degraded else m.state) in
      (s.state ≡ seen)
      × (s.heavy_concurrency_limit ≡ (capacity_for_state m.config seen).heavy_inference_concurrency)
      × (s.model_load_concurrency_limit ≡ (capacity_for_state m.config seen).model_load_concurrency)
      × (s.background_concurrency_limit ≡ (capacity_for_state m.config seen).background_concurrency)
unfolding read_thermal_status status_of
read-status_of m active published now on = ground arith

-- A file holds a status that was published, not in the future, within the staleness limit.
abbrev fresh_at : ThermalPolicyConfig → Option Float → Float → Bool
fresh_at c none now = false
fresh_at c (some published) now = not (is_stale c (fsub now published))

abbrev pub holds_fresh : ThermalPolicyConfig → Option Status → Float → Bool
holds_fresh c none now = false
holds_fresh c (some status) now = fresh_at c status.published_monotonic now

-- Without a fresh status in the file an enabled reader sees the degraded state, with a single heavy
-- workload, no model load and no background work.
pub read_status_fails_closed :
    (c : ThermalPolicyConfig) (file : Option Status) (now : Float)
    → c.enabled ≡ true
    → holds_fresh c file now ≡ false
    → let s = read_thermal_status c file now in
      (s.state ≡ telemetry_degraded)
      × (s.heavy_concurrency_limit ≡ 1)
      × (s.model_load_concurrency_limit ≡ 0)
      × (s.background_concurrency_limit ≡ 0)
      × (s.model_loading_allowed ≡ false)
unfolding read_thermal_status capacity_for_state
read_status_fails_closed c none now on stale = ground arith
read_status_fails_closed c (some status) now on stale = ground arith
