-- ===== src/SysState/Incident.antt =====
-- internal/sysstate/sysstate.go: faults, the table of incidents, and the forced scenario.
use Prim.Native.String.{String}
use text.Mathlib.Text.{◌==◌ as str_eq}
use loadgen.Base.{
  ℕ, ◌+◌, ◌*◌, Bool, true, false, if◌then◌else◌, List, [], ◌∷◌, Option, none, some, ltb, any, ite,
}
use loadgen.Base.Float.{Float64}

pub data Fault : Type 0 where
  db_contention payment_gateway auth_service network_congestion memory_pressure : Fault
  cache_stampede connection_pool retry_storm clock_skew queue_backpressure : Fault

unfoldable pub Fault-discrete : Discrete Fault
Fault-discrete = hlevel

-- A bit mask, as the list of its bits, and the test `mask & bit != 0`.
abbrev pub Mask : Type 0
Mask = List Fault

abbrev pub has_bit : Mask → Fault → Bool
has_bit mask f = any (λ g. ite (Fault-discrete g f) true false) mask

pub record Incident (F : Type 0) : Type 0 where
  pub name : String
  pub primary : Fault
  pub cascade : Mask
  -- Nanoseconds.
  pub ramp : ℕ
  pub peak : ℕ
  pub recover : ℕ
  pub peak_health : F

-- The forced scenario, with the time until which it holds.
pub record Forced (F : Type 0) : Type 0 where
  pub incident : Incident F
  pub until : ℕ
  pub intensity : F

-- The clock, the forced scenario, and whether LOADGEN_AUTO_INCIDENTS is set.
pub record System (F : Type 0) : Type 0 where
  pub now : ℕ
  pub forced : Option (Forced F)
  pub auto : Bool

abbrev pub second : ℕ
second = 1_000_000_000

module _ {F : Type 0} where
  unfoldable pub find_incident : String → List (Incident F) → Option (Incident F)
  find_incident name [] = none
  find_incident name (inc ∷ rest) =
      let later = find_incident name rest in if str_eq inc.name name then some inc else later

  -- `none` where `now` is after the end.
  abbrev pub unexpired : ℕ → Option (Forced F) → Option (Forced F)
  unexpired now none = none
  unexpired now (some f) = if ltb f.until now then none else some f

  unfoldable pub forced_incident : System F → Option (Incident F)
  forced_incident s = elim (unexpired s.now s.forced) [ none ↦ none | some f ↦ some f.incident ]

  unfoldable pub clear_force : System F → System F
  clear_force s = record s { forced = none }

module _ {F : Type 0} ⦃d : Float64 F⦄ where
  abbrev plan : String → Fault → Mask → ℕ → ℕ → ℕ → ℕ → Incident F
  plan name primary cascade ramp peak recover health = record {
    name = name;
    primary = primary;
    cascade = cascade;
    ramp = ramp * second;
    peak = peak * second;
    recover = recover * second;
    peak_health = d.lit health;
  }

  -- In seconds, and thousandths of health.
  abbrev pub incidents : List (Incident F)
  incidents =
      plan "db_contention" db_contention (network_congestion ∷ []) 180 480 420 150
      ∷ plan "payment_degradation" payment_gateway [] 120 360 480 200
      ∷ plan "auth_service_degradation" auth_service [] 90 300 300 250
      ∷ plan "network_saturation" network_congestion (payment_gateway ∷ db_contention ∷ []) 240 600
          600 100
      ∷ plan "memory_pressure" memory_pressure (network_congestion ∷ []) 300 420 720 300
      ∷ plan "cache_stampede" cache_stampede (db_contention ∷ []) 120 480 360 200
      ∷ plan "connection_pool_exhaustion" connection_pool (db_contention ∷ []) 180 600 480 180
      ∷ plan "retry_amplification" retry_storm (payment_gateway ∷ []) 180 540 360 220
      ∷ plan "clock_skew_auth" clock_skew (auth_service ∷ []) 90 360 240 280
      ∷ plan "queue_consumer_lag" queue_backpressure (memory_pressure ∷ []) 240 480 600 250
      ∷ []

  unfoldable pub clamp_intensity : F → F
  clamp_intensity x =
      let a = if d.le x (d.lit 0) then d.lit 1000 else x in
      let b = if d.lt (d.lit 10_000) a then d.lit 10_000 else a in
      if d.lt b (d.lit 100) then d.lit 100 else b

  -- The write of `ForceScenario`.
  unfoldable pub force : Incident F → ℕ → F → System F → System F
  unfolding clamp_intensity
  force inc duration intensity s = record s {
    forced = some (record {
      incident = inc;
      until = s.now + duration;
      intensity = clamp_intensity intensity;
    });
  }

  -- `none` is an unknown scenario.
  unfoldable pub force_scenario : String → ℕ → F → System F → Option (System F)
  unfolding find_incident
  force_scenario name duration intensity s = elim (find_incident name incidents) [
    | none ↦ none
    | some inc ↦ some (force inc duration intensity s)
  ]

  -- The clamps of a quotient of health.
  unfoldable pub clamp_health : F → F
  clamp_health pk =
      let a = if d.lt pk (d.lit 10) then d.lit 10 else pk in
      if d.lt (d.lit 1000) a then d.lit 1000 else a

  unfoldable pub effective_peak : System F → F
  unfolding clamp_health
  effective_peak s = elim (unexpired s.now s.forced) [
    | none ↦ d.lit 1000
    | some f ↦ clamp_health (d.div f.incident.peak_health f.intensity)
  ]
