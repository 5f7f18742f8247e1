-- ===== src/Ecom/Injector.antt =====
-- internal/ecom/inject.go and dims.go: the scenarios, what the injector keeps of each, and the
-- endpoints. Times are nanoseconds of the monotonic clock.
use Prim.Native.String.{String}
use text.Mathlib.Text.{◌==◌ as str_eq}
use loadgen.Base.{
  ℕ, ◌+◌, ◌-◌, ◌*◌, ◌%◌, ltb, Bool, true, false, not, ◌&&◌, ◌||◌, if◌then◌else◌, List, [], ◌∷◌,
  Option, none, some, ite, ℤ, pos, negsuc, pos_part, ltb_ℤ, leb_ℤ, map,
}
use loadgen.Base.Float.{Float64}

pub data Scenario : Type 0 where
  conversion_drop pricing_anomaly variant_mismatch coupon_abuse traffic_low_conv : Scenario
  fulfillment_delay warehouse_sla_breach returns_spike search_failures : Scenario

unfoldable pub Scenario-discrete : Discrete Scenario
Scenario-discrete = hlevel

abbrev pub all_scenarios : List Scenario
all_scenarios =
    conversion_drop ∷ pricing_anomaly ∷ variant_mismatch ∷ coupon_abuse ∷ traffic_low_conv
    ∷ fulfillment_delay ∷ warehouse_sla_breach ∷ returns_spike ∷ search_failures ∷ []

-- The text of a constant.
abbrev pub label : Scenario → String
label conversion_drop = "conversion_drop"
label pricing_anomaly = "pricing_anomaly"
label variant_mismatch = "variant_mismatch"
label coupon_abuse = "coupon_abuse"
label traffic_low_conv = "traffic_low_conversion"
label fulfillment_delay = "fulfillment_delay"
label warehouse_sla_breach = "warehouse_sla_breach"
label returns_spike = "returns_spike"
label search_failures = "search_failures"

-- `IsScenario`, with the scenario that has the text.
unfoldable pub find_scenario : String → List Scenario → Option Scenario
find_scenario s [] = none
find_scenario s (sc ∷ rest) =
    let later = find_scenario s rest in if str_eq (label sc) s then some sc else later

unfoldable pub default_dimension : Scenario → String
default_dimension conversion_drop = "Footwear"
default_dimension variant_mismatch = "Footwear"
default_dimension returns_spike = "Footwear"
default_dimension pricing_anomaly = "nike-air-zoom"
default_dimension fulfillment_delay = "wh-east"
default_dimension warehouse_sla_breach = "wh-east"
default_dimension search_failures = "nike shoes"
default_dimension _ = ""

unfoldable pub dim_scoped : Scenario → Bool
dim_scoped coupon_abuse = false
dim_scoped traffic_low_conv = false
dim_scoped _ = true

abbrev pub second : ℕ
second = 1_000_000_000

abbrev pub max_inject_duration : ℤ
max_inject_duration = pos (30 * 60 * second)

abbrev pub default_duration : ℤ
default_duration = pos (10 * 60 * second)

pub record State (F : Type 0) : Type 0 where
  pub enabled : Bool
  pub intensity : F
  pub dimension : String
  pub started_at : ℕ
  pub duration : ℤ

-- The injector, with the clock.
pub record Injector (F : Type 0) : Type 0 where
  pub now : ℕ
  pub states : Scenario → State F

unfoldable pub clamp_duration : ℤ → ℤ
clamp_duration dur =
    let d = if leb_ℤ dur (pos 0) then default_duration else dur in
    if ltb_ℤ max_inject_duration d then max_inject_duration else d

abbrev pub put : {F : Type 0} → (Scenario → State F) → Scenario → State F → Scenario → State F
put states s st j = ite (Scenario-discrete s j) st (states j)

-- An entry of the status page, with what remains in nanoseconds.
pub record StatusEntry (F : Type 0) : Type 0 where
  pub scenario : String
  pub active : Bool
  pub intensity : F
  pub dimension : String
  pub remaining : ℕ

-- The requests to /ecom/inject: the text of the method, and the parameters as they are parsed, 0
-- where they cannot be.
pub data Method : Type 0 where
  post delete : Method
  other_method : String → Method

pub record Request (F : Type 0) : Type 0 where
  pub scenario : String
  pub intensity : F
  pub dimension : String
  pub duration_seconds : ℤ

pub data Reply (F : Type 0) : Type 0 where
  -- 400 and 405.
  unknown_scenario method_not_allowed : Reply F
  disabled : String → Reply F
  enabled : String → F → String → Reply F

-- The `int64` of so many units of 2^64, or of so many below it.
abbrev two_pow_64 : ℕ
two_pow_64 = 18_446_744_073_709_551_616

abbrev signed : ℕ → ℤ
signed m = if ltb m 9_223_372_036_854_775_808 then pos m else negsuc (two_pow_64 - m - 1)

-- `time.Duration(durSec) * time.Second`, which wraps in `int64`.
unfoldable pub seconds : ℤ → ℤ
seconds (pos n) = signed (n * second % two_pow_64)
seconds (negsuc n) = signed (two_pow_64 - 1 - (n * second + 999_999_999) % two_pow_64)

abbrev pub is_zero : ℤ → Bool
is_zero n = leb_ℤ n (pos 0) && leb_ℤ (pos 0) n

module _ {F : Type 0} ⦃d : Float64 F⦄ where
  abbrev pub zero_state : State F
  zero_state = record {
    enabled = false;
    intensity = d.lit 0;
    dimension = "";
    started_at = 0;
    duration = pos 0;
  }

  abbrev pub new_injector : ℕ → Injector F
  new_injector now = record { now = now; states = λ s. zero_state }

  unfoldable pub clamp_intensity : F → F
  clamp_intensity intensity =
      let i = if d.le intensity (d.lit 0) then d.lit 850 else intensity in
      if d.lt (d.lit 1000) i then d.lit 1000 else i

  unfoldable pub enable : Scenario → F → String → ℤ → Injector F → Injector F
  unfolding clamp_intensity clamp_duration default_dimension
  enable s intensity dim dur inj = record inj {
    states = put inj.states s (record {
      enabled = true;
      intensity = clamp_intensity intensity;
      dimension = if str_eq dim "" then default_dimension s else dim;
      started_at = inj.now;
      duration = clamp_duration dur;
    });
  }

  unfoldable pub disable : Scenario → Injector F → Injector F
  disable s inj = record inj { states = put inj.states s zero_state }

  unfoldable pub reset : Injector F → Injector F
  reset inj = record inj { states = λ s. zero_state }

  -- `time.Since(startedAt) > duration`, for a clock that does not go back.
  abbrev pub is_over : ℕ → State F → Bool
  is_over now st = ltb_ℤ st.duration (pos (now - st.started_at))

  unfoldable pub active : Scenario → Injector F → Bool × F × String
  active s inj =
      let st = inj.states s in
      if not st.enabled
      then (false, d.lit 0, "")
      else if ltb_ℤ (pos 0) st.duration && is_over inj.now st
      then (false, d.lit 0, "")
      else (true, st.intensity, st.dimension)

  -- The entry of `snapshot` for a scenario: intensity and dimension are those that are stored, also
  -- when the scenario is over.
  unfoldable pub snapshot_entry : Injector F → Scenario → StatusEntry F
  snapshot_entry inj s =
      let st = inj.states s in
      let on = st.enabled && (is_zero st.duration || not (is_over inj.now st)) in
      record {
        scenario = label s;
        active = on;
        intensity = st.intensity;
        dimension = st.dimension;
        remaining =
            if on && ltb_ℤ (pos 0) st.duration
            then pos_part st.duration - (inj.now - st.started_at)
            else 0;
      }

  unfoldable pub snapshot : Injector F → List (StatusEntry F)
  unfolding snapshot_entry
  snapshot inj = map (snapshot_entry inj) all_scenarios

  -- The handler behind the check of the scenario.
  unfoldable pub inject_known : Scenario → Method → Request F → Injector F → Injector F × Reply F
  unfolding seconds
  inject_known s delete req inj = (disable s inj, disabled req.scenario)
  inject_known s post req inj =
      let inj' = enable s req.intensity req.dimension (seconds req.duration_seconds) inj in
      let (on, i, dim) = active s inj' in (inj', enabled req.scenario i dim)
  inject_known s (other_method m) req inj = (inj, method_not_allowed)

  unfoldable pub inject_handler : Method → Request F → Injector F → Injector F × Reply F
  unfolding find_scenario inject_known
  inject_handler m req inj = elim (find_scenario req.scenario all_scenarios) [
    | none ↦ (inj, unknown_scenario)
    | some s ↦ inject_known s m req inj
  ]
