-- ===== src/SysState/Http.antt =====
-- internal/sysstate/http.go: the endpoints that force and clear a scenario, and what they show.
-- Numbers come as strconv reads them.
use Prim.Native.String.{String}
use text.Mathlib.Text.{◌==◌ as str_eq}
use loadgen.Base.{◌*◌, if◌then◌else◌, List, Option, none, some, map, ℤ, pos, pos_part, leb_ℤ}
use loadgen.Base.Float.{Float64}
use loadgen.SysState.Incident.{
  Incident, System, Mask, second, incidents, force_scenario, clear_force,
}
use loadgen.SysState.Health.{EpochInfo, StateName, state_name, health, active_faults}

-- A query parameter: missing or empty, not a number, or a number.
pub data Param (A : Type 0) : Type 0 where
  absent malformed : Param A
  value : A → Param A

pub record ForceRequest (F : Type 0) : Type 0 where
  pub scenario : String
  pub duration : Param ℤ
  pub intensity : Param F

-- What the answers show of the state.
pub record Shown (F : Type 0) : Type 0 where
  pub health_score : F
  pub state : StateName
  pub faults : Mask

pub data ForceReply (F : Type 0) : Type 0 where
  bad_request : String → ForceReply F
  forced : ℤ → F → Shown F → ForceReply F

-- Seconds: five minutes if none are given, and `none` for a value that is refused.
unfoldable pub duration_of : Param ℤ → Option ℤ
duration_of absent = some (pos 300)
duration_of malformed = none
duration_of (value n) = if leb_ℤ n (pos 0) then none else some n

module _ {F : Type 0} ⦃d : Float64 F⦄ where
  unfoldable pub intensity_of : Param F → Option F
  intensity_of absent = some (d.lit 1000)
  intensity_of malformed = none
  intensity_of (value v) = if d.le v (d.lit 0) then none else some v

  unfoldable pub show : EpochInfo F → System F → Shown F
  unfolding health state_name active_faults
  show epoch_info s = record {
    health_score = health epoch_info s;
    state = state_name epoch_info s;
    faults = active_faults epoch_info s;
  }

  -- The last part of the handler, for parameters that are accepted.
  unfoldable pub force_accepted : EpochInfo F → String → ℤ → F → System F → ForceReply F × System F
  unfolding force_scenario show
  force_accepted epoch_info scenario seconds intensity s =
      elim (force_scenario scenario (pos_part seconds * second) intensity s) [
        | none ↦ (bad_request "unknown scenario", s)
        | some s' ↦ (forced seconds intensity (show epoch_info s'), s')
      ]

  unfoldable pub handle_force : EpochInfo F → ForceRequest F → System F → ForceReply F × System F
  unfolding duration_of intensity_of force_accepted
  handle_force epoch_info req s =
      if str_eq req.scenario ""
      then (bad_request "missing scenario query param", s)
      else elim (duration_of req.duration) [
        | none ↦ (bad_request "duration must be a positive integer (seconds)", s)
        | some seconds ↦ elim (intensity_of req.intensity) [
          | none ↦ (bad_request "intensity must be a positive number", s)
          | some intensity ↦ force_accepted epoch_info req.scenario seconds intensity s
        ]
      ]

  unfoldable pub handle_clear : EpochInfo F → System F → StateName × System F
  unfolding clear_force state_name
  handle_clear epoch_info s = let s' = clear_force s in (state_name epoch_info s', s')

-- The names of the table.
unfoldable pub handle_scenarios : (F : Type 0) ⦃d : Float64 F⦄ → List String
handle_scenarios F = map (λ (inc : Incident F). inc.name) incidents
