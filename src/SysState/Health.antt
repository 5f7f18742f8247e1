-- ===== src/SysState/Health.antt =====
-- internal/sysstate/sysstate.go: health, active faults and the name of the state at the present
-- time. `epoch_info` is the plan of an epoch, which the source draws from math/rand: none, or an
-- incident and the quiet time before it.
use loadgen.Base.{
  ℕ, ◌+◌, ◌-◌, ◌*◌, ◌/◌, Bool, true, false, if◌then◌else◌, [], ◌∷◌, Option, none, some, ltb, ite,
  pos,
}
use loadgen.Base.Float.{Float64}
use loadgen.SysState.Incident.{
  Fault, Fault-discrete, Mask, has_bit, Incident, System, second, unexpired, forced_incident,
  effective_peak,
}

abbrev pub epoch_duration : ℕ
epoch_duration = 30 * 60 * second

abbrev pub EpochInfo : Type 0 → Type 0
EpochInfo F = ℕ → Option (Incident F × ℕ)

-- The names of `stateNameAt`.
pub data StateName : Type 0 where
  normal degraded critical recovering : StateName

abbrev pub epoch_start : ℕ → ℕ
epoch_start t = t / epoch_duration * epoch_duration

module _ {F : Type 0} where
  -- The name of the phase for the start of an incident.
  unfoldable pub phase_at : Incident F → ℕ → ℕ → StateName
  phase_at inc start t =
      if ltb t start
      then normal
      else if ltb t (start + inc.ramp)
      then degraded
      else if ltb t (start + inc.ramp + inc.peak)
      then critical
      else if ltb t (start + inc.ramp + inc.peak + inc.recover)
      then recovering
      else normal

  unfoldable pub state_name : EpochInfo F → System F → StateName
  unfolding phase_at
  state_name epoch_info s = elim (forced_incident s) [
    | some inc ↦ critical
    | none ↦ elim s.auto [
      | false ↦ normal
      | true ↦ elim (epoch_info (s.now / epoch_duration)) [
        | none ↦ normal
        | some (inc, quiet) ↦ phase_at inc (epoch_start s.now + quiet) s.now
      ]
    ]
  ]

module _ {F : Type 0} ⦃d : Float64 F⦄ where
  -- The share of a phase that has passed.
  abbrev pub progress : ℕ → ℕ → F
  progress passed total = d.div (d.of_int (pos passed)) (d.of_int (pos total))

  unfoldable pub incident_health : Incident F → ℕ → ℕ → F
  incident_health inc start t =
      let drop = d.sub (d.lit 1000) inc.peak_health in
      if ltb t start
      then d.lit 1000
      else if ltb t (start + inc.ramp)
      then d.sub (d.lit 1000) (d.mul (progress (t - start) inc.ramp) drop)
      else if ltb t (start + inc.ramp + inc.peak)
      then inc.peak_health
      else if ltb t (start + inc.ramp + inc.peak + inc.recover)
      then d.add inc.peak_health
          (d.mul (progress (t - (start + inc.ramp + inc.peak)) inc.recover) drop)
      else d.lit 1000

  unfoldable pub health : EpochInfo F → System F → F
  unfolding incident_health effective_peak
  health epoch_info s = elim (forced_incident s) [
    | some inc ↦ effective_peak s
    | none ↦ elim s.auto [
      | false ↦ d.lit 1000
      | true ↦ elim (epoch_info (s.now / epoch_duration)) [
        | none ↦ d.lit 1000
        | some (inc, quiet) ↦ incident_health inc (epoch_start s.now + quiet) s.now
      ]
    ]
  ]

  -- Cascade faults are active after the middle of the ramp.
  abbrev pub incident_faults : Incident F → ℕ → ℕ → Mask
  incident_faults inc start t =
      if ltb (start + inc.ramp / 2) t then inc.primary ∷ inc.cascade else inc.primary ∷ []

  unfoldable pub active_faults : EpochInfo F → System F → Mask
  unfolding health
  active_faults epoch_info s = elim (forced_incident s) [
    | some inc ↦ inc.primary ∷ inc.cascade
    | none ↦
        if d.le (d.lit 950) (health epoch_info s)
        then []
        else elim (epoch_info (s.now / epoch_duration)) [
          | none ↦ []
          | some (inc, quiet) ↦ incident_faults inc (epoch_start s.now + quiet) s.now
        ]
  ]

  unfoldable pub is_active : EpochInfo F → System F → Fault → Bool
  unfolding active_faults
  is_active epoch_info s f = has_bit (active_faults epoch_info s) f

  -- The share that a fault has of an incident's health.
  abbrev pub fault_share : Incident F → F → Fault → F
  fault_share inc h f =
      if ite (Fault-discrete inc.primary f) true false
      then d.max (d.mul h (d.lit 500)) (d.lit 10)
      else if has_bit inc.cascade f
      then d.max (d.mul h (d.lit 750)) (d.lit 10)
      else d.lit 1000

  unfoldable pub fault_health : EpochInfo F → System F → Fault → F
  unfolding health
  fault_health epoch_info s f = elim (unexpired s.now s.forced) [
    | some forced ↦
        let pk = d.div forced.incident.peak_health forced.intensity in
        fault_share forced.incident (if d.lt pk (d.lit 10) then d.lit 10 else pk) f
    | none ↦
        if d.le (d.lit 950) (health epoch_info s)
        then d.lit 1000
        else elim (epoch_info (s.now / epoch_duration)) [
          | none ↦ d.lit 1000
          | some (inc, quiet) ↦ fault_share inc (health epoch_info s) f
        ]
  ]

  unfoldable pub scaled_error_rate : F → F → F → F
  scaled_error_rate base_rate max_rate h =
      let rate = d.add base_rate (d.mul (d.sub max_rate base_rate) (d.sub (d.lit 1000) h)) in
      if d.lt rate (d.lit 0) then d.lit 0 else if d.lt (d.lit 1000) rate then d.lit 1000 else rate
