-- ===== src/SysState/Phases.antt =====
-- How health, faults and the name of the state go together.
use Prim.Native.String.{String}
use loadgen.Base.{
  ltb, Bool-cases, inl, inr, ℕ, ◌+◌, ◌/◌, ◌≤◌, ◌<◌, ◌≡◌, ◌≢◌, refl, true, false, if◌then◌else◌, ◌⊎◌,
  [], ◌∷◌, none, some, arith,
}
use loadgen.Base.Float.{Float64, IsIeee}
use loadgen.SysState.Incident.{
  Fault, Mask, has_bit, Incident, System, incidents, forced_incident, force_scenario, find_incident,
  force, effective_peak, clear_force,
}
use loadgen.SysState.Health.{
  epoch_duration, EpochInfo, StateName, normal, degraded, critical, recovering, epoch_start,
  phase_at, state_name, incident_health, incident_faults, health, active_faults, is_active,
  fault_health,
}

module _ {F : Type 0} ⦃d : Float64 F⦄ where
  abbrev pub later : ℕ → System F → System F
  later n s = record s { now = s.now + n }

  -- What a forced scenario shows.
  pub record Shows (epoch_info : EpochInfo F) (s : System F) (inc : Incident F) : Type 0 where
    pub name : state_name epoch_info s ≡ critical
    pub faults : active_faults epoch_info s ≡ inc.primary ∷ inc.cascade
    pub health : health epoch_info s ≡ effective_peak s

  forced_gone :
      (inc : Incident F) (duration n : ℕ) (intensity : F) (s : System F)
      → duration < n
      → forced_incident (later n (force inc duration intensity s)) ≡ none
  unfolding force forced_incident
  forced_gone inc duration n intensity s h = ground arith

  forced_clear : (s : System F) → forced_incident (clear_force s) ≡ none
  unfolding clear_force forced_incident
  forced_clear s = refl

  shown_cleared :
      (epoch_info : EpochInfo F) (s : System F)
      → forced_incident s ≡ none
      → (state_name epoch_info s ≡ state_name epoch_info (clear_force s))
        × (health epoch_info s ≡ health epoch_info (clear_force s))
        × (active_faults epoch_info s ≡ active_faults epoch_info (clear_force s))
  unfolding state_name health active_faults clear_force forced_incident
  shown_cleared epoch_info s e = (ground (arith, e), ground (arith, e), ground (arith, e))

  forced_until :
      (inc : Incident F) (duration n : ℕ) (intensity : F) (s : System F)
      → n ≤ duration
      → forced_incident (later n (force inc duration intensity s)) ≡ some inc
  unfolding force forced_incident
  forced_until inc duration n intensity s h = ground arith

  Shows-forced :
      (epoch_info : EpochInfo F) (s : System F) (inc : Incident F)
      → forced_incident s ≡ some inc
      → Shows epoch_info s inc
  unfolding state_name active_faults health
  Shows-forced epoch_info s inc e = record {
    name = rw (e, state_name) refl;
    faults = rw (e, active_faults) refl;
    health = rw (e, health) refl;
  }

  -- Forcing a known scenario succeeds, and it shows at once and until its time is over, whatever
  -- the epoch would show: the state is critical, the primary and the cascade faults are active, and
  -- the health is the effective peak.
  pub force_scenario-Shows :
      (epoch_info : EpochInfo F) (name : String) (duration n : ℕ) (intensity : F) (s : System F)
      (inc : Incident F)
      → find_incident name incidents ≡ some inc
      → n ≤ duration
      → (force_scenario name duration intensity s ≡ some (force inc duration intensity s))
        × Shows epoch_info (later n (force inc duration intensity s)) inc
  unfolding force_scenario
  force_scenario-Shows epoch_info name duration n intensity s inc e h = (
    rw (e, force_scenario) refl,
    Shows-forced epoch_info _ inc (forced_until inc duration n intensity s h),
  )

  -- When its time is over, a forced scenario shows nothing: state, health and faults are those of
  -- the system without it.
  pub force-expired :
      (epoch_info : EpochInfo F) (inc : Incident F) (duration n : ℕ) (intensity : F) (s : System F)
      → duration < n
      → let gone = later n (force inc duration intensity s) in
        (state_name epoch_info gone ≡ state_name epoch_info (clear_force gone))
        × (health epoch_info gone ≡ health epoch_info (clear_force gone))
        × (active_faults epoch_info gone ≡ active_faults epoch_info (clear_force gone))
  force-expired epoch_info inc duration n intensity s h =
      shown_cleared epoch_info (later n (force inc duration intensity s))
        (forced_gone inc duration n intensity s h)

  -- Without a forced scenario, from the start of the epoch to the middle of the ramp of its incident,
  -- and while the health is not at least 0.95: for a cascade fault that is not the primary one,
  -- activity and health disagree. It is not active, and yet its health is lowered as that of a
  -- cascade fault.
  pub cascade-early :
      (epoch_info : EpochInfo F) (s : System F) (inc : Incident F) (quiet : ℕ) (f : Fault)
      → s.forced ≡ none
      → epoch_info (s.now / epoch_duration) ≡ some (inc, quiet)
      → s.now ≤ epoch_start s.now + quiet + inc.ramp / 2
      → d.le (d.lit 950) (health epoch_info s) ≡ false
      → inc.primary ≢ f
      → has_bit inc.cascade f ≡ true
      → (is_active epoch_info s f ≡ false)
        × (fault_health epoch_info s f ≡ d.max (d.mul (health epoch_info s) (d.lit 750)) (d.lit 10))
  unfolding is_active active_faults fault_health forced_incident
  cascade-early epoch_info s inc quiet f none_forced e early low ne cas =
      (ground arith, ground arith)

module _ {F : Type 0} ⦃d : Float64 F⦄ where
  -- What goes together in a phase. Where the health is at least 0.95, no fault is shown.
  abbrev pub Agrees : Incident F → StateName → F → Mask → Type 0
  Agrees inc normal h faults = (h ≡ d.lit 1000) × (faults ≡ [])
  Agrees inc critical h faults =
      (h ≡ inc.peak_health)
      × (faults ≡ (if d.le (d.lit 950) inc.peak_health then [] else inc.primary ∷ inc.cascade))
  Agrees inc recovering h faults =
      faults ≡ (if d.le (d.lit 950) h then [] else inc.primary ∷ inc.cascade)
  Agrees inc degraded h faults =
      ((d.le (d.lit 950) h ≡ true) × (faults ≡ []))
      ⊎ ((d.le (d.lit 950) h ≡ false)
          × ((faults ≡ inc.primary ∷ []) ⊎ (faults ≡ inc.primary ∷ inc.cascade)))

  agrees_lem :
      (inc : Incident F) (start t : ℕ)
      → IsIeee F
      → 0 < inc.ramp
      → Agrees inc (phase_at inc start t) (incident_health inc start t) (
          if d.le (d.lit 950) (incident_health inc start t)
          then []
          else incident_faults inc start t)
  unfolding phase_at incident_health
  agrees_lem inc start t laws r = elim (Bool-cases (ltb t start)) [
    | inl q ↦ rw q (ground (arith, laws.lit_le 950 1000 (omega arith)))
    | inr q ↦ rw q (elim (Bool-cases (ltb t (start + inc.ramp))) [
      | inl q₁ ↦ rw q₁ (ground arith)
      | inr q₁ ↦ rw q₁ (elim (Bool-cases (ltb t (start + inc.ramp + inc.peak))) [
        | inl q₂ ↦ rw q₂ (refl, ground arith)
        | inr q₂ ↦ rw q₂ (elim (Bool-cases (ltb t (start + inc.ramp + inc.peak + inc.recover))) [
          | inl q₃ ↦ rw q₃ (ground arith)
          | inr q₃ ↦ rw q₃ (ground (arith, laws.lit_le 950 1000 (omega arith)))
        ])
      ])
    ])
  ]

  -- In an epoch with an incident whose ramp takes time, and without a forced scenario, the name of the
  -- state, the health and the active faults agree: in the normal state the health is full and no
  -- fault is active; in the critical one the health is the incident's peak; in the critical and in the
  -- recovering one the primary and the cascade faults are active, and in the degraded one the
  -- primary fault with or without the cascade, but in each none at a health of at least 0.95.
  pub state_name-health :
      (epoch_info : EpochInfo F) (s : System F) (inc : Incident F) (quiet : ℕ)
      → IsIeee F
      → s.forced ≡ none
      → s.auto ≡ true
      → epoch_info (s.now / epoch_duration) ≡ some (inc, quiet)
      → 0 < inc.ramp
      → Agrees inc (state_name epoch_info s) (health epoch_info s) (active_faults epoch_info s)
  unfolding state_name health active_faults forced_incident
  state_name-health epoch_info s inc quiet laws f a e r =
      rw (f, state_name)
        (rw (a, state_name)
          (rw (e, state_name) (agrees_lem inc (epoch_start s.now + quiet) s.now laws r)))

-- An incident whose quiet time and phases fill the epoch does not come back to normal: from its
-- start to the end of the epoch the state is never normal.
pub phase_at-ne-normal :
    {F : Type 0} (inc : Incident F) (quiet t : ℕ)
    → epoch_duration ≤ quiet + inc.ramp + inc.peak + inc.recover
    → epoch_start t + quiet ≤ t
    → phase_at inc (epoch_start t + quiet) t ≢ normal
unfolding phase_at
phase_at-ne-normal inc quiet t fills begun = ground arith
