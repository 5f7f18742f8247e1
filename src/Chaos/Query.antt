-- ===== src/Chaos/Query.antt =====
-- internal/chaos: what the services read (`IsActive`, `GetIntensity`) and the shapes of shape.go.
pub mod Bounds
use loadgen.Base.{
  ℕ, ◌-◌, ◌*◌, ◌%◌, ◌==◌, Bool, true, false, not, ◌&&◌, ◌||◌, if◌then◌else◌, none, some, ℤ, pos,
  negsuc, ltb_ℤ,
}
use loadgen.Base.Float.{Float64}
use loadgen.Chaos.Kind.{
  Kind, cpu_stress, latency_injection, db_slow, queue_backlog, ChaosType, known, unknown,
}
use loadgen.Chaos.State.{Onset, ramp, slow_leak, flap, State, World, lookup}
use loadgen.Chaos.Spec.{second}

-- Whether a signed number leaves no rest by 2, as Go's `%` has it.
abbrev even : ℤ → Bool
even (pos n) = n % 2 == 0
even (negsuc n) = n % 2 == 1

-- `time.Since`: the clock is monotonic, so that no start lies ahead of it.
abbrev pub since : ℕ → ℕ → ℤ
since now started = pos (now - started)

module _ {F : Type 0} where
  -- Whether an entry's time is up: a sticky entry and one without a duration never expire.
  unfoldable pub expired : ℕ → State F → Bool
  expired now s =
      not s.sticky && (ltb_ℤ (pos 0) s.duration && ltb_ℤ s.duration (since now s.started_at))

  unfoldable pub is_active : World F → ChaosType → Bool
  unfolding expired
  is_active w ct = elim (lookup w ct) [
    | none ↦ false
    | some s ↦ if not s.enabled then false else if expired w.now s then false else true
  ]

-- The faults that more replicas relieve.
abbrev pub is_capacity_sensitive : Kind → Bool
is_capacity_sensitive cpu_stress = true
is_capacity_sensitive latency_injection = true
is_capacity_sensitive db_slow = true
is_capacity_sensitive queue_backlog = true
is_capacity_sensitive _ = false

module _ {F : Type 0} ⦃d : Float64 F⦄ where
  -- The total of a slow leak: half an hour where the duration does not bound it.
  abbrev leak_total : State F → F
  leak_total s =
      let total = d.seconds s.duration in
      if s.sticky || d.le total (d.lit 0) then d.seconds (pos (1800 * second)) else total

  unfoldable pub shape_factor : Onset → F → State F → F
  shape_factor ramp elapsed s =
      if d.le s.ramp_seconds (d.lit 0)
      then d.lit 1000
      else d.min (d.lit 1000) (d.div elapsed s.ramp_seconds)
  shape_factor slow_leak elapsed s = d.min (d.lit 1000) (d.div elapsed (leak_total s))
  shape_factor flap elapsed s =
      let period =
        if d.le s.flap_period_seconds (d.lit 0) then d.lit 60_000 else s.flap_period_seconds in
      if even (d.trunc (d.div elapsed period)) then d.lit 1000 else d.lit 0
  shape_factor _ elapsed s = d.lit 1000

  unfoldable pub onset_factor : State F → ℕ → F
  unfolding shape_factor
  onset_factor s now = shape_factor s.onset (d.seconds (since now s.started_at)) s

  unfoldable pub capacity_for : World F → Kind → F
  capacity_for w k =
      if is_capacity_sensitive k
      then (if d.lt w.capacity (d.lit 1000) then d.lit 1000 else w.capacity)
      else d.lit 1000

  unfoldable pub set_capacity : F → World F → World F
  set_capacity replicas w = record w {
    capacity = if d.lt replicas (d.lit 1000) then d.lit 1000 else replicas;
  }

  -- The scope is folded in only strictly between 0 and 1.
  abbrev scoped : F → F → F
  scoped scope eff =
      if d.lt (d.lit 0) scope && d.lt scope (d.lit 1000) then d.mul eff scope else eff

  -- The part of `GetIntensity` behind its test, for an entry of the map.
  unfoldable pub effective : World F → Kind → F
  unfolding onset_factor capacity_for
  effective w k =
      let s = w.states k in
      d.div (scoped s.scope_percent (d.mul s.intensity (onset_factor s w.now))) (capacity_for w k)

  unfoldable pub get_intensity : World F → ChaosType → F
  unfolding is_active effective
  get_intensity w (unknown s) = d.lit 0
  get_intensity w (known k) = if is_active w (known k) then effective w k else d.lit 0
