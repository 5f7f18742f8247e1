-- ===== src/Chaos/Spec.antt =====
-- internal/chaos: how a request is brought into range (`normalizeIntensity`, `normalizeDuration`
-- and the head of `EnableSpec`).
pub mod Range
use loadgen.Base.{ℕ, ◌*◌, ◌||◌, if◌then◌else◌, ℤ, pos, ltb_ℤ, leb_ℤ}
use loadgen.Base.Float.{Float64}
use loadgen.Chaos.State.{Onset, unset, step, Spec}

-- Nanoseconds.
abbrev pub second : ℕ
second = 1_000_000_000

abbrev pub max_duration : ℤ
max_duration = pos (15 * 60 * second)

abbrev pub default_step_seconds : ℕ
default_step_seconds = 60

unfoldable pub normalize_duration : ℤ → ℤ
normalize_duration d =
    if leb_ℤ d (pos 0)
    then pos (default_step_seconds * second)
    else if ltb_ℤ max_duration d
    then max_duration
    else d

-- An empty onset is `step`.
unfoldable pub or_step : Onset → Onset
or_step unset = step
or_step o = o

module _ {F : Type 0} ⦃d : Float64 F⦄ where
  -- The two clamps that end `normalizeIntensity`.
  unfoldable pub clamp : F → F
  clamp v =
      let v₂ = if d.lt v (d.lit 0) then d.lit 0 else v in
      if d.lt (d.lit 1000) v₂ then d.lit 1000 else v₂

  -- A value above 1 is read as a percentage; then the value is clamped.
  unfoldable pub normalize_intensity : F → F
  unfolding clamp
  normalize_intensity v = clamp (if d.lt (d.lit 1000) v then d.div v (d.lit 100_000) else v)

  -- `if x <= 0 { x = default }`.
  abbrev pub positive_or : F → F → F
  positive_or x default = if d.le x (d.lit 0) then default else x

  unfoldable pub normalize_scope : F → F
  normalize_scope x = if d.le x (d.lit 0) || d.lt (d.lit 1000) x then d.lit 1000 else x

  -- The head of `EnableSpec`: everything that it does before it takes the lock.
  unfoldable pub normalize : Spec F → Spec F
  unfolding normalize_duration or_step normalize_intensity normalize_scope
  normalize s = record s {
    intensity = normalize_intensity s.intensity;
    duration = if s.sticky then s.duration else normalize_duration s.duration;
    onset = or_step s.onset;
    ramp_seconds = positive_or s.ramp_seconds (d.lit 120_000);
    flap_period_seconds = positive_or s.flap_period_seconds (d.lit 60_000);
    scope_percent = normalize_scope s.scope_percent;
  }
