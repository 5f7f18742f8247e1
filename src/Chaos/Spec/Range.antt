-- ===== src/Chaos/Spec/Range.antt =====
-- What `EnableSpec` and the handlers rely on: a normalized request is in range.
use loadgen.Base.{◌≡◌, refl, Bool, true, false, if◌then◌else◌, arith, ℤ, pos, ◌≤ℤ◌, ◌≢◌}
use loadgen.Base.Float.{Float64, IsIeee, IsNumber, IsUnit}
use loadgen.Chaos.State.{Onset, unset, Spec}
use loadgen.Chaos.Spec.{
  max_duration, normalize_duration, clamp, normalize_intensity, normalize_scope, positive_or,
  or_step, normalize,
}

-- A normalized duration is positive and at most 15 minutes, whatever was asked for.
pub normalize_duration_bounds :
    (d : ℤ) → (pos 1 ≤ℤ normalize_duration d) × (normalize_duration d ≤ℤ max_duration)
unfolding normalize_duration
normalize_duration_bounds d = ground arith

-- Normalizing twice is normalizing once.
normalize_duration_idem : (d : ℤ) → normalize_duration (normalize_duration d) ≡ normalize_duration d
unfolding normalize_duration
normalize_duration_idem d = ground arith

or_step-ne-unset : (o : Onset) → or_step o ≢ unset
unfolding or_step
or_step-ne-unset o = ground arith

bounded_if :
    (b : Bool) (d : ℤ)
    → b ≡ false
    → (pos 1 ≤ℤ (if b then d else normalize_duration d))
      × ((if b then d else normalize_duration d) ≤ℤ max_duration)
bounded_if true d e = cc
bounded_if false d e = normalize_duration_bounds d

or_step_idem : (o : Onset) → or_step (or_step o) ≡ or_step o
unfolding or_step
or_step_idem o = ground arith

if_idem :
    (b : Bool) (d : ℤ)
    → (if b
        then (if b then d else normalize_duration d)
        else normalize_duration (if b then d else normalize_duration d))
      ≡ (if b then d else normalize_duration d)
if_idem true d = refl
if_idem false d = normalize_duration_idem d

module _ {F : Type 0} ⦃d : Float64 F⦄ where
  -- Above 0.
  abbrev pub IsPositive : F → Type 0
  IsPositive x = d.lt (d.lit 0) x ≡ true

  -- No field of a request is NaN, as in all that JSON carries.
  pub record IsPlain (s : Spec F) : Type 0 where
    pub intensity : IsNumber s.intensity
    pub ramp : IsNumber s.ramp_seconds
    pub flap : IsNumber s.flap_period_seconds
    pub scope : IsNumber s.scope_percent

  -- What the rest of `EnableSpec` may rely on.
  pub record InRange (s : Spec F) : Type 0 where
    pub intensity : IsUnit s.intensity
    pub scope : IsUnit s.scope_percent
    pub ramp : IsPositive s.ramp_seconds
    pub flap : IsPositive s.flap_period_seconds
    pub onset : s.onset ≢ unset
    pub bounded : s.sticky ≡ false → (pos 1 ≤ℤ s.duration) × (s.duration ≤ℤ max_duration)

module _ {F : Type 0} ⦃d : Float64 F⦄ (laws : IsIeee F) where
  open laws use {
    number_of_le, number_of_lt, le_trans, lt-eq-not-le, le_total, lit_le, lit_lt, div_number,
  }

  lt_of_IsUnit : (v : F) → IsUnit v → (d.lt v (d.lit 0) ≡ false) × (d.lt (d.lit 1000) v ≡ false)
  lt_of_IsUnit v u = ground (
    arith,
    number_of_le (d.lit 0) v,
    number_of_le v (d.lit 1000),
    lt-eq-not-le v (d.lit 0),
    lt-eq-not-le (d.lit 1000) v,
  )

  IsUnit-zero : IsUnit (d.lit 0)
  IsUnit-zero = (lit_le 0 0 (omega arith), lit_le 0 1000 (omega arith))

  IsUnit-one : IsUnit (d.lit 1000)
  IsUnit-one = (lit_le 0 1000 (omega arith), lit_le 1000 1000 (omega arith))

  clamp-IsUnit : (v : F) → IsNumber v → IsUnit (clamp v)
  unfolding clamp
  clamp-IsUnit v n =
      ground (arith, IsUnit-zero, IsUnit-one, lt-eq-not-le v (d.lit 0), lt-eq-not-le (d.lit 1000) v)

  percent-IsNumber :
      (v : F) → IsNumber v → IsNumber (if d.lt (d.lit 1000) v then d.div v (d.lit 100_000) else v)
  percent-IsNumber v n = ground (
    arith,
    div_number v (d.lit 100_000) n (lit_lt 0 100_000 (omega arith) (omega arith))
        (lit_le 100_000 1_000_000 (omega arith)),
  )

  -- An intensity is brought between 0 and 1, whatever number it was.
  pub normalize_intensity-IsUnit : (v : F) → IsNumber v → IsUnit (normalize_intensity v)
  unfolding normalize_intensity
  normalize_intensity-IsUnit v n = clamp-IsUnit _ (percent-IsNumber v n)

  -- A value between 0 and 1 is left alone.
  pub normalize_intensity_of_IsUnit : (v : F) → IsUnit v → normalize_intensity v ≡ v
  unfolding normalize_intensity
  normalize_intensity_of_IsUnit v u = ground (arith, lt_of_IsUnit v u)

  pub normalize_scope-IsUnit : (x : F) → IsNumber x → IsUnit (normalize_scope x)
  unfolding normalize_scope
  normalize_scope-IsUnit x n = ground (
    arith,
    IsUnit-one,
    lt-eq-not-le (d.lit 1000) x,
    le_total x (d.lit 0),
    number_of_le (d.lit 0) (d.lit 0) (lit_le 0 0 (omega arith)),
    number_of_le (d.lit 1000) (d.lit 1000) (lit_le 1000 1000 (omega arith)),
  )

  positive_or-IsPositive :
      (x default : F) → IsNumber x → IsPositive default → IsPositive (positive_or x default)
  positive_or-IsPositive x default n p =
      ground (
        arith,
        lt-eq-not-le (d.lit 0) x,
        number_of_le (d.lit 0) (d.lit 0) (lit_le 0 0 (omega arith)),
      )

  -- Every request without a NaN is normalized into range.
  pub normalize-InRange : (s : Spec F) → IsPlain s → InRange (normalize s)
  unfolding normalize
  normalize-InRange s p = record {
    intensity = normalize_intensity-IsUnit s.intensity p.intensity;
    scope = normalize_scope-IsUnit s.scope_percent p.scope;
    ramp = positive_or-IsPositive _ _ p.ramp (lit_lt 0 120_000 (omega arith) (omega arith));
    flap = positive_or-IsPositive _ _ p.flap (lit_lt 0 60_000 (omega arith) (omega arith));
    onset = or_step-ne-unset s.onset;
    bounded = bounded_if s.sticky s.duration;
  }

  positive_or_idem :
      (x default : F)
      → IsNumber x
      → IsPositive default
      → positive_or (positive_or x default) default ≡ positive_or x default
  positive_or_idem x default n p = ground (
    arith,
    lt-eq-not-le (d.lit 0) x,
    lt-eq-not-le (d.lit 0) default,
    number_of_lt (d.lit 0) default,
    number_of_le (d.lit 0) (d.lit 0) (lit_le 0 0 (omega arith)),
  )

  normalize_scope_idem :
      (x : F) → IsNumber x → normalize_scope (normalize_scope x) ≡ normalize_scope x
  unfolding normalize_scope
  normalize_scope_idem x n = ground (
    arith,
    lt-eq-not-le (d.lit 1000) (d.lit 1000),
    number_of_le (d.lit 1000) (d.lit 1000) (lit_le 1000 1000 (omega arith)),
    lit_lt 0 1000 (omega arith) (omega arith),
    number_of_le (d.lit 0) (d.lit 0) (lit_le 0 0 (omega arith)),
    lt-eq-not-le (d.lit 0) (d.lit 1000),
  )
