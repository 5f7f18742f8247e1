-- ===== src/Chaos/Query/Bounds.antt =====
-- The range of `GetIntensity`: shape, scope and capacity only ever weaken a fault.
use loadgen.Base.{if◌then◌else◌, ℕ, ◌-◌, ◌≡◌, true, false, arith, pos}
use loadgen.Base.Float.{Float64, IsIeee, IsNumber, IsUnit, ◌≼◌}
use loadgen.Chaos.Kind.{Kind, known}
use loadgen.Chaos.State.{Onset, ramp, slow_leak, flap, State, World}
use loadgen.Chaos.Query.{
  leak_total, shape_factor, onset_factor, capacity_for, scoped, effective, is_active, get_intensity,
}

module _ {F : Type 0} ⦃d : Float64 F⦄ where
  -- An entry as `EnableSpec` writes it, and as `states` starts.
  pub record IsSound (s : State F) : Type 0 where
    pub intensity : IsUnit s.intensity
    pub ramp : IsNumber s.ramp_seconds

module _ {F : Type 0} ⦃d : Float64 F⦄ (laws : IsIeee F) where
  open laws use {
    number_of_le, number_of_lt, lt-eq-not-le, le_trans, le_total, lit_le, mul_unit, div_shrink,
    seconds_div, min_unit, seconds_number, seconds_positive,
  }

  IsUnit-one : IsUnit (d.lit 1000)
  IsUnit-one = (lit_le 0 1000 (omega arith), lit_le 1000 1000 (omega arith))

  IsUnit-zero : IsUnit (d.lit 0)
  IsUnit-zero = (lit_le 0 0 (omega arith), lit_le 0 1000 (omega arith))

  positive_of_not_le : (x : F) → IsNumber x → d.le x (d.lit 0) ≡ false → d.lt (d.lit 0) x ≡ true
  positive_of_not_le x n e =
      ground (arith, lt-eq-not-le (d.lit 0) x, number_of_le (d.lit 0) (d.lit 0) IsUnit-zero.0)

  leak_total_positive : (s : State F) → d.lt (d.lit 0) (leak_total s) ≡ true
  leak_total_positive s = ground (
    arith,
    positive_of_not_le (d.seconds s.duration) (seconds_number s.duration),
    seconds_positive 1_800_000_000_000 (omega arith),
  )

  shape_factor-IsUnit :
      (o : Onset) (n : ℕ) (s : State F)
      → IsNumber s.ramp_seconds
      → IsUnit (shape_factor o (d.seconds (pos n)) s)
  unfolding shape_factor
  shape_factor-IsUnit ramp n s r = ground (
    arith,
    IsUnit-one,
    positive_of_not_le s.ramp_seconds r,
    seconds_div n s.ramp_seconds,
    min_unit (d.div (d.seconds (pos n)) s.ramp_seconds),
  )
  shape_factor-IsUnit slow_leak n s r =
      min_unit _ (seconds_div n (leak_total s) (leak_total_positive s))
  shape_factor-IsUnit flap n s r = ground (arith, IsUnit-one, IsUnit-zero)
  shape_factor-IsUnit _ n s r = IsUnit-one

  scoped-IsUnit : (scope v : F) → IsUnit v → IsUnit (scoped scope v) × (scoped scope v ≼ v)
  scoped-IsUnit scope v u = ground (
    arith,
    number_of_lt (d.lit 0) scope,
    lt-eq-not-le (d.lit 0) scope,
    lt-eq-not-le scope (d.lit 1000),
    number_of_le (d.lit 0) (d.lit 0) IsUnit-zero.0,
    number_of_le (d.lit 1000) (d.lit 1000) IsUnit-one.1,
    le_total (d.lit 0) scope,
    le_total scope (d.lit 1000),
    number_of_le (d.lit 0) v,
    mul_unit v scope u,
  )

  one-le-capacity_for :
      (w : World F) (k : Kind) → IsNumber w.capacity → d.lit 1000 ≼ capacity_for w k
  unfolding capacity_for
  one-le-capacity_for w k n = ground (
    arith,
    IsUnit-one,
    lt-eq-not-le w.capacity (d.lit 1000),
    number_of_le (d.lit 1000) (d.lit 1000),
  )

  effective_bounds :
      (w : World F) (k : Kind)
      → IsSound (w.states k)
      → IsNumber w.capacity
      → IsUnit (effective w k) × (effective w k ≼ (w.states k).intensity)
  unfolding effective
  effective_bounds w k s c =
      let st = w.states k in
      let shape = shape_factor-IsUnit st.onset (w.now - st.started_at) st s.ramp in
      let (shaped, below) = mul_unit st.intensity (onset_factor st w.now) s.intensity shape in
      let (part, below') = scoped-IsUnit st.scope_percent _ shaped in
      let (eff, below'') = div_shrink _ (capacity_for w k) part (one-le-capacity_for w k c) in
      (eff, le_trans _ _ _ below'' (le_trans _ _ _ below' below))

  -- For a sound entry, and with a capacity that is a number, `GetIntensity` is between 0 and 1 and
  -- at most the intensity of the entry; while the fault is not active it is 0.
  pub get_intensity_bounds :
      (w : World F) (k : Kind)
      → IsSound (w.states k)
      → IsNumber w.capacity
      → IsUnit (get_intensity w (known k))
        × (get_intensity w (known k) ≼ (w.states k).intensity)
        × ((if is_active w (known k) then d.lit 0 else get_intensity w (known k)) ≡ d.lit 0)
  unfolding get_intensity
  get_intensity_bounds w k s c = ground (arith, effective_bounds w k s c, IsUnit-zero, s.intensity)
