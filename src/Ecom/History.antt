-- ===== src/Ecom/History.antt =====
-- The injector after any history of requests.
use Prim.Native.String.{String}
use loadgen.Base.{
  ℕ, ◌+◌, ◌*◌, ◌≤◌, ◌≡◌, ◌≢◌, refl, sym, subst, false, some, if◌then◌else◌, List, [], ◌∷◌, ℤ, pos,
  pos_part, leb, ◌≤ℤ◌, All, arith, Option-cases, inl, inr,
}
use loadgen.Base.Float.{Float64, IsIeee, IsNumber, IsUnit}
use loadgen.Ecom.Injector.{
  Scenario, Scenario-discrete, all_scenarios, find_scenario, max_inject_duration, clamp_duration,
  put, Method, post, delete, other_method, Request, State, Injector, zero_state, new_injector,
  clamp_intensity, enable, disable, reset, active, snapshot_entry, inject_known, inject_handler,
  second, seconds,
}

pub data Event (F : Type 0) : Type 0 where
  advance : ℕ → Event F
  injects : Method → Request F → Event F
  resets : Event F

module _ {F : Type 0} ⦃d : Float64 F⦄ where
  unfoldable pub step : Event F → Injector F → Injector F
  unfolding inject_handler reset
  step (advance n) inj = record inj { now = inj.now + n }
  step (injects m req) inj = (inject_handler m req inj).0
  step resets inj = reset inj

  unfoldable pub run : List (Event F) → Injector F → Injector F
  unfolding step
  run [] inj = inj
  run (e ∷ es) inj = run es (step e inj)

  -- No intensity of a history is NaN.
  abbrev pub PlainEvent : Event F → Type 0
  PlainEvent (injects m req) = IsNumber req.intensity
  PlainEvent _ = Unit {0}

  -- Intensity and duration are in range, and the start does not lie ahead.
  pub record IsSound (now : ℕ) (st : State F) : Type 0 where
    pub intensity : IsUnit st.intensity
    pub lower : pos 0 ≤ℤ st.duration
    pub upper : st.duration ≤ℤ max_inject_duration
    pub past : st.started_at ≤ now

  abbrev pub AllSound : Injector F → Type 0
  AllSound inj = (s : Scenario) → IsSound inj.now (inj.states s)

  -- What is read of a scenario: the metrics see a fraction, 0 where it is not active; the status page
  -- shows the same flag, and, while the scenario is active, the same intensity and dimension; once
  -- it is over, the page still shows the stored ones; and no more than half an hour remains.
  pub record IsConsistent (inj : Injector F) (s : Scenario) : Type 0 where
    pub fraction : IsUnit (active s inj).1
    pub idle : (if (active s inj).0 then d.lit 0 else (active s inj).1) ≡ d.lit 0
    pub flag : (snapshot_entry inj s).active ≡ (active s inj).0
    pub shown_intensity :
        (snapshot_entry inj s).intensity
        ≡ (if (active s inj).0 then (active s inj).1 else (inj.states s).intensity)
    pub shown_dimension :
        (snapshot_entry inj s).dimension
        ≡ (if (active s inj).0 then (active s inj).2 else (inj.states s).dimension)
    pub shown_fraction : IsUnit (snapshot_entry inj s).intensity
    pub remaining : (snapshot_entry inj s).remaining ≤ 1800 * second

clamp_duration_bounds :
    (n : ℤ) → (pos 1 ≤ℤ clamp_duration n) × (clamp_duration n ≤ℤ max_inject_duration)
unfolding clamp_duration
clamp_duration_bounds n = ground arith

module _ {F : Type 0} ⦃d : Float64 F⦄ where
  put_self : (f : Scenario → State F) (s : Scenario) (st : State F) → put f s st s ≡ st
  put_self f s st = ground arith

  put_other : (f : Scenario → State F) (s j : Scenario) (st : State F) → s ≢ j → put f s st j ≡ f j
  put_other f s j st ne = ground arith

  enable-now :
      (s : Scenario) (i : F) (dim : String) (dur : ℤ) (inj : Injector F)
      → (enable s i dim dur inj).now ≡ inj.now
  unfolding enable
  enable-now s i dim dur inj = refl

  enabled-active :
      (s j : Scenario) (i : F) (dim : String) (dur : ℤ) (inj : Injector F) (n : ℕ)
      → s ≢ j
      → ((active s (record (enable s i dim dur inj) { now = inj.now + n })).0
          ≡ leb n (pos_part (clamp_duration dur)))
        × ((enable s i dim dur inj).states j ≡ inj.states j)
  unfolding active enable
  enabled-active s j i dim dur inj n ne = ground (arith, clamp_duration_bounds dur)

  -- After a POST for a known scenario, if nothing else happens, it is active for exactly the clamped
  -- duration of its seconds, as int64 has them in nanoseconds, and the other scenarios keep their
  -- state.
  pub enable-active :
      (s j : Scenario) (req : Request F) (inj : Injector F) (n : ℕ)
      → find_scenario req.scenario all_scenarios ≡ some s
      → s ≢ j
      → let posted = (inject_handler post req inj).0 in
        ((active s (record posted { now = posted.now + n })).0
          ≡ leb n (pos_part (clamp_duration (seconds req.duration_seconds))))
        × (posted.states j ≡ inj.states j)
        × (posted.now ≡ inj.now)
  unfolding inject_handler inject_known enable
  enable-active s j req inj n e ne =
      let dur = seconds req.duration_seconds in
      let on = enabled-active s j req.intensity req.dimension dur inj n ne in
      rw (e, inject_handler) (on.0, on.1, enable-now s req.intensity req.dimension dur inj)

  -- A reset ends every scenario.
  pub reset-active : (s : Scenario) (inj : Injector F) → active s (reset inj) ≡ (false, d.lit 0, "")
  unfolding active reset
  reset-active s inj = refl

module _ {F : Type 0} ⦃d : Float64 F⦄ (laws : IsIeee F) where
  open laws use {number_of_le, lt-eq-not-le, le_total, lit_le}

  IsUnit-zero : IsUnit (d.lit 0)
  IsUnit-zero = (lit_le 0 0 (omega arith), lit_le 0 1000 (omega arith))

  clamp_intensity-IsUnit : (x : F) → IsNumber x → IsUnit (clamp_intensity x)
  unfolding clamp_intensity
  clamp_intensity-IsUnit x n = ground (
    arith,
    IsUnit-zero,
    le_total x (d.lit 0),
    lt-eq-not-le (d.lit 1000) x,
    lt-eq-not-le (d.lit 1000) (d.lit 850),
    number_of_le (d.lit 0) (d.lit 0),
    number_of_le (d.lit 1000) (d.lit 1000),
    lit_le 1000 1000 (omega arith),
    lit_le 0 1000 (omega arith),
    lit_le 0 850 (omega arith),
    lit_le 850 1000 (omega arith),
    lit_le 850 850 (omega arith),
  )

  zero-IsSound : (now : ℕ) → IsSound now (zero_state {F = F})
  zero-IsSound now = record {
    intensity = IsUnit-zero;
    lower = omega arith;
    upper = omega arith;
    past = omega arith;
  }

  put-AllSound :
      (inj : Injector F) (s : Scenario) (st : State F)
      → AllSound inj
      → IsSound inj.now st
      → AllSound (record inj { states = put inj.states s st })
  put-AllSound inj s st h hs j = elim (Scenario-discrete s j) [
    | yes p ↦
        subst (λ k. IsSound inj.now (put inj.states s st k)) p
          (subst (IsSound inj.now) (sym (put_self inj.states s st)) hs)
    | no ne ↦ subst (IsSound inj.now) (sym (put_other inj.states s j st ne)) (h j)
  ]

  enable-AllSound :
      (s : Scenario) (i : F) (dim : String) (dur : ℤ) (inj : Injector F)
      → IsNumber i
      → AllSound inj
      → AllSound (enable s i dim dur inj)
  unfolding enable
  enable-AllSound s i dim dur inj n h = put-AllSound inj s _ h (record {
    intensity = clamp_intensity-IsUnit i n;
    lower = ground (arith, clamp_duration_bounds dur);
    upper = (clamp_duration_bounds dur).1;
    past = omega arith;
  })

  inject_known-AllSound :
      (s : Scenario) (m : Method) (req : Request F) (inj : Injector F)
      → IsNumber req.intensity
      → AllSound inj
      → AllSound (inject_known s m req inj).0
  unfolding inject_known disable
  inject_known-AllSound s post req inj n h = enable-AllSound s _ _ _ inj n h
  inject_known-AllSound s delete req inj n h = put-AllSound inj s _ h (zero-IsSound inj.now)
  inject_known-AllSound s (other_method m) req inj n h = h

  step-AllSound :
      (e : Event F) (inj : Injector F) → PlainEvent e → AllSound inj → AllSound (step e inj)
  unfolding step inject_handler reset
  step-AllSound (advance n) inj p h = λ s. record {
    intensity = (h s).intensity;
    lower = (h s).lower;
    upper = (h s).upper;
    past = omega (arith, (h s).past);
  }
  step-AllSound (injects m req) inj p h =
      elim (Option-cases (find_scenario req.scenario all_scenarios)) [
        | inl e ↦ rw (e, step) h
        | inr (s, e) ↦ rw (e, step) (inject_known-AllSound s m req inj p h)
      ]
  step-AllSound resets inj p h = λ s. zero-IsSound inj.now

  run-AllSound :
      (es : List (Event F)) (inj : Injector F)
      → All PlainEvent es
      → AllSound inj
      → AllSound (run es inj)
  unfolding run
  run-AllSound [] inj p h = h
  run-AllSound (e ∷ es) inj p h = run-AllSound es (step e inj) p.1 (step-AllSound e inj p.0 h)

  IsConsistent-of_IsSound :
      (inj : Injector F) (s : Scenario) → IsSound inj.now (inj.states s) → IsConsistent inj s
  unfolding active snapshot_entry
  IsConsistent-of_IsSound inj s h = record {
    fraction = ground (arith, h.intensity, IsUnit-zero);
    idle = ground arith;
    flag = ground (arith, h.lower);
    shown_intensity = ground (arith, h.lower);
    shown_dimension = ground (arith, h.lower);
    shown_fraction = h.intensity;
    remaining = ground (arith, h.upper);
  }

  -- After any history of requests without a NaN: the intensity that the metrics see of a scenario is
  -- a fraction, 0 where the scenario is not active; the status page shows the same flag, a fraction,
  -- and at most half an hour that remains; and its intensity and dimension are those that the metrics
  -- see while the scenario is active, and the stored ones when it is over.
  pub run-IsConsistent :
      (es : List (Event F)) (start : ℕ) (s : Scenario)
      → All PlainEvent es
      → IsConsistent (run es (new_injector {F = F} start)) s
  run-IsConsistent es start s p =
      let inj = run es (new_injector {F = F} start) in
      IsConsistent-of_IsSound inj s
        (run-AllSound es (new_injector {F = F} start) p (λ j. zero-IsSound start) s)
