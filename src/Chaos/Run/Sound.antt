-- ===== src/Chaos/Run/Sound.antt =====
-- Every entry stays in range under any history of requests without a NaN, so that what the services
-- read is a fraction.
use loadgen.Base.{ℕ, sym, subst, Bool-cases, inl, inr, arith, All, All-append}
use loadgen.Base.Float.{Float64, IsIeee, IsNumber}
use loadgen.Chaos.Kind.{
  Kind, Kind-discrete, cpu_stress, memory_leak, log_storm, novel_log, pod_crash, ChaosType, known,
  unknown,
}
use loadgen.Chaos.State.{State, Spec, Task, enable_step, World, put}
use loadgen.Chaos.Spec.{normalize}
use loadgen.Chaos.Spec.Range.{IsPlain, InRange, normalize-InRange}
use loadgen.Chaos.Enable.{
  start_effects, start_timer, enable_write, enable_type, enable_spec, cleared, disable,
}
use loadgen.Chaos.Enable.Frame.{
  entry, put_self, put_other, states-enable_type, states-disable, enable_type-Frame, disable-Frame,
  tasks-disable, tasks-start_cpu_stress,
}
use loadgen.Chaos.Query.Bounds.{IsSound}
use loadgen.Chaos.Run.{due, Event, enables, scales, campaigns}

module _ {F : Type 0} ⦃d : Float64 F⦄ where
  abbrev pub PlainTask : Task F → Type 0
  PlainTask (enable_step c due) = IsNumber c.intensity
  PlainTask _ = Unit {0}

  -- A request that holds no NaN.
  abbrev pub PlainEvent : Event F → Type 0
  PlainEvent (enables spec) = IsPlain spec
  PlainEvent (scales n) = IsNumber n
  PlainEvent (campaigns req) = All (λ c. IsNumber c.intensity) req.steps
  PlainEvent _ = Unit {0}

  pub record SoundWorld (w : World F) : Type 0 where
    pub states : (k : Kind) → IsSound (w.states k)
    pub capacity : IsNumber w.capacity
    pub tasks : All PlainTask w.tasks

  start_effects-plain :
      (spec : Spec F) (j : Kind) (w : World F)
      → All PlainTask w.tasks
      → All PlainTask (start_effects spec j w).tasks
  unfolding start_effects
  start_effects-plain spec memory_leak w h = All-append _ w.tasks _ h (tt, tt)
  start_effects-plain spec log_storm w h = All-append _ w.tasks _ h (tt, tt)
  start_effects-plain spec novel_log w h = All-append _ w.tasks _ h (tt, tt)
  start_effects-plain spec pod_crash w h = All-append _ w.tasks _ h (tt, tt)
  start_effects-plain spec cpu_stress w h =
      subst (All PlainTask) (sym (tasks-start_cpu_stress spec.intensity w)) h
  start_effects-plain spec _ w h = h

  start_timer-plain :
      (spec : Spec F) (w : World F)
      → All PlainTask w.tasks
      → All PlainTask (start_timer spec w).tasks
  unfolding start_timer
  start_timer-plain spec w h = elim (Bool-cases spec.sticky) [
    | inl e ↦ rw (e, start_timer) h
    | inr e ↦ rw (e, start_timer) (All-append _ w.tasks _ h (tt, tt))
  ]

module _ {F : Type 0} ⦃d : Float64 F⦄ (laws : IsIeee F) where
  open laws use {number_of_le, number_of_lt, lt-eq-not-le, lit_le}

  pub zero-IsNumber : IsNumber (d.lit 0)
  zero-IsNumber = lit_le 0 0 (omega arith)

  put-IsSound :
      (f : Kind → State F) (k : Kind) (s : State F)
      → ((j : Kind) → IsSound (f j))
      → IsSound s
      → (j : Kind) → IsSound (put f k s j)
  put-IsSound f k s h hs j = elim (Kind-discrete k j) [
    | yes p ↦ subst (λ i. IsSound (put f k s i)) p (subst IsSound (sym (put_self f k s)) hs)
    | no ne ↦ subst IsSound (sym (put_other f k s j ne)) (h j)
  ]

  entry-IsSound : (spec : Spec F) (t : ℕ) → InRange spec → IsSound (entry spec t)
  entry-IsSound spec t r = record {
    intensity = r.intensity;
    ramp = (number_of_lt (d.lit 0) spec.ramp_seconds r.ramp).1;
  }

  enable_type-SoundWorld :
      (spec : Spec F) (ct : ChaosType) (w : World F)
      → InRange spec
      → SoundWorld w
      → SoundWorld (enable_type spec ct w)
  unfolding enable_type enable_write
  enable_type-SoundWorld spec (unknown s) w r h = h
  enable_type-SoundWorld spec (known k) w r h = record {
    states = λ j.
        subst IsSound (sym (states-enable_type spec k j w))
          (put-IsSound w.states k (entry spec w.now) h.states (entry-IsSound spec w.now r) j);
    capacity = subst IsNumber (sym (enable_type-Frame spec k w).1) h.capacity;
    tasks = start_timer-plain spec _ (start_effects-plain spec k _ h.tasks);
  }

  pub disable-SoundWorld : (ct : ChaosType) (w : World F) → SoundWorld w → SoundWorld (disable ct w)
  disable-SoundWorld (unknown s) w h = unfold disable in h
  disable-SoundWorld (known k) w h = record {
    states = λ j. subst IsSound (sym (states-disable k j w)) (
        put-IsSound w.states k (cleared (w.states k)) h.states
          (record {
            intensity = (zero-IsNumber, lit_le 0 1000 (omega arith));
            ramp = (h.states k).ramp;
          })
          j);
    capacity = subst IsNumber (sym (disable-Frame (known k) w).1) h.capacity;
    tasks = subst (All PlainTask) (sym (tasks-disable (known k) w)) h.tasks;
  }

  pub enable_spec-SoundWorld :
      (spec : Spec F) (w : World F) → IsPlain spec → SoundWorld w → SoundWorld (enable_spec spec w)
  unfolding enable_spec
  enable_spec-SoundWorld spec w p h =
      enable_type-SoundWorld (normalize spec) _ w (normalize-InRange laws spec p) h
