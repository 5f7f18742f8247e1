-- ===== src/Chaos/Enable.antt =====
-- internal/chaos: `EnableSpec`, `Enable` and `Disable`, with the goroutines that they start and
-- stop. `EnableSpec` is the composition of its steps between two uses of the lock, so that other
-- requests can come in between.
pub mod Frame
pub mod Lifetime
use loadgen.Base.{
  ℕ, zero, suc, ◌+◌, ◌*◌, ◌/◌, ◌==◌, true, false, not, if◌then◌else◌, none, some, [], ◌∷◌, ◌++◌, ℤ,
  pos, negsuc, pos_part, ltb_ℤ, leb_ℤ, select,
}
use loadgen.Base.Float.{Float64}
use loadgen.Chaos.Kind.{
  Kind, cpu_stress, memory_leak, log_storm, novel_log, pod_crash, ChaosType, known, unknown,
}
use loadgen.Chaos.State.{
  step, State, Spec, Task, auto_disable, leak, storm, novel, crash, World, lookup, put,
}
use loadgen.Chaos.Spec.{normalize, second}

-- Go's division of a signed integer by a positive constant: toward zero.
abbrev pub quot : ℤ → ℕ → ℤ
quot (pos n) k = pos (n / k)
quot (negsuc n) k = elim (suc n / k) [ zero ↦ pos 0 | suc m ↦ negsuc m ]

-- A sleep of a duration ends no earlier than this; a negative one returns at once.
abbrev pub wake : ℕ → ℤ → ℕ
wake now d = now + pos_part d

-- `if n < lo { n = lo }`.
abbrev at_least : ℕ → ℤ → ℤ
at_least lo n = if ltb_ℤ n (pos lo) then pos lo else n

module _ {F : Type 0} where
  unfoldable pub stop_cpu_stress : World F → World F
  stop_cpu_stress w = elim w.cpu_cancel [
    | none ↦ record w { cpu_cancel = none }
    | some ch ↦ record w { cpu_cancel = none; burners = select (λ b. not (b.chan == ch)) w.burners }
  ]

  unfoldable pub release_memory : World F → World F
  release_memory w = record w { ballast = [] }

  abbrev spawn : Task F → World F → World F
  spawn t w = record w { tasks = w.tasks ++ (t ∷ []) }

  unfoldable pub start_pod_crash : ℤ → World F → World F
  start_pod_crash delay w = spawn (crash (wake w.now delay)) w

  -- The lookup of `timeNowFor`.
  unfoldable pub time_now_for : World F → ChaosType → ℕ
  time_now_for w ct = elim (lookup w ct) [ none ↦ 0 | some s ↦ s.started_at ]

  -- The last part of `EnableSpec`: the timer reads `StartedAt` only now, after the lock was free.
  unfoldable pub start_timer : Spec F → World F → World F
  unfolding time_now_for
  start_timer spec w =
      if spec.sticky
      then w
      else spawn (auto_disable spec.type (time_now_for w spec.type) (wake w.now spec.duration)) w

module _ {F : Type 0} ⦃d : Float64 F⦄ where
  unfoldable pub start_cpu_stress : F → World F → World F
  unfolding stop_cpu_stress
  start_cpu_stress intensity w =
      let w₁ = stop_cpu_stress w in
      let count = at_least 1 (d.trunc (d.mul (d.of_int w.num_cpu) intensity)) in
      record w₁ {
        cpu_cancel = some w₁.next_chan;
        next_chan = w₁.next_chan + 1;
        burners = w₁.burners ++ (record { chan = w₁.next_chan; count = count } ∷ []);
      }

  -- 100 chunks over the duration, `intensity * 512` MiB in all.
  unfoldable pub start_memory_leak : F → ℤ → World F → World F
  start_memory_leak intensity duration w =
      let total =
        d.trunc
          (d.mul (d.mul (d.mul intensity (d.lit 512_000)) (d.lit 1_024_000)) (d.lit 1_024_000)) in
      spawn (leak (at_least 1024 (quot total 100)) 100 (quot duration 100) w.now) w

  unfoldable pub start_log_storm : F → ℤ → World F → World F
  start_log_storm intensity duration w =
      let count = at_least 1 (d.trunc (d.mul intensity (d.lit 1_000_000))) in
      spawn (storm count (wake w.now duration)) w

  unfoldable pub start_novel_log : F → ℤ → World F → World F
  start_novel_log intensity duration w =
      let per_minute = at_least 1 (d.trunc (d.mul intensity (d.lit 30_000))) in
      let length = if leb_ℤ duration (pos 0) then pos (600 * second) else duration in
      spawn (novel per_minute (wake w.now length)) w

  -- The first part of `EnableSpec`: the entry is written under the lock; the spec is normalized.
  unfoldable pub enable_write : Spec F → Kind → World F → World F
  enable_write spec k w = record w {
    states = put w.states k (record {
      enabled = true;
      intensity = spec.intensity;
      duration = spec.duration;
      duration_s = d.seconds spec.duration;
      started_at = w.now;
      onset = spec.onset;
      ramp_seconds = spec.ramp_seconds;
      flap_period_seconds = spec.flap_period_seconds;
      sticky = spec.sticky;
      scope_percent = spec.scope_percent;
    });
  }

  -- The `switch` on the type.
  unfoldable pub start_effects : Spec F → Kind → World F → World F
  unfolding start_cpu_stress start_memory_leak start_log_storm start_novel_log start_pod_crash
  start_effects spec cpu_stress w = start_cpu_stress spec.intensity w
  start_effects spec memory_leak w = start_memory_leak spec.intensity spec.duration w
  start_effects spec log_storm w = start_log_storm spec.intensity spec.duration w
  start_effects spec novel_log w = start_novel_log spec.intensity spec.duration w
  start_effects spec pod_crash w = start_pod_crash spec.duration w
  start_effects spec _ w = w

  -- A type that is no key of the map returns early.
  unfoldable pub enable_type : Spec F → ChaosType → World F → World F
  enable_type spec (unknown s) w = w
  enable_type spec (known k) w = start_timer spec (start_effects spec k (enable_write spec k w))

  unfoldable pub enable_spec : Spec F → World F → World F
  enable_spec spec w = let spec' = normalize spec in enable_type spec' spec'.type w

  -- The step-onset path; the fields that `Enable` leaves out are zero.
  unfoldable pub enable : ChaosType → F → ℤ → World F → World F
  unfolding enable_spec
  enable ct intensity duration w =
      enable_spec
        (record {
          type = ct;
          intensity = intensity;
          duration = duration;
          onset = step;
          ramp_seconds = d.lit 0;
          flap_period_seconds = d.lit 0;
          sticky = false;
          scope_percent = d.lit 0;
        })
        w

  -- The fields that `Disable` writes; onset, shape, `Sticky` and scope keep their values.
  abbrev pub cleared : State F → State F
  cleared s = record s {
    enabled = false;
    intensity = d.lit 0;
    duration = pos 0;
    duration_s = d.lit 0;
    started_at = 0;
  }

  unfoldable pub stop_effects : Kind → World F → World F
  unfolding stop_cpu_stress release_memory
  stop_effects cpu_stress w = stop_cpu_stress w
  stop_effects memory_leak w = release_memory w
  stop_effects _ w = w

  unfoldable pub disable : ChaosType → World F → World F
  unfolding stop_effects
  disable (unknown s) w = w
  disable (known k) w = stop_effects k (record w { states = put w.states k (cleared (w.states k)) })
