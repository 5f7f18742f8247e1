-- ===== src/Chaos/Enable/Frame.antt =====
-- What `EnableSpec` and `Disable` write, entry by entry, and what they leave alone.
use loadgen.Base.{ℕ, ◌≡◌, refl, ◌≢◌, true, arith}
use loadgen.Base.Float.{Float64}
use loadgen.Chaos.Kind.{Kind, ChaosType, known, unknown}
use loadgen.Chaos.State.{State, Spec, World, put}
use loadgen.Chaos.Enable.{
  stop_cpu_stress, start_timer, start_effects, enable_write, enable_type, cleared, stop_effects,
  disable, start_cpu_stress,
}

module _ {F : Type 0} where
  pub put_self : (f : Kind → State F) (k : Kind) (s : State F) → put f k s k ≡ s
  put_self f k s = ground arith

  pub put_other :
      (f : Kind → State F) (k : Kind) (s : State F) (j : Kind) → k ≢ j → put f k s j ≡ f j
  put_other f k s j ne = ground arith

  states-stop_cpu_stress : (w : World F) → (stop_cpu_stress w).states ≡ w.states
  unfolding stop_cpu_stress
  states-stop_cpu_stress w = ground arith

module _ {F : Type 0} ⦃d : Float64 F⦄ where
  -- The entry that `enable_write` writes.
  abbrev pub entry : Spec F → ℕ → State F
  entry spec now = record {
    enabled = true;
    intensity = spec.intensity;
    duration = spec.duration;
    duration_s = d.seconds spec.duration;
    started_at = now;
    onset = spec.onset;
    ramp_seconds = spec.ramp_seconds;
    flap_period_seconds = spec.flap_period_seconds;
    sticky = spec.sticky;
    scope_percent = spec.scope_percent;
  }

  -- The side effects touch neither the entries nor the clock nor the capacity nor the campaign.
  pub record Frame (w v : World F) : Type 0 where
    pub states : w.states ≡ v.states
    pub now : w.now ≡ v.now
    pub capacity : w.capacity ≡ v.capacity
    pub campaign : w.campaign ≡ v.campaign
    pub alive : w.alive ≡ v.alive

  pub start_effects-Frame :
      (spec : Spec F) (k : Kind) (w : World F) → Frame (start_effects spec k w) w
  unfolding start_effects
  start_effects-Frame spec k w = ground arith

  stop_effects-Frame : (k : Kind) (w : World F) → Frame (stop_effects k w) w
  unfolding stop_effects
  stop_effects-Frame k w = ground arith

  pub start_timer-Frame : (spec : Spec F) (w : World F) → Frame (start_timer spec w) w
  unfolding start_timer
  start_timer-Frame spec w = ground arith

  -- What `EnableSpec` leaves of an entry: its own is written anew, the others stay.
  pub states-enable_type :
      (spec : Spec F) (k j : Kind) (w : World F)
      → (enable_type spec (known k) w).states j ≡ put w.states k (entry spec w.now) j
  unfolding enable_write enable_type
  states-enable_type spec k j w =
      let w₁ = enable_write spec k w in
      let w₂ = start_effects spec k w₁ in
      ground (arith, start_timer-Frame spec w₂, start_effects-Frame spec k w₁)

  pub states-disable :
      (k j : Kind) (w : World F)
      → (disable (known k) w).states j ≡ put w.states k (cleared (w.states k)) j
  unfolding disable
  states-disable k j w =
      let w₁ = record w { states = put w.states k (cleared (w.states k)) } in
      ground (arith, stop_effects-Frame k w₁)

  pub enable_type-Frame :
      (spec : Spec F) (k : Kind) (w : World F)
      → ((enable_type spec (known k) w).now ≡ w.now)
        × ((enable_type spec (known k) w).capacity ≡ w.capacity)
        × ((enable_type spec (known k) w).campaign ≡ w.campaign)
  unfolding enable_write enable_type
  enable_type-Frame spec k w =
      let w₁ = enable_write spec k w in
      let w₂ = start_effects spec k w₁ in
      ground (arith, start_timer-Frame spec w₂, start_effects-Frame spec k w₁)

  pub disable-Frame :
      (ct : ChaosType) (w : World F)
      → ((disable ct w).now ≡ w.now)
        × ((disable ct w).capacity ≡ w.capacity)
        × ((disable ct w).campaign ≡ w.campaign)
        × ((disable ct w).alive ≡ w.alive)
  unfolding disable
  disable-Frame (unknown s) w = (refl, refl, refl, refl)
  disable-Frame (known k) w =
      let w₁ = record w { states = put w.states k (cleared (w.states k)) } in
      ground (arith, stop_effects-Frame k w₁)

  pub tasks-disable : (ct : ChaosType) (w : World F) → (disable ct w).tasks ≡ w.tasks
  unfolding disable
  tasks-disable ct w = ground arith

  pub tasks-start_cpu_stress :
      (intensity : F) (w : World F) → (start_cpu_stress intensity w).tasks ≡ w.tasks
  unfolding start_cpu_stress
  tasks-start_cpu_stress intensity w = ground arith
