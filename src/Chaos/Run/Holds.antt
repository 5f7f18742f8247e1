-- ===== src/Chaos/Run/Holds.antt =====
-- An activation that nothing is about to end, and the requests that keep it so.
use loadgen.Base.{
  ℕ, ◌==◌, ◌≡◌, ◌∙◌, ap, refl, ◌≢◌, sym, subst, Bool-cases, inl, inr, ite, Bool, true, false, not,
  ◌&&◌, List, [], ◌∷◌, arith, All, All-append, any,
}
use loadgen.Base.Float.{Float64}
use loadgen.Chaos.Kind.{
  Kind, Kind-discrete, cpu_stress, memory_leak, log_storm, novel_log, pod_crash, ChaosType, known,
  unknown,
}
use loadgen.Chaos.State.{State, Spec, Task, auto_disable, enable_step, World}
use loadgen.Chaos.Spec.{normalize}
use loadgen.Chaos.Enable.{
  start_effects, start_timer, enable_write, enable_type, enable_spec, disable,
}
use loadgen.Chaos.Enable.Frame.{
  put_other, states-enable_type, states-disable, tasks-disable, tasks-start_cpu_stress,
}
use loadgen.Chaos.Query.{is_active}
use loadgen.Chaos.Control.{ops_clears, clear_active}
use loadgen.Chaos.Run.{Event, enables, disables, kills, remedies, campaigns}

-- Whether a type names this key.
abbrev pub same : Kind → ChaosType → Bool
same k (known j) = ite (Kind-discrete k j) true false
same k (unknown s) = false

module _ {F : Type 0} where
  -- Whether an event is a request that may end, or start anew, the fault `k`.
  abbrev pub touches : Kind → Event F → Bool
  touches k (enables spec) = same k spec.type
  touches k (disables ct) = same k ct
  touches k (kills order) = true
  touches k (remedies a) = any (λ j. same k (known j)) (ops_clears a)
  touches k (campaigns req) = any (λ s. same k s.type) req.steps
  touches k _ = false

  -- Whether a goroutine leaves the activation of `k` at time `t` alone.
  abbrev pub spares : Kind → ℕ → Task F → Bool
  spares k t (auto_disable ct started due) = not (same k ct && (started == t))
  spares k t (enable_step s due) = not (same k s.type)
  spares k t _ = true

  abbrev pub Spares : Kind → ℕ → Task F → Type 0
  Spares k t task = spares k t task ≡ true

  -- The entry of `k` is `s`, and no goroutine is going to end its activation.
  pub record Holds (k : Kind) (s : State F) (w : World F) : Type 0 where
    pub entry : w.states k ≡ s
    pub spared : All (Spares k s.started_at) w.tasks

module _ {F : Type 0} ⦃d : Float64 F⦄ (k : Kind) (s : State F) where
  start_effects-spared :
      (spec : Spec F) (j : Kind) (w : World F)
      → All (Spares k s.started_at) w.tasks
      → All (Spares k s.started_at) (start_effects spec j w).tasks
  unfolding start_effects
  start_effects-spared spec memory_leak w h = All-append _ w.tasks _ h (refl, tt)
  start_effects-spared spec log_storm w h = All-append _ w.tasks _ h (refl, tt)
  start_effects-spared spec novel_log w h = All-append _ w.tasks _ h (refl, tt)
  start_effects-spared spec pod_crash w h = All-append _ w.tasks _ h (refl, tt)
  start_effects-spared spec cpu_stress w h =
      subst (All (Spares k s.started_at)) (sym (tasks-start_cpu_stress spec.intensity w)) h
  start_effects-spared spec _ w h = h

  start_timer-spared :
      (spec : Spec F) (w : World F)
      → same k spec.type ≡ false
      → All (Spares k s.started_at) w.tasks
      → All (Spares k s.started_at) (start_timer spec w).tasks
  unfolding start_timer
  start_timer-spared spec w ne h = elim (Bool-cases spec.sticky) [
    | inl e ↦ rw (e, start_timer) h
    | inr e ↦ rw (e, start_timer) (All-append _ w.tasks _ h (ground arith, tt))
  ]

  same_ne : (j : Kind) → same k (known j) ≡ false → j ≢ k
  same_ne j e = ground arith

  pub enable_type-Holds :
      (spec : Spec F) (ct : ChaosType) (w : World F)
      → spec.type ≡ ct
      → same k ct ≡ false
      → Holds k s w
      → Holds k s (enable_type spec ct w)
  unfolding enable_type enable_write
  enable_type-Holds spec (unknown name) w t e h = h
  enable_type-Holds spec (known j) w t e h = record {
    entry = states-enable_type spec j k w ∙ put_other w.states j _ k (same_ne j e) ∙ h.entry;
    spared = start_timer-spared spec _ (ap (same k) t ∙ e) (start_effects-spared spec j _ h.spared);
  }

  -- `EnableSpec` for another type.
  pub enable_spec-Holds :
      (spec : Spec F) (w : World F)
      → same k spec.type ≡ false
      → Holds k s w
      → Holds k s (enable_spec spec w)
  unfolding enable_spec normalize
  enable_spec-Holds spec w e h = enable_type-Holds (normalize spec) spec.type w refl e h

  pub disable-Holds :
      (ct : ChaosType) (w : World F) → same k ct ≡ false → Holds k s w → Holds k s (disable ct w)
  disable-Holds (unknown name) w e h = unfold disable in h
  disable-Holds (known j) w e h = record {
    entry = states-disable j k w ∙ put_other w.states j _ k (same_ne j e) ∙ h.entry;
    spared = subst (All (Spares k s.started_at)) (sym (tasks-disable (known j) w)) h.spared;
  }

  pub clear_active-Holds :
      (ks : List Kind) (w : World F)
      → any (λ j. same k (known j)) ks ≡ false
      → Holds k s w
      → Holds k s (clear_active ks w).0
  unfolding clear_active
  clear_active-Holds [] w e h = h
  clear_active-Holds (j ∷ ks) w e h = elim (Bool-cases (is_active w (known j))) [
    | inl a ↦ rw a (
        clear_active-Holds ks (disable (known j) w) (ground arith)
          (disable-Holds (known j) w (ground arith) h))
    | inr a ↦ rw a (clear_active-Holds ks w (ground arith) h)
  ]
