-- ===== src/Chaos/Run/Range.antt =====
-- What the services read is a fraction, after any history of requests without a NaN.
use Prim.Native.String.{String}
use loadgen.Base.{
  if◌then◌else◌, ℕ, zero, suc, ◌+◌, ◌≡◌, if_elim, List, [], ◌∷◌, map, Option, none, some, arith, ℤ,
  All, All-append, leb, ltb, length,
}
use loadgen.Base.Float.{Float64, IsIeee, IsNumber, IsUnit, ◌≼◌}
use loadgen.Chaos.Kind.{Kind, memory_leak, ChaosType, known, unknown}
use loadgen.Chaos.State.{
  CampaignStep, Task, auto_disable, enable_step, end_campaign, leak, storm, novel, crash, World,
  init,
}
use loadgen.Chaos.Spec.Range.{normalize_intensity-IsUnit}
use loadgen.Chaos.Enable.{enable}
use loadgen.Chaos.Query.{is_active, set_capacity, get_intensity}
use loadgen.Chaos.Query.Bounds.{get_intensity_bounds}
use loadgen.Chaos.Control.{
  restart, reset_pool, clear_backlog, ops_clears, clear_active, run_op, disable_each, disable_all,
}
use loadgen.Chaos.Campaign.{
  CampaignRequest, start_campaign, check_step, check_steps, normalize_step, delayed, Result, ok,
  err, CampaignError, validate, launch, max_campaign_steps,
}
use loadgen.Chaos.Run.{
  due, Event, advance, wakes, enables, disables, kills, remedies, scales, campaigns, perform,
  wake_task, react, handle, run, is_still, leak_round,
}
use loadgen.Chaos.Run.Goroutines.{Pulled, pull-All}
use loadgen.Chaos.Run.Sound.{
  PlainTask, PlainEvent, SoundWorld, zero-IsNumber, disable-SoundWorld, enable_spec-SoundWorld,
}

module _ {F : Type 0} ⦃d : Float64 F⦄ (laws : IsIeee F) where
  open laws use {number_of_le, lt-eq-not-le, lit_le}

  zero-le-one : d.lit 0 ≼ d.lit 1000
  zero-le-one = lit_le 0 1000 (omega arith)

  disable_each-SoundWorld :
      (ks : List Kind) (w : World F) → SoundWorld w → SoundWorld (disable_each ks w)
  unfolding disable_each
  disable_each-SoundWorld [] w h = h
  disable_each-SoundWorld (k ∷ ks) w h =
      disable_each-SoundWorld ks _ (disable-SoundWorld laws (known k) w h)

  clear_active-SoundWorld :
      (ks : List Kind) (w : World F) → SoundWorld w → SoundWorld (clear_active ks w).0
  unfolding clear_active
  clear_active-SoundWorld [] w h = h
  clear_active-SoundWorld (k ∷ ks) w h =
      clear_active-SoundWorld ks _
        (if_elim SoundWorld (is_active w (known k)) (disable-SoundWorld laws (known k) w h) h)

  set_capacity-SoundWorld :
      (n : F) (w : World F) → IsNumber n → SoundWorld w → SoundWorld (set_capacity n w)
  unfolding set_capacity
  set_capacity-SoundWorld n w p h = record {
    states = h.states;
    capacity =
        if_elim (λ (x : F). IsNumber x) (d.lt n (d.lit 1000)) (lit_le 1000 1000 (omega arith)) p;
    tasks = h.tasks;
  }

  leak_round-SoundWorld :
      (size : ℤ) (left : ℕ) (pause : ℤ) (w : World F)
      → SoundWorld w
      → SoundWorld (leak_round size left pause w)
  unfolding leak_round
  leak_round-SoundWorld size zero pause w h = h
  leak_round-SoundWorld size (suc left) pause w h =
      if_elim SoundWorld (is_active w (known memory_leak))
        (record {
          states = h.states;
          capacity = h.capacity;
          tasks = All-append _ w.tasks _ h.tasks (tt, tt);
        })
        h

  perform-SoundWorld :
      (t : Task F) (w : World F) → PlainTask t → SoundWorld w → SoundWorld (perform t w)
  unfolding perform
  perform-SoundWorld (auto_disable ct started due) w p h =
      if_elim SoundWorld (is_still w ct started) (disable-SoundWorld laws ct w h) h
  perform-SoundWorld (enable_step c due) w p h =
      unfold enable in
      enable_spec-SoundWorld laws _ w
        (record {
          intensity = p;
          ramp = zero-IsNumber laws;
          flap = zero-IsNumber laws;
          scope = zero-IsNumber laws;
        })
        h
  perform-SoundWorld (leak size left pause due) w p h = leak_round-SoundWorld size left pause w h
  perform-SoundWorld (end_campaign id due) w p h = record {
    states = h.states;
    capacity = h.capacity;
    tasks = h.tasks;
  }
  perform-SoundWorld (storm n due) w p h = h
  perform-SoundWorld (novel n due) w p h = h
  perform-SoundWorld (crash due) w p h = record {
    states = h.states;
    capacity = h.capacity;
    tasks = h.tasks;
  }

  wake_task-SoundWorld :
      (o : Option (Task F × List (Task F))) (w : World F)
      → Pulled PlainTask o
      → SoundWorld w
      → SoundWorld (wake_task o w)
  unfolding wake_task
  wake_task-SoundWorld none w p h = h
  wake_task-SoundWorld (some (t, ts)) w p h =
      if_elim SoundWorld (leb (due t) w.now)
        (perform-SoundWorld t _ p.0
          (record { states = h.states; capacity = h.capacity; tasks = p.1 }))
        h

  abbrev PlainSteps : ℕ → Result (List (CampaignStep F)) → Type 0
  PlainSteps now (ok ss) = All PlainTask (map (delayed now) ss)
  PlainSteps now (err e) = Unit {0}

  check_step-plain :
      (now i : ℕ) (ct : ChaosType) (c : CampaignStep F) (r : Result (List (CampaignStep F)))
      → IsNumber c.intensity
      → PlainSteps now r
      → PlainSteps now (check_step i ct c r)
  check_step-plain now i (unknown name) c r p h = tt
  check_step-plain now i (known j) c (err x) p h = tt
  check_step-plain now i (known j) c (ok rest) p h = (
    unfold normalize_step in
        (let u = normalize_intensity-IsUnit laws c.intensity p in (number_of_le _ _ u.1).0),
    h,
  )

  check_steps-plain :
      (now i : ℕ) (ss : List (CampaignStep F))
      → All (λ c. IsNumber c.intensity) ss
      → PlainSteps now (check_steps i ss)
  unfolding check_steps
  check_steps-plain now i [] p = tt
  check_steps-plain now i (c ∷ ss) p =
      check_step-plain now i c.type c _ p.0 (check_steps-plain now (i + 1) ss p.1)

  validate-plain :
      (now : ℕ) (req : CampaignRequest F)
      → All (λ c. IsNumber c.intensity) req.steps
      → PlainSteps now (validate req)
  unfolding validate
  validate-plain now req p = if_elim (PlainSteps now) (leb (length req.steps) 0) tt (
      if_elim (PlainSteps now) (ltb max_campaign_steps (length req.steps)) tt
        (check_steps-plain now 0 req.steps p))

  launch-SoundWorld :
      (name : ℕ → String) (req : CampaignRequest F) (w : World F)
      (r : Result (List (CampaignStep F)))
      → PlainSteps w.now r
      → SoundWorld w
      → SoundWorld
          (elim r as (λ r. World F × Option CampaignError) [
            | err e ↦ (w, some e)
            | ok steps ↦ (launch name req steps w, none)
          ]).0
  unfolding launch
  launch-SoundWorld name req w (err x) p h = h
  launch-SoundWorld name req w (ok steps) p h =
      if_elim SoundWorld req.dry_run
        (record { states = h.states; capacity = h.capacity; tasks = h.tasks })
        (record {
          states = h.states;
          capacity = h.capacity;
          tasks =
              All-append _ w.tasks _ h.tasks
                (All-append _ (map (delayed w.now) steps) _ p (tt, tt));
        })

  react-SoundWorld :
      (name : ℕ → String) (e : Event F) (w : World F)
      → PlainEvent e
      → SoundWorld w
      → SoundWorld (react name e w)
  unfolding react run_op disable_all start_campaign
  react-SoundWorld name (advance n) w p h = record {
    states = h.states;
    capacity = h.capacity;
    tasks = h.tasks;
  }
  react-SoundWorld name (wakes i) w p h = wake_task-SoundWorld _ w (pull-All _ i w.tasks h.tasks) h
  react-SoundWorld name (enables spec) w p h = enable_spec-SoundWorld laws spec w p h
  react-SoundWorld name (disables ct) w p h = disable-SoundWorld laws ct w h
  react-SoundWorld name (kills order) w p h =
      let h' = disable_each-SoundWorld order w h in
      record { states = h'.states; capacity = h'.capacity; tasks = h'.tasks }
  react-SoundWorld name (remedies restart) w p h =
      set_capacity-SoundWorld _ _ (lit_le 1000 1000 (omega arith))
        (clear_active-SoundWorld (ops_clears restart) w h)
  react-SoundWorld name (remedies reset_pool) w p h =
      clear_active-SoundWorld (ops_clears reset_pool) w h
  react-SoundWorld name (remedies clear_backlog) w p h =
      clear_active-SoundWorld (ops_clears clear_backlog) w h
  react-SoundWorld name (scales n) w p h = set_capacity-SoundWorld n w p h
  react-SoundWorld name (campaigns req) w p h =
      launch-SoundWorld name req w (validate req) (validate-plain w.now req p) h

  init-SoundWorld : (cpus : ℤ) (start : ℕ) → SoundWorld (init {F = F} cpus start)
  init-SoundWorld cpus start = record {
    states =
        λ k. record { intensity = (zero-IsNumber laws, zero-le-one); ramp = zero-IsNumber laws };
    capacity = lit_le 1000 1000 (omega arith);
    tasks = tt;
  }

  -- Every history of requests that hold no NaN keeps every entry in range.
  pub run-SoundWorld :
      (name : ℕ → String) (es : List (Event F)) (w : World F)
      → All PlainEvent es
      → SoundWorld w
      → SoundWorld (run name es w)
  unfolding run handle
  run-SoundWorld name [] w p h = h
  run-SoundWorld name (e ∷ es) w p h =
      run-SoundWorld name es _ p.1 (if_elim SoundWorld w.alive (react-SoundWorld name e w p.0 h) h)

  -- From the start of the process on, after any history of requests that hold no NaN,
  -- `GetIntensity` is between 0 and 1 for every type, at most the entry's intensity, and 0 for a
  -- fault that is not active.
  pub get_intensity-run :
      (name : ℕ → String) (es : List (Event F)) (cpus : ℤ) (start : ℕ) (k : Kind)
      → All PlainEvent es
      → let w = run name es (init {F = F} cpus start) in
        IsUnit (get_intensity w (known k))
        × (get_intensity w (known k) ≼ (w.states k).intensity)
        × ((if is_active w (known k) then d.lit 0 else get_intensity w (known k)) ≡ d.lit 0)
  get_intensity-run name es cpus start k p =
      let h = run-SoundWorld name es (init {F = F} cpus start) p (init-SoundWorld cpus start) in
      get_intensity_bounds laws (run name es (init {F = F} cpus start)) k (h.states k) h.capacity
