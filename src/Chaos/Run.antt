-- ===== src/Chaos/Run.antt =====
-- internal/chaos as a system: requests, the passing of time, and the goroutines that wake. A
-- history is a list of events, so that every interleaving of handlers and goroutines is one.
pub mod Holds
pub mod Goroutines
pub mod Sticky
pub mod Sound
pub mod Range
use Prim.Native.String.{String}
use loadgen.Base.{
  ℕ, zero, suc, ◌+◌, ◌==◌, Bool, false, ◌&&◌, if◌then◌else◌, Option, none, some, List, [], ◌∷◌,
  ◌++◌, ℤ, leb,
}
use loadgen.Base.Float.{Float64}
use loadgen.Chaos.Kind.{Kind, memory_leak, ChaosType, known}
use loadgen.Chaos.State.{
  Spec, Task, auto_disable, enable_step, end_campaign, leak, storm, novel, crash, World, lookup,
}
use loadgen.Chaos.Enable.{enable_spec, enable, disable, wake}
use loadgen.Chaos.Query.{is_active, set_capacity}
use loadgen.Chaos.Control.{Action, disable_all, run_op}
use loadgen.Chaos.Campaign.{CampaignRequest, start_campaign, finish_if}

pub data Event (F : Type 0) : Type 0 where
  -- The clock moves on.
  advance : ℕ → Event F
  -- The goroutine at this place of the list goes on, if it is due.
  wakes : ℕ → Event F
  -- A POST and a DELETE to /chaos/<type>.
  enables : Spec F → Event F
  disables : ChaosType → Event F
  -- The kill switch, with the order in which the map is met.
  kills : List Kind → Event F
  remedies : Action → Event F
  scales : F → Event F
  campaigns : CampaignRequest F → Event F

-- The task at a place, and the list without it.
unfoldable pub pull : {A : Type 0} → ℕ → List A → Option (A × List A)
pull i [] = none
pull zero (t ∷ ts) = some (t, ts)
pull (suc i) (t ∷ ts) = elim (pull i ts) [ none ↦ none | some (u, us) ↦ some (u, t ∷ us) ]

-- When a goroutine may go on: a storm and a novel log are asked once, at their deadline.
abbrev pub due : {F : Type 0} → Task F → ℕ
due (auto_disable ct started t) = t
due (enable_step s t) = t
due (end_campaign id t) = t
due (leak size left pause t) = t
due (storm count t) = t
due (novel count t) = t
due (crash t) = t

module _ {F : Type 0} ⦃d : Float64 F⦄ where
  -- One round of the leak: it ends if the fault is over, and else retains a chunk and sleeps.
  unfoldable pub leak_round : ℤ → ℕ → ℤ → World F → World F
  leak_round size zero pause w = w
  leak_round size (suc left) pause w =
      if is_active w (known memory_leak)
      then record w {
        ballast = w.ballast ++ (size ∷ []);
        tasks = w.tasks ++ (leak size left pause (wake w.now pause) ∷ []);
      }
      else w

  -- The timer's test: the entry is enabled by the very activation that started the timer.
  unfoldable pub is_still : World F → ChaosType → ℕ → Bool
  is_still w ct started = elim (lookup w ct) [
    | none ↦ false
    | some s ↦ s.enabled && (s.started_at == started)
  ]

  -- What a goroutine does when it wakes; a crash is `os.Exit`.
  unfoldable pub perform : Task F → World F → World F
  unfolding leak_round is_still
  perform (auto_disable ct started t) w = if is_still w ct started then disable ct w else w
  perform (enable_step s t) w = enable s.type s.intensity (d.to_ns s.duration_seconds) w
  perform (end_campaign id t) w = record w { campaign = finish_if id w.campaign }
  perform (leak size left pause t) w = leak_round size left pause w
  perform (storm count t) w = w
  perform (novel count t) w = w
  perform (crash t) w = record w { alive = false }

  unfoldable pub wake_task : Option (Task F × List (Task F)) → World F → World F
  wake_task none w = w
  wake_task (some (t, ts)) w = if leb (due t) w.now then perform t (record w { tasks = ts }) else w

  -- `name` is the id that a campaign gets where the request has none.
  unfoldable pub react : (ℕ → String) → Event F → World F → World F
  unfolding pull wake_task
  react name (advance n) w = record w { now = w.now + n }
  react name (wakes i) w = wake_task (pull i w.tasks) w
  react name (enables spec) w = enable_spec spec w
  react name (disables ct) w = disable ct w
  react name (kills order) w = disable_all order w
  react name (remedies a) w = (run_op a w).0
  react name (scales n) w = set_capacity n w
  react name (campaigns req) w = (start_campaign name req w).0

  -- After an exit nothing happens.
  unfoldable pub handle : (ℕ → String) → Event F → World F → World F
  unfolding react
  handle name e w = if w.alive then react name e w else w

  unfoldable pub run : (ℕ → String) → List (Event F) → World F → World F
  unfolding handle
  run name [] w = w
  run name (e ∷ es) w = run name es (handle name e w)
