-- ===== src/Chaos/Run/Sticky.antt =====
-- A sticky fault under any history of requests, timers and campaigns, and the timers that the
-- package guards by the start time of an activation.
use Prim.Native.String.{String}
use loadgen.Base.{ℕ, ◌≡◌, ◌∙◌, ◌≢◌, ap, if_elim, true, false, List, ◌++◌, [], ◌∷◌, arith, All}
use loadgen.Base.Float.{Float64}
use loadgen.Chaos.Kind.{Kind, known}
use loadgen.Chaos.State.{State, Spec, Task, auto_disable, World}
use loadgen.Chaos.Query.{is_active, set_capacity}
use loadgen.Chaos.Enable.{start_timer, start_effects, enable_write, enable_type, time_now_for, wake}
use loadgen.Chaos.Enable.Frame.{entry, put_self, states-enable_type, start_timer-Frame}
use loadgen.Chaos.Enable.Lifetime.{later, disable-is_active}
use loadgen.Chaos.Control.{run_op, ops_clears, restart, reset_pool, clear_backlog}
use loadgen.Chaos.Run.{
  Event, advance, wakes, enables, disables, kills, remedies, scales, campaigns, react, handle, run,
  perform, is_still,
}
use loadgen.Chaos.Run.Holds.{touches, Holds, enable_spec-Holds, disable-Holds, clear_active-Holds}
use loadgen.Chaos.Run.Goroutines.{pull-All, wake_task-Holds, start_campaign-Holds}

module _ {F : Type 0} ⦃d : Float64 F⦄ (k : Kind) (s : State F) (name : ℕ → String) where
  run_op-Holds :
      (w : World F) (e : Event F) → touches k e ≡ false → Holds k s w → Holds k s (react name e w)
  unfolding react run_op set_capacity
  run_op-Holds w (advance n) q h = record { entry = h.entry; spared = h.spared }
  run_op-Holds w (wakes i) q h = wake_task-Holds k s _ w (pull-All _ i w.tasks h.spared) h
  run_op-Holds w (enables spec) q h = enable_spec-Holds k s spec w q h
  run_op-Holds w (disables ct) q h = disable-Holds k s ct w q h
  run_op-Holds w (kills order) q h = cc
  run_op-Holds w (remedies restart) q h =
      let h' = clear_active-Holds k s (ops_clears restart) w q h in
      record { entry = h'.entry; spared = h'.spared }
  run_op-Holds w (remedies reset_pool) q h = clear_active-Holds k s (ops_clears reset_pool) w q h
  run_op-Holds w (remedies clear_backlog) q h =
      clear_active-Holds k s (ops_clears clear_backlog) w q h
  run_op-Holds w (scales n) q h = record { entry = h.entry; spared = h.spared }
  run_op-Holds w (campaigns req) q h = start_campaign-Holds k s name req w q h

  handle-Holds :
      (w : World F) (e : Event F) → touches k e ≡ false → Holds k s w → Holds k s (handle name e w)
  unfolding handle
  handle-Holds w e q h = if_elim (Holds k s) w.alive (run_op-Holds w e q h) h

  run-Holds :
      (w : World F) (es : List (Event F))
      → All (λ e. touches k e ≡ false) es
      → Holds k s w
      → Holds k s (run name es w)
  unfolding run
  run-Holds w [] q h = h
  run-Holds w (e ∷ es) q h = run-Holds (handle name e w) es q.1 (handle-Holds w e q.0 h)

  -- A sticky fault stays active, with its entry unchanged, through any history in which no request
  -- names its type and no kill switch, remedy or campaign covers it, however much time passes and
  -- whichever goroutines wake, if at the start no goroutine is about to end or renew it.
  pub run-sticky :
      (w : World F) (es : List (Event F))
      → s.enabled ≡ true
      → s.sticky ≡ true
      → Holds k s w
      → All (λ e. touches k e ≡ false) es
      → (is_active (run name es w) (known k) ≡ true) × ((run name es w).states k ≡ s)
  unfolding is_active
  run-sticky w es on st h q = let h' = run-Holds w es q h in (ground (arith, h'.entry), h'.entry)

module _ {F : Type 0} ⦃d : Float64 F⦄ where
  -- A timer whose activation is no longer the current one changes nothing.
  perform-stale :
      (k : Kind) (started due : ℕ) (w : World F)
      → (w.states k).started_at ≢ started
      → perform (auto_disable (known k) started due) w ≡ w
  unfolding perform
  perform-stale k started due w ne = ground arith

  start_timer-tasks :
      (a : Spec F) (k : Kind) (v : World F)
      → a.type ≡ known k
      → a.sticky ≡ false
      → (start_timer a v).tasks
        ≡ v.tasks
          ++ (auto_disable (known k) (time_now_for v (known k)) (wake v.now a.duration) ∷ [])
  unfolding start_timer
  start_timer-tasks a k v t timed = ground arith

  is_active_of_sticky :
      (b : Spec F) (k : Kind) (t : ℕ) (v : World F)
      → v.states k ≡ entry b t
      → b.sticky ≡ true
      → is_active v (known k) ≡ true
  unfolding is_active
  is_active_of_sticky b k t v e st = ground arith

  perform_current :
      (k : Kind) (t due : ℕ) (v : World F)
      → is_still v (known k) t ≡ true
      → is_active (perform (auto_disable (known k) t due) v) (known k) ≡ false
  unfolding perform
  perform_current k t due v e = rw (e, perform) (disable-is_active k v).0

  -- The world in which the second half of an `EnableSpec` runs, when its first half came `n`
  -- nanoseconds before another `EnableSpec` for the same type.
  abbrev pub between : Spec F → Spec F → Kind → ℕ → World F → World F
  between a b k n w = enable_type b (known k) (later n (start_effects a k (enable_write a k w)))

  abbrev pub overlapped : Spec F → Spec F → Kind → ℕ → World F → World F
  overlapped a b k n w = start_timer a (between a b k n w)

  -- The timer that the first one starts: it reads the start time that the second has written.
  abbrev pub captured : Spec F → Spec F → Kind → ℕ → World F → Task F
  captured a b k n w =
      let w' = between a b k n w in
      auto_disable (known k) (time_now_for w' (known k)) (wake w'.now a.duration)

  between-entry :
      (a b : Spec F) (k : Kind) (n : ℕ) (w : World F)
      → (between a b k n w).states k
        ≡ entry b (later n (start_effects a k (enable_write a k w))).now
  between-entry a b k n w =
      let w₁ = later n (start_effects a k (enable_write a k w)) in
      states-enable_type b k k w₁ ∙ put_self w₁.states k (entry b w₁.now)

  overlapped-entry :
      (a b : Spec F) (k : Kind) (n : ℕ) (w : World F)
      → (overlapped a b k n w).states k ≡ (between a b k n w).states k
  overlapped-entry a b k n w =
      ap (λ (f : Kind → State F). f k) (start_timer-Frame a (between a b k n w)).states

  captured-is_still :
      (a b : Spec F) (k : Kind) (n : ℕ) (w : World F)
      → is_still (overlapped a b k n w) (known k) (time_now_for (between a b k n w) (known k))
        ≡ true
  unfolding is_still time_now_for
  captured-is_still a b k n w = ground (arith, overlapped-entry a b k n w, between-entry a b k n w)

  -- The race: if a sticky `EnableSpec` comes in between the two halves of a timed one for the same
  -- type, the sticky fault is active, and the timer that the first request starts ends it.
  pub overlapped_race :
      (a b : Spec F) (k : Kind) (n : ℕ) (w : World F)
      → a.type ≡ known k
      → a.sticky ≡ false
      → b.sticky ≡ true
      → (is_active (overlapped a b k n w) (known k) ≡ true)
        × ((overlapped a b k n w).tasks ≡ (between a b k n w).tasks ++ (captured a b k n w ∷ []))
        × (is_active (perform (captured a b k n w) (overlapped a b k n w)) (known k) ≡ false)
  overlapped_race a b k n w t timed st = (
    is_active_of_sticky b k _ _ (overlapped-entry a b k n w ∙ between-entry a b k n w) st,
    start_timer-tasks a k (between a b k n w) t timed,
    perform_current k _ _ (overlapped a b k n w) (captured-is_still a b k n w),
  )
