-- ===== src/Harness/Recover.antt =====
-- internal/harness/runner.go: `runRemediation`, and what ends a run: `killAll`, `resolveRunAlerts`
-- and `cooldown`.
pub mod Outcome
use Prim.Native.String.{String}
use text.Mathlib.Text.{◌==◌ as str_eq}
use loadgen.Base.{
  ℕ, ◌+◌, ◌*◌, Bool, true, false, not, ◌&&◌, ◌||◌, if◌then◌else◌, List, [], ◌∷◌, Option, none, some,
  ℤ, pos, ltb_ℤ, any,
}
use loadgen.Harness.Scenario.{Scenario, Injection, ExpectRemediation}
use loadgen.Harness.Remote.{Alert, Saturation, Env, M, poll, sleep_ctx, window_or, second}
use loadgen.Harness.Detect.{fired_since}

-- How the remediation phase ends.
pub data Remedied : Type 0 where
  recovered not_triggered not_approved not_dispatched interrupted still_faulty : Remedied

abbrev pub id_of : Option Alert → String
id_of none = ""
id_of (some a) = a.id

abbrev pub active_or_down : Option Bool → Bool
active_or_down none = true
active_or_down (some b) = b

abbrev pub is_in : String → List String → Bool
is_in s xs = any (λ x. str_eq x s) xs

module _ {F J X : Type 0} (env : Env F J X) (targets : String → Option String) where
  unfoldable pub any_fault_active : String → X → X × Bool
  any_fault_active target x = elim (targets target) [
    | none ↦ (x, false)
    | some base ↦ ((env.status base x).0, active_or_down (env.status base x).1)
  ]

  -- The target of the scenario's first injection where the expectation names none.
  unfoldable pub recovery_target : Scenario F J → ExpectRemediation → String
  recovery_target sc rem =
      if str_eq rem.target ""
      then elim sc.inject [ [] ↦ "" | inj ∷ rest ↦ inj.target ]
      else rem.target

  abbrev pub poll_recovery : String → X → X × Option Remedied
  poll_recovery target x =
      let (y, active) = any_fault_active target x in (y, if active then none else some recovered)

  -- From the approval's answer on.
  unfoldable pub await_recovery : ℕ → String → ℕ → M X Remedied
  unfolding any_fault_active
  await_recovery fuel target within x =
      poll env fuel (env.now x + within) (5 * second) (poll_recovery target) (some interrupted)
        still_faulty x

  unfoldable pub run_remediation :
      ℕ → Scenario F J → ExpectRemediation → Option Alert → M X Remedied
  unfolding await_recovery recovery_target
  run_remediation fuel sc rem detected x =
      let (y, triggered) = env.trigger_runbook rem.runbook_id (id_of detected) sc.id x in
      elim triggered [
        | none ↦ some (y, not_triggered)
        | some action ↦
            let (z, decision) = env.approve action y in
            elim decision [
              | none ↦ some (z, not_approved)
              | some resume ↦ elim (str_eq resume "runbook_dispatched") [
                | false ↦ some (z, not_dispatched)
                | true ↦
                    await_recovery fuel (recovery_target sc rem)
                      (window_or (300 * second) rem.recovers_within_seconds) z
              ]
            ]
      ]

  -- A POST to the kill switch of a target, if it has a URL; its result is dropped.
  abbrev pub kill_target : String → X → X
  kill_target target x = elim (targets target) [ none ↦ x | some base ↦ (env.kill base x).0 ]

  -- The loop of `killAll` with the targets that it has seen.
  unfoldable pub kill_each : List String → List (Injection F J) → X → X
  kill_each seen [] x = x
  kill_each seen (inj ∷ rest) x =
      if is_in inj.target seen
      then kill_each seen rest x
      else kill_each (inj.target ∷ seen) rest (kill_target inj.target x)

  unfoldable pub kill_all : Scenario F J → X → X
  unfolding kill_each
  kill_all sc x = kill_each [] sc.inject x

module _ {F J X : Type 0} (env : Env F J X) where
  -- The loop of `resolveRunAlerts`: an alert that cannot be resolved is passed over.
  unfoldable pub resolve_each : ℕ → List Alert → X → X
  resolve_each inject_at [] x = x
  resolve_each inject_at (a ∷ rest) x =
      resolve_each inject_at rest
        (if fired_since a.fired_at inject_at then (env.resolve a.id x).0 else x)

  unfoldable pub resolve_run_alerts : ℕ → X → X
  unfolding resolve_each
  resolve_run_alerts inject_at x =
      let (y, alerts) = env.firing x in
      elim alerts [ none ↦ y | some found ↦ resolve_each inject_at found y ]

  -- The queue is drained where it is unknown, absent, or shorter than 3.
  unfoldable pub is_drained : Option Saturation → Bool
  is_drained none = true
  is_drained (some sat) = elim sat.queue_depth [ none ↦ true | some n ↦ ltb_ℤ n (pos 3) ]

  abbrev pub poll_drained : X → X × Option Bool
  poll_drained x =
      let (y, sat) = env.saturation x in (y, if is_drained sat then some true else none)

  -- The floor, and the wait for the queue to drain; the loop has no result in the source.
  unfoldable pub cooldown : ℕ → ℤ → M X Bool
  cooldown fuel floor x =
      let (y, ok) = sleep_ctx env (window_or (180 * second) floor) x in
      poll env fuel (env.now y + 600 * second) (20 * second) poll_drained (some false) false y
