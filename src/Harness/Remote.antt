-- ===== src/Harness/Remote.antt =====
-- internal/harness/infrasage.go: what the harness sees of the outside. The observed system, the
-- services under test, the clock and the goroutines of the runtime are a parameter.
use Prim.Native.String.{String}
use loadgen.Base.{
  ℕ, zero, suc, ◌*◌, Bool, true, false, if◌then◌else◌, List, Option, none, some, ℤ, pos, pos_part,
  leb_ℤ, ltb,
}
use loadgen.Harness.Scenario.{ChangeEvent, Injection}

-- `fired_at` is `none` for the zero time; the other times are nanoseconds.
pub record Alert : Type 0 where
  pub id : String
  pub severity : String
  pub service_id : String
  pub fired_at : Option ℕ
  pub dedup_count : ℕ

pub record Origin (F : Type 0) : Type 0 where
  pub service_id : String
  pub confidence : F

-- `analyzed_at` is `none` where the text is no time.
pub record Analysis (F : Type 0) : Type 0 where
  pub analyzed_at : Option ℕ
  pub analysis_text : String
  pub likely_root_cause : String
  pub degraded : Bool
  pub origin : Option (Origin F)

pub record Saturation : Type 0 where
  pub queue_depth : Option ℤ
  pub llm_degraded : Bool

-- The body of an injection: the standard fields, or the payload of the scenario.
pub data Body (F J : Type 0) : Type 0 where
  standard : Injection F J → Body F J
  custom : J → Body F J

-- Each call gives the new state of the outside; `none` and `false` are errors.
pub record Env (F J X : Type 0) : Type 0 where
  pub now : X → ℕ
  -- The `select` of `sleepCtx` for a positive time: `false` if the context was cancelled.
  pub wait : ℕ → X → X × Bool
  pub lower : String → String
  pub fold_eq : String → String → Bool
  pub saturation : X → X × Option Saturation
  -- GET <base>/chaos/status, with the field `active`.
  pub status : String → X → X × Option Bool
  pub kill : String → X → X × Bool
  -- A goroutine that sleeps for so many seconds and then posts a body to a URL.
  pub start_injection : ℤ → String → Body F J → X → X
  pub post_change : ChangeEvent → X → X × Bool
  pub firing : X → X × Option (List Alert)
  pub resolve : String → X → X × Bool
  pub trigger_rca : String → ℕ → X → X × Bool
  pub latest_rca : String → X → X × Option (Analysis F)
  -- The runbook, the alert and the scenario; the id of the action.
  pub trigger_runbook : String → String → String → X → X × Option String
  -- The field `resume` of the decision.
  pub approve : String → X → X × Option String
  -- The text of the answer, empty on an error.
  pub anomalies : X → X × String

abbrev pub second : ℕ
second = 1_000_000_000

-- A number of seconds, or a default where it is not positive.
unfoldable pub window_or : ℕ → ℤ → ℕ
window_or default s = if leb_ℤ s (pos 0) then default else pos_part s * second

-- Computations on the outside, with `none` where the fuel runs out.
abbrev pub M : Type 0 → Type 0 → Type 0
M X A = X → Option (X × A)

abbrev pub pure : {X A : Type 0} → A → M X A
pure a x = some (x, a)

abbrev pub call : {X A : Type 0} → (X → X × A) → M X A
call f x = some (f x)

infixl 20 ◌>>=◌
unfoldable pub ◌>>=◌ : {X A B : Type 0} → M X A → (A → M X B) → M X B
(m >>= f) x = elim (m x) [ none ↦ none | some (y, a) ↦ f a y ]

module _ {F J X : Type 0} (env : Env F J X) where
  unfoldable pub sleep_ctx : ℕ → X → X × Bool
  sleep_ctx zero x = (x, true)
  sleep_ctx (suc n) x = env.wait (suc n) x

  -- The polling loops: while the clock is before the deadline, poll; where that gives no result,
  -- sleep; a cancelled sleep ends the loop by `cancelled`, or goes on where that is `none`.
  unfoldable pub poll :
      {R : Type 0}
      → ℕ
      → (deadline pause : ℕ) → (X → X × Option R)
      → (cancelled : Option R) (late : R) → M X R
  unfolding sleep_ctx
  poll zero deadline pause body cancelled late x = none
  poll (suc fuel) deadline pause body cancelled late x = elim (ltb (env.now x) deadline) [
    | false ↦ some (x, late)
    | true ↦ elim (body x).1 [
      | some r ↦ some ((body x).0, r)
      | none ↦
          let (z, ok) = sleep_ctx pause (body x).0 in
          elim (if ok then none else cancelled) [
            | some r ↦ some (z, r)
            | none ↦ poll fuel deadline pause body cancelled late z
          ]
    ]
  ]
