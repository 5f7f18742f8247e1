-- ===== src/Harness/Rca.antt =====
-- internal/harness/runner.go: `runRCA` and `gradeRCA`.
pub mod Grade
use Prim.Native.String.{String, ◌++◌ as ◌+++◌}
use text.Mathlib.Text.{◌==◌ as str_eq}
use loadgen.Base.{
  ℕ, zero, suc, ◌+◌, ◌*◌, ◌++◌, Bool, true, false, not, ◌&&◌, ◌||◌, if◌then◌else◌, List, [], ◌∷◌,
  Option, none, some, ℤ, pos, pos_part, ltb, ltb_ℤ, any, select,
}
use loadgen.Base.Float.{Float64}
use loadgen.Harness.Scenario.{ExpectRca}
use loadgen.Harness.Texts.{service_matches, mentions, contains}
use loadgen.Harness.Remote.{Alert, Origin, Analysis, Env, M, poll, sleep_ctx, window_or, second}

-- The errors of `runRCA`.
pub data RcaResult (F : Type 0) : Type 0 where
  no_service cancelled refused late : RcaResult F
  analysed : Analysis F → RcaResult F

-- The entries of `fails`.
pub data GradeFail : Type 0 where
  wrong_origin low_confidence no_keyword no_change : GradeFail

-- Nanoseconds before the trigger: 240 s by default, and none for a negative setting.
unfoldable pub trigger_delay : ℤ → ℕ
trigger_delay (pos zero) = 240 * second
trigger_delay n = pos_part n * second

-- The time that the analysis is asked for.
unfoldable pub anchor : ℕ → Option Alert → ℕ
anchor now none = now
anchor now (some a) = elim a.fired_at [ none ↦ now | some t ↦ t ]

abbrev pub is_empty : {A : Type 0} → List A → Bool
is_empty [] = true
is_empty (x ∷ xs) = false

-- Whether an analysis is from after the injection.
abbrev pub analysed_after : Option ℕ → ℕ → Bool
analysed_after none t = false
analysed_after (some n) t = ltb t n

module _ {F J X : Type 0} (env : Env F J X) where
  abbrev pub poll_rca : String → ℕ → X → X × Option (RcaResult F)
  poll_rca service inject_at x = (
    (env.latest_rca service x).0,
    elim (env.latest_rca service x).1 [
      | none ↦ none
      | some a ↦ if analysed_after a.analyzed_at inject_at then some (analysed a) else none
    ],
  )

  -- From the trigger on.
  unfoldable pub trigger_and_wait :
      ℕ → ℕ → String → ℕ → ExpectRca F → Option Alert → M X (RcaResult F)
  unfolding anchor
  trigger_and_wait fuel pause service inject_at e detected x =
      let (y, ok) = env.trigger_rca service (anchor (env.now x) detected) x in
      elim ok [
        | false ↦ some (y, refused)
        | true ↦
            poll env fuel (env.now y + window_or (360 * second) e.timeout_seconds) pause
              (poll_rca service inject_at) (some cancelled) late y
      ]

  unfoldable pub run_rca : ℕ → ℕ → String → ℕ → ExpectRca F → Option Alert → M X (RcaResult F)
  unfolding trigger_and_wait trigger_delay
  run_rca fuel pause service inject_at e detected x = elim (str_eq service "") [
    | true ↦ some (x, no_service)
    | false ↦
        let (y, ok) = sleep_ctx env (trigger_delay e.trigger_delay_seconds) x in
        elim ok [
          | false ↦ some (y, cancelled)
          | true ↦ trigger_and_wait fuel pause service inject_at e detected y
        ]
  ]

  abbrev pub fail_if : Bool → GradeFail → List GradeFail
  fail_if b f = if b then f ∷ [] else []

  -- The search over the wanted origins.
  abbrev pub origin_found : Option (Origin F) → List String → Bool
  origin_found none wanted = false
  origin_found (some o) wanted = any (λ w. service_matches env.lower o.service_id w) wanted

module _ {F J X : Type 0} ⦃d : Float64 F⦄ (env : Env F J X) where
  abbrev pub is_unsure : Option (Origin F) → F → Bool
  is_unsure none least = false
  is_unsure (some o) least = d.lt (d.lit 0) least && d.lt o.confidence least

  unfoldable pub grade_origin : Analysis F → ExpectRca F → List GradeFail
  grade_origin a e =
      if is_empty e.origin_any
      then []
      else if origin_found env a.origin e.origin_any
      then fail_if env (is_unsure a.origin e.origin_confidence_min) low_confidence
      else wrong_origin ∷ []

  -- The text that is searched.
  abbrev pub graded_text : Analysis F → String
  graded_text a = env.lower (a.analysis_text +++ (" " +++ a.likely_root_cause))

  -- The list `fails`: the phase passes where it is empty.
  unfoldable pub grade_rca : Analysis F → ExpectRca F → List String → List GradeFail
  unfolding grade_origin
  grade_rca a e versions =
      let text = graded_text a in
      grade_origin a e
      ++ (fail_if env
            (not (is_empty e.evidence_keywords_any)
              && not (mentions env.lower text e.evidence_keywords_any))
            no_keyword
          ++ fail_if env
              (e.require_change_evidence
                && not (mentions env.lower text (select (λ v. not (str_eq v "")) versions)))
              no_change)
