-- ===== src/Harness/Run.antt =====
-- internal/harness/runner.go: `Run`, phase by phase. Each phase gives its graded results, none where
-- the scenario does not expect it.
pub mod Sections
pub mod Phases
use Prim.Native.String.{String, ◌++◌ as ◌+++◌}
use text.Mathlib.Text.{◌==◌ as str_eq}
use loadgen.Base.{
  ℕ, zero, suc, ◌+◌, ◌*◌, ◌++◌, Bool, true, false, not, ◌&&◌, if◌then◌else◌, List, [], ◌∷◌, Option,
  none, some, ℤ, pos, pos_part, ltb_ℤ,
}
use loadgen.Base.Float.{Float64}
use loadgen.Harness.Texts.{mentions, contains_fold, or_deploy}
use loadgen.Harness.Scenario.{
  ChangeEvent, Injection, ExpectDetect, ExpectRca, ExpectRemediation, ExpectBusiness, ExpectQuiet,
  Scenario, elements,
}
use loadgen.Harness.Remote.{
  Alert, Analysis, Saturation, Body, standard, custom, Env, M, pure, call, ◌>>=◌, poll, sleep_ctx,
  window_or, second,
}
use loadgen.Harness.Detect.{wait_for_alert}
use loadgen.Harness.Rca.{RcaResult, analysed, run_rca, grade_rca, is_empty}
use loadgen.Harness.Recover.{
  Remedied, recovered, run_remediation, kill_all, resolve_run_alerts, cooldown as cool_down,
}
use loadgen.Harness.Report.{
  Phase, preflight, setup, inject, quiet, detect, rca, remediation, business, cooldown, Outcome,
  pass, fail, skip, degraded, PhaseResult, RunResult, finish,
}

pub record Runner : Type 0 where
  pub targets : String → Option String
  pub skip_remediation : Bool
  -- Nanoseconds.
  pub poll : ℕ

pub data PreflightError : Type 0 where
  already_degraded : PreflightError
  no_url unreachable : String → PreflightError

abbrev pub result : Phase → Outcome → PhaseResult
result p o = record { phase = p; outcome = o }

abbrev pub pass_if : Bool → Outcome
pass_if b = if b then pass else fail

abbrev pub is_degraded_now : Option Saturation → Bool
is_degraded_now none = false
is_degraded_now (some sat) = sat.llm_degraded

abbrev pub alerted : Option Alert → Bool
alerted none = false
alerted (some a) = true

-- The service that the RCA phase asks about.
abbrev pub rca_service : {F : Type 0} → Option ExpectDetect → ExpectRca F → String
rca_service (some det) e = det.service
rca_service none e = elim e.origin_any [ [] ↦ "" | o ∷ rest ↦ o ]

module _ {F J X : Type 0} (env : Env F J X) (runner : Runner) where
  unfoldable pub check_targets : List (Injection F J) → X → X × Option PreflightError
  check_targets [] x = (x, none)
  check_targets (inj ∷ rest) x = elim (runner.targets inj.target) [
    | none ↦ (x, some (no_url inj.target))
    | some base ↦
        let (y, answer) = env.status base x in
        elim answer [ none ↦ (y, some (unreachable inj.target)) | some b ↦ check_targets rest y ]
  ]

  -- `none` is success. An error of the saturation endpoint is tolerated.
  unfoldable pub run_preflight : Scenario F J → X → X × Option PreflightError
  unfolding check_targets
  run_preflight sc x =
      let (y, sat) = env.saturation x in
      if is_degraded_now sat then (y, some already_degraded) else check_targets sc.inject y

  -- The loop over the changes: the versions so far and the longest lead, or `none` for a failure.
  unfoldable pub post_changes :
      List String → ℤ → List ChangeEvent → X → X × Option (List String × ℤ)
  post_changes versions lead [] x = (x, some (versions, lead))
  post_changes versions lead (ch ∷ rest) x =
      let (y, ok) = env.post_change (record ch { kind = or_deploy ch.kind }) x in
      elim ok [
        | false ↦ (y, none)
        | true ↦
            post_changes (if str_eq ch.version "" then versions else versions ++ (ch.version ∷ []))
              (if ltb_ℤ lead ch.lead_seconds then ch.lead_seconds else lead) rest y
      ]

  -- The URL and the body of an injection; a target without a URL has the empty one.
  unfoldable pub injection_url : Injection F J → String
  injection_url inj =
      elim (runner.targets inj.target) [ none ↦ "" | some base ↦ base ]
      +++ (if str_eq inj.path "" then "/chaos/" +++ inj.type else inj.path)

  abbrev pub injection_body : Injection F J → Body F J
  injection_body inj = elim inj.payload [ none ↦ standard inj | some p ↦ custom p ]

  unfoldable pub dispatch : List (Injection F J) → X → X
  unfolding injection_url
  dispatch [] x = x
  dispatch (inj ∷ rest) x =
      dispatch rest
        (env.start_injection inj.delay_seconds (injection_url inj) (injection_body inj) x)

  unfoldable pub quiet_phase : ℕ → ℕ → Option ExpectQuiet → M X (List PhaseResult)
  quiet_phase fuel inject_at none = pure []
  quiet_phase fuel inject_at (some q) = do
    fired ←
        wait_for_alert env q.service fuel runner.poll inject_at
          (window_or (600 * second) q.within_seconds)
    pure (result quiet (pass_if (not (alerted fired))) ∷ [])

  abbrev pub grade_detection : ExpectDetect → Option Alert → Outcome
  grade_detection det none = fail
  grade_detection det (some a) =
      if not (is_empty det.severities_any)
        && not (contains_fold env.fold_eq det.severities_any a.severity)
      then fail
      else pass

  unfoldable pub detect_phase : ℕ → ℕ → Option ExpectDetect → M X (List PhaseResult × Option Alert)
  detect_phase fuel inject_at none = pure ([], none)
  detect_phase fuel inject_at (some det) = do
    found ←
        wait_for_alert env det.service fuel runner.poll inject_at
          (window_or (600 * second) det.within_seconds)
    pure (result detect (grade_detection det found) ∷ [], found)

  unfoldable pub remediation_phase :
      ℕ → Scenario F J → Option ExpectRemediation → Option Alert → M X (List PhaseResult)
  remediation_phase fuel sc none detected = pure []
  remediation_phase fuel sc (some rem) detected = elim runner.skip_remediation [
    | true ↦ pure (result remediation skip ∷ [])
    | false ↦ do
      r ← run_remediation env runner.targets fuel sc rem detected
      pure (result remediation (elim r [ recovered ↦ pass | _ ↦ fail ]) ∷ [])
  ]

  abbrev pub poll_business : ExpectBusiness → X → X × Option Bool
  poll_business b x =
      let (y, raw) = env.anomalies x in
      (y, if mentions env.lower (env.lower raw) b.keyword_any then some true else none)

  -- This loop does not look at what its sleep returns.
  unfoldable pub business_phase : ℕ → Option ExpectBusiness → M X (List PhaseResult)
  business_phase fuel none = pure []
  business_phase fuel (some b) = do
    from ← call (λ x. (x, env.now x))
    hit ←
        poll env fuel (from + window_or (480 * second) b.timeout_seconds) runner.poll
          (poll_business b) none false
    pure (result business (pass_if hit) ∷ [])

module _ {F J X : Type 0} ⦃d : Float64 F⦄ (env : Env F J X) (runner : Runner) where
  abbrev pub grade_analysis : ExpectRca F → List String → RcaResult F → Outcome
  grade_analysis e versions (analysed a) =
      if a.degraded then degraded else pass_if (is_empty (grade_rca env a e versions))
  grade_analysis e versions _ = fail

  unfoldable pub rca_phase :
      ℕ
      → ℕ
      → Option ExpectDetect
      → Option (ExpectRca F)
      → List String
      → Option Alert
      → M X (List PhaseResult)
  rca_phase fuel inject_at det none versions detected = pure []
  rca_phase fuel inject_at det (some e) versions detected = do
    r ← run_rca env fuel runner.poll (rca_service det e) inject_at e detected
    pure (result rca (grade_analysis e versions r) ∷ [])

  -- From the injection on, after the phases in `before`.
  unfoldable pub run_graded : ℕ → Scenario F J → List String → List PhaseResult → M X RunResult
  unfolding quiet_phase detect_phase rca_phase remediation_phase business_phase
  run_graded fuel sc versions before = do
    inject_at ← call (λ x. (x, env.now x))
    started ← call (λ x. (dispatch env runner sc.inject x, true))
    q ← quiet_phase env runner fuel inject_at sc.expect.quiet
    found ← detect_phase env runner fuel inject_at sc.expect.detect
    r ← rca_phase fuel inject_at sc.expect.detect sc.expect.rca versions found.1
    m ← remediation_phase env runner fuel sc sc.expect.remediation found.1
    b ← business_phase env runner fuel sc.expect.business
    killed ← call (λ x. (kill_all env runner.targets sc x, true))
    resolved ← call (λ x. (resolve_run_alerts env inject_at x, true))
    drained ← cool_down env fuel sc.cooldown
    pure (
        finish sc.id (
          before
          ++ (result inject pass
              ∷ (q ++ (found.0 ++ (r ++ (m ++ (b ++ (result cooldown pass ∷ [])))))))))

  -- The setup, for a list of changes that is not empty.
  unfoldable pub run_changes : ℕ → Scenario F J → List ChangeEvent → M X RunResult
  unfolding run_graded
  run_changes fuel sc changes x = elim (post_changes env runner [] (pos 0) changes x).1 [
    | none ↦ some (
      (post_changes env runner [] (pos 0) changes x).0,
      finish sc.id (result preflight pass ∷ result setup fail ∷ []),
    )
    | some (versions, lead) ↦
        run_graded fuel sc versions (result preflight pass ∷ result setup pass ∷ [])
          (sleep_ctx env (pos_part lead * second)
            (post_changes env runner [] (pos 0) changes x).0).0
  ]

  unfoldable pub run : ℕ → Scenario F J → M X RunResult
  unfolding run_changes
  run fuel sc x = elim (run_preflight env runner sc x).1 [
    | some e ↦ some ((run_preflight env runner sc x).0, finish sc.id (result preflight fail ∷ []))
    | none ↦ elim (elements sc.changes) [
      | [] ↦ run_graded fuel sc [] (result preflight pass ∷ []) (run_preflight env runner sc x).0
      | ch ∷ rest ↦ run_changes fuel sc (ch ∷ rest) (run_preflight env runner sc x).0
    ]
  ]
