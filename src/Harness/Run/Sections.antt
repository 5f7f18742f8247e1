-- ===== src/Harness/Run/Sections.antt =====
-- What each phase of a run adds to its result, and that it ends.
use Prim.Native.String.{String}
use loadgen.Base.{
  ℕ, suc, ◌+◌, ◌*◌, ◌≤◌, ◌≡◌, ap, refl, inl, inr, false, not, List, [], ◌∷◌, ◌++◌, Option, none,
  some, ℤ, map, arith, Bool-cases,
}
use loadgen.Base.Float.{Float64}
use loadgen.Harness.Scenario.{
  ExpectDetect, ExpectRca, ExpectRemediation, ExpectBusiness, ExpectQuiet, Expect, Scenario,
}
use loadgen.Harness.Remote.{Alert, Env, pure, ◌>>=◌, poll, window_or, second, sleep_ctx}
use loadgen.Harness.Detect.Sound.{wait_for_alert-PageOrNone}
use loadgen.Harness.Rca.Grade.{run_rca-Fresh}
use loadgen.Harness.Recover.{cooldown as cool_down, poll_drained}
use loadgen.Harness.Recover.Outcome.{run_remediation-Seen}
use loadgen.Harness.Report.{
  Phase, inject, quiet, detect, rca, remediation, business, cooldown, PhaseResult,
}
use loadgen.Harness.Run.{
  Runner, result, pass_if, alerted, rca_service, quiet_phase, detect_phase, grade_detection,
  remediation_phase, poll_business, business_phase, rca_phase, grade_analysis,
}
use loadgen.Harness.Total.{Will, Will-bind, Will-forget, IsLive, poll-WillAt}

abbrev pub names : List PhaseResult → List Phase
names ps = map (λ p. p.phase) ps

-- The phase of a section, if the section is there.
abbrev pub if_expected : {A : Type 0} → Option A → Phase → List Phase
if_expected none p = []
if_expected (some a) p = p ∷ []

-- A condition on a section that is there.
abbrev pub Where : {A : Type 0} → (A → Type 0) → Option A → Type 0
Where P none = Unit
Where P (some a) = P a

-- The phases from the injection on.
abbrev pub graded_plan : {F : Type 0} → Expect F → List Phase
graded_plan e =
    inject
    ∷ (if_expected e.quiet quiet
        ++ (if_expected e.detect detect
            ++ (if_expected e.rca rca
                ++ (if_expected e.remediation remediation
                    ++ (if_expected e.business business ++ (cooldown ∷ []))))))

pub names-append : (xs ys : List PhaseResult) → names (xs ++ ys) ≡ names xs ++ names ys
names-append [] ys = refl
names-append (x ∷ xs) ys = ap (λ zs. x.phase ∷ zs) (names-append xs ys)

pub Will-weaken :
    {X A : Type 0} (P Q : A → Type 0) (o : Option (X × A))
    → ((a : A) → P a → Q a)
    → Will P o
    → Will Q o
Will-weaken P Q none f h = h
Will-weaken P Q (some (x, a)) f h = f a h

module _ {F : Type 0} where
  -- Fuel for each of the windows of a scenario.
  pub record IsFueled (n : ℕ) (runner : Runner) (e : Expect F) : Type 0 where
    pub quiet : Where (λ q. window_or (600 * second) q.within_seconds ≤ n * runner.poll) e.quiet
    pub detect : Where (λ q. window_or (600 * second) q.within_seconds ≤ n * runner.poll) e.detect
    pub rca : Where (λ q. window_or (360 * second) q.timeout_seconds ≤ n * runner.poll) e.rca
    pub remediation :
        Where
          (λ q. window_or (300 * second) q.recovers_within_seconds ≤ n * (5 * second))
          e.remediation
    pub business :
        Where (λ q. window_or (480 * second) q.timeout_seconds ≤ n * runner.poll) e.business
    pub drain : 600 * second ≤ n * (20 * second)

module _ {F J X : Type 0} (env : Env F J X) (runner : Runner) where
  pub quiet_phase-names :
      (n at : ℕ) (o : Option ExpectQuiet) (x : X)
      → IsLive env
      → Where (λ q. window_or (600 * second) q.within_seconds ≤ n * runner.poll) o
      → Will (λ ps. names ps ≡ if_expected o quiet) (quiet_phase env runner (suc n) at o x)
  unfolding quiet_phase
  quiet_phase-names n at none x live h = refl
  quiet_phase-names n at (some q) x live h =
      Will-bind _ (λ ps. names ps ≡ quiet ∷ []) _
        (λ fired. pure (result quiet (pass_if (not (alerted fired))) ∷ [])) x
        (Will-forget _ _ (wait_for_alert-PageOrNone env q.service n runner.poll at _ x live h))
        (λ a y p. refl)

  pub detect_phase-names :
      (n at : ℕ) (o : Option ExpectDetect) (x : X)
      → IsLive env
      → Where (λ q. window_or (600 * second) q.within_seconds ≤ n * runner.poll) o
      → Will (λ r. names r.0 ≡ if_expected o detect) (detect_phase env runner (suc n) at o x)
  unfolding detect_phase
  detect_phase-names n at none x live h = refl
  detect_phase-names n at (some q) x live h =
      Will-bind _ (λ r. names r.0 ≡ detect ∷ []) _
        (λ found. pure (result detect (grade_detection env runner q found) ∷ [], found)) x
        (Will-forget _ _ (wait_for_alert-PageOrNone env q.service n runner.poll at _ x live h))
        (λ a y p. refl)

  pub remediation_phase-names :
      (n : ℕ) (sc : Scenario F J) (o : Option ExpectRemediation) (detected : Option Alert) (x : X)
      → IsLive env
      → Where (λ q. window_or (300 * second) q.recovers_within_seconds ≤ n * (5 * second)) o
      → Will
          (λ ps. names ps ≡ if_expected o remediation)
          (remediation_phase env runner (suc n) sc o detected x)
  unfolding remediation_phase
  remediation_phase-names n sc none detected x live h = refl
  remediation_phase-names n sc (some q) detected x live h =
      elim (Bool-cases runner.skip_remediation) [
        | inl e ↦ rw (e, Will) refl
        | inr e ↦
            rw (e, Will)
              (Will-bind _ (λ ps. names ps ≡ remediation ∷ []) _ _ x
                (Will-forget _ _ (run_remediation-Seen env runner.targets n sc q detected x live h))
                (λ a y p. refl))
      ]

  pub business_phase-names :
      (n : ℕ) (o : Option ExpectBusiness) (x : X)
      → IsLive env
      → Where (λ q. window_or (480 * second) q.timeout_seconds ≤ n * runner.poll) o
      → Will (λ ps. names ps ≡ if_expected o business) (business_phase env runner (suc n) o x)
  unfolding business_phase ◌>>=◌
  business_phase-names n none x live h = refl
  business_phase-names n (some b) x live h =
      Will-bind (λ r. Unit {0}) (λ ps. names ps ≡ business ∷ [])
        (poll env (suc n) (env.now x + window_or (480 * second) b.timeout_seconds) runner.poll
          (poll_business env runner b) none false)
        (λ hit. pure (result business (pass_if hit) ∷ [])) x
        (Will-forget _ _ (
          poll-WillAt env (λ z r. Unit {0}) n
            (env.now x + window_or (480 * second) b.timeout_seconds) runner.poll
            (poll_business env runner b) none false x live live.anomalies_mono (λ z. tt)
            (λ y r e. tt) (ground arith)))
        (λ a y p. refl)

  pub cooldown-Will :
      (n : ℕ) (floor : ℤ) (x : X)
      → IsLive env
      → 600 * second ≤ n * (20 * second)
      → Will (λ r. Unit {0}) (cool_down env (suc n) floor x)
  unfolding cool_down
  cooldown-Will n floor x live h =
      let y = (sleep_ctx env (window_or (180 * second) floor) x).0 in
      Will-forget _ _ (
        poll-WillAt env (λ z r. Unit {0}) n (env.now y + 600 * second) (20 * second)
          (poll_drained env) (some false) false y live live.saturation_mono (λ z. tt) (λ z r e. tt)
          (ground arith))

module _ {F J X : Type 0} ⦃d : Float64 F⦄ (env : Env F J X) (runner : Runner) where
  pub rca_phase-names :
      (n at : ℕ) (det : Option ExpectDetect) (o : Option (ExpectRca F)) (versions : List String)
      (detected : Option Alert) (x : X)
      → IsLive env
      → Where (λ q. window_or (360 * second) q.timeout_seconds ≤ n * runner.poll) o
      → Will
          (λ ps. names ps ≡ if_expected o rca)
          (rca_phase env runner (suc n) at det o versions detected x)
  unfolding rca_phase
  rca_phase-names n at det none versions detected x live h = refl
  rca_phase-names n at det (some e) versions detected x live h =
      Will-bind _ (λ ps. names ps ≡ rca ∷ []) _
        (λ r. pure (result rca (grade_analysis env runner e versions r) ∷ [])) x
        (Will-forget _ _
          (run_rca-Fresh env n runner.poll (rca_service det e) at e detected x live h))
        (λ a y p. refl)
