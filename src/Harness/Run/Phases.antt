-- ===== src/Harness/Run/Phases.antt =====
-- The phases of a run: each that the scenario expects stands in its result once, in order.
use Prim.Native.String.{String}
use loadgen.Base.{
  pos_part, ℕ, suc, ◌*◌, ◌≡◌, refl, false, List, [], ◌∷◌, ◌++◌, Option, none, some, ℤ, pos, arith,
}
use loadgen.Base.Float.{Float64}
use loadgen.Harness.Scenario.{Scenario, elements, ChangeEvent}
use loadgen.Harness.Remote.{Alert, Env, ◌>>=◌, second, sleep_ctx}
use loadgen.Harness.Recover.{kill_all, resolve_run_alerts, cooldown as cool_down}
use loadgen.Harness.Report.{
  Phase, preflight, setup, inject, quiet, detect, rca, remediation, business, cooldown, pass, fail,
  PhaseResult, RunResult, finish, finish_from,
}
use loadgen.Harness.Run.{
  PreflightError, Runner, result, run_preflight, post_changes, dispatch, quiet_phase, detect_phase,
  remediation_phase, business_phase, rca_phase, run_graded, run_changes, run,
}
use loadgen.Harness.Total.{Will, Will-next, IsLive}
use loadgen.Harness.Run.Sections.{
  names, if_expected, graded_plan, names-append, IsFueled, quiet_phase-names, detect_phase-names,
  remediation_phase-names, business_phase-names, cooldown-Will, rca_phase-names,
}

module _ {F J X : Type 0} ⦃d : Float64 F⦄ (env : Env F J X) (runner : Runner) where
  -- The phases that a result ends with.
  abbrev pub Plans : Scenario F J → List Phase → RunResult → Type 0
  Plans sc before res = names res.phases ≡ before ++ graded_plan sc.expect

  plan_lem :
      (sc : Scenario F J) (before q f r m b : List PhaseResult)
      → names q ≡ if_expected sc.expect.quiet quiet
      → names f ≡ if_expected sc.expect.detect detect
      → names r ≡ if_expected sc.expect.rca rca
      → names m ≡ if_expected sc.expect.remediation remediation
      → names b ≡ if_expected sc.expect.business business
      → Plans sc (names before) (
          finish sc.id (
            before
            ++ (result inject pass
                ∷ (q ++ (f ++ (r ++ (m ++ (b ++ (result cooldown pass ∷ [])))))))))
  unfolding finish
  plan_lem sc before q f r m b hq hf hr hm hb =
      let c = result cooldown pass ∷ [] in
      grind (
        arith,
        names-append before (result inject pass ∷ (q ++ (f ++ (r ++ (m ++ (b ++ c)))))),
        names-append q (f ++ (r ++ (m ++ (b ++ c)))),
        names-append f (r ++ (m ++ (b ++ c))),
        names-append r (m ++ (b ++ c)),
        names-append m (b ++ c),
        names-append b c,
      )

  run_graded-Plans :
      (n : ℕ) (sc : Scenario F J) (versions : List String) (before : List PhaseResult) (x : X)
      → IsLive env
      → IsFueled n runner sc.expect
      → Will (Plans sc (names before)) (run_graded env runner (suc n) sc versions before x)
  unfolding run_graded ◌>>=◌
  run_graded-Plans n sc versions before x live fuel =
      let e = sc.expect in
      let Q = Plans sc (names before) in
      let after : List Phase → List PhaseResult → Type 0 = λ p ps. names ps ≡ p in
      Will-next (after (if_expected e.quiet quiet)) Q
        (quiet_phase env runner (suc n) (env.now x) e.quiet (dispatch env runner sc.inject x)) _
        (quiet_phase-names env runner n (env.now x) e.quiet _ live fuel.quiet)
        λ q y₁ hq.
          Will-next {A = List PhaseResult × Option Alert}
            (λ r. after (if_expected e.detect detect) r.0) Q
            (detect_phase env runner (suc n) (env.now x) e.detect y₁) _
            (detect_phase-names env runner n (env.now x) e.detect y₁ live fuel.detect)
            λ f y₂ hf.
              Will-next (after (if_expected e.rca rca)) Q
                (rca_phase env runner (suc n) (env.now x) e.detect e.rca versions f.1 y₂) _
                (rca_phase-names env runner n (env.now x) e.detect e.rca versions f.1 y₂ live
                  fuel.rca)
                λ r y₃ hr.
                  Will-next (after (if_expected e.remediation remediation)) Q
                    (remediation_phase env runner (suc n) sc e.remediation f.1 y₃) _
                    (remediation_phase-names env runner n sc e.remediation f.1 y₃ live
                      fuel.remediation)
                    λ m y₄ hm.
                      Will-next (after (if_expected e.business business)) Q
                        (business_phase env runner (suc n) e.business y₄) _
                        (business_phase-names env runner n e.business y₄ live fuel.business)
                        λ b y₅ hb.
                          Will-next (λ r. Unit {0}) Q
                            (cool_down env (suc n) sc.cooldown (
                              resolve_run_alerts env (env.now x)
                                (kill_all env runner.targets sc y₅)))
                            _ (cooldown-Will env runner n sc.cooldown _ live fuel.drain)
                            λ c y₆ hc. plan_lem sc before q f.0 r m b hq hf hr hm hb

  -- The run stopped after these phases, and has not passed.
  abbrev pub StoppedAfter : List Phase → RunResult → Type 0
  StoppedAfter phases res = (names res.phases ≡ phases) × (res.passed ≡ false)

  -- What follows the posting of the changes: a change that could not be posted stops the run.
  abbrev pub AfterSetup : Scenario F J → Option (List String × ℤ) → RunResult → Type 0
  AfterSetup sc none res = StoppedAfter (preflight ∷ setup ∷ []) res
  AfterSetup sc (some posted) res = names res.phases ≡ preflight ∷ setup ∷ graded_plan sc.expect

  -- What follows a preflight that succeeded, in the state after it.
  abbrev pub AfterPreflight : Scenario F J → List ChangeEvent → X → RunResult → Type 0
  AfterPreflight sc [] y res = names res.phases ≡ preflight ∷ graded_plan sc.expect
  AfterPreflight sc (ch ∷ rest) y res =
      AfterSetup sc (post_changes env runner [] (pos 0) (ch ∷ rest) y).1 res

  -- What follows the preflight: an error stops the run.
  abbrev pub Follows : Scenario F J → Option PreflightError → X → RunResult → Type 0
  Follows sc (some e) y res = StoppedAfter (preflight ∷ []) res
  Follows sc none y res = AfterPreflight sc (elements sc.changes) y res

  stopped_first :
      (id : String) → StoppedAfter (preflight ∷ []) (finish id (result preflight fail ∷ []))
  unfolding finish finish_from
  stopped_first id = (refl, refl)

  stopped_second :
      (id : String)
      → StoppedAfter
          (preflight ∷ setup ∷ [])
          (finish id (result preflight pass ∷ result setup fail ∷ []))
  unfolding finish finish_from
  stopped_second id = (refl, refl)

  run_changes-AfterSetup :
      (n : ℕ) (sc : Scenario F J) (changes : List ChangeEvent) (y : X)
      → IsLive env
      → IsFueled n runner sc.expect
      → Will
          (AfterSetup sc (post_changes env runner [] (pos 0) changes y).1)
          (run_changes env runner (suc n) sc changes y)
  unfolding run_changes
  run_changes-AfterSetup n sc changes y live fuel =
      go (post_changes env runner [] (pos 0) changes y).1
    where
      go :
          (o : Option (List String × ℤ))
          → Will (AfterSetup sc o) (elim o as (λ o. Option (X × RunResult)) [
            | none ↦ some (
              (post_changes env runner [] (pos 0) changes y).0,
              finish sc.id (result preflight pass ∷ result setup fail ∷ []),
            )
            | some (versions, lead) ↦
                run_graded env runner
                  (suc n)
                  sc
                  versions
                  (result preflight pass ∷ result setup pass ∷ [])
                  (sleep_ctx env
                    (pos_part lead * second)
                    (post_changes env runner [] (pos 0) changes y).0).0
          ])
      go none = stopped_second sc.id
      go (some vl) =
          run_graded-Plans n sc vl.0 (result preflight pass ∷ result setup pass ∷ []) _ live fuel

  -- On a live outside and with fuel for its windows, a run ends. If the preflight fails, the run stops
  -- there and has not passed. If it succeeds, and a change of the setup cannot be posted, the run stops
  -- after the setup and has not passed. Otherwise its phases are the preflight, the setup if there are
  -- changes, the injection, each expected phase once and in order, and the cooldown.
  pub run-plan :
      (n : ℕ) (sc : Scenario F J) (x : X)
      → IsLive env
      → IsFueled n runner sc.expect
      → Will
          (Follows sc (run_preflight env runner sc x).1 (run_preflight env runner sc x).0)
          (run env runner (suc n) sc x)
  unfolding run
  run-plan n sc x live fuel = first (run_preflight env runner sc x).1
    where
      y : X
      y = (run_preflight env runner sc x).0

      planned :
          (changes : List ChangeEvent)
          → Will (AfterPreflight sc changes y) (elim changes as (λ c. Option (X × RunResult)) [
            | [] ↦ run_graded env runner (suc n) sc [] (result preflight pass ∷ []) y
            | ch ∷ rest ↦ run_changes env runner (suc n) sc (ch ∷ rest) y
          ])
      planned [] = run_graded-Plans n sc [] (result preflight pass ∷ []) y live fuel
      planned (ch ∷ rest) = run_changes-AfterSetup n sc (ch ∷ rest) y live fuel

      first :
          (o : Option PreflightError)
          → Will (Follows sc o y) (elim o as (λ o. Option (X × RunResult)) [
            | some e ↦ some (y, finish sc.id (result preflight fail ∷ []))
            | none ↦ elim (elements sc.changes) [
              | [] ↦ run_graded env runner (suc n) sc [] (result preflight pass ∷ []) y
              | ch ∷ rest ↦ run_changes env runner (suc n) sc (ch ∷ rest) y
            ]
          ])
      first (some e) = stopped_first sc.id
      first none = planned (elements sc.changes)
