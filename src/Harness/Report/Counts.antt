-- ===== src/Harness/Report/Counts.antt =====
-- The counts of a suite against the phases of its runs.
use Prim.Native.String.{String}
use loadgen.Base.{
  ℕ, suc, ◌+◌, ◌≡◌, ◌∙◌, ap, refl, Bool, true, false, not, if◌then◌else◌, List, [], ◌∷◌, any, map,
  length, select, arith,
}
use loadgen.Harness.Report.{
  PhaseResult, RunResult, is_fail, is_degraded, finish_from, finish, SuiteReport, add_degraded,
  count_runs, build_suite_report,
}

-- A run as `Run` ends it: an id and the phases.
abbrev pub Graded : Type 0
Graded = String × List PhaseResult

abbrev pub finished : Graded → RunResult
finished g = finish g.0 g.1

abbrev pub fails : Graded → Bool
fails g = any (λ p. is_fail p.outcome) g.1

abbrev pub count : (PhaseResult → Bool) → List PhaseResult → ℕ
count p ps = length (select p ps)

abbrev pub total_degraded : List Graded → ℕ
total_degraded [] = 0
total_degraded (g ∷ gs) = count (λ p. is_degraded p.outcome) g.1 + total_degraded gs

finish_from_lem :
    (b : Bool) (ps : List PhaseResult)
    → finish_from b ps ≡ (if any (λ p. is_fail p.outcome) ps then false else b)
unfolding finish_from
finish_from_lem b [] = refl
finish_from_lem b (p ∷ ps) = ground (arith, finish_from_lem b ps, finish_from_lem false ps)

passed_lem : (g : Graded) → (finished g).passed ≡ not (fails g)
unfolding finish
passed_lem g = ground (arith, finish_from_lem true g.1)

phases_lem : (g : Graded) → (finished g).phases ≡ g.1
unfolding finish
phases_lem g = refl

add_degraded_lem :
    (n : ℕ) (ps : List PhaseResult) → add_degraded n ps ≡ n + count (λ p. is_degraded p.outcome) ps
unfolding add_degraded
add_degraded_lem n [] = omega arith
add_degraded_lem n (p ∷ ps) = ground (arith, add_degraded_lem n ps, add_degraded_lem (suc n) ps)

-- The report counts these numbers of runs.
pub record Counts (start rep : SuiteReport) (gs : List Graded) : Type 0 where
  pub passed : rep.passed ≡ start.passed + length (select (λ g. not (fails g)) gs)
  pub failed : rep.failed ≡ start.failed + length (select fails gs)
  pub total : rep.passed + rep.failed ≡ start.passed + start.failed + length gs
  pub degraded_rca : rep.degraded_rca ≡ start.degraded_rca + total_degraded gs

count_runs-Counts :
    (start : SuiteReport) (gs : List Graded) → Counts start (count_runs start (map finished gs)) gs
unfolding count_runs
count_runs-Counts start [] = record {
  passed = omega arith;
  failed = omega arith;
  total = omega arith;
  degraded_rca = omega arith;
}
count_runs-Counts start (g ∷ gs) =
    let next = record start {
      passed = if (finished g).passed then suc start.passed else start.passed;
      failed = if (finished g).passed then start.failed else suc start.failed;
      degraded_rca = add_degraded start.degraded_rca (finished g).phases;
    } in
    let ih = count_runs-Counts next gs in
    let p = passed_lem g in
    let a =
      ap (add_degraded start.degraded_rca) (phases_lem g)
      ∙ add_degraded_lem start.degraded_rca g.1 in
    record {
      passed = ground (arith, p, ih.passed);
      failed = ground (arith, p, ih.failed);
      total = ground (arith, p, ih.total);
      degraded_rca = ground (arith, a, ih.degraded_rca);
    }

-- A suite counts as passed exactly the runs in which no phase failed, and as failed the others; the
-- two make up the runs; and a degraded phase is counted, but fails no run.
pub build_suite_report-Counts :
    (gs : List Graded)
    → Counts
        (record { runs = map finished gs; passed = 0; failed = 0; degraded_rca = 0 })
        (build_suite_report (map finished gs))
        gs
unfolding build_suite_report
build_suite_report-Counts gs = count_runs-Counts _ gs
