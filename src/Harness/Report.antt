-- ===== src/Harness/Report.antt =====
-- internal/harness: phases and their outcomes, and the counts of report.go.
pub mod Counts
use Prim.Native.String.{String}
use loadgen.Base.{ℕ, suc, ◌+◌, Bool, true, false, not, if◌then◌else◌, List, [], ◌∷◌, any}

pub data Phase : Type 0 where
  preflight setup inject quiet detect rca remediation business cooldown : Phase

pub data Outcome : Type 0 where
  pass fail skip degraded : Outcome

-- One graded phase; its text and its time are for the reader only.
pub record PhaseResult : Type 0 where
  pub phase : Phase
  pub outcome : Outcome

pub record RunResult : Type 0 where
  pub scenario_id : String
  pub phases : List PhaseResult
  pub passed : Bool

abbrev pub is_fail : Outcome → Bool
is_fail fail = true
is_fail _ = false

abbrev pub is_degraded : Outcome → Bool
is_degraded degraded = true
is_degraded _ = false

-- The loop of `finish` from a value of `Passed`.
unfoldable pub finish_from : Bool → List PhaseResult → Bool
finish_from passed [] = passed
finish_from passed (p ∷ ps) = finish_from (if is_fail p.outcome then false else passed) ps

unfoldable pub finish : String → List PhaseResult → RunResult
unfolding finish_from
finish id phases = record { scenario_id = id; phases = phases; passed = finish_from true phases }

pub record SuiteReport : Type 0 where
  pub runs : List RunResult
  pub passed : ℕ
  pub failed : ℕ
  pub degraded_rca : ℕ

unfoldable pub add_degraded : ℕ → List PhaseResult → ℕ
add_degraded n [] = n
add_degraded n (p ∷ ps) = add_degraded (if is_degraded p.outcome then suc n else n) ps

unfoldable pub count_runs : SuiteReport → List RunResult → SuiteReport
unfolding add_degraded
count_runs rep [] = rep
count_runs rep (r ∷ rs) =
    count_runs
      (record rep {
        passed = if r.passed then suc rep.passed else rep.passed;
        failed = if r.passed then rep.failed else suc rep.failed;
        degraded_rca = add_degraded rep.degraded_rca r.phases;
      })
      rs

unfoldable pub build_suite_report : List RunResult → SuiteReport
unfolding count_runs
build_suite_report runs =
    count_runs (record { runs = runs; passed = 0; failed = 0; degraded_rca = 0 }) runs
