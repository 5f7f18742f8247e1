-- ===== src/Harness/Verdict.antt =====
-- cmd/verdict/main.go: the choice of scenarios, the loop of a suite and the exit code. `lower` and
-- `trim` are those of strings; a text comes as the parts that `strings.Split` gives. `run_one` is a
-- run of the harness, with whether the context is cancelled after it.
use Prim.Native.String.{String}
use text.Mathlib.Text.{◌==◌ as str_eq}
use loadgen.Base.{ℕ, ◌==◌, Bool, if◌then◌else◌, List, [], ◌∷◌, Option, none, some, any, select, map}
use loadgen.Harness.Report.{RunResult, build_suite_report}

-- What the command looks at of a scenario.
pub record Entry : Type 0 where
  pub id : String
  pub tags : List String

pub data Command : Type 0 where
  -- A run with its flag `--id`, and a suite with the parts of its flag `--tags`, if it has one.
  run_one_scenario : String → Command
  run_suite : Option (List String) → Command

unfoldable pub filter_by_id : List Entry → String → List Entry
filter_by_id scenarios id = select (λ (s : Entry). str_eq s.id id) scenarios

unfoldable pub filter_by_tags :
    (String → String) → (String → String) → List Entry → List String → List Entry
filter_by_tags lower trim scenarios tags =
    let want = map (λ t. trim (lower t)) tags in
    select (λ (s : Entry). any (λ t. any (λ w. str_eq w (lower t)) want) s.tags) scenarios

-- The scenarios to run, or `none` for an error of the command line or of the directory.
unfoldable pub chosen :
    (String → String) → (String → String) → Command → List Entry → Option (List Entry)
unfolding filter_by_id filter_by_tags
chosen lower trim cmd [] = none
chosen lower trim (run_one_scenario id) scenarios =
    if str_eq id ""
    then none
    else elim (filter_by_id scenarios id) [ [] ↦ none | s ∷ more ↦ some (s ∷ more) ]
chosen lower trim (run_suite none) scenarios = some scenarios
chosen lower trim (run_suite (some tags)) scenarios =
    some (filter_by_tags lower trim scenarios tags)

module _ {X : Type 0} (run_one : Entry → X → (RunResult × Bool) × X) where
  -- The loop over the scenarios, which stops when the context is cancelled.
  unfoldable pub run_all : List Entry → X → List RunResult × X
  run_all [] x = ([], x)
  run_all (s ∷ rest) x =
      let ((r, cancelled), x') = run_one s x in
      let later = run_all rest x' in if cancelled then (r ∷ [], x') else (r ∷ later.0, later.1)

  -- The exit code: 2 for an error, 1 if a run failed, and 0 otherwise.
  unfoldable pub main : (String → String) → (String → String) → Command → List Entry → X → ℕ × X
  unfolding chosen run_all build_suite_report
  main lower trim cmd scenarios x = elim (chosen lower trim cmd scenarios) [
    | none ↦ (2, x)
    | some picked ↦
        let (runs, x') = run_all picked x in
        (if (build_suite_report runs).failed == 0 then 0 else 1, x')
  ]
