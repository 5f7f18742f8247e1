-- ===== src/Harness/Examples.antt =====
-- internal/harness at a concrete outside: a clock, a firing alert, and a target that recovers.
use Prim.Native.String.{String}
use text.Mathlib.Text.{◌==◌ as str_eq}
use loadgen.Base.{
  if◌then◌else◌, ℕ, ◌*◌, ◌+◌, ◌≡◌, refl, ◌↔◌, true, false, List, [], ◌∷◌, none, some, pos, map,
  arith,
}
use loadgen.Base.Milli.{Milli, milli_float}
use loadgen.Harness.Scenario.{Scenario, Injection, ExpectRca, ExpectRemediation, validate}
use loadgen.Harness.Scenario.Valid.{IsRunnable, validate-IsRunnable}
use loadgen.Harness.Remote.{window_or, Alert, Analysis, Env, second}
use loadgen.Harness.Detect.{wait_for_alert}
use loadgen.Harness.Detect.Sound.{PageOrNone, wait_for_alert-PageOrNone}
use loadgen.Harness.Rca.{run_rca, grade_rca, is_empty}
use loadgen.Harness.Rca.Grade.{Fresh, run_rca-Fresh, IsClean, grade_rca-IsClean}
use loadgen.Harness.Recover.{run_remediation, recovery_target, kill_all, is_in}
use loadgen.Harness.Recover.Outcome.{
  Seen, run_remediation-Seen, kill_in_turn, AllDifferent, kill_all_once,
}
use loadgen.Harness.Report.{detect, cooldown, pass, fail, build_suite_report}
use loadgen.Harness.Report.Counts.{Graded, finished, Counts, build_suite_report-Counts}
use loadgen.Harness.Run.{Runner, result, run, run_preflight}
use loadgen.Harness.Run.Sections.{IsFueled}
use loadgen.Harness.Run.Phases.{Follows, run-plan}
use loadgen.Harness.Total.{Will, WillAt, IsLive}

abbrev page : Alert
page = record {
  id = "a1";
  severity = "critical";
  service_id = "acme/order";
  fired_at = some (100 * second);
  dedup_count = 2;
}

abbrev finding : Analysis Milli
finding = record {
  analyzed_at = some (900 * second);
  analysis_text = "pool exhausted";
  likely_root_cause = "db";
  degraded = false;
  origin = some (record { service_id = "acme/order"; confidence = some 700 });
}

-- The outside is its clock.
abbrev outside : Env Milli Unit ℕ
outside = record {
  now = λ x. x;
  wait = λ n x. (x + n, true);
  lower = λ s. s;
  fold_eq = str_eq;
  saturation = λ x. (x, some (record { queue_depth = some (pos 0); llm_degraded = false }));
  status = λ url x. (x, some false);
  kill = λ url x. (x + 1, true);
  start_injection = λ delay url body x. x;
  post_change = λ change x. (x, true);
  firing = λ x. (x, some (page ∷ []));
  resolve = λ id x. (x, true);
  trigger_rca = λ service time x. (x, true);
  latest_rca = λ service x. (x, some finding);
  trigger_runbook = λ runbook alert scenario x. (x, some "action");
  approve = λ action x. (x, some "runbook_dispatched");
  anomalies = λ x. (x, "");
}

outside-IsLive : IsLive outside
outside-IsLive = record {
  not_cancelled = λ n x. refl;
  wait_ticks = λ n x. omega arith;
  saturation_mono = λ x. omega arith;
  firing_mono = λ x. omega arith;
  latest_rca_mono = λ s x. omega arith;
  status_mono = λ s x. omega arith;
  anomalies_mono = λ x. omega arith;
}

abbrev runner : Runner
runner = record {
  targets = λ name. if str_eq name "order" then some "http://order" else none;
  skip_remediation = false;
  poll = 15 * second;
}

abbrev injection : Injection Milli Unit
injection = record {
  target = "order";
  type = "db-slow";
  intensity = some 800;
  duration_seconds = some 600_000;
  onset = "ramp";
  ramp_seconds = some 60_000;
  flap_period_seconds = some 0;
  sticky = true;
  scope_percent = some 1000;
  delay_seconds = pos 5;
  path = "";
  payload = none;
}

abbrev rca_wanted : ExpectRca Milli
rca_wanted = record {
  origin_any = "order" ∷ [];
  origin_confidence_min = some 500;
  evidence_keywords_any = "pool" ∷ [];
  require_change_evidence = false;
  timeout_seconds = pos 0;
  trigger_delay_seconds = pos 0;
}

abbrev remedy : ExpectRemediation
remedy = record { runbook_id = "reset-pool"; target = ""; recovers_within_seconds = pos 60 }

abbrev scenario : Scenario Milli Unit
scenario = record {
  id = "s1";
  changes = none;
  inject = injection ∷ injection ∷ [];
  expect = record {
    detect =
        some (record {
          service = "order";
          within_seconds = pos 300;
          severities_any = "critical" ∷ [];
        });
    rca = some rca_wanted;
    remediation = some remedy;
    business = none;
    quiet = none;
  };
  cooldown = pos 0;
}

enough : IsFueled 60 runner scenario.expect
unfolding window_or
enough = record {
  quiet = tt;
  detect = omega arith;
  rca = omega arith;
  remediation = omega arith;
  business = tt;
  drain = omega arith;
}

run-plan_example :
    Will
      (Follows outside runner scenario
        (run_preflight outside runner scenario (200 * second)).1
        (run_preflight outside runner scenario (200 * second)).0)
      (run outside runner 61 scenario (200 * second))
run-plan_example = run-plan outside runner 60 scenario (200 * second) outside-IsLive enough

wait_for_alert-PageOrNone_example :
    WillAt
      (PageOrNone outside "order" (90 * second) (page ∷ []))
      (wait_for_alert outside "order" 41 (15 * second) (90 * second) (600 * second) (95 * second))
wait_for_alert-PageOrNone_example =
    wait_for_alert-PageOrNone outside "order" 40 (15 * second) (90 * second) (600 * second)
      (95 * second) outside-IsLive (omega arith)

run_rca-Fresh_example :
    WillAt
      (Fresh outside "order" (90 * second))
      (run_rca outside 61 (15 * second) "order" (90 * second) rca_wanted (some page) (95 * second))
run_rca-Fresh_example =
    run_rca-Fresh outside 60 (15 * second) "order" (90 * second) rca_wanted (some page)
      (95 * second) outside-IsLive enough.rca

grade_rca-IsClean_example :
    (is_empty (grade_rca outside finding rca_wanted []) ≡ true)
    ↔ IsClean outside finding rca_wanted []
grade_rca-IsClean_example = grade_rca-IsClean outside finding rca_wanted []

run_remediation-Seen_example :
    WillAt
      (Seen outside runner.targets (recovery_target outside runner.targets scenario remedy))
      (run_remediation outside runner.targets 61 scenario remedy (some page) 7)
run_remediation-Seen_example =
    run_remediation-Seen outside runner.targets 60 scenario remedy (some page) 7 outside-IsLive
      enough.remediation

kill_all_once_example :
    (ts : List String) × (kill_all outside runner.targets scenario 7
      ≡ kill_in_turn outside runner.targets ts 7)
    × AllDifferent outside runner.targets ts
    × ((t : String) → is_in t ts ≡ is_in t ("order" ∷ "order" ∷ []))
kill_all_once_example = kill_all_once outside runner.targets scenario 7

abbrev graded : List Graded
graded =
    ("s1", result detect pass ∷ result cooldown pass ∷ []) ∷ ("s2", result detect fail ∷ []) ∷ []

build_suite_report-Counts_example :
    Counts
      (record { runs = map finished graded; passed = 0; failed = 0; degraded_rca = 0 })
      (build_suite_report (map finished graded))
      graded
build_suite_report-Counts_example = build_suite_report-Counts graded

validate-IsRunnable_example : (validate scenario ≡ none) ↔ IsRunnable scenario
validate-IsRunnable_example = validate-IsRunnable scenario
