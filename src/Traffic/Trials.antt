-- ===== src/Traffic/Trials.antt =====
-- The traffic generator at concrete inputs.
use loadgen.Base.{◌+◌, ◌*◌, ◌/◌, ℕ, ◌≡◌, refl, List, [], ◌∷◌, none, arith}
use loadgen.Traffic.Stats.{
  started, TrafficEvent, answered, ticks, record_request, summary, printed, run,
}
use loadgen.Traffic.Summaries.{IsRank, Outcome, run-Outcome}

-- `math.Ceil(0.99 * n)` without rounding errors.
abbrev rank99 : ℕ → ℕ
rank99 n = (99 * n + 99) / 100

rank99-IsRank : IsRank rank99
rank99-IsRank n h = omega arith

-- A request, a summary, and a summary of an idle half minute.
abbrev idle_after_one : List TrafficEvent
idle_after_one = ticks ∷ answered 200 3_000_000 ∷ ticks ∷ ticks ∷ answered 0 9_000_000 ∷ []

-- The window's summary has its average and its 99th percentile in milliseconds.
printed_trial :
    printed rank99 (record_request 500 8_000_000 (record_request 200 2_000_000 started))
    ≡ summary (record { total = 2; failures = 1; avg_latency_ms = 5; p99_latency_ms = 8 })
unfolding printed record_request
printed_trial = refl

-- The idle window ends the program.
run_trial : run rank99 idle_after_one started ≡ none
unfolding run
run_trial = refl

run-Outcome_example : Outcome idle_after_one (run rank99 idle_after_one started)
run-Outcome_example = run-Outcome rank99 rank99-IsRank idle_after_one
