-- ===== src/Traffic/Stats.antt =====
-- cmd/traffic/main.go: the statistics of the traffic generator, and what it prints of them every 30
-- seconds. Latencies are nanoseconds; `math.Ceil` of 0.99 of a count is the parameter `rank`.
use loadgen.Base.{
  ℕ, ◌+◌, ◌-◌, ◌/◌, ◌==◌, ◌&&◌, if◌then◌else◌, List, [], ◌∷◌, ◌++◌, Option, none, some, ltb, leb,
  length, get_elem?,
}

pub record Statistics : Type 0 where
  pub total : ℕ
  pub successes : ℕ
  pub failures : ℕ
  pub latencies : List ℕ

pub record Summary : Type 0 where
  pub total : ℕ
  pub failures : ℕ
  pub avg_latency_ms : ℕ
  pub p99_latency_ms : ℕ

-- What a summary prints; a division by 0 or an index out of range is a panic, which ends the program.
pub data Printed : Type 0 where
  no_requests : Printed
  summary : Summary → Printed
  panic : Printed

abbrev pub started : Statistics
started = record { total = 0; successes = 0; failures = 0; latencies = [] }

-- `record`, with the status 0 for a request without an answer.
unfoldable pub record_request : ℕ → ℕ → Statistics → Statistics
record_request status latency s =
    let ok = leb 200 status && ltb status 400 in
    record s {
      total = s.total + 1;
      successes = if ok then s.successes + 1 else s.successes;
      failures = if ok then s.failures else s.failures + 1;
      latencies = s.latencies ++ (latency ∷ []);
    }

-- `sort.Slice`.
abbrev pub insert_sorted : ℕ → List ℕ → List ℕ
insert_sorted x [] = x ∷ []
insert_sorted x (y ∷ ys) = let rest = insert_sorted x ys in if leb x y then x ∷ y ∷ ys else y ∷ rest

abbrev pub sort_latencies : List ℕ → List ℕ
sort_latencies [] = []
sort_latencies (x ∷ xs) = insert_sorted x (sort_latencies xs)

abbrev pub sum_latencies : List ℕ → ℕ
sum_latencies [] = 0
sum_latencies (x ∷ xs) = x + sum_latencies xs

pub data TrafficEvent : Type 0 where
  answered : ℕ → ℕ → TrafficEvent
  ticks : TrafficEvent

-- A panic ends the program.
abbrev pub proceed : Printed → Option Statistics → Option Statistics
proceed panic rest = none
proceed no_requests rest = rest
proceed (summary x) rest = rest

module _ (rank : ℕ → ℕ) where
  -- `latencies[rank-1]`, of the sorted ones; `none` is an index out of range.
  abbrev pub percentile : List ℕ → Option ℕ
  percentile ls =
      let r = rank (length ls) in if r == 0 then none else get_elem? (sort_latencies ls) (r - 1)

  unfoldable pub printed : Statistics → Printed
  printed s =
      if s.total == 0
      then no_requests
      else if length s.latencies == 0
      then panic
      else elim (percentile s.latencies) [
        | none ↦ panic
        | some p99 ↦ summary (record {
          total = s.total;
          failures = s.failures;
          avg_latency_ms = (sum_latencies s.latencies / length s.latencies) / 1_000_000;
          p99_latency_ms = p99 / 1_000_000;
        })
      ]

  -- The window's latencies are dropped; the counts are those since the start.
  unfoldable pub summarize : Statistics → Statistics × Printed
  unfolding printed
  summarize s = (record s { latencies = [] }, printed s)

  -- The requests and the summaries, in any order, until a summary panics: `none`.
  unfoldable pub run : List TrafficEvent → Statistics → Option Statistics
  unfolding record_request summarize
  run [] s = some s
  run (answered status latency ∷ es) s = run es (record_request status latency s)
  run (ticks ∷ es) s = let rest = run es (summarize s).0 in proceed (summarize s).1 rest
