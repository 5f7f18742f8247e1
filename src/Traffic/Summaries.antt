-- ===== src/Traffic/Summaries.antt =====
-- When the summaries of the traffic generator end it.
use loadgen.Base.{
  ℕ, zero, suc, ◌+◌, ◌-◌, ◌≤◌, ◌<◌, ◌≡◌, refl, Bool, true, false, if◌then◌else◌, List, [], ◌∷◌, ◌≢◌,
  sym, Option, none, some, ltb, length, length-append, get_elem?, arith, inl, inr, ◌⊎◌, subst,
}
use loadgen.Traffic.Stats.{
  Statistics, Printed, started, record_request, insert_sorted, sort_latencies, TrafficEvent,
  answered, ticks, panic, no_requests, summary, proceed, printed, summarize, percentile, run,
}

-- Whether a summary meets a window without a request, when there has been one before; the arguments
-- say whether there has been a request at all, and since the last summary.
abbrev pub starves : Bool → Bool → List TrafficEvent → Bool
starves seen recent [] = false
starves seen recent (answered status latency ∷ es) = starves true true es
starves seen recent (ticks ∷ es) =
    let rest = starves seen false es in if seen then (if recent then rest else true) else rest

abbrev pub request_count : List TrafficEvent → ℕ
request_count [] = 0
request_count (answered status latency ∷ es) = request_count es + 1
request_count (ticks ∷ es) = request_count es

-- `math.Ceil` of 0.99 of a positive count is one of the places of a list of so many.
abbrev pub IsRank : (ℕ → ℕ) → Type 0
IsRank rank = (n : ℕ) → 0 < n → (0 < rank n) × (rank n ≤ n)

length-insert_sorted : (x : ℕ) (ys : List ℕ) → length (insert_sorted x ys) ≡ suc (length ys)
length-insert_sorted x [] = refl
length-insert_sorted x (y ∷ ys) = ground (arith, length-insert_sorted x ys)

length-sort_latencies : (xs : List ℕ) → length (sort_latencies xs) ≡ length xs
length-sort_latencies [] = refl
length-sort_latencies (x ∷ xs) =
    omega (arith, length-sort_latencies xs, length-insert_sorted x (sort_latencies xs))

get_elem?-in-range : (xs : List ℕ) (i : ℕ) → i < length xs → (x : ℕ) × (get_elem? xs i ≡ some x)
get_elem?-in-range [] i h = absurd (omega (arith, h))
get_elem?-in-range (x ∷ xs) zero h = (x, refl)
get_elem?-in-range (x ∷ xs) (suc i) h = get_elem?-in-range xs i (omega (arith, h))

-- How a history that starts in a state may end.
abbrev pub Ends : List TrafficEvent → Statistics → Option Statistics → Type 0
Ends es s none = starves (ltb 0 s.total) (ltb 0 (length s.latencies)) es ≡ true
Ends es s (some t) =
    (starves (ltb 0 s.total) (ltb 0 (length s.latencies)) es ≡ false)
    × (t.total ≡ s.total + request_count es)
    × (t.successes + t.failures ≡ t.total)

-- How a history may end: by a panic, or with the statistics.
abbrev pub Outcome : List TrafficEvent → Option Statistics → Type 0
Outcome es none = starves false false es ≡ true
Outcome es (some t) =
    (starves false false es ≡ false)
    × (t.total ≡ request_count es)
    × (t.successes + t.failures ≡ t.total)

Outcome-Ends : (es : List TrafficEvent) (o : Option Statistics) → Ends es started o → Outcome es o
Outcome-Ends es none e = e
Outcome-Ends es (some t) e = ground (arith, e)

answered_step :
    (es : List TrafficEvent) (status latency : ℕ) (s : Statistics) (o : Option Statistics)
    → Ends es (record_request status latency s) o
    → Ends (answered status latency ∷ es) s o
unfolding record_request
answered_step es status latency s none e =
    ground (arith, e, length-append s.latencies (latency ∷ []))
answered_step es status latency s (some t) e =
    ground (arith, e, length-append s.latencies (latency ∷ []))

ticks_step :
    (es : List TrafficEvent) (s : Statistics) (o : Option Statistics)
    → (s.total ≡ 0) ⊎ (0 < length s.latencies)
    → length s.latencies ≤ s.total
    → Ends es (record s { latencies = [] }) o
    → Ends (ticks ∷ es) s o
ticks_step es s none c h e = ground (arith, c, h, e)
ticks_step es s (some t) c h e = ground (arith, c, h, e)

proceeds : (p : Printed) (o : Option Statistics) → p ≢ panic → proceed p o ≡ o
proceeds panic o h = absurd (h refl)
proceeds no_requests o h = refl
proceeds (summary x) o h = refl

window-cases : (t n : ℕ) → ((t ≡ 0) ⊎ (0 < n)) ⊎ ((0 < t) × (n ≡ 0))
window-cases t n = omega arith

module _ (rank : ℕ → ℕ) (ranks : IsRank rank) where
  percentile-some : (ls : List ℕ) → 0 < length ls → (x : ℕ) × (percentile rank ls ≡ some x)
  percentile-some ls h =
      let r = ranks (length ls) h in
      let found =
        get_elem?-in-range (sort_latencies ls) (rank (length ls) - 1)
          (omega (arith, r, length-sort_latencies ls)) in
      (found.0, ground (arith, r, found.1))

  -- A summary panics exactly if there has been a request, but none in its window.
  printed_live :
      (s : Statistics) → (s.total ≡ 0) ⊎ (0 < length s.latencies) → printed rank s ≢ panic
  unfolding printed
  printed_live s (inl h) = ground (arith, h)
  printed_live s (inr h) = let found = percentile-some s.latencies h in ground (arith, h, found.1)

  printed_starved : (s : Statistics) → 0 < s.total → length s.latencies ≡ 0 → printed rank s ≡ panic
  unfolding printed
  printed_starved s h k = ground arith

  run-Ends :
      (es : List TrafficEvent) (s : Statistics)
      → length s.latencies ≤ s.total
      → (s.successes + s.failures ≡ s.total)
      → Ends es s (run rank es s)
  unfolding run record_request summarize
  run-Ends [] s h k = ground arith
  run-Ends (answered status latency ∷ es) s h k =
      answered_step es status latency s (run rank es (record_request status latency s)) (
        run-Ends es (record_request status latency s)
          (omega (arith, length-append s.latencies (latency ∷ []))) (ground arith))
  run-Ends (ticks ∷ es) s h k =
      let cleared = record s { latencies = [] } in
      let rest = run rank es cleared in
      elim (window-cases s.total (length s.latencies)) [
        | inl live ↦
            subst (Ends (ticks ∷ es) s) (sym (proceeds (printed rank s) rest (printed_live s live)))
              (ticks_step es s rest live h (run-Ends es cleared (omega arith) k))
        | inr (busy, empty) ↦
            subst (λ p. Ends (ticks ∷ es) s (proceed p rest)) (sym (printed_starved s busy empty))
              (ground (arith, busy, empty))
      ]

  -- If the rank of the percentile is one of the places of the window: the traffic generator ends by
  -- a panic of a summary exactly if a summary meets a window without a request after there has been a
  -- request; and until then every request is counted once, as a success or as a failure.
  pub run-Outcome : (es : List TrafficEvent) → Outcome es (run rank es started)
  run-Outcome es =
      Outcome-Ends es (run rank es started) (run-Ends es started (omega arith) (omega arith))
