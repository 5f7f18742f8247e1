-- ===== src/Middleware.antt =====
-- internal/middleware/middleware.go: the injected faults on the path of a request, the counters and
-- the level of the log line. An inner handler answers with a status, or panics (`none`).
use Prim.Native.String.{String, len, slice}
use text.Mathlib.Text.{◌==◌ as str_eq}
use loadgen.Base.{ℕ, suc, ◌+◌, ◌%◌, Bool, false, ◌||◌, if◌then◌else◌, Option, none, some, ltb, leb}
use loadgen.Base.Float.{Float64}
use loadgen.Chaos.Kind.{known, latency_tail, error_budget}
use loadgen.Chaos.State.{World}
use loadgen.Chaos.Query.{get_intensity}

abbrev has_prefix : String → String → Bool
has_prefix s t = str_eq (slice s 0 (len t)) t

-- The control planes, which are never faulted.
unfoldable pub is_control : String → Bool
is_control path =
    has_prefix path "/chaos"
    || (has_prefix path "/ops" || (str_eq path "/health" || str_eq path "/healthz"))

pub record FaultDraws (F : Type 0) : Type 0 where
  pub tail : F
  pub delay : ℕ
  pub budget : F

-- The counters of the metrics.
pub record Counters : Type 0 where
  pub active : ℕ
  pub requests : ℕ
  pub errors : ℕ

pub data Level : Type 0 where
  info warn error : Level

module _ {F : Type 0} ⦃d : Float64 F⦄ where
  -- Milliseconds of the delay of a request in the tail.
  unfoldable pub tail_delay : World F → FaultDraws F → ℕ
  tail_delay w draws =
      let eff = get_intensity w (known latency_tail) in
      if d.lt (d.lit 0) eff
      then (if d.lt draws.tail (d.min (d.lit 100) eff) then 1500 + draws.delay % 2500 else 0)
      else 0

  unfoldable pub spends_budget : World F → FaultDraws F → Bool
  spends_budget w draws =
      let eff = get_intensity w (known error_budget) in
      if d.lt (d.lit 0) eff then d.lt draws.budget eff else false

  -- The delay, and the status in place of the inner handler's, if the request fails here.
  unfoldable pub chaos_faults : World F → FaultDraws F → String → ℕ × Option ℕ
  unfolding is_control tail_delay spends_budget
  chaos_faults w draws path =
      if is_control path
      then (0, none)
      else (tail_delay w draws, if spends_budget w draws then some 500 else none)

-- `Metrics`: a panic of the inner handler leaves the request among the active ones.
unfoldable pub count_request : Option ℕ → Counters → Counters
count_request none c = record c { active = suc c.active }
count_request (some status) c = record c {
  requests = suc c.requests;
  errors = if leb 400 status then suc c.errors else c.errors;
}

-- The level of the line that `Logging` writes.
unfoldable pub log_level : ℕ → ℕ → Level
log_level status duration_ms =
    if leb 500 status then error else if leb 400 status || ltb 2000 duration_ms then warn else info
