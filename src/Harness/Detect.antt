-- ===== src/Harness/Detect.antt =====
-- internal/harness/runner.go: `waitForAlert`.
pub mod Sound
use Prim.Native.String.{String}
use text.Mathlib.Text.{◌==◌ as str_eq}
use loadgen.Base.{
  ℕ, ◌+◌, ◌*◌, Bool, true, false, if◌then◌else◌, List, [], ◌∷◌, Option, none, some, ltb,
}
use loadgen.Harness.Texts.{service_matches}
use loadgen.Harness.Remote.{Alert, Env, M, poll, second}

-- The map from ids to counts, the last write first.
abbrev pub Baseline : Type 0
Baseline = List (String × ℕ)

abbrev pub find_count : Baseline → String → Option ℕ
find_count [] id = none
find_count ((i, n) ∷ rest) id = if str_eq i id then some n else find_count rest id

-- `fired.After(t.Add(-time.Minute))`; the zero time lies before all.
abbrev pub fired_since : Option ℕ → ℕ → Bool
fired_since none t = false
fired_since (some n) t = ltb t (n + 60 * second)

-- Whether an alert that is listed twice has been absorbed into, or is new to the list.
abbrev pub relit : Option ℕ → ℕ → Bool
relit none count = true
relit (some base) count = ltb base count

abbrev pub or_empty : Option (List Alert) → List Alert
or_empty none = []
or_empty (some alerts) = alerts

module _ {F J X : Type 0} (env : Env F J X) (service : String) where
  unfoldable pub snapshot : Baseline → List Alert → Baseline
  snapshot base [] = base
  snapshot base (a ∷ rest) =
      snapshot
        (if service_matches env.lower a.service_id service
          then (a.id, a.dedup_count) ∷ base
          else base)
        rest

  -- What makes an alert of the list a detection.
  unfoldable pub detects : ℕ → Baseline → Alert → Bool
  detects after base a =
      if service_matches env.lower a.service_id service
      then (if fired_since a.fired_at after
          then true
          else relit (find_count base a.id) a.dedup_count)
      else false

  unfoldable pub pick : ℕ → Baseline → List Alert → Option Alert
  pick after base [] = none
  pick after base (a ∷ rest) =
      let later = pick after base rest in if detects after base a then some a else later

  -- One round: the result is an alert, wrapped twice so that `none` is a loop that goes on.
  abbrev pub look : ℕ → Baseline → X → X × Option (Option Alert)
  look after base x = (
    (env.firing x).0,
    elim (pick after base (or_empty (env.firing x).1)) [ none ↦ none | some a ↦ some (some a) ],
  )

  unfoldable pub wait_for_alert : ℕ → ℕ → ℕ → ℕ → M X (Option Alert)
  unfolding snapshot pick detects
  wait_for_alert fuel pause after window x =
      let y = (env.firing x).0 in
      let base = snapshot [] (or_empty (env.firing x).1) in
      poll env fuel (env.now y + window) pause (look after base) (some none) none y
