-- ===== src/Harness/Scenario.antt =====
-- internal/harness/scenario.go: a scenario, and its validation. `J` is what the YAML library makes of
-- a payload.
pub mod Valid
use Prim.Native.String.{String}
use text.Mathlib.Text.{◌==◌ as str_eq}
use loadgen.Base.{
  ℕ, ◌+◌, Bool, true, false, ◌&&◌, ◌||◌, if◌then◌else◌, List, [], ◌∷◌, Option, none, some, ℤ,
  length, ◌==◌,
}
use loadgen.Base.Float.{Float64}

pub record ChangeEvent : Type 0 where
  pub service : String
  pub kind : String
  pub version : String
  pub ref : String
  pub summary : String
  pub lead_seconds : ℤ

pub record Injection (F J : Type 0) : Type 0 where
  pub target : String
  pub type : String
  pub intensity : F
  pub duration_seconds : F
  pub onset : String
  pub ramp_seconds : F
  pub flap_period_seconds : F
  pub sticky : Bool
  pub scope_percent : F
  pub delay_seconds : ℤ
  pub path : String
  pub payload : Option J

pub record ExpectDetect : Type 0 where
  pub service : String
  pub within_seconds : ℤ
  pub severities_any : List String

pub record ExpectRca (F : Type 0) : Type 0 where
  pub origin_any : List String
  pub origin_confidence_min : F
  pub evidence_keywords_any : List String
  pub require_change_evidence : Bool
  pub timeout_seconds : ℤ
  pub trigger_delay_seconds : ℤ

pub record ExpectRemediation : Type 0 where
  pub runbook_id : String
  pub target : String
  pub recovers_within_seconds : ℤ

pub record ExpectBusiness : Type 0 where
  pub keyword_any : List String
  pub timeout_seconds : ℤ

pub record ExpectQuiet : Type 0 where
  pub service : String
  pub within_seconds : ℤ

pub record Expect (F : Type 0) : Type 0 where
  pub detect : Option ExpectDetect
  pub rca : Option (ExpectRca F)
  pub remediation : Option ExpectRemediation
  pub business : Option ExpectBusiness
  pub quiet : Option ExpectQuiet

-- A list of changes is `none` where it is nil.
pub record Scenario (F J : Type 0) : Type 0 where
  pub id : String
  pub changes : Option (List ChangeEvent)
  pub inject : List (Injection F J)
  pub expect : Expect F
  pub cooldown : ℤ

pub data ScenarioError : Type 0 where
  no_id nothing_to_do no_expectations : ScenarioError
  bad_injection : ℕ → ScenarioError

abbrev pub is_none : {A : Type 0} → Option A → Bool
is_none none = true
is_none (some a) = false

-- The elements of a slice that may be nil.
abbrev pub elements : {A : Type 0} → Option (List A) → List A
elements none = []
elements (some xs) = xs

abbrev pub grades_nothing : {F : Type 0} → Expect F → Bool
grades_nothing e =
    is_none e.detect
    && (is_none e.quiet && (is_none e.rca && (is_none e.remediation && is_none e.business)))

module _ {F J : Type 0} where
  abbrev pub is_incomplete : Injection F J → Bool
  is_incomplete inj = str_eq inj.target "" || (str_eq inj.type "" && str_eq inj.path "")

  -- The loop over the injections from index `i`: the first that is incomplete.
  unfoldable pub check_injections : ℕ → List (Injection F J) → Option ScenarioError
  check_injections i [] = none
  check_injections i (inj ∷ injs) =
      let rest = check_injections (i + 1) injs in
      if is_incomplete inj then some (bad_injection i) else rest

  -- `none` is success. The default of the cooldown is written to a copy of the scenario.
  unfoldable pub validate : Scenario F J → Option ScenarioError
  unfolding check_injections
  validate s =
      if str_eq s.id ""
      then some no_id
      else if (length s.inject == 0) && is_none s.changes
      then some nothing_to_do
      else elim (check_injections 0 s.inject) [
        | some e ↦ some e
        | none ↦ if grades_nothing s.expect then some no_expectations else none
      ]

module _ {F J : Type 0} ⦃d : Float64 F⦄ where
  abbrev pub horizon : Injection F J → F
  horizon inj =
      if inj.sticky
      then d.add (d.of_int inj.delay_seconds) (d.lit 1_800_000)
      else d.add inj.duration_seconds (d.of_int inj.delay_seconds)

  unfoldable pub longest : F → List (Injection F J) → F
  longest max [] = max
  longest max (inj ∷ injs) = longest (if d.lt max (horizon inj) then horizon inj else max) injs

  -- In whole seconds, as `time.Duration(max)` cuts it.
  unfoldable pub total_injection_window : Scenario F J → ℤ
  unfolding longest
  total_injection_window s = d.trunc (longest (d.lit 0) s.inject)
