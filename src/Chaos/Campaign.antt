-- ===== src/Chaos/Campaign.antt =====
-- internal/chaos/chaos.go: `StartCampaign`, and what its goroutines do when they wake.
pub mod Valid
use Prim.Native.String.{String}
use text.Mathlib.Text.{◌==◌ as str_eq}
use loadgen.Base.{
  ℕ, suc, ◌+◌, ◌-◌, Bool, false, not, if◌then◌else◌, Option, none, some, List, [], ◌∷◌, ◌++◌, map,
  length, ℤ, pos, negsuc, ltb, leb,
}
use loadgen.Base.Float.{Float64}
use loadgen.Chaos.Kind.{ChaosType, known, unknown}
use loadgen.Chaos.State.{CampaignStep, CampaignState, Task, enable_step, end_campaign, World}
use loadgen.Chaos.Spec.{second, normalize_intensity, positive_or}
use loadgen.Chaos.Enable.{wake}

abbrev pub max_campaign_steps : ℕ
max_campaign_steps = 32

pub record CampaignRequest (F : Type 0) : Type 0 where
  pub campaign_id : String
  pub dry_run : Bool
  pub steps : List (CampaignStep F)

pub data CampaignError : Type 0 where
  no_steps : CampaignError
  too_many_steps : ℕ → CampaignError
  invalid_type : ℕ → String → CampaignError

pub data Result (A : Type 0) : Type 0 where
  ok : A → Result A
  err : CampaignError → Result A

-- A duration and a count of nanoseconds.
abbrev add_ns : ℤ → ℕ → ℤ
add_ns (pos n) k = pos (n + k)
add_ns (negsuc n) k = if leb (suc n) k then pos (k - suc n) else negsuc (n - k)

abbrev pub cons_ok : {A : Type 0} → A → Result (List A) → Result (List A)
cons_ok a (ok rest) = ok (a ∷ rest)
cons_ok a (err e) = err e

-- The last goroutine: it ends the active campaign if that has its id.
abbrev pub finish_if : String → Option CampaignState → Option CampaignState
finish_if id none = none
finish_if id (some c) =
    if str_eq c.campaign_id id then some (record c { running = false }) else some c

module _ {F : Type 0} ⦃d : Float64 F⦄ where
  unfoldable pub normalize_step : CampaignStep F → CampaignStep F
  normalize_step s = record s {
    duration_seconds = positive_or s.duration_seconds (d.lit 60_000);
    intensity = normalize_intensity s.intensity;
    start_after_seconds =
        if d.lt s.start_after_seconds (d.lit 0) then d.lit 0 else s.start_after_seconds;
  }

  -- One round of the loop over the steps, for the step at index `i` and what the rest comes to.
  abbrev pub check_step :
      ℕ
      → ChaosType
      → CampaignStep F
      → Result (List (CampaignStep F))
      → Result (List (CampaignStep F))
  check_step i (unknown name) s rest = err (invalid_type i name)
  check_step i (known k) s rest = cons_ok (normalize_step s) rest

  -- The loop from index `i`: it stops at the first type that is not known.
  unfoldable pub check_steps : ℕ → List (CampaignStep F) → Result (List (CampaignStep F))
  check_steps i [] = ok []
  check_steps i (s ∷ ss) = check_step i s.type s (check_steps (i + 1) ss)

  unfoldable pub validate : CampaignRequest F → Result (List (CampaignStep F))
  validate req =
      if leb (length req.steps) 0
      then err no_steps
      else if ltb max_campaign_steps (length req.steps)
      then err (too_many_steps (length req.steps))
      else check_steps 0 req.steps

  max_end : F → List (CampaignStep F) → F
  max_end best [] = best
  max_end best (s ∷ ss) =
      let candidate = d.add s.start_after_seconds s.duration_seconds in
      max_end (if d.lt best candidate then candidate else best) ss

  unfoldable pub campaign_end_duration : List (CampaignStep F) → ℤ
  unfolding max_end
  campaign_end_duration steps =
      add_ns (d.to_ns (positive_or (max_end (d.lit 0) steps) (d.lit 60_000))) second

  abbrev pub delayed : ℕ → CampaignStep F → Task F
  delayed now s = enable_step s (wake now (d.to_ns s.start_after_seconds))

  -- What `StartCampaign` does with valid steps; `name` is `fmt.Sprintf("campaign-%d", ns)`.
  unfoldable pub launch :
      (ℕ → String) → CampaignRequest F → List (CampaignStep F) → World F → World F
  unfolding campaign_end_duration
  launch name req steps w =
      let id = if str_eq req.campaign_id "" then name w.now else req.campaign_id in
      let w' = record w {
        campaign = some (record {
          campaign_id = id;
          started_at = w.now;
          dry_run = req.dry_run;
          step_count = length steps;
          running = not req.dry_run;
        });
      } in
      if req.dry_run then w' else record w' {
        tasks =
            w.tasks
            ++ (map (delayed w.now) steps
                ++ (end_campaign id (wake w.now (campaign_end_duration steps)) ∷ []));
      }

  -- `none` is success.
  unfoldable pub start_campaign :
      (ℕ → String) → CampaignRequest F → World F → World F × Option CampaignError
  start_campaign name req w = elim (validate req) [
    | err e ↦ (w, some e)
    | ok steps ↦ (launch name req steps w, none)
  ]
