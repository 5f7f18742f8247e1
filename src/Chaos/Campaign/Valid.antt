-- ===== src/Chaos/Campaign/Valid.antt =====
-- Which campaigns start, and what a request that starts none leaves.
use Prim.Native.String.{String}
use loadgen.Base.{
  ℕ, ◌+◌, ◌≤◌, ◌≡◌, refl, ◌↔◌, Bool, true, false, not, if◌then◌else◌, List, [], ◌∷◌, Option, none,
  some, arith, any, length,
}
use loadgen.Base.Float.{Float64}
use loadgen.Chaos.Kind.{ChaosType, known, unknown}
use loadgen.Chaos.State.{CampaignStep, World}
use loadgen.Chaos.Campaign.{
  CampaignRequest, CampaignError, Result, ok, err, check_step, check_steps, validate,
  start_campaign, max_campaign_steps,
}

abbrev pub is_unknown : ChaosType → Bool
is_unknown (known k) = false
is_unknown (unknown s) = true

abbrev pub is_none : Option CampaignError → Bool
is_none none = true
is_none (some e) = false

abbrev is_ok : {A : Type 0} → Result A → Bool
is_ok (ok a) = true
is_ok (err e) = false

module _ {F : Type 0} ⦃d : Float64 F⦄ where
  -- From 1 to 32 steps, each of a known type.
  pub record IsValid (req : CampaignRequest F) : Type 0 where
    pub some_step : 1 ≤ length req.steps
    pub few : length req.steps ≤ max_campaign_steps
    pub known_types : any (λ s. is_unknown s.type) req.steps ≡ false

  check_step-is_ok :
      (i : ℕ) (ct : ChaosType) (s : CampaignStep F) (r : Result (List (CampaignStep F)))
      → is_ok (check_step i ct s r) ≡ (if is_unknown ct then false else is_ok r)
  check_step-is_ok i (unknown n) s r = refl
  check_step-is_ok i (known k) s (ok rest) = refl
  check_step-is_ok i (known k) s (err e) = refl

  check_steps-is_ok :
      (i : ℕ) (ss : List (CampaignStep F))
      → is_ok (check_steps i ss) ≡ not (any (λ s. is_unknown s.type) ss)
  unfolding check_steps
  check_steps-is_ok i [] = refl
  check_steps-is_ok i (s ∷ ss) =
      ground
        (arith, check_step-is_ok i s.type s (check_steps (i + 1) ss), check_steps-is_ok (i + 1) ss)

  validate-is_ok : (req : CampaignRequest F) → (is_ok (validate req) ≡ true) ↔ IsValid req
  unfolding validate
  validate-is_ok req = (
    λ h. record {
      some_step = ground (arith, check_steps-is_ok 0 req.steps);
      few = ground (arith, check_steps-is_ok 0 req.steps);
      known_types = ground (arith, check_steps-is_ok 0 req.steps);
    },
    λ v. ground (arith, check_steps-is_ok 0 req.steps),
  )

  started :
      (name : ℕ → String) (req : CampaignRequest F) (w : World F)
      → ((start_campaign name req w).1 ≡ none) ↔ (is_ok (validate req) ≡ true)
  unfolding start_campaign
  started name req w = ground arith

  -- `StartCampaign` succeeds exactly for 1 to 32 steps of known types; otherwise nothing changes.
  pub start_campaign-IsValid :
      (name : ℕ → String) (req : CampaignRequest F) (w : World F)
      → (((start_campaign name req w).1 ≡ none) ↔ IsValid req)
        × ((if is_none (start_campaign name req w).1 then w else (start_campaign name req w).0) ≡ w)
  unfolding start_campaign
  start_campaign-IsValid name req w =
      let s = started name req w in
      let v = validate-is_ok req in ((λ h. v.0 (s.0 h), λ h. s.1 (v.1 h)), ground arith)
