-- ===== src/Chaos/Http/Answers.antt =====
-- What the HTTP handlers answer, and what a refused request leaves.
use Prim.Native.String.{String}
use text.Mathlib.Text.{◌==◌ as str_eq}
use loadgen.Base.{
  ℕ, ◌≡◌, ap, Bool, true, false, if◌then◌else◌, List, Option, none, some, length, arith,
}
use loadgen.Base.Float.{Float64}
use loadgen.Chaos.Kind.{Kind, ChaosType}
use loadgen.Chaos.State.{CampaignState, World}
use loadgen.Chaos.Control.{Action}
use loadgen.Chaos.Campaign.{CampaignRequest, start_campaign, launch}
use loadgen.Chaos.Http.{
  Method, post, ChaosRequest, Reply, method_not_allowed, invalid_body, rejected, accepted,
  chaos_handler, ops_handler, scale_handler, kill_handler, campaign_handler,
}

abbrev pub map_id : Option CampaignState → Option String
map_id none = none
map_id (some c) = some c.campaign_id

module _ {F : Type 0} where
  -- A reply with status 405 or 400.
  abbrev pub is_refusal : Reply F → Bool
  is_refusal method_not_allowed = true
  is_refusal invalid_body = true
  is_refusal (rejected e) = true
  is_refusal _ = false

  -- A refused request leaves the world as it was.
  abbrev pub Harmless : World F → World F × Reply F → Type 0
  Harmless w r = (if is_refusal r.1 then r.0 else w) ≡ w

module _ {F : Type 0} ⦃d : Float64 F⦄ where
  campaign_handler-Harmless :
      (name : ℕ → String) (m : Method) (body : Option (CampaignRequest F)) (w : World F)
      → Harmless w (campaign_handler name m body w)
  unfolding campaign_handler start_campaign
  campaign_handler-Harmless name m body w = ground arith

  -- On every endpoint, a request that is answered by 405 or 400 changes nothing.
  pub handlers-Harmless :
      (w : World F) (m : Method)
      → ((ct : ChaosType) (body : Option (ChaosRequest F)) → Harmless w (chaos_handler ct m body w))
        × ((a : Action) → Harmless w (ops_handler a m w))
        × ((body : Option F) → Harmless w (scale_handler m body w))
        × ((order : List Kind) → Harmless w (kill_handler order m w))
        × ((name : ℕ → String) (body : Option (CampaignRequest F))
            → Harmless w (campaign_handler name m body w))
  unfolding chaos_handler ops_handler scale_handler kill_handler
  handlers-Harmless w m = (
    λ ct body. ground arith,
    λ a. ground arith,
    λ body. ground arith,
    λ order. ground arith,
    λ name body. campaign_handler-Harmless name m body w,
  )

  -- A campaign that is posted without an id runs under a generated one, and the reply reports the
  -- empty id.
  pub campaign_handler_unnamed :
      (name : ℕ → String) (req : CampaignRequest F) (w : World F)
      → req.campaign_id ≡ ""
      → (start_campaign name req w).1 ≡ none
      → ((campaign_handler name post (some req) w).1 ≡ accepted "" req.dry_run (length req.steps))
        × (map_id (campaign_handler name post (some req) w).0.campaign ≡ some (name w.now))
  unfolding campaign_handler start_campaign launch
  campaign_handler_unnamed name req w e h =
      let unnamed : str_eq req.campaign_id "" ≡ true = ap (λ i. str_eq i "") e in ground arith
