-- ===== src/Chaos/Http.antt =====
-- internal/chaos: the HTTP handlers of chaos.go and ops.go. A body is what the JSON decoder makes of
-- it, `none` where it refuses it; a reply is a status and what the reply reports.
pub mod Answers
use Prim.Native.String.{String}
use loadgen.Base.{ℕ, Bool, true, false, ◌||◌, if◌then◌else◌, Option, none, some, List, [], length}
use loadgen.Base.Float.{Float64}
use loadgen.Chaos.Kind.{Kind, ChaosType}
use loadgen.Chaos.State.{Onset, Spec, World}
use loadgen.Chaos.Spec.{normalize_intensity, positive_or}
use loadgen.Chaos.Enable.{enable_spec, disable}
use loadgen.Chaos.Query.{set_capacity}
use loadgen.Chaos.Control.{Action, disable_all, run_op}
use loadgen.Chaos.Campaign.{CampaignRequest, CampaignError, start_campaign}

pub data Method : Type 0 where
  get post delete : Method
  other_method : String → Method

pub record ChaosRequest (F : Type 0) : Type 0 where
  pub intensity : F
  pub duration_seconds : F
  pub onset : Onset
  pub ramp_seconds : F
  pub flap_period_seconds : F
  pub sticky : Bool
  pub scope_percent : F

-- The replies, with their status in the name's comment.
pub data Reply (F : Type 0) : Type 0 where
  -- 405 and 400.
  method_not_allowed : Reply F
  invalid_body : Reply F
  rejected : CampaignError → Reply F
  -- 200: the intensity and the duration as they were asked for, after the defaults.
  enabled_reply : F → F → Reply F
  disabled_reply : Reply F
  all_disabled : Reply F
  cleared_reply : List Kind → Reply F
  scaled : F → Reply F
  -- 202: the id and the flag of the request, and its number of steps.
  accepted : String → Bool → ℕ → Reply F

module _ {F : Type 0} ⦃d : Float64 F⦄ where
  -- The spec that a decoded request comes to.
  unfoldable pub spec_of : ChaosType → ChaosRequest F → Spec F
  spec_of ct req = record {
    type = ct;
    intensity = normalize_intensity (positive_or req.intensity (d.lit 500));
    duration = d.to_ns (positive_or req.duration_seconds (d.lit 60_000));
    onset = req.onset;
    ramp_seconds = req.ramp_seconds;
    flap_period_seconds = req.flap_period_seconds;
    sticky = req.sticky;
    scope_percent = req.scope_percent;
  }

  -- The handler of `makeChaosHandler`.
  unfoldable pub chaos_handler :
      ChaosType → Method → Option (ChaosRequest F) → World F → World F × Reply F
  chaos_handler ct delete body w = (disable ct w, disabled_reply)
  chaos_handler ct post none w = (w, invalid_body)
  chaos_handler ct post (some req) w = (
    enable_spec (spec_of ct req) w,
    enabled_reply (positive_or req.intensity (d.lit 500))
        (positive_or req.duration_seconds (d.lit 60_000)),
  )
  chaos_handler ct _ body w = (w, method_not_allowed)

  -- The handler of `makeOpsHandler`.
  unfoldable pub ops_handler : Action → Method → World F → World F × Reply F
  ops_handler a post w = let (w', names) = run_op a w in (w', cleared_reply names)
  ops_handler a _ w = (w, method_not_allowed)

  -- POST /ops/scale.
  unfoldable pub scale_handler : Method → Option F → World F → World F × Reply F
  scale_handler post none w = (w, invalid_body)
  scale_handler post (some replicas) w =
      if d.lt replicas (d.lit 1000)
      then (w, invalid_body)
      else (set_capacity replicas w, scaled replicas)
  scale_handler _ body w = (w, method_not_allowed)

  -- POST /chaos/kill-switch, for an order of the map.
  unfoldable pub kill_handler : List Kind → Method → World F → World F × Reply F
  kill_handler order post w = (disable_all order w, all_disabled)
  kill_handler order _ w = (w, method_not_allowed)

  abbrev campaign_reply : CampaignRequest F → Option CampaignError → Reply F
  campaign_reply req none = accepted req.campaign_id req.dry_run (length req.steps)
  campaign_reply req (some e) = rejected e

  -- POST /chaos/campaign: `StartCampaign` gets the request by value, and the reply is built from it.
  unfoldable pub campaign_handler :
      (ℕ → String) → Method → Option (CampaignRequest F) → World F → World F × Reply F
  campaign_handler name post none w = (w, invalid_body)
  campaign_handler name post (some req) w =
      let (w', e) = start_campaign name req w in (w', campaign_reply req e)
  campaign_handler name _ body w = (w, method_not_allowed)
