-- ===== src/Services/User/Upgrade.antt =====
-- cmd/user/main.go: the upgrade of a plan.
use Prim.Native.String.{String}
use text.Mathlib.Text.{◌==◌ as str_eq}
use loadgen.Base.{if◌then◌else◌}
use loadgen.Base.Float.{Float64}
use loadgen.Platform.Cache.{Faults}
use loadgen.Services.Reply.{Reply, http_error, json}
use loadgen.SysState.Incident.{payment_gateway}
use loadgen.SysState.Health.{fault_health, scaled_error_rate}

pub record Upgraded : Type 0 where
  pub user_id : String
  pub plan_from : String
  pub plan_to : String
  pub status : String

-- The header X-Plan names the new plan.
abbrev pub plan_to_of : String → String
plan_to_of plan = if str_eq plan "" then "pro" else plan

abbrev pub plan_from_of : String → String
plan_from_of plan_to = if str_eq plan_to "enterprise" then "pro" else "trial"

-- No state changes: the plan of a user is not kept.
unfoldable pub upgrade_user :
    {F : Type 0} ⦃d : Float64 F⦄ → Faults F → F → String → String → Reply Upgraded
upgrade_user ⦃d⦄ f draw plan id =
    let plan_to = plan_to_of plan in
    let failure_prob =
      scaled_error_rate (d.lit 70) (d.lit 450)
        (fault_health f.epoch_info f.system payment_gateway) in
    if str_eq id ""
    then http_error 400 "missing user id"
    else if d.le failure_prob draw
    then record {
      status = 200;
      body = json (record {
        user_id = id;
        plan_from = plan_from_of plan_to;
        plan_to = plan_to;
        status = "upgraded";
      });
    }
    else http_error 402 "upgrade failed: billing declined"
