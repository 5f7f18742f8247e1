-- ===== src/Chaos/Examples.antt =====
-- internal/chaos at concrete inputs, with thousandths for the floats.
use Prim.Native.String.{String}
use loadgen.Base.{
  ℕ, All, ◌*◌, arith, ◌≡◌, refl, true, false, if◌then◌else◌, List, [], ◌∷◌, none, some, leb, pos,
  pos_part, select, ◌↔◌, ◌++◌,
}
use loadgen.Base.Float.{IsUnit, ◌≼◌}
use loadgen.Base.Milli.{Milli, milli_float, Milli-IsIeee}
use loadgen.Chaos.Kind.{Kind, Kind-discrete, memory_leak, db_slow, known, all_kinds}
use loadgen.Chaos.State.{enable_step, ramp, Spec, World, init, CampaignStep}
use loadgen.Chaos.Spec.{normalize, normalize_duration, second}
use loadgen.Chaos.Spec.Range.{IsPlain, InRange, normalize-InRange}
use loadgen.Chaos.Enable.{start_timer, start_effects, enable_write, enable_spec, enable_type}
use loadgen.Chaos.Enable.Lifetime.{later, enable_spec-is_active}
use loadgen.Chaos.Query.{is_active, get_intensity}
use loadgen.Chaos.Control.{restart, ops_clears, run_op, disable_all}
use loadgen.Chaos.Control.Remedy.{remedied, run_op-remedied, disable_all_quiet, has, is_running}
use loadgen.Chaos.Campaign.{CampaignRequest, start_campaign, validate, check_steps}
use loadgen.Chaos.Campaign.Valid.{IsValid, is_none, start_campaign-IsValid}
use loadgen.Chaos.Run.{Event, advance, wakes, enables, remedies, campaigns, scales, run, perform}
use loadgen.Chaos.Run.Holds.{Holds, touches}
use loadgen.Chaos.Run.Sticky.{run-sticky, overlapped, between, captured, overlapped_race}
use loadgen.Chaos.Run.Range.{get_intensity-run}
use loadgen.Chaos.Http.{post, campaign_handler, accepted}
use loadgen.Chaos.Http.Answers.{Harmless, handlers-Harmless, map_id, campaign_handler_unnamed}

-- A slow database: 80 %, for 90 s, ramped up in 20 s.
abbrev timed : Spec Milli
timed = record {
  type = known db_slow;
  intensity = some 80_000;
  duration = pos (90 * second);
  onset = ramp;
  ramp_seconds = some 20_000;
  flap_period_seconds = some 0;
  sticky = false;
  scope_percent = some 500;
}

abbrev stuck : Spec Milli
stuck = record timed { sticky = true }

abbrev fresh : World Milli
fresh = init (pos 4) 5

abbrev stuck_world : World Milli
stuck_world = enable_spec stuck fresh

abbrev name : ℕ → String
name n = "campaign"

abbrev leak_step : CampaignStep Milli
leak_step = record {
  type = known memory_leak;
  intensity = some 700;
  duration_seconds = some 30_000;
  start_after_seconds = some 5_000;
}

abbrev request : CampaignRequest Milli
request = record { campaign_id = ""; dry_run = false; steps = leak_step ∷ [] }

abbrev history : List (Event Milli)
history =
    campaigns request
    ∷ advance (6 * second)
    ∷ wakes 0
    ∷ remedies restart
    ∷ scales (some 3_000)
    ∷ advance (3600 * second)
    ∷ wakes 1
    ∷ []

timed-IsPlain : IsPlain timed
timed-IsPlain = record { intensity = refl; ramp = refl; flap = refl; scope = refl }

stuck-Holds : Holds db_slow (stuck_world.states db_slow) stuck_world
unfolding enable_spec enable_type normalize start_timer start_effects enable_write Kind-discrete
stuck-Holds = record { entry = refl; spared = tt }

stuck-entry :
    ((stuck_world.states db_slow).enabled ≡ true)
    × ((stuck_world.states db_slow).sticky ≡ true)
    × ((stuck_world.states db_slow).started_at ≡ 5)
unfolding enable_spec enable_type normalize start_timer start_effects enable_write Kind-discrete
stuck-entry = (refl, refl, refl)

history-spares : All (λ e. touches db_slow e ≡ false) history
unfolding Kind-discrete
history-spares = (refl, (refl, (refl, (refl, (refl, (refl, (refl, tt)))))))

run-sticky_example :
    (is_active (run name history stuck_world) (known db_slow) ≡ true)
    × ((run name history stuck_world).states db_slow ≡ stuck_world.states db_slow)
run-sticky_example =
    run-sticky db_slow (stuck_world.states db_slow) name stuck_world history stuck-entry.0
      stuck-entry.1 stuck-Holds history-spares

get_intensity-run_example :
    IsUnit (get_intensity (run name (enables timed ∷ history) fresh) (known db_slow))
    × (get_intensity (run name (enables timed ∷ history) fresh) (known db_slow)
        ≼ ((run name (enables timed ∷ history) fresh).states db_slow).intensity)
    × ((if is_active (run name (enables timed ∷ history) fresh) (known db_slow)
          then some 0
          else get_intensity (run name (enables timed ∷ history) fresh) (known db_slow))
        ≡ some 0)
get_intensity-run_example =
    get_intensity-run Milli-IsIeee name (enables timed ∷ history) (pos 4) 5 db_slow
      (timed-IsPlain, ((refl, tt), (tt, (tt, (tt, (refl, (tt, (tt, tt))))))))

enable_spec-is_active_example :
    is_active (later (100 * second) (enable_spec timed fresh)) (known db_slow) ≡ (
      if false
      then true
      else leb (100 * second) (pos_part (normalize_duration (pos (90 * second)))))
enable_spec-is_active_example = enable_spec-is_active timed db_slow fresh (100 * second) refl

run_op-remedied_example :
    ((j : Kind)
      → (run_op restart stuck_world).0.states j ≡ remedied (ops_clears restart) stuck_world j)
    × ((run_op restart stuck_world).1
        ≡ select (λ k. is_active stuck_world (known k)) (ops_clears restart))
run_op-remedied_example = run_op-remedied restart stuck_world

all_kinds_all : (k : Kind) → has k all_kinds ≡ true
all_kinds_all k = ground arith

disable_all_quiet_example :
    ((k : Kind) → is_active (disable_all all_kinds stuck_world) (known k) ≡ false)
    × (is_running (disable_all all_kinds stuck_world).campaign ≡ false)
    × ((disable_all all_kinds stuck_world).tasks ≡ stuck_world.tasks)
    × ((k : Kind) (s : CampaignStep Milli) (due n : ℕ)
        → is_active
            (later n (
              perform
                (enable_step (record s { type = known k }) due)
                (disable_all all_kinds stuck_world)))
            (known k)
          ≡ leb n (pos_part (normalize_duration (milli_float.to_ns s.duration_seconds))))
disable_all_quiet_example = disable_all_quiet all_kinds stuck_world all_kinds_all

overlapped_race_example :
    (is_active (overlapped timed stuck db_slow 7 fresh) (known db_slow) ≡ true)
    × ((overlapped timed stuck db_slow 7 fresh).tasks
        ≡ (between timed stuck db_slow 7 fresh).tasks
          ++ (captured timed stuck db_slow 7 fresh ∷ []))
    × (is_active
          (perform (captured timed stuck db_slow 7 fresh) (overlapped timed stuck db_slow 7 fresh))
          (known db_slow)
        ≡ false)
overlapped_race_example = overlapped_race timed stuck db_slow 7 fresh refl refl refl

start_campaign-IsValid_example :
    (((start_campaign name request fresh).1 ≡ none) ↔ IsValid request)
    × ((if is_none (start_campaign name request fresh).1
          then fresh
          else (start_campaign name request fresh).0)
        ≡ fresh)
start_campaign-IsValid_example = start_campaign-IsValid name request fresh

normalize-InRange_example : InRange (normalize timed)
normalize-InRange_example = normalize-InRange Milli-IsIeee timed timed-IsPlain

handlers-Harmless_example : Harmless fresh (campaign_handler name post none fresh)
handlers-Harmless_example = (handlers-Harmless fresh post).4 name none

request_starts : (start_campaign name request fresh).1 ≡ none
unfolding start_campaign validate check_steps
request_starts = refl

campaign_handler_unnamed_example :
    ((campaign_handler name post (some request) fresh).1 ≡ accepted "" false 1)
    × (map_id (campaign_handler name post (some request) fresh).0.campaign ≡ some "campaign")
campaign_handler_unnamed_example = campaign_handler_unnamed name request fresh refl request_starts
