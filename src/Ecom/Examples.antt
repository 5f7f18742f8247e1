-- ===== src/Ecom/Examples.antt =====
-- internal/ecom at concrete inputs, with thousandths for the floats.
use loadgen.Base.{◌*◌, ◌+◌, ◌≡◌, ◌≢◌, refl, List, [], ◌∷◌, some, pos, negsuc, pos_part, leb, arith}
use loadgen.Base.Milli.{Milli, milli_float, Milli-IsIeee}
use loadgen.Ecom.Injector.{
  conversion_drop, returns_spike, clamp_duration, post, Request, Injector, new_injector, active,
  second, seconds, find_scenario, all_scenarios, inject_handler,
}
use loadgen.Ecom.History.{
  Event, advance, injects, run, IsConsistent, enable-active, run-IsConsistent,
}

abbrev request : Request Milli
request = record {
  scenario = "returns_spike";
  intensity = some 2_000;
  dimension = "";
  duration_seconds = pos 3_600;
}

abbrev fresh : Injector Milli
fresh = new_injector 9

abbrev history : List (Event Milli)
history = injects post request ∷ advance (60 * second) ∷ []

differ : returns_spike ≢ conversion_drop
differ = ground arith

known_request : find_scenario request.scenario all_scenarios ≡ some returns_spike
unfolding find_scenario
known_request = refl

enable-active_example :
    let posted = (inject_handler post request fresh).0 in
    ((active returns_spike (record posted { now = posted.now + 80 })).0
      ≡ leb 80 (pos_part (clamp_duration (seconds (pos 3_600)))))
    × (posted.states conversion_drop ≡ fresh.states conversion_drop)
    × (posted.now ≡ fresh.now)
enable-active_example =
    enable-active returns_spike conversion_drop request fresh 80 known_request differ

-- More seconds than int64 has nanoseconds for wrap to a negative time.
wrapped : seconds (pos 9_223_372_037) ≡ negsuc 9_223_372_036_709_551_615
unfolding seconds
wrapped = refl

run-IsConsistent_example : IsConsistent (run history fresh) returns_spike
run-IsConsistent_example = run-IsConsistent Milli-IsIeee history 9 returns_spike (refl, (tt, tt))
