-- ===== src/SysState/Examples.antt =====
-- internal/sysstate at concrete inputs, with thousandths for the floats.
use loadgen.Base.{◌*◌, ◌+◌, ◌≡◌, ◌≢◌, refl, true, false, [], ◌∷◌, some, none, arith}
use loadgen.Base.Milli.{Milli, milli_float, Milli-IsIeee}
use loadgen.SysState.Incident.{
  Fault-discrete, has_bit, forced_incident, db_contention, network_congestion, payment_gateway,
  Incident, System, second, force, force_scenario, clear_force, find_incident, incidents,
}
use loadgen.SysState.Health.{
  EpochInfo, normal, epoch_start, phase_at, state_name, health, active_faults, is_active,
  fault_health,
}
use loadgen.SysState.Phases.{
  later, Shows, force_scenario-Shows, force-expired, state_name-health, Agrees, cascade-early,
  phase_at-ne-normal,
}

abbrev saturation : Incident Milli
saturation = record {
  name = "network_saturation";
  primary = network_congestion;
  cascade = payment_gateway ∷ db_contention ∷ [];
  ramp = 240 * second;
  peak = 600 * second;
  recover = 600 * second;
  peak_health = some 100;
}

-- Each epoch has this incident after seven minutes.
abbrev every : EpochInfo Milli
every n = some (saturation, 420 * second)

-- A minute into the ramp.
abbrev ramping : System Milli
ramping = record { now = 480 * second; forced = none; auto = true }

found : find_incident "network_saturation" incidents ≡ some saturation
unfolding find_incident
found = refl

force_scenario-Shows_example :
    (force_scenario "network_saturation" (300 * second) (some 2_000) ramping
      ≡ some (force saturation (300 * second) (some 2_000) ramping))
    × Shows every
        (later (10 * second) (force saturation (300 * second) (some 2_000) ramping))
        saturation
force_scenario-Shows_example =
    force_scenario-Shows every "network_saturation" (300 * second) (10 * second) (some 2_000)
      ramping saturation found (omega arith)

force-expired_example :
    (state_name every (later 9 (force saturation 7 (some 2_000) ramping))
      ≡ state_name every (clear_force (later 9 (force saturation 7 (some 2_000) ramping))))
    × (health every (later 9 (force saturation 7 (some 2_000) ramping))
        ≡ health every (clear_force (later 9 (force saturation 7 (some 2_000) ramping))))
    × (active_faults every (later 9 (force saturation 7 (some 2_000) ramping))
        ≡ active_faults every (clear_force (later 9 (force saturation 7 (some 2_000) ramping))))
force-expired_example = force-expired every saturation 7 9 (some 2_000) ramping (omega arith)

state_name-health_example :
    Agrees saturation
      (state_name every ramping)
      (health every ramping)
      (active_faults every ramping)
state_name-health_example =
    state_name-health every ramping saturation (420 * second) Milli-IsIeee refl refl refl
      (omega arith)

primary_differs : network_congestion ≢ db_contention
primary_differs = ground arith

ramping_low : milli_float.le (some 950) (health every ramping) ≡ false
unfolding health forced_incident
ramping_low = refl

reached : has_bit saturation.cascade db_contention ≡ true
unfolding Fault-discrete
reached = refl

cascade-early_example :
    (is_active every ramping db_contention ≡ false)
    × (fault_health every ramping db_contention
        ≡ milli_float.max (milli_float.mul (health every ramping) (some 750)) (some 10))
cascade-early_example =
    cascade-early every ramping saturation (420 * second) db_contention refl refl (omega arith)
      ramping_low primary_differs reached

phase_at-ne-normal_example :
    phase_at saturation (epoch_start (1_790 * second) + 420 * second) (1_790 * second) ≢ normal
phase_at-ne-normal_example =
    phase_at-ne-normal saturation (420 * second) (1_790 * second) (omega arith) (omega arith)
