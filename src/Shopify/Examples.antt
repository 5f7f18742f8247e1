-- ===== src/Shopify/Examples.antt =====
-- internal/shopify at concrete inputs, with thousandths for the floats.
use loadgen.Base.{
  [], ◌∷◌, ◌++◌, ℕ, ◌*◌, ◌≡◌, refl, true, false, [], some, pos, pos_part, leb, arith, ◌≤ℤ◌,
}
use loadgen.Base.Float.{IsUnit}
use loadgen.Base.Milli.{Milli, milli_float, Milli-IsIeee}
use loadgen.Shopify.Incident.{
  Shop, IncidentRequest, incident_active, post_incident, fire, max_incident_duration,
}
use loadgen.Shopify.Incident.Expiry.{
  later, lasting, timer_of, IsPlain, post_incident-active, fire-post_incident, post_incident-IsUnit,
}

abbrev quiet : Shop Milli
quiet = record {
  now = 50;
  incident = record {
    enabled = false;
    shop = "";
    decline_fraction = some 0;
    cancel_boost = some 0;
    refund_boost = some 0;
    started_at = 0;
    duration = pos 0;
  };
  slump = record {
    enabled = false;
    shop = "";
    target = "";
    fraction = some 0;
    started_at = 0;
    duration = pos 0;
  };
  timers = [];
}

-- A minute, and the default of five minutes.
abbrev short : IncidentRequest Milli
short = record {
  duration_seconds = some 60_000;
  decline_fraction = some 1_500;
  shop = "";
  cancel_boost = some 0;
  refund_boost = some 300;
}

abbrev long : IncidentRequest Milli
long = record short { duration_seconds = some 0 }

abbrev second : ℕ
second = 1_000_000_000

post_incident-active_example :
    ((incident_active (later (61 * second) (post_incident "acme" short quiet))).0
      ≡ leb (61 * second) (pos_part (lasting short)))
    × (lasting short ≤ℤ max_incident_duration)
post_incident-active_example = post_incident-active "acme" short quiet (61 * second) (omega arith)

fire-post_incident_example :
    ((later
        (40 * second)
        (post_incident "acme" long (later (30 * second) (post_incident "acme" short quiet)))).timers
      ≡ (quiet.timers ++ (timer_of short quiet ∷ []))
        ++ (timer_of long (later (30 * second) quiet) ∷ []))
    × ((incident_active (
          later
            (40 * second)
            (post_incident "acme" long (later (30 * second) (post_incident "acme" short quiet))))).0
        ≡ true)
    × ((incident_active (
          fire (timer_of short quiet) (
            later (40 * second) (
              post_incident "acme" long
                (later (30 * second) (post_incident "acme" short quiet)))))).0
        ≡ false)
fire-post_incident_example =
    fire-post_incident "acme" short long quiet (30 * second) (40 * second) (omega arith)
      (omega arith) (omega arith)

short-IsPlain : IsPlain short
short-IsPlain = record { decline = refl; cancel = refl; refund = refl }

post_incident-IsUnit_example :
    IsUnit (incident_active (later 7 (post_incident "acme" short quiet))).2
    × IsUnit (incident_active (later 7 (post_incident "acme" short quiet))).3
    × IsUnit (incident_active (later 7 (post_incident "acme" short quiet))).4
post_incident-IsUnit_example = post_incident-IsUnit Milli-IsIeee "acme" short quiet 7 short-IsPlain
