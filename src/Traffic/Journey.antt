-- ===== src/Traffic/Journey.antt =====
-- cmd/traffic/journey.go: the table of journeys, the choice of one, and the actions that a session
-- takes. Pauses, and the loop that launches sessions, are left out.
use Prim.Native.String.{String}
use loadgen.Base.{ℕ, suc, ◌&&◌, Bool, if◌then◌else◌, List, [], ◌∷◌, pos, length}
use loadgen.Base.Float.{Float64}

pub record JourneyStep (F : Type 0) : Type 0 where
  pub action : String
  pub think_mean_ms : F
  pub abandon_prob : F

pub record JourneyDef (F : Type 0) : Type 0 where
  pub name : String
  pub weight : F
  pub steps : List (JourneyStep F)

-- Whether the context is cancelled in the pause before a step, and the draw for its abandonment.
pub record StepDraw (F : Type 0) : Type 0 where
  pub cancelled : Bool
  pub roll : F

module _ {F : Type 0} ⦃d : Float64 F⦄ where
  -- A step with its mean pause in milliseconds, and its chance of an end in thousandths.
  abbrev step : String → ℕ → ℕ → JourneyStep F
  step action mean prob = record {
    action = action;
    think_mean_ms = d.of_int (pos mean);
    abandon_prob = d.lit prob;
  }

  abbrev browser : JourneyDef F
  browser = record {
    name = "browser";
    weight = d.lit 460;
    steps =
        step "auth_login" 300 0
        ∷ step "users_get" 1200 0
        ∷ step "orders_list" 2500 250
        ∷ step "orders_get" 1800 300
        ∷ [];
  }

  abbrev other_journeys : List (JourneyDef F)
  other_journeys =
      record {
        name = "buyer";
        weight = d.lit 270;
        steps =
            step "auth_login" 300 0
            ∷ step "users_get" 1000 0
            ∷ step "orders_list" 2200 0
            ∷ step "orders_create" 3500 180
            ∷ step "orders_get" 1200 0
            ∷ [];
      }
      ∷ record {
        name = "returning-quick-check";
        weight = d.lit 170;
        steps = step "auth_verify" 100 0 ∷ step "orders_list" 900 0 ∷ [];
      }
      ∷ record {
        name = "signup";
        weight = d.lit 70;
        steps =
            step "users_list" 800 0
            ∷ step "users_create" 4000 350
            ∷ step "auth_login" 600 0
            ∷ step "users_get" 1000 0
            ∷ [];
      }
      ∷ record {
        name = "converter";
        weight = d.lit 30;
        steps =
            step "auth_login" 300 0 ∷ step "users_get" 1500 0 ∷ step "user_upgrade" 5000 400 ∷ [];
      }
      ∷ []

  abbrev journeys : List (JourneyDef F)
  journeys = browser ∷ other_journeys

  abbrev total_weight : F → List (JourneyDef F) → F
  total_weight sum [] = sum
  total_weight sum (j ∷ js) = total_weight (d.add sum j.weight) js

  -- The first journey by which the roll is used up; the first of all where rounding leaves none.
  abbrev pick_within : F → List (JourneyDef F) → JourneyDef F
  pick_within r [] = browser
  pick_within r (j ∷ js) =
      let left = d.sub r j.weight in
      let later = pick_within left js in if d.le left (d.lit 0) then j else later

  unfoldable pub pick_journey : F → JourneyDef F
  pick_journey draw = pick_within (d.mul draw (total_weight (d.lit 0) journeys)) journeys

  abbrev weighted_steps : F → List (JourneyDef F) → F
  weighted_steps sum [] = sum
  weighted_steps sum (j ∷ js) =
      weighted_steps (d.add sum (d.mul (d.of_int (pos (length j.steps))) j.weight)) js

  unfoldable pub avg_steps_per_journey : F
  avg_steps_per_journey =
      d.div (weighted_steps (d.lit 0) journeys) (total_weight (d.lit 0) journeys)

  -- The actions that are sent: up to a cancellation or an abandonment.
  abbrev walk : List (JourneyStep F) → (ℕ → StepDraw F) → ℕ → List String
  walk [] draws i = []
  walk (s ∷ rest) draws i =
      let later = walk rest draws (suc i) in
      if (draws i).cancelled
      then []
      else if d.lt (d.lit 0) s.abandon_prob && d.lt (draws i).roll s.abandon_prob
      then []
      else s.action ∷ later

  unfoldable pub run_session : F → (ℕ → StepDraw F) → List String
  unfolding pick_journey
  run_session draw draws = walk (pick_journey draw).steps draws 0

  -- The factor of the launch rate, by the health of the system.
  unfoldable pub health_factor : F → F
  health_factor h = d.add (d.lit 550) (d.mul (d.lit 450) h)
