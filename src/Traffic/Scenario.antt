-- ===== src/Traffic/Scenario.antt =====
-- cmd/traffic/scenario.go: the weighted actions of a scenario, and the users, orders and tokens that
-- the traffic generator has seen. A draw of `rand.Intn(n)` is a number, taken modulo n.
use Prim.Native.String.{String}
use text.Mathlib.Text.{◌==◌ as str_eq}
use loadgen.Base.{
  ℕ, zero, suc, ◌⊎◌, inl, inr, ◌-◌, ◌%◌, ◌≤◌, ◌||◌, ◌==◌, ◌≡◌, if◌then◌else◌, List, [], ◌∷◌, ◌++◌,
  Option, none, some, leb, length, drop, get_elem?, length-append, arith,
}
use loadgen.Base.Float.{Float64}

pub record ActionSpec (F : Type 0) : Type 0 where
  pub name : String
  pub weight : F

pub record Scenario (F : Type 0) : Type 0 where
  pub name : String
  pub description : String
  pub actions : List (ActionSpec F)

pub record ActionPicker (F : Type 0) : Type 0 where
  pub actions : List (ActionSpec F)
  pub total_weight : F

pub data PickerError : Type 0 where
  no_actions empty_name no_positive_weight : PickerError

-- What the file of the scenario gives: no path, an error of `os.ReadFile` or of `json.Unmarshal`, or
-- the scenario.
pub data ScenarioFile (F : Type 0) : Type 0 where
  no_path unreadable unparsable : ScenarioFile F
  parsed : Scenario F → ScenarioFile F

module _ {F : Type 0} ⦃d : Float64 F⦄ where
  -- The loop over the actions: an empty name ends it, a weight that is not positive is passed over.
  abbrev pub gather : List (ActionSpec F) → ActionPicker F → Option (ActionPicker F)
  gather [] picker = some picker
  gather (a ∷ rest) picker =
      let skipped = gather rest picker in
      let taken = gather rest (record {
        actions = picker.actions ++ (a ∷ []);
        total_weight = d.add picker.total_weight a.weight;
      }) in
      if str_eq a.name "" then none else if d.le a.weight (d.lit 0) then skipped else taken

  unfoldable pub new_action_picker : Scenario F → PickerError ⊎ ActionPicker F
  new_action_picker s = elim s.actions [
    | [] ↦ inl no_actions
    | a ∷ rest ↦ elim (gather (a ∷ rest) (record { actions = []; total_weight = d.lit 0 })) [
      | none ↦ inl empty_name
      | some picker ↦
          if length picker.actions == 0 || d.le picker.total_weight (d.lit 0)
          then inl no_positive_weight
          else inr picker
    ]
  ]

  -- The first action up to whose weight the roll comes; the last one where rounding leaves none; an
  -- index out of range is `none`.
  abbrev pub pick_from : F → F → List (ActionSpec F) → Option String
  pick_from roll cumulative [] = none
  pick_from roll cumulative (a ∷ rest) =
      let here = d.add cumulative a.weight in
      let later = pick_from roll here rest in
      if d.le roll here then some a.name else elim rest [ [] ↦ some a.name | b ∷ more ↦ later ]

  unfoldable pub pick : ActionPicker F → F → Option String
  pick p draw = pick_from (d.mul draw p.total_weight) (d.lit 0) p.actions

  abbrev pub default_scenario : Scenario F
  default_scenario = record {
    name = "default-production-like";
    description = "Weighted API traffic with dependency-aware actions";
    actions =
        record { name = "users_list"; weight = d.lit 280 }
        ∷ record { name = "users_get"; weight = d.lit 100 }
        ∷ record { name = "auth_login"; weight = d.lit 150 }
        ∷ record { name = "auth_verify"; weight = d.lit 50 }
        ∷ record { name = "orders_create"; weight = d.lit 200 }
        ∷ record { name = "orders_list"; weight = d.lit 100 }
        ∷ record { name = "orders_get"; weight = d.lit 50 }
        ∷ record { name = "users_create"; weight = d.lit 40 }
        ∷ record { name = "user_upgrade"; weight = d.lit 30 }
        ∷ [];
  }

  -- `none` is an error.
  unfoldable pub load_scenario : ScenarioFile F → Option (Scenario F)
  load_scenario no_path = some default_scenario
  load_scenario unreadable = none
  load_scenario unparsable = none
  load_scenario (parsed cfg) =
      some (if str_eq cfg.name "" then record cfg { name = "custom-scenario" } else cfg)

pub record ActorState : Type 0 where
  pub users : List String
  pub orders : List String
  pub tokens : List String
  pub max_size : ℕ

abbrev pub new_actor_state : ℕ → ActorState
new_actor_state n = record { users = []; orders = []; tokens = []; max_size = n }

-- The latest values, and at most so many.
unfoldable pub append_trimmed : List String → String → ℕ → List String
append_trimmed values next max_size =
    let longer = values ++ (next ∷ []) in
    if str_eq next ""
    then values
    else if leb (length longer) max_size
    then longer
    else drop (length longer - max_size) longer

unfoldable pub add_user : String → ActorState → ActorState
add_user id s = record s { users = append_trimmed s.users id s.max_size }

unfoldable pub add_order : String → ActorState → ActorState
add_order id s = record s { orders = append_trimmed s.orders id s.max_size }

unfoldable pub add_token : String → ActorState → ActorState
add_token token s = record s { tokens = append_trimmed s.tokens token s.max_size }

-- A random one of the values, and the empty text if there are none.
abbrev pub random_of : ℕ → List String → String
random_of draw [] = ""
random_of draw (x ∷ xs) = elim (get_elem? (x ∷ xs) (draw % length (x ∷ xs))) [
  | none ↦ ""
  | some v ↦ v
]

length-drop : (n : ℕ) (xs : List String) → length (drop n xs) ≡ length xs - n
length-drop zero xs = omega arith
length-drop (suc n) [] = omega arith
length-drop (suc n) (x ∷ xs) = omega (arith, length-drop n xs)

-- What is kept never grows beyond the maximum.
append_trimmed-bound :
    (xs : List String) (x : String) (n : ℕ) → length xs ≤ n → length (append_trimmed xs x n) ≤ n
unfolding append_trimmed
append_trimmed-bound xs x n h =
    let longer = xs ++ (x ∷ []) in
    ground (arith, length-append xs (x ∷ []), length-drop (length longer - n) longer)
