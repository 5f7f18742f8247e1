-- ===== src/Traffic/Plan.antt =====
-- cmd/traffic: the request of an action (scenario.go), and what its answer adds to the users, orders
-- and tokens that have been seen (main.go). Random texts are draws; `show` is what fmt prints.
use Prim.Native.String.{String, ◌++◌ as str_append}
use text.Mathlib.Text.{◌==◌ as str_eq}
use loadgen.Base.{
  ℕ, zero, suc, ◌+◌, ◌%◌, ◌||◌, if◌then◌else◌, List, [], ◌∷◌, Option, none, some, pos,
}
use loadgen.Base.Float.{Float64}
use loadgen.Platform.Db.{Codec}
use loadgen.Traffic.Scenario.{ActorState, add_user, add_order, add_token, random_of}

pub record ItemDraw : Type 0 where
  pub product : ℕ
  pub name : String
  pub quantity : ℕ
  pub price : ℕ

-- What `buildPlan` draws: the place in a list of actors, another number, the items, and two texts.
pub record PlanDraws : Type 0 where
  pub actor : ℕ
  pub fallback : ℕ
  pub item_count : ℕ
  pub items : ℕ → ItemDraw
  pub name : String
  pub email : String

pub record PlannedItem (F : Type 0) : Type 0 where
  pub product_id : String
  pub name : String
  pub quantity : ℕ
  pub price : F

-- What `json.Marshal` is given.
pub data Body (F : Type 0) : Type 0 where
  no_body : Body F
  user_body : String → String → Body F
  login_body : String → String → Body F
  token_body : String → Body F
  order_body : String → List (PlannedItem F) → Body F

pub record RequestPlan (F : Type 0) : Type 0 where
  pub action : String
  pub method : String
  pub path : String
  pub body : Body F

abbrev pub or_else : String → String → String
or_else v fallback = if str_eq v "" then fallback else v

abbrev pub login_names : List String
login_names = "alice" ∷ "bob" ∷ "charlie" ∷ "demo" ∷ []

-- A user that has been seen, or one of the seeded ones.
abbrev pub some_user : (ℕ → String) → PlanDraws → ActorState → String
some_user show draws s = or_else (random_of draws.actor s.users) (show (draws.fallback % 3 + 1))

module _ {F : Type 0} ⦃d : Float64 F⦄ (show : ℕ → String) where
  abbrev pub planned_item : ItemDraw → PlannedItem F
  planned_item i = record {
    product_id = str_append "P" (show (100 + i.product % 900));
    name = str_append "Item-" i.name;
    quantity = i.quantity % 3 + 1;
    price = d.div (d.of_int (pos (i.price % 9000 + 500))) (d.lit 100_000);
  }

  -- So many items, from the draws of a place on.
  abbrev pub planned_items : (ℕ → ItemDraw) → ℕ → ℕ → List (PlannedItem F)
  planned_items items zero i = []
  planned_items items (suc n) i = planned_item (items i) ∷ planned_items items n (suc i)

  abbrev pub plan : String → String → String → Body F → Option (RequestPlan F)
  plan action method path body =
      some (record { action = action; method = method; path = path; body = body })

  -- `none` is the empty plan of an unknown action.
  unfoldable pub build_plan : String → PlanDraws → ActorState → Option (RequestPlan F)
  build_plan action draws s =
      let user = some_user show draws s in
      if str_eq action "users_list"
      then plan action "GET" "/api/users" no_body
      else if str_eq action "users_get"
      then plan action "GET" (str_append "/api/users/" user) no_body
      else if str_eq action "users_create"
      then plan action "POST" "/api/users"
          (user_body (str_append "User " draws.name) (str_append draws.email "@example.com"))
      else if str_eq action "auth_login"
      then plan action "POST" "/api/auth/login"
          (login_body (random_of draws.fallback login_names) "testpassword123")
      else if str_eq action "auth_verify"
      then plan action "POST" "/api/auth/verify"
          (token_body (or_else (random_of draws.actor s.tokens) "invalid-token"))
      else if str_eq action "orders_list"
      then plan action "GET" "/api/orders" no_body
      else if str_eq action "orders_get"
      then plan action "GET"
          (str_append "/api/orders/" (or_else (random_of draws.actor s.orders) "ORD-001")) no_body
      else if str_eq action "user_upgrade"
      then plan action "POST" (str_append (str_append "/api/users/" user) "/upgrade") no_body
      else if str_eq action "orders_create"
      then plan action "POST" "/api/orders"
          (order_body user (planned_items draws.items (draws.item_count % 3 + 1) 0))
      else none

pub record UserReply : Type 0 where
  pub id : String

pub record LoginReply : Type 0 where
  pub token : String
  pub user_id : String

pub record OrderReply : Type 0 where
  pub order_id : String
  pub user_id : String

module _ {R : Type 0} ⦃cu : Codec R UserReply⦄ ⦃cl : Codec R LoginReply⦄
    ⦃co : Codec R OrderReply⦄ where
  -- The body is `none` if it is empty or cannot be read.
  unfoldable pub track_state : String → Option R → ActorState → ActorState
  unfolding add_user add_order add_token
  track_state action none s = s
  track_state action (some raw) s =
      if str_eq action "users_create" || str_eq action "users_get"
      then elim (cu.unmarshal raw) [ none ↦ s | some user ↦ add_user user.id s ]
      else if str_eq action "auth_login"
      then elim (cl.unmarshal raw) [
        | none ↦ s
        | some login ↦ add_user login.user_id (add_token login.token s)
      ]
      else if str_eq action "orders_create" || str_eq action "orders_get"
      then elim (co.unmarshal raw) [
        | none ↦ s
        | some order ↦ add_user order.user_id (add_order order.order_id s)
      ]
      else s
