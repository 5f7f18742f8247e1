-- ===== src/Services/User/Spec.antt =====
-- The user service as its clients may think of it: a table of users, with no cache and no bytes.
use Prim.Native.String.{String}
use text.Mathlib.Text.{◌==◌ as str_eq}
use loadgen.Base.{ℕ, ◌+◌, ◌≡◌, if◌then◌else◌, List, [], ◌∷◌, Option, none, some}
use loadgen.Base.Float.{Float64}
use loadgen.Platform.Assoc.{Assoc, lookup, insert, met}
use loadgen.Services.Reply.{
  Method, get_method, post_method, put_method, Reply, rows, http_error, json,
}
use loadgen.Services.User.{
  User, UserInput, Call, merge, simulate_db_error, Request, users_request, user_request,
}

abbrev pub Users : Type 0
Users = Assoc User

-- The user that a call creates.
abbrev pub created_user : {F : Type 0} → (ℕ → String) → Call F → UserInput → User
created_user decimal call input = record {
  id = decimal (1000 + call.id_draw);
  name = input.name;
  email = input.email;
  created_at = call.now;
}

abbrev pub answer : ℕ → User → Reply User
answer code u = record { status = code; body = json u }

abbrev pub spec_get : String → Users → Reply User × Users
spec_get id us = elim (lookup id us) [
  | none ↦ (http_error 404 "user not found", us)
  | some u ↦ (answer 200 u, us)
]

abbrev pub spec_put : Option UserInput → String → Users → Reply User × Users
spec_put body id us = elim (lookup id us) [
  | none ↦ (http_error 404 "user not found", us)
  | some u ↦ elim body [
    | none ↦ (http_error 400 "invalid request body", us)
    | some input ↦ (answer 200 (merge input u), insert id (merge input u) us)
  ]
]

module _ {F : Type 0} (decimal : ℕ → String) where
  abbrev pub spec_post : Call F → Users → Reply User × Users
  spec_post call us = elim call.body [
    | none ↦ (http_error 400 "invalid request body", us)
    | some input ↦ (
      answer 201 (created_user decimal call input),
      insert (decimal (1000 + call.id_draw)) (created_user decimal call input) us,
    )
  ]

  -- The created id is not in use.
  abbrev pub IsFresh : Request F → Users → Type 0
  IsFresh (users_request post_method call) us = lookup (decimal (1000 + call.id_draw)) us ≡ none
  IsFresh _ us = Unit {0}

module _ {F : Type 0} ⦃d : Float64 F⦄ where
  -- A request of a known method fails as a whole when its draw says so.
  abbrev pub unless_error : Call F → Users → Reply User × Users → Reply User × Users
  unless_error call us out =
      if simulate_db_error call then (http_error 500 "internal server error", us) else out

  abbrev pub spec_by_method : Method → Call F → String → Users → Reply User × Users
  spec_by_method get_method call id us = unless_error call us (spec_get id us)
  spec_by_method put_method call id us = unless_error call us (spec_put call.body id us)
  spec_by_method _ call id us = (http_error 405 "method not allowed", us)

  module _ (decimal : ℕ → String) where
    unfoldable pub spec_serve : Request F → Users → Reply User × Users
    spec_serve (users_request get_method call) us =
        unless_error call us (record { status = 200; body = rows (met call.listing us) }, us)
    spec_serve (users_request post_method call) us =
        unless_error call us (spec_post decimal call us)
    spec_serve (users_request _ call) us = (http_error 405 "method not allowed", us)
    spec_serve (user_request m id call) us =
        if str_eq id "" then (http_error 400 "missing user id", us) else spec_by_method m call id us

    unfoldable pub spec_serve_all : List (Request F) → Users → List (Reply User)
    unfolding spec_serve
    spec_serve_all [] us = []
    spec_serve_all (q ∷ qs) us = (spec_serve q us).0 ∷ spec_serve_all qs (spec_serve q us).1

    abbrev pub AllFresh : List (Request F) → Users → Type 0
    AllFresh [] us = Unit {0}
    AllFresh (q ∷ qs) us = IsFresh decimal q us × AllFresh qs (spec_serve q us).1
