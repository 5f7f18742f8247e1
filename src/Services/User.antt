-- ===== src/Services/User.antt =====
-- cmd/user/main.go: the records of users, and the handlers. A draw is what math/rand gives; `decimal`
-- is `fmt.Sprintf("%d", …)`.
pub mod Upgrade
pub mod Spec
pub mod Represents
pub mod Refines
pub mod Stale
use Prim.Native.String.{String, ◌++◌ as str_append}
use text.Mathlib.Text.{◌==◌ as str_eq}
use loadgen.Base.{ℕ, ◌+◌, Bool, if◌then◌else◌, List, [], ◌∷◌, Option, none, some}
use loadgen.Base.Float.{Float64}
use loadgen.Platform.Db.{
  Codec, Db, Fetched, found, failed, new_db, db_insert, db_get, db_update, db_list,
}
use loadgen.Platform.Cache.{Cache, Faults, new_cache, cache_get, cache_set, cache_delete}
use loadgen.Services.Reply.{
  Method, get_method, post_method, put_method, Reply, Body, rows, http_error, write_json, json,
}
use loadgen.SysState.Incident.{db_contention, payment_gateway}
use loadgen.SysState.Health.{fault_health, scaled_error_rate}

pub record User : Type 0 where
  pub id : String
  pub name : String
  pub email : String
  pub created_at : String

-- The body of a request, with the empty text for what it leaves out.
pub record UserInput : Type 0 where
  pub name : String
  pub email : String

pub record Service (R : Type 0) : Type 0 where
  pub db : Db R
  pub cache : Cache R

-- What a call meets: the incidents, its draws, the clock's text, and its body, if it is JSON.
pub record Call (F : Type 0) : Type 0 where
  pub faults : Faults F
  pub error_draw : F
  pub evict_draw : F
  pub id_draw : ℕ
  pub now : String
  pub body : Option UserInput
  -- The ids in the order in which a listing meets them.
  pub listing : List String

abbrev pub cache_key : String → String
cache_key id = str_append "user:" id

abbrev pub seeds : List User
seeds =
    record {
      id = "1";
      name = "Alice Johnson";
      email = "alice@example.com";
      created_at = "2025-01-15T10:30:00Z";
    }
    ∷ record {
      id = "2";
      name = "Bob Smith";
      email = "bob@example.com";
      created_at = "2025-02-20T14:45:00Z";
    }
    ∷ record {
      id = "3";
      name = "Charlie Brown";
      email = "charlie@example.com";
      created_at = "2025-03-10T09:00:00Z";
    }
    ∷ []

-- A field of the input replaces the old one unless it is empty.
abbrev pub replaced : String → String → String
replaced new old = if str_eq new "" then old else new

abbrev pub merge : UserInput → User → User
merge input u = record u { name = replaced input.name u.name; email = replaced input.email u.email }

module _ {F : Type 0} ⦃d : Float64 F⦄ where
  unfoldable pub simulate_db_error : Call F → Bool
  simulate_db_error call = d.lt call.error_draw (
      scaled_error_rate (d.lit 20) (d.lit 400)
        (fault_health call.faults.epoch_info call.faults.system db_contention))

module _ {R : Type 0} ⦃c : Codec R User⦄ where
  -- Errors of the insertions are dropped.
  unfoldable pub seed_users : List User → Db R → Db R
  seed_users [] db = db
  seed_users (u ∷ us) db = seed_users us (db_insert "users" u.id u db).1

  unfoldable pub start_service : Service R
  unfolding seed_users
  start_service = record { db = seed_users seeds new_db; cache = new_cache }

  -- The second part of `getUser`, from the read on: the bytes of the user go to the cache.
  unfoldable pub fill_cache : String → User → Service R → Service R
  unfolding cache_set
  fill_cache id u s = record s { cache = cache_set (cache_key id) (c.bytes u) s.cache }

  -- The insertion of `createUser`.
  unfoldable pub insert_user : User → Service R → Reply R × Service R
  unfolding db_insert write_json
  insert_user u s =
      let (err, db) = db_insert "users" u.id u s.db in
      elim err [
        | none ↦ (write_json 201 (c.marshal u), record s { db = db })
        | some _ ↦ (http_error 500 "failed to create user", record s { db = db })
      ]

  -- The write of `updateUser`, with the cache's entry deleted.
  unfoldable pub write_user : String → User → Service R → Reply R × Service R
  unfolding db_update cache_delete write_json
  write_user id u s =
      let (err, db) = db_update "users" id u s.db in
      elim err [
        | none ↦ (
          write_json 200 (c.marshal u),
          record { db = db; cache = cache_delete (cache_key id) s.cache },
        )
        | some _ ↦ (http_error 500 "failed to update user", record s { db = db })
      ]

  module _ {F : Type 0} ⦃d : Float64 F⦄ where
    unfoldable pub list_users : Call F → Service R → Reply R
    unfolding simulate_db_error db_list
    list_users call s =
        if simulate_db_error call
        then http_error 500 "internal server error"
        else record { status = 200; body = rows (db_list call.listing "users" s.db) }

    unfoldable pub get_user : Call F → String → Service R → Reply R × Service R
    unfolding simulate_db_error cache_get db_get fill_cache write_json
    get_user call id s =
        if simulate_db_error call
        then (http_error 500 "internal server error", s)
        else elim (cache_get call.faults call.evict_draw (cache_key id) s.cache) [
          | some raw ↦ (record { status = 200; body = json raw }, s)
          | none ↦ elim (db_get {A = User} "users" id s.db) [
            | failed _ ↦ (http_error 404 "user not found", s)
            | found u ↦ (write_json 200 (c.marshal u), fill_cache id u s)
          ]
        ]

    unfoldable pub create_user : (ℕ → String) → Call F → Service R → Reply R × Service R
    unfolding simulate_db_error insert_user
    create_user decimal call s =
        if simulate_db_error call
        then (http_error 500 "internal server error", s)
        else elim call.body [
          | none ↦ (http_error 400 "invalid request body", s)
          | some input ↦
              insert_user
                (record {
                  id = decimal (1000 + call.id_draw);
                  name = input.name;
                  email = input.email;
                  created_at = call.now;
                })
                s
        ]

    unfoldable pub update_user : Call F → String → Service R → Reply R × Service R
    unfolding simulate_db_error db_get write_user
    update_user call id s =
        if simulate_db_error call
        then (http_error 500 "internal server error", s)
        else elim (db_get {A = User} "users" id s.db) [
          | failed _ ↦ (http_error 404 "user not found", s)
          | found u ↦ elim call.body [
            | none ↦ (http_error 400 "invalid request body", s)
            | some input ↦ write_user id (merge input u) s
          ]
        ]

    unfoldable pub users_handler : (ℕ → String) → Method → Call F → Service R → Reply R × Service R
    unfolding list_users create_user
    users_handler decimal get_method call s = (list_users call s, s)
    users_handler decimal post_method call s = create_user decimal call s
    users_handler decimal _ call s = (http_error 405 "method not allowed", s)

    -- For a path of an id.
    abbrev by_method : Method → Call F → String → Service R → Reply R × Service R
    by_method get_method call id s = get_user call id s
    by_method put_method call id s = update_user call id s
    by_method _ call id s = (http_error 405 "method not allowed", s)

    unfoldable pub user_by_id_handler : Method → String → Call F → Service R → Reply R × Service R
    unfolding get_user update_user
    user_by_id_handler m id call s =
        if str_eq id "" then (http_error 400 "missing user id", s) else by_method m call id s

-- Requests, in the order in which they are handled.
pub data Request (F : Type 0) : Type 0 where
  users_request : Method → Call F → Request F
  user_request : Method → String → Call F → Request F

module _ {R : Type 0} ⦃c : Codec R User⦄ {F : Type 0} ⦃d : Float64 F⦄ (decimal : ℕ → String) where
  unfoldable pub serve : Request F → Service R → Reply R × Service R
  unfolding users_handler user_by_id_handler
  serve (users_request m call) s = users_handler decimal m call s
  serve (user_request m id call) s = user_by_id_handler m id call s

  -- The answers to a list of requests.
  unfoldable pub serve_all : List (Request F) → Service R → List (Reply R)
  unfolding serve
  serve_all [] s = []
  serve_all (q ∷ qs) s = (serve q s).0 ∷ serve_all qs (serve q s).1
