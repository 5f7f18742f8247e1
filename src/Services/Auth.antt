-- ===== src/Services/Auth.antt =====
-- cmd/auth/main.go: login, verification and the tokens in the cache. The bytes of the cache are texts
-- here; the token of a login is what SHA-256 gives, and so a draw.
pub mod Session
use Prim.Native.String.{String, ◌++◌ as str_append, len, slice}
use text.Mathlib.TextEquality.{eq_iff}
use text.Mathlib.TextPositions.{eq_refl}
use loadgen.Base.{
  List, [], ◌∷◌, ℕ, ◌≡◌, refl, Bool, true, false, if◌then◌else◌, Option, none, some, ltb, arith,
}
use loadgen.Base.Float.{Float64}
use loadgen.Platform.Assoc.{lookup, insert, lookup-insert}
use loadgen.Platform.Cache.{Cache, Faults, is_evicted, cache_get, cache_set}
use loadgen.Services.Reply.{Reply, http_error, json}
use loadgen.SysState.Incident.{auth_service, clock_skew, Fault}
use loadgen.SysState.Health.{fault_health, scaled_error_rate}

pub record LoginRequest : Type 0 where
  pub username : String
  pub password : String

pub record LoginResponse : Type 0 where
  pub token : String
  pub user_id : String

pub record VerifyResponse : Type 0 where
  pub valid : Bool
  pub user_id : String

-- What a login meets. The read of the user record changes nothing, whatever it gives.
pub record Login (F : Type 0) : Type 0 where
  pub faults : Faults F
  pub error_draw : F
  pub password_draw : F
  pub token : String
  pub body : Option LoginRequest

pub record Verify (F : Type 0) : Type 0 where
  pub faults : Faults F
  pub skew_draw : F
  pub error_draw : F
  pub evict_draw : F
  pub fallback_draw : F
  pub user_draw : String
  pub body : Option String

abbrev pub Tokens : Type 0
Tokens = Cache String

abbrev pub token_key : String → String
token_key token = str_append "token:" token

abbrev pub user_id_of : String → String
user_id_of username = str_append "user-" username

unfoldable pub truncate_token : String → String
truncate_token token = if ltb 8 (len token) then str_append (slice token 0 8) "..." else token

unfoldable pub cache_token : String → String → Tokens → Tokens
unfolding cache_set
cache_token token user_id cache = cache_set (token_key token) user_id cache

abbrev pub verify_answer : Option String → Reply VerifyResponse
verify_answer none = record { status = 200; body = json (record { valid = false; user_id = "" }) }
verify_answer (some user_id) = record {
  status = 200;
  body = json (record { valid = true; user_id = user_id });
}

module _ {F : Type 0} ⦃d : Float64 F⦄ where
  -- Whether a draw falls below a rate between two bounds for the health of a fault.
  unfoldable pub strikes : Faults F → Fault → ℕ → ℕ → F → Bool
  strikes f fault low high draw =
      d.lt draw
        (scaled_error_rate (d.lit low) (d.lit high) (fault_health f.epoch_info f.system fault))

  unfoldable pub handle_login : Login F → Tokens → Reply LoginResponse × Tokens
  unfolding strikes cache_token
  handle_login l cache =
      if strikes l.faults auth_service 10 200 l.error_draw
      then (http_error 500 "internal server error", cache)
      else elim l.body [
        | none ↦ (http_error 400 "invalid request body", cache)
        | some req ↦
            let user_id = user_id_of req.username in
            if strikes l.faults auth_service 50 350 l.password_draw
            then (http_error 401 "invalid credentials", cache)
            else (
              record { status = 200; body = json (record { token = l.token; user_id = user_id }) },
              cache_token l.token user_id cache,
            )
      ]

  -- A missing token is accepted for half of the draws, for a drawn user.
  unfoldable pub lookup_token : Verify F → String → Tokens → Option String × Tokens
  unfolding cache_get cache_token
  lookup_token v token cache = elim (cache_get v.faults v.evict_draw (token_key token) cache) [
    | some user_id ↦ (some user_id, cache)
    | none ↦
        let user_id = user_id_of v.user_draw in
        if d.lt v.fallback_draw (d.lit 500)
        then (some user_id, cache_token token user_id cache)
        else (none, cache)
  ]

  unfoldable pub handle_verify : Verify F → Tokens → Reply VerifyResponse × Tokens
  unfolding strikes lookup_token
  handle_verify v cache =
      if strikes v.faults clock_skew 0 350 v.skew_draw
      then (http_error 401 "token not yet valid: clock skew detected", cache)
      else if strikes v.faults auth_service 10 200 v.error_draw
      then (http_error 500 "internal server error", cache)
      else elim v.body [
        | none ↦ (http_error 400 "invalid request body", cache)
        | some token ↦
            let (found, cache') = lookup_token v token cache in (verify_answer found, cache')
      ]

-- Requests in the order in which they are handled.
pub data AuthEvent (F : Type 0) : Type 0 where
  logs_in : Login F → AuthEvent F
  verifies : Verify F → AuthEvent F

module _ {F : Type 0} ⦃d : Float64 F⦄ where
  unfoldable pub step : AuthEvent F → Tokens → Tokens
  unfolding handle_login handle_verify
  step (logs_in l) cache = (handle_login l cache).1
  step (verifies v) cache = (handle_verify v cache).1

  unfoldable pub run : List (AuthEvent F) → Tokens → Tokens
  unfolding step
  run [] cache = cache
  run (e ∷ es) cache = run es (step e cache)
