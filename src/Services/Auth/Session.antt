-- ===== src/Services/Auth/Session.antt =====
-- How long a token stands for the user who logged in.
use Prim.Native.String.{String}
use text.Mathlib.Text.{◌==◌ as str_eq}
use text.Mathlib.TextEquality.{eq_iff}
use text.Mathlib.TextPositions.{eq_refl}
use text.Mathlib.TextLemmas.{append_cancel_left}
use loadgen.Base.{
  ◌≡◌, true, false, List, [], ◌∷◌, some, All, arith, Bool-cases, inl, inr, Option-cases,
}
use loadgen.Base.Float.{Float64}
use loadgen.Platform.Assoc.{lookup, lookup-insert}
use loadgen.Platform.Cache.{is_evicted, cache_get, cache_set}
use loadgen.Services.Reply.{json}
use loadgen.Services.Auth.{
  LoginRequest, Login, Verify, Tokens, token_key, user_id_of, cache_token, strikes, handle_login,
  lookup_token, handle_verify, AuthEvent, logs_in, verifies, step, run,
}
use loadgen.SysState.Incident.{auth_service, clock_skew}

token_key_eq : (a b : String) → str_eq (token_key a) (token_key b) ≡ str_eq a b
token_key_eq a b = elim (Bool-cases (str_eq a b)) [
  | inl e ↦ rw ((eq_iff a b).0 e, eq_refl (token_key b), eq_refl b)
  | inr e ↦ elim (Bool-cases (str_eq (token_key a) (token_key b))) [
    | inl k ↦
        let same : a ≡ b =
          append_cancel_left "token:" a b ((eq_iff (token_key a) (token_key b)).0 k) in
        ground (arith, eq_iff a b)
    | inr k ↦ cc
  ]
]

-- A token is in the cache for a user.
abbrev Holds : String → String → Tokens → Type 0
Holds token user cache = lookup (token_key token) cache ≡ some user

cache_token-Holds :
    (token user other_token other : String) (cache : Tokens)
    → str_eq other_token token ≡ false
    → Holds token user cache
    → Holds token user (cache_token other_token other cache)
unfolding cache_token cache_set
cache_token-Holds token user other_token other cache e h = ground (
  arith,
  lookup-insert (token_key token) (token_key other_token) other cache,
  token_key_eq other_token token,
)

module _ {F : Type 0} ⦃d : Float64 F⦄ where
  -- Neither does a login issue the token again, nor is it evicted under a verification.
  abbrev pub Leaves : String → AuthEvent F → Type 0
  Leaves token (logs_in l) = str_eq l.token token ≡ false
  Leaves token (verifies v) = is_evicted v.faults v.evict_draw ≡ false

  abbrev pub Accepted : Verify F → Type 0
  Accepted v =
      (strikes v.faults clock_skew 0 350 v.skew_draw ≡ false)
      × (strikes v.faults auth_service 10 200 v.error_draw ≡ false)

  login-Holds :
      (token user : String) (l : Login F) (cache : Tokens)
      → str_eq l.token token ≡ false
      → Holds token user cache
      → Holds token user (handle_login l cache).1
  unfolding handle_login
  login-Holds token user l cache e h = elim (Option-cases l.body) [
    | inl k ↦ ground arith
    | inr (req, k) ↦
        ground (arith, cache_token-Holds token user l.token (user_id_of req.username) cache e h)
  ]

  verify-Holds :
      (token user : String) (v : Verify F) (cache : Tokens)
      → is_evicted v.faults v.evict_draw ≡ false
      → Holds token user cache
      → Holds token user (handle_verify v cache).1
  unfolding handle_verify lookup_token cache_get
  verify-Holds token user v cache e h = elim (Option-cases v.body) [
    | inl k ↦ ground arith
    | inr (t, k) ↦ elim (Bool-cases (str_eq t token)) [
      | inl same ↦ ground (arith, eq_iff t token)
      | inr other ↦
          ground (arith, cache_token-Holds token user t (user_id_of v.user_draw) cache other h)
    ]
  ]

  run-Holds :
      (token user : String) (es : List (AuthEvent F)) (cache : Tokens)
      → All (Leaves token) es
      → Holds token user cache
      → Holds token user (run es cache)
  unfolding run step
  run-Holds token user [] cache k h = h
  run-Holds token user (logs_in l ∷ es) cache k h =
      run-Holds token user es _ k.1 (login-Holds token user l cache k.0 h)
  run-Holds token user (verifies v ∷ es) cache k h =
      run-Holds token user es _ k.1 (verify-Holds token user v cache k.0 h)

  -- A login that no simulated error meets answers with a token and the user's id. After it, and
  -- whatever logins and verifications follow, a verification of the token that no simulated error
  -- meets answers that it is valid for the same user, if no later login issues the same token and no
  -- verification meets an eviction of the cache.
  pub handle_verify-login :
      (l : Login F) (v : Verify F) (req : LoginRequest) (es : List (AuthEvent F)) (cache : Tokens)
      → l.body ≡ some req
      → v.body ≡ some l.token
      → strikes l.faults auth_service 10 200 l.error_draw ≡ false
      → strikes l.faults auth_service 50 350 l.password_draw ≡ false
      → Accepted v
      → All (Leaves l.token) es
      → is_evicted v.faults v.evict_draw ≡ false
      → let user_id = user_id_of req.username in
        ((handle_login l cache).0
          ≡ record { status = 200; body = json (record { token = l.token; user_id = user_id }) })
        × ((handle_verify v (run es (handle_login l cache).1)).0
            ≡ record { status = 200; body = json (record { valid = true; user_id = user_id }) })
  unfolding handle_login handle_verify lookup_token cache_get cache_token cache_set
  handle_verify-login l v req es cache b b' ok ok' fine k e =
      let user_id = user_id_of req.username in
      let first : Holds l.token user_id (handle_login l cache).1 = ground (
        arith,
        lookup-insert (token_key l.token) (token_key l.token) user_id cache,
        eq_refl (token_key l.token),
      ) in
      let last = run-Holds l.token user_id es (handle_login l cache).1 k first in
      (ground arith, ground arith)
