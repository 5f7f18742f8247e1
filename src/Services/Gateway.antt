-- ===== src/Services/Gateway.antt =====
-- cmd/gateway/main.go: the routes, and the limit of requests. A ticker sets the counter to 0 every
-- second. The name of a request without one is drawn from the clock.
pub mod Limit
use Prim.Native.String.{String, len, slice, ◌++◌ as str_append}
use text.Mathlib.Text.{◌==◌ as str_eq}
use loadgen.Base.{ℕ, suc, Bool, true, false, if◌then◌else◌, List, [], ◌∷◌, ltb}

pub data Peer : Type 0 where
  auth_peer user_peer order_peer : Peer

-- A route: its method and pattern, the prefix that is stripped, and where it leads.
pub record Route : Type 0 where
  pub pattern : String
  pub strip_prefix : String
  pub peer : Peer

pub record GatewayRequest : Type 0 where
  pub route : Route
  pub path : String
  pub request_id : String
  pub now_text : String

pub data Proxied : Type 0 where
  too_many : Proxied
  -- The peer, with the path and the request's id that it gets.
  proxied : Peer → String → String → Proxied

abbrev route : String → String → Peer → Route
route pattern strip_prefix peer = record {
  pattern = pattern;
  strip_prefix = strip_prefix;
  peer = peer;
}

abbrev pub routes : List Route
routes =
    route "POST /api/auth/login" "/api/auth" auth_peer
    ∷ route "POST /api/auth/verify" "/api/auth" auth_peer
    ∷ route "POST /api/users" "/api" user_peer
    ∷ route "GET /api/users/" "/api" user_peer
    ∷ route "GET /api/users" "/api" user_peer
    ∷ route "POST /api/users/{id}/upgrade" "/api" user_peer
    ∷ route "POST /api/orders" "/api" order_peer
    ∷ route "GET /api/orders/" "/api" order_peer
    ∷ route "GET /api/orders" "/api" order_peer
    ∷ []

-- `strings.TrimPrefix`.
abbrev trim_prefix : String → String → String
trim_prefix s prefix =
    if str_eq (slice s 0 (len prefix)) prefix then slice s (len prefix) (len s) else s

unfoldable pub rewrite_path : String → String → String
rewrite_path path strip_prefix =
    let p = trim_prefix path strip_prefix in if str_eq p "" then "/" else p

unfoldable pub request_id_of : GatewayRequest → String
request_id_of req =
    if str_eq req.request_id "" then str_append "gw-" req.now_text else req.request_id

abbrev pub rate_limit : ℕ
rate_limit = 1000

-- The handler of a route, on the counter.
unfoldable pub proxy_handler : GatewayRequest → ℕ → Proxied × ℕ
unfolding rewrite_path request_id_of
proxy_handler req count =
    let current = suc count in
    if ltb rate_limit current then (too_many, current) else (
      proxied req.route.peer (rewrite_path req.path req.route.strip_prefix) (request_id_of req),
      current,
    )

-- A request, or a tick of the ticker.
pub data GatewayEvent : Type 0 where
  requests : GatewayRequest → GatewayEvent
  ticks : GatewayEvent

-- The answers to the requests of a history.
unfoldable pub serve_events : List GatewayEvent → ℕ → List Proxied
unfolding proxy_handler
serve_events [] count = []
serve_events (ticks ∷ es) count = serve_events es 0
serve_events (requests req ∷ es) count =
    let out = proxy_handler req count in out.0 ∷ serve_events es out.1
