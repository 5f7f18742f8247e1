-- ===== src/Services/Gateway/Limit.antt =====
-- How many requests the gateway lets through.
use loadgen.Base.{
  ℕ, suc, ◌+◌, ◌-◌, ◌*◌, ◌≤◌, ◌≡◌, refl, Bool, true, false, if◌then◌else◌, List, [], ◌∷◌, ◌++◌, map,
  ltb, leb, arith, Bool-cases, inl, inr,
}
use loadgen.Services.Gateway.{
  Proxied, too_many, proxied, GatewayRequest, rate_limit, proxy_handler, GatewayEvent, requests,
  ticks, serve_events,
}

abbrev is_proxied : Proxied → Bool
is_proxied too_many = false
is_proxied (proxied peer path id) = true

-- The requests that are let through, and the ticks of a history.
abbrev pub passed : List Proxied → ℕ
passed [] = 0
passed (p ∷ ps) = if is_proxied p then passed ps + 1 else passed ps

abbrev pub tick_count : List GatewayEvent → ℕ
tick_count [] = 0
tick_count (ticks ∷ es) = tick_count es + 1
tick_count (requests req ∷ es) = tick_count es

abbrev pub only_requests : List GatewayRequest → List GatewayEvent
only_requests reqs = map requests reqs

abbrev pub request_count : List GatewayRequest → ℕ
request_count [] = 0
request_count (r ∷ rs) = request_count rs + 1

-- What a window lets through of some requests.
abbrev pub capped : ℕ → ℕ
capped n = if leb n rate_limit then n else rate_limit

exhausted :
    (reqs : List GatewayRequest) (es : List GatewayEvent) (count : ℕ)
    → rate_limit ≤ count
    → passed (serve_events (only_requests reqs ++ (ticks ∷ es)) count) ≡ passed (serve_events es 0)
unfolding serve_events proxy_handler
exhausted [] es count h = refl
exhausted (r ∷ rs) es count h = ground (arith, exhausted rs es (suc count))

first_window :
    (reqs : List GatewayRequest) (es : List GatewayEvent) (count : ℕ)
    → count ≤ rate_limit
    → passed (serve_events (only_requests reqs ++ (ticks ∷ es)) count) + count
      ≡ capped (request_count reqs + count) + passed (serve_events es 0)
unfolding serve_events proxy_handler
first_window [] es count h = ground arith
first_window (r ∷ rs) es count h = elim (Bool-cases (ltb count rate_limit)) [
  | inl room ↦ ground (arith, first_window rs es (suc count))
  | inr full ↦ ground (arith, exhausted rs es (suc count))
]

-- Of the rest of a window after `count` requests, and of a whole window for each tick.
passed_bound :
    (es : List GatewayEvent) (count : ℕ)
    → passed (serve_events es count) ≤ (rate_limit - count) + rate_limit * tick_count es
unfolding serve_events proxy_handler
passed_bound [] count = omega arith
passed_bound (ticks ∷ es) count = ground (arith, passed_bound es 0)
passed_bound (requests r ∷ es) count = ground (arith, passed_bound es (suc count))

-- Of the requests between two ticks exactly the first thousand are let through, and a tick makes
-- room for all of the next window's; over any history from a tick on, at most a thousand requests
-- are let through, and a thousand more for each further tick.
pub serve_events-Limited :
    (reqs : List GatewayRequest) (es : List GatewayEvent)
    → (passed (serve_events (only_requests reqs ++ (ticks ∷ es)) 0)
        ≡ capped (request_count reqs) + passed (serve_events es 0))
      × (passed (serve_events es 0) ≤ rate_limit * (tick_count es + 1))
serve_events-Limited reqs es =
    let first = first_window reqs es 0 (omega arith) in
    let all = passed_bound es 0 in (ground (arith, first), omega (arith, all))
