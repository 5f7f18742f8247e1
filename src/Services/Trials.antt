-- ===== src/Services/Trials.antt =====
-- Orders, payments, logins and the queue at concrete inputs, with records for their bytes.
use Prim.Native.String.{String}
use loadgen.Base.{
  ◌+◌, ◌*◌, ◌||◌, ℕ, ◌≤◌, ◌≡◌, ◌==◌, refl, true, false, if◌then◌else◌, List, [], ◌∷◌, ◌++◌, Option,
  some, none, arith, pos,
}
use loadgen.Base.Milli.{Milli, milli_float}
use loadgen.Platform.Db.{Codec, IsFaithful, found, db_get}
use loadgen.Platform.Cache.{Faults, is_evicted}
use loadgen.Platform.Queue.{Subscription, QueueEvent, publishes, subscribes, consumes, publish, run}
use loadgen.Platform.Queue.Delivery.{all_published, IsDelivered}
use loadgen.Platform.Queue.Order.{sub_at, run-IsDelivered}
use loadgen.Services.Reply.{json, http_error}
use loadgen.Services.Payment.{PaymentRecord, ProcessResponse, Payments, Attempt, outcome}
use loadgen.Services.Order.Payment.{answer_lost, answered, Exchange, call_payment_service}
use loadgen.Services.Order.Payment.Once.{
  succeeds, copies, lost_charges, call_payment_service-once, call_payment_service-twice,
}
use loadgen.Services.Order.{
  Order, OrderInput, OrderCall, Orders, with_status, new_order, pay, create_order,
}
use loadgen.Services.Order.Settled.{final_status, create_order-settled}
use loadgen.Services.Auth.{
  Login, Verify, LoginRequest, user_id_of, strikes, handle_login, handle_verify, logs_in, verifies,
  AuthEvent,
}
use loadgen.Services.Auth
use loadgen.Services.Gateway.{GatewayRequest, user_peer, requests, ticks, serve_events, rate_limit}
use loadgen.Services.Gateway.Limit.{passed, capped, only_requests, serve_events-Limited}
use loadgen.Services.Auth.Session.{handle_verify-login}
use loadgen.SysState.Incident.{forced_incident}
use loadgen.SysState.Health.{is_active, fault_health, scaled_error_rate}

-- Bytes that say which record they encode.
data Bytes : Type 0 where
  of_order : Order Milli → Bytes
  of_payment : PaymentRecord Milli → Bytes
  of_response : ProcessResponse → Bytes

abbrev as_order : Bytes → Option (Order Milli)
as_order (of_order o) = some o
as_order (of_payment p) = none
as_order (of_response r) = none

abbrev as_payment : Bytes → Option (PaymentRecord Milli)
as_payment (of_payment p) = some p
as_payment (of_order o) = none
as_payment (of_response r) = none

abbrev as_response : Bytes → Option ProcessResponse
as_response (of_response r) = some r
as_response (of_order o) = none
as_response (of_payment p) = none

instance abbrev order_codec : Codec Bytes (Order Milli)
order_codec = record { marshal = λ o. some (of_order o); unmarshal = as_order; bytes = of_order }

instance abbrev payment_codec : Codec Bytes (PaymentRecord Milli)
payment_codec = record {
  marshal = λ p. some (of_payment p);
  unmarshal = as_payment;
  bytes = of_payment;
}

instance abbrev response_codec : Codec Bytes ProcessResponse
response_codec = record {
  marshal = λ r. some (of_response r);
  unmarshal = as_response;
  bytes = of_response;
}

order_codec-IsFaithful : IsFaithful order_codec
order_codec-IsFaithful = record {
  bytes_marshal = λ o r h. ground arith;
  decoded = λ o r h. ground arith;
}

abbrev calm : Faults Milli
calm = record { epoch_info = λ n. none; system = record { now = 5; forced = none; auto = false } }

-- An attempt whose roll is a number of thousandths.
abbrev rolled : ℕ → Attempt Milli
rolled n = record {
  faults = calm;
  roll = some n;
  payment_draw = "p";
  transaction_draw = "t";
  now = "2026-01-01T00:00:00Z";
  gateway = "";
  body = none;
}

-- The first payment is declined, and the second one completed.
abbrev second_time : ℕ → Exchange Milli
second_time n = record { wire = answered; attempt = rolled (if n == 1 then 30 else 500) }

-- The answer to the first payment is lost.
abbrev lost_first : ℕ → Exchange Milli
lost_first n = record { wire = if n == 1 then answer_lost else answered; attempt = rolled 500 }

abbrev no_payments : Payments Bytes Milli
no_payments = record { db = []; amounts = [] }

call_payment_service-once_example :
    let out = call_payment_service lost_first "ORD-10007" (some 25_000) no_payments in
    (out.attempts ≤ 3)
    × (out.slept ≤ 300)
    × (out.paid ≡ (succeeds (lost_first 1) || (succeeds (lost_first 2) || succeeds (lost_first 3))))
    × (out.payments.amounts
        ≡ [] ++ copies (lost_charges 3 1 lost_first + (if out.paid then 1 else 0)) (some 25_000))
call_payment_service-once_example =
    call_payment_service-once lost_first "ORD-10007" (some 25_000) no_payments

call_payment_service-twice_example :
    let out = call_payment_service lost_first "ORD-10007" (some 25_000) no_payments in
    (out.paid ≡ true) × (out.payments.amounts ≡ ([] ++ (some 25_000 ∷ [])) ++ (some 25_000 ∷ []))
unfolding outcome scaled_error_rate fault_health forced_incident is_active
call_payment_service-twice_example =
    call_payment_service-twice lost_first "ORD-10007" (some 25_000) no_payments refl refl refl

abbrev cart : OrderInput Milli
cart = record {
  user_id = "2";
  items = record { product_id = "P1"; name = "Mug"; quantity = pos 2; price = some 12_500 } ∷ [];
}

abbrev ordering : OrderCall Milli
ordering = record {
  faults = calm;
  evict_draw = some 500;
  id_draw = 7;
  listing = [];
  now = "2026-01-01T00:00:00Z";
  exchanges = second_time;
  body = some cart;
}

abbrev no_orders : Orders Bytes Milli
no_orders = record { db = []; cache = []; queue = []; payments = no_payments }

-- The text of the one number that is drawn here.
abbrev decimal : ℕ → String
decimal n = if n == 10007 then "10007" else ""

create_order-settled_example :
    let order = new_order decimal ordering cart in
    let out = create_order decimal ordering no_orders in
    let paid = (pay ordering order no_orders).paid in
    let final = with_status order (final_status paid) in
    (out.0 ≡ (
      if paid
      then record { status = 201; body = json (of_order final) }
      else http_error 402 "payment processing failed"))
    × (db_get "orders" order.order_id out.1.db ≡ found final)
    × (out.1.queue ≡ (
        if paid
        then (publish "order.created" (some (of_order final)) no_orders.queue).1
        else no_orders.queue))
    × (out.1.payments ≡ (pay ordering order no_orders).payments)
    × (out.1.cache ≡ no_orders.cache)
create_order-settled_example =
    create_order-settled order_codec-IsFaithful decimal ordering cart no_orders refl (λ st. refl)

abbrev logging_in : Login Milli
logging_in = record {
  faults = calm;
  error_draw = some 500;
  password_draw = some 500;
  token = "abc";
  body = some (record { username = "alice"; password = "x" });
}

abbrev verifying : Verify Milli
verifying = record {
  faults = calm;
  skew_draw = some 500;
  error_draw = some 500;
  evict_draw = some 500;
  fallback_draw = some 100;
  user_draw = "77";
  body = some "abc";
}

-- Another login, and the verification of a token that nobody has.
abbrev between : List (Auth.AuthEvent Milli)
between =
    logs_in (record logging_in { token = "def" })
    ∷ verifies (record verifying { body = some "ghi" })
    ∷ []

not_evicted : is_evicted calm (some 500) ≡ false
unfolding is_evicted is_active forced_incident
not_evicted = refl

handle_verify-login_example :
    ((handle_login logging_in []).0 ≡ record {
      status = 200;
      body = json (record { token = "abc"; user_id = user_id_of "alice" });
    })
    × ((handle_verify verifying (Auth.run between (handle_login logging_in []).1)).0 ≡ record {
      status = 200;
      body = json (record { valid = true; user_id = user_id_of "alice" });
    })
unfolding strikes fault_health scaled_error_rate forced_incident
handle_verify-login_example =
    handle_verify-login logging_in verifying (record { username = "alice"; password = "x" }) between
      [] refl refl refl refl (refl, refl) (refl, (not_evicted, tt)) not_evicted

abbrev topic : String
topic = "order.created"

abbrev waiting : Subscription ℕ
waiting = record { buffer = []; closed = false; handled = [] }

abbrev events : List (QueueEvent ℕ)
events =
    publishes topic (some 4)
    ∷ subscribes topic
    ∷ publishes topic (some 6)
    ∷ consumes topic 0
    ∷ publishes "other" none
    ∷ []

run-IsDelivered_example :
    (sub : Subscription ℕ) × (sub_at topic 0 (run events ((topic, waiting ∷ []) ∷ [])) ≡ some sub)
    × IsDelivered (all_published topic events) waiting sub
run-IsDelivered_example =
    run-IsDelivered topic 0 events waiting ((topic, waiting ∷ []) ∷ [])
      (tt, (tt, (tt, (tt, (tt, tt))))) (refl, tt) refl (omega arith)

abbrev browsing : GatewayRequest
browsing = record {
  route = record { pattern = "GET /api/users"; strip_prefix = "/api"; peer = user_peer };
  path = "/api/users";
  request_id = "";
  now_text = "17";
}

serve_events-Limited_example :
    (passed (
        serve_events
          (only_requests (browsing ∷ browsing ∷ []) ++ (ticks ∷ requests browsing ∷ []))
          0)
      ≡ capped 2 + passed (serve_events (requests browsing ∷ []) 0))
    × (passed (serve_events (requests browsing ∷ []) 0) ≤ rate_limit * (0 + 1))
serve_events-Limited_example =
    serve_events-Limited (browsing ∷ browsing ∷ []) (requests browsing ∷ [])
