-- ===== src/Services/Payment.antt =====
-- cmd/payment/main.go: the outcome of a payment, its record and its answer. `random_id` texts are
-- draws. internal/dimensions gives the factor of a gateway.
use Prim.Native.String.{String, ◌++◌ as str_append}
use text.Mathlib.Text.{◌==◌ as str_eq}
use loadgen.Base.{ℕ, if◌then◌else◌, List, [], ◌∷◌, ◌++◌, Option, none, some}
use loadgen.Base.Float.{Float64}
use loadgen.Platform.Db.{Codec, Db, found, failed, db_insert, db_get}
use loadgen.Platform.Cache.{Faults}
use loadgen.Services.Reply.{Reply, http_error, write_json}
use loadgen.SysState.Incident.{payment_gateway, retry_storm}
use loadgen.SysState.Health.{is_active, fault_health, scaled_error_rate}

pub record ProcessRequest (F : Type 0) : Type 0 where
  pub order_id : String
  pub amount : F
  pub currency : String
  pub method : String

pub record ProcessResponse : Type 0 where
  pub payment_id : String
  pub status : String
  pub transaction_id : String

pub record PaymentRecord (F : Type 0) : Type 0 where
  pub payment_id : String
  pub order_id : String
  pub amount : F
  pub currency : String
  pub method : String
  pub status : String
  pub transaction_id : String
  pub created_at : String

-- What a call meets: the incidents, its draws, the clock's text, the header of its gateway, and its
-- body, if it is JSON.
pub record Attempt (F : Type 0) : Type 0 where
  pub faults : Faults F
  pub roll : F
  pub payment_draw : String
  pub transaction_draw : String
  pub now : String
  pub gateway : String
  pub body : Option (ProcessRequest F)

-- The three cases of the `switch`.
pub data Outcome : Type 0 where
  timed_out declined completed : Outcome

-- The database, and the amounts added to `payment_amount_total`.
pub record Payments (R F : Type 0) : Type 0 where
  pub db : Db R
  pub amounts : List F

abbrev pub status_text : Outcome → String
status_text completed = "completed"
status_text _ = "failed"

abbrev pub status_code : Outcome → ℕ
status_code completed = 200
status_code _ = 402

module _ {F : Type 0} ⦃d : Float64 F⦄ where
  unfoldable pub gateway_failure_multiplier : String → F
  gateway_failure_multiplier gateway =
      if str_eq gateway "stripe"
      then d.lit 1000
      else if str_eq gateway "adyen"
      then d.lit 1400
      else if str_eq gateway "paypal"
      then d.lit 600
      else d.lit 1000

  abbrev pub gateway_of : Attempt F → String
  gateway_of a = if str_eq a.gateway "" then "stripe" else a.gateway

  -- The rate between two bounds for the health of the payment gateway, times the gateway's factor.
  unfoldable pub gateway_rate : Attempt F → ℕ → ℕ → F
  unfolding gateway_failure_multiplier
  gateway_rate a low high =
      d.mul
        (scaled_error_rate (d.lit low) (d.lit high)
          (fault_health a.faults.epoch_info a.faults.system payment_gateway))
        (gateway_failure_multiplier (gateway_of a))

  -- In a retry storm the rate of failures is at least that of the storm.
  unfoldable pub failure_prob : Attempt F → F
  unfolding gateway_rate
  failure_prob a =
      let base = gateway_rate a 50 400 in
      let boost =
        scaled_error_rate (d.lit 200) (d.lit 700)
          (fault_health a.faults.epoch_info a.faults.system retry_storm) in
      if is_active a.faults.epoch_info a.faults.system retry_storm
      then (if d.lt base boost then boost else base)
      else base

  unfoldable pub outcome : Attempt F → Outcome
  unfolding gateway_rate failure_prob
  outcome a =
      let timeout_prob = gateway_rate a 10 250 in
      if d.lt a.roll timeout_prob
      then timed_out
      else if d.lt a.roll (d.add timeout_prob (failure_prob a))
      then declined
      else completed

  abbrev pub payment_id_of : Attempt F → String
  payment_id_of a = str_append "pay_" a.payment_draw

  abbrev pub record_of : Attempt F → ProcessRequest F → PaymentRecord F
  record_of a req = record {
    payment_id = payment_id_of a;
    order_id = req.order_id;
    amount = req.amount;
    currency = req.currency;
    method = req.method;
    status = status_text (outcome a);
    transaction_id = str_append "txn_" a.transaction_draw;
    created_at = a.now;
  }

  abbrev pub response_of : Attempt F → ProcessResponse
  response_of a = record {
    payment_id = payment_id_of a;
    status = status_text (outcome a);
    transaction_id = str_append "txn_" a.transaction_draw;
  }

  abbrev pub counted : Outcome → F → List F → List F
  counted completed amount amounts = amounts ++ (amount ∷ [])
  counted _ amount amounts = amounts

  module _ {R : Type 0} ⦃c : Codec R (PaymentRecord F)⦄ ⦃c' : Codec R ProcessResponse⦄ where
    -- An error of the insertion is only logged.
    unfoldable pub handle_process : Attempt F → Payments R F → Reply R × Payments R F
    unfolding outcome db_insert write_json
    handle_process a p = elim a.body [
      | none ↦ (http_error 400 "invalid request body", p)
      | some req ↦ (
        write_json (status_code (outcome a)) (c'.marshal (response_of a)),
        record {
          db = (db_insert "payments" (payment_id_of a) (record_of a req) p.db).1;
          amounts = counted (outcome a) req.amount p.amounts;
        },
      )
    ]

  module _ {R : Type 0} ⦃c : Codec R (PaymentRecord F)⦄ where
    unfoldable pub handle_get_payment : String → Payments R F → Reply R
    unfolding db_get write_json
    handle_get_payment id p = elim (db_get {A = PaymentRecord F} "payments" id p.db) [
      | failed _ ↦ http_error 404 "payment not found"
      | found rec ↦ write_json 200 (c.marshal rec)
    ]
