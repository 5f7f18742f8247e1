-- ===== src/Services/Order/Payment.antt =====
-- cmd/order/main.go: `callPaymentService` and `doPaymentRequest`, against the payment service.
pub mod Once
use Prim.Native.String.{String}
use loadgen.Base.{ℕ, zero, suc, ◌+◌, ◌*◌, Bool, true, false, if◌then◌else◌, some, ltb}
use loadgen.Base.Float.{Float64}
use loadgen.Platform.Db.{Codec}
use loadgen.Services.Reply.{Reply}
use loadgen.Services.Payment.{
  PaymentRecord, ProcessResponse, ProcessRequest, Payments, Attempt, handle_process,
}

abbrev pub max_retries : ℕ
max_retries = 3

-- How far an HTTP exchange comes: the service does not get the request; it handles the request, and
-- its answer is lost; or its answer arrives.
pub data Wire : Type 0 where
  not_sent answer_lost answered : Wire

pub record Exchange (F : Type 0) : Type 0 where
  pub wire : Wire
  pub attempt : Attempt F

-- Whether the call succeeded, the attempts and the milliseconds slept, and the payment service.
pub record Called (R F : Type 0) : Type 0 where
  pub paid : Bool
  pub attempts : ℕ
  pub slept : ℕ
  pub payments : Payments R F

module _ {F : Type 0} where
  -- The request that the payment service decodes: the fields that are not sent are empty.
  abbrev pub sent_request : String → F → Attempt F → Attempt F
  sent_request order_id amount a = record a {
    body = some (record { order_id = order_id; amount = amount; currency = ""; method = "" });
  }

  module _ {R : Type 0} ⦃d : Float64 F⦄ ⦃cp : Codec R (PaymentRecord F)⦄
      ⦃cr : Codec R ProcessResponse⦄ where
    unfoldable pub do_payment_request : Exchange F → String → F → Payments R F → Bool × Payments R F
    unfolding handle_process
    do_payment_request x order_id amount p =
        let (reply, p') = handle_process (sent_request order_id amount x.attempt) p in
        elim x.wire [
          | not_sent ↦ (false, p)
          | answer_lost ↦ (false, p')
          | answered ↦ (ltb reply.status 400, p')
        ]

    -- The loop, for the attempts that are left and the number of the next one.
    unfoldable pub payment_attempts :
        ℕ → ℕ → (ℕ → Exchange F) → String → F → Payments R F → Called R F
    unfolding do_payment_request
    payment_attempts zero attempt exchanges order_id amount p = record {
      paid = false;
      attempts = 0;
      slept = 0;
      payments = p;
    }
    payment_attempts (suc left) attempt exchanges order_id amount p =
        let (ok, p') = do_payment_request (exchanges attempt) order_id amount p in
        let rest = payment_attempts left (attempt + 1) exchanges order_id amount p' in
        let pause = if ltb attempt max_retries then attempt * 100 else 0 in
        if ok
        then record { paid = true; attempts = 1; slept = 0; payments = p' }
        else record rest { attempts = suc rest.attempts; slept = pause + rest.slept }

    -- `callPaymentService`: the loop from the first attempt on.
    unfoldable pub call_payment_service : (ℕ → Exchange F) → String → F → Payments R F → Called R F
    unfolding payment_attempts
    call_payment_service exchanges order_id amount p =
        payment_attempts max_retries 1 exchanges order_id amount p
