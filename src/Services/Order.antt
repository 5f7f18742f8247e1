-- ===== src/Services/Order.antt =====
-- cmd/order/main.go: the records of orders, their creation with a payment, and the reads. The queue
-- of this process has no subscription that is ever closed, so that a publication does not panic.
pub mod Payment
pub mod Settled
use Prim.Native.String.{String, ◌++◌ as str_append}
use text.Mathlib.Text.{◌==◌ as str_eq}
use loadgen.Base.{
  ℕ, zero, suc, ◌+◌, ◌*◌, Bool, true, false, if◌then◌else◌, List, [], ◌∷◌, Option, none, some, ltb,
  ℤ, pos,
}
use loadgen.Base.Float.{Float64}
use loadgen.Platform.Db.{
  Codec, Db, Fetched, found, failed, new_db, db_insert, db_get, db_update, db_list,
}
use loadgen.Platform.Cache.{Cache, Faults, new_cache, cache_get, cache_set}
use loadgen.Platform.Queue.{Queue, publish}
use loadgen.Services.Reply.{
  Method, get_method, post_method, Reply, Body, rows, json, http_error, write_json,
}
use loadgen.Services.Payment.{PaymentRecord, ProcessResponse, Payments}
use loadgen.Services.Order.Payment.{Exchange, Called, call_payment_service}

pub record OrderItem (F : Type 0) : Type 0 where
  pub product_id : String
  pub name : String
  pub quantity : ℤ
  pub price : F

pub record Order (F : Type 0) : Type 0 where
  pub order_id : String
  pub user_id : String
  pub items : List (OrderItem F)
  pub total : F
  pub status : String
  pub created_at : String

pub record OrderInput (F : Type 0) : Type 0 where
  pub user_id : String
  pub items : List (OrderItem F)

-- What a call meets: the incidents, its draws, the clock's text, the exchanges with the payment
-- service by the number of the attempt, and its body, if it is JSON.
pub record OrderCall (F : Type 0) : Type 0 where
  pub faults : Faults F
  pub evict_draw : F
  pub id_draw : ℕ
  -- The ids in the order in which a listing meets them.
  pub listing : List String
  pub now : String
  pub exchanges : ℕ → Exchange F
  pub body : Option (OrderInput F)

-- The variables of the process, and the state of the payment service that it calls.
pub record Orders (R F : Type 0) : Type 0 where
  pub db : Db R
  pub cache : Cache R
  pub queue : Queue R
  pub payments : Payments R F

module _ {F : Type 0} ⦃d : Float64 F⦄ where
  -- `total += float64(item.Quantity) * item.Price`.
  unfoldable pub order_total : F → List (OrderItem F) → F
  order_total total [] = total
  order_total total (item ∷ items) =
      order_total (d.add total (d.mul (d.of_int item.quantity) item.price)) items

  abbrev pub with_status : Order F → String → Order F
  with_status order status = record order { status = status }

  unfoldable pub new_order : (ℕ → String) → OrderCall F → OrderInput F → Order F
  unfolding order_total
  new_order decimal call input = record {
    order_id = str_append "ORD-" (decimal (10000 + call.id_draw));
    user_id = input.user_id;
    items = input.items;
    total = order_total (d.lit 0) input.items;
    status = "pending";
    created_at = call.now;
  }

  abbrev pub seeds : List (Order F)
  seeds =
      record {
        order_id = "ORD-001";
        user_id = "1";
        items =
            record { product_id = "P100"; name = "Widget"; quantity = pos 2; price = d.lit 19990 }
            ∷ [];
        total = d.lit 39980;
        status = "completed";
        created_at = "2025-06-01T08:00:00Z";
      }
      ∷ record {
        order_id = "ORD-002";
        user_id = "2";
        items =
            record { product_id = "P200"; name = "Gadget"; quantity = pos 1; price = d.lit 49990 }
            ∷ [];
        total = d.lit 49990;
        status = "completed";
        created_at = "2025-06-15T12:30:00Z";
      }
      ∷ []

  module _ {R : Type 0} ⦃c : Codec R (Order F)⦄ ⦃cp : Codec R (PaymentRecord F)⦄
      ⦃cr : Codec R ProcessResponse⦄ where
    -- The call of `callPaymentService`.
    unfoldable pub pay : OrderCall F → Order F → Orders R F → Called R F
    unfolding call_payment_service
    pay call order s = call_payment_service call.exchanges order.order_id order.total s.payments

    -- The branch of a failed payment: the error of the update is dropped.
    unfoldable pub reject_order : Order F → Orders R F → Reply R × Orders R F
    unfolding db_update
    reject_order order s = (
      http_error 402 "payment processing failed",
      record s {
        db = (db_update "orders" order.order_id (with_status order "payment_failed") s.db).1;
      },
    )

    -- The branch of a payment: the errors of the update and of the publication are dropped.
    unfoldable pub confirm_order : Order F → Orders R F → Reply R × Orders R F
    unfolding db_update write_json publish
    confirm_order order s =
        let confirmed = with_status order "confirmed" in
        (
          write_json 201 (c.marshal confirmed),
          record s {
            db = (db_update "orders" order.order_id confirmed s.db).1;
            queue = (publish "order.created" (c.marshal confirmed) s.queue).1;
          },
        )

    -- `createOrder` behind the insertion.
    unfoldable pub settle_order : OrderCall F → Order F → Orders R F → Reply R × Orders R F
    unfolding pay reject_order confirm_order
    settle_order call order s =
        let called = pay call order s in
        let s' = record s { payments = called.payments } in
        if called.paid then confirm_order order s' else reject_order order s'

    unfoldable pub insert_order : Order F → Orders R F → Bool × Orders R F
    unfolding db_insert
    insert_order order s =
        let (err, db) = db_insert "orders" order.order_id order s.db in
        elim err [ none ↦ (true, record s { db = db }) | some _ ↦ (false, record s { db = db }) ]

    unfoldable pub create_order : (ℕ → String) → OrderCall F → Orders R F → Reply R × Orders R F
    unfolding new_order insert_order settle_order
    create_order decimal call s = elim call.body [
      | none ↦ (http_error 400 "invalid request body", s)
      | some input ↦
          let order = new_order decimal call input in
          let (ok, s') = insert_order order s in
          if ok then settle_order call order s' else (http_error 500 "failed to store order", s')
    ]

  module _ {R : Type 0} ⦃c : Codec R (Order F)⦄ where
    unfoldable pub list_orders : List String → Orders R F → Reply R
    unfolding db_list
    list_orders order s = record { status = 200; body = rows (db_list order "orders" s.db) }

    unfoldable pub fill_order : String → Order F → Orders R F → Orders R F
    unfolding cache_set
    fill_order id order s = record s {
      cache = cache_set (str_append "order:" id) (c.bytes order) s.cache;
    }

    unfoldable pub get_order : OrderCall F → String → Orders R F → Reply R × Orders R F
    unfolding cache_get db_get fill_order write_json
    get_order call id s =
        elim (cache_get call.faults call.evict_draw (str_append "order:" id) s.cache) [
          | some raw ↦ (record { status = 200; body = json raw }, s)
          | none ↦ elim (db_get {A = Order F} "orders" id s.db) [
            | failed _ ↦ (http_error 404 "order not found", s)
            | found order ↦ (write_json 200 (c.marshal order), fill_order id order s)
          ]
        ]

    unfoldable pub order_by_id_handler :
        Method → String → OrderCall F → Orders R F → Reply R × Orders R F
    unfolding get_order
    order_by_id_handler get_method id call s =
        if str_eq id "" then (http_error 400 "missing order id", s) else get_order call id s
    order_by_id_handler _ id call s =
        if str_eq id ""
        then (http_error 400 "missing order id", s)
        else (http_error 405 "method not allowed", s)

    unfoldable pub seed_orders : List (Order F) → Db R → Db R
    unfolding db_insert
    seed_orders [] db = db
    seed_orders (o ∷ os) db = seed_orders os (db_insert "orders" o.order_id o db).1

  unfoldable pub orders_handler :
      {R : Type 0} ⦃c : Codec R (Order F)⦄ ⦃cp : Codec R (PaymentRecord F)⦄
      ⦃cr : Codec R ProcessResponse⦄
      → (ℕ → String)
      → Method
      → OrderCall F
      → Orders R F
      → Reply R × Orders R F
  unfolding list_orders create_order
  orders_handler decimal get_method call s = (list_orders call.listing s, s)
  orders_handler decimal post_method call s = create_order decimal call s
  orders_handler decimal _ call s = (http_error 405 "method not allowed", s)
