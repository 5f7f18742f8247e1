-- ===== src/Services/Order/Settled.antt =====
-- How the creation of an order ends, and what a read during it leaves in the cache.
use Prim.Native.String.{String}
use loadgen.Base.{ℕ, ◌≡◌, refl, Bool, if◌then◌else◌, none, some, arith, Bool-cases, inl, inr}
use loadgen.Base.Float.{Float64}
use loadgen.Platform.Assoc.{insert}
use loadgen.Platform.Db.{Codec, IsFaithful, Db, found, rows, stored, db_get, db_insert, db_update}
use loadgen.Platform.Db.RoundTrip.{db_get-stored, stored-insert_self}
use loadgen.Platform.Queue.{publish}
use loadgen.Services.Reply.{Reply, json, http_error, write_json}
use loadgen.Services.Payment.{PaymentRecord, ProcessResponse}
use loadgen.Services.Order.{
  Order, OrderInput, OrderCall, Orders, with_status, new_order, pay, reject_order, confirm_order,
  settle_order, insert_order, create_order,
}

module _ {R : Type 0} {A : Type 0} ⦃c : Codec R A⦄ where
  -- The database after a write of a record.
  abbrev written : String → String → A → Db R → Db R
  written table id a db = insert table (insert id (c.bytes a) (rows table db)) db

  db_insert_encoded :
      (table id : String) (a : A) (db : Db R)
      → c.marshal a ≡ some (c.bytes a)
      → db_insert table id a db ≡ (none, written table id a db)
  unfolding db_insert
  db_insert_encoded table id a db e = ground arith

  db_update_encoded :
      (table id : String) (a : A) (raw : R) (db : Db R)
      → c.marshal a ≡ some (c.bytes a)
      → stored table id db ≡ some raw
      → db_update table id a db ≡ (none, written table id a db)
  unfolding db_update
  db_update_encoded table id a raw db e k = ground arith

abbrev pub final_status : Bool → String
final_status paid = if paid then "confirmed" else "payment_failed"

module _ {F R : Type 0} ⦃d : Float64 F⦄ ⦃c : Codec R (Order F)⦄ ⦃cp : Codec R (PaymentRecord F)⦄
    ⦃cr : Codec R ProcessResponse⦄ (laws : IsFaithful c) where
  -- An order can be encoded, whatever its status.
  abbrev pub Encodes : Order F → Type 0
  Encodes order =
      (st : String) → c.marshal (with_status order st) ≡ some (c.bytes (with_status order st))

  -- The state after the creation of an order, given whether it is paid.
  abbrev settled : OrderCall F → Order F → Orders R F → Orders R F
  settled call order s =
      let paid = (pay call order s).paid in
      let final = with_status order (final_status paid) in
      record s {
        db = written "orders" order.order_id final (written "orders" order.order_id order s.db);
        queue =
            if paid then (publish "order.created" (some (c.bytes final)) s.queue).1 else s.queue;
        payments = (pay call order s).payments;
      }

  abbrev settled_reply : Bool → Order F → Reply R
  settled_reply paid order =
      if paid
      then record { status = 201; body = json (c.bytes (with_status order (final_status paid))) }
      else http_error 402 "payment processing failed"

  pay-insert :
      (call : OrderCall F) (order : Order F) (s : Orders R F) (db : Db R)
      → pay call order (record s { db = db }) ≡ pay call order s
  unfolding pay
  pay-insert call order s db = refl

  confirm_order-closed :
      (order : Order F) (s : Orders R F) (raw : R)
      → Encodes order
      → stored "orders" order.order_id s.db ≡ some raw
      → let final = with_status order "confirmed" in
        confirm_order order s ≡ (
          record { status = 201; body = json (c.bytes final) },
          record s {
            db = written "orders" order.order_id final s.db;
            queue = (publish "order.created" (some (c.bytes final)) s.queue).1;
          },
        )
  unfolding confirm_order write_json
  confirm_order-closed order s raw enc there =
      let final = with_status order "confirmed" in
      rw (
        db_update_encoded "orders" order.order_id final raw s.db (enc "confirmed") there,
        enc "confirmed",
      )

  reject_order-closed :
      (order : Order F) (s : Orders R F) (raw : R)
      → Encodes order
      → stored "orders" order.order_id s.db ≡ some raw
      → reject_order order s ≡ (
        http_error 402 "payment processing failed",
        record s { db = written "orders" order.order_id (with_status order "payment_failed") s.db },
      )
  unfolding reject_order
  reject_order-closed order s raw enc there =
      let final = with_status order "payment_failed" in
      rw (db_update_encoded "orders" order.order_id final raw s.db (enc "payment_failed") there)

  settle_order-closed :
      (call : OrderCall F) (order : Order F) (s : Orders R F)
      → Encodes order
      → settle_order call order (record s { db = written "orders" order.order_id order s.db })
        ≡ (settled_reply (pay call order s).paid order, settled call order s)
  unfolding settle_order
  settle_order-closed call order s enc =
      let db = written "orders" order.order_id order s.db in
      let there = stored-insert_self "orders" order.order_id (c.bytes order) s.db in
      let s' : Orders R F = record s { db = db; payments = (pay call order s).payments } in
      elim (Bool-cases (pay call order s).paid) [
        | inl e ↦
            rw (pay-insert call order s db, e)
              (confirm_order-closed order s' (c.bytes order) enc there)
        | inr e ↦
            rw (pay-insert call order s db, e)
              (reject_order-closed order s' (c.bytes order) enc there)
      ]

  create_order-closed :
      (decimal : ℕ → String) (call : OrderCall F) (input : OrderInput F) (s : Orders R F)
      → call.body ≡ some input
      → Encodes (new_order decimal call input)
      → let order = new_order decimal call input in
        create_order decimal call s
        ≡ (settled_reply (pay call order s).paid order, settled call order s)
  unfolding create_order insert_order
  create_order-closed decimal call input s b enc =
      let order = new_order decimal call input in
      let e : c.marshal order ≡ some (c.bytes order) = enc "pending" in
      ground (
        arith,
        db_insert_encoded "orders" order.order_id order s.db e,
        settle_order-closed call order s enc,
      )

  -- For an order that can be encoded, with `paid` for whether its payment succeeds within the
  -- attempts: the answer is 201 with the confirmed order if it does, and 402 otherwise; the stored
  -- order is confirmed or marked as failed, never left pending; it is published to order.created
  -- exactly if it is confirmed; and the cache is not touched.
  pub create_order-settled :
      (decimal : ℕ → String) (call : OrderCall F) (input : OrderInput F) (s : Orders R F)
      → call.body ≡ some input
      → Encodes (new_order decimal call input)
      → let order = new_order decimal call input in
        let out = create_order decimal call s in
        let paid = (pay call order s).paid in
        let final = with_status order (final_status paid) in
        (out.0 ≡ (
          if paid
          then record { status = 201; body = json (c.bytes final) }
          else http_error 402 "payment processing failed"))
        × (db_get "orders" order.order_id out.1.db ≡ found final)
        × (out.1.queue ≡ (
            if paid then (publish "order.created" (some (c.bytes final)) s.queue).1 else s.queue))
        × (out.1.payments ≡ (pay call order s).payments)
        × (out.1.cache ≡ s.cache)
  create_order-settled decimal call input s b enc =
      let order = new_order decimal call input in
      let final = with_status order (final_status (pay call order s).paid) in
      let db = written "orders" order.order_id order s.db in
      rw (create_order-closed decimal call input s b enc) (
        refl,
        db_get-stored "orders" order.order_id (written "orders" order.order_id final db)
            (c.bytes final) final (stored-insert_self "orders" order.order_id (c.bytes final) db)
            (laws.decoded final (c.bytes final) (enc _)),
        refl,
        refl,
        refl,
      )
