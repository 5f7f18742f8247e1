-- ===== src/Shopify/Store/Emit.antt =====
-- internal/shopify/store.go: the payload of a topic, the mutator's tick, and the store as it is
-- seeded.
use Prim.Native.String.{String}
use loadgen.Base.{
  ℕ, zero, suc, ◌+◌, ◌-◌, ◌*◌, ◌%◌, if◌then◌else◌, List, [], ◌∷◌, ◌++◌, Option, none, some, drop,
}
use loadgen.Base.Float.{Float64}
use loadgen.Platform.Assoc.{insert}
use loadgen.Shopify.Types.{
  Order, Payload, of_order, of_transaction, of_checkout, of_fulfillment, of_customer, of_refund,
  Storefront,
}
use loadgen.Shopify.Catalog.{
  Texts, minute, next_id, pick, ProductDraws, CustomerDraws, OrderDraws, new_product, new_customer,
  new_order,
}
use loadgen.Shopify.Store.{
  Config, Store, Topic, orders_create, orders_paid, orders_cancelled, transactions_create,
  checkouts_create, checkouts_delete, fulfillments_create, customers_create, refunds_create,
  topic_text, TickDraws, of_shop, shop_list, record_order, recent_order, send, pick_topic,
  make_order, order_or_new, amount_and_id, new_checkout,
}

-- The draws for the seeds, by their number in the shop.
pub record SeedDraws (F : Type 0) : Type 0 where
  pub product : ℕ → ProductDraws F
  pub customer : ℕ → CustomerDraws
  pub order : ℕ → OrderDraws F
  pub age : ℕ → ℕ

module _ {F : Type 0} ⦃d : Float64 F⦄ (t : Texts F) where
  -- The time that the order of a fulfillment was made: that of the recent order if its text is read.
  abbrev order_time : TickDraws F → Option Order → ℕ
  order_time draws recent =
      let drawn = draws.now - (20 + draws.age % 180) * minute in
      elim recent [
        | none ↦ drawn
        | some o ↦ elim (t.parse_time o.created_at) [ none ↦ drawn | some time ↦ time ]
      ]

  -- The `switch` of `emit`.
  unfoldable pub make_payload :
      Config F → Storefront → Topic → TickDraws F → Store → Payload × Store
  unfolding make_order record_order order_or_new recent_order new_checkout new_customer
  make_payload cfg shop orders_create draws s =
      let (o, s') = make_order t shop draws.order draws.now s in
      (of_order o, record_order shop.domain o s')
  make_payload cfg shop orders_paid draws s =
      let (o, s') = order_or_new t shop draws s in (of_order o, s')
  make_payload cfg shop orders_cancelled draws s =
      let (o, s') = order_or_new t shop draws s in (of_order o, s')
  make_payload cfg shop transactions_create draws s =
      let (amount, oid) = amount_and_id t "49.00" (recent_order shop.domain draws.recent s) in
      (
        of_transaction (record {
          id = next_id s.id_seq;
          order_id = oid;
          kind = "sale";
          status = if d.lt draws.decline cfg.baseline_decline then "failure" else "success";
          gateway = shop.gateway;
          amount = amount;
          created_at = t.rfc3339 draws.now;
        }),
        record s { id_seq = suc s.id_seq },
      )
  make_payload cfg shop checkouts_create draws s =
      let (c, s') = new_checkout t shop draws s in (of_checkout c, s')
  make_payload cfg shop checkouts_delete draws s =
      let (c, s') = new_checkout t shop draws s in (of_checkout c, s')
  make_payload cfg shop fulfillments_create draws s =
      -- The order's id is left 0.
      (
        of_fulfillment (record {
          id = next_id s.id_seq;
          order_id = 0;
          status = "success";
          shipment_status = "in_transit";
          created_at = t.rfc3339 draws.now;
          order_created_at = t.rfc3339 (order_time draws (recent_order shop.domain draws.recent s));
        }),
        record s { id_seq = suc s.id_seq },
      )
  make_payload cfg shop customers_create draws s =
      let (c, seq) = new_customer t draws.customer draws.now s.id_seq in
      (
        of_customer c,
        record s {
          id_seq = seq;
          custs = insert shop.domain (of_shop shop.domain s.custs ++ (c ∷ [])) s.custs;
        },
      )
  make_payload cfg shop refunds_create draws s =
      let (amount, oid) = amount_and_id t "29.00" (recent_order shop.domain draws.recent s) in
      (
        of_refund (record {
          id = next_id s.id_seq;
          order_id = oid;
          created_at = t.rfc3339 draws.now;
          transactions = record { amount = amount; kind = "refund"; gateway = shop.gateway } ∷ [];
        }),
        record s { id_seq = suc s.id_seq },
      )

  unfoldable pub emit : Config F → Storefront → Topic → TickDraws F → Store → Store
  unfolding make_payload send
  emit cfg shop topic draws s =
      let (payload, s') = make_payload cfg shop topic draws s in
      send (record { shop_domain = shop.domain; topic = topic_text topic; payload = payload }) s'

  -- The shop whose turn it is.
  abbrev pub next_shop : Config F → Store → Storefront
  next_shop cfg s = pick cfg.first_shop s.rr (shop_list cfg)

  -- One tick of `RunMutator`.
  unfoldable pub tick : Config F → TickDraws F → Store → Store
  unfolding emit pick_topic
  tick cfg draws s =
      emit cfg (next_shop cfg s) (pick_topic draws.topic) draws (record s { rr = suc s.rr })

  unfoldable pub seed_products : ℕ → Storefront → SeedDraws F → ℕ → Store → Store
  unfolding new_product
  seed_products zero shop draws now s = s
  seed_products (suc n) shop draws now s =
      let (p, seq) = new_product t (draws.product n) now s.id_seq in
      seed_products n shop draws now (record s {
        id_seq = seq;
        prods = insert shop.domain (of_shop shop.domain s.prods ++ (p ∷ [])) s.prods;
      })

  unfoldable pub seed_customers : ℕ → Storefront → SeedDraws F → ℕ → Store → Store
  unfolding new_customer
  seed_customers zero shop draws now s = s
  seed_customers (suc n) shop draws now s =
      let (c, seq) = new_customer t (draws.customer n) now s.id_seq in
      seed_customers n shop draws now (record s {
        id_seq = seq;
        custs = insert shop.domain (of_shop shop.domain s.custs ++ (c ∷ [])) s.custs;
      })

  -- The seeds are not trimmed to the retained ones.
  unfoldable pub seed_orders : ℕ → Storefront → SeedDraws F → ℕ → Store → Store
  unfolding new_order
  seed_orders zero shop draws now s = s
  seed_orders (suc n) shop draws now s =
      let (o, seq) =
        new_order t shop (of_shop shop.domain s.custs) (of_shop shop.domain s.prods) (draws.order n)
          now (now - draws.age n % 120 * minute) s.id_seq in
      seed_orders n shop draws now (record s {
        id_seq = seq;
        orders = insert shop.domain (of_shop shop.domain s.orders ++ (o ∷ [])) s.orders;
      })

  unfoldable pub seed_shops : ℕ → List Storefront → (String → SeedDraws F) → ℕ → Store → Store
  unfolding seed_products seed_customers seed_orders
  seed_shops orders [] draws now s = s
  seed_shops orders (shop ∷ rest) draws now s =
      let dr = draws shop.domain in
      seed_shops orders rest draws now (
        seed_orders orders shop dr now
          (seed_customers 150 shop dr now (seed_products 60 shop dr now s)))

  unfoldable pub new_store : Config F → (String → SeedDraws F) → ℕ → Store
  unfolding seed_shops
  new_store cfg draws now =
      seed_shops cfg.seed_orders (shop_list cfg) draws now
        (record { rr = 0; id_seq = 0; prods = []; custs = []; orders = []; events = [] })

-- What happens to the store: a tick of the mutator, or the emitter takes an event from the channel
-- or an id for a refund. The counter of ids has no lock, so that the emitter may leave any number in
-- it; the mutator alone uses it as written.
pub data StoreStep (F : Type 0) : Type 0 where
  ticks : TickDraws F → StoreStep F
  drains : StoreStep F
  allocates : ℕ → StoreStep F

module _ {F : Type 0} ⦃d : Float64 F⦄ (t : Texts F) (cfg : Config F) where
  unfoldable pub step : StoreStep F → Store → Store
  unfolding tick
  step (ticks draws) s = tick t cfg draws s
  step drains s = record s { events = drop 1 s.events }
  step (allocates n) s = record s { id_seq = n }

  unfoldable pub run : List (StoreStep F) → Store → Store
  unfolding step
  run [] s = s
  run (e ∷ es) s = run es (step e s)
