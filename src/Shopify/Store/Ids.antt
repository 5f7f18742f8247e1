-- ===== src/Shopify/Store/Ids.antt =====
-- The counter of ids only grows, and a new order takes ids that were not given out.
use loadgen.Base.{ℕ, suc, ◌+◌, ◌≤◌, ◌<◌, ◌≡◌, refl, List, [], ◌∷◌, arith, Option-cases, inl, inr}
use loadgen.Base.Float.{Float64}
use loadgen.Shopify.Types.{Product, Customer, Event, Storefront}
use loadgen.Shopify.Catalog.{
  Texts, ProductDraws, CustomerDraws, ItemDraws, OrderDraws, item_draws, new_customer, pick_product,
  pick_customer, new_item, new_items, new_order,
}
use loadgen.Shopify.Store.{
  Config, Store, Topic, orders_create, orders_paid, orders_cancelled, transactions_create,
  checkouts_create, checkouts_delete, fulfillments_create, customers_create, refunds_create,
  TickDraws, of_shop, recent_order, record_order, make_order, order_or_new, new_checkout, send,
}
use loadgen.Shopify.Store.Emit.{make_payload}

module _ {F : Type 0} ⦃d : Float64 F⦄ (t : Texts F) where
  pick_product-seq :
      (l : List Product) (n : ℕ) (draws : ProductDraws F) (now seq : ℕ)
      → seq ≤ (pick_product t l n draws now seq).1
  unfolding pick_product
  pick_product-seq [] n draws now seq = omega arith
  pick_product-seq (p ∷ l) n draws now seq = omega arith

  pick_customer-seq :
      (l : List Customer) (n : ℕ) (draws : CustomerDraws) (now seq : ℕ)
      → seq ≤ (pick_customer t l n draws now seq).1
  unfolding pick_customer
  pick_customer-seq [] n draws now seq = omega arith
  pick_customer-seq (c ∷ l) n draws now seq = omega arith

  new_item-seq :
      (l : List Product) (draws : ItemDraws F) (now seq : ℕ) → seq ≤ (new_item t l draws now seq).1
  unfolding new_item
  new_item-seq l draws now seq =
      omega (arith, pick_product-seq l draws.product draws.new_product now seq)

  new_items-seq :
      (l : List Product) (ds : List (ItemDraws F)) (now : ℕ) (sub : F) (seq : ℕ)
      → seq ≤ (new_items t l ds now sub seq).1
  unfolding new_items
  new_items-seq l [] now sub seq = omega arith
  new_items-seq l (draws ∷ ds) now sub seq =
      omega (
        arith,
        new_item-seq l draws now seq,
        new_items-seq l ds now _ (new_item t l draws now seq).1,
      )

  -- The id of a new order lies above the counter before, and at the counter after.
  pub new_order-id :
      (shop : Storefront) (cs : List Customer) (ps : List Product) (draws : OrderDraws F)
      (now time seq : ℕ)
      → let (o, seq') = new_order t shop cs ps draws now time seq in
        (7_000_000_000 + seq < o.id) × (o.id ≡ 7_000_000_000 + seq')
  unfolding new_order
  new_order-id shop cs ps draws now time seq =
      let seq₁ = (pick_customer t cs draws.customer draws.new_customer now seq).1 in
      let first = pick_customer-seq cs draws.customer draws.new_customer now seq in
      let items = new_items-seq ps (item_draws t draws) now (d.lit 0) seq₁ in
      (omega (arith, first, items), refl)

  pub make_order-id :
      (shop : Storefront) (draws : OrderDraws F) (now : ℕ) (s : Store)
      → let (o, s') = make_order t shop draws now s in
        (7_000_000_000 + s.id_seq < o.id) × (o.id ≡ 7_000_000_000 + s'.id_seq)
  unfolding make_order
  make_order-id shop draws now s = new_order-id shop _ _ draws now now s.id_seq

  new_checkout-seq :
      (shop : Storefront) (draws : TickDraws F) (s : Store)
      → s.id_seq ≤ (new_checkout t shop draws s).1.id_seq
  unfolding new_checkout
  new_checkout-seq shop draws s =
      let first =
        pick_product-seq (of_shop shop.domain s.prods) draws.product draws.new_product draws.now
          s.id_seq in
      let seq₁ =
        (pick_product t (of_shop shop.domain s.prods) draws.product draws.new_product draws.now
          s.id_seq).1 in
      omega (
        arith,
        first,
        pick_customer-seq (of_shop shop.domain s.custs) draws.recent draws.customer draws.now
            (suc (suc seq₁)),
      )

  order_or_new-seq :
      (shop : Storefront) (draws : TickDraws F) (s : Store)
      → s.id_seq ≤ (order_or_new t shop draws s).1.id_seq
  unfolding order_or_new
  order_or_new-seq shop draws s = elim (Option-cases (recent_order shop.domain draws.recent s)) [
    | inl e ↦ rw (e, order_or_new) (omega (arith, make_order-id shop draws.order draws.now s))
    | inr (o, e) ↦ rw (e, order_or_new) (omega arith)
  ]

  pub payload-seq :
      (cfg : Config F) (shop : Storefront) (topic : Topic) (draws : TickDraws F) (s : Store)
      → s.id_seq ≤ (make_payload t cfg shop topic draws s).1.id_seq
  unfolding make_payload record_order new_customer
  payload-seq cfg shop orders_create draws s =
      omega (arith, make_order-id shop draws.order draws.now s)
  payload-seq cfg shop orders_paid draws s = order_or_new-seq shop draws s
  payload-seq cfg shop orders_cancelled draws s = order_or_new-seq shop draws s
  payload-seq cfg shop transactions_create draws s = omega arith
  payload-seq cfg shop checkouts_create draws s = new_checkout-seq shop draws s
  payload-seq cfg shop checkouts_delete draws s = new_checkout-seq shop draws s
  payload-seq cfg shop fulfillments_create draws s = omega arith
  payload-seq cfg shop customers_create draws s = omega arith
  payload-seq cfg shop refunds_create draws s = omega arith

  pub send-seq : (ev : Event) (s : Store) → (send ev s).id_seq ≡ s.id_seq
  unfolding send
  send-seq ev s = ground arith
