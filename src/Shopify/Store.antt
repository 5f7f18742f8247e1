-- ===== src/Shopify/Store.antt =====
-- internal/shopify/store.go: the store, its mutator and its listings. The mutator and the emitter
-- each run in one goroutine; a history is a sequence of their steps.
pub mod Emit
pub mod Ids
pub mod Retained
pub mod Sorted
pub mod Newest
pub mod Listing
use Prim.Native.String.{String, ◌++◌ as str_append}
use text.Mathlib.Text.{◌==◌ as str_eq}
use mathlib.Core.List.{reverse}
use loadgen.Base.{
  ℕ, zero, suc, ◌+◌, ◌-◌, ◌*◌, ◌%◌, ◌==◌, Bool, true, false, ◌||◌, if◌then◌else◌, List, [], ◌∷◌,
  ◌++◌, Option, none, some, length, take, drop, get_elem?, ltb, ltb_ℤ, leb_ℤ, ℤ, pos, pos_part,
}
use loadgen.Base.Float.{Float64}
use loadgen.Platform.Assoc.{Assoc, lookup, insert}
use loadgen.Shopify.Types.{
  Product, Customer, LineItem, Order, RefundTxn, Refund, Transaction, Checkout, Fulfillment,
  Payload, of_order, of_transaction, of_checkout, of_fulfillment, of_customer, of_refund, Event,
  Storefront,
}
use loadgen.Shopify.Catalog.{
  Texts, minute, next_id, pick, ProductDraws, CustomerDraws, OrderDraws, money, new_product,
  new_customer, pick_product, pick_customer, new_order,
}

abbrev pub max_orders_retained : ℕ
max_orders_retained = 600

-- The capacity of the channel of events.
abbrev pub events_capacity : ℕ
events_capacity = 1024

-- The first shop stands apart: `parseShops` gives at least one.
pub record Config (F : Type 0) : Type 0 where
  pub first_shop : Storefront
  pub more_shops : List Storefront
  pub webhooks_per_minute : ℤ
  pub baseline_decline : F
  pub seed_orders : ℕ

pub record Store : Type 0 where
  -- The cursor of the shops, the counter of ids, what each shop has, and the channel.
  pub rr : ℕ
  pub id_seq : ℕ
  pub prods : Assoc (List Product)
  pub custs : Assoc (List Customer)
  pub orders : Assoc (List Order)
  pub events : List Event

pub data Topic : Type 0 where
  orders_create orders_paid orders_cancelled transactions_create checkouts_create : Topic
  checkouts_delete fulfillments_create customers_create refunds_create : Topic

abbrev pub topic_text : Topic → String
topic_text orders_create = "orders/create"
topic_text orders_paid = "orders/paid"
topic_text orders_cancelled = "orders/cancelled"
topic_text transactions_create = "transactions/create"
topic_text checkouts_create = "checkouts/create"
topic_text checkouts_delete = "checkouts/delete"
topic_text fulfillments_create = "fulfillments/create"
topic_text customers_create = "customers/create"
topic_text refunds_create = "refunds/create"

-- What one tick of the mutator draws.
pub record TickDraws (F : Type 0) : Type 0 where
  pub now : ℕ
  pub topic : F
  pub recent : ℕ
  pub order : OrderDraws F
  pub customer : CustomerDraws
  pub decline : F
  pub product : ℕ
  pub new_product : ProductDraws F
  pub quantity : ℕ
  pub age : ℕ

-- The list of a shop: `m[shop]`, empty where the key is missing.
abbrev pub of_shop {ℓ} : {A : Type ℓ} → String → Assoc (List A) → List A
of_shop shop m = elim (lookup shop m) [ none ↦ [] | some l ↦ l ]

abbrev pub shop_list : {F : Type 0} → Config F → List Storefront
shop_list cfg = cfg.first_shop ∷ cfg.more_shops

-- `lst[len(lst)-n:]` where the list is longer than `n`.
unfoldable pub keep_last {ℓ} : {A : Type ℓ} → ℕ → List A → List A
keep_last n l = if ltb n (length l) then drop (length l - n) l else l

unfoldable pub record_order : String → Order → Store → Store
unfolding keep_last
record_order shop o s = record s {
  orders = insert shop (keep_last max_orders_retained (of_shop shop s.orders ++ (o ∷ []))) s.orders;
}

unfoldable pub recent_order : String → ℕ → Store → Option Order
recent_order shop draw s =
    let l = of_shop shop s.orders in if length l == 0 then none else get_elem? l (draw % length l)

-- The `select` that does not wait: an event for a full channel is dropped.
unfoldable pub send : Event → Store → Store
send ev s =
    if ltb (length s.events) events_capacity then record s { events = s.events ++ (ev ∷ []) } else s

abbrev pub clip_limit : ℤ → ℕ
clip_limit limit = if leb_ℤ limit (pos 0) || ltb_ℤ (pos 250) limit then 50 else pos_part limit

unfoldable pub clip {ℓ} : {A : Type ℓ} → List A → ℤ → List A
clip l limit = take (clip_limit limit) l

unfoldable pub list_products : String → ℤ → Store → List Product
unfolding clip
list_products shop limit s = clip (of_shop shop s.prods) limit

unfoldable pub list_customers : String → ℤ → Store → List Customer
unfolding clip
list_customers shop limit s = clip (of_shop shop s.custs) limit

-- Newest first.
unfoldable pub list_orders : String → ℤ → Store → List Order
unfolding clip
list_orders shop limit s = clip (reverse (of_shop shop s.orders)) limit

module _ {F : Type 0} ⦃d : Float64 F⦄ where
  abbrev pub topic_mix : List (Topic × F)
  topic_mix =
      (orders_create, d.lit 220)
      ∷ (orders_paid, d.lit 180)
      ∷ (transactions_create, d.lit 220)
      ∷ (checkouts_create, d.lit 140)
      ∷ (checkouts_delete, d.lit 80)
      ∷ (fulfillments_create, d.lit 80)
      ∷ (customers_create, d.lit 40)
      ∷ (refunds_create, d.lit 20)
      ∷ (orders_cancelled, d.lit 20)
      ∷ []

  unfoldable pub total_weight : F → List (Topic × F) → F
  total_weight total [] = total
  total_weight total ((topic, w) ∷ rest) = total_weight (d.add total w) rest

  -- The first topic whose cumulated weight reaches the draw, and the first of all if none does.
  unfoldable pub find_topic : F → F → List (Topic × F) → Topic
  find_topic r cum [] = orders_create
  find_topic r cum ((topic, w) ∷ rest) =
      let later = find_topic r (d.add cum w) rest in if d.le r (d.add cum w) then topic else later

  unfoldable pub pick_topic : F → Topic
  unfolding total_weight find_topic
  pick_topic draw = find_topic (d.mul draw (total_weight (d.lit 0) topic_mix)) (d.lit 0) topic_mix

  module _ (t : Texts F) where
    -- A new order of a shop, with the counter moved on.
    unfoldable pub make_order : Storefront → OrderDraws F → ℕ → Store → Order × Store
    unfolding new_order
    make_order shop draws now s =
        let (o, seq) =
          new_order t shop (of_shop shop.domain s.custs) (of_shop shop.domain s.prods) draws now now
            s.id_seq in
        (o, record s { id_seq = seq })

    -- The recent order, or a new one that is not recorded.
    unfoldable pub order_or_new : Storefront → TickDraws F → Store → Order × Store
    unfolding recent_order make_order
    order_or_new shop draws s = elim (recent_order shop.domain draws.recent s) [
      | none ↦ make_order shop draws.order draws.now s
      | some o ↦ (o, s)
    ]

    -- The amount and the id of the recent order, or a default amount and no id.
    abbrev pub amount_and_id : String → Option Order → String × ℕ
    amount_and_id default none = (default, 0)
    amount_and_id default (some o) = (o.total_price, o.id)

    unfoldable pub new_checkout : Storefront → TickDraws F → Store → Checkout × Store
    unfolding pick_product pick_customer money
    new_checkout shop draws s =
        let (p, seq₁) =
          pick_product t (of_shop shop.domain s.prods) draws.product draws.new_product draws.now
            s.id_seq in
        let quantity = 1 + draws.quantity % 3 in
        let sub = d.mul (t.scan p.variant.price) (d.of_int (pos quantity)) in
        let id = next_id seq₁ in
        let token = str_append "chk_" (t.decimal (next_id (suc seq₁))) in
        let (cust, seq₂) =
          pick_customer t (of_shop shop.domain s.custs) draws.recent draws.customer draws.now
            (suc (suc seq₁)) in
        (
          record {
            id = id;
            token = token;
            subtotal_price = money t sub;
            total_price = money t sub;
            currency = "USD";
            email = cust.email;
            line_items =
                record {
                  id = next_id seq₂;
                  product_id = p.id;
                  variant_id = 0;
                  title = p.title;
                  quantity = quantity;
                  price = p.variant.price;
                  product_type = p.product_type;
                  vendor = "";
                }
                ∷ [];
            created_at = t.rfc3339 draws.now;
          },
          record s { id_seq = suc seq₂ },
        )
