-- ===== src/Shopify/Store/Listing.antt =====
-- What the listings show of the orders that were recorded.
use Prim.Native.String.{String}
use text.Mathlib.Text.{◌==◌ as str_eq}
use text.Mathlib.TextEquality.{eq_iff}
use mathlib.Core.List.{reverse, append_assoc, append-nil}
use loadgen.Base.{
  suc, ◌≤◌, ◌≡◌, inl, inr, refl, sym, ◌∙◌, subst, if◌then◌else◌, List, [], ◌∷◌, ◌++◌, take, ℤ,
  arith, Bool-cases, Option-cases,
}
use loadgen.Base.Float.{Float64}
use loadgen.Platform.Assoc.{Assoc, insert, lookup-insert}
use loadgen.Shopify.Types.{Order, Event, Storefront}
use loadgen.Shopify.Catalog.{Texts}
use loadgen.Shopify.Store.{
  Config, Store, Topic, orders_create, TickDraws, of_shop, record_order, keep_last,
  max_orders_retained, clip_limit, clip, list_orders, pick_topic, make_order, order_or_new,
  recent_order, new_checkout, send, orders_paid, orders_cancelled, transactions_create,
  checkouts_create, checkouts_delete, fulfillments_create, customers_create, refunds_create,
}
use loadgen.Shopify.Store.Emit.{
  make_payload, emit, next_shop, tick, StoreStep, ticks, drains, allocates, step, run,
}
use loadgen.Shopify.Store.Retained.{IsTail, keep_last-IsTail, take_newest}

module _ {F : Type 0} ⦃d : Float64 F⦄ (t : Texts F) where
  make_order-orders :
      (shop : Storefront) (draws : TickDraws F) (s : Store)
      → (make_order t shop draws.order draws.now s).1.orders ≡ s.orders
  unfolding make_order
  make_order-orders shop draws s = refl

  order_or_new-orders :
      (shop : Storefront) (draws : TickDraws F) (s : Store)
      → (order_or_new t shop draws s).1.orders ≡ s.orders
  unfolding order_or_new
  order_or_new-orders shop draws s = elim (Option-cases (recent_order shop.domain draws.recent s)) [
    | inl e ↦ rw (e, order_or_new) (make_order-orders shop draws s)
    | inr (o, e) ↦ rw (e, order_or_new)
  ]

  new_checkout-orders :
      (shop : Storefront) (draws : TickDraws F) (s : Store)
      → (new_checkout t shop draws s).1.orders ≡ s.orders
  unfolding new_checkout
  new_checkout-orders shop draws s = refl

  pub send-orders : (ev : Event) (s : Store) → (send ev s).orders ≡ s.orders
  unfolding send
  send-orders ev s = ground arith

  -- The orders after a tick, given its topic.
  abbrev pub orders_after : Storefront → Topic → TickDraws F → Store → Assoc (List Order)
  orders_after shop orders_create draws s =
      (record_order shop.domain (make_order t shop draws.order draws.now s).0 s).orders
  orders_after shop _ draws s = s.orders

  pub payload-orders :
      (cfg : Config F) (shop : Storefront) (topic : Topic) (draws : TickDraws F) (s : Store)
      → (make_payload t cfg shop topic draws s).1.orders ≡ orders_after shop topic draws s
  unfolding make_payload make_order record_order
  payload-orders cfg shop orders_create draws s = refl
  payload-orders cfg shop orders_paid draws s = order_or_new-orders shop draws s
  payload-orders cfg shop orders_cancelled draws s = order_or_new-orders shop draws s
  payload-orders cfg shop transactions_create draws s = refl
  payload-orders cfg shop checkouts_create draws s = new_checkout-orders shop draws s
  payload-orders cfg shop checkouts_delete draws s = new_checkout-orders shop draws s
  payload-orders cfg shop fulfillments_create draws s = refl
  payload-orders cfg shop customers_create draws s = refl
  payload-orders cfg shop refunds_create draws s = refl

  module _ (cfg : Config F) where
    -- What a tick with a topic records.
    abbrev pub recorded_by : String → Storefront → Topic → TickDraws F → Store → List Order
    recorded_by shop front orders_create draws s =
        if str_eq front.domain shop then (make_order t front draws.order draws.now s).0 ∷ [] else []
    recorded_by shop front _ draws s = []

    -- The orders that a step records for a shop, and those of a history.
    abbrev pub recorded : String → StoreStep F → Store → List Order
    recorded shop (ticks draws) s =
        recorded_by shop (next_shop t cfg s) (pick_topic draws.topic) draws
          (record s { rr = suc s.rr })
    recorded shop _ s = []

    abbrev pub all_recorded : String → List (StoreStep F) → Store → List Order
    all_recorded shop [] s = []
    all_recorded shop (e ∷ es) s = recorded shop e s ++ all_recorded shop es (step t cfg e s)

    orders_after-IsTail :
        (shop : String) (front : Storefront) (topic : Topic) (draws : TickDraws F) (s : Store)
        (full : List Order)
        → IsTail full (of_shop shop s.orders)
        → IsTail
            (full ++ recorded_by shop front topic draws s)
            (of_shop shop (orders_after front topic draws s))
    unfolding record_order
    orders_after-IsTail shop front orders_create draws s full h =
        let o = (make_order t front draws.order draws.now s).0 in
        let kept = keep_last max_orders_retained (of_shop front.domain s.orders ++ (o ∷ [])) in
        elim (Bool-cases (str_eq front.domain shop)) [
          | inl same ↦
              let here : of_shop shop (insert front.domain kept s.orders)
                  ≡ keep_last max_orders_retained (of_shop shop s.orders ++ (o ∷ [])) =
                ground (
                  arith,
                  lookup-insert shop front.domain kept s.orders,
                  eq_iff front.domain shop,
                ) in
              rw (same, here) (keep_last-IsTail full (of_shop shop s.orders) o h)
          | inr other ↦
              let there : of_shop shop (insert front.domain kept s.orders) ≡ of_shop shop s.orders =
                ground (arith, lookup-insert shop front.domain kept s.orders) in
              rw (other, there, append-nil) h
        ]
    orders_after-IsTail shop front orders_paid draws s full h = rw append-nil h
    orders_after-IsTail shop front orders_cancelled draws s full h = rw append-nil h
    orders_after-IsTail shop front transactions_create draws s full h = rw append-nil h
    orders_after-IsTail shop front checkouts_create draws s full h = rw append-nil h
    orders_after-IsTail shop front checkouts_delete draws s full h = rw append-nil h
    orders_after-IsTail shop front fulfillments_create draws s full h = rw append-nil h
    orders_after-IsTail shop front customers_create draws s full h = rw append-nil h
    orders_after-IsTail shop front refunds_create draws s full h = rw append-nil h

    step-IsTail :
        (shop : String) (e : StoreStep F) (s : Store) (full : List Order)
        → IsTail full (of_shop shop s.orders)
        → IsTail (full ++ recorded shop e s) (of_shop shop (step t cfg e s).orders)
    unfolding step tick emit
    step-IsTail shop (ticks draws) s full h =
        let s' : Store = record s { rr = suc s.rr } in
        let front = next_shop t cfg s in
        let topic = pick_topic draws.topic in
        let after : (emit t cfg front topic draws s').orders ≡ orders_after front topic draws s' =
          send-orders _ _ ∙ payload-orders cfg front topic draws s' in
        subst (λ m. IsTail (full ++ recorded shop (ticks draws) s) (of_shop shop m)) (sym after)
          (orders_after-IsTail shop front topic draws s' full h)
    step-IsTail shop drains s full h = rw append-nil h
    step-IsTail shop (allocates n) s full h = rw append-nil h

    run-IsTail :
        (shop : String) (es : List (StoreStep F)) (s : Store) (full : List Order)
        → IsTail full (of_shop shop s.orders)
        → IsTail (full ++ all_recorded shop es s) (of_shop shop (run t cfg es s).orders)
    unfolding run
    run-IsTail shop [] s full h = rw append-nil h
    run-IsTail shop (e ∷ es) s full h =
        rw (← append_assoc full (recorded shop e s) (all_recorded shop es (step t cfg e s)))
          (run-IsTail shop es (step t cfg e s) _ (step-IsTail shop e s full h))

    -- However the store has trimmed the orders of a shop, a listing after any history of the mutator
    -- and the emitter is that of all orders, those at the start and those recorded since: the newest
    -- first, and as many as the limit says, which is between 1 and 250.
    pub run-list_orders :
        (shop : String) (limit : ℤ) (es : List (StoreStep F)) (s : Store)
        → (list_orders shop limit (run t cfg es s)
            ≡ take (clip_limit limit) (reverse (of_shop shop s.orders ++ all_recorded shop es s)))
          × (1 ≤ clip_limit limit)
          × (clip_limit limit ≤ 250)
    unfolding list_orders clip
    run-list_orders shop limit es s =
        let start : IsTail (of_shop shop s.orders) (of_shop shop s.orders) = record {
          before = [];
          split = refl;
          enough = inl refl;
        } in
        (
          take_newest _ _ (clip_limit limit) (run-IsTail shop es s _ start) (ground arith),
          ground arith,
          ground arith,
        )
