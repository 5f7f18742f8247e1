-- ===== src/Shopify/Store/Newest.antt =====
-- The listing of a shop's orders is sorted by their ids, the newest first.
use Prim.Native.String.{String}
use text.Mathlib.Text.{◌==◌ as str_eq}
use text.Mathlib.TextEquality.{eq_iff}
use loadgen.Base.{
  any, Bool, true, false, ℕ, zero, suc, ◌+◌, ◌-◌, ◌*◌, ◌%◌, ◌≤◌, ◌<◌, ◌≡◌, refl, sym, ap, ◌∙◌,
  subst, List, [], ◌∷◌, ◌++◌, All-append, drop, length, ltb, ℤ, arith, Bool-cases, inl, inr,
}
use loadgen.Base.Float.{Float64}
use loadgen.Platform.Assoc.{insert, lookup-insert}
use loadgen.Shopify.Types.{Order, Storefront}
use loadgen.Shopify.Catalog.{Texts, minute}
use loadgen.Shopify.Store.{
  Config, Store, Topic, orders_create, orders_paid, orders_cancelled, transactions_create,
  checkouts_create, checkouts_delete, fulfillments_create, customers_create, refunds_create,
  TickDraws, of_shop, shop_list, record_order, keep_last, max_orders_retained, clip, clip_limit,
  list_orders, pick_topic, make_order, topic_text,
}
use loadgen.Shopify.Store.Emit.{
  SeedDraws, make_payload, emit, next_shop, tick, seed_products, seed_customers, seed_orders,
  seed_shops, new_store, StoreStep, ticks, drains, allocates, step, run,
}
use loadgen.Shopify.Store.Listing.{payload-orders, send-orders, orders_after}
use loadgen.Shopify.Store.Ids.{new_order-id, make_order-id, payload-seq, send-seq}
use loadgen.Shopify.Store.Sorted.{
  Rising, Falling, Below, Below-mono, All-drop, Rising-drop, Falling-take, Rising-append,
  Falling-reverse,
}

-- The orders of a shop are sorted by their ids, which the counter has given out.
record IsSorted (shop : String) (s : Store) : Type 0 where
  rising : Rising (of_shop shop s.orders)
  below : Below (7_000_000_000 + s.id_seq) (of_shop shop s.orders)

-- The counter may move on.
IsSorted-later :
    {shop : String} {s s' : Store}
    → s'.orders ≡ s.orders
    → s.id_seq ≤ s'.id_seq
    → IsSorted shop s
    → IsSorted shop s'
IsSorted-later {shop} {s} {s'} e le h = record {
  rising = subst (λ m. Rising (of_shop shop m)) (sym e) h.rising;
  below =
      subst (λ m. Below (7_000_000_000 + s'.id_seq) (of_shop shop m)) (sym e)
        (Below-mono (7_000_000_000 + s.id_seq) _ _ (omega arith) h.below);
}

-- A new order is appended to the list of a shop, of which some first entries are dropped.
IsSorted-insert :
    (shop : String) (front : String) (o : Order) (n : ℕ) (s s' : Store)
    → s'.orders ≡ insert front (drop n (of_shop front s.orders ++ (o ∷ []))) s.orders
    → 7_000_000_000 + s.id_seq < o.id
    → o.id ≡ 7_000_000_000 + s'.id_seq
    → IsSorted shop s
    → IsSorted shop s'
IsSorted-insert shop front o n s s' e lt eq h =
    let l = drop n (of_shop front s.orders ++ (o ∷ [])) in
    elim (Bool-cases (str_eq front shop)) [
      | inl same ↦
          let list = of_shop shop s.orders ++ (o ∷ []) in
          let here : of_shop shop s'.orders ≡ drop n list =
            ap (of_shop shop) e
            ∙ ground (arith, lookup-insert shop front l s.orders, eq_iff front shop) in
          let all_below : Below (7_000_000_000 + s'.id_seq) list =
            All-append (λ p. p.id ≤ 7_000_000_000 + s'.id_seq) (of_shop shop s.orders) (o ∷ [])
              (Below-mono (7_000_000_000 + s.id_seq) _ _ (omega arith) h.below) (omega arith, tt) in
          record {
            rising = subst Rising (sym here) (
                Rising-drop n list
                  (Rising-append (7_000_000_000 + s.id_seq) _ o h.rising h.below lt));
            below =
                subst (Below (7_000_000_000 + s'.id_seq)) (sym here)
                  (All-drop (λ p. p.id ≤ 7_000_000_000 + s'.id_seq) n list all_below);
          }
      | inr other ↦
          let there : of_shop shop s'.orders ≡ of_shop shop s.orders =
            ap (of_shop shop) e ∙ ground (arith, lookup-insert shop front l s.orders) in
          record {
            rising = subst Rising (sym there) h.rising;
            below =
                subst (Below (7_000_000_000 + s'.id_seq)) (sym there)
                  (Below-mono (7_000_000_000 + s.id_seq) _ _ (omega arith) h.below);
          }
    ]

keep_last-drop : (n : ℕ) (l : List Order) → (k : ℕ) × (keep_last n l ≡ drop k l)
unfolding keep_last
keep_last-drop n l = elim (Bool-cases (ltb n (length l))) [
  | inl long ↦ (length l - n, rw (long, keep_last))
  | inr short ↦ (0, rw (short, keep_last))
]

-- Whether the emitter takes an id.
abbrev pub allocates_id : {F : Type 0} → StoreStep F → Bool
allocates_id (allocates n) = true
allocates_id _ = false

module _ {F : Type 0} ⦃d : Float64 F⦄ (t : Texts F) (shop : String) where
  module _ (cfg : Config F) where
    quiet-IsSorted :
        (front : Storefront) (topic : Topic) (draws : TickDraws F) (s : Store)
        → orders_after t front topic draws s ≡ s.orders
        → IsSorted shop s
        → IsSorted shop (emit t cfg front topic draws s)
    unfolding emit
    quiet-IsSorted front topic draws s e h =
        let sent =
          send-seq t
            (record {
              shop_domain = front.domain;
              topic = topic_text topic;
              payload = (make_payload t cfg front topic draws s).0;
            })
            (make_payload t cfg front topic draws s).1 in
        IsSorted-later (send-orders t _ _ ∙ payload-orders t cfg front topic draws s ∙ e)
          (omega (arith, payload-seq t cfg front topic draws s, sent)) h

    emit-IsSorted :
        (front : Storefront) (topic : Topic) (draws : TickDraws F) (s : Store)
        → IsSorted shop s
        → IsSorted shop (emit t cfg front topic draws s)
    unfolding emit make_payload record_order
    emit-IsSorted front orders_create draws s h =
        let made = make_order-id t front draws.order draws.now s in
        let (o, s') = make_order t front draws.order draws.now s in
        let (k, e) =
          keep_last-drop max_orders_retained (of_shop front.domain s.orders ++ (o ∷ [])) in
        let out = emit t cfg front orders_create draws s in
        IsSorted-insert shop front.domain o k s out
          (send-orders t _ _
            ∙ payload-orders t cfg front orders_create draws s
            ∙ ap (λ l. insert front.domain l s.orders) e)
          made.0 (made.1 ∙ ap (λ k. 7_000_000_000 + k) (sym (send-seq t _ _))) h
    emit-IsSorted front orders_paid draws s h = quiet-IsSorted front orders_paid draws s refl h
    emit-IsSorted front orders_cancelled draws s h =
        quiet-IsSorted front orders_cancelled draws s refl h
    emit-IsSorted front transactions_create draws s h =
        quiet-IsSorted front transactions_create draws s refl h
    emit-IsSorted front checkouts_create draws s h =
        quiet-IsSorted front checkouts_create draws s refl h
    emit-IsSorted front checkouts_delete draws s h =
        quiet-IsSorted front checkouts_delete draws s refl h
    emit-IsSorted front fulfillments_create draws s h =
        quiet-IsSorted front fulfillments_create draws s refl h
    emit-IsSorted front customers_create draws s h =
        quiet-IsSorted front customers_create draws s refl h
    emit-IsSorted front refunds_create draws s h =
        quiet-IsSorted front refunds_create draws s refl h

    step-IsSorted :
        (e : StoreStep F) (s : Store)
        → allocates_id e ≡ false
        → IsSorted shop s
        → IsSorted shop (step t cfg e s)
    unfolding step tick
    step-IsSorted (ticks draws) s a h =
        emit-IsSorted (next_shop t cfg s) (pick_topic draws.topic) draws
          (record s { rr = suc s.rr }) (IsSorted-later refl (omega arith) h)
    step-IsSorted drains s a h = IsSorted-later refl (omega arith) h
    step-IsSorted (allocates n) s a h = cc

    run-IsSorted :
        (es : List (StoreStep F)) (s : Store)
        → any allocates_id es ≡ false
        → IsSorted shop s
        → IsSorted shop (run t cfg es s)
    unfolding run
    run-IsSorted [] s a h = h
    run-IsSorted (e ∷ es) s a h =
        run-IsSorted es (step t cfg e s) (ground arith) (step-IsSorted e s (ground arith) h)

  seed_products-IsSorted :
      (n : ℕ) (front : Storefront) (draws : SeedDraws F) (now : ℕ) (s : Store)
      → IsSorted shop s
      → IsSorted shop (seed_products t n front draws now s)
  unfolding seed_products
  seed_products-IsSorted zero front draws now s h = h
  seed_products-IsSorted (suc n) front draws now s h =
      seed_products-IsSorted n front draws now _ (IsSorted-later refl (omega arith) h)

  seed_customers-IsSorted :
      (n : ℕ) (front : Storefront) (draws : SeedDraws F) (now : ℕ) (s : Store)
      → IsSorted shop s
      → IsSorted shop (seed_customers t n front draws now s)
  unfolding seed_customers
  seed_customers-IsSorted zero front draws now s h = h
  seed_customers-IsSorted (suc n) front draws now s h =
      seed_customers-IsSorted n front draws now _ (IsSorted-later refl (omega arith) h)

  seed_orders-IsSorted :
      (n : ℕ) (front : Storefront) (draws : SeedDraws F) (now : ℕ) (s : Store)
      → IsSorted shop s
      → IsSorted shop (seed_orders t n front draws now s)
  unfolding seed_orders
  seed_orders-IsSorted zero front draws now s h = h
  seed_orders-IsSorted (suc n) front draws now s h =
      let made =
        new_order-id t front (of_shop front.domain s.custs) (of_shop front.domain s.prods)
          (draws.order n) now (now - draws.age n % 120 * minute) s.id_seq in
      seed_orders-IsSorted n front draws now _
        (IsSorted-insert shop front.domain _ 0 s _ refl made.0 made.1 h)

  seed_shops-IsSorted :
      (n : ℕ) (fronts : List Storefront) (draws : String → SeedDraws F) (now : ℕ) (s : Store)
      → IsSorted shop s
      → IsSorted shop (seed_shops t n fronts draws now s)
  unfolding seed_shops
  seed_shops-IsSorted n [] draws now s h = h
  seed_shops-IsSorted n (front ∷ rest) draws now s h =
      let dr = draws front.domain in
      let products = seed_products-IsSorted 60 front dr now s h in
      let customers = seed_customers-IsSorted 150 front dr now _ products in
      seed_shops-IsSorted n rest draws now _ (seed_orders-IsSorted n front dr now _ customers)

  -- From the seeded store on, after any history of the mutator and the emitter in which the emitter
  -- takes no id, each listing of a shop's orders is sorted by id, the newest first, so that no two of
  -- its orders share an id.
  pub list_orders-Falling :
      (cfg : Config F) (draws : String → SeedDraws F) (now : ℕ) (es : List (StoreStep F))
      (limit : ℤ)
      → any allocates_id es ≡ false
      → Falling (list_orders shop limit (run t cfg es (new_store t cfg draws now)))
  unfolding list_orders clip new_store
  list_orders-Falling cfg draws now es limit alone =
      let empty : Store = record {
        rr = 0;
        id_seq = 0;
        prods = [];
        custs = [];
        orders = [];
        events = [];
      } in
      let start =
        seed_shops-IsSorted cfg.seed_orders (shop_list cfg) draws now empty
          (record { rising = tt; below = tt }) in
      let last = run-IsSorted cfg es _ alone start in
      Falling-take (clip_limit limit) _ (Falling-reverse _ last.rising)
