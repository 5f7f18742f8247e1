-- ===== src/Shopify/Catalog.antt =====
-- internal/shopify/store.go: new products, customers and orders. The
-- counter of ids is passed on. A draw of `rand.Intn(n)` is the rest by n of a number. What fmt
-- and time print and read is the record `Texts`.
use Prim.Native.String.{String, ◌++◌ as str_append}
use text.Mathlib.Text.{◌==◌ as str_eq}
use loadgen.Base.{
  ℕ, suc, ◌+◌, ◌-◌, ◌*◌, ◌%◌, ◌==◌, if◌then◌else◌, List, [], ◌∷◌, Option, none, some, length,
  get_elem?, pos,
}
use loadgen.Base.Float.{Float64}
use loadgen.Shopify.Names.{
  product_types, title_adjective, vendors, first_names, last_names, discount_codes, title_noun,
  price_range,
}
use loadgen.Shopify.Types.{Product, Customer, DiscountCode, LineItem, Order, Storefront}

-- `fmt.Sprintf` of "%d" and "%.2f", `fmt.Sscanf` of "%f" with 0 where it fails, and the text of a
-- time in nanoseconds and its reading.
pub record Texts (F : Type 0) : Type 0 where
  pub decimal : ℕ → String
  pub two_digits : F → String
  pub scan : String → F
  pub rfc3339 : ℕ → String
  pub parse_time : String → Option ℕ

abbrev pub minute : ℕ
minute = 60_000_000_000

-- The id, for the counter as it is read; it is left one higher.
abbrev pub next_id : ℕ → ℕ
next_id seq = 7_000_000_000 + suc seq

-- An entry for a draw; an empty list, for which `rand.Intn` panics, gives the default.
abbrev pub pick {ℓ} : {A : Type ℓ} → A → ℕ → List A → A
pick default draw l = elim (get_elem? l (draw % length l)) [ none ↦ default | some a ↦ a ]

-- The draws of a product, a customer, a line item, an order and a checkout.
pub record ProductDraws (F : Type 0) : Type 0 where
  pub type_draw : ℕ
  pub adjective : ℕ
  pub noun : ℕ
  pub price : F
  pub vendor : ℕ
  pub age : ℕ

-- `region` is what `dimensions.Pick` gives.
pub record CustomerDraws : Type 0 where
  pub first : ℕ
  pub last : ℕ
  pub region : String
  pub country : ℕ
  pub orders : ℕ
  pub age : ℕ

pub record ItemDraws (F : Type 0) : Type 0 where
  pub product : ℕ
  pub new_product : ProductDraws F
  pub quantity : ℕ

pub record OrderDraws (F : Type 0) : Type 0 where
  pub customer : ℕ
  pub new_customer : CustomerDraws
  -- The first item, and the draws for two more, of which the count takes some.
  pub first_item : ItemDraws F
  pub second_item : ItemDraws F
  pub third_item : ItemDraws F
  pub count : ℕ
  pub discount : F
  pub code : ℕ
  pub marketing : F

-- `countryFor`.
unfoldable pub country_for : String → ℕ → String × String
country_for region draw =
    if str_eq region "eu-west-1"
    then pick ("", "") draw (("United Kingdom", "GB") ∷ ("Germany", "DE") ∷ ("France", "FR") ∷ [])
    else ("United States", "US")

module _ {F : Type 0} ⦃d : Float64 F⦄ (t : Texts F) where
  open t use {decimal, two_digits, scan, rfc3339}

  unfoldable pub money : F → String
  money f = two_digits (if d.lt f (d.lit 0) then d.lit 0 else f)

  -- A product, and the counter after its two ids.
  unfoldable pub new_product : ProductDraws F → ℕ → ℕ → Product × ℕ
  unfolding money
  new_product draws now seq =
      let pt = pick "" draws.type_draw product_types in
      let title =
        str_append (pick "" draws.adjective title_adjective)
          (str_append " " (pick "" draws.noun (title_noun pt))) in
      let (low, high) = price_range pt in
      let lowest = d.of_int (pos low) in
      let price = money (d.add lowest (d.mul draws.price (d.sub (d.of_int (pos high)) lowest))) in
      let id = next_id seq in
      (
        record {
          id = id;
          title = title;
          handle = str_append "p-" (decimal id);
          product_type = pt;
          vendor = pick "" draws.vendor vendors;
          variant = record {
            id = next_id (suc seq);
            title = "Default";
            price = price;
            sku = str_append "SKU-" (decimal (id % 100_000));
          };
          created_at = rfc3339 (now - draws.age % 240 * (60 * minute));
        },
        suc (suc seq),
      )

  unfoldable pub new_customer : CustomerDraws → ℕ → ℕ → Customer × ℕ
  unfolding country_for
  new_customer draws now seq =
      let first = pick "" draws.first first_names in
      let last = pick "" draws.last last_names in
      let (country, code) = country_for draws.region draws.country in
      let id = next_id seq in
      (
        record {
          id = id;
          email = str_append first (
              str_append "." (str_append last (str_append (decimal (id % 10_000)) "@example.com")));
          first_name = first;
          last_name = last;
          orders_count = draws.orders % 12;
          state = "enabled";
          default_address = record {
            city = "—";
            province = draws.region;
            country = country;
            country_code = code;
          };
          created_at = rfc3339 (now - draws.age % 8760 * (60 * minute));
        },
        suc seq,
      )

  -- From the products or the customers of the shop, or a new one where there are none.
  unfoldable pub pick_product : List Product → ℕ → ProductDraws F → ℕ → ℕ → Product × ℕ
  unfolding new_product
  pick_product [] draw draws now seq = new_product draws now seq
  pick_product (p ∷ ps) draw draws now seq = (pick p draw (p ∷ ps), seq)

  unfoldable pub pick_customer : List Customer → ℕ → CustomerDraws → ℕ → ℕ → Customer × ℕ
  unfolding new_customer
  pick_customer [] draw draws now seq = new_customer draws now seq
  pick_customer (c ∷ cs) draw draws now seq = (pick c draw (c ∷ cs), seq)

  -- A line item with the amount that it adds, and the counter.
  unfoldable pub new_item : List Product → ItemDraws F → ℕ → ℕ → (LineItem × F) × ℕ
  unfolding pick_product
  new_item products draws now seq =
      let (p, seq') = pick_product products draws.product draws.new_product now seq in
      let quantity = 1 + draws.quantity % 2 in
      (
        (
          record {
            id = next_id seq';
            product_id = p.id;
            variant_id = p.variant.id;
            title = p.title;
            quantity = quantity;
            price = p.variant.price;
            product_type = p.product_type;
            vendor = p.vendor;
          },
          d.mul (scan p.variant.price) (d.of_int (pos quantity)),
        ),
        suc seq',
      )

  -- The loop over the items: the lines, the subtotal and the counter.
  unfoldable pub new_items : List Product → List (ItemDraws F) → ℕ → F → ℕ → (List LineItem × F) × ℕ
  unfolding new_item
  new_items products [] now subtotal seq = (([], subtotal), seq)
  new_items products (draws ∷ rest) now subtotal seq =
      let ((item, amount), seq') = new_item products draws now seq in
      let ((items, total), last) = new_items products rest now (d.add subtotal amount) seq' in
      ((item ∷ items, total), last)

  -- `1 + rand.Intn(3)` items.
  abbrev pub item_draws : OrderDraws F → List (ItemDraws F)
  item_draws draws =
      if draws.count % 3 == 0
      then draws.first_item ∷ []
      else if draws.count % 3 == 1
      then draws.first_item ∷ draws.second_item ∷ []
      else draws.first_item ∷ draws.second_item ∷ draws.third_item ∷ []

  -- A quarter of the orders has a discount of a tenth: the total and the codes.
  unfoldable pub discounted : OrderDraws F → F → F × List DiscountCode
  unfolding money
  discounted draws subtotal =
      let off = d.mul subtotal (d.lit 100) in
      if d.lt draws.discount (d.lit 250)
      then (
        d.sub subtotal off,
        record { code = pick "" draws.code discount_codes; amount = money off; type = "percentage" }
            ∷ [],
      )
      else (subtotal, [])

  -- An order, and the counter after its ids. `time` is that of the order, and `now` that of a new
  -- product or customer.
  unfoldable pub new_order :
      Storefront → List Customer → List Product → OrderDraws F → ℕ → ℕ → ℕ → Order × ℕ
  unfolding pick_customer new_items discounted money
  new_order shop customers products draws now time seq =
      let (cust, seq₁) = pick_customer customers draws.customer draws.new_customer now seq in
      let ((items, subtotal), seq₂) = new_items products (item_draws draws) now (d.lit 0) seq₁ in
      let (total, discounts) = discounted draws subtotal in
      let id = next_id seq₂ in
      (
        record {
          id = id;
          name = str_append "#" (decimal (1000 + id % 100_000));
          order_number = 1000 + id % 100_000;
          total_price = money total;
          subtotal_price = money subtotal;
          currency = "USD";
          financial_status = "paid";
          gateway = shop.gateway;
          buyer_accepts_marketing = d.lt draws.marketing (d.lit 300);
          discount_codes = discounts;
          line_items = items;
          billing_address = cust.default_address;
          shipping_address = cust.default_address;
          customer = cust;
          created_at = rfc3339 time;
          updated_at = rfc3339 time;
        },
        suc seq₂,
      )
