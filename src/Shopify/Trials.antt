-- ===== src/Shopify/Trials.antt =====
-- The store of internal/shopify at concrete inputs, with thousandths for the floats.
use Prim.Native.String.{String}
use mathlib.Core.List.{reverse}
use loadgen.Base.{refl, ◌≤◌, ◌≡◌, List, [], ◌∷◌, ◌++◌, none, some, take, pos}
use loadgen.Base.Milli.{Milli, milli_float}
use loadgen.Shopify.Catalog.{Texts, ProductDraws, CustomerDraws, ItemDraws, OrderDraws}
use loadgen.Shopify.Store.{Config, Store, TickDraws, of_shop, clip_limit, list_orders}
use loadgen.Shopify.Store.Emit.{SeedDraws, new_store, StoreStep, ticks, drains, allocates, run}
use loadgen.Shopify.Store.Listing.{all_recorded, run-list_orders}
use loadgen.Shopify.Store.Sorted.{Falling}
use loadgen.Shopify.Store.Newest.{list_orders-Falling}

abbrev texts : Texts Milli
texts = record {
  decimal = λ n. "1";
  two_digits = λ x. "10.00";
  scan = λ s. some 10_000;
  rfc3339 = λ n. "2026-01-01T00:00:00Z";
  parse_time = λ s. none;
}

abbrev product : ProductDraws Milli
product = record { type_draw = 7; adjective = 3; noun = 2; price = some 500; vendor = 1; age = 9 }

abbrev customer : CustomerDraws
customer = record { first = 4; last = 5; region = "eu-west-1"; country = 1; orders = 30; age = 2 }

abbrev item : ItemDraws Milli
item = record { product = 11; new_product = product; quantity = 1 }

abbrev order : OrderDraws Milli
order = record {
  customer = 6;
  new_customer = customer;
  first_item = item;
  second_item = item;
  third_item = item;
  count = 1;
  discount = some 100;
  code = 2;
  marketing = some 900;
}

-- The topic orders/create.
abbrev ticking : TickDraws Milli
ticking = record {
  now = 1_000_000_000;
  topic = some 0;
  recent = 0;
  order = order;
  customer = customer;
  decline = some 900;
  product = 3;
  new_product = product;
  quantity = 1;
  age = 40;
}

abbrev config : Config Milli
config = record {
  first_shop = record { domain = "acme.myshopify.com"; gateway = "stripe" };
  more_shops = record { domain = "globex.myshopify.com"; gateway = "paypal" } ∷ [];
  webhooks_per_minute = pos 90;
  baseline_decline = some 40;
  seed_orders = 2;
}

abbrev seeding : String → SeedDraws Milli
seeding domain = record {
  product = λ n. product;
  customer = λ n. customer;
  order = λ n. order;
  age = λ n. n;
}

abbrev bare : Store
bare = record { rr = 0; id_seq = 0; prods = []; custs = []; orders = []; events = [] }

abbrev history : List (StoreStep Milli)
history =
    ticks ticking
    ∷ drains
    ∷ ticks (record ticking { topic = some 300 })
    ∷ allocates 7
    ∷ ticks ticking
    ∷ []

-- The emitter takes no id.
abbrev mutating : List (StoreStep Milli)
mutating = ticks ticking ∷ drains ∷ ticks (record ticking { topic = some 300 }) ∷ ticks ticking ∷ []

run-list_orders_example :
    (list_orders "acme.myshopify.com" (pos 2) (run texts config history bare)
      ≡ take 2 (
          reverse (
            of_shop "acme.myshopify.com" bare.orders
            ++ all_recorded texts config "acme.myshopify.com" history bare)))
    × (1 ≤ clip_limit (pos 2))
    × (clip_limit (pos 2) ≤ 250)
run-list_orders_example = run-list_orders texts config "acme.myshopify.com" (pos 2) history bare

list_orders-Falling_example : Falling (
    list_orders "acme.myshopify.com"
      (pos 50)
      (run texts config mutating (new_store texts config seeding 1_000_000_000)))
list_orders-Falling_example =
    list_orders-Falling texts "acme.myshopify.com" config seeding 1_000_000_000 mutating (pos 50)
      refl
