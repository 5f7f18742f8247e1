-- ===== src/Shopify/Rest.antt =====
-- internal/shopify: the configuration (config.go) and the choices of the REST handlers (rest.go).
-- `trim` is `strings.TrimSpace`; a text of the environment comes as the parts that `strings.Split`
-- gives, and a number as what strconv reads.
use Prim.Native.String.{String, len, slice}
use text.Mathlib.Text.{◌==◌ as str_eq, find?}
use loadgen.Base.{◌+◌, if◌then◌else◌, List, [], ◌∷◌, Option, none, some, any, ℤ, pos, ltb_ℤ}
use loadgen.Base.Float.{Float64}
use loadgen.Shopify.Types.{Product, Customer, Order, Storefront}
use loadgen.Shopify.Store.{Config, Store, shop_list, list_products, list_customers, list_orders}

-- `strings.Cut` at the first colon: what stands before and after it.
abbrev cut : String → Option (String × String)
cut s = elim (find? s ":") [ none ↦ none | some n ↦ some (slice s 0 n, slice s (n + 1) (len s)) ]

-- The shop of one part, if it names one: the gateway is stripe where it is empty.
unfoldable pub parse_shop : (String → String) → String → Option Storefront
parse_shop trim part = elim (cut (trim part)) [
  | none ↦ none
  | some (domain, gateway) ↦
      if str_eq (trim domain) ""
      then none
      else some (record {
        domain = trim domain;
        gateway = if str_eq (trim gateway) "" then "stripe" else trim gateway;
      })
]

unfoldable pub parse_parts : (String → String) → List String → List Storefront
unfolding parse_shop
parse_parts trim [] = []
parse_parts trim (part ∷ parts) =
    let rest = parse_parts trim parts in
    elim (parse_shop trim part) [ none ↦ rest | some shop ↦ shop ∷ rest ]

-- The first shop and the others: one of stripe if nothing parses.
unfoldable pub parse_shops : (String → String) → List String → Storefront × List Storefront
unfolding parse_parts
parse_shops trim parts = elim (parse_parts trim parts) [
  | [] ↦ (record { domain = "acme.myshopify.com"; gateway = "stripe" }, [])
  | shop ∷ more ↦ (shop, more)
]

-- The values that `getenvInt` and `getenvFloat` fall back from.
unfoldable pub getenv_int : Option ℤ → ℤ → ℤ
getenv_int none default = default
getenv_int (some n) default = if ltb_ℤ (pos 0) n then n else default

unfoldable pub getenv_float : {F : Type 0} ⦃d : Float64 F⦄ → Option F → F → F
getenv_float none default = default
getenv_float ⦃d⦄ (some x) default = if d.le (d.lit 0) x then x else default

-- The parameter `shop` if it names a shop, and the first shop otherwise.
unfoldable pub resolve_shop : {F : Type 0} → Config F → String → String
resolve_shop cfg want =
    if any (λ (s : Storefront). str_eq s.domain want) (shop_list cfg)
    then want
    else cfg.first_shop.domain

-- The parameter `limit`, if it is a number.
unfoldable pub query_limit : Option ℤ → ℤ
query_limit none = pos 50
query_limit (some n) = n

module _ {F : Type 0} (cfg : Config F) (shop : String) (limit : Option ℤ) where
  unfoldable pub handle_products : Store → List Product
  unfolding resolve_shop query_limit list_products
  handle_products s = list_products (resolve_shop cfg shop) (query_limit limit) s

  unfoldable pub handle_orders : Store → List Order
  unfolding resolve_shop query_limit list_orders
  handle_orders s = list_orders (resolve_shop cfg shop) (query_limit limit) s

  unfoldable pub handle_customers : Store → List Customer
  unfolding resolve_shop query_limit list_customers
  handle_customers s = list_customers (resolve_shop cfg shop) (query_limit limit) s
