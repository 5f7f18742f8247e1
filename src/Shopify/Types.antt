-- ===== src/Shopify/Types.antt =====
-- internal/shopify/store.go: the records that the mock shop serves and sends. Ids are natural: they
-- count up from 7,000,000,000.
use Prim.Native.String.{String}
use loadgen.Base.{ℕ, Bool, List}

pub record Variant : Type 0 where
  pub id : ℕ
  pub title : String
  pub price : String
  pub sku : String

pub record Product : Type 0 where
  pub id : ℕ
  pub title : String
  pub handle : String
  pub product_type : String
  pub vendor : String
  -- `newProduct` makes exactly one variant.
  pub variant : Variant
  pub created_at : String

pub record Address : Type 0 where
  pub city : String
  pub province : String
  pub country : String
  pub country_code : String

pub record Customer : Type 0 where
  pub id : ℕ
  pub email : String
  pub first_name : String
  pub last_name : String
  pub orders_count : ℕ
  pub state : String
  pub default_address : Address
  pub created_at : String

pub record DiscountCode : Type 0 where
  pub code : String
  pub amount : String
  pub type : String

pub record LineItem : Type 0 where
  pub id : ℕ
  pub product_id : ℕ
  pub variant_id : ℕ
  pub title : String
  pub quantity : ℕ
  pub price : String
  pub product_type : String
  pub vendor : String

pub record Order : Type 0 where
  pub id : ℕ
  pub name : String
  pub order_number : ℕ
  pub total_price : String
  pub subtotal_price : String
  pub currency : String
  pub financial_status : String
  pub gateway : String
  pub buyer_accepts_marketing : Bool
  pub discount_codes : List DiscountCode
  pub line_items : List LineItem
  pub billing_address : Address
  pub shipping_address : Address
  pub customer : Customer
  pub created_at : String
  pub updated_at : String

pub record RefundTxn : Type 0 where
  pub amount : String
  pub kind : String
  pub gateway : String

pub record Refund : Type 0 where
  pub id : ℕ
  pub order_id : ℕ
  pub created_at : String
  pub transactions : List RefundTxn

pub record Transaction : Type 0 where
  pub id : ℕ
  pub order_id : ℕ
  pub kind : String
  pub status : String
  pub gateway : String
  pub amount : String
  pub created_at : String

pub record Checkout : Type 0 where
  pub id : ℕ
  pub token : String
  pub subtotal_price : String
  pub total_price : String
  pub currency : String
  pub email : String
  pub line_items : List LineItem
  pub created_at : String

pub record Fulfillment : Type 0 where
  pub id : ℕ
  pub order_id : ℕ
  pub status : String
  pub shipment_status : String
  pub created_at : String
  pub order_created_at : String

-- What an event carries: one of the types that `emit` and `applyIncident` put there.
pub data Payload : Type 0 where
  of_order : Order → Payload
  of_transaction : Transaction → Payload
  of_checkout : Checkout → Payload
  of_fulfillment : Fulfillment → Payload
  of_customer : Customer → Payload
  of_refund : Refund → Payload

pub record Event : Type 0 where
  pub shop_domain : String
  pub topic : String
  pub payload : Payload

-- One storefront, with its gateway.
pub record Storefront : Type 0 where
  pub domain : String
  pub gateway : String
