-- ===== src/Shopify/Names.antt =====
-- internal/shopify/store.go: the tables of names and prices. A key that a table lacks has the zero
-- value.
use Prim.Native.String.{String}
use text.Mathlib.Text.{◌==◌ as str_eq}
use loadgen.Base.{ℕ, if◌then◌else◌, List, [], ◌∷◌}

abbrev pub product_types : List String
product_types =
    "Apparel" ∷ "Footwear" ∷ "Accessories" ∷ "Home & Garden" ∷ "Electronics" ∷ "Beauty" ∷ []

abbrev pub title_adjective : List String
title_adjective =
    "Classic" ∷ "Premium" ∷ "Eco" ∷ "Vintage" ∷ "Modern" ∷ "Signature" ∷ "Limited" ∷ "Essential"
    ∷ "Pro" ∷ "Artisan" ∷ []

abbrev pub vendors : List String
vendors = "NorthLoop" ∷ "Brightside" ∷ "Kestrel" ∷ "Maison Vert" ∷ "Atlas&Co" ∷ "Pinecrest" ∷ []

abbrev pub first_names : List String
first_names =
    "Ava" ∷ "Liam" ∷ "Noah" ∷ "Emma" ∷ "Olivia" ∷ "Sophia" ∷ "Mason" ∷ "Lucas" ∷ "Mia" ∷ "Ethan"
    ∷ "Isabella" ∷ "Aiden" ∷ "Riya" ∷ "Kenji" ∷ "Lena" ∷ "Mateo" ∷ []

abbrev pub last_names : List String
last_names =
    "Patel" ∷ "Kim" ∷ "Garcia" ∷ "Nguyen" ∷ "Smith" ∷ "Müller" ∷ "Rossi" ∷ "Dubois" ∷ "Silva"
    ∷ "Khan" ∷ "Johnson" ∷ "Park" ∷ "Costa" ∷ "Haddad" ∷ []

abbrev pub discount_codes : List String
discount_codes = "WELCOME10" ∷ "SUMMER20" ∷ "VIP15" ∷ "FREESHIP" ∷ "BUNDLE25" ∷ []

abbrev pub title_noun : String → List String
title_noun pt =
    if str_eq pt "Apparel"
    then "Hoodie" ∷ "Tee" ∷ "Jacket" ∷ "Joggers" ∷ "Crewneck" ∷ []
    else if str_eq pt "Footwear"
    then "Runners" ∷ "Loafers" ∷ "Boots" ∷ "Sandals" ∷ "Sneakers" ∷ []
    else if str_eq pt "Accessories"
    then "Backpack" ∷ "Wallet" ∷ "Sunglasses" ∷ "Watch" ∷ "Belt" ∷ []
    else if str_eq pt "Home & Garden"
    then "Lamp" ∷ "Throw" ∷ "Planter" ∷ "Mug Set" ∷ "Cushion" ∷ []
    else if str_eq pt "Electronics"
    then "Earbuds" ∷ "Charger" ∷ "Speaker" ∷ "Webcam" ∷ "Keyboard" ∷ []
    else if str_eq pt "Beauty"
    then "Serum" ∷ "Cleanser" ∷ "Balm" ∷ "Mask" ∷ "Mist" ∷ []
    else []

-- The bounds of a price, in whole units.
abbrev pub price_range : String → ℕ × ℕ
price_range pt =
    if str_eq pt "Apparel"
    then (24, 120)
    else if str_eq pt "Footwear"
    then (45, 220)
    else if str_eq pt "Accessories"
    then (15, 180)
    else if str_eq pt "Home & Garden"
    then (12, 95)
    else if str_eq pt "Electronics"
    then (29, 340)
    else if str_eq pt "Beauty"
    then (9, 75)
    else (0, 0)
