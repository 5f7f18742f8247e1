-- ===== src/Services/Reply.antt =====
-- What the handlers of cmd answer. A header is left out, and the newline that `Encode` writes.
use Prim.Native.String.{String}
use loadgen.Base.{ℕ, List, Option, none, some, map}

-- `r.Method`, as far as a handler tells methods apart.
pub data Method : Type 0 where
  get_method post_method put_method : Method
  other_method : String → Method

pub data Body (R : Type 0) : Type 0 where
  -- The text of `http.Error`, bytes of JSON, an array of such, and nothing.
  message : String → Body R
  json : R → Body R
  rows : List R → Body R
  nothing : Body R

pub record Reply (R : Type 0) : Type 0 where
  pub status : ℕ
  pub body : Body R

module _ {R : Type 0} where
  abbrev pub http_error : ℕ → String → Reply R
  http_error code reason = record { status = code; body = message reason }

  -- `writeJSON`, of what encoding/json gives: on an error the body stays empty.
  unfoldable pub write_json : ℕ → Option R → Reply R
  write_json code none = record { status = code; body = nothing }
  write_json code (some raw) = record { status = code; body = json raw }

-- The same answer with its records encoded.
abbrev pub map_body : {A B : Type 0} → (A → B) → Body A → Body B
map_body f (message s) = message s
map_body f (json a) = json (f a)
map_body f (rows l) = rows (map f l)
map_body f nothing = nothing

abbrev pub map_reply : {A B : Type 0} → (A → B) → Reply A → Reply B
map_reply f r = record { status = r.status; body = map_body f r.body }
