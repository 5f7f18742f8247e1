-- ===== src/Shopify/Incident.antt =====
-- internal/shopify/incident.go: the payment meltdown and the product slump, their endpoints, and the
-- goroutines that end them. Times are nanoseconds of the monotonic clock.
pub mod Expiry
use Prim.Native.String.{String}
use text.Mathlib.Text.{◌==◌ as str_eq}
use loadgen.Base.{
  ℕ, zero, suc, ◌+◌, ◌-◌, ◌*◌, Bool, true, false, not, ◌&&◌, if◌then◌else◌, List, [], ◌∷◌, ◌++◌,
  Option, none, some, ℤ, pos, pos_part, ltb_ℤ, leb,
}
use loadgen.Base.Float.{Float64}

abbrev pub max_incident_duration : ℤ
max_incident_duration = pos (15 * 60 * 1_000_000_000)

pub record IncidentState (F : Type 0) : Type 0 where
  pub enabled : Bool
  pub shop : String
  pub decline_fraction : F
  pub cancel_boost : F
  pub refund_boost : F
  pub started_at : ℕ
  pub duration : ℤ

pub record ProductSlumpState (F : Type 0) : Type 0 where
  pub enabled : Bool
  pub shop : String
  pub target : String
  pub fraction : F
  pub started_at : ℕ
  pub duration : ℤ

-- A goroutine that sleeps until a time and then disables the meltdown or the slump.
pub data Timer : Type 0 where
  ends_incident ends_slump : ℕ → Timer

pub record Shop (F : Type 0) : Type 0 where
  pub now : ℕ
  pub incident : IncidentState F
  pub slump : ProductSlumpState F
  pub timers : List Timer

-- The bodies, with the zero value for what a body leaves out.
pub record IncidentRequest (F : Type 0) : Type 0 where
  pub duration_seconds : F
  pub decline_fraction : F
  pub shop : String
  pub cancel_boost : F
  pub refund_boost : F

pub record SlumpRequest (F : Type 0) : Type 0 where
  pub duration_seconds : F
  pub fraction : F
  pub shop : String
  pub product : String

-- Whether the duration of an entry has passed.
abbrev pub is_past : ℕ → ℕ → ℤ → Bool
is_past now started duration = ltb_ℤ (pos 0) duration && ltb_ℤ duration (pos (now - started))

abbrev pub clip_duration : ℤ → ℤ
clip_duration dur = if ltb_ℤ max_incident_duration dur then max_incident_duration else dur

abbrev pub or_text : String → String → String
or_text s default = if str_eq s "" then default else s

module _ {F : Type 0} ⦃d : Float64 F⦄ where
  unfoldable pub clamp01 : F → F
  clamp01 v = if d.lt v (d.lit 0) then d.lit 0 else if d.lt (d.lit 1000) v then d.lit 1000 else v

  abbrev pub or_default : F → ℕ → F
  or_default x n = if d.le x (d.lit 0) then d.lit n else x

  unfoldable pub enable_incident : String → F → F → F → ℤ → Shop F → Shop F
  unfolding clamp01
  enable_incident shop decline cancel refund dur s = record s {
    incident = record {
      enabled = true;
      shop = shop;
      decline_fraction = clamp01 decline;
      cancel_boost = clamp01 cancel;
      refund_boost = clamp01 refund;
      started_at = s.now;
      duration = dur;
    };
  }

  -- The start time keeps its value.
  unfoldable pub disable_incident : Shop F → Shop F
  disable_incident s = record s {
    incident = record s.incident {
      enabled = false;
      shop = "";
      decline_fraction = d.lit 0;
      cancel_boost = d.lit 0;
      refund_boost = d.lit 0;
      duration = pos 0;
    };
  }

  -- The flag, the shop, and the fractions of declines, cancels and refunds.
  unfoldable pub incident_active : Shop F → Bool × String × F × F × F
  incident_active s =
      let i = s.incident in
      if not i.enabled
      then (false, "", d.lit 0, d.lit 0, d.lit 0)
      else if is_past s.now i.started_at i.duration
      then (false, "", d.lit 0, d.lit 0, d.lit 0)
      else (true, i.shop, i.decline_fraction, i.cancel_boost, i.refund_boost)

  unfoldable pub enable_slump : String → String → F → ℤ → Shop F → Shop F
  unfolding clamp01
  enable_slump shop target fraction dur s = record s {
    slump = record {
      enabled = true;
      shop = shop;
      target = target;
      fraction = clamp01 fraction;
      started_at = s.now;
      duration = dur;
    };
  }

  unfoldable pub disable_slump : Shop F → Shop F
  disable_slump s = record s {
    slump = record s.slump {
      enabled = false;
      shop = "";
      target = "";
      fraction = d.lit 0;
      duration = pos 0;
    };
  }

  unfoldable pub slump_active : Shop F → Bool × String × String × F
  slump_active s =
      let p = s.slump in
      if not p.enabled
      then (false, "", "", d.lit 0)
      else if is_past s.now p.started_at p.duration
      then (false, "", "", d.lit 0)
      else (true, p.shop, p.target, p.fraction)

  abbrev pub incident_duration : F → ℕ → ℤ
  incident_duration seconds default = clip_duration (d.to_ns (or_default seconds default))

  -- POST /incident/payment-meltdown; `first` is the domain of the first shop.
  unfoldable pub post_incident : String → IncidentRequest F → Shop F → Shop F
  unfolding enable_incident
  post_incident first req s =
      let dur = incident_duration req.duration_seconds 300_000 in
      let s' =
        enable_incident (or_text req.shop first) (or_default req.decline_fraction 600)
          (or_default req.cancel_boost 250) (or_default req.refund_boost 200) dur s in
      record s' { timers = s'.timers ++ (ends_incident (s.now + pos_part dur) ∷ []) }

  -- POST /incident/product-slump; `lower` is `strings.ToLower`.
  unfoldable pub post_slump : (String → String) → String → SlumpRequest F → Shop F → Shop F
  unfolding enable_slump
  post_slump lower first req s =
      let dur = incident_duration req.duration_seconds 600_000 in
      let s' =
        enable_slump (or_text req.shop first) (lower (or_text req.product "Footwear"))
          (or_default req.fraction 850) dur s in
      record s' { timers = s'.timers ++ (ends_slump (s.now + pos_part dur) ∷ []) }

  -- What a goroutine does if it is due: it does not look at which activation it ends.
  unfoldable pub fire : Timer → Shop F → Shop F
  unfolding disable_incident disable_slump
  fire (ends_incident t) s = if leb t s.now then disable_incident s else s
  fire (ends_slump t) s = if leb t s.now then disable_slump s else s
