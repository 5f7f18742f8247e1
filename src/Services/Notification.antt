-- ===== src/Services/Notification.antt =====
-- cmd/notification/main.go: the statistics, and the handler of order.created. Durations are measured
-- by the clock, and texts of ids are draws.
use Prim.Native.String.{String, ◌++◌ as str_append}
use loadgen.Base.{
  ℕ, ◌+◌, ◌≡◌, Bool, true, false, not, ◌||◌, if◌then◌else◌, List, [], ◌∷◌, none, some, ℤ, pos, ltb,
  arith,
}
use loadgen.Base.Float.{Float64}
use loadgen.Chaos.Kind.{known, error_injection}
use loadgen.Chaos.State.{World}
use loadgen.Chaos.Query
use loadgen.Platform.Db.{Codec, Db, db_insert}
use loadgen.Platform.Cache.{Faults}
use loadgen.Platform.Queue.{Message}
use loadgen.SysState.Health.{health, scaled_error_rate}

pub record Stats (F : Type 0) : Type 0 where
  pub total : ℕ
  pub success : ℕ
  pub failed : ℕ
  pub total_duration : F

pub record OrderEvent : Type 0 where
  pub order_id : String
  pub user_id : String

pub record NotificationRecord : Type 0 where
  pub id : String
  pub order_id : String
  pub type : String
  pub status : String
  pub created_at : String

pub record Worker (R F : Type 0) : Type 0 where
  pub stats : Stats F
  pub db : Db R

-- `types[rand.Intn(len(types))]`.
pub data Channel : Type 0 where
  email sms push : Channel

-- What the handling of a message meets.
pub record Handling (F : Type 0) : Type 0 where
  pub faults : Faults F
  pub world : World F
  pub roll : F
  pub channel : Channel
  pub duration : ℤ
  pub id_draw : String
  pub now : String

abbrev pub channel_text : Channel → String
channel_text email = "email"
channel_text sms = "sms"
channel_text push = "push"

module _ {F : Type 0} ⦃d : Float64 F⦄ where
  unfoldable pub record_stats : Bool → ℤ → Stats F → Stats F
  record_stats ok dur s = record s {
    total = s.total + 1;
    success = if ok then s.success + 1 else s.success;
    failed = if ok then s.failed else s.failed + 1;
    total_duration = d.add s.total_duration (d.seconds dur);
  }

  -- The average of `snapshot`.
  unfoldable pub average_duration : Stats F → F
  average_duration s =
      if ltb 0 s.total then d.div s.total_duration (d.of_int (pos s.total)) else d.lit 0

  -- Whether the notification is sent: the draw, unless errors are injected.
  unfoldable pub is_sent : Handling F → Bool
  is_sent h =
      let lucky =
        d.le (scaled_error_rate (d.lit 30) (d.lit 300) (health h.faults.epoch_info h.faults.system))
          h.roll in
      if not lucky || Query.is_active h.world (known error_injection) then false else true

  abbrev pub notification_of : Handling F → OrderEvent → NotificationRecord
  notification_of h evt = record {
    id = str_append "notif_" h.id_draw;
    order_id = evt.order_id;
    type = channel_text h.channel;
    status = if is_sent h then "sent" else "failed";
    created_at = h.now;
  }

  module _ {R : Type 0} ⦃c : Codec R OrderEvent⦄ ⦃cn : Codec R NotificationRecord⦄ where
    -- Whether the handler returns no error, and the state after it: an error of the insertion is
    -- only logged.
    unfoldable pub handle_order_created : Handling F → Message R → Worker R F → Bool × Worker R F
    unfolding record_stats is_sent db_insert
    handle_order_created h msg w = elim (c.unmarshal msg.payload) [
      | none ↦ (false, w)
      | some evt ↦
          let rec = notification_of h evt in
          (
            true,
            record {
              stats = record_stats (is_sent h) h.duration w.stats;
              db = (db_insert "notifications" rec.id rec w.db).1;
            },
          )
    ]

    -- The messages that the subscription hands over, each with what its handling meets.
    unfoldable pub handle_all : List (Handling F × Message R) → Worker R F → Worker R F
    unfolding handle_order_created
    handle_all [] w = w
    handle_all ((h, msg) ∷ rest) w = handle_all rest (handle_order_created h msg w).1

    -- The messages whose payload is an order, and those of them whose notification is sent.
    abbrev pub decodable : List (Handling F × Message R) → ℕ
    decodable [] = 0
    decodable ((h, msg) ∷ rest) = elim (c.unmarshal msg.payload) [
      | none ↦ decodable rest
      | some _ ↦ decodable rest + 1
    ]

    -- The statistics count every message whose payload is an order once, as a success or a failure.
    pub handle_all-total :
        (ms : List (Handling F × Message R)) (w : Worker R F)
        → let s = (handle_all ms w).stats in
          (s.total ≡ w.stats.total + decodable ms)
          × (s.success + s.failed + w.stats.total ≡ s.total + w.stats.success + w.stats.failed)
    unfolding handle_all handle_order_created record_stats
    handle_all-total [] w = (omega arith, omega arith)
    handle_all-total ((h, msg) ∷ rest) w =
        ground (arith, handle_all-total rest (handle_order_created h msg w).1)
