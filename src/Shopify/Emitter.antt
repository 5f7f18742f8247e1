-- ===== src/Shopify/Emitter.antt =====
-- internal/shopify/emitter.go: what an incident makes of an event, the webhooks and their counters.
-- `lower` is `strings.ToLower`; the clock and the incidents stand in the state of Incident.
use Prim.Native.String.{String}
use text.Mathlib.Text.{◌==◌ as str_eq}
use loadgen.Base.{
  ℕ, suc, Bool, false, not, ◌&&◌, ◌||◌, if◌then◌else◌, List, [], ◌∷◌, ◌++◌, any, ltb, leb,
}
use loadgen.Base.Float.{Float64}
use loadgen.Harness.Texts.{contains}
use loadgen.Shopify.Types.{Order, of_order, of_transaction, Event, of_refund}
use loadgen.Shopify.Catalog.{Texts, next_id}
use loadgen.Shopify.Incident.{Shop, incident_active, slump_active}

-- The incidents, the counters, and the counter of ids of the store.
pub record Emitter (F : Type 0) : Type 0 where
  pub shop : Shop F
  pub emitted : ℕ
  pub declines : ℕ
  pub errors : ℕ
  pub slumped : ℕ
  pub id_seq : ℕ

-- The draws for one event.
pub record EventDraws (F : Type 0) : Type 0 where
  pub slump : F
  pub decline : F
  pub cancel : F
  pub refund : F

-- How a webhook ends: its payload or request cannot be made, the exchange fails, or it has a status.
pub data Posted : Type 0 where
  not_made not_done : Posted
  status : ℕ → Posted

unfoldable pub order_has_product : (String → String) → Order → String → Bool
order_has_product lower o target =
    if str_eq target ""
    then false
    else any (λ li. contains (lower li.title) target || contains (lower li.product_type) target)
        o.line_items

abbrev pub is_order_topic : String → Bool
is_order_topic topic = str_eq topic "orders/create" || str_eq topic "orders/paid"

module _ {F : Type 0} ⦃d : Float64 F⦄ where
  -- Whether the product slump suppresses an event.
  unfoldable pub is_slumped : (String → String) → EventDraws F → Event → Emitter F → Bool
  unfolding order_has_product
  is_slumped lower draws ev e =
      let (on, shop, target, fraction) = slump_active e.shop in
      if on && (str_eq ev.shop_domain shop && is_order_topic ev.topic)
      then elim ev.payload [
        | of_order o ↦ order_has_product lower o target && d.lt draws.slump fraction
        | _ ↦ false
      ]
      else false

  -- A transaction that is declined.
  unfoldable pub declined : F → F → Event → Emitter F → List Event × Emitter F
  declined draw fraction ev e = elim ev.payload [
    | of_transaction tr ↦
        if d.lt draw fraction
        then (
          record ev { payload = of_transaction (record tr { status = "failure" }) } ∷ [],
          record e { declines = suc e.declines },
        )
        else (ev ∷ [], e)
    | _ ↦ (ev ∷ [], e)
  ]

  -- The cancellation of an order, and its refund with a new id.
  unfoldable pub cancelled : F → F → Event → Order → List Event
  cancelled draw boost ev o =
      if d.lt draw boost
      then record { shop_domain = ev.shop_domain; topic = "orders/cancelled"; payload = of_order o }
        ∷ []
      else []

  module _ (t : Texts F) (lower : String → String) where
    unfoldable pub refunded : F → F → Event → Order → Emitter F → List Event × Emitter F
    refunded draw boost ev o e =
        if d.lt draw boost
        then (
          record {
            shop_domain = ev.shop_domain;
            topic = "refunds/create";
            payload = of_refund (record {
              id = next_id e.id_seq;
              order_id = o.id;
              created_at = t.rfc3339 e.shop.now;
              transactions =
                  record { amount = o.total_price; kind = "refund"; gateway = o.gateway } ∷ [];
            });
          }
              ∷ [],
          record e { id_seq = suc e.id_seq },
        )
        else ([], e)

    unfoldable pub fanned_out : EventDraws F → F → F → Event → Emitter F → List Event × Emitter F
    unfolding cancelled refunded
    fanned_out draws cancel refund ev e = elim ev.payload [
      | of_order o ↦
          let (refunds, e') = refunded draws.refund refund ev o e in
          (ev ∷ cancelled draws.cancel cancel ev o ++ refunds, e')
      | _ ↦ (ev ∷ [], e)
    ]

    unfoldable pub apply_incident : EventDraws F → Event → Emitter F → List Event × Emitter F
    unfolding is_slumped declined fanned_out
    apply_incident draws ev e =
        let (active, shop, decline, cancel, refund) = incident_active e.shop in
        if is_slumped lower draws ev e
        then ([], record e { slumped = suc e.slumped })
        else if not active || not (str_eq ev.shop_domain shop)
        then (ev ∷ [], e)
        else if str_eq ev.topic "transactions/create"
        then declined draws.decline decline ev e
        else if is_order_topic ev.topic
        then fanned_out draws cancel refund ev e
        else (ev ∷ [], e)

-- The counters after a webhook.
unfoldable pub post : {F : Type 0} → Posted → Emitter F → Emitter F
post not_made e = record e { errors = suc e.errors }
post not_done e = record e { emitted = suc e.emitted; errors = suc e.errors }
post (status code) e =
    if ltb code 200 || leb 300 code
    then record e { emitted = suc e.emitted; errors = suc e.errors }
    else record e { emitted = suc e.emitted }

-- The webhooks of one event, with how each of them ends.
unfoldable pub post_all : {F : Type 0} → (ℕ → Posted) → List Event → Emitter F → Emitter F
unfolding post
post_all ends [] e = e
post_all ends (ev ∷ evs) e = post_all (λ n. ends (suc n)) evs (post (ends 0) e)

-- One round of `Run`.
unfoldable pub handle_event :
    {F : Type 0} ⦃d : Float64 F⦄
    → Texts F
    → (String → String)
    → EventDraws F
    → (ℕ → Posted)
    → Event
    → Emitter F
    → Emitter F
unfolding apply_incident post_all
handle_event t lower draws ends ev e =
    let (out, e') = apply_incident t lower draws ev e in post_all ends out e'
