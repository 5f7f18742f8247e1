-- ===== src/Platform/Queue.antt =====
-- internal/platform/platform.go: the queue. A subscription is its channel, with the messages that
-- its goroutine has handed to the handler so far. A history chooses which goroutine goes on.
pub mod Delivery
pub mod Order
use Prim.Native.String.{String}
use text.Mathlib.Text.{◌==◌ as str_eq}
use loadgen.Base.{
  ℕ, zero, suc, Bool, true, false, if◌then◌else◌, List, [], ◌∷◌, ◌++◌, Option, none, some, length,
  ltb,
}
use loadgen.Platform.Assoc.{Assoc, lookup, insert}

-- The capacity of a channel.
abbrev pub channel_capacity : ℕ
channel_capacity = 256

-- The trace context that a message carries is left out.
pub record Message (R : Type 0) : Type 0 where
  pub topic : String
  pub payload : R

pub record Subscription (R : Type 0) : Type 0 where
  pub buffer : List (Message R)
  pub closed : Bool
  pub handled : List (Message R)

abbrev pub Queue : Type 0 → Type 0
Queue R = Assoc (List (Subscription R))

pub data Published : Type 0 where
  sent marshal_error send_on_closed : Published

module _ {R : Type 0} where
  -- `q.subscribers[topic]`.
  abbrev pub subscriptions : String → Queue R → List (Subscription R)
  subscriptions topic q = elim (lookup topic q) [ none ↦ [] | some subs ↦ subs ]

  -- The `select` of `Publish` on an open channel: a full one drops the message.
  unfoldable pub offer : Message R → Subscription R → Subscription R
  offer msg sub =
      if ltb (length sub.buffer) channel_capacity
      then record sub { buffer = sub.buffer ++ (msg ∷ []) }
      else sub

  -- The loop of `Publish`: a send on a closed channel panics, and the later ones get nothing.
  unfoldable pub offer_all : Message R → List (Subscription R) → Published × List (Subscription R)
  unfolding offer
  offer_all msg [] = (sent, [])
  offer_all msg (sub ∷ subs) =
      let rest = offer_all msg subs in
      if sub.closed then (send_on_closed, sub ∷ subs) else (rest.0, offer msg sub ∷ rest.1)

  -- `raw` is what encoding/json gives for the payload.
  unfoldable pub publish : String → Option R → Queue R → Published × Queue R
  unfolding offer_all
  publish topic none q = (marshal_error, q)
  publish topic (some raw) q =
      let out = offer_all (record { topic = topic; payload = raw }) (subscriptions topic q) in
      (out.0, insert topic out.1 q)

  unfoldable pub subscribe : String → Queue R → Queue R
  subscribe topic q =
      insert topic
        (subscriptions topic q ++ (record { buffer = []; closed = false; handled = [] } ∷ [])) q

  -- The goroutine takes the next message, if any, and calls the handler.
  unfoldable pub consume : Subscription R → Subscription R
  consume sub = elim sub.buffer [
    | [] ↦ sub
    | msg ∷ rest ↦ record sub { buffer = rest; handled = sub.handled ++ (msg ∷ []) }
  ]

  -- The function that `Subscribe` returns closes the channel, and leaves it among the subscribers.
  unfoldable pub cancel : Subscription R → Subscription R
  cancel sub = record sub { closed = true }

  -- What happens to the subscription at a position of a topic's list.
  unfoldable pub at_position :
      ℕ → (Subscription R → Subscription R) → List (Subscription R) → List (Subscription R)
  at_position i f [] = []
  at_position zero f (sub ∷ subs) = f sub ∷ subs
  at_position (suc i) f (sub ∷ subs) = sub ∷ at_position i f subs

pub data QueueEvent (R : Type 0) : Type 0 where
  publishes : String → Option R → QueueEvent R
  subscribes : String → QueueEvent R
  consumes cancels : String → ℕ → QueueEvent R

module _ {R : Type 0} where
  unfoldable pub step : QueueEvent R → Queue R → Queue R
  unfolding publish subscribe at_position consume cancel
  step (publishes topic raw) q = (publish topic raw q).1
  step (subscribes topic) q = subscribe topic q
  step (consumes topic i) q = insert topic (at_position i consume (subscriptions topic q)) q
  step (cancels topic i) q = insert topic (at_position i cancel (subscriptions topic q)) q

  unfoldable pub run : List (QueueEvent R) → Queue R → Queue R
  unfolding step
  run [] q = q
  run (e ∷ es) q = run es (step e q)
