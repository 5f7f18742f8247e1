-- ===== src/Platform/Queue/Delivery.antt =====
-- Which messages reach the handler of a subscription, and in which order.
use Prim.Native.String.{String}
use text.Mathlib.Text.{◌==◌ as str_eq}
use mathlib.Core.List.{append_assoc, append-nil, Sublistᴰ}
use loadgen.Base.{
  ℕ, ◌+◌, ◌≤◌, ◌<◌, ◌≡◌, ◌⊎◌, inl, inr, refl, ap, subst, ◌&&◌, ◌==◌, if◌then◌else◌, List, [], ◌∷◌,
  ◌++◌, none, some, length, length-append, ltb, arith, Bool-cases,
}
use loadgen.Platform.Queue.{
  channel_capacity, Message, Subscription, offer, consume, QueueEvent, publishes, subscribes,
  consumes, cancels,
}

module _ {R : Type 0} where
  -- The messages of an event on a topic.
  abbrev pub published : String → QueueEvent R → List (Message R)
  published t (publishes u (some raw)) =
      if str_eq u t then record { topic = u; payload = raw } ∷ [] else []
  published t _ = []

  abbrev pub all_published : String → List (QueueEvent R) → List (Message R)
  all_published t [] = []
  all_published t (e ∷ es) = published t e ++ all_published t es

  -- What a subscription takes part in, of what happens to the queue.
  abbrev pub seen : String → ℕ → QueueEvent R → Subscription R → Subscription R
  seen t i (publishes u none) sub = sub
  seen t i (publishes u (some raw)) sub =
      if str_eq u t then offer (record { topic = u; payload = raw }) sub else sub
  seen t i (subscribes u) sub = sub
  seen t i (consumes u j) sub = if str_eq u t && j == i then consume sub else sub
  seen t i (cancels u j) sub = sub

  abbrev pub received : Subscription R → List (Message R)
  received sub = sub.handled ++ sub.buffer

  -- From `sub` to `sub'`, while `msgs` are published: the channel holds no more than its capacity;
  -- the messages received are some of those published, in their order; and they are all of them
  -- unless more came than the channel has room for.
  pub record IsDelivered (msgs : List (Message R)) (sub sub' : Subscription R) : Type 0 where
    pub bounded : length sub'.buffer ≤ channel_capacity
    pub growth : length sub'.buffer ≤ length sub.buffer + length msgs
    pub kept : List (Message R)
    pub received_kept : received sub' ≡ received sub ++ kept
    pub in_order : Sublistᴰ kept msgs
    pub complete : (kept ≡ msgs) ⊎ (channel_capacity < length sub.buffer + length msgs)

  Sublist-append :
      {a b c e : List (Message R)} → Sublistᴰ a b → Sublistᴰ c e → Sublistᴰ (a ++ c) (b ++ e)
  Sublist-append Sublistᴰ.slnil q = q
  Sublist-append (Sublistᴰ.cons p) q = Sublistᴰ.cons (Sublist-append p q)
  Sublist-append (Sublistᴰ.cons-cons h p) q = Sublistᴰ.cons-cons h (Sublist-append p q)

  pub unchanged-IsDelivered :
      (sub : Subscription R) → length sub.buffer ≤ channel_capacity → IsDelivered [] sub sub
  unchanged-IsDelivered sub h = record {
    bounded = h;
    growth = omega arith;
    kept = [];
    received_kept = simp (append-nil);
    in_order = Sublistᴰ.slnil;
    complete = inl refl;
  }

  offer-IsDelivered :
      (msg : Message R) (sub : Subscription R)
      → length sub.buffer ≤ channel_capacity
      → IsDelivered (msg ∷ []) sub (offer msg sub)
  unfolding offer
  offer-IsDelivered msg sub h = elim (Bool-cases (ltb (length sub.buffer) channel_capacity)) [
    | inl room ↦
        rw (room, offer)
          (record {
            bounded = ground (arith, length-append sub.buffer (msg ∷ []));
            growth = omega (arith, length-append sub.buffer (msg ∷ []));
            kept = msg ∷ [];
            received_kept = simp (append_assoc);
            in_order = Sublistᴰ.cons-cons refl Sublistᴰ.slnil;
            complete = inl refl;
          })
    | inr full ↦
        rw (full, offer)
          (record {
            bounded = h;
            growth = omega arith;
            kept = [];
            received_kept = simp (append-nil);
            in_order = Sublistᴰ.cons Sublistᴰ.slnil;
            complete = inr (ground arith);
          })
  ]

  consume-IsDelivered :
      (sub : Subscription R)
      → length sub.buffer ≤ channel_capacity
      → IsDelivered [] sub (consume sub)
  unfolding consume
  consume-IsDelivered sub h = go sub.buffer refl
    where
      go : (b : List (Message R)) → sub.buffer ≡ b → IsDelivered [] sub (consume sub)
      go [] e =
          let same : sub ≡ consume sub = ground arith in
          subst (IsDelivered [] sub) same (unchanged-IsDelivered sub h)
      go (m ∷ rest) e =
          let next : Subscription R = record sub {
            buffer = rest;
            handled = sub.handled ++ (m ∷ []);
          } in
          let same : next ≡ consume sub = ground arith in
          subst (IsDelivered [] sub) same (record {
            bounded = ground (arith, ap length e);
            growth = ground (arith, ap length e);
            kept = [];
            received_kept = rw e (simp (append_assoc, append-nil));
            in_order = Sublistᴰ.slnil;
            complete = inl refl;
          })

  pub IsDelivered-trans :
      {a b : List (Message R)} {s s' s'' : Subscription R}
      → IsDelivered a s s'
      → IsDelivered b s' s''
      → IsDelivered (a ++ b) s s''
  IsDelivered-trans {a} {b} {s} {s'} {s''} p q = record {
    bounded = q.bounded;
    growth = omega (arith, length-append a b, p.growth, q.growth);
    kept = p.kept ++ q.kept;
    received_kept = rw (q.received_kept, p.received_kept) (append_assoc (received s) p.kept q.kept);
    in_order = Sublist-append p.in_order q.in_order;
    complete = ground (arith, length-append a b, p.growth, p.complete, q.complete);
  }

  module _ (t : String) (i : ℕ) where
    pub seen-IsDelivered :
        (e : QueueEvent R) (sub : Subscription R)
        → length sub.buffer ≤ channel_capacity
        → IsDelivered (published t e) sub (seen t i e sub)
    seen-IsDelivered (publishes u none) sub h = unchanged-IsDelivered sub h
    seen-IsDelivered (publishes u (some raw)) sub h = elim (Bool-cases (str_eq u t)) [
      | inl e ↦ rw e (offer-IsDelivered _ sub h)
      | inr e ↦ rw e (unchanged-IsDelivered sub h)
    ]
    seen-IsDelivered (subscribes u) sub h = unchanged-IsDelivered sub h
    seen-IsDelivered (consumes u j) sub h = elim (Bool-cases (str_eq u t && j == i)) [
      | inl e ↦ rw e (consume-IsDelivered sub h)
      | inr e ↦ rw e (unchanged-IsDelivered sub h)
    ]
    seen-IsDelivered (cancels u j) sub h = unchanged-IsDelivered sub h
