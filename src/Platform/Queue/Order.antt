-- ===== src/Platform/Queue/Order.antt =====
-- Delivery on the queue as a whole: any history in which no subscription to the topic is cancelled.
use Prim.Native.String.{String}
use text.Mathlib.Text.{◌==◌ as str_eq}
use text.Mathlib.TextEquality.{eq_iff}
use loadgen.Base.{
  ℕ, zero, suc, ◌≤◌, ◌≡◌, inl, inr, refl, ◌∙◌, ap, sym, subst, true, false, ◌==◌, if◌then◌else◌,
  List, [], ◌∷◌, ◌++◌, map, Option, none, some, length, get_elem?, All, All-append, arith,
  Bool-cases,
}
use loadgen.Platform.Assoc.{insert, lookup-insert}
use loadgen.Platform.Queue.{
  channel_capacity, Message, Subscription, Queue, subscriptions, offer, offer_all, publish, sent,
  subscribe, at_position, consume, QueueEvent, publishes, subscribes, consumes, cancels, step, run,
}
use loadgen.Platform.Queue.Delivery.{
  all_published, seen, IsDelivered, seen-IsDelivered, IsDelivered-trans, unchanged-IsDelivered,
}

module _ {R : Type 0} where
  abbrev IsOpen : Subscription R → Type 0
  IsOpen sub = sub.closed ≡ false

  -- The subscription at a position of a topic's list.
  abbrev pub sub_at : String → ℕ → Queue R → Option (Subscription R)
  sub_at t i q = get_elem? (subscriptions t q) i

  -- No subscription to the topic is closed.
  abbrev pub AllOpen : String → Queue R → Type 0
  AllOpen t q = All IsOpen (subscriptions t q)

  abbrev pub KeepsOpen : String → QueueEvent R → Type 0
  KeepsOpen t (cancels u j) = str_eq u t ≡ false
  KeepsOpen t _ = Unit {0}

  subscriptions-insert :
      (t u : String) (subs : List (Subscription R)) (q : Queue R)
      → subscriptions t (insert u subs q) ≡ (if str_eq u t then subs else subscriptions t q)
  subscriptions-insert t u subs q = ground (arith, lookup-insert t u subs q)

  offer_all_open :
      (msg : Message R) (subs : List (Subscription R))
      → All IsOpen subs
      → offer_all msg subs ≡ (sent, map (offer msg) subs)
  unfolding offer_all
  offer_all_open msg [] h = refl
  offer_all_open msg (sub ∷ subs) h = rw (h.0, offer_all_open msg subs h.1)

  get_elem?-map :
      (f : Subscription R → Subscription R) (subs : List (Subscription R)) (i : ℕ)
      {sub : Subscription R}
      → get_elem? subs i ≡ some sub
      → get_elem? (map f subs) i ≡ some (f sub)
  get_elem?-map f [] i h = cc
  get_elem?-map f (s ∷ subs) zero h = cc
  get_elem?-map f (s ∷ subs) (suc i) h = get_elem?-map f subs i h

  get_elem?-append :
      (subs more : List (Subscription R)) (i : ℕ) {sub : Subscription R}
      → get_elem? subs i ≡ some sub
      → get_elem? (subs ++ more) i ≡ some sub
  get_elem?-append [] more i h = cc
  get_elem?-append (s ∷ subs) more zero h = h
  get_elem?-append (s ∷ subs) more (suc i) h = get_elem?-append subs more i h

  get_elem?-at_position :
      (f : Subscription R → Subscription R) (subs : List (Subscription R)) (j i : ℕ)
      {sub : Subscription R}
      → get_elem? subs i ≡ some sub
      → get_elem? (at_position j f subs) i ≡ some (if j == i then f sub else sub)
  unfolding at_position
  get_elem?-at_position f [] j i h = cc
  get_elem?-at_position f (s ∷ subs) zero zero h = cc
  get_elem?-at_position f (s ∷ subs) zero (suc i) h = ground arith
  get_elem?-at_position f (s ∷ subs) (suc j) zero h = ground arith
  get_elem?-at_position f (s ∷ subs) (suc j) (suc i) {sub} h =
      ground (arith, get_elem?-at_position f subs j i {sub = sub} h)

  offers-AllOpen :
      (msg : Message R) (subs : List (Subscription R))
      → All IsOpen subs
      → All IsOpen (map (offer msg) subs)
  unfolding offer
  offers-AllOpen msg [] h = tt
  offers-AllOpen msg (s ∷ subs) h = (ground arith, offers-AllOpen msg subs h.1)

  consumes-AllOpen :
      (j : ℕ) (subs : List (Subscription R))
      → All IsOpen subs
      → All IsOpen (at_position j consume subs)
  unfolding at_position consume
  consumes-AllOpen j [] h = tt
  consumes-AllOpen zero (s ∷ subs) h = (ground arith, h.1)
  consumes-AllOpen (suc j) (s ∷ subs) h = (h.0, consumes-AllOpen j subs h.1)

  -- One event leaves the topic open, and shows the subscription what it takes part in.
  record IsSeen (t : String) (i : ℕ) (e : QueueEvent R) (sub : Subscription R) (q : Queue R)
      : Type 0 where
    still_open : AllOpen t q
    found : sub_at t i q ≡ some (seen t i e sub)

  module _ (t : String) (i : ℕ) where
    -- A write of a topic's list, seen from the topic `t`.
    insert-IsSeen :
        (u : String) (e : QueueEvent R) (sub : Subscription R) (q : Queue R)
        (subs : List (Subscription R))
        → AllOpen t q
        → sub_at t i q ≡ some sub
        → (str_eq u t ≡ true → All IsOpen subs × (get_elem? subs i ≡ some (seen t i e sub)))
        → (str_eq u t ≡ false → seen t i e sub ≡ sub)
        → IsSeen t i e sub (insert u subs q)
    insert-IsSeen u e sub q subs o h here elsewhere = elim (Bool-cases (str_eq u t)) [
      | inl p ↦
          let eq : subscriptions t (insert u subs q) ≡ subs =
            subscriptions-insert t u subs q ∙ ap (λ b. if b then subs else subscriptions t q) p in
          record {
            still_open = subst (All IsOpen) (sym eq) (here p).0;
            found = ap (λ l. get_elem? l i) eq ∙ (here p).1;
          }
      | inr p ↦
          let eq : subscriptions t (insert u subs q) ≡ subscriptions t q =
            subscriptions-insert t u subs q ∙ ap (λ b. if b then subs else subscriptions t q) p in
          record {
            still_open = subst (All IsOpen) (sym eq) o;
            found = ap (λ l. get_elem? l i) eq ∙ h ∙ ap some (sym (elsewhere p));
          }
    ]

    step-IsSeen :
        (e : QueueEvent R) (sub : Subscription R) (q : Queue R)
        → KeepsOpen t e
        → AllOpen t q
        → sub_at t i q ≡ some sub
        → IsSeen t i e sub (step e q)
    unfolding step publish subscribe
    step-IsSeen (publishes u none) sub q k o h = record { still_open = o; found = h }
    step-IsSeen (publishes u (some raw)) sub q k o h =
        insert-IsSeen u (publishes u (some raw)) sub q _ o h
          (λ p.
            let eq : subscriptions u q ≡ subscriptions t q = rw ((eq_iff u t).0 p) in
            rw (eq, offer_all_open _ (subscriptions t q) o, p)
              (offers-AllOpen _ _ o, get_elem?-map _ _ i h))
          (λ p. rw p)
    step-IsSeen (subscribes u) sub q k o h =
        insert-IsSeen u (subscribes u) sub q _ o h
          (λ p.
            let eq : subscriptions u q ≡ subscriptions t q = rw ((eq_iff u t).0 p) in
            rw eq (All-append IsOpen _ _ o (refl, tt), get_elem?-append _ _ i h))
          (λ p. refl)
    step-IsSeen (consumes u j) sub q k o h =
        insert-IsSeen u (consumes u j) sub q _ o h
          (λ p.
            let eq : subscriptions u q ≡ subscriptions t q = rw ((eq_iff u t).0 p) in
            rw (eq, p) (consumes-AllOpen j _ o, get_elem?-at_position consume _ j i h))
          (λ p. rw p)
    step-IsSeen (cancels u j) sub q k o h =
        insert-IsSeen u (cancels u j) sub q _ o h (λ p. ground arith) (λ p. refl)

    -- While no subscription to a topic is closed, whatever is published, subscribed and consumed in
    -- whichever order: a subscription keeps its place, its channel never holds more than 256
    -- messages, its handler and its channel together have some of the messages published on the
    -- topic, in their order and each at most once, and all of them if they and the messages in the
    -- channel at the start are at most 256.
    pub run-IsDelivered :
        (es : List (QueueEvent R)) (sub : Subscription R) (q : Queue R)
        → All (KeepsOpen t) es
        → AllOpen t q
        → sub_at t i q ≡ some sub
        → length sub.buffer ≤ channel_capacity
        → (sub' : Subscription R) × (sub_at t i (run es q) ≡ some sub')
          × IsDelivered (all_published t es) sub sub'
    unfolding run
    run-IsDelivered [] sub q k o h b = (sub, h, unchanged-IsDelivered sub b)
    run-IsDelivered (e ∷ es) sub q k o h b =
        let next = step-IsSeen e sub q k.0 o h in
        let first = seen-IsDelivered t i e sub b in
        let (sub', p, rest) =
          run-IsDelivered es (seen t i e sub) (step e q) k.1 next.still_open next.found
            first.bounded in
        (sub', p, IsDelivered-trans first rest)
