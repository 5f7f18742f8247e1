-- ===== src/Shopify/Store/Sorted.antt =====
-- Lists of orders whose ids grow or fall.
use mathlib.Core.List.{reverse, reverse-append}
use loadgen.Base.{ℕ, zero, suc, ◌≤◌, ◌<◌, List, [], ◌∷◌, ◌++◌, All, All-append, take, drop, arith}
use loadgen.Shopify.Types.{Order}

-- The ids grow, or fall, along a list.
abbrev pub Rising : List Order → Type 0
Rising [] = Unit {0}
Rising (o ∷ l) = All (λ (p : Order). o.id < p.id) l × Rising l

abbrev pub Falling : List Order → Type 0
Falling [] = Unit {0}
Falling (o ∷ l) = All (λ (p : Order). p.id < o.id) l × Falling l

abbrev pub Below : ℕ → List Order → Type 0
Below b l = All (λ (o : Order). o.id ≤ b) l

pub Below-mono : (b b' : ℕ) (l : List Order) → b ≤ b' → Below b l → Below b' l
Below-mono b b' [] le h = tt
Below-mono b b' (o ∷ l) le h = (omega (arith, h.0), Below-mono b b' l le h.1)

pub All-drop : (P : Order → Type 0) (n : ℕ) (l : List Order) → All P l → All P (drop n l)
All-drop P zero l h = h
All-drop P (suc n) [] h = tt
All-drop P (suc n) (o ∷ l) h = All-drop P n l h.1

All-take : (P : Order → Type 0) (n : ℕ) (l : List Order) → All P l → All P (take n l)
All-take P zero l h = tt
All-take P (suc n) [] h = tt
All-take P (suc n) (o ∷ l) h = (h.0, All-take P n l h.1)

pub Rising-drop : (n : ℕ) (l : List Order) → Rising l → Rising (drop n l)
Rising-drop zero l h = h
Rising-drop (suc n) [] h = tt
Rising-drop (suc n) (o ∷ l) h = Rising-drop n l h.1

pub Falling-take : (n : ℕ) (l : List Order) → Falling l → Falling (take n l)
Falling-take zero l h = tt
Falling-take (suc n) [] h = tt
Falling-take (suc n) (o ∷ l) h = (All-take (λ p. p.id < o.id) n l h.0, Falling-take n l h.1)

pub Rising-append :
    (b : ℕ) (l : List Order) (o : Order) → Rising l → Below b l → b < o.id → Rising (l ++ (o ∷ []))
Rising-append b [] o h k lt = (tt, tt)
Rising-append b (p ∷ l) o h k lt = (
  All-append (λ q. p.id < q.id) l (o ∷ []) h.0 (omega (arith, k.0), tt),
  Rising-append b l o h.1 k.1 lt,
)

Falling-append :
    (l : List Order) (o : Order)
    → Falling l
    → All (λ (p : Order). o.id < p.id) l
    → Falling (l ++ (o ∷ []))
Falling-append [] o h k = (tt, tt)
Falling-append (p ∷ l) o h k =
    (All-append (λ q. q.id < p.id) l (o ∷ []) h.0 (k.0, tt), Falling-append l o h.1 k.1)

All-reverse : (P : Order → Type 0) (l : List Order) → All P l → All P (reverse l)
All-reverse P [] h = tt
All-reverse P (o ∷ l) h =
    rw (reverse-append (o ∷ []) l)
      (All-append P (reverse l) (o ∷ []) (All-reverse P l h.1) (h.0, tt))

pub Falling-reverse : (l : List Order) → Rising l → Falling (reverse l)
Falling-reverse [] h = tt
Falling-reverse (o ∷ l) h =
    rw (reverse-append (o ∷ []) l)
      (Falling-append (reverse l) o (Falling-reverse l h.1) (All-reverse (λ p. o.id < p.id) l h.0))
