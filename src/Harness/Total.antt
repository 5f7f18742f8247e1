-- ===== src/Harness/Total.antt =====
-- What the polling loops come to on an outside whose clock moves and whose context is not cancelled.
use Prim.Native.String.{String}
use loadgen.Base.{
  ℕ, zero, suc, ◌+◌, ◌*◌, ◌≤◌, ◌≡◌, refl, true, Bool-cases, inl, inr, Option, none, some, arith,
  ltb, Option-cases,
}
use loadgen.Harness.Remote.{Env, M, ◌>>=◌, sleep_ctx, poll}

-- The computation gives a result, and the result is as described.
abbrev pub Will : {X A : Type 0} → (A → Type 0) → Option (X × A) → Type 0
Will P none = ⊥
Will P (some (x, a)) = P a

-- The same, where what is described depends on the state of the outside at the end.
abbrev pub WillAt : {X A : Type 0} → (X → A → Type 0) → Option (X × A) → Type 0
WillAt P none = ⊥
WillAt P (some (x, a)) = P x a

pub Will-forget :
    {X A : Type 0} (P : X → A → Type 0) (o : Option (X × A)) → WillAt P o → Will (λ a. Unit {0}) o
Will-forget P none h = h
Will-forget P (some (x, a)) h = tt

pub Will-next :
    {X A B : Type 0} (P : A → Type 0) (Q : B → Type 0) (o : Option (X × A)) (f : A → M X B)
    → Will P o
    → ((a : A) (y : X) → P a → Will Q (f a y))
    → Will Q (elim o as (λ o. Option (X × B)) [ none ↦ none | some (y, a) ↦ f a y ])
Will-next P Q none f h k = elim h [ ]
Will-next P Q (some (y, a)) f h k = k a y h

pub Will-bind :
    {X A B : Type 0} (P : A → Type 0) (Q : B → Type 0) (m : M X A) (f : A → M X B) (x : X)
    → Will P (m x)
    → ((a : A) (y : X) → P a → Will Q (f a y))
    → Will Q ((m >>= f) x)
unfolding ◌>>=◌
Will-bind P Q m f x h k = Will-next P Q (m x) f h k

module _ {F J X : Type 0} (env : Env F J X) where
  -- The context is not cancelled, a sleep takes its time, and no call turns the clock back.
  pub record IsLive : Type 0 where
    pub not_cancelled : (n : ℕ) (x : X) → (env.wait n x).1 ≡ true
    pub wait_ticks : (n : ℕ) (x : X) → env.now x + n ≤ env.now (env.wait n x).0
    pub saturation_mono : (x : X) → env.now x ≤ env.now (env.saturation x).0
    pub firing_mono : (x : X) → env.now x ≤ env.now (env.firing x).0
    pub latest_rca_mono : (s : String) (x : X) → env.now x ≤ env.now (env.latest_rca s x).0
    pub status_mono : (s : String) (x : X) → env.now x ≤ env.now (env.status s x).0
    pub anomalies_mono : (x : X) → env.now x ≤ env.now (env.anomalies x).0

  pub sleep_ctx_live : IsLive → (n : ℕ) (x : X) → (sleep_ctx env n x).1 ≡ true
  unfolding sleep_ctx
  sleep_ctx_live live zero x = refl
  sleep_ctx_live live (suc n) x = live.not_cancelled (suc n) x

  pub sleep_ctx_ticks : IsLive → (n : ℕ) (x : X) → env.now x + n ≤ env.now (sleep_ctx env n x).0
  unfolding sleep_ctx
  sleep_ctx_ticks live zero x = omega arith
  sleep_ctx_ticks live (suc n) x = live.wait_ticks (suc n) x

  poll_step :
      {R : Type 0} (P : X → R → Type 0) (fuel deadline pause : ℕ) (body : X → X × Option R)
      (cancelled : Option R) (late : R) (x : X)
      → IsLive
      → ((y : X) → P y late)
      → ((y : X) (r : R) → (body y).1 ≡ some r → P (body y).0 r)
      → (ltb (env.now x) deadline ≡ true
          → WillAt P
              (poll env fuel deadline pause body cancelled late (sleep_ctx env pause (body x).0).0))
      → WillAt P (poll env (suc fuel) deadline pause body cancelled late x)
  unfolding poll
  poll_step P fuel deadline pause body cancelled late x live pl pb again =
      elim (Bool-cases (ltb (env.now x) deadline)) [
        | inr e ↦ rw (e, WillAt) (pl x)
        | inl e ↦
            rw (e, WillAt)
              (elim (Option-cases (body x).1) [
                | inr (r, q) ↦ rw (q, WillAt) (pb x r q)
                | inl q ↦
                    rw (q, WillAt) (rw (sleep_ctx_live live pause (body x).0, WillAt) (again e))
              ])
      ]

  -- A polling loop gives a result if its fuel covers its time by the pauses, and the result is one
  -- that a poll gave, or the one for a passed deadline.
  pub poll-WillAt :
      {R : Type 0} (P : X → R → Type 0) (n deadline pause : ℕ) (body : X → X × Option R)
      (cancelled : Option R) (late : R) (x : X)
      → IsLive
      → ((y : X) → env.now y ≤ env.now (body y).0)
      → ((y : X) → P y late)
      → ((y : X) (r : R) → (body y).1 ≡ some r → P (body y).0 r)
      → deadline ≤ env.now x + n * pause
      → WillAt P (poll env (suc n) deadline pause body cancelled late x)
  poll-WillAt P zero deadline pause body cancelled late x live mono pl pb h =
      poll_step P zero deadline pause body cancelled late x live pl pb (λ e. ground arith)
  poll-WillAt P (suc n) deadline pause body cancelled late x live mono pl pb h =
      let y = (body x).0 in
      poll_step P (suc n) deadline pause body cancelled late x live pl pb (λ e.
        poll-WillAt P n deadline pause body cancelled late (sleep_ctx env pause y).0 live mono pl pb
          (ground (arith, mono x, sleep_ctx_ticks live pause y, h)))
