-- ===== src/Harness/Detect/Sound.antt =====
-- What `waitForAlert` takes for a page.
use Prim.Native.String.{String}
use text.Mathlib.Text.{◌==◌ as str_eq}
use loadgen.Base.{
  All, Exists, Exists-map, Bool, false, ◌&&◌, if◌then◌else◌, ◌<◌, ℕ, suc, ◌+◌, ◌*◌, ◌≤◌, ◌≡◌, refl,
  subst, ◌⊎◌, inl, inr, true, List, [], ◌∷◌, Option, none, some, arith, Bool-cases,
}
use loadgen.Harness.Texts.{service_matches}
use loadgen.Harness.Remote.{Alert, Env, second}
use loadgen.Harness.Detect.{
  Baseline, find_count, fired_since, relit, snapshot, detects, pick, look, wait_for_alert, or_empty,
}
use loadgen.Harness.Total.{WillAt, IsLive, poll-WillAt}

module _ {F J X : Type 0} (env : Env F J X) (service : String) where
  -- An alert of the service.
  abbrev pub IsOurs : Alert → Type 0
  IsOurs b = service_matches env.lower b.service_id service ≡ true

  -- An alert of the service with the id of another one.
  abbrev pub is_same : Alert → Alert → Bool
  is_same a b = service_matches env.lower b.service_id service && str_eq b.id a.id

  -- It fired after the start of the injection less a minute.
  abbrev pub IsRecent : ℕ → Alert → Type 0
  IsRecent after a = (t : ℕ) × (a.fired_at ≡ some t) × (after < t + 60 * second)

  -- The list has no alert of the service with its id.
  abbrev pub IsNew : List Alert → Alert → Type 0
  IsNew start a = All (λ b. is_same a b ≡ false) start

  -- It has more occurrences than the alert of the service with its id in the list.
  abbrev pub HasGrown : List Alert → Alert → Type 0
  HasGrown start a = Exists (λ b. (is_same a b ≡ true) × (b.dedup_count < a.dedup_count)) start

  -- What is a page, for the list at the start of the phase.
  abbrev pub IsPage : ℕ → List Alert → Alert → Type 0
  IsPage after start a = IsOurs a × (IsRecent after a ⊎ (IsNew start a ⊎ HasGrown start a))

  -- Nothing, or a page that the last poll listed.
  abbrev pub PageOrNone : ℕ → List Alert → X → Option Alert → Type 0
  PageOrNone after start x none = Unit {0}
  PageOrNone after start x (some a) =
      IsPage after start a
      × ((y : X) × (x ≡ (env.firing y).0) × Exists (λ b. b ≡ a) (or_empty (env.firing y).1))

  -- What the snapshot has under an id comes from the list or from the map before.
  abbrev Counted : Baseline → List Alert → Alert → Option ℕ → Type 0
  Counted base start a none = IsNew start a × (find_count base a.id ≡ none)
  Counted base start a (some n) =
      Exists (λ b. (is_same a b ≡ true) × (b.dedup_count ≡ n)) start
      ⊎ (find_count base a.id ≡ some n)

  Counted-later :
      (b : Alert) (base : Baseline) (rest : List Alert) (a : Alert) (o : Option ℕ)
      → Counted
          (if service_matches env.lower b.service_id service
            then (b.id, b.dedup_count) ∷ base
            else base)
          rest
          a
          o
      → Counted base (b ∷ rest) a o
  Counted-later b base rest a none (new, gone) =
      elim (Bool-cases (service_matches env.lower b.service_id service)) [
        | inl q ↦ ((ground (arith, q, gone), new), ground (arith, q, gone))
        | inr q ↦ ((ground (arith, q), new), ground (arith, q, gone))
      ]
  Counted-later b base rest a (some n) (inl h) = inl (inr h)
  Counted-later b base rest a (some n) (inr h) =
      elim (Bool-cases (service_matches env.lower b.service_id service)) [
        | inl q ↦ elim (Bool-cases (str_eq b.id a.id)) [
          | inl same ↦ inl (inl (ground (arith, q, same), ground (arith, q, same, h)))
          | inr other ↦ inr (ground (arith, q, other, h))
        ]
        | inr q ↦ inr (ground (arith, q, h))
      ]

  unlisted :
      (base : Baseline) (a : Alert) (o : Option ℕ) → find_count base a.id ≡ o → Counted base [] a o
  unlisted base a none e = (tt, e)
  unlisted base a (some n) e = inr e

  snapshot-Counted :
      (start : List Alert) (base : Baseline) (a : Alert)
      → Counted base start a (find_count (snapshot env service base start) a.id)
  unfolding snapshot
  snapshot-Counted [] base a = unlisted base a (find_count base a.id) refl
  snapshot-Counted (b ∷ rest) base a = Counted-later b base rest a _ (snapshot-Counted rest _ a)

  relit_cases :
      (start : List Alert) (a : Alert) (o : Option ℕ)
      → Counted [] start a o
      → relit o a.dedup_count ≡ true
      → IsNew start a ⊎ HasGrown start a
  relit_cases start a none h e = inl h.0
  relit_cases start a (some n) (inl h) e = inr (
      Exists-map (λ b. (is_same a b ≡ true) × (b.dedup_count ≡ n))
        (λ b. (is_same a b ≡ true) × (b.dedup_count < a.dedup_count)) start
        (λ b p. (p.0, ground (arith, p))) h)
  relit_cases start a (some n) (inr h) e = cc

  IsRecent-of_fired_since :
      (after : ℕ) (a : Alert) (o : Option ℕ)
      → a.fired_at ≡ o
      → fired_since o after ≡ true
      → IsRecent after a
  IsRecent-of_fired_since after a none e h = cc
  IsRecent-of_fired_since after a (some t) e h = (t, e, ground arith)

  detects-IsPage :
      (after : ℕ) (start : List Alert) (a : Alert)
      → detects env service after (snapshot env service [] start) a ≡ true
      → IsPage after start a
  unfolding detects
  detects-IsPage after start a e = elim (Bool-cases (fired_since a.fired_at after)) [
    | inl f ↦ (ground arith, inl (IsRecent-of_fired_since after a a.fired_at refl f))
    | inr f ↦
        (ground arith, inr (relit_cases start a _ (snapshot-Counted start [] a) (ground arith)))
  ]

  pick-detects :
      (after : ℕ) (base : Baseline) (found : List Alert) (a : Alert)
      → pick env service after base found ≡ some a
      → (detects env service after base a ≡ true) × Exists (λ b. b ≡ a) found
  unfolding pick
  pick-detects after base [] a e = cc
  pick-detects after base (b ∷ rest) a e = elim (Bool-cases (detects env service after base b)) [
    | inl q ↦
        let same : b ≡ a = ground arith in
        (subst (λ x. detects env service after base x ≡ true) same q, inl same)
    | inr q ↦ let later = pick-detects after base rest a (ground arith) in (later.0, inr later.1)
  ]

  look-PageOrNone :
      (after : ℕ) (start : List Alert) (y : X) (r : Option Alert)
      → (look env service after (snapshot env service [] start) y).1 ≡ some r
      → PageOrNone after start (env.firing y).0 r
  look-PageOrNone after start y none e = tt
  look-PageOrNone after start y (some a) e =
      let base = snapshot env service [] start in
      let found = pick-detects after base (or_empty (env.firing y).1) a (ground arith) in
      (detects-IsPage after start a found.0, (y, refl, found.1))

  -- With fuel for its window, `waitForAlert` returns; and it returns nothing, or an alert of the
  -- service that its last poll listed, and that fired after the given time less a minute, or whose id
  -- is not listed for the service when the phase begins, or that has more occurrences than an alert
  -- of the service with its id had then.
  pub wait_for_alert-PageOrNone :
      (n pause after window : ℕ) (x : X)
      → IsLive env
      → window ≤ n * pause
      → WillAt
          (PageOrNone after (or_empty (env.firing x).1))
          (wait_for_alert env service (suc n) pause after window x)
  unfolding wait_for_alert
  wait_for_alert-PageOrNone n pause after window x live h =
      let start = or_empty (env.firing x).1 in
      let base = snapshot env service [] start in
      poll-WillAt env (PageOrNone after start) n (env.now (env.firing x).0 + window) pause
        (look env service after base) (some none) none (env.firing x).0 live live.firing_mono
        (λ y. tt) (look-PageOrNone after start) (ground arith)
