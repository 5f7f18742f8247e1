-- ===== src/Chaos/Enable/Lifetime.antt =====
-- How long a fault lives, and what a request for one type does to the others.
use loadgen.Base.{
  ℕ, ◌+◌, ◌≡◌, ◌∙◌, ap, refl, ◌≢◌, Bool, true, false, if◌then◌else◌, arith, pos_part, leb,
}
use loadgen.Base.Float.{Float64}
use loadgen.Chaos.Kind.{Kind, known}
use loadgen.Chaos.State.{Spec, World}
use loadgen.Chaos.Spec.{normalize, normalize_duration}
use loadgen.Chaos.Spec.Range.{normalize_duration_bounds}
use loadgen.Chaos.Enable.{enable_type, enable_spec, cleared, disable}
use loadgen.Chaos.Enable.Frame.{
  entry, put_self, put_other, states-enable_type, enable_type-Frame, states-disable,
}
use loadgen.Chaos.Query.{is_active}

module _ {F : Type 0} ⦃d : Float64 F⦄ where
  -- The world as it is `n` nanoseconds later, if nothing else happens.
  abbrev pub later : ℕ → World F → World F
  later n w = record w { now = w.now + n }

  is_active_of_entry :
      (spec : Spec F) (w : World F) (k : Kind) (start n : ℕ)
      → w.states k ≡ entry spec start
      → w.now ≡ start + n
      → is_active w (known k) ≡ (
          if spec.sticky
          then true
          else (if leb (pos_part spec.duration) 0 then true else leb n (pos_part spec.duration)))
  unfolding is_active
  is_active_of_entry spec w k start n e t = ground arith

  type-normalize : (spec : Spec F) → (normalize spec).type ≡ spec.type
  unfolding normalize
  type-normalize spec = refl

  abbrev lives : Spec F → ℕ → Bool
  lives spec n = if spec.sticky then true else leb n (pos_part (normalize_duration spec.duration))

  lives_lem :
      (spec : Spec F) (n : ℕ)
      → (if spec.sticky
          then true
          else (if leb (pos_part (normalize spec).duration) 0
              then true
              else leb n (pos_part (normalize spec).duration)))
        ≡ lives spec n
  unfolding normalize
  lives_lem spec n = ground (arith, normalize_duration_bounds spec.duration)

  -- If nothing else happens, a fault is active for exactly its normalized duration after
  -- `EnableSpec`, and for ever where it is sticky.
  pub enable_spec-is_active :
      (spec : Spec F) (k : Kind) (w : World F) (n : ℕ)
      → spec.type ≡ known k
      → is_active (later n (enable_spec spec w)) (known k)
        ≡ (if spec.sticky then true else leb n (pos_part (normalize_duration spec.duration)))
  unfolding enable_spec normalize
  enable_spec-is_active spec k w n e =
      let s = normalize spec in
      let w' = enable_type s (known k) w in
      ap (λ ct. is_active (later n (enable_type s ct w)) (known k)) (type-normalize spec ∙ e)
      ∙ is_active_of_entry s (later n w') k w.now n
          (states-enable_type s k k w ∙ put_self w.states k (entry s w.now))
          (ap (λ t. t + n) (enable_type-Frame s k w).0)
      ∙ lives_lem spec n

  -- `EnableSpec` for one type leaves the entries of the others alone.
  pub enable_spec_others :
      (spec : Spec F) (k j : Kind) (w : World F)
      → spec.type ≡ known k
      → k ≢ j
      → (enable_spec spec w).states j ≡ w.states j
  unfolding enable_spec normalize
  enable_spec_others spec k j w e ne =
      let s = normalize spec in
      ap (λ ct. (enable_type s ct w).states j) (type-normalize spec ∙ e)
      ∙ states-enable_type s k j w
      ∙ put_other w.states k (entry s w.now) j ne

  -- `Disable` ends the fault of its type, whatever its duration and whether or not it is sticky,
  -- and leaves the entries of the other types alone.
  pub disable-is_active :
      (k : Kind) (w : World F)
      → (is_active (disable (known k) w) (known k) ≡ false)
        × ((j : Kind) → k ≢ j → (disable (known k) w).states j ≡ w.states j)
  unfolding is_active
  disable-is_active k w = (
    ground (arith, states-disable k k w, put_self w.states k (cleared (w.states k))),
    λ j ne. states-disable k j w ∙ put_other w.states k (cleared (w.states k)) j ne,
  )
