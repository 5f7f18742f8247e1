-- ===== src/Shopify/Incident/Expiry.antt =====
-- How long an incident lasts, and what the timer of an earlier request does to a later one.
use Prim.Native.String.{String}
use loadgen.Base.{
  ℕ, ◌+◌, ◌≤◌, ◌≡◌, refl, true, false, [], ◌∷◌, ◌++◌, ℤ, pos, pos_part, leb, ◌≤ℤ◌, arith,
}
use loadgen.Base.Float.{Float64, IsIeee, IsNumber, IsUnit}
use loadgen.Shopify.Incident.{
  Shop, Timer, ends_incident, IncidentRequest, clamp01, incident_duration, enable_incident,
  incident_active, post_incident, disable_incident, fire, max_incident_duration, or_default,
}

module _ {F : Type 0} ⦃d : Float64 F⦄ where
  abbrev pub later : ℕ → Shop F → Shop F
  later n s = record s { now = s.now + n }

  abbrev pub lasting : IncidentRequest F → ℤ
  lasting req = incident_duration req.duration_seconds 300_000

  -- If nothing else happens, a meltdown is active for exactly its clipped duration after the
  -- request, if that is a positive time, and its duration is at most 15 minutes.
  pub post_incident-active :
      (first : String) (req : IncidentRequest F) (s : Shop F) (n : ℕ)
      → pos 1 ≤ℤ lasting req
      → ((incident_active (later n (post_incident first req s))).0 ≡ leb n (pos_part (lasting req)))
        × (lasting req ≤ℤ max_incident_duration)
  unfolding post_incident enable_incident incident_active
  post_incident-active first req s n h = (ground arith, ground arith)

  -- The timer for the end of a request that comes now.
  abbrev pub timer_of : IncidentRequest F → Shop F → Timer
  timer_of req s = ends_incident (s.now + pos_part (lasting req))

  -- Each request starts a timer for its own end and leaves the earlier ones. So if a second meltdown
  -- is requested `n` nanoseconds after a first one, then both timers are pending; and if the first
  -- one's goes off while the second meltdown has not lasted its time, it ends the second one: it is
  -- active before, and not after.
  pub fire-post_incident :
      (first : String) (a b : IncidentRequest F) (s : Shop F) (n m : ℕ)
      → pos 1 ≤ℤ lasting b
      → pos_part (lasting a) ≤ n + m
      → m ≤ pos_part (lasting b)
      → let two = later m (post_incident first b (later n (post_incident first a s))) in
        (two.timers ≡ (s.timers ++ (timer_of a s ∷ [])) ++ (timer_of b (later n s) ∷ []))
        × ((incident_active two).0 ≡ true)
        × ((incident_active (fire (timer_of a s) two)).0 ≡ false)
  unfolding post_incident enable_incident incident_active fire disable_incident
  fire-post_incident first a b s n m h k l = (refl, ground arith, ground arith)

  -- No field of a request is NaN.
  pub record IsPlain (req : IncidentRequest F) : Type 0 where
    pub decline : IsNumber req.decline_fraction
    pub cancel : IsNumber req.cancel_boost
    pub refund : IsNumber req.refund_boost

module _ {F : Type 0} ⦃d : Float64 F⦄ (laws : IsIeee F) where
  open laws use {number_of_le, number_of_lt, lt-eq-not-le, le_total, lit_le}

  clamp01-IsUnit : (v : F) → IsNumber v → IsUnit (clamp01 v)
  unfolding clamp01
  clamp01-IsUnit v n = ground (
    arith,
    lt-eq-not-le v (d.lit 0),
    lt-eq-not-le (d.lit 1000) v,
    number_of_le (d.lit 0) (d.lit 0),
    number_of_le (d.lit 1000) (d.lit 1000),
    lit_le 0 0 (omega arith),
    lit_le 0 1000 (omega arith),
    lit_le 1000 1000 (omega arith),
  )

  or_default-IsNumber : (x : F) (n : ℕ) → IsNumber x → IsNumber (or_default x n)
  or_default-IsNumber x n h = ground (arith, lit_le n n (omega arith))

  -- For a request without a NaN, the fractions that the emitter reads are between 0 and 1, whenever
  -- it reads them.
  pub post_incident-IsUnit :
      (first : String) (req : IncidentRequest F) (s : Shop F) (n : ℕ)
      → IsPlain req
      → let read = incident_active (later n (post_incident first req s)) in
        IsUnit read.2 × IsUnit read.3 × IsUnit read.4
  unfolding post_incident enable_incident incident_active
  post_incident-IsUnit first req s n p =
      let zero_unit : IsUnit (d.lit 0) = (lit_le 0 0 (omega arith), lit_le 0 1000 (omega arith)) in
      let dec = clamp01-IsUnit _ (or_default-IsNumber req.decline_fraction 600 p.decline) in
      let can = clamp01-IsUnit _ (or_default-IsNumber req.cancel_boost 250 p.cancel) in
      let ref = clamp01-IsUnit _ (or_default-IsNumber req.refund_boost 200 p.refund) in
      ground (arith, zero_unit, dec, can, ref)
