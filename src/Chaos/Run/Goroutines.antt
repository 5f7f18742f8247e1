-- ===== src/Chaos/Run/Goroutines.antt =====
-- The goroutines of other activations, and campaigns of other types, leave an activation alone.
use Prim.Native.String.{String}
use loadgen.Base.{
  ℕ, zero, suc, ◌+◌, ◌≡◌, ap, refl, Bool-cases, inl, inr, true, false, List, [], ◌∷◌, map, Option,
  none, some, arith, ℤ, All, All-append, any, leb, ltb, length,
}
use loadgen.Base.Float.{Float64}
use loadgen.Chaos.Kind.{Kind, Kind-discrete, memory_leak, ChaosType, known, unknown}
use loadgen.Chaos.State.{
  State, CampaignStep, Task, auto_disable, enable_step, end_campaign, leak, storm, novel, crash,
  World,
}
use loadgen.Chaos.Enable.{enable}
use loadgen.Chaos.Query.{is_active}
use loadgen.Chaos.Campaign.{
  CampaignRequest, start_campaign, check_step, check_steps, normalize_step, delayed, Result, ok,
  err, CampaignError, validate, launch, max_campaign_steps,
}
use loadgen.Chaos.Run.{due, perform, wake_task, pull, is_still, leak_round}
use loadgen.Chaos.Run.Holds.{same, Spares, Holds, enable_spec-Holds, disable-Holds}

-- What a found task and the rest of the list inherit.
abbrev pub Pulled {ℓ} : {A : Type 0} → (A → Type ℓ) → Option (A × List A) → Type ℓ
Pulled P none = Unit
Pulled P (some (t, ts)) = P t × All P ts

Pulled-cons {ℓ} :
    {A : Type 0} (P : A → Type ℓ) (t : A) (o : Option (A × List A))
    → P t
    → Pulled P o
    → Pulled P (elim o [ none ↦ none | some (u, us) ↦ some (u, t ∷ us) ])
Pulled-cons P t none h p = tt
Pulled-cons P t (some (u, us)) h p = (p.0, (h, p.1))

pub pull-All {ℓ} :
    {A : Type 0} (P : A → Type ℓ) (i : ℕ) (ts : List A) → All P ts → Pulled P (pull i ts)
unfolding pull
pull-All P i [] h = tt
pull-All P zero (t ∷ ts) h = h
pull-All P (suc i) (t ∷ ts) h = Pulled-cons P t (pull i ts) h.0 (pull-All P i ts h.1)

abbrev Checked :
    {F : Type 0}
    → (Task F → Type 0)
    → (CampaignStep F → Task F)
    → Result (List (CampaignStep F))
    → Type 0
Checked P f (ok ss) = All P (map f ss)
Checked P f (err e) = Unit

module _ {F : Type 0} ⦃d : Float64 F⦄ (k : Kind) (s : State F) where
  check_steps-spared :
      (now i : ℕ) (ss : List (CampaignStep F))
      → any (λ t. same k t.type) ss ≡ false
      → Checked (Spares k s.started_at) (delayed now) (check_steps i ss)
  unfolding check_steps normalize_step
  check_steps-spared now i [] e = tt
  check_steps-spared now i (c ∷ ss) e =
      go c.type refl (check_steps (i + 1) ss) (check_steps-spared now (i + 1) ss (ground arith))
    where
      go :
          (ct : ChaosType)
          → c.type ≡ ct
          → (r : Result (List (CampaignStep F))) → Checked (Spares k s.started_at) (delayed now) r
          → Checked (Spares k s.started_at) (delayed now) (check_step i ct c r)
      go (unknown name) t r p = tt
      go (known j) t (err x) p = tt
      go (known j) t (ok rest) p = (ground arith, p)

  still_same :
      (ct : ChaosType) (started due : ℕ) (w : World F)
      → Spares {F = F} k s.started_at (auto_disable ct started due)
      → Holds k s w
      → is_still w ct started ≡ true
      → same k ct ≡ false
  unfolding is_still
  still_same (unknown name) started due w sp h e = refl
  still_same (known j) started due w sp h e = elim (Kind-discrete k j) [
    | yes p ↦ ground (arith, h.entry, ap w.states p)
    | no p ↦ ground arith
  ]

  leak_round-Holds :
      (size : ℤ) (left : ℕ) (pause : ℤ) (w : World F)
      → Holds k s w
      → Holds k s (leak_round size left pause w)
  unfolding leak_round
  leak_round-Holds size zero pause w h = h
  leak_round-Holds size (suc left) pause w h = elim (Bool-cases (is_active w (known memory_leak))) [
    | inl e ↦
        rw (e, leak_round)
          (record { entry = h.entry; spared = All-append _ w.tasks _ h.spared (refl, tt) })
    | inr e ↦ rw (e, leak_round) h
  ]

  perform-Holds :
      (t : Task F) (w : World F) → Spares k s.started_at t → Holds k s w → Holds k s (perform t w)
  unfolding perform
  perform-Holds (auto_disable ct started due) w sp h = elim (Bool-cases (is_still w ct started)) [
    | inl e ↦ rw (e, perform) (disable-Holds k s ct w (still_same ct started due w sp h e) h)
    | inr e ↦ rw (e, perform) h
  ]
  perform-Holds (enable_step c due) w sp h =
      unfold enable in enable_spec-Holds k s _ w (ground arith) h
  perform-Holds (leak size left pause due) w sp h = leak_round-Holds size left pause w h
  perform-Holds (end_campaign id due) w sp h = record { entry = h.entry; spared = h.spared }
  perform-Holds (storm n due) w sp h = h
  perform-Holds (novel n due) w sp h = h
  perform-Holds (crash due) w sp h = record { entry = h.entry; spared = h.spared }

  pub wake_task-Holds :
      (o : Option (Task F × List (Task F))) (w : World F)
      → Pulled (Spares k s.started_at) o
      → Holds k s w
      → Holds k s (wake_task o w)
  unfolding wake_task
  wake_task-Holds none w p h = h
  wake_task-Holds (some (t, ts)) w p h = elim (Bool-cases (leb (due t) w.now)) [
    | inl e ↦
        rw e
          (perform-Holds t (record w { tasks = ts }) p.0 (record { entry = h.entry; spared = p.1 }))
    | inr e ↦ rw e h
  ]

  validate-spared :
      (now : ℕ) (req : CampaignRequest F)
      → any (λ c. same k c.type) req.steps ≡ false
      → Checked (Spares k s.started_at) (delayed now) (validate req)
  unfolding validate
  validate-spared now req e = elim (Bool-cases (leb (length req.steps) 0)) [
    | inl a ↦ rw a tt
    | inr a ↦ rw a (elim (Bool-cases (ltb max_campaign_steps (length req.steps))) [
      | inl b ↦ rw b tt
      | inr b ↦ rw b (check_steps-spared now 0 req.steps e)
    ])
  ]

  launch-Holds :
      (name : ℕ → String) (req : CampaignRequest F) (w : World F)
      (r : Result (List (CampaignStep F)))
      → Checked (Spares k s.started_at) (delayed w.now) r
      → Holds k s w
      → Holds k s
          (elim r as (λ r. World F × Option CampaignError) [
            | err e ↦ (w, some e)
            | ok steps ↦ (launch name req steps w, none)
          ]).0
  unfolding launch
  launch-Holds name req w (err x) p h = h
  launch-Holds name req w (ok steps) p h = elim (Bool-cases req.dry_run) [
    | inl e ↦ rw e (record { entry = h.entry; spared = h.spared })
    | inr e ↦ rw e (record {
      entry = h.entry;
      spared =
          All-append _ w.tasks _ h.spared (All-append _ (map (delayed w.now) steps) _ p (refl, tt));
    })
  ]

  pub start_campaign-Holds :
      (name : ℕ → String) (req : CampaignRequest F) (w : World F)
      → any (λ c. same k c.type) req.steps ≡ false
      → Holds k s w
      → Holds k s (start_campaign name req w).0
  unfolding start_campaign
  start_campaign-Holds name req w e h =
      launch-Holds name req w (validate req) (validate-spared w.now req e) h
