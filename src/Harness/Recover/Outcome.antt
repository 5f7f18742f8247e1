-- ===== src/Harness/Recover/Outcome.antt =====
-- What a recovery rests on, and which kill switches are thrown at the end of a run.
use Prim.Native.String.{String}
use text.Mathlib.Text.{◌==◌ as str_eq}
use text.Mathlib.TextEquality.{eq_iff}
use text.Mathlib.TextPositions.{eq_refl}
use loadgen.Base.{
  ℕ, suc, ◌+◌, ◌*◌, ◌≤◌, ◌≡◌, refl, subst, true, false, ◌||◌, if◌then◌else◌, List, [], ◌∷◌, Option,
  none, some, arith, Bool-cases, Option-cases, inl, inr, map,
}
use loadgen.Harness.Scenario.{Scenario, Injection, ExpectRemediation}
use loadgen.Harness.Remote.{Alert, Env, window_or, second}
use loadgen.Harness.Recover.{
  Remedied, recovered, not_approved, not_dispatched, interrupted, still_faulty, id_of, is_in,
  any_fault_active, recovery_target, poll_recovery, await_recovery, run_remediation, kill_target,
  kill_each, kill_all,
}
use loadgen.Harness.Total.{WillAt, IsLive, poll-WillAt}

module _ {F J X : Type 0} (env : Env F J X) (targets : String → Option String) where
  -- A recovery was seen: the last thing that was done is a GET of the status of the target, with the
  -- answer that no fault is active. A target without a URL is not looked at.
  abbrev pub Answered : Option String → X → Type 0
  Answered none x = Unit {0}
  Answered (some base) x =
      (y : X) × (x ≡ (env.status base y).0) × ((env.status base y).1 ≡ some false)

  abbrev pub Seen : String → X → Remedied → Type 0
  Seen target x recovered = Answered (targets target) x
  Seen target x _ = Unit {0}

  poll_recovery-Answered :
      (target : String) (y : X) (o : Option String)
      → targets target ≡ o
      → (poll_recovery env targets target y).1 ≡ some recovered
      → Answered o (poll_recovery env targets target y).0
  unfolding any_fault_active
  poll_recovery-Answered target y none q e = tt
  poll_recovery-Answered target y (some base) q e = (y, ground arith, ground arith)

  any_fault_active_mono :
      (target : String) (y : X)
      → IsLive env
      → env.now y ≤ env.now (any_fault_active env targets target y).0
  unfolding any_fault_active
  any_fault_active_mono target y live = elim (Option-cases (targets target)) [
    | inl q ↦ rw (q, any_fault_active) (omega arith)
    | inr (base, q) ↦ rw (q, any_fault_active) (live.status_mono base y)
  ]

  poll_recovery-Seen :
      (target : String) (y : X) (r : Remedied)
      → (poll_recovery env targets target y).1 ≡ some r
      → Seen target (poll_recovery env targets target y).0 r
  poll_recovery-Seen target y recovered e = poll_recovery-Answered target y (targets target) refl e
  poll_recovery-Seen target y _ e = tt

  await_recovery-Seen :
      (n : ℕ) (target : String) (within : ℕ) (x : X)
      → IsLive env
      → within ≤ n * (5 * second)
      → WillAt (Seen target) (await_recovery env targets (suc n) target within x)
  unfolding await_recovery
  await_recovery-Seen n target within x live h =
      poll-WillAt env (Seen target) n (env.now x + within) (5 * second)
        (poll_recovery env targets target) (some interrupted) still_faulty x live
        (λ y. any_fault_active_mono target y live) (λ z. tt) (poll_recovery-Seen target)
        (ground arith)

  -- With fuel for its window, the remediation phase returns; and where it reports a recovery of a
  -- target that has a URL, its last act was a GET of the target's status, which was answered, and with
  -- no active fault.
  pub run_remediation-Seen :
      (n : ℕ) (sc : Scenario F J) (rem : ExpectRemediation) (detected : Option Alert) (x : X)
      → IsLive env
      → window_or (300 * second) rem.recovers_within_seconds ≤ n * (5 * second)
      → WillAt
          (Seen (recovery_target env targets sc rem))
          (run_remediation env targets (suc n) sc rem detected x)
  unfolding run_remediation
  run_remediation-Seen n sc rem detected x live h =
      let (y, triggered) = env.trigger_runbook rem.runbook_id (id_of detected) sc.id x in
      elim (Option-cases triggered) [
        | inl q ↦ rw (q, WillAt) tt
        | inr (action, q) ↦ rw (q, WillAt) (approved action y)
      ]
    where
      approved :
          (action : String) (y : X)
          → WillAt (Seen (recovery_target env targets sc rem)) (elim (env.approve action y).1 [
            | none ↦ some ((env.approve action y).0, not_approved)
            | some resume ↦ elim (str_eq resume "runbook_dispatched") [
              | false ↦ some ((env.approve action y).0, not_dispatched)
              | true ↦
                  await_recovery env targets
                    (suc n)
                    (recovery_target env targets sc rem)
                    (window_or (300 * second) rem.recovers_within_seconds)
                    (env.approve action y).0
            ]
          ])
      approved action y = elim (Option-cases (env.approve action y).1) [
        | inl q ↦ rw (q, WillAt) tt
        | inr (resume, q) ↦
            rw (q, WillAt)
              (elim (Bool-cases (str_eq resume "runbook_dispatched")) [
                | inr e ↦ rw (e, WillAt) tt
                | inl e ↦
                    rw (e, WillAt)
                      (await_recovery-Seen n (recovery_target env targets sc rem) _ _ live h)
              ])
      ]

  -- The targets of the injections in the order of their first mention.
  abbrev pub first_mentions : List String → List (Injection F J) → List String
  first_mentions seen [] = []
  first_mentions seen (inj ∷ rest) =
      if is_in inj.target seen
      then first_mentions seen rest
      else inj.target ∷ first_mentions (inj.target ∷ seen) rest

  abbrev pub kill_in_turn : List String → X → X
  kill_in_turn [] x = x
  kill_in_turn (t ∷ ts) x = kill_in_turn ts (kill_target env targets t x)

  kill_each_lem :
      (seen : List String) (injs : List (Injection F J)) (x : X)
      → kill_each env targets seen injs x ≡ kill_in_turn (first_mentions seen injs) x
  unfolding kill_each
  kill_each_lem seen [] x = refl
  kill_each_lem seen (inj ∷ rest) x = elim (Bool-cases (is_in inj.target seen)) [
    | inl e ↦ rw e (kill_each_lem seen rest x)
    | inr e ↦ rw e (kill_each_lem (inj.target ∷ seen) rest (kill_target env targets inj.target x))
  ]

  is_in_same :
      (seen : List String) (s t : String)
      → is_in s seen ≡ true
      → str_eq s t ≡ true
      → is_in t seen ≡ true
  is_in_same seen s t h e = subst (λ u. is_in u seen ≡ true) ((eq_iff s t).0 e) h

  first_mentions_all :
      (seen : List String) (injs : List (Injection F J)) (t : String)
      → (is_in t seen || is_in t (first_mentions seen injs))
        ≡ (is_in t seen || is_in t (map (λ inj. inj.target) injs))
  first_mentions_all seen [] t = refl
  first_mentions_all seen (inj ∷ rest) t = ground (
    arith,
    first_mentions_all seen rest t,
    first_mentions_all (inj.target ∷ seen) rest t,
    is_in_same seen inj.target t,
  )

  abbrev pub AllDifferent : List String → Type 0
  AllDifferent [] = Unit {0}
  AllDifferent (s ∷ ss) = (is_in s ss ≡ false) × AllDifferent ss

  first_mentions_new :
      (seen : List String) (injs : List (Injection F J)) (t : String)
      → is_in t seen ≡ true
      → is_in t (first_mentions seen injs) ≡ false
  first_mentions_new seen [] t h = refl
  first_mentions_new seen (inj ∷ rest) t h = elim (Bool-cases (is_in inj.target seen)) [
    | inl e ↦ rw e (first_mentions_new seen rest t h)
    | inr e ↦ rw e (
        ground (
          arith,
          first_mentions_new (inj.target ∷ seen) rest t,
          is_in_same seen t inj.target h,
          (eq_iff inj.target t).0,
          (eq_iff t inj.target).1,
        ))
  ]

  first_mentions_different :
      (seen : List String) (injs : List (Injection F J)) → AllDifferent (first_mentions seen injs)
  first_mentions_different seen [] = tt
  first_mentions_different seen (inj ∷ rest) = elim (Bool-cases (is_in inj.target seen)) [
    | inl e ↦ rw e (first_mentions_different seen rest)
    | inr e ↦ rw e (
      first_mentions_new (inj.target ∷ seen) rest inj.target (ground (arith, eq_refl inj.target)),
      first_mentions_different (inj.target ∷ seen) rest,
    )
  ]

  -- `killAll` throws the kill switch of each target of the scenario once, and of no other.
  pub kill_all_once :
      (sc : Scenario F J) (x : X)
      → (ts : List String) × (kill_all env targets sc x ≡ kill_in_turn ts x)
        × AllDifferent ts
        × ((t : String) → is_in t ts ≡ is_in t (map (λ inj. inj.target) sc.inject))
  unfolding kill_all
  kill_all_once sc x = (
    first_mentions [] sc.inject,
    kill_each_lem [] sc.inject x,
    first_mentions_different [] sc.inject,
    λ t. first_mentions_all [] sc.inject t,
  )
