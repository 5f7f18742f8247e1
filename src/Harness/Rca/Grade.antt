-- ===== src/Harness/Rca/Grade.antt =====
-- What `runRCA` returns, and when the RCA phase passes.
use Prim.Native.String.{String, ◌++◌ as ◌+++◌}
use text.Mathlib.Text.{◌==◌ as str_eq}
use loadgen.Base.{
  false, [], ◌∷◌, ◌⊎◌, Exists, any-Exists, any-of_Exists, any-select, Exists-map, Bool, sym, ◌∙◌,
  Option-cases, refl, ℕ, suc, ◌+◌, ◌*◌, ◌≤◌, ◌≡◌, ◌↔◌, true, not, ◌&&◌, ◌||◌, List, Option, some,
  arith, Bool-cases, inl, inr, select,
}
use loadgen.Base.Float.{Float64}
use loadgen.Harness.Scenario.{ExpectRca}
use loadgen.Harness.Texts.{mentions, contains, service_matches}
use loadgen.Harness.Remote.{Alert, Analysis, Origin, Env, window_or, second}
use loadgen.Harness.Rca.{
  RcaResult, cancelled, late, analysed, analysed_after, poll_rca, run_rca, trigger_and_wait,
  trigger_delay, anchor, is_empty, graded_text, grade_rca, grade_origin,
}
use loadgen.Harness.Total.{WillAt, IsLive, poll-WillAt, sleep_ctx_live}

module _ {F J X : Type 0} (env : Env F J X) where
  -- An analysis is the service's latest at the last poll, and from after the injection.
  abbrev pub Fresh : String → ℕ → X → RcaResult F → Type 0
  Fresh service inject_at x (analysed a) =
      (analysed_after a.analyzed_at inject_at ≡ true)
      × ((y : X) × (x ≡ (env.latest_rca service y).0) × ((env.latest_rca service y).1 ≡ some a))
  Fresh service inject_at x _ = Unit {0}

  poll_rca-Fresh :
      (service : String) (inject_at : ℕ) (y : X) (r : RcaResult F)
      → (poll_rca env service inject_at y).1 ≡ some r
      → Fresh service inject_at (env.latest_rca service y).0 r
  poll_rca-Fresh service inject_at y (analysed a) e = (ground arith, (y, refl, ground arith))
  poll_rca-Fresh service inject_at y _ e = tt

  trigger_and_wait-Fresh :
      (n pause : ℕ) (service : String) (inject_at : ℕ) (e : ExpectRca F) (detected : Option Alert)
      (x : X)
      → IsLive env
      → window_or (360 * second) e.timeout_seconds ≤ n * pause
      → WillAt
          (Fresh service inject_at)
          (trigger_and_wait env (suc n) pause service inject_at e detected x)
  unfolding trigger_and_wait
  trigger_and_wait-Fresh n pause service inject_at e detected x live h =
      let (y, ok) = env.trigger_rca service (anchor (env.now x) detected) x in
      elim (Bool-cases ok) [
        | inr q ↦ rw (q, WillAt) tt
        | inl q ↦
            rw (q, WillAt)
              (poll-WillAt env (Fresh service inject_at) n
                (env.now y + window_or (360 * second) e.timeout_seconds) pause
                (poll_rca env service inject_at) (some cancelled) late y live
                (live.latest_rca_mono service) (λ z. tt) (poll_rca-Fresh service inject_at)
                (ground arith))
      ]

  -- With fuel for its window, `runRCA` returns; and an analysis that it returns is the service's
  -- latest at the last poll, and from after the injection.
  pub run_rca-Fresh :
      (n pause : ℕ) (service : String) (inject_at : ℕ) (e : ExpectRca F) (detected : Option Alert)
      (x : X)
      → IsLive env
      → window_or (360 * second) e.timeout_seconds ≤ n * pause
      → WillAt (Fresh service inject_at) (run_rca env (suc n) pause service inject_at e detected x)
  unfolding run_rca
  run_rca-Fresh n pause service inject_at e detected x live h =
      elim (Bool-cases (str_eq service "")) [
        | inl q ↦ rw (q, WillAt) tt
        | inr q ↦
            rw (q, WillAt)
              (rw (sleep_ctx_live env live (trigger_delay e.trigger_delay_seconds) x, WillAt)
                (trigger_and_wait-Fresh n pause service inject_at e detected _ live h))
      ]

module _ {F J X : Type 0} ⦃d : Float64 F⦄ (env : Env F J X) where
  -- The origin has a service that matches one of the wanted ones, and a confidence that is not below
  -- the least one, if that is positive.
  abbrev pub IsWantedOrigin : Analysis F → ExpectRca F → Type 0
  IsWantedOrigin a e =
      (o : Origin F) × (a.origin ≡ some o)
      × Exists (λ w. service_matches env.lower o.service_id w ≡ true) e.origin_any
      × ((d.lt (d.lit 0) e.origin_confidence_min ≡ false)
          ⊎ (d.lt o.confidence e.origin_confidence_min ≡ false))

  -- A keyword stands in the analysis or its likely cause, in any case.
  abbrev pub IsMentioned : Analysis F → String → Type 0
  IsMentioned a kw =
      contains (env.lower (a.analysis_text +++ (" " +++ a.likely_root_cause))) (env.lower kw) ≡ true

  -- What is expected of an analysis.
  pub record IsClean (a : Analysis F) (e : ExpectRca F) (versions : List String) : Type 0 where
    pub origin : (e.origin_any ≡ []) ⊎ IsWantedOrigin a e
    pub evidence : (e.evidence_keywords_any ≡ []) ⊎ Exists (IsMentioned a) e.evidence_keywords_any
    pub change :
        (e.require_change_evidence ≡ false)
        ⊎ Exists (λ v. (str_eq v "" ≡ false) × IsMentioned a v) versions

  empty_cases : {A : Type 0} (xs : List A) → (xs ≡ []) ⊎ (is_empty xs ≡ false)
  empty_cases [] = inl refl
  empty_cases (x ∷ xs) = inr refl

  origin_of :
      (a : Analysis F) (e : ExpectRca F)
      → is_empty (grade_origin env a e) ≡ true
      → (e.origin_any ≡ []) ⊎ IsWantedOrigin a e
  unfolding grade_origin
  origin_of a e h = elim (empty_cases e.origin_any) [
    | inl q ↦ inl q
    | inr q ↦ elim (Option-cases a.origin) [
      | inl r ↦ ground arith
      | inr (o, r) ↦ inr (
        o,
        r,
        any-Exists (λ w. service_matches env.lower o.service_id w) e.origin_any (ground arith),
        ground arith,
      )
    ]
  ]

  origin_if :
      (a : Analysis F) (e : ExpectRca F)
      → (e.origin_any ≡ []) ⊎ IsWantedOrigin a e
      → is_empty (grade_origin env a e) ≡ true
  unfolding grade_origin
  origin_if a e (inl q) = ground arith
  origin_if a e (inr (o, r, w, c)) =
      ground
        (arith, r, c, any-of_Exists (λ w. service_matches env.lower o.service_id w) e.origin_any w)

  versions_of :
      (a : Analysis F) (versions : List String)
      → mentions env.lower (graded_text env a) (select (λ v. not (str_eq v "")) versions) ≡ true
      → Exists (λ v. (str_eq v "" ≡ false) × IsMentioned a v) versions
  unfolding mentions
  versions_of a versions h =
      let p : String → Bool = λ v. contains (graded_text env a) (env.lower v) in
      let q : String → Bool = λ v. not (str_eq v "") in
      Exists-map (λ v. (q v && p v) ≡ true) (λ v. (str_eq v "" ≡ false) × IsMentioned a v) versions
        (λ v e. ground arith)
        (any-Exists (λ v. q v && p v) versions (sym (any-select p q versions) ∙ h))

  versions_if :
      (a : Analysis F) (versions : List String)
      → Exists (λ v. (str_eq v "" ≡ false) × IsMentioned a v) versions
      → mentions env.lower (graded_text env a) (select (λ v. not (str_eq v "")) versions) ≡ true
  unfolding mentions
  versions_if a versions h =
      let p : String → Bool = λ v. contains (graded_text env a) (env.lower v) in
      let q : String → Bool = λ v. not (str_eq v "") in
      any-select p q versions
      ∙ any-of_Exists (λ v. q v && p v) versions
          (Exists-map (λ v. (str_eq v "" ≡ false) × IsMentioned a v) (λ v. (q v && p v) ≡ true)
            versions (λ v e. ground arith) h)

  keywords_of :
      (a : Analysis F) (kws : List String)
      → (is_empty kws || mentions env.lower (graded_text env a) kws) ≡ true
      → (kws ≡ []) ⊎ Exists (IsMentioned a) kws
  unfolding mentions
  keywords_of a kws h = elim (empty_cases kws) [
    | inl q ↦ inl q
    | inr q ↦ inr (any-Exists (λ v. contains (graded_text env a) (env.lower v)) kws (ground arith))
  ]

  keywords_if :
      (a : Analysis F) (kws : List String)
      → (kws ≡ []) ⊎ Exists (IsMentioned a) kws
      → (is_empty kws || mentions env.lower (graded_text env a) kws) ≡ true
  unfolding mentions
  keywords_if a kws (inl q) = ground arith
  keywords_if a kws (inr h) =
      ground (arith, any-of_Exists (λ v. contains (graded_text env a) (env.lower v)) kws h)

  -- The grading finds no fault exactly where the origin is one of the wanted services, if there are
  -- any, and sure enough; one of the keywords is mentioned, if there are any; and a version of the
  -- setup that is not empty is mentioned, if that is required.
  pub grade_rca-IsClean :
      (a : Analysis F) (e : ExpectRca F) (versions : List String)
      → (is_empty (grade_rca env a e versions) ≡ true) ↔ IsClean a e versions
  unfolding grade_rca
  grade_rca-IsClean a e versions = (
    λ h. record {
      origin = origin_of a e (ground arith);
      evidence = keywords_of a e.evidence_keywords_any (ground arith);
      change = elim (Bool-cases e.require_change_evidence) [
        | inr q ↦ inl q
        | inl q ↦ inr (versions_of a versions (ground arith))
      ];
    },
    λ c. elim c.change [
      | inl q ↦
          ground
            (arith, q, origin_if a e c.origin, keywords_if a e.evidence_keywords_any c.evidence)
      | inr v ↦ ground (
        arith,
        versions_if a versions v,
        origin_if a e c.origin,
        keywords_if a e.evidence_keywords_any c.evidence,
      )
    ],
  )
