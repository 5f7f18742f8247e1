-- ===== src/Harness/Scenario/Valid.antt =====
-- Which scenarios `Validate` accepts.
use text.Mathlib.Text.{◌==◌ as str_eq}
use loadgen.Base.{
  ℕ, ◌+◌, ◌≡◌, refl, ◌↔◌, ◌<◌, ◌⊎◌, inl, inr, Bool-cases, Option, some, All, false, not, ◌&&◌, List,
  [], ◌∷◌, none, any, length, arith, ◌==◌,
}
use loadgen.Harness.Scenario.{
  Injection, Expect, Scenario, is_none, is_incomplete, check_injections, grades_nothing, validate,
}

abbrev pub IsPresent : {A : Type 0} → Option A → Type 0
IsPresent {A} o = (a : A) × (o ≡ some a)

present : {A : Type 0} (o : Option A) → is_none o ≡ false → IsPresent o
present none h = cc
present (some a) h = (a, refl)

is_none-present : {A : Type 0} (o : Option A) → IsPresent o → is_none o ≡ false
is_none-present o (a, e) = ground arith

module _ {F : Type 0} where
  -- There is something to grade.
  abbrev pub IsGraded : Expect F → Type 0
  IsGraded e =
      IsPresent e.detect
      ⊎ (IsPresent e.rca ⊎ (IsPresent e.remediation ⊎ (IsPresent e.business ⊎ IsPresent e.quiet)))

  graded_of : (e : Expect F) → grades_nothing e ≡ false → IsGraded e
  graded_of e h = elim (Bool-cases (is_none e.detect)) [
    | inr q ↦ inl (present e.detect q)
    | inl q ↦ elim (Bool-cases (is_none e.rca)) [
      | inr r ↦ inr (inl (present e.rca r))
      | inl r ↦ elim (Bool-cases (is_none e.remediation)) [
        | inr t ↦ inr (inr (inl (present e.remediation t)))
        | inl t ↦ elim (Bool-cases (is_none e.business)) [
          | inr u ↦ inr (inr (inr (inl (present e.business u))))
          | inl u ↦ inr (inr (inr (inr (present e.quiet (ground arith)))))
        ]
      ]
    ]
  ]

  graded_if : (e : Expect F) → IsGraded e → grades_nothing e ≡ false
  graded_if e (inl p) = ground (arith, is_none-present e.detect p)
  graded_if e (inr (inl p)) = ground (arith, is_none-present e.rca p)
  graded_if e (inr (inr (inl p))) = ground (arith, is_none-present e.remediation p)
  graded_if e (inr (inr (inr (inl p)))) = ground (arith, is_none-present e.business p)
  graded_if e (inr (inr (inr (inr p)))) = ground (arith, is_none-present e.quiet p)

module _ {F J : Type 0} where
  -- An injection that can be posted: it has a target, and a type or a path.
  abbrev pub IsComplete : Injection F J → Type 0
  IsComplete inj =
      (str_eq inj.target "" ≡ false) × ((str_eq inj.type "" ≡ false) ⊎ (str_eq inj.path "" ≡ false))

  something :
      (s : Scenario F J)
      → (0 < length s.inject) ⊎ IsPresent s.changes
      → ((length s.inject == 0) && is_none s.changes) ≡ false
  something s (inl h) = ground (arith, h)
  something s (inr p) = ground (arith, is_none-present s.changes p)

  something_of :
      (s : Scenario F J)
      → ((length s.inject == 0) && is_none s.changes) ≡ false
      → (0 < length s.inject) ⊎ IsPresent s.changes
  something_of s h = elim (Bool-cases (is_none s.changes)) [
    | inr q ↦ inr (present s.changes q)
    | inl q ↦ inl (ground arith)
  ]

  -- It has an id, something to do, complete injections, and something to grade.
  pub record IsRunnable (s : Scenario F J) : Type 0 where
    pub has_id : str_eq s.id "" ≡ false
    pub to_do : (0 < length s.inject) ⊎ IsPresent s.changes
    pub complete : All IsComplete s.inject
    pub graded : IsGraded s.expect

  check_injections_lem :
      (i : ℕ) (injs : List (Injection F J))
      → is_none (check_injections i injs) ≡ not (any is_incomplete injs)
  unfolding check_injections
  check_injections_lem i [] = refl
  check_injections_lem i (inj ∷ injs) = ground (arith, check_injections_lem (i + 1) injs)

  IsComplete-cases : (inj : Injection F J) → (is_incomplete inj ≡ false) ↔ IsComplete inj
  IsComplete-cases inj = (λ h. ground arith, λ h. ground arith)

  All-IsComplete :
      (injs : List (Injection F J)) → any is_incomplete injs ≡ false → All IsComplete injs
  All-IsComplete [] h = tt
  All-IsComplete (inj ∷ injs) h =
      ((IsComplete-cases inj).0 (ground arith), All-IsComplete injs (ground arith))

  none_incomplete :
      (injs : List (Injection F J)) → All IsComplete injs → any is_incomplete injs ≡ false
  none_incomplete [] h = refl
  none_incomplete (inj ∷ injs) (c, h) =
      ground (arith, (IsComplete-cases inj).1 c, none_incomplete injs h)

  -- A scenario is accepted exactly if it has an id; an injection, or a setup that is not nil; a target
  -- and a type or path in each injection; and an expectation of a detection, an analysis, a
  -- remediation, a business signal or quiet.
  pub validate-IsRunnable : (s : Scenario F J) → (validate s ≡ none) ↔ IsRunnable s
  unfolding validate
  validate-IsRunnable s = (
    λ h. record {
      has_id = ground arith;
      to_do = something_of s (ground arith);
      complete = All-IsComplete s.inject (ground (arith, check_injections_lem 0 s.inject));
      graded = graded_of s.expect (ground arith);
    },
    λ r. ground (
      arith,
      r.has_id,
      something s r.to_do,
      none_incomplete s.inject r.complete,
      graded_if s.expect r.graded,
      check_injections_lem 0 s.inject,
    ),
  )
