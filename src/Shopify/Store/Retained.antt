-- ===== src/Shopify/Store/Retained.antt =====
-- What is left of a list of which only the last entries are retained.
use mathlib.Core.List.{reverse, reverse-append, append_assoc, append-nil}
use loadgen.Base.{
  ℕ, zero, suc, ◌-◌, ◌≤◌, ◌≡◌, ◌⊎◌, inl, inr, refl, sym, ap, ◌∙◌, List, [], ◌∷◌, ◌++◌, length, take,
  drop, length-append, ltb, arith, Bool-cases,
}
use loadgen.Shopify.Store.{keep_last, max_orders_retained}

module _ {ℓ} {A : Type ℓ} where
  -- `kept` is all of a list, or at least the retained number of its last entries.
  pub record IsTail (full kept : List A) : Type ℓ where
    pub before : List A
    pub split : full ≡ before ++ kept
    pub enough : (before ≡ []) ⊎ (max_orders_retained ≤ length kept)

  take-append-drop : (n : ℕ) (l : List A) → l ≡ take n l ++ drop n l
  take-append-drop zero l = refl
  take-append-drop (suc n) [] = refl
  take-append-drop (suc n) (x ∷ l) = ap (λ r. x ∷ r) (take-append-drop n l)

  length-drop : (n : ℕ) (l : List A) → length (drop n l) ≡ length l - n
  length-drop zero l = omega arith
  length-drop (suc n) [] = omega arith
  length-drop (suc n) (x ∷ l) = omega (arith, length-drop n l)

  length-reverse : (l : List A) → length (reverse l) ≡ length l
  length-reverse [] = refl
  length-reverse (x ∷ l) =
      ap length (reverse-append (x ∷ []) l)
      ∙ length-append (reverse l) (x ∷ [])
      ∙ omega (arith, length-reverse l)

  take-append : (n : ℕ) (l more : List A) → n ≤ length l → take n (l ++ more) ≡ take n l
  take-append zero l more h = refl
  take-append (suc n) [] more h = absurd (omega arith)
  take-append (suc n) (x ∷ l) more h = ap (λ r. x ∷ r) (take-append n l more (omega arith))

  pub keep_last-IsTail :
      (full kept : List A) (x : A)
      → IsTail full kept
      → IsTail (full ++ (x ∷ [])) (keep_last max_orders_retained (kept ++ (x ∷ [])))
  unfolding keep_last
  keep_last-IsTail full kept x h =
      elim (Bool-cases (ltb max_orders_retained (length (kept ++ (x ∷ []))))) [
        | inl long ↦
            let l = kept ++ (x ∷ []) in
            let n = length l - max_orders_retained in
            rw (long, keep_last)
              (record {
                before = h.before ++ take n l;
                split =
                    ap (λ f. f ++ (x ∷ [])) h.split
                    ∙ append_assoc h.before kept (x ∷ [])
                    ∙ ap (λ r. h.before ++ r) (take-append-drop n l)
                    ∙ sym (append_assoc h.before (take n l) (drop n l));
                enough = inr (ground (arith, length-drop n l));
              })
        | inr short ↦
            rw (short, keep_last)
              (record {
                before = h.before;
                split = ap (λ f. f ++ (x ∷ [])) h.split ∙ append_assoc h.before kept (x ∷ []);
                enough = ground (arith, h.enough, length-append kept (x ∷ []));
              })
      ]

  -- The newest entries, up to a number that is retained, are those of the whole list.
  pub take_newest :
      (full kept : List A) (n : ℕ)
      → IsTail full kept
      → n ≤ max_orders_retained
      → take n (reverse kept) ≡ take n (reverse full)
  take_newest full kept n h le =
      let whole : reverse full ≡ reverse kept ++ reverse h.before =
        ap reverse h.split ∙ reverse-append h.before kept in
      elim h.enough [
        | inl none_before ↦ ap (take n) (
            sym
              (whole ∙ ap (λ b. reverse kept ++ reverse b) none_before ∙ append-nil (reverse kept)))
        | inr many ↦ sym (
            ap (take n) whole
            ∙ take-append n (reverse kept) (reverse h.before) (omega (arith, length-reverse kept)))
      ]
