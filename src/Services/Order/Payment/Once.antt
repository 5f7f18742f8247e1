-- ===== src/Services/Order/Payment/Once.antt =====
-- How often an order is paid.
use Prim.Native.String.{String}
use mathlib.Core.List.{append-nil}
use loadgen.Base.{
  sym, Bool-cases, inl, inr, ℕ, zero, suc, ◌+◌, ◌*◌, ◌≤◌, ◌≡◌, refl, ◌∙◌, ap, Option, none, Bool,
  true, false, ◌||◌, List, if◌then◌else◌, [], ◌∷◌, ◌++◌, some, arith,
}
use loadgen.Base.Float.{Float64}
use loadgen.Platform.Db.{Codec}
use loadgen.Services.Reply.{write_json}
use loadgen.Services.Payment.{
  PaymentRecord, ProcessResponse, Payments, Attempt, Outcome, completed, outcome, status_code,
  counted, handle_process,
}
use loadgen.Services.Order.Payment.{
  not_sent, answer_lost, answered, Exchange, sent_request, do_payment_request, payment_attempts,
  call_payment_service,
}

abbrev is_completed : Outcome → Bool
is_completed completed = true
is_completed _ = false

status-write_json : {R : Type 0} (code : ℕ) (o : Option R) → (write_json code o).status ≡ code
unfolding write_json
status-write_json code none = refl
status-write_json code (some raw) = refl

module _ {F : Type 0} ⦃d : Float64 F⦄ where
  -- Whether an exchange succeeds for the caller, and whether the payment is taken.
  abbrev pub succeeds : Exchange F → Bool
  succeeds x = elim x.wire [ answered ↦ is_completed (outcome x.attempt) | _ ↦ false ]

  abbrev pub charges : Exchange F → Bool
  charges x = elim x.wire [ not_sent ↦ false | _ ↦ is_completed (outcome x.attempt) ]

  -- Whether one of `left` exchanges from a number on succeeds.
  abbrev pub some_succeeds : ℕ → ℕ → (ℕ → Exchange F) → Bool
  some_succeeds zero n xs = false
  some_succeeds (suc left) n xs =
      let rest = some_succeeds left (n + 1) xs in if succeeds (xs n) then true else rest

  -- How many of these exchanges, up to the first that succeeds, charge without an answer.
  abbrev pub lost_charges : ℕ → ℕ → (ℕ → Exchange F) → ℕ
  lost_charges zero n xs = 0
  lost_charges (suc left) n xs =
      let rest = lost_charges left (n + 1) xs in
      if succeeds (xs n) then 0 else if charges (xs n) then suc rest else rest

  -- So many charges of an amount.
  abbrev pub copies : ℕ → F → List F
  copies zero amount = []
  copies (suc n) amount = amount ∷ copies n amount

  snoc_copies :
      (amount : F) (n : ℕ) (l : List F)
      → (l ++ (amount ∷ [])) ++ copies n amount ≡ l ++ copies (n + 1) amount
  snoc_copies amount n [] = ground arith
  snoc_copies amount n (x ∷ l) = ap (λ r. x ∷ r) (snoc_copies amount n l)

  charges-of_succeeds : (x : Exchange F) → succeeds x ≡ true → charges x ≡ true
  charges-of_succeeds x h = ground arith

  outcome-sent_request :
      (id : String) (amount : F) (a : Attempt F) → outcome (sent_request id amount a) ≡ outcome a
  unfolding outcome
  outcome-sent_request id amount a = refl

  module _ {R : Type 0} ⦃cp : Codec R (PaymentRecord F)⦄ ⦃cr : Codec R ProcessResponse⦄ where
    process_sent :
        (id : String) (amount : F) (a : Attempt F) (p : Payments R F)
        → let (reply, p') = handle_process (sent_request id amount a) p in
          (reply.status ≡ status_code (outcome a))
          × (p'.amounts ≡ counted (outcome a) amount p.amounts)
    unfolding handle_process
    process_sent id amount a p = (
      status-write_json _ _ ∙ ap status_code (outcome-sent_request id amount a),
      ap (λ o. counted o amount p.amounts) (outcome-sent_request id amount a),
    )

    request_outcome :
        (x : Exchange F) (id : String) (amount : F) (p : Payments R F)
        → let (ok, p') = do_payment_request x id amount p in
          (ok ≡ succeeds x)
          × (p'.amounts ≡ (if charges x then p.amounts ++ (amount ∷ []) else p.amounts))
    unfolding do_payment_request
    request_outcome x id amount p = ground (arith, process_sent id amount x.attempt p)

    loop_charges :
        (left n : ℕ) (xs : ℕ → Exchange F) (id : String) (amount : F) (p : Payments R F)
        → let out = payment_attempts left n xs id amount p in
          (out.paid ≡ some_succeeds left n xs)
          × (out.payments.amounts
              ≡ p.amounts ++ copies (lost_charges left n xs + (if out.paid then 1 else 0)) amount)
          × (out.attempts ≤ left)
          × (out.slept ≤ 200 * left)
    unfolding payment_attempts
    loop_charges zero n xs id amount p =
        (refl, sym (append-nil p.amounts), omega arith, omega arith)
    loop_charges (suc left) n xs id amount p =
        let p' = (do_payment_request (xs n) id amount p).1 in
        let one = request_outcome (xs n) id amount p in
        let rest = loop_charges left (n + 1) xs id amount p' in
        let more =
          lost_charges left (n + 1) xs
          + (if (payment_attempts left (n + 1) xs id amount p').paid then 1 else 0) in
        elim (Bool-cases (succeeds (xs n))) [
          | inl ok ↦
              ground (arith, ok, one, charges-of_succeeds (xs n) ok, snoc_copies amount 0 p.amounts)
          | inr bad ↦ elim (Bool-cases (charges (xs n))) [
            | inl lost ↦ ground (arith, bad, lost, one, rest, snoc_copies amount more p.amounts)
            | inr free ↦ ground (arith, bad, free, one, rest)
          ]
        ]

    slept_bound :
        (xs : ℕ → Exchange F) (id : String) (amount : F) (p : Payments R F)
        → (call_payment_service xs id amount p).slept ≤ 300
    unfolding call_payment_service payment_attempts
    slept_bound xs id amount p = ground arith

    -- The call for an order ends after at most three attempts, and pauses of at most 300
    -- milliseconds. It reports a payment exactly if one of the first three exchanges succeeds. The
    -- amount is charged once for the payment that it reports, if it does, and once more for each
    -- attempt, up to the first that succeeds, whose payment is completed but whose answer is lost; so
    -- at most once if no answer is lost.
    pub call_payment_service-once :
        (xs : ℕ → Exchange F) (id : String) (amount : F) (p : Payments R F)
        → let out = call_payment_service xs id amount p in
          (out.attempts ≤ 3)
          × (out.slept ≤ 300)
          × (out.paid ≡ (succeeds (xs 1) || (succeeds (xs 2) || succeeds (xs 3))))
          × (out.payments.amounts
              ≡ p.amounts ++ copies (lost_charges 3 1 xs + (if out.paid then 1 else 0)) amount)
    unfolding call_payment_service
    call_payment_service-once xs id amount p =
        let l = loop_charges 3 1 xs id amount p in
        (l.2, slept_bound xs id amount p, ground (arith, l.0), l.1)

    -- If the first answer of the payment service is lost after a completed payment, and the second
    -- exchange succeeds, then the order is paid once and charged twice.
    pub call_payment_service-twice :
        (xs : ℕ → Exchange F) (id : String) (amount : F) (p : Payments R F)
        → (xs 1).wire ≡ answer_lost
        → outcome (xs 1).attempt ≡ completed
        → succeeds (xs 2) ≡ true
        → let out = call_payment_service xs id amount p in
          (out.paid ≡ true) × (out.payments.amounts ≡ (p.amounts ++ (amount ∷ [])) ++ (amount ∷ []))
    unfolding call_payment_service payment_attempts
    call_payment_service-twice xs id amount p lost done ok =
        let first = request_outcome (xs 1) id amount p in
        let second = request_outcome (xs 2) id amount (do_payment_request (xs 1) id amount p).1 in
        ground (arith, first, second)
