-- ===== src/Payments/Attempts/Bounds.antt =====
-- The attempts that an order's payments take, and what is asked of Dominaite for them.
use vp_parts.Base.{
  ℕ, ◌+◌, ◌≤◌, ◌<◌, ◌≡◌, refl, ◌⊎◌, inl, inr, ◌↔◌, Option, none, some, List, [], ◌∷◌, arith, ltb,
  ◌==◌, Bool-cases, All, All-append, keep_if, any_row, All-keep_if, sort_by, All-sort_by,
}
use vp_parts.Orders.{CardPayment, «open», failed, Shop}
use vp_parts.Payments.{
  PaymentAttempt, OpenedCheckoutSession, first_of, latest_attempt_of, is_same_payment,
  record_opened,
}
use vp_parts.Payments.Attempts.{
  max_payment_attempts, PaymentError, Outcome, done, throws, attempt_after, attempt_to_open,
}

abbrev pub IsAttempt : ℕ → Type 0
IsAttempt n = (1 ≤ n) × (n ≤ max_payment_attempts)

abbrev pub IsCapped : Shop → Type 0
IsCapped s = All (λ p. IsAttempt p.attempt) s.card_payments

-- Which attempt may be opened at an instant, after the latest one.
abbrev pub Allows : Option PaymentAttempt → ℕ → ℕ → Type 0
Allows none now n = n ≡ 1
Allows (some a) now n =
    ((a.status ≡ «open») × (now < a.expires_at) × (n ≡ a.attempt))
    ⊎ ((a.status ≡ failed) × (a.attempt < max_payment_attempts) × (n ≡ a.attempt + 1))

-- An attempt is opened for the first time, again, or after one that failed, and for nothing else:
-- the number asked for is 1 without a previous attempt; the previous one's exactly while that is
-- open and its session has not ended; and the next exactly after one that failed, if the order may
-- take another.
pub attempt_to_open_numbers :
    (latest : Option PaymentAttempt) (now n : ℕ)
    → (attempt_to_open latest now ≡ done n) ↔ Allows latest now n
unfolding attempt_to_open attempt_after
attempt_to_open_numbers none now n = ground arith
attempt_to_open_numbers (some a) now n = ground arith

pub outcomes {ℓ} :
    {A : Type ℓ} (r : Outcome A) → ((a : A) × (r ≡ done a)) ⊎ ((x : PaymentError) × (r ≡ throws x))
outcomes (done a) = inl (a, refl)
outcomes (throws x) = inr (x, refl)

pub record_opened-IsCapped :
    (id order_id attempt : ℕ) (session : OpenedCheckoutSession) (s : Shop)
    → IsAttempt attempt
    → IsCapped s
    → IsCapped (record_opened id order_id attempt session s)
unfolding record_opened
record_opened-IsCapped id order_id attempt session s h capped =
    let row : CardPayment = record {
      id = id;
      order_id = order_id;
      attempt = attempt;
      transaction_id = session.transaction_id;
      status = «open»;
      amount = session.amount;
      currency = session.currency;
      expires_at = session.expires_at;
    } in
    elim (Bool-cases (any_row (is_same_payment row) s.card_payments)) [
      | inl there ↦ rw there capped
      | inr new ↦
          rw new (All-append (λ p. IsAttempt p.attempt) s.card_payments (row ∷ []) capped (h, tt))
    ]

pub latest-IsAttempt :
    (order_id : ℕ) (s : Shop) (a : PaymentAttempt)
    → IsCapped s
    → latest_attempt_of order_id s ≡ some a
    → IsAttempt a.attempt
unfolding latest_attempt_of
latest-IsAttempt order_id s a capped h =
    first
      (sort_by (λ x y. ltb y.attempt x.attempt)
        (keep_if (λ p. p.order_id == order_id) s.card_payments))
      (All-sort_by (λ x y. ltb y.attempt x.attempt) (λ p. IsAttempt p.attempt)
        (keep_if (λ p. p.order_id == order_id) s.card_payments)
        (All-keep_if (λ p. IsAttempt p.attempt) (λ p. p.order_id == order_id) s.card_payments
          capped))
      h
  where
    first :
        (ps : List CardPayment)
        → All (λ p. IsAttempt p.attempt) ps
        → (elim (first_of ps) [
          | none ↦ none
          | some p ↦
              some (record { attempt = p.attempt; status = p.status; expires_at = p.expires_at })
        ])
          ≡ some a
        → IsAttempt a.attempt
    first [] all e = cc
    first (p ∷ ps) all e = ground (arith, all.0, e)

pub to_open-IsAttempt :
    (latest : Option PaymentAttempt) (now n : ℕ)
    → ((a : PaymentAttempt) → latest ≡ some a → IsAttempt a.attempt)
    → attempt_to_open latest now ≡ done n
    → IsAttempt n
to_open-IsAttempt none now n h e = ground (arith, (attempt_to_open_numbers none now n).0 e)
to_open-IsAttempt (some a) now n h e =
    ground (arith, (attempt_to_open_numbers (some a) now n).0 e, h a refl)
