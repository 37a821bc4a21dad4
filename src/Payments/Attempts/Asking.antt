-- ===== src/Payments/Attempts/Asking.antt =====
-- What is asked of Dominaite for an order, and what opening a payment leaves.
use vp_parts.Base.{
  ℕ, ◌+◌, ◌≡◌, refl, sym, ap, ◌∙◌, subst, ◌⊎◌, inl, inr, ◌&&◌, Option, arith, leb, ◌==◌, Bool-cases,
  All-update_where,
}
use vp_parts.Orders.{Order, failed, is_open, Shop}
use vp_parts.Payments.{PayableOrder, OpenedCheckoutSession, record_opened, set_status, mark_failed}
use vp_parts.Payments.Attempts.{
  max_payment_attempts, CheckoutSessionRequest, ClientAnswer, session_opened, refused,
  transport_error, rate_limited, other_error, was_paid, has_failed, PaymentError, key_spent,
  order_not_found, order_not_payable, payment_processing, payment_unavailable, refused_session,
  passed_on, Outcome, done, throws, translate, attempt_after, attempt_to_open, find_payable_order,
  open_session, retry_attempt, open_attempt, open_payment,
}
use vp_parts.Payments.Attempts.Payable.{
  IsPayable, asked, payable-latest, find_payable_order-IsPayable, asked-own, IsRecorded,
  record_opened-IsRecorded,
}
use vp_parts.Payments.Attempts.Bounds.{
  IsAttempt, IsCapped, outcomes, record_opened-IsCapped, latest-IsAttempt, to_open-IsAttempt,
}

module _ (client : CheckoutSessionRequest → ClientAnswer) (new_id : ℕ → ℕ) where
  -- The answer came from an attempt that may be made, at the order's total, and is recorded.
  abbrev Asks : PayableOrder → Shop → Outcome OpenedCheckoutSession × Shop → Type 0
  Asks order s r =
      ((session : OpenedCheckoutSession)
        → r.0 ≡ done session
        → (n : ℕ) × IsAttempt n
          × (client (asked order n) ≡ session_opened session)
          × IsRecorded (new_id n) order.id n session r.1)
      × (IsCapped s → IsCapped r.1)
      × (r.1.orders ≡ s.orders)
      × (r.1.outbox ≡ s.outbox)

  record_opened-Asks :
      (order : PayableOrder) (n : ℕ) (s : Shop) (session : OpenedCheckoutSession)
      → IsAttempt n
      → client (asked order n) ≡ session_opened session
      → Asks order s (done session, record_opened (new_id n) order.id n session s)
  unfolding record_opened
  record_opened-Asks order n s session h e = (
    λ x same.
        let this : session ≡ x = ground (arith, same) in
        (
          n,
          h,
          e ∙ ap session_opened this,
          subst
              (λ y.
                IsRecorded (new_id n) order.id n y (record_opened (new_id n) order.id n session s))
              this (record_opened-IsRecorded (new_id n) order.id n session s),
        ),
    record_opened-IsCapped (new_id n) order.id n session s h,
    ground arith,
    ground arith,
  )

  thrown-Asks : (order : PayableOrder) (s : Shop) (x : PaymentError) → Asks order s (throws x, s)
  thrown-Asks order s x = (λ session same. cc, λ capped. capped, refl, refl)

  open_session-Asks :
      (order : PayableOrder) (n : ℕ) (s : Shop)
      → IsAttempt n
      → Asks order s (open_session client new_id order n s)
  unfolding open_session translate
  open_session-Asks order n s h = elim (answers (client (asked order n))) [
    | inl (session, e) ↦
        let eq : open_session client new_id order n s
            ≡ (done session, record_opened (new_id n) order.id n session s) =
          ground (arith, e) in
        subst (Asks order s) (sym eq) (record_opened-Asks order n s session h e)
    | inr (x, e) ↦
        let eq : open_session client new_id order n s ≡ (throws x, s) = ground (arith, e) in
        subst (Asks order s) (sym eq) (thrown-Asks order s x)
  ]
    where
      answers :
          (c : ClientAnswer)
          → ((session : OpenedCheckoutSession) × (c ≡ session_opened session))
            ⊎ ((x : PaymentError) × (translate c ≡ throws x))
      answers (session_opened session) = inl (session, refl)
      answers (refused code t) = inr (_, refl)
      answers transport_error = inr (_, refl)
      answers rate_limited = inr (_, refl)
      answers (other_error e) = inr (_, refl)

  -- The payment that has failed is marked before the next attempt is asked for.
  marked-Asks :
      (order : PayableOrder) (n : ℕ) (s : Shop) (r : Outcome OpenedCheckoutSession × Shop)
      → Asks order (mark_failed order.id n s) r
      → Asks order s r
  unfolding mark_failed
  marked-Asks order n s r (asks, capped, orders, outbox) = (
    asks,
    λ h. capped (
        All-update_where (λ p. IsAttempt p.attempt)
          (λ p. (p.order_id == order.id) && ((p.attempt == n) && is_open p.status))
          (set_status failed) s.card_payments (λ p q _. q) h),
    orders,
    outbox,
  )

  retry_attempt-Asks :
      (order : PayableOrder) (n : ℕ) (e : PaymentError) (s : Shop)
      → IsAttempt n
      → Asks order s (retry_attempt client new_id order n e s)
  unfolding retry_attempt attempt_after
  retry_attempt-Asks order n (key_spent was_paid t) s h = thrown-Asks order s payment_processing
  retry_attempt-Asks order n (key_spent has_failed t) s h =
      let marked = mark_failed order.id n s in
      elim (Bool-cases (leb max_payment_attempts n)) [
        | inl last ↦
            let eq : retry_attempt client new_id order n (key_spent has_failed t) s
                ≡ (throws order_not_payable, marked) =
              ground (arith, last) in
            subst (Asks order s) (sym eq) (
              marked-Asks order n s (throws order_not_payable, marked)
                (thrown-Asks order marked order_not_payable))
        | inr more ↦
            let eq : retry_attempt client new_id order n (key_spent has_failed t) s
                ≡ open_session client new_id order (n + 1) marked =
              ground (arith, more) in
            subst (Asks order s) (sym eq) (
              marked-Asks order n s (open_session client new_id order (n + 1) marked)
                (open_session-Asks order (n + 1) marked (ground (arith, h, more))))
      ]
  retry_attempt-Asks order n order_not_found s h = thrown-Asks order s order_not_found
  retry_attempt-Asks order n order_not_payable s h = thrown-Asks order s order_not_payable
  retry_attempt-Asks order n payment_processing s h = thrown-Asks order s payment_processing
  retry_attempt-Asks order n payment_unavailable s h = thrown-Asks order s payment_unavailable
  retry_attempt-Asks order n (refused_session c) s h = thrown-Asks order s (refused_session c)
  retry_attempt-Asks order n (passed_on x) s h = thrown-Asks order s (passed_on x)

  open_attempt-Asks :
      (order : PayableOrder) (n : ℕ) (s : Shop)
      → IsAttempt n
      → Asks order s (open_attempt client new_id order n s)
  unfolding open_attempt
  open_attempt-Asks order n s h = elim (outcomes (open_session client new_id order n s).0) [
    | inl (session, e) ↦
        let eq : open_attempt client new_id order n s ≡ open_session client new_id order n s =
          ground (arith, e) in
        subst (Asks order s) (sym eq) (open_session-Asks order n s h)
    | inr (x, e) ↦
        let eq : open_attempt client new_id order n s ≡ retry_attempt client new_id order n x s =
          ground (arith, e) in
        subst (Asks order s) (sym eq) (retry_attempt-Asks order n x s h)
  ]

-- Opening a payment keeps every attempt within 1 and `MAX_PAYMENT_ATTEMPTS`, and changes no order
-- and no event, whatever Dominaite's client answers. If it answers a session, then the customer is
-- signed in and there is an order of that customer's with the reference asked for, which waits for
-- its payment; the session is what the client answered for an attempt within the bounds, that
-- reference, the order's whole total and its contact; and a payment is stored that has the new
-- identifier, the session's transaction, or that order and attempt. The attempts stored are within
-- the bounds.
pub open_payment_asks :
    (client : CheckoutSessionRequest → ClientAnswer) (new_id : ℕ → ℕ) (customer_id : Option ℕ)
    (order_reference now : ℕ) (s : Shop)
    → IsCapped s
    → let r = open_payment client new_id customer_id order_reference now s in
      IsCapped r.1
      × (r.1.orders ≡ s.orders)
      × (r.1.outbox ≡ s.outbox)
      × ((session : OpenedCheckoutSession)
          → r.0 ≡ done session
          → (o : Order) × IsPayable customer_id order_reference s o
            × (n : ℕ) × IsAttempt n
            × (client (record {
              order_reference = order_reference;
              attempt = n;
              amount = o.money.total;
              customer = o.contact;
            })
                ≡ session_opened session)
            × IsRecorded (new_id n) o.id n session r.1)
unfolding open_payment
open_payment_asks client new_id customer_id order_reference now s capped =
    elim (outcomes (find_payable_order customer_id order_reference s)) [
      | inr (x, e) ↦
          let eq : open_payment client new_id customer_id order_reference now s ≡ (throws x, s) =
            ground (arith, e) in
          rw eq (capped, refl, refl, λ session same. cc)
      | inl (order, e) ↦ elim (outcomes (attempt_to_open order.latest_attempt now)) [
        | inr (x, e') ↦
            let eq : open_payment client new_id customer_id order_reference now s ≡ (throws x, s) =
              ground (arith, e, e') in
            rw eq (capped, refl, refl, λ session same. cc)
        | inl (n, e') ↦
            let eq : open_payment client new_id customer_id order_reference now s
                ≡ open_attempt client new_id order n s =
              ground (arith, e, e') in
            let latest = payable-latest customer_id order_reference s order e in
            let (o, payable, id, reference, total, payer) =
              find_payable_order-IsPayable customer_id order_reference s order e in
            let h =
              to_open-IsAttempt order.latest_attempt now n
                (λ a there. latest-IsAttempt order.id s a capped (sym latest ∙ there)) e' in
            let (asks, keeps, orders, outbox) = open_attempt-Asks client new_id order n s h in
            rw eq (
              keeps capped,
              orders,
              outbox,
              λ session same.
                  let (m, within, answered, recorded) = asks session same in
                  (
                    o,
                    payable,
                    m,
                    within,
                    ap client (
                          sym (asked-own order o order_reference m reference payable.3 total payer))
                        ∙ answered,
                    subst
                        (λ k.
                          IsRecorded (new_id m) k m session
                            (open_attempt client new_id order n s).1)
                        id recorded,
                  ),
            )
      ]
    ]
