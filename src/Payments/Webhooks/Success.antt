-- ===== src/Payments/Webhooks/Success.antt =====
-- What the first delivery of a payment in full does to the tables.
use vp_parts.Base.{
  ℕ, ◌+◌, ◌≤◌, ◌≡◌, refl, ap, ◌≢◌, ◌⊎◌, inl, inr, Bool, true, false, not, ◌&&◌, some, List, [], ◌∷◌,
  ◌++◌, arith, ◌==◌, if◌then◌else◌, Bool-cases, Option-cases, Has, find_row, update_where,
  count_where, any_row, find_row-Has, AllPairs, AllPairs-update_where,
}
use vp_parts.Cart.Tables.{ok}
use vp_parts.Orders.{
  Order, OrderStatus, pending_payment, processing, is_pending_payment, from_dominaite, CardPayment,
  succeeded, payment_succeeded, Shop, Drawn, announce,
}
use vp_parts.Orders.Effects.{announced_events}
use vp_parts.Payments.{
  ReportedAttempt, find_reported_attempt, once_for_delivery, set_status, is_awaiting, pay_order,
  confirm_change, confirm_paid,
}
use vp_parts.Payments.Runs.{announcements, named}
use vp_parts.Payments.Changes.{announcements-append, settled-split}
use vp_parts.Payments.Webhooks.{WebhookEvent, payment_currency, confirm, apply_webhook_event}
use vp_parts.Payments.Webhooks.Redelivery.{has_delivery}

known_payment :
    (transaction_id : ℕ) (s : Shop) (attempt : ReportedAttempt)
    → find_reported_attempt transaction_id s ≡ some attempt
    → any_row (λ p. p.id == attempt.id) s.card_payments ≡ true
unfolding find_reported_attempt
known_payment transaction_id s attempt known =
    elim (Option-cases
      (find_row (λ (p : CardPayment). p.transaction_id == transaction_id) s.card_payments)) [
        | inl missing ↦ ground (arith, missing, known)
        | inr (p, there) ↦
            let m =
              (find_row-Has (λ (p : CardPayment). p.transaction_id == transaction_id) p
                s.card_payments there).0 in
            let same : p.id ≡ attempt.id = ground (arith, there, known) in
            rw (← same) (Has-any p s.card_payments m)
      ]
  where
    Has-any :
        (p : CardPayment) (ps : List CardPayment) → Has p ps → any_row (λ q. q.id == p.id) ps ≡ true
    Has-any p [] m = absurd m
    Has-any p (q ∷ ps) (inl e) = ground (arith, ap (λ (x : CardPayment). x.id) e)
    Has-any p (q ∷ ps) (inr m) = ground (arith, Has-any p ps m)

-- The tables after a payment of the whole total.
abbrev after_payment : WebhookEvent → ReportedAttempt → Drawn → Shop → Shop
after_payment event attempt drawn s =
    let nothing = count_where (is_awaiting attempt.order_id) s.orders == 0 in
    record s {
      orders =
          update_where (is_awaiting attempt.order_id) (pay_order attempt.transaction_id) s.orders;
      status_history =
          if nothing
          then s.status_history
          else s.status_history
            ++ record { order_id = attempt.order_id; status = processing; source = from_dominaite }
              ∷ [];
      outbox = if nothing then s.outbox else announced_events attempt.order_id drawn s.outbox;
      card_payments = update_where (λ p. p.id == attempt.id) (set_status succeeded) s.card_payments;
      deliveries = s.deliveries ++ record { id = event.id; event_type = event.event_type } ∷ [];
    }

payment_goes_through :
    (event : WebhookEvent) (drawn : Drawn) (s : Shop) (attempt : ReportedAttempt)
    → find_reported_attempt event.transaction_id s ≡ some attempt
    → event.event_type ≡ payment_succeeded
    → (event.amount == attempt.order_total) && (event.currency == payment_currency) ≡ true
    → has_delivery event.id s ≡ false
    → apply_webhook_event event drawn s ≡ ok (after_payment event attempt drawn s)
unfolding apply_webhook_event confirm confirm_paid once_for_delivery confirm_change announce
payment_goes_through event drawn s attempt known success whole new =
    let there = known_payment event.transaction_id s attempt known in
    elim (Bool-cases (count_where (is_awaiting attempt.order_id) s.orders == 0)) [
      | inl nothing ↦ ground (arith, known, success, whole, new, there, nothing)
      | inr waits ↦ ground (arith, known, success, whole, new, there, waits)
    ]

-- The order is in processing under the transaction if it waited for its payment, and any other row
-- is the same.
abbrev pub IsPaid : ℕ → ℕ → Order → Order → Type 0
IsPaid order_id transaction_id o o' =
    (o.id ≡ order_id
      → o.status ≡ pending_payment
      → o' ≡ record o { status = processing; payment_reference = some transaction_id })
    × ((o.id ≢ order_id) ⊎ (o.status ≢ pending_payment) → o' ≡ o)

-- The payment is marked, and any other is the same.
abbrev pub IsMarked : ℕ → CardPayment → CardPayment → Type 0
IsMarked payment_id p p' =
    (p.id ≡ payment_id → p' ≡ record p { status = succeeded }) × (p.id ≢ payment_id → p' ≡ p)

is_pending-eq : (status : OrderStatus) → is_pending_payment status ≡ true → status ≡ pending_payment
is_pending-eq pending_payment h = refl
is_pending-eq other h = cc

orders-IsPaid :
    (order_id transaction_id : ℕ) (orders : List Order)
    → AllPairs
        (IsPaid order_id transaction_id)
        orders
        (update_where (is_awaiting order_id) (pay_order transaction_id) orders)
orders-IsPaid k t orders =
    AllPairs-update_where (IsPaid k t) (is_awaiting k) (pay_order t) orders
      (λ o e. (
        λ _ _. refl,
        λ other. elim other [
          | inl apart ↦ absurd (apart (ground (arith, e)))
          | inr settled ↦ absurd (settled (is_pending-eq o.status (ground (arith, e))))
        ],
      ))
      (λ o e. (λ this waits. absurd (ground (arith, this, waits, e)), λ _. refl))

payment-IsMarked :
    (payment_id : ℕ) (payments : List CardPayment)
    → AllPairs
        (IsMarked payment_id)
        payments
        (update_where (λ p. p.id == payment_id) (set_status succeeded) payments)
payment-IsMarked k payments =
    AllPairs-update_where (IsMarked k) (λ p. p.id == k) (set_status succeeded) payments
      (λ p e. (λ _. refl, λ other. absurd (other (ground (arith, e)))))
      (λ p e. (λ this. absurd (ground (arith, this, e)), λ _. refl))

Has-count :
    (p : Order → Bool) (o : Order) (orders : List Order)
    → Has o orders
    → p o ≡ true
    → 1 ≤ count_where p orders
Has-count p o [] there h = absurd there
Has-count p o (x ∷ xs) (inl e) h = ground (arith, ap p e, h)
Has-count p o (x ∷ xs) (inr there) h = ground (arith, Has-count p o xs there h)

-- Whether a row of an order waits is read off the order, whose identifier names one row.
waits_as_read :
    (o : Order) (orders : List Order)
    → Has o orders
    → named o.id orders ≡ 1
    → (count_where (is_awaiting o.id) orders == 0)
      ≡ (if is_pending_payment o.status then false else true)
waits_as_read o orders there one = elim (Bool-cases (is_pending_payment o.status)) [
  | inl waits ↦
      ground (arith, waits, Has-count (is_awaiting o.id) o orders there (ground (arith, waits)))
  | inr settles ↦ ground (
    arith,
    settles,
    one,
    settled-split o.id orders,
    Has-count (λ x. (x.id == o.id) && not (is_pending_payment x.status)) o orders there
        (ground (arith, settles)),
  )
]

-- A payment that arrives is never lost. The first delivery of a success, for a payment and its order
-- that are stored, in euro and for exactly the order's total, goes through: the payment is marked as
-- succeeded; the order, if it waited for its payment, is in processing with the transaction as its
-- payment reference, and is left if it did not; no other order and no other payment changes; and
-- exactly one announcement is written, of that order, if it waited, and none otherwise. The order's
-- identifier names one row.
pub apply_webhook_event_success :
    (event : WebhookEvent) (drawn : Drawn) (s : Shop) (p : CardPayment) (o : Order)
    → find_row (λ x. x.transaction_id == event.transaction_id) s.card_payments ≡ some p
    → find_row (λ x. x.id == p.order_id) s.orders ≡ some o
    → named o.id s.orders ≡ 1
    → event.event_type ≡ payment_succeeded
    → event.amount ≡ o.money.total
    → event.currency ≡ 978
    → has_delivery event.id s ≡ false
    → (s' : Shop) × (apply_webhook_event event drawn s ≡ ok s')
      × AllPairs (IsMarked p.id) s.card_payments s'.card_payments
      × AllPairs (IsPaid o.id event.transaction_id) s.orders s'.orders
      × ((k : ℕ)
          → announcements k s'.outbox
            ≡ announcements k s.outbox
              + (if (o.id == k) && is_pending_payment o.status then 1 else 0))
unfolding find_reported_attempt
apply_webhook_event_success event drawn s p o paid ordered one success whole euro new =
    let (_, by_transaction) =
      find_row-Has (λ x. x.transaction_id == event.transaction_id) p s.card_payments paid in
    let (there, by_order) = find_row-Has (λ x. x.id == p.order_id) o s.orders ordered in
    let this : p.order_id ≡ o.id = ground (arith, by_order) in
    let transaction : p.transaction_id ≡ event.transaction_id = ground (arith, by_transaction) in
    let attempt : ReportedAttempt = record {
      id = p.id;
      order_id = o.id;
      transaction_id = event.transaction_id;
      order_status = o.status;
      order_total = o.money.total;
    } in
    let known : find_reported_attempt event.transaction_id s ≡ some attempt =
      ground (arith, paid, ordered, this, transaction) in
    (
      after_payment event attempt drawn s,
      payment_goes_through event drawn s attempt known success (ground (arith, whole, euro)) new,
      payment-IsMarked p.id s.card_payments,
      orders-IsPaid o.id event.transaction_id s.orders,
      λ k.
          ground
            (arith, waits_as_read o s.orders there one, announcements-append k o.id drawn s.outbox),
    )
