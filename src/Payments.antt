-- ===== src/Payments.antt =====
-- Card payments as they are stored and confirmed:
-- apps/api/src/orders/card-payment/card-payment.repository.ts and payment-outcome.service.ts.
-- A function answers what the method answers and the tables after it.
pub mod Attempts
pub mod Webhooks
pub mod Runs
pub mod Changes
pub mod Once
mod Examples
use vp_parts.Base.{
  ℕ, Bool, true, false, ◌&&◌, ◌||◌, Option, none, some, List, [], ◌∷◌, ◌++◌, ltb, ◌==◌,
  if◌then◌else◌, is_some_of, find_row, update_where, keep_if, count_where, any_row, sort_by,
}
use vp_parts.Cart.Tables.{Result, ok, err, ◌>>=◌, record_not_found}
use vp_parts.Outbox.{append}
use vp_parts.Orders.{
  OrderStatus, processing, is_pending_payment, CardPaymentStatus, «open», succeeded, failed,
  abandoned, attempt_cancelled, is_open, StatusSource, from_dominaite, Order, OrderContact,
  StatusChange, CardPayment, EventType, payment_succeeded, payment_failed, payment_abandoned,
  payment_cancelled, other_event, WebhookDelivery, Shop, Drawn, announce,
}

pub record PaymentAttempt : Type 0 where
  pub attempt : ℕ
  pub status : CardPaymentStatus
  pub expires_at : ℕ

pub record PayableOrder : Type 0 where
  pub id : ℕ
  pub order_reference : ℕ
  pub status : OrderStatus
  pub total : ℕ
  pub payer : OrderContact
  pub latest_attempt : Option PaymentAttempt

pub record OpenedCheckoutSession : Type 0 where
  pub transaction_id : ℕ
  pub cashier_key : ℕ
  pub cashier_token : ℕ
  pub amount : ℕ
  pub currency : ℕ
  pub expires_at : ℕ

pub record ReportedAttempt : Type 0 where
  pub id : ℕ
  pub order_id : ℕ
  pub transaction_id : ℕ
  pub order_status : OrderStatus
  pub order_total : ℕ

pub data DeliveryEffect : Type 0 where
  applied unchanged duplicate : DeliveryEffect

abbrev pub first_of {ℓ} : {A : Type ℓ} → List A → Option A
first_of [] = none
first_of (x ∷ xs) = some x

-- `orderBy: { attempt: 'desc' }, take: 1`
unfoldable pub latest_attempt_of : ℕ → Shop → Option PaymentAttempt
latest_attempt_of order_id s =
    elim (first_of (
      sort_by (λ a b. ltb b.attempt a.attempt)
        (keep_if (λ p. p.order_id == order_id) s.card_payments))) [
          | none ↦ none
          | some p ↦
              some (record { attempt = p.attempt; status = p.status; expires_at = p.expires_at })
        ]

unfoldable pub to_payable_order : Order → Shop → PayableOrder
unfolding latest_attempt_of
to_payable_order o s = record {
  id = o.id;
  order_reference = o.order_reference;
  status = o.status;
  total = o.money.total;
  payer = o.contact;
  latest_attempt = latest_attempt_of o.id s;
}

unfoldable pub find_owned_order : ℕ → ℕ → Shop → Option PayableOrder
unfolding to_payable_order
find_owned_order order_reference customer_id s =
    elim (find_row
      (λ o. (o.order_reference == order_reference) && is_some_of o.customer_id customer_id)
      s.orders) [ none ↦ none | some o ↦ some (to_payable_order o s) ]

-- The unique columns of the payments: the identifier, the transaction, and the order's attempt.
abbrev pub is_same_payment : CardPayment → CardPayment → Bool
is_same_payment a b =
    (a.id == b.id)
    || ((a.transaction_id == b.transaction_id)
        || ((a.order_id == b.order_id) && (a.attempt == b.attempt)))

-- `createMany` with `skipDuplicates`, of one row.
unfoldable pub record_opened : ℕ → ℕ → ℕ → OpenedCheckoutSession → Shop → Shop
record_opened id order_id attempt session s =
    let row : CardPayment = record {
      id = id;
      order_id = order_id;
      attempt = attempt;
      transaction_id = session.transaction_id;
      status = «open»;
      amount = session.amount;
      currency = session.currency;
      expires_at = session.expires_at;
    } in
    if any_row (is_same_payment row) s.card_payments
    then s
    else record s { card_payments = s.card_payments ++ row ∷ [] }

abbrev pub set_status : CardPaymentStatus → CardPayment → CardPayment
set_status status p = record p { status = status }

unfoldable pub mark_failed : ℕ → ℕ → Shop → Shop
mark_failed order_id attempt s = record s {
  card_payments =
      update_where (λ p. (p.order_id == order_id) && ((p.attempt == attempt) && is_open p.status))
        (set_status failed) s.card_payments;
}

-- The row's order is there: its foreign key restricts.
unfoldable pub find_reported_attempt : ℕ → Shop → Option ReportedAttempt
find_reported_attempt transaction_id s =
    elim (find_row (λ p. p.transaction_id == transaction_id) s.card_payments) [
      | none ↦ none
      | some p ↦ elim (find_row (λ o. o.id == p.order_id) s.orders) [
        | none ↦ none
        | some o ↦ some (record {
          id = p.id;
          order_id = p.order_id;
          transaction_id = p.transaction_id;
          order_status = o.status;
          order_total = o.money.total;
        })
      ]
    ]

-- `createMany` with `skipDuplicates` on the deliveries' identifiers, then the change; a change that
-- throws takes the delivery's row back with it.
unfoldable pub once_for_delivery :
    WebhookDelivery → (Shop → Result (Bool × Shop)) → Shop → Result (DeliveryEffect × Shop)
once_for_delivery delivery change s =
    if any_row (λ d. d.id == delivery.id) s.deliveries
    then ok (duplicate, s)
    else change (record s { deliveries = s.deliveries ++ delivery ∷ [] })
      >>= (λ r. ok ((if r.0 then applied else unchanged), r.1))

abbrev pub is_awaiting : ℕ → Order → Bool
is_awaiting order_id o = (o.id == order_id) && is_pending_payment o.status

abbrev pub pay_order : ℕ → Order → Order
pay_order transaction_id o = record o {
  status = processing;
  payment_reference = some transaction_id;
}

-- The change that a confirmed payment makes.
unfoldable pub confirm_change : ReportedAttempt → Drawn → Shop → Result (Bool × Shop)
unfolding announce
confirm_change attempt drawn s =
    if any_row (λ p. p.id == attempt.id) s.card_payments
    then (let paid = record s {
      card_payments = update_where (λ p. p.id == attempt.id) (set_status succeeded) s.card_payments;
      orders =
          update_where (is_awaiting attempt.order_id) (pay_order attempt.transaction_id) s.orders;
    } in
        if count_where (is_awaiting attempt.order_id) s.orders == 0
        then ok (false, paid)
        else ok (
          true,
          announce attempt.order_id drawn (record paid {
            status_history =
                s.status_history
                ++ record {
                  order_id = attempt.order_id;
                  status = processing;
                  source = from_dominaite;
                }
                  ∷ [];
          }),
        ))
    else err record_not_found

unfoldable pub confirm_paid :
    WebhookDelivery → ReportedAttempt → Drawn → Shop → Result (DeliveryEffect × Shop)
unfolding once_for_delivery confirm_change
confirm_paid delivery attempt drawn s = once_for_delivery delivery (confirm_change attempt drawn) s

unfoldable pub close_change : ℕ → CardPaymentStatus → Shop → Result (Bool × Shop)
close_change attempt_id status s =
    let named = λ (p : CardPayment). (p.id == attempt_id) && is_open p.status in
    ok (
      count_where named s.card_payments == 1,
      record s { card_payments = update_where named (set_status status) s.card_payments },
    )

unfoldable pub close_attempt :
    WebhookDelivery → ℕ → CardPaymentStatus → Shop → Result (DeliveryEffect × Shop)
unfolding once_for_delivery close_change
close_attempt delivery attempt_id status s =
    once_for_delivery delivery (close_change attempt_id status) s
