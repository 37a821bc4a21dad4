-- ===== src/Payments/Webhooks.antt =====
-- Applying a webhook event: apps/api/src/orders/card-payment/payment-outcome.service.ts.
pub mod Redelivery
pub mod Payment
pub mod Success
use vp_parts.Base.{ℕ, Bool, true, false, ◌&&◌, Option, none, some, ◌==◌, if◌then◌else◌}
use vp_parts.Cart.Tables.{CartError, Result, ok, err, ◌>>=◌}
use vp_parts.Orders.{
  Order, is_pending_payment, CardPayment, CardPaymentStatus, «open», succeeded, failed, abandoned,
  attempt_cancelled, EventType, payment_succeeded, payment_failed, payment_abandoned,
  payment_cancelled, other_event, WebhookDelivery, Shop, Drawn, announce,
}
use vp_parts.Orders.Effects.{Result-cases}
use vp_parts.Payments.{
  ReportedAttempt, DeliveryEffect, duplicate, find_reported_attempt, once_for_delivery,
  confirm_change, confirm_paid, close_change, close_attempt,
}

-- `DominaiteWebhookEvent`, verified and parsed.
pub record WebhookEvent : Type 0 where
  pub id : ℕ
  pub event_type : EventType
  pub transaction_id : ℕ
  pub amount : ℕ
  pub currency : ℕ

-- `PAYMENT_CURRENCY`, which is the euro, by its ISO number.
abbrev pub payment_currency : ℕ
payment_currency = 978

-- `ATTEMPT_STATUS_BY_EVENT`; another type is no outcome.
abbrev pub attempt_status_by_event : EventType → Option CardPaymentStatus
attempt_status_by_event payment_succeeded = some succeeded
attempt_status_by_event payment_failed = some failed
attempt_status_by_event payment_abandoned = some abandoned
attempt_status_by_event payment_cancelled = some attempt_cancelled
attempt_status_by_event (other_event t) = none

abbrev pub is_succeeded : CardPaymentStatus → Bool
is_succeeded succeeded = true
is_succeeded «open» = false
is_succeeded failed = false
is_succeeded abandoned = false
is_succeeded attempt_cancelled = false

-- The tables after, in `applyWebhookEvent` and `confirm`; what they log is left out.
unfoldable pub confirm :
    WebhookDelivery → ReportedAttempt → WebhookEvent → Drawn → Shop → Result Shop
unfolding confirm_paid
confirm delivery attempt event drawn s =
    if (event.amount == attempt.order_total) && (event.currency == payment_currency)
    then confirm_paid delivery attempt drawn s >>= (λ r. ok r.1)
    else ok s

unfoldable pub apply_webhook_event : WebhookEvent → Drawn → Shop → Result Shop
unfolding find_reported_attempt confirm close_attempt
apply_webhook_event event drawn s = elim (attempt_status_by_event event.event_type) [
  | none ↦ ok s
  | some status ↦ elim (find_reported_attempt event.transaction_id s) [
    | none ↦ ok s
    | some attempt ↦
        let delivery : WebhookDelivery = record { id = event.id; event_type = event.event_type } in
        if is_succeeded status
        then confirm delivery attempt event drawn s
        else close_attempt delivery attempt.id status s >>= (λ r. ok r.1)
  ]
]
