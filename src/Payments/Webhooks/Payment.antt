-- ===== src/Payments/Webhooks/Payment.antt =====
-- Which webhook events pay an order.
use vp_parts.Base.{◌≡◌, ◌⊎◌, false, some, update_where}
use vp_parts.Orders.{payment_succeeded, Shop}
use vp_parts.Payments.{ReportedAttempt, find_reported_attempt, is_awaiting, pay_order}
use vp_parts.Payments.Webhooks.{WebhookEvent, payment_currency}
use vp_parts.Payments.Webhooks.Redelivery.{has_delivery}

-- The orders are left, or the event is the first delivery of a success that pays an order in full.
abbrev pub PaysInFull : WebhookEvent → Shop → Shop → Type 0
PaysInFull event s s' =
    (s'.orders ≡ s.orders)
    ⊎ ((attempt : ReportedAttempt) × (find_reported_attempt event.transaction_id s ≡ some attempt)
        × (event.event_type ≡ payment_succeeded)
        × (event.amount ≡ attempt.order_total)
        × (event.currency ≡ payment_currency)
        × (has_delivery event.id s ≡ false)
        × (s'.orders
            ≡ update_where (is_awaiting attempt.order_id) (pay_order attempt.transaction_id)
                s.orders))
