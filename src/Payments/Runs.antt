-- ===== src/Payments/Runs.antt =====
-- The orders, the payments and the outbox under everything that writes them, in any order and any
-- number of times: placements, card payments that open, fail, close and are confirmed, the relays'
-- writes to the outbox, events of other types, and whatever is done to carts.
use vp_parts.Base.{ℕ, ◌+◌, ◌-◌, ◌≡◌, ◌≢◌, Bool, not, ◌&&◌, List, ◌==◌, count_where}
use vp_parts.Outbox.{
  OutboxEvent, NewOutboxEvent, ClaimOptions, Lease, Failure, append, claim_due, record_handler_done,
  delete_delivered, schedule_retry,
}
use vp_parts.Cart.Tables.{Carts, ok}
use vp_parts.Orders.{
  NewOrder, Order, is_pending_payment, OrderPlacement, Shop, Drawn, order_placed, CardPaymentStatus,
  WebhookDelivery, place,
}
use vp_parts.Payments.{
  ReportedAttempt, DeliveryEffect, OpenedCheckoutSession, record_opened, mark_failed, confirm_paid,
  close_attempt,
}

-- The `OrderPlaced` events that name an order.
abbrev pub announcements : ℕ → List OutboxEvent → ℕ
announcements k events =
    count_where (λ e. (e.event_type == order_placed) && (e.payload == k)) events

abbrev pub named : ℕ → List Order → ℕ
named k orders = count_where (λ o. o.id == k) orders

-- The order's rows that wait for no payment.
abbrev pub settled : ℕ → List Order → ℕ
settled k orders = count_where (λ o. (o.id == k) && not (is_pending_payment o.status)) orders

abbrev pub with_outbox : Shop → List OutboxEvent → Shop
with_outbox s events = record s { outbox = events }

-- A placement's order has a new identifier, and is announced unless it waits for its payment.
pub data ShopStep (s : Shop) : Shop → Type 0 where
  places :
      (n : NewOrder) (drawn : Drawn) (p : OrderPlacement) (s' : Shop)
      → named drawn.order_id s.orders ≡ 0
      → n.is_announced ≡ not (is_pending_payment n.initial_status)
      → place n drawn s ≡ ok (p, s')
      → ShopStep s s'
  confirms :
      (delivery : WebhookDelivery) (attempt : ReportedAttempt) (drawn : Drawn) (e : DeliveryEffect)
      (s' : Shop)
      → confirm_paid delivery attempt drawn s ≡ ok (e, s')
      → ShopStep s s'
  closes :
      (delivery : WebhookDelivery) (attempt_id : ℕ) (status : CardPaymentStatus)
      (e : DeliveryEffect) (s' : Shop)
      → close_attempt delivery attempt_id status s ≡ ok (e, s')
      → ShopStep s s'
  opens :
      (id order_id attempt : ℕ) (session : OpenedCheckoutSession)
      → ShopStep s (record_opened id order_id attempt session s)
  fails : (order_id attempt : ℕ) → ShopStep s (mark_failed order_id attempt s)
  changes_carts : (tables : Carts) → ShopStep s (record s { cart_tables = tables })
  appends_other :
      (event : NewOutboxEvent) (id now : ℕ)
      → event.event_type ≢ order_placed
      → ShopStep s (with_outbox s (append event id now s.outbox))
  claims :
      (o : ClaimOptions) (locked : ℕ → Bool) (tokens : ℕ → ℕ)
      → ShopStep s (with_outbox s (claim_due o locked tokens s.outbox).1)
  records :
      (lease : Lease) (name : ℕ)
      → ShopStep s (with_outbox s (record_handler_done lease name s.outbox).1)
  deletes : (lease : Lease) → ShopStep s (with_outbox s (delete_delivered lease s.outbox).1)
  retries :
      (lease : Lease) (available_at : ℕ) (error : List Failure)
      → ShopStep s (with_outbox s (schedule_retry lease available_at error s.outbox).1)

-- A run, with the number of announcements of the order `k` that it has written to the outbox.
pub data Run (k : ℕ) (start : Shop) : ℕ → Shop → Type 0 where
  here : Run k start 0 start
  next :
      {n : ℕ} {s s' : Shop}
      → Run k start n s
      → ShopStep s s'
      → Run k start (n + (announcements k s'.outbox - announcements k s.outbox)) s'
