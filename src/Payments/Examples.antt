-- ===== src/Payments/Examples.antt =====
-- A card order that is paid at its second attempt.
use vp_parts.Base.{
  ◌+◌, ◌≡◌, refl, inr, false, none, some, [], ◌∷◌, arith, ◌==◌, if◌then◌else◌, find_row,
}
use vp_parts.Cart.Tables.{Cart, active, Result, ok, err, lock_cart, new_cart, guest_expiry}
use vp_parts.Cart.Lifecycle.{close_for_order}
use vp_parts.Outbox.{append}
use vp_parts.Orders.{
  pending_payment, card, CardPayment, «open», failed, payment_succeeded, NewOrder, Order,
  OrderPlacement, placed, is_pending_payment, Shop, Drawn, place, place_open, create_order,
  to_order_data, announce, WebhookDelivery,
}
use vp_parts.Payments.{
  OpenedCheckoutSession, ReportedAttempt, DeliveryEffect, applied, find_reported_attempt,
  record_opened, once_for_delivery, confirm_change, confirm_paid,
}
use vp_parts.Payments.Attempts.{
  CheckoutSessionRequest, ClientAnswer, session_opened, refused, prior_attempt_failed, done,
  attempt_to_open, open_payment,
}
use vp_parts.Payments.Attempts.Bounds.{IsCapped, attempt_to_open_numbers}
use vp_parts.Payments.Attempts.Asking.{open_payment_asks}
use vp_parts.Payments.Runs.{announcements, here, next, places, opens, confirms}
use vp_parts.Payments.Once.{order_announced_once}
use vp_parts.Payments.Webhooks.{WebhookEvent, apply_webhook_event, confirm}
use vp_parts.Payments.Webhooks.Redelivery.{apply_webhook_event_twice}
use vp_parts.Payments.Webhooks.Success.{apply_webhook_event_success}

abbrev a_cart : Cart
a_cart = record {
  id = 1;
  token = none;
  released_token = none;
  customer_id = some 5;
  status = active;
  version = 3;
  merged_into_id = none;
  order_id = none;
  expires_at = 1000;
}

abbrev empty_shop : Shop
empty_shop = record {
  cart_tables = record { carts = a_cart ∷ []; items = [] };
  orders = [];
  status_history = [];
  outbox = [];
  card_payments = [];
  deliveries = [];
  next_reference = 17;
}

abbrev card_order : NewOrder
card_order = record {
  cart_id = 1;
  cart_version = 3;
  customer_id = some 5;
  contact = record { first_name = 50; last_name = 51; phone = 52; email = none };
  items = [];
  delivery = record {
    method = 1;
    carrier = some 1;
    destination = some 60;
    expected_delivery_date = none;
    parcel_weight_grams = some 900;
    delivery_price = 600;
    cash_on_delivery_fee = 0;
  };
  money = record {
    goods_total = 2400;
    delivery_price = 600;
    cash_on_delivery_fee = 0;
    total = 3000;
    net_amount = 2500;
    vat_amount = 500;
  };
  payment_method = card;
  terms_version = 1;
  initial_status = pending_payment;
  is_announced = false;
}

abbrev drawn : Drawn
drawn = record { order_id = 100; event_id = 200; cart_id = 2; now = 500 }

abbrev placed_of : Result (OrderPlacement × Shop) → Shop
placed_of (ok (p, s)) = s
placed_of (err e) = empty_shop

abbrev a_payment : CardPayment
a_payment = record {
  id = 300;
  order_id = 100;
  attempt = 1;
  transaction_id = 400;
  status = «open»;
  amount = 3000;
  currency = 978;
  expires_at = 9000;
}

abbrev placed_shop : Shop
unfolding place
placed_shop = placed_of (place card_order drawn empty_shop)

-- The order waits, with an attempt open.
abbrev paying_shop : Shop
unfolding placed_shop
paying_shop = record placed_shop { card_payments = a_payment ∷ [] }

abbrev success : WebhookEvent
success = record {
  id = 700;
  event_type = payment_succeeded;
  transaction_id = 400;
  amount = 3000;
  currency = 978;
}

abbrev the_attempt : ReportedAttempt
the_attempt = record {
  id = 300;
  order_id = 100;
  transaction_id = 400;
  order_status = pending_payment;
  order_total = 3000;
}

abbrev shop_of : Result Shop → Shop
shop_of (ok s) = s
shop_of (err e) = empty_shop

abbrev paid_shop : Shop
unfolding apply_webhook_event paying_shop
paid_shop = shop_of (apply_webhook_event success drawn paying_shop)

apply_webhook_event_twice_example : apply_webhook_event success drawn paid_shop ≡ ok paid_shop
unfolding apply_webhook_event confirm confirm_paid once_for_delivery confirm_change announce append
    find_reported_attempt place lock_cart place_open create_order to_order_data close_for_order
    new_cart guest_expiry placed_shop paying_shop paid_shop
apply_webhook_event_twice_example =
    apply_webhook_event_twice success drawn drawn paying_shop paid_shop refl

abbrev waiting_order : Order
unfolding to_order_data
waiting_order = to_order_data card_order 100 17

apply_webhook_event_success_example :
    (s' : Shop) × (apply_webhook_event success drawn paying_shop ≡ ok s')
unfolding place lock_cart place_open create_order to_order_data close_for_order new_cart
    guest_expiry placed_shop paying_shop waiting_order
apply_webhook_event_success_example = (
  (apply_webhook_event_success success drawn paying_shop a_payment waiting_order refl refl refl refl
      refl refl refl).0,
  (apply_webhook_event_success success drawn paying_shop a_payment waiting_order refl refl refl refl
      refl refl refl).1,
)

attempt_to_open_numbers_example :
    attempt_to_open (some (record { attempt = 1; status = failed; expires_at = 9000 })) 500 ≡ done 2
attempt_to_open_numbers_example =
    (attempt_to_open_numbers (some (record { attempt = 1; status = failed; expires_at = 9000 })) 500
        2).1
      (inr (refl, omega arith, refl))

-- The first attempt's key is spent, and the second opens a session.
abbrev a_client : CheckoutSessionRequest → ClientAnswer
a_client request =
    if request.attempt == 1
    then refused prior_attempt_failed none
    else session_opened (record {
      transaction_id = 401;
      cashier_key = 1;
      cashier_token = 2;
      amount = request.amount;
      currency = 978;
      expires_at = 9500;
    })

open_payment_asks_example :
    IsCapped (open_payment a_client (λ n. 300 + n) (some 5) 17 500 paying_shop).1
unfolding placed_shop paying_shop
open_payment_asks_example =
    (open_payment_asks a_client (λ n. 300 + n) (some 5) 17 500 paying_shop
      ((omega arith, omega arith), tt)).0

abbrev a_session : OpenedCheckoutSession
a_session = record {
  transaction_id = 400;
  cashier_key = 1;
  cashier_token = 2;
  amount = 3000;
  currency = 978;
  expires_at = 9000;
}

abbrev opened_shop : Shop
unfolding record_opened placed_shop
opened_shop = record_opened 300 100 1 a_session placed_shop

abbrev the_delivery : WebhookDelivery
the_delivery = record { id = 700; event_type = payment_succeeded }

abbrev effect_of : Result (DeliveryEffect × Shop) → Shop
effect_of (ok (e, s)) = s
effect_of (err e) = empty_shop

abbrev final_shop : Shop
unfolding confirm_paid opened_shop
final_shop = effect_of (confirm_paid the_delivery the_attempt drawn opened_shop)

order_announced_once_example :
    announcements 100 final_shop.outbox ≡ (elim (find_row (λ o. o.id == 100) final_shop.orders) [
      | none ↦ 0
      | some o ↦ if is_pending_payment o.status then 0 else 1
    ])
unfolding confirm_paid once_for_delivery confirm_change announce append record_opened place
    lock_cart place_open create_order to_order_data close_for_order new_cart guest_expiry
    placed_shop opened_shop final_shop
order_announced_once_example = order_announced_once 100 empty_shop 1 final_shop refl (
    next
      (next
        (next here (
          places card_order drawn (placed (record { id = 100; order_reference = 17 })) placed_shop
            refl refl refl))
        (opens 300 100 1 a_session))
      (confirms the_delivery the_attempt drawn applied final_shop refl))
