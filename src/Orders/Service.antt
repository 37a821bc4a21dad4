-- ===== src/Orders/Service.antt =====
-- Placing an order from a cart: `placeFromCart` of apps/api/src/orders/orders.service.ts with what
-- it calls, for a cart that was read before, and reading a guest's order. What is awaited between
-- the read and the transaction is a parameter: the bot check's verdict, and the checkout's prices
-- of the cart's lines.
pub mod Inversion
pub mod Answers
use vp_parts.Base.{
  ℕ, ◌*◌, Bool, true, false, not, ◌&&◌, Option, none, some, List, map, leb, ◌==◌, if◌then◌else◌,
  count_where,
}
use vp_parts.Cart.Tables.{CartStatus, CartError, Result, ok, err, is_active}
use vp_parts.Orders.{
  OrderStatus, pending_payment, awaiting_confirmation, processing, items_prepared, on_the_way,
  delivered, cancelled, fulfillment_failed, is_pending_payment, PaymentMethod, card,
  cash_on_delivery, NewOrderItem, OrderContact, DeliveryPrice, OrderMoney, NewOrder, OrderReference,
  OrderPlacement, placed, replayed, stale, Shop, Drawn, find_reference, place,
}

-- `PricedLine<CartOrderLine>`
pub record PricedOrderLine : Type 0 where
  pub brand_id : ℕ
  pub article_number : ℕ
  pub brand_name : ℕ
  pub description : ℕ
  pub thumbnail_url : Option ℕ
  pub quantity : ℕ
  pub unit_price : ℕ

pub record PricedOrder : Type 0 where
  pub lines : List PricedOrderLine
  pub delivery : DeliveryPrice
  pub money : OrderMoney

-- Its selected lines went into the checkout's prices.
pub record CartForOrder : Type 0 where
  pub id : ℕ
  pub version : ℕ
  pub status : CartStatus
  pub order_id : Option ℕ

-- The cart's identifier and the delivery went into the cart's read and the checkout's prices.
pub record PlaceOrderRequest : Type 0 where
  pub cart_version : ℕ
  pub expected_total_cents : ℕ
  pub payment_method : PaymentMethod

pub record PlacedOrder : Type 0 where
  pub order : OrderReference
  pub is_replay : Bool

-- What placing throws. `order_missing` is the error of a cart whose order is not there.
pub data PlaceError : Type 0 where
  cart_not_found cart_stale price_changed awaiting_call_limit bot_refused order_missing : PlaceError
  not_priced : ℕ → PlaceError
  not_written : CartError → PlaceError

pub data Placing {ℓ} (A : Type ℓ) : Type ℓ where
  answers : A → Placing A
  throws : PlaceError → Placing A

abbrev pub max_orders_awaiting_call_per_phone : ℕ
max_orders_awaiting_call_per_phone = 3

-- `TERMS_VERSION`, the date as a number.
abbrev pub terms_version : ℕ
terms_version = 20261017

-- `Orderer`: a guest's order is admitted first.
pub record Orderer : Type 0 where
  pub customer_id : Option ℕ
  pub contact : OrderContact
  pub initial_status : OrderStatus
  pub admits : Bool

abbrev pub is_card : PaymentMethod → Bool
is_card card = true
is_card cash_on_delivery = false

-- The orderers of `placeOrder` and of `placeQuickOrder`.
unfoldable pub customer_orderer : ℕ → OrderContact → PlaceOrderRequest → Orderer
customer_orderer customer_id contact request = record {
  customer_id = some customer_id;
  contact = contact;
  initial_status = if is_card request.payment_method then pending_payment else processing;
  admits = false;
}

unfoldable pub guest_orderer : OrderContact → Orderer
guest_orderer contact = record {
  customer_id = none;
  contact = contact;
  initial_status = awaiting_confirmation;
  admits = true;
}

abbrev pub is_awaiting_confirmation : OrderStatus → Bool
is_awaiting_confirmation awaiting_confirmation = true
is_awaiting_confirmation pending_payment = false
is_awaiting_confirmation processing = false
is_awaiting_confirmation items_prepared = false
is_awaiting_confirmation on_the_way = false
is_awaiting_confirmation delivered = false
is_awaiting_confirmation cancelled = false
is_awaiting_confirmation fulfillment_failed = false

unfoldable pub count_awaiting_confirmation : ℕ → Shop → ℕ
count_awaiting_confirmation phone s =
    count_where (λ o. (o.contact.phone == phone) && is_awaiting_confirmation o.status) s.orders

-- `admitQuickOrder`, or nothing to pass: the error that it throws.
unfoldable pub admit : Orderer → Bool → Shop → Option PlaceError
unfolding count_awaiting_confirmation
admit orderer is_human s =
    if orderer.admits
    then (if is_human
        then if leb max_orders_awaiting_call_per_phone
            (count_awaiting_confirmation orderer.contact.phone s)
          then some awaiting_call_limit
          else none
        else some bot_refused)
    else none

unfoldable pub to_order_item : PricedOrderLine → NewOrderItem
to_order_item line = record {
  brand_id = line.brand_id;
  article_number = line.article_number;
  brand_name = line.brand_name;
  description = line.description;
  thumbnail_url = line.thumbnail_url;
  quantity = line.quantity;
  unit_price = line.unit_price;
  line_total = line.unit_price * line.quantity;
}

unfoldable pub to_new_order : CartForOrder → PlaceOrderRequest → Orderer → PricedOrder → NewOrder
unfolding to_order_item
to_new_order cart request orderer priced = record {
  cart_id = cart.id;
  cart_version = cart.version;
  customer_id = orderer.customer_id;
  contact = orderer.contact;
  items = map to_order_item priced.lines;
  delivery = priced.delivery;
  money = priced.money;
  payment_method = request.payment_method;
  terms_version = terms_version;
  initial_status = orderer.initial_status;
  is_announced = not (is_pending_payment orderer.initial_status);
}

unfoldable pub settle : Result (OrderPlacement × Shop) → Placing (PlacedOrder × Shop)
settle (err e) = throws (not_written e)
settle (ok (stale, s)) = throws cart_stale
settle (ok (placed r, s)) = answers (record { order = r; is_replay = false }, s)
settle (ok (replayed r, s)) = answers (record { order = r; is_replay = true }, s)

unfoldable pub replay : ℕ → Shop → Placing (PlacedOrder × Shop)
unfolding find_reference
replay order_id s = elim (find_reference order_id s) [
  | none ↦ throws order_missing
  | some r ↦ answers (record { order = r; is_replay = true }, s)
]

-- `before` is the shop at the checks, `s` the shop at the transaction.
unfoldable pub place_from_cart :
    Option CartForOrder
    → PlaceOrderRequest
    → Orderer
    → Bool
    → Placing PricedOrder
    → Drawn
    → Shop
    → Shop
    → Placing (PlacedOrder × Shop)
unfolding replay admit to_new_order settle
place_from_cart none request orderer is_human prices drawn before s = throws cart_not_found
place_from_cart (some cart) request orderer is_human prices drawn before s = elim cart.order_id [
  | some order_id ↦ replay order_id s
  | none ↦
      if is_active cart.status && (cart.version == request.cart_version)
      then (elim (admit orderer is_human before) [
        | some e ↦ throws e
        | none ↦ elim prices [
          | throws e ↦ throws e
          | answers priced ↦
              if priced.money.total == request.expected_total_cents
              then settle (place (to_new_order cart request orderer priced) drawn s)
              else throws price_changed
        ]
      ])
      else throws cart_stale
]
