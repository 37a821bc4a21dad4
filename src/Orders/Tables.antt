-- ===== src/Orders/Tables.antt =====
-- The tables that one transaction of an order may change together, as
-- apps/api/prisma/schema.prisma declares them, and what a placement is given and answers, of
-- apps/api/src/orders/orders.repository.ts.
use vp_parts.Base.{ℕ, Bool, true, false, Option, List}
use vp_parts.Outbox.{OutboxEvent}
use vp_parts.Cart.Tables.{Carts}

pub data OrderStatus : Type 0 where
  pending_payment awaiting_confirmation processing items_prepared on_the_way delivered cancelled
        fulfillment_failed :
      OrderStatus

abbrev pub is_pending_payment : OrderStatus → Bool
is_pending_payment pending_payment = true
is_pending_payment awaiting_confirmation = false
is_pending_payment processing = false
is_pending_payment items_prepared = false
is_pending_payment on_the_way = false
is_pending_payment delivered = false
is_pending_payment cancelled = false
is_pending_payment fulfillment_failed = false

pub data PaymentMethod : Type 0 where
  card cash_on_delivery : PaymentMethod

pub data CardPaymentStatus : Type 0 where
  «open» succeeded failed abandoned attempt_cancelled : CardPaymentStatus

abbrev pub is_open : CardPaymentStatus → Bool
is_open «open» = true
is_open succeeded = false
is_open failed = false
is_open abandoned = false
is_open attempt_cancelled = false

pub data StatusSource : Type 0 where
  from_shop from_dominaite : StatusSource

pub record NewOrderItem : Type 0 where
  pub brand_id : ℕ
  pub article_number : ℕ
  pub brand_name : ℕ
  pub description : ℕ
  pub thumbnail_url : Option ℕ
  pub quantity : ℕ
  pub unit_price : ℕ
  pub line_total : ℕ

pub record OrderContact : Type 0 where
  pub first_name : ℕ
  pub last_name : ℕ
  pub phone : ℕ
  pub email : Option ℕ

-- `DeliveryPrice`. A destination that is null is stored as the empty object.
pub record DeliveryPrice : Type 0 where
  pub method : ℕ
  pub carrier : Option ℕ
  pub destination : Option ℕ
  pub expected_delivery_date : Option ℕ
  pub parcel_weight_grams : Option ℕ
  pub delivery_price : ℕ
  pub cash_on_delivery_fee : ℕ

-- `OrderMoneyDto`, in cents.
pub record OrderMoney : Type 0 where
  pub goods_total : ℕ
  pub delivery_price : ℕ
  pub cash_on_delivery_fee : ℕ
  pub total : ℕ
  pub net_amount : ℕ
  pub vat_amount : ℕ

pub record NewOrder : Type 0 where
  pub cart_id : ℕ
  pub cart_version : ℕ
  pub customer_id : Option ℕ
  pub contact : OrderContact
  pub items : List NewOrderItem
  pub delivery : DeliveryPrice
  pub money : OrderMoney
  pub payment_method : PaymentMethod
  pub terms_version : ℕ
  pub initial_status : OrderStatus
  pub is_announced : Bool

-- Columns that nothing here writes or reads (tracking, the vehicle) are left out.
pub record Order : Type 0 where
  pub id : ℕ
  pub order_reference : ℕ
  pub customer_id : Option ℕ
  pub cart_id : ℕ
  pub status : OrderStatus
  pub delivery : DeliveryPrice
  pub money : OrderMoney
  pub payment_method : PaymentMethod
  pub payment_reference : Option ℕ
  pub contact : OrderContact
  pub terms_version : ℕ
  pub items : List NewOrderItem

pub record StatusChange : Type 0 where
  pub order_id : ℕ
  pub status : OrderStatus
  pub source : StatusSource

pub record CardPayment : Type 0 where
  pub id : ℕ
  pub order_id : ℕ
  pub attempt : ℕ
  pub transaction_id : ℕ
  pub status : CardPaymentStatus
  pub amount : ℕ
  pub currency : ℕ
  pub expires_at : ℕ

-- The type of a webhook event: one of those that report a payment's outcome, or another.
pub data EventType : Type 0 where
  payment_succeeded payment_failed payment_abandoned payment_cancelled : EventType
  other_event : ℕ → EventType

-- `PaymentWebhookEvent`: a delivery that has been handled.
pub record WebhookDelivery : Type 0 where
  pub id : ℕ
  pub event_type : EventType

pub record Shop : Type 0 where
  pub cart_tables : Carts
  pub orders : List Order
  pub status_history : List StatusChange
  pub outbox : List OutboxEvent
  pub card_payments : List CardPayment
  pub deliveries : List WebhookDelivery
  pub next_reference : ℕ

pub record OrderReference : Type 0 where
  pub id : ℕ
  pub order_reference : ℕ

pub data OrderPlacement : Type 0 where
  placed : OrderReference → OrderPlacement
  replayed : OrderReference → OrderPlacement
  stale : OrderPlacement

-- What the database draws for one transaction: its identifiers, and its clock.
pub record Drawn : Type 0 where
  pub order_id : ℕ
  pub event_id : ℕ
  pub cart_id : ℕ
  pub now : ℕ
