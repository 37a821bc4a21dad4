-- ===== src/Delivery/Checkout.antt =====
-- The figures that the checkout shows and that an order charges,
-- apps/api/src/checkout/checkout.service.ts. The cart's selected lines and the answer of the stock
-- read, as a function from articles, are arguments. The version of the cart, which the answers copy,
-- is left out.
pub mod Couriers
pub mod Prices
pub mod Quotes
use vp_parts.Base.{
  ℕ, Bool, true, false, ◌&&◌, ◌||◌, Option, none, some, List, [], ◌∷◌, map, ltb, ◌==◌,
  if◌then◌else◌, length,
}
use vp_parts.Orders.{OrderMoney}
use vp_parts.Checkout.{
  OrderMoneyLine, VatRate, goods_total, order_money, OrderableLine, PricedLine, PricedLines,
  price_lines,
}
use vp_parts.Inventory.Availability.{ArticleInventoryDetail}
use vp_parts.Inventory.Availability.Orderable.{to_checkout}
use vp_parts.Delivery.Parcel.{ParcelLine, estimate_parcel}
use vp_parts.Delivery.Carriers.{
  CheckoutError, cart_empty, article_unavailable, Outcome, done, refused, ◌>>=◌, Address,
  Destination, to_office, to_address, PlaceOrderDelivery, courier_office, courier_address,
  DeliveryCarrier, ParcelEstimate, to_parcel_estimate, PricedDelivery, StockedLines, DeliveryTerms,
  carrier_for, price_delivery,
}

pub record DeliveryChoice : Type 0 where
  pub delivery : PlaceOrderDelivery
  pub is_cash_on_delivery : Bool
  pub is_binding : Bool

pub record PricedCheckout : Type 0 where
  pub goods : PricedLines
  pub delivery : PricedDelivery
  pub money : OrderMoney

-- `PricedOrder`
pub record CheckoutOrder : Type 0 where
  pub lines : List PricedLine
  pub delivery : PricedDelivery
  pub money : OrderMoney

pub record CartTotals : Type 0 where
  pub goods_total : ℕ
  pub net_amount : ℕ
  pub vat_amount : ℕ
  pub total : ℕ

pub record DeliveryQuote : Type 0 where
  pub price_inc_vat_cents : ℕ
  pub cash_on_delivery_fee_inc_vat_cents : Option ℕ
  pub expected_delivery_date : Option ℕ
  pub parcel : ParcelEstimate
  pub money : Option OrderMoney

abbrev pub orderable_of : ParcelLine → OrderableLine
orderable_of line = record { article = line.article; quantity = line.quantity }

abbrev pub money_line : PricedLine → OrderMoneyLine
money_line p = record { unit_price = p.unit_price; quantity = p.line.quantity }

abbrev pub to_courier_delivery : ℕ → Destination → PlaceOrderDelivery
to_courier_delivery carrier (to_office code) = courier_office carrier code
to_courier_delivery carrier (to_address address) = courier_address carrier address

module _ (shop_date_of : ℕ → ℕ) (carriers : ℕ → Option DeliveryCarrier) (rate : VatRate)
    (read : List ℕ → Outcome (ℕ → Option ArticleInventoryDetail)) where
  unfoldable pub price_goods : (ℕ → Option ArticleInventoryDetail) → List ParcelLine → PricedLines
  price_goods availability lines =
      price_lines
        (λ a. elim (availability a) [ none ↦ none | some detail ↦ some (to_checkout detail) ])
        (map orderable_of lines)

  unfoldable pub money_of : List PricedLine → ℕ → ℕ → OrderMoney
  money_of priced delivery_price fee = order_money (map money_line priced) delivery_price fee rate

  -- What the courier collects for the parts.
  abbrev pub goods_to_collect : Bool → List PricedLine → Option ℕ
  goods_to_collect is_cash_on_delivery priced =
      if is_cash_on_delivery then some (goods_total (map money_line priced)) else none

  -- From the priced goods on.
  unfoldable pub price_checked :
      List ParcelLine
      → DeliveryChoice
      → (ℕ → Option ArticleInventoryDetail)
      → PricedLines
      → Outcome PricedCheckout
  unfolding money_of price_delivery
  price_checked lines request availability goods = do
    price ←
        price_delivery shop_date_of carriers (record { lines = lines; availability = availability })
          request.delivery
          (record {
            goods_to_collect_cents = goods_to_collect request.is_cash_on_delivery goods.priced;
            is_binding = request.is_binding;
          })
    done (record {
      goods = goods;
      delivery = price;
      money = money_of goods.priced price.delivery_price price.cash_on_delivery_fee;
    })

  -- From the answer of the stock read on.
  unfoldable pub price_stocked :
      List ParcelLine
      → DeliveryChoice
      → (ℕ → Option ArticleInventoryDetail)
      → Outcome PricedCheckout
  unfolding price_goods price_checked
  price_stocked lines request availability =
      let goods = price_goods availability lines in
      if ltb 0 (length goods.unorderable) && (request.is_binding || request.is_cash_on_delivery)
      then refused article_unavailable
      else price_checked lines request availability goods

  unfoldable pub price_with_delivery : List ParcelLine → DeliveryChoice → Outcome PricedCheckout
  unfolding price_stocked
  price_with_delivery lines request = do
    availability ← read (map (λ l. l.article) lines)
    price_stocked lines request availability

  abbrev pub require_lines : List ParcelLine → Outcome (Unit {0})
  require_lines [] = refused cart_empty
  require_lines (line ∷ lines) = done tt

  unfoldable pub checkout_totals : List ParcelLine → Outcome CartTotals
  unfolding price_goods money_of
  checkout_totals lines = do
    availability ← read (map (λ l. l.article) lines)
    let money = money_of (price_goods availability lines).priced 0 0
    done (record {
      goods_total = money.goods_total;
      net_amount = money.net_amount;
      vat_amount = money.vat_amount;
      total = money.total;
    })

  unfoldable pub estimate_for : List ParcelLine → ℕ → Outcome ParcelEstimate
  unfolding estimate_parcel to_parcel_estimate
  estimate_for lines carrier = do
    courier ← carrier_for carriers carrier
    done (to_parcel_estimate (estimate_parcel lines) courier)

  unfoldable pub quote_delivery : List ParcelLine → ℕ → Destination → Bool → Outcome DeliveryQuote
  unfolding price_with_delivery estimate_for
  quote_delivery lines carrier destination is_cash_on_delivery = do
    checked ← require_lines lines
    checkout ← price_with_delivery lines (record {
      delivery = to_courier_delivery carrier destination;
      is_cash_on_delivery = is_cash_on_delivery;
      is_binding = false;
    })
    parcel ← estimate_for lines carrier
    done (record {
      price_inc_vat_cents = checkout.delivery.delivery_price;
      cash_on_delivery_fee_inc_vat_cents =
          if is_cash_on_delivery then some checkout.delivery.cash_on_delivery_fee else none;
      expected_delivery_date = checkout.delivery.expected_delivery_date;
      parcel = parcel;
      money = if length checkout.goods.unorderable == 0 then some checkout.money else none;
    })

  unfoldable pub price_order : List ParcelLine → PlaceOrderDelivery → Bool → Outcome CheckoutOrder
  unfolding price_with_delivery
  price_order lines delivery is_cash_on_delivery = do
    checked ← require_lines lines
    checkout ← price_with_delivery lines (record {
      delivery = delivery;
      is_cash_on_delivery = is_cash_on_delivery;
      is_binding = true;
    })
    done (record {
      lines = checkout.goods.priced;
      delivery = checkout.delivery;
      money = checkout.money;
    })
