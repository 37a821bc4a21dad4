-- ===== src/Delivery/Checkout/Quotes.antt =====
-- That an order charges what its quote showed, in checkout.service.ts.
use vp_parts.Base.{
  ℕ, ◌≡◌, refl, sym, subst, Bool, true, false, Option, none, some, List, arith, ◌==◌, if◌then◌else◌,
  is_none, length,
}
use vp_parts.Checkout.{VatRate}
use vp_parts.Inventory.Availability.{ArticleInventoryDetail}
use vp_parts.Delivery.Parcel.{ParcelLine, estimate_parcel}
use vp_parts.Delivery.Carriers.{
  Outcome, done, Destination, DeliveryCarrier, ParcelEstimate, to_parcel_estimate,
  require_deliverable,
}
use vp_parts.Delivery.Checkout.{
  PricedCheckout, CheckoutOrder, DeliveryQuote, to_courier_delivery, price_with_delivery,
  require_lines, estimate_for, quote_delivery, price_order,
}
use vp_parts.Delivery.Checkout.Couriers.{bind_done, done_eq}
use vp_parts.Delivery.Checkout.Prices.{request, with_delivery-unbound, with_delivery-bound}

-- The quote shows an order's figures.
pub record IsShown (is_cash : Bool) (order : CheckoutOrder) (quote : DeliveryQuote) : Type 0 where
  pub money : quote.money ≡ some order.money
  pub price : quote.price_inc_vat_cents ≡ order.delivery.delivery_price
  pub fee :
      quote.cash_on_delivery_fee_inc_vat_cents
      ≡ (if is_cash then some order.delivery.cash_on_delivery_fee else none)
  pub date : quote.expected_delivery_date ≡ order.delivery.expected_delivery_date

-- The quote of a priced checkout.
abbrev quote_at : PricedCheckout → ParcelEstimate → Bool → DeliveryQuote
quote_at c parcel is_cash = record {
  price_inc_vat_cents = c.delivery.delivery_price;
  cash_on_delivery_fee_inc_vat_cents =
      if is_cash then some c.delivery.cash_on_delivery_fee else none;
  expected_delivery_date = c.delivery.expected_delivery_date;
  parcel = parcel;
  money = if length c.goods.unorderable == 0 then some c.money else none;
}

all_priced :
    (c : PricedCheckout) (parcel : ParcelEstimate) (is_cash : Bool)
    → is_none (quote_at c parcel is_cash).money ≡ false
    → length c.goods.unorderable ≡ 0
all_priced c parcel is_cash h = ground (arith, h)

module _ (shop_date_of : ℕ → ℕ) (carriers : ℕ → Option DeliveryCarrier) (rate : VatRate)
    (read : List ℕ → Outcome (ℕ → Option ArticleInventoryDetail)) where
  -- An order by courier charges what its quote showed: whatever the stock and the courier answer, if
  -- they answer both requests alike, then an order that can be placed has a quote, which shows the
  -- order's money, delivery price, fee and date.
  pub price_order-quoted :
      (lines : List ParcelLine) (carrier : ℕ) (destination : Destination) (is_cash : Bool)
      → (order : CheckoutOrder)
      → price_order shop_date_of carriers rate read lines
          (to_courier_delivery carrier destination)
          is_cash
        ≡ done order
      → (quote : DeliveryQuote) × (quote_delivery shop_date_of carriers rate read lines carrier
            destination is_cash
          ≡ done quote)
        × IsShown is_cash order quote
  unfolding price_order quote_delivery estimate_for
  price_order-quoted lines carrier destination is_cash order e =
      let (ok, e1, r1) =
        bind_done (require_lines shop_date_of carriers rate read lines) _ order e in
      let (c, e2, r2) =
        bind_done
          (price_with_delivery shop_date_of carriers rate read lines
            (request shop_date_of carriers rate read carrier destination is_cash true))
          _ order r1 in
      let (other, all, (courier, e3)) =
        with_delivery-unbound shop_date_of carriers rate read lines carrier destination is_cash c
          e2 in
      let placed : CheckoutOrder = record {
        lines = c.goods.priced;
        delivery = c.delivery;
        money = c.money;
      } in
      let quote = quote_at c (to_parcel_estimate (estimate_parcel lines) courier) is_cash in
      (
        quote,
        rw e1 (rw other (rw e3 refl)),
        subst (λ o. IsShown is_cash o quote) (done_eq placed order r2)
            (record { money = ground (arith, all); price = refl; fee = refl; date = refl }),
      )

  -- A quote that shows the money can be ordered at: unless the courier, asked for an address, refuses
  -- it, the order is placed at just the figures of its quote, if the stock and the courier answer
  -- both requests alike.
  pub quote_delivery-placed :
      (lines : List ParcelLine) (carrier : ℕ) (destination : Destination) (is_cash : Bool)
      → (quote : DeliveryQuote)
      → ((courier : DeliveryCarrier)
          → carriers carrier ≡ some courier
          → require_deliverable courier destination ≡ done tt)
      → quote_delivery shop_date_of carriers rate read lines carrier destination is_cash
        ≡ done quote
      → is_none quote.money ≡ false
      → (order : CheckoutOrder) × (price_order shop_date_of carriers rate read lines
            (to_courier_delivery carrier destination)
            is_cash
          ≡ done order)
        × IsShown is_cash order quote
  unfolding price_order quote_delivery estimate_for
  quote_delivery-placed lines carrier destination is_cash quote deliverable e shows =
      let (ok, e1, r1) =
        bind_done (require_lines shop_date_of carriers rate read lines) _ quote e in
      let (c, e2, r2) =
        bind_done
          (price_with_delivery shop_date_of carriers rate read lines
            (request shop_date_of carriers rate read carrier destination is_cash false))
          _ quote r1 in
      let (parcel, e3, r3) =
        bind_done (estimate_for shop_date_of carriers rate read lines carrier)
          (λ parcel. done (quote_at c parcel is_cash)) quote r2 in
      let same = done_eq (quote_at c parcel is_cash) quote r3 in
      let all =
        all_priced c parcel is_cash (subst (λ q. is_none q.money ≡ false) (sym same) shows) in
      let bound =
        with_delivery-bound shop_date_of carriers rate read lines carrier destination is_cash c
          deliverable e2 all in
      let order : CheckoutOrder = record {
        lines = c.goods.priced;
        delivery = c.delivery;
        money = c.money;
      } in
      (
        order,
        rw e1 (rw bound refl),
        subst (IsShown is_cash order) same
            (record { money = ground (arith, all); price = refl; fee = refl; date = refl }),
      )
