-- ===== src/Checkout.antt =====
-- The money of an order, apps/api/src/checkout/order-money.ts, at the lines' orderable prices,
-- apps/api/src/inventory/orderable-price.ts, and what the courier collects,
-- apps/api/src/delivery/cash-on-delivery.ts. Amounts are whole cents. The VAT rate, a decimal, is
-- the fraction `rate_num / rate_den`, and `Math.round` of a quotient of whole numbers is the exact
-- rounding, halves up; the rounding of floating-point division is not modelled.
pub mod Money
mod Examples
use vp_parts.Base.{
  ℕ, ◌+◌, ◌-◌, ◌*◌, ◌/◌, Bool, ◌&&◌, Option, none, some, List, [], ◌∷◌, ◌++◌, ltb, leb,
  if◌then◌else◌, get_or_else, length,
}
use vp_parts.Orders.{OrderMoney}

pub record OrderMoneyLine : Type 0 where
  pub unit_price : ℕ
  pub quantity : ℕ

-- The VAT rate, `rate_num / rate_den`.
pub record VatRate : Type 0 where
  pub rate_num : ℕ
  pub rate_den : ℕ

unfoldable pub goods_total : List OrderMoneyLine → ℕ
goods_total [] = 0
goods_total (line ∷ lines) = line.unit_price * line.quantity + goods_total lines

-- `Math.round(total / (1 + vatRate))`: the floor of the quotient and a half.
unfoldable pub without_vat : ℕ → VatRate → ℕ
without_vat total rate =
    (2 * total * rate.rate_den + (rate.rate_den + rate.rate_num))
    / (2 * (rate.rate_den + rate.rate_num))

unfoldable pub order_money : List OrderMoneyLine → ℕ → ℕ → VatRate → OrderMoney
unfolding without_vat
order_money lines delivery_price cash_on_delivery_fee rate =
    let goods = goods_total lines in
    let total = goods + delivery_price + cash_on_delivery_fee in
    let net_amount = without_vat total rate in
    record {
      goods_total = goods;
      delivery_price = delivery_price;
      cash_on_delivery_fee = cash_on_delivery_fee;
      total = total;
      net_amount = net_amount;
      vat_amount = total - net_amount;
    }

-- What the stock says of an article.
pub record AvailabilityDetail : Type 0 where
  pub available : Bool
  pub best_price_inc_vat : Option ℕ
  pub availability_by_warehouse : List ℕ

abbrev pub sum_of : List ℕ → ℕ
sum_of [] = 0
sum_of (x ∷ xs) = x + sum_of xs

-- `availability.get(…)` of the line's article is the first argument.
unfoldable pub orderable_unit_price : Option AvailabilityDetail → ℕ → Option ℕ
orderable_unit_price none quantity = none
orderable_unit_price (some detail) quantity =
    if detail.available && leb quantity (sum_of detail.availability_by_warehouse)
    then detail.best_price_inc_vat
    else none

pub record OrderableLine : Type 0 where
  pub article : ℕ
  pub quantity : ℕ

pub record PricedLine : Type 0 where
  pub line : OrderableLine
  pub unit_price : ℕ

pub record PricedLines : Type 0 where
  pub priced : List PricedLine
  pub unorderable : List OrderableLine

module _ (availability : ℕ → Option AvailabilityDetail) where
  abbrev pub price_line : OrderableLine → PricedLines → PricedLines
  price_line line r = elim (orderable_unit_price (availability line.article) line.quantity) [
    | none ↦ record r { unorderable = r.unorderable ++ line ∷ [] }
    | some unit_price ↦ record r {
      priced = r.priced ++ record { line = line; unit_price = unit_price } ∷ [];
    }
  ]

  abbrev pub price_from : PricedLines → List OrderableLine → PricedLines
  price_from r [] = r
  price_from r (line ∷ lines) = price_from (price_line line r) lines

  unfoldable pub price_lines : List OrderableLine → PricedLines
  price_lines lines = price_from (record { priced = []; unorderable = [] }) lines

  -- `none` is the exception that an article is unavailable.
  unfoldable pub require_priced_lines : List OrderableLine → Option (List PricedLine)
  unfolding price_lines
  require_priced_lines lines =
      let r = price_lines lines in if ltb 0 (length r.unorderable) then none else some r.priced

-- `CarrierQuote`
pub record CarrierQuote : Type 0 where
  pub price_inc_vat_cents : ℕ
  pub cash_on_delivery_fee_inc_vat_cents : Option ℕ
  pub expected_delivery_date : Option ℕ

unfoldable pub amount_to_collect_cents : ℕ → CarrierQuote → ℕ
amount_to_collect_cents goods_cents quote =
    goods_cents + quote.price_inc_vat_cents + get_or_else quote.cash_on_delivery_fee_inc_vat_cents 0
