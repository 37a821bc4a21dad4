-- ===== src/Checkout/Examples.antt =====
-- An order's figures at a VAT rate of a fifth.
use vp_parts.Base.{
  ℕ, ◌+◌, ◌≡◌, true, Option, none, some, List, [], ◌∷◌, arith, ◌==◌, if◌then◌else◌, length,
}
use vp_parts.Checkout.{
  OrderMoneyLine, VatRate, order_money, AvailabilityDetail, OrderableLine, price_lines,
}
use vp_parts.Checkout.Money.{order_money_adds_up, price_lines_parts}

abbrev a_fifth : VatRate
a_fifth = record { rate_num = 20; rate_den = 100 }

abbrev two_lines : List OrderMoneyLine
two_lines =
    record { unit_price = 1200; quantity = 2 } ∷ record { unit_price = 333; quantity = 1 } ∷ []

order_money_adds_up_example :
    (order_money two_lines 600 100 a_fifth).net_amount
      + (order_money two_lines 600 100 a_fifth).vat_amount
    ≡ (order_money two_lines 600 100 a_fifth).total
order_money_adds_up_example = (order_money_adds_up two_lines 600 100 a_fifth (omega arith)).1

abbrev stock : ℕ → Option AvailabilityDetail
stock a =
    if a == 1
    then some (record {
      available = true;
      best_price_inc_vat = some 1200;
      availability_by_warehouse = 2 ∷ 3 ∷ [];
    })
    else none

abbrev wanted : List OrderableLine
wanted = record { article = 1; quantity = 5 } ∷ record { article = 2; quantity = 1 } ∷ []

price_lines_parts_example :
    length (price_lines stock wanted).unorderable + length (price_lines stock wanted).priced ≡ 2
price_lines_parts_example = (price_lines_parts stock wanted).2
