-- ===== src/Delivery/Examples.antt =====
-- An order of two measured boxes to a locker, paid on delivery.
use vp_parts.Base.{
  ℕ, ◌≡◌, refl, true, false, Option, none, some, List, [], ◌∷◌, ◌==◌, if◌then◌else◌, is_none,
}
use vp_parts.Cart.Shipping.{PackageSizeCm}
use vp_parts.Orders.{OrderMoney}
use vp_parts.Checkout.{
  VatRate, CarrierQuote, order_money, without_vat, goods_total, amount_to_collect_cents,
  orderable_unit_price, price_lines,
}
use vp_parts.Inventory.Rules.{central}
use vp_parts.Inventory.Schedule.{DeliveryProjection, day_granularity}
use vp_parts.Inventory.Availability.{ArticleInventoryDetail}
use vp_parts.Delivery.Parcel.{
  ParcelLine, LockerLimits, estimate_parcel, fits_locker, select_warehouse_for_quantity,
  line_ready_date, parcel_ready_date,
}
use vp_parts.Delivery.Carriers.{
  Outcome, done, Office, Destination, to_office, courier_office, checked_office, Shipment,
  DeliveryCarrier, to_parcel_estimate, check_destination, cash_on_delivery_quote, quote_shipment,
  check_and_quote, require_deliverable, price_courier, price_delivery,
}
use vp_parts.Delivery.Checkout.{
  CheckoutOrder, DeliveryQuote, to_courier_delivery, price_goods, money_of, price_checked,
  price_stocked, price_with_delivery, estimate_for, quote_delivery, price_order,
}
use vp_parts.Delivery.Checkout.Quotes.{IsShown, price_order-quoted, quote_delivery-placed}

abbrev a_fifth : VatRate
a_fifth = record { rate_num = 20; rate_den = 100 }

abbrev box : PackageSizeCm
box = record { side_length = 20; side_width = 10; side_height = 12 }

abbrev lines : List ParcelLine
lines =
    record {
      article = 1;
      quantity = 2;
      shipping_profile = record {
        weight_grams = some 900;
        package_cm = some box;
        is_estimated = false;
      };
    }
    ∷ []

abbrev pickup : DeliveryProjection
pickup = record { earliest_at = 4; granularity = day_granularity }

abbrev detail : ArticleInventoryDetail
detail = record {
  available = true;
  best_price_ex_vat = some 1000;
  best_price_inc_vat = some 1200;
  availability_by_warehouse =
      record {
        warehouse_id = central;
        quantity = 5;
        projection = record {
          delivery_work_days = 0;
          order_cutoff_time = 18;
          cutoff_at = 3;
          pickup = pickup;
          courier = pickup;
        };
      }
      ∷ [];
  computed_at = 2;
}

abbrev read : List ℕ → Outcome (ℕ → Option ArticleInventoryDetail)
read articles = done (λ a. if a == 1 then some detail else none)

abbrev a_locker : Office
a_locker = record { code = 77; is_locker = true; details = 0 }

abbrev quoted : Destination → Shipment → Outcome CarrierQuote
quoted destination shipment = done (record {
  price_inc_vat_cents = 600;
  cash_on_delivery_fee_inc_vat_cents =
      if is_none shipment.cash_on_delivery_cents then none else some 100;
  expected_delivery_date = some 9;
})

abbrev limits : LockerLimits
limits = record {
  max_sides_cm = 35 ∷ 60 ∷ 37 ∷ [];
  max_weight_grams = 20000;
  fill_num = 1;
  fill_den = 2;
}

abbrev courier : DeliveryCarrier
courier = record {
  locker_limits = some limits;
  find_office = λ code. done (some a_locker);
  list_address_places = done [];
  is_address_invalid = λ _. done false;
  cached_quote = quoted;
}

abbrev carriers : ℕ → Option DeliveryCarrier
carriers carrier = if carrier == 1 then some courier else none

abbrev placing : Outcome CheckoutOrder
placing =
    price_order (λ t. t) carriers a_fifth read lines (to_courier_delivery 1 (to_office 77)) true

abbrev quoting : Outcome DeliveryQuote
quoting = quote_delivery (λ t. t) carriers a_fifth read lines 1 (to_office 77) true

abbrev money : OrderMoney
money = record {
  goods_total = 2400;
  delivery_price = 600;
  cash_on_delivery_fee = 100;
  total = 3100;
  net_amount = 2583;
  vat_amount = 517;
}

abbrev an_order : CheckoutOrder
an_order = record {
  lines = record { line = record { article = 1; quantity = 2 }; unit_price = 1200 } ∷ [];
  delivery = record {
    method = courier_office 1 77;
    destination = some (checked_office a_locker);
    delivery_price = 600;
    cash_on_delivery_fee = 100;
    expected_delivery_date = some 9;
    parcel_weight_grams = some 1800;
  };
  money = money;
}

abbrev a_quote : DeliveryQuote
a_quote = record {
  price_inc_vat_cents = 600;
  cash_on_delivery_fee_inc_vat_cents = some 100;
  expected_delivery_date = some 9;
  parcel = record { weight_grams = 1800; is_locker_eligible = true };
  money = some money;
}

an_order-placed : placing ≡ done an_order
unfolding price_order quote_delivery price_with_delivery price_stocked price_goods price_lines
    orderable_unit_price price_checked money_of order_money without_vat goods_total price_delivery
    price_courier check_and_quote estimate_parcel to_parcel_estimate check_destination
    quote_shipment parcel_ready_date line_ready_date select_warehouse_for_quantity
    cash_on_delivery_quote amount_to_collect_cents require_deliverable estimate_for fits_locker
an_order-placed = refl

a_quote-given : quoting ≡ done a_quote
unfolding price_order quote_delivery price_with_delivery price_stocked price_goods price_lines
    orderable_unit_price price_checked money_of order_money without_vat goods_total price_delivery
    price_courier check_and_quote estimate_parcel to_parcel_estimate check_destination
    quote_shipment parcel_ready_date line_ready_date select_warehouse_for_quantity
    cash_on_delivery_quote amount_to_collect_cents require_deliverable estimate_for fits_locker
a_quote-given = refl

deliverable :
    (c : DeliveryCarrier) → carriers 1 ≡ some c → require_deliverable c (to_office 77) ≡ done tt
unfolding require_deliverable
deliverable c e = refl

price_order-quoted_example :
    (quote : DeliveryQuote) × (quoting ≡ done quote) × IsShown true an_order quote
price_order-quoted_example =
    price_order-quoted (λ t. t) carriers a_fifth read lines 1 (to_office 77) true an_order
      an_order-placed

quote_delivery-placed_example :
    (order : CheckoutOrder) × (placing ≡ done order) × IsShown true order a_quote
quote_delivery-placed_example =
    quote_delivery-placed (λ t. t) carriers a_fifth read lines 1 (to_office 77) true a_quote
      deliverable a_quote-given refl
