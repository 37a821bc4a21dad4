-- ===== src/Delivery/Carriers.antt =====
-- The price of a delivery, apps/api/src/delivery/delivery.service.ts. A carrier is a record of its
-- answers, each of which may be an error; a quote is the cache's answer or the carrier's. The texts
-- of offices, places and addresses are numbers. Of calls that the code makes at once, the first error
-- in the order of the code is the answer. The lists for the customer's search are left out.
pub mod Lockers
use vp_parts.Base.{
  ℕ, Bool, false, not, ◌&&◌, Option, none, some, List, ◌==◌, if◌then◌else◌, get_or_else, is_none,
  find_row,
}
use vp_parts.Checkout.{CarrierQuote, amount_to_collect_cents}
use vp_parts.Inventory.Availability.{ArticleInventoryDetail}
use vp_parts.Delivery.Parcel.{
  ParcelLine, Parcel, LockerLimits, estimate_parcel, fits_locker, parcel_ready_date,
}

-- The errors of the delivery and the checkout; `carrier_error` is any other that a call throws.
pub data CheckoutError : Type 0 where
  office_not_found address_refused address_not_served locker_ineligible carrier_unregistered
        carrier_error cart_empty article_unavailable inventory_unavailable :
      CheckoutError

pub data Outcome (A : Type 0) : Type 0 where
  done : A → Outcome A
  refused : CheckoutError → Outcome A

infix 10 ◌>>=◌
abbrev pub ◌>>=◌ : {A B : Type 0} → Outcome A → (A → Outcome B) → Outcome B
(done a) >>= f = f a
(refused e) >>= f = refused e

pub record Office : Type 0 where
  pub code : ℕ
  pub is_locker : Bool
  pub details : ℕ

pub record Address : Type 0 where
  pub place_id : ℕ
  pub details : ℕ

pub record Place : Type 0 where
  pub id : ℕ
  pub name : ℕ
  pub post_code : ℕ

pub data Destination : Type 0 where
  to_office : ℕ → Destination
  to_address : Address → Destination

pub data PlaceOrderDelivery : Type 0 where
  store_pickup : PlaceOrderDelivery
  courier_office : (carrier office_code : ℕ) → PlaceOrderDelivery
  courier_address : (carrier : ℕ) (address : Address) → PlaceOrderDelivery

pub data CheckedDestination : Type 0 where
  checked_office : Office → CheckedDestination
  checked_address : Address → Place → CheckedDestination

pub record Shipment : Type 0 where
  pub parcel : Parcel
  pub send_date : Option ℕ
  pub cash_on_delivery_cents : Option ℕ

pub record DeliveryCarrier : Type 0 where
  pub locker_limits : Option LockerLimits
  pub find_office : ℕ → Outcome (Option Office)
  pub list_address_places : Outcome (List Place)
  pub is_address_invalid : Address → Outcome Bool
  pub cached_quote : Destination → Shipment → Outcome CarrierQuote

pub record ParcelEstimate : Type 0 where
  pub weight_grams : ℕ
  pub is_locker_eligible : Bool

-- `DeliveryPrice`, whose method and carrier are those of the delivery that was asked for.
pub record PricedDelivery : Type 0 where
  pub method : PlaceOrderDelivery
  pub destination : Option CheckedDestination
  pub delivery_price : ℕ
  pub cash_on_delivery_fee : ℕ
  pub expected_delivery_date : Option ℕ
  pub parcel_weight_grams : Option ℕ

pub record StockedLines : Type 0 where
  pub lines : List ParcelLine
  pub availability : ℕ → Option ArticleInventoryDetail

pub record DeliveryTerms : Type 0 where
  pub goods_to_collect_cents : Option ℕ
  pub is_binding : Bool

pub record QuotedParcel : Type 0 where
  pub parcel : ParcelEstimate
  pub checked : CheckedDestination
  pub quote : CarrierQuote

abbrev pub is_eligible : Parcel → Option LockerLimits → Bool
is_eligible parcel none = false
is_eligible parcel (some limits) = not parcel.has_estimated_units && fits_locker parcel limits

unfoldable pub to_parcel_estimate : Parcel → DeliveryCarrier → ParcelEstimate
to_parcel_estimate parcel courier = record {
  weight_grams = parcel.weight_grams;
  is_locker_eligible = is_eligible parcel courier.locker_limits;
}

unfoldable pub find_address_place : DeliveryCarrier → ℕ → Outcome Place
find_address_place courier place_id = do
  places ← courier.list_address_places
  elim (find_row (λ p. p.id == place_id) places) [
    | none ↦ refused address_not_served
    | some place ↦ done place
  ]

abbrev pub check_office : ParcelEstimate → Option Office → Outcome CheckedDestination
check_office parcel none = refused office_not_found
check_office parcel (some office) =
    if office.is_locker && not parcel.is_locker_eligible
    then refused locker_ineligible
    else done (checked_office office)

unfoldable pub check_destination :
    DeliveryCarrier → Destination → ParcelEstimate → Outcome CheckedDestination
unfolding find_address_place
check_destination courier (to_address address) parcel = do
  place ← find_address_place courier address.place_id
  done (checked_address address place)
check_destination courier (to_office code) parcel = do
  office ← courier.find_office code
  check_office parcel office

unfoldable pub cash_on_delivery_quote :
    DeliveryCarrier → Destination → Shipment → ℕ → Outcome CarrierQuote
unfolding amount_to_collect_cents
cash_on_delivery_quote courier destination shipment goods_cents = do
  on_goods ←
      courier.cached_quote destination
        (record shipment { cash_on_delivery_cents = some goods_cents })
  courier.cached_quote destination (record shipment {
    cash_on_delivery_cents = some (amount_to_collect_cents goods_cents on_goods);
  })

abbrev pub quote_of : DeliveryCarrier → Destination → Shipment → Option ℕ → Outcome CarrierQuote
quote_of courier destination shipment none = courier.cached_quote destination shipment
quote_of courier destination shipment (some goods_cents) =
    cash_on_delivery_quote courier destination shipment goods_cents

abbrev pub carrier_for : (ℕ → Option DeliveryCarrier) → ℕ → Outcome DeliveryCarrier
carrier_for carriers carrier = elim (carriers carrier) [
  | none ↦ refused carrier_unregistered
  | some courier ↦ done courier
]

unfoldable pub require_deliverable : DeliveryCarrier → Destination → Outcome (Unit {0})
require_deliverable courier (to_office code) = done tt
require_deliverable courier (to_address address) = do
  is_invalid ← courier.is_address_invalid address
  if is_invalid then refused address_refused else done tt

module _ (shop_date_of : ℕ → ℕ) where
  unfoldable pub quote_shipment :
      DeliveryCarrier → Destination → StockedLines → Parcel → Option ℕ → Outcome CarrierQuote
  unfolding parcel_ready_date cash_on_delivery_quote
  quote_shipment courier destination stocked estimate goods_to_collect = do
    let send_date = parcel_ready_date shop_date_of stocked.availability stocked.lines
    quote ←
        quote_of courier destination
          (record { parcel = estimate; send_date = send_date; cash_on_delivery_cents = none })
          goods_to_collect
    done (record quote {
      expected_delivery_date = if is_none send_date then none else quote.expected_delivery_date;
    })

  unfoldable pub check_and_quote :
      DeliveryCarrier → Destination → StockedLines → Option ℕ → Outcome QuotedParcel
  unfolding estimate_parcel to_parcel_estimate check_destination quote_shipment
  check_and_quote courier destination stocked goods_to_collect = do
    let estimate = estimate_parcel stocked.lines
    let parcel = to_parcel_estimate estimate courier
    checked ← check_destination courier destination parcel
    quote ← quote_shipment courier destination stocked estimate goods_to_collect
    done (record { parcel = parcel; checked = checked; quote = quote })

  abbrev pub store_pickup_of : StockedLines → PricedDelivery
  store_pickup_of stocked = record {
    method = store_pickup;
    destination = none;
    delivery_price = 0;
    cash_on_delivery_fee = 0;
    expected_delivery_date = parcel_ready_date shop_date_of stocked.availability stocked.lines;
    parcel_weight_grams = none;
  }

  abbrev pub to_delivery_price : PlaceOrderDelivery → QuotedParcel → PricedDelivery
  to_delivery_price choice quoted = record {
    method = choice;
    destination = some quoted.checked;
    delivery_price = quoted.quote.price_inc_vat_cents;
    cash_on_delivery_fee = get_or_else quoted.quote.cash_on_delivery_fee_inc_vat_cents 0;
    expected_delivery_date = quoted.quote.expected_delivery_date;
    parcel_weight_grams = some quoted.parcel.weight_grams;
  }

  -- A delivery by courier.
  unfoldable pub price_courier :
      (ℕ → Option DeliveryCarrier)
      → PlaceOrderDelivery
      → ℕ
      → Destination
      → StockedLines
      → DeliveryTerms
      → Outcome PricedDelivery
  unfolding check_and_quote require_deliverable
  price_courier carriers choice carrier destination stocked terms = do
    courier ← carrier_for carriers carrier
    quoted ← check_and_quote courier destination stocked terms.goods_to_collect_cents
    deliverable ← (if terms.is_binding then require_deliverable courier destination else done tt)
    done (to_delivery_price choice quoted)

  unfoldable pub price_delivery :
      (ℕ → Option DeliveryCarrier)
      → StockedLines
      → PlaceOrderDelivery
      → DeliveryTerms
      → Outcome PricedDelivery
  unfolding price_courier
  price_delivery carriers stocked store_pickup terms = done (store_pickup_of stocked)
  price_delivery carriers stocked (courier_office carrier code) terms =
      price_courier carriers (courier_office carrier code) carrier (to_office code) stocked terms
  price_delivery carriers stocked (courier_address carrier address) terms =
      price_courier carriers (courier_address carrier address) carrier (to_address address) stocked
        terms
