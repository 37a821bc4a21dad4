-- ===== src/Inventory/Offers.antt =====
-- Which offer a part shows, apps/api/src/inventory/best-offer.ts. Stocks and prices are not
-- negative. The map of buckets is the list of its entries in the order of their insertion, each
-- under its outcome's rank. `none` of `resolve_price` is the error of reading a price from no source.
pub mod Buckets
pub mod Best
pub mod Window
pub mod Selection
pub mod Prices
use vp_parts.Base.{
  ℕ, Bool, true, false, not, Option, none, some, List, [], ◌∷◌, ◌++◌, ltb, leb, ◌==◌, if◌then◌else◌,
  get_or_else, is_none, keep_if, sort_by,
}
use vp_parts.Checkout.{VatRate, without_vat}
use vp_parts.Inventory.Rules.{
  DeliveryRule, Supplier, WarehouseCode, DeliveryOutcome, own_stock_outcome,
}

pub record OwnOffer : Type 0 where
  pub quantity : ℕ
  pub price_ex_vat : ℕ
  pub price_inc_vat : ℕ

pub record SupplierOffer : Type 0 where
  pub supplier_source : Option Supplier
  pub warehouse_code : Option WarehouseCode
  pub quantity : ℕ
  pub buy_price : ℕ
  pub sell_price : ℕ
  pub rule : DeliveryRule
  pub delivery : DeliveryOutcome

pub record OfferSource : Type 0 where
  pub supplier_source : Option Supplier
  pub warehouse_code : Option WarehouseCode
  pub quantity : ℕ
  pub buy_price : Option ℕ
  pub sell_price : ℕ

pub record BestOffer : Type 0 where
  pub available : Bool
  pub price_ex_vat : Option ℕ
  pub price_inc_vat : Option ℕ

pub record DeliveryBucket : Type 0 where
  pub outcome : DeliveryOutcome
  pub sources : List OfferSource

pub record ResolvedPrice : Type 0 where
  pub price_ex_vat : ℕ
  pub price_inc_vat : ℕ

abbrev pub add_source : DeliveryOutcome → OfferSource → List DeliveryBucket → List DeliveryBucket
add_source outcome source [] = record { outcome = outcome; sources = source ∷ [] } ∷ []
add_source outcome source (bucket ∷ buckets) =
    let rest = add_source outcome source buckets in
    if bucket.outcome.rank == outcome.rank
    then record bucket { sources = bucket.sources ++ source ∷ [] } ∷ buckets
    else bucket ∷ rest

abbrev pub own_source : OwnOffer → OfferSource
own_source own = record {
  supplier_source = none;
  warehouse_code = none;
  quantity = own.quantity;
  buy_price = none;
  sell_price = own.price_inc_vat;
}

abbrev pub to_source : SupplierOffer → OfferSource
to_source supplier = record {
  supplier_source = supplier.supplier_source;
  warehouse_code = supplier.warehouse_code;
  quantity = supplier.quantity;
  buy_price = some supplier.buy_price;
  sell_price = supplier.sell_price;
}

abbrev pub own_buckets : Option OwnOffer → List DeliveryBucket
own_buckets none = []
own_buckets (some own) =
    if ltb 0 own.quantity then add_source own_stock_outcome (own_source own) [] else []

-- The loop over the suppliers' lines.
abbrev pub add_suppliers : List DeliveryBucket → List SupplierOffer → List DeliveryBucket
add_suppliers buckets [] = buckets
add_suppliers buckets (supplier ∷ suppliers) =
    add_suppliers
      (if leb supplier.quantity 0
        then buckets
        else add_source supplier.delivery (to_source supplier) buckets)
      suppliers

-- `reduce` from the first bucket.
abbrev pub fastest_of : DeliveryBucket → List DeliveryBucket → DeliveryBucket
fastest_of current [] = current
fastest_of current (candidate ∷ candidates) =
    fastest_of (if ltb candidate.outcome.rank current.outcome.rank then candidate else current)
      candidates

-- A comparison by buy price, then by sell price, that answers less than 0.
abbrev pub is_sourced_before : ℕ → ℕ → ℕ → ℕ → Bool
is_sourced_before buy sell other_buy other_sell =
    if buy == other_buy then ltb sell other_sell else ltb buy other_buy

abbrev pub is_own_source : OfferSource → Bool
is_own_source source = is_none source.buy_price

abbrev pub is_purchased : OfferSource → Bool
is_purchased source = not (is_own_source source)

abbrev pub is_source_before : OfferSource → OfferSource → Bool
is_source_before a b =
    is_sourced_before (get_or_else a.buy_price 0) a.sell_price (get_or_else b.buy_price 0)
      b.sell_price

abbrev pub sorted_cheapest_first : List OfferSource → List OfferSource
sorted_cheapest_first sources =
    keep_if is_own_source sources ++ sort_by is_source_before (keep_if is_purchased sources)

abbrev pub fastest_window_sources : DeliveryBucket → List DeliveryBucket → List OfferSource
fastest_window_sources bucket buckets = sorted_cheapest_first (fastest_of bucket buckets).sources

-- Faster delivery wins; within one band the sourcing order decides.
abbrev pub is_preferred_supplier : SupplierOffer → SupplierOffer → Bool
is_preferred_supplier candidate current =
    if candidate.delivery.rank == current.delivery.rank
    then is_sourced_before candidate.buy_price candidate.sell_price current.buy_price
        current.sell_price
    else ltb candidate.delivery.rank current.delivery.rank

abbrev pub is_chosen : SupplierOffer → Option SupplierOffer → Bool
is_chosen supplier none = true
is_chosen supplier (some current) = is_preferred_supplier supplier current

-- The loop of `sourcedSupplierSellPrice`.
abbrev pub sourced_from : Option SupplierOffer → List SupplierOffer → Option SupplierOffer
sourced_from sourced [] = sourced
sourced_from sourced (supplier ∷ suppliers) =
    sourced_from
      (if leb supplier.quantity 0
        then sourced
        else if is_chosen supplier sourced
        then some supplier
        else sourced)
      suppliers

unfoldable pub sourced_supplier_sell_price : List SupplierOffer → Option ℕ
sourced_supplier_sell_price suppliers = elim (sourced_from none suppliers) [
  | none ↦ none
  | some s ↦ some s.sell_price
]

abbrev pub from_inc_vat_price : ℕ → VatRate → ResolvedPrice
from_inc_vat_price inc_vat rate = record {
  price_ex_vat = without_vat inc_vat rate;
  price_inc_vat = inc_vat;
}

abbrev pub own_price : OwnOffer → ResolvedPrice
own_price own = record { price_ex_vat = own.price_ex_vat; price_inc_vat = own.price_inc_vat }

abbrev pub keep_or_raise : OwnOffer → Option ℕ → VatRate → ResolvedPrice
keep_or_raise own none rate = own_price own
keep_or_raise own (some reference) rate =
    if ltb own.price_inc_vat reference then from_inc_vat_price reference rate else own_price own

abbrev pub price_of_first : List OfferSource → VatRate → Option ResolvedPrice
price_of_first [] rate = none
price_of_first (source ∷ sources) rate = some (from_inc_vat_price source.sell_price rate)

unfoldable pub resolve_price :
    Option OwnOffer → List SupplierOffer → List OfferSource → VatRate → Option ResolvedPrice
unfolding sourced_supplier_sell_price
resolve_price (some own) suppliers sorted_sources rate =
    some (keep_or_raise own (sourced_supplier_sell_price suppliers) rate)
resolve_price none suppliers sorted_sources rate = price_of_first sorted_sources rate

abbrev pub unavailable_offer : Option OwnOffer → BestOffer
unavailable_offer none = record { available = false; price_ex_vat = none; price_inc_vat = none }
unavailable_offer (some own) = record {
  available = false;
  price_ex_vat = some own.price_ex_vat;
  price_inc_vat = some own.price_inc_vat;
}

abbrev pub available_offer : ResolvedPrice → BestOffer
available_offer price = record {
  available = true;
  price_ex_vat = some price.price_ex_vat;
  price_inc_vat = some price.price_inc_vat;
}

unfoldable pub offer_of_buckets :
    Option OwnOffer → List SupplierOffer → VatRate → List DeliveryBucket → Option BestOffer
unfolding resolve_price
offer_of_buckets own suppliers rate [] = some (unavailable_offer own)
offer_of_buckets own suppliers rate (bucket ∷ buckets) =
    elim (resolve_price own suppliers (fastest_window_sources bucket buckets) rate) [
      | none ↦ none
      | some price ↦ some (available_offer price)
    ]

unfoldable pub select_best_offer : Option OwnOffer → List SupplierOffer → VatRate → Option BestOffer
unfolding offer_of_buckets
select_best_offer own suppliers rate =
    offer_of_buckets own suppliers rate (add_suppliers (own_buckets own) suppliers)
