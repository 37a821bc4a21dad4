-- ===== src/Inventory/Examples.antt =====
-- A part that the shop and two suppliers have, in a shop that opens from Monday to Saturday.
mod Week
use vp_parts.Base.{
  ℕ, ◌≤◌, ◌≡◌, refl, inl, inr, true, none, some, List, [], ◌∷◌, map, arith, ◌==◌, All, find_row,
}
use vp_parts.Checkout.{VatRate, sum_of, orderable_unit_price}
use vp_parts.Inventory.Rules.{
  within_hour, two_business_days, intercars, auto1, b24, regional_code, Warehouse, warehouse_meta,
  warehouses_fastest_first,
}
use vp_parts.Inventory.Offers.{
  OwnOffer, SupplierOffer, BestOffer, select_best_offer, sourced_supplier_sell_price,
}
use vp_parts.Inventory.Offers.Best.{IsSourced}
use vp_parts.Inventory.Offers.Selection.{scan_offer, select_best_offer-scan}
use vp_parts.Inventory.Offers.Prices.{shown_price, select_best_offer_covers}
use vp_parts.Inventory.Calendar.{add_calendar_days, add_working_days}
use vp_parts.Inventory.Calendar.Opening.{opens}
use vp_parts.Inventory.Calendar.Working.{count_open, add_working_days-counts}
use vp_parts.Inventory.Stock.{OwnStockRow, SupplierStockRow, find_by_article}
use vp_parts.Inventory.Availability.{
  StockTables, ResolvedOffers, DeliveryClock, ProjectedWarehouse, ArticleInventoryDetail,
  AvailabilityEntry, to_offers, build_warehouse_availability, project_warehouses, detail_of,
  get_availability,
}
use vp_parts.Inventory.Availability.Totals.{whole_stock, build_warehouse_availability-total}
use vp_parts.Inventory.Availability.Projected.{project_warehouses-some}
use vp_parts.Inventory.Availability.Answers.{detail_with, get_availability-each}
use vp_parts.Inventory.Availability.Orderable.{to_checkout, detail_of-orderable}
use vp_parts.Inventory.Examples.Week.{
  week, no_holidays, shop, friday, now, week-OpensWithin, shop-IsRegular, friday-IsCivil,
}

abbrev a_fifth : VatRate
a_fifth = record { rate_num = 20; rate_den = 100 }

abbrev own : OwnOffer
own = record { quantity = 3; price_ex_vat = 750; price_inc_vat = 900 }

abbrev fast : SupplierOffer
fast = record {
  supplier_source = some intercars;
  warehouse_code = some b24;
  quantity = 2;
  buy_price = 800;
  sell_price = 1000;
  rule = within_hour;
  delivery = record { rank = 1 };
}

abbrev slow : SupplierOffer
slow = record {
  supplier_source = some auto1;
  warehouse_code = some regional_code;
  quantity = 5;
  buy_price = 700;
  sell_price = 950;
  rule = two_business_days;
  delivery = record { rank = 4 };
}

abbrev both : List SupplierOffer
both = slow ∷ fast ∷ []

abbrev offers : ResolvedOffers
offers = record { own = some own; suppliers = both }

fast-IsSourced : IsSourced fast both
fast-IsSourced = record {
  listed = inr (inl refl);
  in_stock = omega arith;
  first = λ a h _. elim h [
    | inl e ↦ rw e refl
    | inr k ↦ elim k [ inl e ↦ rw e refl | inr l ↦ absurd l ]
  ];
}

select_best_offer-scan_example :
    select_best_offer none both a_fifth
    ≡ some (scan_offer none (sourced_supplier_sell_price both) a_fifth)
select_best_offer-scan_example = select_best_offer-scan none both a_fifth

select_best_offer_covers_example :
    (offer : BestOffer) × (select_best_offer (some own) both a_fifth ≡ some offer)
    × (offer.available ≡ true)
    × (offer.price_inc_vat ≡ some 1000)
    × (1000 ≤ 1000)
select_best_offer_covers_example =
    select_best_offer_covers (some own) both a_fifth fast fast-IsSourced

add_working_days-counts_example :
    (n : ℕ) × (add_working_days 4 friday 2 no_holidays ≡ some (add_calendar_days friday n))
    × (count_open no_holidays friday n ≡ 2)
    × (1 ≤ 2 → opens no_holidays friday n ≡ true)
add_working_days-counts_example =
    add_working_days-counts no_holidays 2 friday 2 week-OpensWithin friday-IsCivil

abbrev Projected : Type 0
Projected =
    (ps : List ProjectedWarehouse) × (project_warehouses shop 6 now warehouses_fastest_first
      ≡ some ps)

all_projected : Projected
all_projected =
    project_warehouses-some shop 2 6 now warehouses_fastest_first shop-IsRegular friday-IsCivil
      (omega arith) (omega arith)

build_warehouse_availability-total_example :
    (sum_of (map (λ r. r.quantity) (build_warehouse_availability offers all_projected.0)) ≡ 10)
    × All (λ r. 1 ≤ r.quantity) (build_warehouse_availability offers all_projected.0)
build_warehouse_availability-total_example =
    build_warehouse_availability-total shop 6 now all_projected.0 offers all_projected.1

abbrev clock : DeliveryClock
clock = record { local_hour = 16; cutoff_hour = 11 }

detail_of-orderable_example :
    (detail : ArticleInventoryDetail) × (detail_of clock a_fifth all_projected.0 7 offers
      ≡ some detail)
    × (orderable_unit_price (some (to_checkout detail)) 10 ≡ some 1000)
detail_of-orderable_example =
    detail_of-orderable clock a_fifth shop 6 7 now all_projected.0 offers fast 10 all_projected.1
      fast-IsSourced

abbrev tables : StockTables
tables = record {
  own_table =
      record {
        article = 1;
        available_quantity = 3;
        sell_price_ex_vat = 750;
        sell_price_inc_vat = 900;
      }
      ∷ [];
  supplier_table =
      record {
        article = 2;
        supplier_source = some auto1;
        warehouse_code = some regional_code;
        availability = some 5;
        buy_price = 700;
        sell_price = 950;
      }
      ∷ [];
}

get_availability-each_example :
    (r : List AvailabilityEntry) × (get_availability clock a_fifth all_projected.0 7
        (some tables)
        (2 ∷ 1 ∷ 2 ∷ [])
      ≡ some r)
    × (find_row (λ e. 2 == e.article) r
        ≡ some (record {
          article = 2;
          detail =
              detail_with clock a_fifth all_projected.0 7
                (to_offers clock [] (find_by_article (λ r. r.article) tables.supplier_table 2));
        }))
get_availability-each_example =
    get_availability-each clock a_fifth all_projected.0 7 tables (2 ∷ 1 ∷ 2 ∷ []) 2
