-- ===== src/Inventory/Availability/Orderable.antt =====
-- When a line of an article that a supplier has can be ordered, from the tables' offers in
-- inventory.service.ts to the rule of orderable-price.ts.
use vp_parts.Base.{ℕ, ◌≡◌, true, none, some, List, map, arith, leb, if◌then◌else◌}
use vp_parts.Checkout.{VatRate, AvailabilityDetail, sum_of, orderable_unit_price}
use vp_parts.Inventory.Rules.{warehouses_fastest_first}
use vp_parts.Inventory.Offers.{SupplierOffer}
use vp_parts.Inventory.Offers.Best.{IsSourced}
use vp_parts.Inventory.Offers.Prices.{shown_price, sourced_price-IsSourced, scan_offer-price}
use vp_parts.Inventory.Calendar.{CivilDateTime}
use vp_parts.Inventory.Schedule.{ScheduleConfig}
use vp_parts.Inventory.Availability.{
  ResolvedOffers, DeliveryClock, ProjectedWarehouse, ArticleInventoryDetail, project_warehouses,
  detail_of,
}
use vp_parts.Inventory.Availability.Totals.{whole_stock, build_warehouse_availability-total}
use vp_parts.Inventory.Availability.Answers.{detail_with, detail_of-some}

-- What orderable-price.ts reads of a detail.
abbrev pub to_checkout : ArticleInventoryDetail → AvailabilityDetail
to_checkout detail = record {
  available = detail.available;
  best_price_inc_vat = detail.best_price_inc_vat;
  availability_by_warehouse = map (λ r. r.quantity) detail.availability_by_warehouse;
}

price_by_stock :
    (detail : AvailabilityDetail) (quantity stock price : ℕ)
    → detail.available ≡ true
    → detail.best_price_inc_vat ≡ some price
    → sum_of detail.availability_by_warehouse ≡ stock
    → orderable_unit_price (some detail) quantity
      ≡ (if leb quantity stock then some price else none)
unfolding orderable_unit_price
price_by_stock detail quantity stock price a p s = ground (arith, a, p, s)

-- An article that a supplier has in stock can be ordered exactly up to what the shop and its
-- suppliers hold together, at the price of the supplier that it would be bought from, or the shop's
-- own if that is higher.
pub detail_of-orderable :
    (clock : DeliveryClock) (rate : VatRate) (config : ScheduleConfig) (fuel now : ℕ)
    → (civil_now : CivilDateTime) (ps : List ProjectedWarehouse) (offers : ResolvedOffers)
    → (m : SupplierOffer) (quantity : ℕ)
    → project_warehouses config fuel civil_now warehouses_fastest_first ≡ some ps
    → IsSourced m offers.suppliers
    → (detail : ArticleInventoryDetail) × (detail_of clock rate ps now offers ≡ some detail)
      × (orderable_unit_price (some (to_checkout detail)) quantity ≡ (
          if leb quantity (whole_stock offers)
          then some (shown_price offers.own m.sell_price)
          else none))
detail_of-orderable clock rate config fuel now civil_now ps offers m quantity e s =
    let price = sourced_price-IsSourced m offers.suppliers s in
    let (available, shown) = scan_offer-price offers.own m.sell_price rate in
    let (total, _) = build_warehouse_availability-total config fuel civil_now ps offers e in
    let detail = detail_with clock rate ps now offers in
    (
      detail,
      detail_of-some clock rate ps now offers,
      price_by_stock (to_checkout detail) quantity (whole_stock offers)
          (shown_price offers.own m.sell_price) (rw price available) (rw price shown) total,
    )
