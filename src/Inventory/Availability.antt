-- ===== src/Inventory/Availability.antt =====
-- The price and the availability of articles, apps/api/src/inventory/inventory.service.ts. `none` of
-- the tables is that a read fails. The warehouses' projections for the instant of the read, and what
-- `DeliverySpeedResolver` reads from the clock and the configuration, are arguments. `none` of an
-- answer is an exception. Logging is left out.
pub mod Totals
pub mod Answers
pub mod Orderable
pub mod Projected
use vp_parts.Base.{
  ℕ, ◌+◌, Bool, ◌&&◌, Option, none, some, List, [], ◌∷◌, ◌++◌, ltb, leb, ◌==◌, if◌then◌else◌,
  get_or_else, is_none, ◌>>=◌, contains,
}
use vp_parts.Checkout.{VatRate}
use vp_parts.Inventory.Rules.{
  Supplier, WarehouseCode, DeliveryResolution, resolve_delivery, Warehouse, central,
  warehouse_for_own_stock, warehouse_for_rule, is_same_warehouse, warehouses_fastest_first,
}
use vp_parts.Inventory.Offers.{OwnOffer, SupplierOffer, BestOffer, select_best_offer}
use vp_parts.Inventory.Stock.{
  OwnStockRow, SupplierStockRow, Group, find_by_article, find_by_articles, rows_of,
}
use vp_parts.Inventory.Calendar.{CivilDateTime}
use vp_parts.Inventory.Schedule.{WarehouseProjection, ScheduleConfig, project_warehouse}

pub record StockTables : Type 0 where
  pub own_table : List OwnStockRow
  pub supplier_table : List SupplierStockRow

pub record StockByArticle : Type 0 where
  pub own : List (Group OwnStockRow)
  pub suppliers : List (Group SupplierStockRow)

pub record ResolvedOffers : Type 0 where
  pub own : Option OwnOffer
  pub suppliers : List SupplierOffer

-- The hour in the shop's time zone, and the hour before which an order ships the same day.
pub record DeliveryClock : Type 0 where
  pub local_hour : ℕ
  pub cutoff_hour : ℕ

pub record ProjectedWarehouse : Type 0 where
  pub warehouse : Warehouse
  pub projection : WarehouseProjection

pub record WarehouseQuantity : Type 0 where
  pub warehouse : Warehouse
  pub quantity : ℕ

pub record WarehouseAvailability : Type 0 where
  pub warehouse_id : Warehouse
  pub quantity : ℕ
  pub projection : WarehouseProjection

pub record ArticleInventoryDetail : Type 0 where
  pub available : Bool
  pub best_price_ex_vat : Option ℕ
  pub best_price_inc_vat : Option ℕ
  pub availability_by_warehouse : List WarehouseAvailability
  pub computed_at : ℕ

pub record AvailabilityEntry : Type 0 where
  pub article : ℕ
  pub detail : ArticleInventoryDetail

abbrev pub empty_offers : ResolvedOffers
empty_offers = record { own = none; suppliers = [] }

abbrev pub unique_from : List ℕ → List ℕ → List ℕ
unique_from seen [] = seen
unique_from seen (article ∷ articles) =
    unique_from (if contains seen article then seen else seen ++ article ∷ []) articles

unfoldable pub unique_articles : List ℕ → List ℕ
unique_articles articles = unique_from [] articles

unfoldable pub read_single : StockTables → ℕ → StockByArticle
read_single tables article = record {
  own =
      record { article = article; rows = find_by_article (λ r. r.article) tables.own_table article }
      ∷ [];
  suppliers =
      record {
        article = article;
        rows = find_by_article (λ r. r.article) tables.supplier_table article;
      }
      ∷ [];
}

unfoldable pub read_batch : StockTables → List ℕ → StockByArticle
read_batch tables articles = record {
  own = find_by_articles (λ r. r.article) tables.own_table articles;
  suppliers = find_by_articles (λ r. r.article) tables.supplier_table articles;
}

abbrev pub sum_available : List OwnStockRow → ℕ
sum_available [] = 0
sum_available (row ∷ rows) = row.available_quantity + sum_available rows

-- `reduce` from the first row.
abbrev pub cheapest_of : OwnStockRow → List OwnStockRow → OwnStockRow
cheapest_of best [] = best
cheapest_of best (current ∷ rows) =
    cheapest_of (if ltb current.sell_price_inc_vat best.sell_price_inc_vat then current else best)
      rows

unfoldable pub to_own_offer : List OwnStockRow → Option OwnOffer
to_own_offer [] = none
to_own_offer (row ∷ rows) = some (record {
  quantity = sum_available (row ∷ rows);
  price_ex_vat = (cheapest_of row rows).sell_price_ex_vat;
  price_inc_vat = (cheapest_of row rows).sell_price_inc_vat;
})

-- The offer of a row, unless its quantity or its delivery is not known.
unfoldable pub to_supplier_offer : DeliveryClock → SupplierStockRow → Option SupplierOffer
to_supplier_offer clock row = do
  quantity ← row.availability
  resolution ←
      resolve_delivery row.supplier_source row.warehouse_code clock.local_hour clock.cutoff_hour
  some (record {
    supplier_source = row.supplier_source;
    warehouse_code = row.warehouse_code;
    quantity = quantity;
    buy_price = row.buy_price;
    sell_price = row.sell_price;
    rule = resolution.rule;
    delivery = resolution.outcome;
  })

abbrev pub to_supplier_offers : DeliveryClock → List SupplierStockRow → List SupplierOffer
to_supplier_offers clock [] = []
to_supplier_offers clock (row ∷ rows) = elim (to_supplier_offer clock row) [
  | none ↦ to_supplier_offers clock rows
  | some offer ↦ offer ∷ to_supplier_offers clock rows
]

unfoldable pub to_offers : DeliveryClock → List OwnStockRow → List SupplierStockRow → ResolvedOffers
unfolding to_own_offer to_supplier_offer
to_offers clock own_rows supplier_rows = record {
  own = to_own_offer own_rows;
  suppliers = to_supplier_offers clock supplier_rows;
}

-- `get` of the map that `toOffersByArticle` makes: an entry for each article that has rows.
unfoldable pub offers_of : DeliveryClock → StockByArticle → ℕ → Option ResolvedOffers
unfolding to_offers
offers_of clock stock article =
    if is_none (rows_of stock.own article) && is_none (rows_of stock.suppliers article)
    then none
    else some (
        to_offers clock (get_or_else (rows_of stock.own article) [])
          (get_or_else (rows_of stock.suppliers article) []))

abbrev pub read_stock : StockTables → List ℕ → StockByArticle
read_stock tables [] = read_batch tables []
read_stock tables (article ∷ []) = read_single tables article
read_stock tables (article ∷ other ∷ articles) = read_batch tables (article ∷ other ∷ articles)

unfoldable pub project_warehouses :
    ScheduleConfig → ℕ → CivilDateTime → List Warehouse → Option (List ProjectedWarehouse)
unfolding project_warehouse
project_warehouses config fuel now [] = some []
project_warehouses config fuel now (warehouse ∷ warehouses) = do
  projection ← project_warehouse config fuel warehouse now
  rest ← project_warehouses config fuel now warehouses
  some (record { warehouse = warehouse; projection = projection } ∷ rest)

abbrev pub add_quantity : List WarehouseQuantity → Warehouse → ℕ → List WarehouseQuantity
add_quantity [] warehouse quantity = record { warehouse = warehouse; quantity = quantity } ∷ []
add_quantity (row ∷ rows) warehouse quantity =
    let rest = add_quantity rows warehouse quantity in
    if is_same_warehouse row.warehouse warehouse
    then record row { quantity = row.quantity + quantity } ∷ rows
    else row ∷ rest

abbrev pub quantity_of : List WarehouseQuantity → Warehouse → Option ℕ
quantity_of [] warehouse = none
quantity_of (row ∷ rows) warehouse =
    if is_same_warehouse row.warehouse warehouse
    then some row.quantity
    else quantity_of rows warehouse

abbrev pub own_quantities : Option OwnOffer → List WarehouseQuantity
own_quantities none = []
own_quantities (some own) =
    if ltb 0 own.quantity then add_quantity [] warehouse_for_own_stock own.quantity else []

-- The loop over the suppliers' offers.
abbrev pub add_quantities : List WarehouseQuantity → List SupplierOffer → List WarehouseQuantity
add_quantities rows [] = rows
add_quantities rows (supplier ∷ suppliers) =
    add_quantities
      (if leb supplier.quantity 0
        then rows
        else add_quantity rows (warehouse_for_rule supplier.rule) supplier.quantity)
      suppliers

-- The loop over the projections: a warehouse with no quantity has no row.
abbrev pub available_rows :
    List WarehouseQuantity → List ProjectedWarehouse → List WarehouseAvailability
available_rows rows [] = []
available_rows rows (p ∷ ps) =
    let quantity = get_or_else (quantity_of rows p.warehouse) 0 in
    let rest = available_rows rows ps in
    if quantity == 0
    then rest
    else record { warehouse_id = p.warehouse; quantity = quantity; projection = p.projection }
      ∷ rest

unfoldable pub build_warehouse_availability :
    ResolvedOffers → List ProjectedWarehouse → List WarehouseAvailability
unfolding warehouse_for_rule
build_warehouse_availability offers projections =
    available_rows (add_quantities (own_quantities offers.own) offers.suppliers) projections

abbrev pub to_inventory_detail : BestOffer → List WarehouseAvailability → ℕ → ArticleInventoryDetail
to_inventory_detail offer rows computed_at = record {
  available = offer.available;
  best_price_ex_vat = offer.price_ex_vat;
  best_price_inc_vat = offer.price_inc_vat;
  availability_by_warehouse = rows;
  computed_at = computed_at;
}

-- `result.set(key, …)`
abbrev pub set_entry : List AvailabilityEntry → AvailabilityEntry → List AvailabilityEntry
set_entry [] entry = entry ∷ []
set_entry (e ∷ es) entry =
    let rest = set_entry es entry in if e.article == entry.article then entry ∷ es else e ∷ rest

module _ (clock : DeliveryClock) (rate : VatRate) (projections : List ProjectedWarehouse)
    (now : ℕ) where
  unfoldable pub detail_of : ResolvedOffers → Option ArticleInventoryDetail
  unfolding build_warehouse_availability
  detail_of offers = do
    offer ← select_best_offer offers.own offers.suppliers rate
    some (to_inventory_detail offer (build_warehouse_availability offers projections) now)

  -- The loop over the articles.
  abbrev pub set_details :
      StockByArticle → List AvailabilityEntry → List ℕ → Option (List AvailabilityEntry)
  set_details stock result [] = some result
  set_details stock result (article ∷ articles) =
      elim (detail_of (get_or_else (offers_of clock stock article) empty_offers)) [
        | none ↦ none
        | some detail ↦
            set_details stock (set_entry result (record { article = article; detail = detail }))
              articles
      ]

  unfoldable pub get_availability : Option StockTables → List ℕ → Option (List AvailabilityEntry)
  unfolding unique_articles read_single read_batch offers_of detail_of
  get_availability tables [] = some []
  get_availability none (article ∷ articles) = none
  get_availability (some tables) (article ∷ articles) =
      set_details (read_stock tables (unique_articles (article ∷ articles))) [] (article ∷ articles)

  -- An exception is answered with null, and so is a read of no article.
  unfoldable pub get_availability_for_ordering :
      Option StockTables → List ℕ → Option (List AvailabilityEntry)
  unfolding get_availability
  get_availability_for_ordering tables [] = none
  get_availability_for_ordering tables (article ∷ articles) =
      get_availability tables (article ∷ articles)
