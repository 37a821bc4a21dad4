-- ===== src/Delivery/Parcel.antt =====
-- The parcel of an order's lines, apps/api/src/delivery/parcel: parcel-estimate.ts, locker-fit.ts and
-- parcel-ready-date.ts, with `selectWarehouseForQuantity` of packages/shared/src/delivery.ts. Sizes
-- are whole centimetres, and the share of a cell that boxes fill is a fraction. The shop-local day of
-- an instant, by the platform's Intl, is an argument.

use vp_parts.Base.{
  ℕ, ◌+◌, ◌*◌, Bool, true, false, not, ◌&&◌, Option, none, some, List, [], ◌∷◌, ◌++◌, map, ltb, leb,
  ◌==◌, if◌then◌else◌, get_or_else, length, replicate, keep_if, any_row, sort_by,
}
use vp_parts.Checkout.{sum_of}
use vp_parts.Cart.Shipping.{PackageSizeCm, ResolvedShippingProfile}
use vp_parts.Inventory.Availability.{WarehouseAvailability, ArticleInventoryDetail}

pub record ParcelLine : Type 0 where
  pub article : ℕ
  pub quantity : ℕ
  pub shipping_profile : ResolvedShippingProfile

pub record Parcel : Type 0 where
  pub units_cm : Option (List PackageSizeCm)
  pub weight_grams : ℕ
  pub has_estimated_units : Bool

abbrev pub total_weight_grams : List ParcelLine → ℕ
total_weight_grams [] = 0
total_weight_grams (line ∷ lines) =
    get_or_else line.shipping_profile.weight_grams 0 * line.quantity + total_weight_grams lines

-- The loop over the lines, with the units so far.
abbrev pub unit_sizes_from : List PackageSizeCm → List ParcelLine → Option (List PackageSizeCm)
unit_sizes_from units [] = some units
unit_sizes_from units (line ∷ lines) = elim line.shipping_profile.package_cm [
  | none ↦ none
  | some size ↦ unit_sizes_from (units ++ replicate line.quantity size) lines
]

unfoldable pub estimate_parcel : List ParcelLine → Parcel
estimate_parcel lines = record {
  units_cm = unit_sizes_from [] lines;
  weight_grams = total_weight_grams lines;
  has_estimated_units = any_row (λ l. l.shipping_profile.is_estimated) lines;
}

pub record LockerLimits : Type 0 where
  pub max_sides_cm : List ℕ
  pub max_weight_grams : ℕ
  pub fill_num : ℕ
  pub fill_den : ℕ

abbrev pub sorted_sides : List ℕ → List ℕ
sorted_sides sides = sort_by (λ a b. ltb b a) sides

abbrev pub volume_of : PackageSizeCm → ℕ
volume_of unit = unit.side_length * unit.side_width * unit.side_height

-- `every` of the sides, by their index in the cell; a cell has three.
abbrev pub are_within : List ℕ → List ℕ → Bool
are_within [] cell = true
are_within (side ∷ sides) [] = false
are_within (side ∷ sides) (limit ∷ cell) = leb side limit && are_within sides cell

abbrev pub fits_cell : PackageSizeCm → List ℕ → Bool
fits_cell unit cell =
    are_within (sorted_sides (unit.side_length ∷ unit.side_width ∷ unit.side_height ∷ [])) cell

abbrev pub every_fits : List PackageSizeCm → List ℕ → Bool
every_fits [] cell = true
every_fits (unit ∷ units) cell = fits_cell unit cell && every_fits units cell

abbrev pub product_of : List ℕ → ℕ
product_of [] = 1
product_of (x ∷ xs) = x * product_of xs

unfoldable pub fits_locker : Parcel → LockerLimits → Bool
fits_locker parcel limits = elim parcel.units_cm [
  | none ↦ false
  | some units ↦
      let cell = sorted_sides limits.max_sides_cm in
      not (length units == 0)
      && leb parcel.weight_grams limits.max_weight_grams
      && every_fits units cell
      && leb (sum_of (map volume_of units) * limits.fill_den) (product_of cell * limits.fill_num)
]

abbrev pub is_stocked : WarehouseAvailability → Bool
is_stocked warehouse = ltb 0 warehouse.quantity

-- The loop that accumulates stock, or else the last stocked warehouse.
abbrev pub select_from :
    ℕ → ℕ → WarehouseAvailability → List WarehouseAvailability → WarehouseAvailability
select_from cumulative quantity warehouse [] = warehouse
select_from cumulative quantity warehouse (next ∷ rest) =
    let later = select_from (cumulative + warehouse.quantity) quantity next rest in
    if leb quantity (cumulative + warehouse.quantity) then warehouse else later

abbrev pub select_among : List WarehouseAvailability → ℕ → Option WarehouseAvailability
select_among [] quantity = none
select_among (warehouse ∷ rest) quantity = some (select_from 0 quantity warehouse rest)

unfoldable pub select_warehouse_for_quantity :
    List WarehouseAvailability → ℕ → Option WarehouseAvailability
select_warehouse_for_quantity rows quantity = select_among (keep_if is_stocked rows) quantity

-- `availability.get(…)?.availabilityByWarehouse ?? []`
abbrev pub rows_for : Option ArticleInventoryDetail → List WarehouseAvailability
rows_for none = []
rows_for (some detail) = detail.availability_by_warehouse

module _ (shop_date_of : ℕ → ℕ) (availability : ℕ → Option ArticleInventoryDetail) where
  abbrev pub date_of : Option WarehouseAvailability → Option ℕ
  date_of none = none
  date_of (some covering) = some (shop_date_of covering.projection.pickup.earliest_at)

  unfoldable pub line_ready_date : ParcelLine → Option ℕ
  unfolding select_warehouse_for_quantity
  line_ready_date line =
      let rows = rows_for (availability line.article) in
      if ltb (sum_of (map (λ r. r.quantity) rows)) line.quantity
      then none
      else date_of (select_warehouse_for_quantity rows line.quantity)

  -- The dates without `null`, and the last of them when sorted; none of no dates.
  abbrev pub latest : Option ℕ → List ℕ → Option ℕ
  latest last [] = last
  latest last (date ∷ dates) = latest (some date) dates

  abbrev pub all_dates : List ParcelLine → Option (List ℕ)
  all_dates [] = some []
  all_dates (line ∷ lines) = elim (line_ready_date line) [
    | none ↦ none
    | some date ↦ elim (all_dates lines) [ none ↦ none | some dates ↦ some (date ∷ dates) ]
  ]

  unfoldable pub parcel_ready_date : List ParcelLine → Option ℕ
  unfolding line_ready_date
  parcel_ready_date lines = elim (all_dates lines) [
    | none ↦ none
    | some dates ↦ latest none (sort_by ltb dates)
  ]
