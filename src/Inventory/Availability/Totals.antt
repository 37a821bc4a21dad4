-- ===== src/Inventory/Availability/Totals.antt =====
-- How much of an article the rows of inventory.service.ts show, and when a line of it can be ordered
-- by apps/api/src/inventory/orderable-price.ts.
use vp_parts.Base.{
  ℕ, ◌+◌, ◌≤◌, ◌≡◌, refl, sym, ap, ◌∙◌, inl, inr, Option, none, some, List, [], ◌∷◌, map, arith,
  ℕ_discrete, leb, if◌then◌else◌, get_or_else, Bool-cases, Option-cases, All,
}
use vp_parts.Checkout.{sum_of}
use vp_parts.Inventory.Rules.{
  Warehouse, central, regional_1, regional_2, romania, poland, is_same_warehouse,
  warehouse_for_rule, warehouses_fastest_first,
}
use vp_parts.Inventory.Offers.{OwnOffer, SupplierOffer}
use vp_parts.Inventory.Calendar.{CivilDateTime}
use vp_parts.Inventory.Schedule.{ScheduleConfig, project_warehouse}
use vp_parts.Inventory.Availability.{
  ResolvedOffers, ProjectedWarehouse, WarehouseQuantity, WarehouseAvailability, add_quantity,
  quantity_of, own_quantities, add_quantities, available_rows, build_warehouse_availability,
  project_warehouses,
}

abbrev held : List WarehouseQuantity → Warehouse → ℕ
held rows w = get_or_else (quantity_of rows w) 0

held-add_quantity :
    (rows : List WarehouseQuantity) (v w : Warehouse) (n : ℕ)
    → held (add_quantity rows v n) w ≡ held rows w + (if is_same_warehouse v w then n else 0)
held-add_quantity [] v w n = ground arith
held-add_quantity (row ∷ rows) v w n = ground (arith, held-add_quantity rows v w n)

abbrev held_in : List WarehouseQuantity → List Warehouse → ℕ
held_in rows [] = 0
held_in rows (w ∷ ws) = held rows w + held_in rows ws

abbrev all_warehouses : List Warehouse
all_warehouses = central ∷ regional_1 ∷ regional_2 ∷ romania ∷ poland ∷ []

held_in-add_quantity :
    (rows : List WarehouseQuantity) (v : Warehouse) (n : ℕ)
    → held_in (add_quantity rows v n) all_warehouses ≡ held_in rows all_warehouses + n
held_in-add_quantity rows v n = by_warehouse v (λ w. held-add_quantity rows v w n)
  where
    by_warehouse :
        (v : Warehouse)
        → ((w : Warehouse)
            → held (add_quantity rows v n) w
              ≡ held rows w + (if is_same_warehouse v w then n else 0))
        → held_in (add_quantity rows v n) all_warehouses ≡ held_in rows all_warehouses + n
    by_warehouse central h =
        omega (arith, h central, h regional_1, h regional_2, h romania, h poland)
    by_warehouse regional_1 h =
        omega (arith, h central, h regional_1, h regional_2, h romania, h poland)
    by_warehouse regional_2 h =
        omega (arith, h central, h regional_1, h regional_2, h romania, h poland)
    by_warehouse romania h =
        omega (arith, h central, h regional_1, h regional_2, h romania, h poland)
    by_warehouse poland h =
        omega (arith, h central, h regional_1, h regional_2, h romania, h poland)

abbrev pub supplier_stock : List SupplierOffer → ℕ
supplier_stock [] = 0
supplier_stock (x ∷ xs) = x.quantity + supplier_stock xs

abbrev pub own_stock : Option OwnOffer → ℕ
own_stock none = 0
own_stock (some own) = own.quantity

-- All that the shop and its suppliers hold.
abbrev pub whole_stock : ResolvedOffers → ℕ
whole_stock offers = own_stock offers.own + supplier_stock offers.suppliers

held_in-add_quantities :
    (rows : List WarehouseQuantity) (suppliers : List SupplierOffer)
    → held_in (add_quantities rows suppliers) all_warehouses
      ≡ held_in rows all_warehouses + supplier_stock suppliers
held_in-add_quantities rows [] = omega arith
held_in-add_quantities rows (x ∷ xs) = elim (Bool-cases (leb x.quantity 0)) [
  | inl e ↦ ground (arith, e, held_in-add_quantities rows xs)
  | inr e ↦
      let added = add_quantity rows (warehouse_for_rule x.rule) x.quantity in
      let rest = held_in-add_quantities added xs in
      let one = held_in-add_quantity rows (warehouse_for_rule x.rule) x.quantity in
      rw e (omega (arith, rest, one))
]

held_in-own : (own : Option OwnOffer) → held_in (own_quantities own) all_warehouses ≡ own_stock own
held_in-own none = refl
held_in-own (some own) = ground arith

abbrev row_quantity : WarehouseAvailability → ℕ
row_quantity row = row.quantity

available_rows-sum :
    (rows : List WarehouseQuantity) (ps : List ProjectedWarehouse)
    → sum_of (map row_quantity (available_rows rows ps)) ≡ held_in rows (map (λ p. p.warehouse) ps)
available_rows-sum rows [] = refl
available_rows-sum rows (p ∷ ps) = ground (arith, available_rows-sum rows ps)

available_rows-All :
    (rows : List WarehouseQuantity) (ps : List ProjectedWarehouse)
    → All (λ r. 1 ≤ row_quantity r) (available_rows rows ps)
available_rows-All rows [] = tt
available_rows-All rows (p ∷ ps) = elim (ℕ_discrete (held rows p.warehouse) 0) [
  | yes z ↦ ground (arith, z, available_rows-All rows ps)
  | no some_held ↦ ground (arith, some_held, available_rows-All rows ps)
]

project_warehouses-all :
    (config : ScheduleConfig) (fuel : ℕ) (now : CivilDateTime) (ws : List Warehouse)
    → (ps : List ProjectedWarehouse) → project_warehouses config fuel now ws ≡ some ps
    → map (λ p. p.warehouse) ps ≡ ws
unfolding project_warehouses
project_warehouses-all config fuel now [] ps e =
    let empty : [] ≡ ps = cc in ap (map (λ p. p.warehouse)) (sym empty)
project_warehouses-all config fuel now (w ∷ ws) ps e =
    elim (Option-cases (project_warehouse config fuel w now)) [
      | inl q ↦ absurd (ground (arith, e, q))
      | inr (x, q) ↦ elim (Option-cases (project_warehouses config fuel now ws)) [
        | inl r ↦ absurd (ground (arith, e, q, r))
        | inr (xs, r) ↦
            let made : record { warehouse = w; projection = x } ∷ xs ≡ ps =
              ground (arith, e, q, r) in
            ap (map (λ p. p.warehouse)) (sym made)
            ∙ ap (◌∷◌ w) (project_warehouses-all config fuel now ws xs r)
      ]
    ]

-- The rows account for all stock: the rows of an article over the warehouses as the service projects
-- them add up to what the shop and its suppliers hold, whichever warehouses the suppliers' rules
-- group it in, and no row is empty.
pub build_warehouse_availability-total :
    (config : ScheduleConfig) (fuel : ℕ) (now : CivilDateTime) (ps : List ProjectedWarehouse)
    → (offers : ResolvedOffers)
    → project_warehouses config fuel now warehouses_fastest_first ≡ some ps
    → let rows = build_warehouse_availability offers ps in
      (sum_of (map (λ r. r.quantity) rows) ≡ whole_stock offers) × All (λ r. 1 ≤ r.quantity) rows
unfolding build_warehouse_availability
build_warehouse_availability-total config fuel now ps offers e =
    let rows = add_quantities (own_quantities offers.own) offers.suppliers in
    let all = project_warehouses-all config fuel now warehouses_fastest_first ps e in
    (
      available_rows-sum rows ps
          ∙ ap (held_in rows) all
          ∙ held_in-add_quantities (own_quantities offers.own) offers.suppliers
          ∙ ap (λ n. n + supplier_stock offers.suppliers) (held_in-own offers.own),
      available_rows-All rows ps,
    )
