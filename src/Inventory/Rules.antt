-- ===== src/Inventory/Rules.antt =====
-- How fast a source delivers, apps/api/src/inventory/delivery.ts and delivery-speed.resolver.ts,
-- and the shop's warehouses, apps/api/src/inventory/warehouse.ts. A supplier's source is the
-- supplier that its text names in any case, or none; a warehouse's code is one of the keys of the
-- tables, or another text. The hour of the clock in the shop's time zone is an argument. The alert
-- for an unknown warehouse is left out.
use vp_parts.Base.{ℕ, Bool, Option, none, some, List, [], ◌∷◌, ltb, ◌==◌, if◌then◌else◌, sort_by}

pub data DeliveryRule : Type 0 where
  within_hour : DeliveryRule
  same_day_before_cutoff : DeliveryRule
  next_day : DeliveryRule
  two_business_days : DeliveryRule
  three_business_days : DeliveryRule

pub data Supplier : Type 0 where
  intercars : Supplier
  autoplus : Supplier
  autokomers : Supplier
  auto1 : Supplier

pub data WarehouseCode : Type 0 where
  b24 : WarehouseCode
  b01 : WarehouseCode
  b02 : WarehouseCode
  hza : WarehouseCode
  r00 : WarehouseCode
  hsn : WarehouseCode
  centralen_sklad : WarehouseCode
  magazin_pleven : WarehouseCode
  magazin_lovech : WarehouseCode
  manimpex_ood : WarehouseCode
  central_code : WarehouseCode
  regional_code : WarehouseCode
  other_code : (text : ℕ) → WarehouseCode

pub record DeliveryOutcome : Type 0 where
  pub rank : ℕ

unfoldable intercars_delivery : WarehouseCode → Option DeliveryRule
intercars_delivery b24 = some within_hour
intercars_delivery b01 = some same_day_before_cutoff
intercars_delivery b02 = some same_day_before_cutoff
intercars_delivery hza = some two_business_days
intercars_delivery r00 = some two_business_days
intercars_delivery hsn = some three_business_days
intercars_delivery _ = none

unfoldable autoplus_delivery : WarehouseCode → Option DeliveryRule
autoplus_delivery centralen_sklad = some same_day_before_cutoff
autoplus_delivery magazin_pleven = some within_hour
autoplus_delivery magazin_lovech = some same_day_before_cutoff
autoplus_delivery manimpex_ood = some same_day_before_cutoff
autoplus_delivery _ = none

unfoldable autokomers_delivery : WarehouseCode → Option DeliveryRule
autokomers_delivery central_code = some next_day
autokomers_delivery _ = none

unfoldable auto1_delivery : WarehouseCode → Option DeliveryRule
auto1_delivery central_code = some next_day
auto1_delivery regional_code = some two_business_days
auto1_delivery _ = none

unfoldable supplier_warehouse_delivery : Supplier → WarehouseCode → Option DeliveryRule
unfolding intercars_delivery autoplus_delivery autokomers_delivery auto1_delivery
supplier_warehouse_delivery intercars code = intercars_delivery code
supplier_warehouse_delivery autoplus code = autoplus_delivery code
supplier_warehouse_delivery autokomers code = autokomers_delivery code
supplier_warehouse_delivery auto1 code = auto1_delivery code

unfoldable pub lookup_delivery_rule : Option Supplier → Option WarehouseCode → Option DeliveryRule
unfolding supplier_warehouse_delivery
lookup_delivery_rule none code = none
lookup_delivery_rule (some supplier) none = none
lookup_delivery_rule (some supplier) (some code) = supplier_warehouse_delivery supplier code

abbrev pub delivery_rule_rank : DeliveryRule → ℕ
delivery_rule_rank within_hour = 1
delivery_rule_rank same_day_before_cutoff = 2
delivery_rule_rank next_day = 3
delivery_rule_rank two_business_days = 4
delivery_rule_rank three_business_days = 5

abbrev pub own_stock_outcome : DeliveryOutcome
own_stock_outcome = record { rank = 0 }

unfoldable pub resolve_delivery_rule : DeliveryRule → ℕ → ℕ → DeliveryOutcome
resolve_delivery_rule same_day_before_cutoff local_hour cutoff_hour = record {
  rank =
      if ltb local_hour cutoff_hour
      then delivery_rule_rank same_day_before_cutoff
      else delivery_rule_rank next_day;
}
resolve_delivery_rule rule local_hour cutoff_hour = record { rank = delivery_rule_rank rule }

pub record DeliveryResolution : Type 0 where
  pub rule : DeliveryRule
  pub outcome : DeliveryOutcome

unfoldable pub resolve_delivery :
    Option Supplier → Option WarehouseCode → ℕ → ℕ → Option DeliveryResolution
unfolding lookup_delivery_rule
resolve_delivery supplier code local_hour cutoff_hour = elim (lookup_delivery_rule supplier code) [
  | none ↦ none
  | some rule ↦
      some (record { rule = rule; outcome = resolve_delivery_rule rule local_hour cutoff_hour })
]

pub data Warehouse : Type 0 where
  central : Warehouse
  regional_1 : Warehouse
  regional_2 : Warehouse
  romania : Warehouse
  poland : Warehouse

pub data OrderCutoffKind : Type 0 where
  shop_close : OrderCutoffKind
  same_day : OrderCutoffKind
  processing : OrderCutoffKind

pub record WarehouseMeta : Type 0 where
  pub rank : ℕ
  pub base_work_days : ℕ
  pub cutoff_kind : OrderCutoffKind

abbrev pub warehouse_meta : Warehouse → WarehouseMeta
warehouse_meta central = record { rank = 0; base_work_days = 0; cutoff_kind = shop_close }
warehouse_meta regional_1 = record { rank = 1; base_work_days = 0; cutoff_kind = same_day }
warehouse_meta regional_2 = record { rank = 2; base_work_days = 1; cutoff_kind = processing }
warehouse_meta romania = record { rank = 3; base_work_days = 2; cutoff_kind = processing }
warehouse_meta poland = record { rank = 4; base_work_days = 3; cutoff_kind = processing }

abbrev pub warehouse_for_own_stock : Warehouse
warehouse_for_own_stock = central

unfoldable pub warehouse_for_rule : DeliveryRule → Warehouse
warehouse_for_rule within_hour = central
warehouse_for_rule same_day_before_cutoff = regional_1
warehouse_for_rule next_day = regional_2
warehouse_for_rule two_business_days = romania
warehouse_for_rule three_business_days = poland

-- `===` on warehouses.
abbrev pub is_same_warehouse : Warehouse → Warehouse → Bool
is_same_warehouse a b = (warehouse_meta a).rank == (warehouse_meta b).rank

abbrev pub warehouses_fastest_first : List Warehouse
warehouses_fastest_first =
    sort_by (λ a b. ltb (warehouse_meta a).rank (warehouse_meta b).rank)
      (central ∷ regional_1 ∷ regional_2 ∷ romania ∷ poland ∷ [])
