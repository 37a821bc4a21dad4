-- ===== src/Inventory/Availability/Projected.antt =====
-- That inventory.service.ts can project every warehouse.
use vp_parts.Base.{ℕ, ◌*◌, ◌≤◌, ◌≡◌, refl, some, List, [], ◌∷◌, arith}
use vp_parts.Inventory.Rules.{
  Warehouse, central, regional_1, regional_2, romania, poland, warehouse_meta,
}
use vp_parts.Inventory.Calendar.{CivilDateTime}
use vp_parts.Inventory.Calendar.Days.{IsCivil}
use vp_parts.Inventory.Schedule.{ScheduleConfig}
use vp_parts.Inventory.Schedule.Start.{IsRegular}
use vp_parts.Inventory.Schedule.Projection.{project_warehouse-IsProjected}
use vp_parts.Inventory.Availability.{ProjectedWarehouse, project_warehouses}

base_work_days-le : (gap : ℕ) (w : Warehouse) → gap * (warehouse_meta w).base_work_days ≤ gap * 3
base_work_days-le gap central = omega arith
base_work_days-le gap regional_1 = omega arith
base_work_days-le gap regional_2 = omega arith
base_work_days-le gap romania = omega arith
base_work_days-le gap poland = omega arith

pub project_warehouses-some :
    (config : ScheduleConfig) (gap fuel : ℕ) (now : CivilDateTime) (ws : List Warehouse)
    → IsRegular config gap
    → IsCivil now.date
    → gap * 3 ≤ fuel
    → gap * config.courier_extra_working_days ≤ fuel
    → (ps : List ProjectedWarehouse) × (project_warehouses config fuel now ws ≡ some ps)
unfolding project_warehouses
project_warehouses-some config gap fuel now [] regular c e f = ([], refl)
project_warehouses-some config gap fuel now (w ∷ ws) regular c e f =
    let (p, made, _) =
      project_warehouse-IsProjected config gap fuel w now regular c (omega (arith, e))
        (omega (arith, e, base_work_days-le gap w)) f in
    let (ps, rest) = project_warehouses-some config gap fuel now ws regular c e f in
    (record { warehouse = w; projection = p } ∷ ps, rw made (rw rest refl))
