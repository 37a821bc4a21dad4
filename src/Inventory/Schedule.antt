-- ===== src/Inventory/Schedule.antt =====
-- When a warehouse's stock can be picked up and delivered,
-- apps/api/src/inventory/delivery-schedule.service.ts. The clock in the shop's time zone and the
-- conversion of a civil time back to an instant are arguments, and an hour's text is its hour. The
-- loops over the calendar run on `fuel`; `none` is that it ran out, or the error of reading the
-- hours of a closed day.
pub mod Start
pub mod Projection
use vp_parts.Base.{
  ℕ, ◌+◌, ◌*◌, ◌/◌, ◌%◌, min, max, Bool, ◌&&◌, Option, none, some, List, [], ◌∷◌, ltb, ◌==◌,
  if◌then◌else◌, ◌>>=◌,
}
use vp_parts.Base.{
  ℕ, ◌+◌, ◌*◌, ◌/◌, ◌%◌, min, max, Bool, ◌&&◌, Option, none, some, List, [], ◌∷◌, ltb, ◌==◌,
  if◌then◌else◌, ◌>>=◌,
}
use vp_parts.Inventory.Rules.{
  Warehouse, OrderCutoffKind, warehouse_meta, warehouse_for_own_stock, is_same_warehouse, central,
  shop_close, same_day, processing,
}
use vp_parts.Inventory.Calendar.{
  CivilDate, CivilDateTime, DailyHours, ShopCalendarConfig, add_calendar_days, hours_for,
  next_open_day_on_or_after, add_working_days,
}

pub data DeliveryGranularity : Type 0 where
  hour_granularity day_granularity : DeliveryGranularity

pub record DeliveryProjection : Type 0 where
  pub earliest_at : ℕ
  pub granularity : DeliveryGranularity

pub record WarehouseProjection : Type 0 where
  pub delivery_work_days : ℕ
  pub order_cutoff_time : ℕ
  pub cutoff_at : ℕ
  pub pickup : DeliveryProjection
  pub courier : DeliveryProjection

pub record EffectiveStart : Type 0 where
  pub date : CivilDate
  pub hour : ℕ
  pub minute : ℕ

abbrev pub default_weekday_close : ℕ
default_weekday_close = 18

pub record ScheduleConfig : Type 0 where
  pub calendar : ShopCalendarConfig
  pub same_day_cutoff_hour : ℕ
  pub processing_cutoff_hour : ℕ
  pub within_hour_offset_minutes : ℕ
  pub courier_extra_working_days : ℕ
  pub to_instant : CivilDateTime → ℕ

-- The calendar of the constructor, at the configured hours.
abbrev pub weekly_hours_of : DailyHours → DailyHours → List (Option DailyHours)
weekly_hours_of weekday saturday =
    none
    ∷ some weekday
    ∷ some weekday
    ∷ some weekday
    ∷ some weekday
    ∷ some weekday
    ∷ some saturday
    ∷ []

abbrev pub is_same_civil_date : CivilDate → CivilDate → Bool
is_same_civil_date a b = a.year == b.year && a.month == b.month && a.day == b.day

module _ (config : ScheduleConfig) where
  unfoldable pub start_at_opening : Option CivilDate → Option EffectiveStart
  start_at_opening none = none
  start_at_opening (some date) = elim (hours_for date config.calendar) [
    | none ↦ none
    | some hours ↦ some (record { date = date; hour = hours.open_hour; minute = 0 })
  ]

  unfoldable pub start_today :
      CivilDateTime → Option DailyHours → Option EffectiveStart → Option EffectiveStart
  start_today now none later = later
  start_today now (some hours) later =
      if ltb now.hour hours.close_hour
      then some (record {
        date = now.date;
        hour = max now.hour hours.open_hour;
        minute = if ltb now.hour hours.open_hour then 0 else now.minute;
      })
      else later

  unfoldable pub effective_start : ℕ → CivilDateTime → Option EffectiveStart
  unfolding start_today start_at_opening
  effective_start fuel now = start_today now (hours_for now.date config.calendar) (
      start_at_opening
        (next_open_day_on_or_after fuel (add_calendar_days now.date 1) config.calendar))

  -- `hoursFor(…)?.closeHour ?? otherwise`
  abbrev pub close_hour_or : CivilDate → ℕ → ℕ
  close_hour_or date otherwise = elim (hours_for date config.calendar) [
    | none ↦ otherwise
    | some hours ↦ hours.close_hour
  ]

  unfoldable pub cutoff_hour : OrderCutoffKind → CivilDate → ℕ
  cutoff_hour shop_close date = close_hour_or date default_weekday_close
  cutoff_hour same_day date = config.same_day_cutoff_hour
  cutoff_hour processing date = config.processing_cutoff_hour

  unfoldable pub dispatch_date : ℕ → EffectiveStart → ℕ → Option CivilDate
  dispatch_date fuel start cutoff =
      if ltb start.hour cutoff
      then some start.date
      else next_open_day_on_or_after fuel (add_calendar_days start.date 1) config.calendar

  abbrev pub day_projection : CivilDate → DeliveryProjection
  day_projection date = record {
    earliest_at = config.to_instant (record { date = date; hour = 12; minute = 0 });
    granularity = day_granularity;
  }

  unfoldable pub within_hour_projection : EffectiveStart → DeliveryProjection
  within_hour_projection start =
      let close = close_hour_or start.date 24 in
      let raw = start.hour * 60 + start.minute + config.within_hour_offset_minutes in
      let minutes = min raw (close * 60) in
      record {
        earliest_at =
            config.to_instant
              (record { date = start.date; hour = minutes / 60; minute = minutes % 60 });
        granularity = hour_granularity;
      }

  unfoldable pub pickup_projection :
      Warehouse → EffectiveStart → CivilDateTime → CivilDate → DeliveryProjection
  unfolding within_hour_projection
  pickup_projection warehouse start now delivery_date =
      if is_same_warehouse warehouse central && is_same_civil_date delivery_date now.date
      then within_hour_projection start
      else day_projection delivery_date

  unfoldable pub courier_date : ℕ → CivilDate → Option CivilDate
  courier_date fuel pickup_date =
      add_working_days fuel pickup_date config.courier_extra_working_days config.calendar

  -- The projection from the dates that the loops find.
  abbrev pub projection_of :
      Warehouse → CivilDateTime → EffectiveStart → CivilDate → CivilDate → WarehouseProjection
  projection_of warehouse now start delivery_date courier =
      let meta = warehouse_meta warehouse in
      let cutoff = cutoff_hour meta.cutoff_kind start.date in
      record {
        delivery_work_days = meta.base_work_days;
        order_cutoff_time = cutoff;
        cutoff_at = config.to_instant (record { date = start.date; hour = cutoff; minute = 0 });
        pickup = pickup_projection warehouse start now delivery_date;
        courier = day_projection courier;
      }

  unfoldable pub project_warehouse : ℕ → Warehouse → CivilDateTime → Option WarehouseProjection
  unfolding effective_start cutoff_hour dispatch_date pickup_projection courier_date
  project_warehouse fuel warehouse now = do
    start ← effective_start fuel now
    dispatch ←
        dispatch_date fuel start (cutoff_hour (warehouse_meta warehouse).cutoff_kind start.date)
    delivery_date ←
        add_working_days fuel dispatch (warehouse_meta warehouse).base_work_days config.calendar
    courier ← courier_date fuel delivery_date
    some (projection_of warehouse now start delivery_date courier)

  unfoldable pub project_own_stock : ℕ → CivilDateTime → Option WarehouseProjection
  unfolding project_warehouse
  project_own_stock fuel now = project_warehouse fuel warehouse_for_own_stock now
