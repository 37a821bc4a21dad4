-- ===== src/Inventory/Schedule/Projection.antt =====
-- That a warehouse's projection, in delivery-schedule.service.ts, always exists, and which days it
-- promises.
use vp_parts.Base.{
  ℕ, ◌+◌, ◌*◌, ◌≤◌, ◌<◌, ◌≡◌, refl, sym, ap, ◌∙◌, subst, inl, inr, true, false, some, arith, ltb,
  Bool-cases,
}
use vp_parts.Inventory.Rules.{Warehouse, warehouse_meta}
use vp_parts.Inventory.Calendar.{
  CivilDate, CivilDateTime, DailyHours, ShopCalendarConfig, add_calendar_days, hours_for,
  is_shop_open_on, next_open_day_on_or_after,
}
use vp_parts.Inventory.Calendar.Days.{IsCivil, add_calendar_days-number, add_calendar_days-add}
use vp_parts.Inventory.Calendar.Opening.{
  opens, IsFirstOpen-closed, opens-later, next_open_day-first,
}
use vp_parts.Inventory.Calendar.Working.{OpensWithin, count_open, add_working_days-open}
use vp_parts.Inventory.Schedule.{
  EffectiveStart, ScheduleConfig, WarehouseProjection, cutoff_hour, dispatch_date, courier_date,
  projection_of, project_warehouse,
}
use vp_parts.Inventory.Schedule.Start.{IsRegular, StartsOpen, effective_start-open}

-- The first day on which an order that misses its cut-off is dispatched, `p` days after the start.
pub record IsDispatch (config : ScheduleConfig) (start : EffectiveStart) (cutoff p : ℕ)
    : Type 0 where
  pub open_day : opens config.calendar start.date p ≡ true
  pub in_time : start.hour < cutoff → p ≡ 0
  pub too_late : cutoff ≤ start.hour → 1 ≤ p
  pub closed_between : (j : ℕ) → 1 ≤ j → j < p → opens config.calendar start.date j ≡ false

-- The days of a projection, each a number of days after the one before: the start, the dispatch, the
-- delivery to the shop and the courier's delivery.
pub record IsProjected (config : ScheduleConfig) (warehouse : Warehouse) (now : CivilDateTime)
    (projection : WarehouseProjection) : Type 0 where
  pub start : EffectiveStart
  pub start_days : ℕ
  pub started : StartsOpen config now start start_days
  pub dispatch_days : ℕ
  pub dispatched :
      IsDispatch config start
        (cutoff_hour config (warehouse_meta warehouse).cutoff_kind start.date)
        dispatch_days
  pub work_days : ℕ
  pub worked :
      let dispatch = add_calendar_days start.date dispatch_days in
      (count_open config.calendar dispatch work_days ≡ (warehouse_meta warehouse).base_work_days)
      × (opens config.calendar dispatch work_days ≡ true)
  pub courier_days : ℕ
  pub couriered :
      let delivery_date =
        add_calendar_days (add_calendar_days start.date dispatch_days) work_days in
      (count_open config.calendar delivery_date courier_days ≡ config.courier_extra_working_days)
      × (opens config.calendar delivery_date courier_days ≡ true)
  pub made :
      let delivery_date =
        add_calendar_days (add_calendar_days start.date dispatch_days) work_days in
      projection
      ≡ projection_of config warehouse now start delivery_date
          (add_calendar_days delivery_date courier_days)

hours-open :
    (config : ShopCalendarConfig) (d : CivilDate) (h : DailyHours)
    → hours_for d config ≡ some h
    → is_shop_open_on d config ≡ true
unfolding is_shop_open_on
hours-open config d h q = rw q refl

module _ (config : ScheduleConfig) (gap fuel : ℕ) (start : EffectiveStart) (cutoff : ℕ) where
  abbrev cal : ShopCalendarConfig
  cal = config.calendar

  dispatch_date_now-IsDispatch :
      ltb start.hour cutoff ≡ true
      → is_shop_open_on start.date cal ≡ true
      → (dispatch_date config fuel start cutoff ≡ some (add_calendar_days start.date 0))
        × IsDispatch config start cutoff 0
  unfolding dispatch_date add_calendar_days
  dispatch_date_now-IsDispatch e open_now = (
    ground (arith, e),
    record {
      open_day = open_now;
      in_time = λ _. refl;
      too_late = λ l. absurd (ground (arith, l, e));
      closed_between = λ j l m. absurd (omega (arith, l, m));
    },
  )

  dispatch_date-next_open_day :
      ltb start.hour cutoff ≡ false
      → dispatch_date config fuel start cutoff
        ≡ next_open_day_on_or_after fuel (add_calendar_days start.date 1) cal
  unfolding dispatch_date
  dispatch_date-next_open_day e = ground (arith, e)

  dispatch_date-IsDispatch :
      OpensWithin cal gap
      → IsCivil start.date
      → gap ≤ fuel
      → is_shop_open_on start.date cal ≡ true
      → (p : ℕ) × (dispatch_date config fuel start cutoff ≡ some (add_calendar_days start.date p))
        × IsDispatch config start cutoff p
  dispatch_date-IsDispatch within c enough open_now = elim (Bool-cases (ltb start.hour cutoff)) [
    | inl e ↦ let (sent, first) = dispatch_date_now-IsDispatch e open_now in (0, sent, first)
    | inr e ↦
        let (k, near, opened) = within start.date c in
        let (n, found, le, first) =
          next_open_day-first cal fuel (add_calendar_days start.date 1) k
            (omega (arith, near, enough)) (sym (opens-later cal start.date k) ∙ opened) in
        (
          1 + n,
          dispatch_date-next_open_day e ∙ found ∙ ap some (add_calendar_days-add start.date 1 n),
          record {
            open_day =
                subst (λ d. is_shop_open_on d cal ≡ true) (add_calendar_days-add start.date 1 n)
                  first.opened;
            in_time = λ l. absurd (ground (arith, l, e));
            too_late = λ _. omega arith;
            closed_between = IsFirstOpen-closed cal start.date n first;
          },
        )
  ]

pub project_warehouse-IsProjected :
    (config : ScheduleConfig) (gap fuel : ℕ) (warehouse : Warehouse) (now : CivilDateTime)
    → IsRegular config gap
    → IsCivil now.date
    → gap ≤ fuel
    → gap * (warehouse_meta warehouse).base_work_days ≤ fuel
    → gap * config.courier_extra_working_days ≤ fuel
    → (projection : WarehouseProjection) × (project_warehouse config fuel warehouse now
        ≡ some projection)
      × IsProjected config warehouse now projection
unfolding project_warehouse courier_date
project_warehouse-IsProjected config gap fuel warehouse now regular c e1 e2 e3 =
    let cal = config.calendar in
    let meta = warehouse_meta warehouse in
    let (start, n, begun, s) = effective_start-open config gap fuel now regular c e1 in
    let civil : IsCivil start.date =
      subst IsCivil (sym s.start_date) (add_calendar_days-number now.date n c).0 in
    let (p, sent, dispatch) =
      dispatch_date-IsDispatch config gap fuel start
        (cutoff_hour config meta.cutoff_kind start.date) regular.opens_within civil e1
        (hours-open cal start.date s.hours s.hours_of) in
    let day = add_calendar_days start.date p in
    let civil_day = (add_calendar_days-number start.date p civil).0 in
    let (m, arrives, counted, worked) =
      add_working_days-open cal gap fuel day meta.base_work_days regular.opens_within civil_day e2
        dispatch.open_day in
    let delivery = add_calendar_days day m in
    let civil_delivery = (add_calendar_days-number day m civil_day).0 in
    let (q, brings, courier_counted, couriered) =
      add_working_days-open cal gap fuel delivery config.courier_extra_working_days
        regular.opens_within civil_delivery e3 worked in
    (
      projection_of config warehouse now start delivery (add_calendar_days delivery q),
      rw begun (rw sent (rw arrives (rw brings refl))),
      record {
        start = start;
        start_days = n;
        started = s;
        dispatch_days = p;
        dispatched = dispatch;
        work_days = m;
        worked = (counted, worked);
        courier_days = q;
        couriered = (courier_counted, couriered);
        made = refl;
      },
    )
