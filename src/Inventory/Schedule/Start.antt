-- ===== src/Inventory/Schedule/Start.antt =====
-- The moment from which delivery-schedule.service.ts counts: the next at which the shop is open.
use vp_parts.Base.{
  ℕ, ◌+◌, ◌≤◌, ◌<◌, max, ◌≡◌, refl, sym, ap, ◌∙◌, inl, inr, true, false, Option, some, arith, ltb,
  if◌then◌else◌, Bool-cases, Option-cases,
}
use vp_parts.Inventory.Calendar.{
  CivilDate, CivilDateTime, DailyHours, ShopCalendarConfig, add_calendar_days, hours_for,
  is_shop_open_on, next_open_day_on_or_after,
}
use vp_parts.Inventory.Calendar.Days.{IsCivil, add_calendar_days-add}
use vp_parts.Inventory.Calendar.Opening.{
  opens, IsFirstOpen-closed, opens-later, next_open_day-first,
}
use vp_parts.Inventory.Calendar.Working.{OpensWithin}
use vp_parts.Inventory.Schedule.{
  EffectiveStart, ScheduleConfig, start_at_opening, start_today, effective_start,
}

-- The shop opens within every `gap` days, and closes later than it opens.
pub record IsRegular (config : ScheduleConfig) (gap : ℕ) : Type 0 where
  pub opens_within : OpensWithin config.calendar gap
  pub closes_later :
      (d : CivilDate) (h : DailyHours)
      → hours_for d config.calendar ≡ some h
      → h.open_hour < h.close_hour

-- `start` is a moment, `n` days after the day of `now`, at which the shop is open, and none is
-- earlier and not before `now`.
pub record StartsOpen (config : ScheduleConfig) (now : CivilDateTime) (start : EffectiveStart)
    (n : ℕ) : Type 0 where
  pub start_date : start.date ≡ add_calendar_days now.date n
  pub hours : DailyHours
  pub hours_of : hours_for start.date config.calendar ≡ some hours
  pub opened : hours.open_hour ≤ start.hour
  pub not_closed : start.hour < hours.close_hour
  pub at_opening : 1 ≤ n → (start.hour ≡ hours.open_hour) × (start.minute ≡ 0)
  pub not_before : n ≡ 0 → start.hour ≡ max now.hour hours.open_hour
  pub closed_between : (j : ℕ) → 1 ≤ j → j < n → opens config.calendar now.date j ≡ false
  pub closed_today :
      (h : DailyHours)
      → 1 ≤ n
      → hours_for now.date config.calendar ≡ some h
      → h.close_hour ≤ now.hour

open-hours :
    (config : ShopCalendarConfig) (d : CivilDate)
    → is_shop_open_on d config ≡ true
    → (h : DailyHours) × (hours_for d config ≡ some h)
unfolding is_shop_open_on
open-hours config d e = elim (Option-cases (hours_for d config)) [
  | inl f ↦ absurd (ground (arith, e, f))
  | inr (h, f) ↦ (h, f)
]

module _ (config : ScheduleConfig) (gap fuel : ℕ) (now : CivilDateTime) where
  abbrev cal : ShopCalendarConfig
  cal = config.calendar

  start_at_opening-some :
      (date : CivilDate) (h : DailyHours)
      → hours_for date cal ≡ some h
      → start_at_opening config (some date)
        ≡ some (record { date = date; hour = h.open_hour; minute = 0 })
  unfolding start_at_opening
  start_at_opening-some date h q = ground (arith, q)

  -- The opening of the next open day.
  later-StartsOpen :
      IsRegular config gap
      → IsCivil now.date
      → gap ≤ fuel
      → ((h : DailyHours) → hours_for now.date cal ≡ some h → h.close_hour ≤ now.hour)
      → (start : EffectiveStart) × (n : ℕ) × (start_at_opening config
            (next_open_day_on_or_after fuel (add_calendar_days now.date 1) cal)
          ≡ some start)
        × StartsOpen config now start n
  later-StartsOpen regular c enough closed =
      let (k, near, e) = regular.opens_within now.date c in
      let (n, found, le, first) =
        next_open_day-first cal fuel (add_calendar_days now.date 1) k (omega (arith, near, enough))
          (sym (opens-later cal now.date k) ∙ e) in
      let date = add_calendar_days (add_calendar_days now.date 1) n in
      let (h, q) = open-hours cal date first.opened in
      let start : EffectiveStart = record { date = date; hour = h.open_hour; minute = 0 } in
      (
        start,
        1 + n,
        ap (start_at_opening config) found ∙ start_at_opening-some date h q,
        record {
          start_date = add_calendar_days-add now.date 1 n;
          hours = h;
          hours_of = q;
          opened = omega arith;
          not_closed = regular.closes_later date h q;
          at_opening = λ _. (refl, refl);
          not_before = λ z. absurd (omega (arith, z));
          closed_between = IsFirstOpen-closed cal now.date n first;
          closed_today = λ g _ r. closed g r;
        },
      )

  today-StartsOpen :
      (h : DailyHours)
      → hours_for now.date cal ≡ some h
      → IsRegular config gap
      → ltb now.hour h.close_hour ≡ true
      → StartsOpen config now
          (record {
            date = now.date;
            hour = max now.hour h.open_hour;
            minute = if ltb now.hour h.open_hour then 0 else now.minute;
          })
          0
  unfolding add_calendar_days
  today-StartsOpen h q regular e = record {
    start_date = refl;
    hours = h;
    hours_of = q;
    opened = ground arith;
    not_closed = ground (arith, e, regular.closes_later now.date h q);
    at_opening = λ l. absurd (omega (arith, l));
    not_before = λ _. refl;
    closed_between = λ j l m. absurd (omega (arith, l, m));
    closed_today = λ g l _. absurd (omega (arith, l));
  }

  start_today-open :
      (h : DailyHours) (later : Option EffectiveStart)
      → ltb now.hour h.close_hour ≡ true
      → start_today config now (some h) later
        ≡ some (record {
          date = now.date;
          hour = max now.hour h.open_hour;
          minute = if ltb now.hour h.open_hour then 0 else now.minute;
        })
  unfolding start_today
  start_today-open h later e = ground (arith, e)

  start_today-closed :
      (h : DailyHours) (later : Option EffectiveStart)
      → ltb now.hour h.close_hour ≡ false
      → start_today config now (some h) later ≡ later
  unfolding start_today
  start_today-closed h later e = ground (arith, e)

-- Deliveries count from a moment at which the shop is open: where the shop opens within every `gap`
-- days and closes later than it opens, there is a start. It lies within its day's hours; it is
-- today's clock, or today's opening before it, unless the shop does not open today or has closed;
-- and else it is the opening of the first open day after today.
pub effective_start-open :
    (config : ScheduleConfig) (gap fuel : ℕ) (now : CivilDateTime)
    → IsRegular config gap
    → IsCivil now.date
    → gap ≤ fuel
    → (start : EffectiveStart) × (n : ℕ) × (effective_start config fuel now ≡ some start)
      × StartsOpen config now start n
unfolding effective_start
effective_start-open config gap fuel now regular c enough =
    elim (Option-cases (hours_for now.date config.calendar)) [
      | inl q ↦
          let (start, n, found, s) =
            later-StartsOpen config gap fuel now regular c enough
              (λ h r. absurd (ground (arith, q, r))) in
          (start, n, rw q found, s)
      | inr (h, q) ↦ elim (Bool-cases (ltb now.hour h.close_hour)) [
        | inl e ↦ (
          _,
          0,
          rw q (start_today-open config gap fuel now h _ e),
          today-StartsOpen config gap fuel now h q regular e,
        )
        | inr e ↦
            let (start, n, found, s) =
              later-StartsOpen config gap fuel now regular c enough
                (λ g r. ground (arith, q, r, e)) in
            (start, n, rw q (start_today-closed config gap fuel now h _ e ∙ found), s)
      ]
    ]
