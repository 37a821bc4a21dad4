-- ===== src/Inventory/Examples/Week.antt =====
-- A shop that opens from Monday to Saturday.
use vp_parts.Base.{
  ℕ, zero, suc, ◌+◌, ◌*◌, ◌≤◌, ◌<◌, ◌≡◌, refl, true, false, Option, none, some, List, arith,
  ℕ_discrete, get_or_else, is_none,
}
use vp_parts.Inventory.Calendar.{
  days_in_month, is_leap_year, CivilDate, CivilDateTime, DailyHours, ShopCalendarConfig,
  add_calendar_days, get_elem?, weekday_of, hours_for, is_shop_open_on,
}
use vp_parts.Inventory.Calendar.Days.{IsCivil, add_calendar_days-weekday}
use vp_parts.Inventory.Calendar.Working.{OpensWithin}
use vp_parts.Inventory.Schedule.{ScheduleConfig, weekly_hours_of}
use vp_parts.Inventory.Schedule.Start.{IsRegular}

abbrev pub weekday_hours : DailyHours
weekday_hours = record { open_hour = 9; close_hour = 18 }

abbrev pub saturday_hours : DailyHours
saturday_hours = record { open_hour = 9; close_hour = 14 }

abbrev pub week : List (Option DailyHours)
week = weekly_hours_of weekday_hours saturday_hours

abbrev pub no_holidays : ShopCalendarConfig
no_holidays = record { weekly_hours = week; is_holiday = λ _. false }

abbrev pub shop : ScheduleConfig
shop = record {
  calendar = no_holidays;
  same_day_cutoff_hour = 11;
  processing_cutoff_hour = 17;
  within_hour_offset_minutes = 60;
  courier_extra_working_days = 1;
  to_instant = λ t. t.date.day * 1440 + t.hour * 60 + t.minute;
}

-- A Friday afternoon.
abbrev pub friday : CivilDate
friday = record { year = 2026; month = 2; day = 27 }

abbrev pub now : CivilDateTime
now = record { date = friday; hour = 16; minute = 40 }

week-open : (w : ℕ) → w < 7 → 1 ≤ w → is_none (get_or_else (get_elem? week w) none) ≡ false
week-open zero l p = absurd (omega (arith, p))
week-open (suc zero) l p = refl
week-open (suc (suc zero)) l p = refl
week-open (suc (suc (suc zero))) l p = refl
week-open (suc (suc (suc (suc zero)))) l p = refl
week-open (suc (suc (suc (suc (suc zero))))) l p = refl
week-open (suc (suc (suc (suc (suc (suc zero)))))) l p = refl
week-open (suc (suc (suc (suc (suc (suc (suc w))))))) l p = absurd (omega (arith, l))

week-hours :
    (w : ℕ) (h : DailyHours)
    → get_or_else (get_elem? week w) none ≡ some h
    → h.open_hour < h.close_hour
week-hours zero h e = absurd (cc)
week-hours (suc zero) h e = ground (arith, e)
week-hours (suc (suc zero)) h e = ground (arith, e)
week-hours (suc (suc (suc zero))) h e = ground (arith, e)
week-hours (suc (suc (suc (suc zero)))) h e = ground (arith, e)
week-hours (suc (suc (suc (suc (suc zero))))) h e = ground (arith, e)
week-hours (suc (suc (suc (suc (suc (suc zero)))))) h e = ground (arith, e)
week-hours (suc (suc (suc (suc (suc (suc (suc w))))))) h e = absurd (cc)

open-weekday :
    (d : CivilDate) → weekday_of d < 7 → 1 ≤ weekday_of d → is_shop_open_on d no_holidays ≡ true
unfolding is_shop_open_on hours_for
open-weekday d l p = ground (arith, week-open (weekday_of d) l p)

pub week-OpensWithin : OpensWithin no_holidays 2
week-OpensWithin d c =
    let (_, _, first) = add_calendar_days-weekday d 1 c in
    let (_, _, second) = add_calendar_days-weekday d 2 c in
    elim (ℕ_discrete (weekday_of (add_calendar_days d 1)) 0) [
      | yes z ↦ (
        1,
        omega arith,
        open-weekday (add_calendar_days d 2) (omega (arith, second))
            (omega (arith, first, second, z)),
      )
      | no ne ↦ (
        0,
        omega arith,
        open-weekday (add_calendar_days d 1) (omega (arith, first)) (omega (arith, ne)),
      )
    ]

hours-later :
    (d : CivilDate) (h : DailyHours) → hours_for d no_holidays ≡ some h → h.open_hour < h.close_hour
unfolding hours_for
hours-later d h e = week-hours (weekday_of d) h e

pub shop-IsRegular : IsRegular shop 2
shop-IsRegular = record { opens_within = week-OpensWithin; closes_later = hours-later }

pub friday-IsCivil : IsCivil friday
unfolding days_in_month is_leap_year
friday-IsCivil = record {
  month_first = omega arith;
  month_last = omega arith;
  day_first = omega arith;
  day_last = omega arith;
}
