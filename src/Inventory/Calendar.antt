-- ===== src/Inventory/Calendar.antt =====
-- The shop's calendar, apps/api/src/inventory/working-calendar.ts. A date is one of the Gregorian
-- calendar from the year 100, as the platform's Date has it; days are only added. The public
-- holidays come from the package `date-holidays` and are a parameter, with the substitute days that
-- the shop adds to them; the conversions between instants and the shop's time zone, which the
-- platform's Intl makes, are parameters where they are used. The loops run on fuel; `none` is that
-- it ran out.
pub mod Days
pub mod Opening
pub mod Working
use vp_parts.Base.{
  ℕ, zero, suc, ◌+◌, ◌*◌, ◌%◌, Bool, not, ◌&&◌, ◌||◌, Option, none, some, List, [], ◌∷◌, ◌++◌, ltb,
  ◌==◌, if◌then◌else◌, get_or_else, is_none, contains, sort_by,
}

pub record CivilDate : Type 0 where
  pub year : ℕ
  pub month : ℕ
  pub day : ℕ

pub record CivilDateTime : Type 0 where
  pub date : CivilDate
  pub hour : ℕ
  pub minute : ℕ

pub record DailyHours : Type 0 where
  pub open_hour : ℕ
  pub close_hour : ℕ

pub record ShopCalendarConfig : Type 0 where
  pub weekly_hours : List (Option DailyHours)
  pub is_holiday : CivilDate → Bool

unfoldable pub is_leap_year : ℕ → Bool
is_leap_year year = (year % 4 == 0) && not (year % 100 == 0) || (year % 400 == 0)

unfoldable pub days_in_month : ℕ → ℕ → ℕ
unfolding is_leap_year
days_in_month year month =
    if month == 2
    then if is_leap_year year then 29 else 28
    else if month == 4 || month == 6 || month == 9 || month == 11
    then 30
    else 31

-- The days of the year's months before the month.
unfoldable pub days_before_month : ℕ → ℕ → ℕ
unfolding days_in_month
days_before_month year zero = 0
days_before_month year (suc zero) = 0
days_before_month year (suc (suc m)) = days_before_month year (suc m) + days_in_month year (suc m)

unfoldable pub days_before_year : ℕ → ℕ
unfolding is_leap_year
days_before_year zero = 0
days_before_year (suc year) = days_before_year year + (if is_leap_year year then 366 else 365)

-- The number of a date, from 1 for the first day of the year 0.
unfoldable pub day_number : CivilDate → ℕ
unfolding days_before_year days_before_month
day_number date = days_before_year date.year + days_before_month date.year date.month + date.day

-- The first of January of the year 0, as the calendar continues backwards, was a Saturday.
unfoldable pub weekday_of : CivilDate → ℕ
unfolding day_number
weekday_of date = (day_number date + 5) % 7

unfoldable pub next_day : CivilDate → CivilDate
unfolding days_in_month
next_day date =
    if ltb date.day (days_in_month date.year date.month)
    then record date { day = date.day + 1 }
    else if ltb date.month 12
    then record date { month = date.month + 1; day = 1 }
    else record { year = date.year + 1; month = 1; day = 1 }

unfoldable pub add_calendar_days : CivilDate → ℕ → CivilDate
unfolding next_day
add_calendar_days date zero = date
add_calendar_days date (suc days) = add_calendar_days (next_day date) days

abbrev pub get_elem? {ℓ} : {A : Type ℓ} → List A → ℕ → Option A
get_elem? [] n = none
get_elem? (x ∷ xs) zero = some x
get_elem? (x ∷ xs) (suc n) = get_elem? xs n

unfoldable pub hours_for : CivilDate → ShopCalendarConfig → Option DailyHours
unfolding weekday_of
hours_for date config =
    if config.is_holiday date
    then none
    else get_or_else (get_elem? config.weekly_hours (weekday_of date)) none

unfoldable pub is_shop_open_on : CivilDate → ShopCalendarConfig → Bool
unfolding hours_for
is_shop_open_on date config = not (is_none (hours_for date config))

unfoldable pub next_open_day_on_or_after : ℕ → CivilDate → ShopCalendarConfig → Option CivilDate
unfolding is_shop_open_on add_calendar_days
next_open_day_on_or_after zero candidate config = none
next_open_day_on_or_after (suc fuel) candidate config =
    let later = next_open_day_on_or_after fuel (add_calendar_days candidate 1) config in
    if is_shop_open_on candidate config then some candidate else later

-- The loop of `addWorkingDays`: the open days that remain, and the candidate.
unfoldable pub add_working_days : ℕ → CivilDate → ℕ → ShopCalendarConfig → Option CivilDate
unfolding is_shop_open_on add_calendar_days
add_working_days fuel candidate zero config = some candidate
add_working_days zero candidate (suc remaining) config = none
add_working_days (suc fuel) candidate (suc remaining) config =
    let next = add_calendar_days candidate 1 in
    add_working_days fuel next (if is_shop_open_on next config then remaining else suc remaining)
      config

-- A weekday of Saturday or Sunday.
unfoldable pub is_weekend : CivilDate → Bool
unfolding weekday_of
is_weekend date = (weekday_of date == 0) || (weekday_of date == 6)

-- Dates as texts `YYYY-MM-DD`, of four digits in the years that the shop meets.
unfoldable pub civil_date_key : CivilDate → ℕ
civil_date_key date = date.year * 10000 + date.month * 100 + date.day

unfoldable pub substitute_from : ℕ → CivilDate → List ℕ → Option CivilDate
unfolding is_weekend civil_date_key add_calendar_days
substitute_from zero candidate occupied = none
substitute_from (suc fuel) candidate occupied =
    let later = substitute_from fuel (add_calendar_days candidate 1) occupied in
    if is_weekend candidate || contains occupied (civil_date_key candidate)
    then later
    else some candidate

-- What the loop does with one holiday.
unfoldable pub substitute_day : ℕ → CivilDate → List ℕ → Option (List ℕ)
unfolding substitute_from
substitute_day fuel holiday occupied =
    if is_weekend holiday
    then elim (substitute_from fuel (add_calendar_days holiday 1) occupied) [
      | none ↦ none
      | some substitute ↦ some (occupied ++ civil_date_key substitute ∷ [])
    ]
    else some occupied

unfoldable pub substitute_days : ℕ → List CivilDate → List ℕ → Option (List ℕ)
unfolding substitute_day
substitute_days fuel [] occupied = some occupied
substitute_days fuel (holiday ∷ holidays) occupied = elim (substitute_day fuel holiday occupied) [
  | none ↦ none
  | some more ↦ substitute_days fuel holidays more
]

unfoldable pub add_bg_substitute_days : ℕ → List CivilDate → List ℕ → Option (List ℕ)
unfolding substitute_days
add_bg_substitute_days fuel substitutable occupied =
    substitute_days fuel
      (sort_by (λ left right. ltb (civil_date_key left) (civil_date_key right)) substitutable)
      occupied
