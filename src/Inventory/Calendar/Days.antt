-- ===== src/Inventory/Calendar/Days.antt =====
-- The arithmetic of dates that working-calendar.ts takes from the platform.
use vp_parts.Base.{
  ℕ, zero, suc, ◌+◌, ◌%◌, ◌≤◌, ◌≡◌, refl, ap, ◌∙◌, inl, inr, true, false, arith, ltb, if◌then◌else◌,
  Bool-cases,
}
use vp_parts.Inventory.Calendar.{
  CivilDate, is_leap_year, days_in_month, days_before_month, days_before_year, day_number,
  weekday_of, next_day, add_calendar_days,
}

pub record IsCivil (date : CivilDate) : Type 0 where
  pub month_first : 1 ≤ date.month
  pub month_last : date.month ≤ 12
  pub day_first : 1 ≤ date.day
  pub day_last : date.day ≤ days_in_month date.year date.month

days_in_month-pos : (year month : ℕ) → 1 ≤ days_in_month year month
unfolding days_in_month
days_in_month-pos year month = ground arith

-- The three cases of the next day, in the month, in the year and in the next year.
next_day-in_month :
    (d : CivilDate)
    → ltb d.day (days_in_month d.year d.month) ≡ true
    → next_day d ≡ record d { day = d.day + 1 }
unfolding next_day
next_day-in_month d e = ground (arith, e)

next_day-in_year :
    (d : CivilDate)
    → ltb d.day (days_in_month d.year d.month) ≡ false
    → ltb d.month 12 ≡ true
    → next_day d ≡ record d { month = d.month + 1; day = 1 }
unfolding next_day
next_day-in_year d e f = ground (arith, e, f)

next_day-new_year :
    (d : CivilDate)
    → ltb d.day (days_in_month d.year d.month) ≡ false
    → ltb d.month 12 ≡ false
    → next_day d ≡ record { year = d.year + 1; month = 1; day = 1 }
unfolding next_day
next_day-new_year d e f = ground (arith, e, f)

days_before_month-suc :
    (year m : ℕ)
    → 1 ≤ m
    → days_before_month year (suc m) ≡ days_before_month year m + days_in_month year m
unfolding days_before_month
days_before_month-suc year zero h = absurd (omega (arith, h))
days_before_month-suc year (suc m) h = refl

days_in_year :
    (year : ℕ)
    → days_before_month year 12 + days_in_month year 12 ≡ (if is_leap_year year then 366 else 365)
unfolding days_before_month days_in_month
days_in_year year = ground arith

days_before_year-next :
    (year : ℕ)
    → days_before_year (year + 1) ≡ days_before_year year + (if is_leap_year year then 366 else 365)
unfolding days_before_year
days_before_year-next year =
    let next : year + 1 ≡ suc year = omega arith in ap days_before_year next

new_year :
    (d : CivilDate)
    → d.month ≡ 12
    → d.day ≡ days_in_month d.year d.month
    → days_before_year (d.year + 1) + 0 + 1 ≡ day_number d + 1
unfolding day_number
new_year d m e =
    let last : days_in_month d.year d.month ≡ days_in_month d.year 12 =
      ap (days_in_month d.year) m in
    let before : days_before_month d.year d.month ≡ days_before_month d.year 12 =
      ap (days_before_month d.year) m in
    omega (arith, e, last, before, days_before_year-next d.year, days_in_year d.year)

-- The day after a date of the calendar is one, with the next number.
pub next_day-number :
    (d : CivilDate)
    → IsCivil d
    → IsCivil (next_day d) × (day_number (next_day d) ≡ day_number d + 1)
unfolding day_number
next_day-number d c = elim (Bool-cases (ltb d.day (days_in_month d.year d.month))) [
  | inl e ↦ rw (next_day-in_month d e) (
    record {
      month_first = c.month_first;
      month_last = c.month_last;
      day_first = omega arith;
      day_last = ground (arith, e);
    },
    omega arith,
  )
  | inr e ↦ elim (Bool-cases (ltb d.month 12)) [
    | inl f ↦ rw (next_day-in_year d e f) (
      record {
        month_first = omega arith;
        month_last = ground (arith, f);
        day_first = omega arith;
        day_last = days_in_month-pos d.year (d.month + 1);
      },
      ground (arith, e, c.day_last, days_before_month-suc d.year d.month c.month_first),
    )
    | inr f ↦ rw (next_day-new_year d e f) (
      record {
        month_first = omega arith;
        month_last = omega arith;
        day_first = omega arith;
        day_last = days_in_month-pos (d.year + 1) 1;
      },
      new_year d (ground (arith, f, c.month_last)) (ground (arith, e, c.day_last)),
    )
  ]
]

pub add_calendar_days-number :
    (d : CivilDate) (n : ℕ)
    → IsCivil d
    → IsCivil (add_calendar_days d n) × (day_number (add_calendar_days d n) ≡ day_number d + n)
unfolding add_calendar_days
add_calendar_days-number d zero c = (c, omega arith)
add_calendar_days-number d (suc n) c =
    let (next, one) = next_day-number d c in
    let (last, rest) = add_calendar_days-number (next_day d) n next in
    (last, omega (arith, one, rest))

pub add_calendar_days-add :
    (d : CivilDate) (m n : ℕ)
    → add_calendar_days (add_calendar_days d m) n ≡ add_calendar_days d (m + n)
unfolding add_calendar_days
add_calendar_days-add d zero n =
    let none_added : n ≡ 0 + n = omega arith in ap (add_calendar_days d) none_added
add_calendar_days-add d (suc m) n =
    let one_more : suc (m + n) ≡ suc m + n = omega arith in
    add_calendar_days-add (next_day d) m n ∙ ap (add_calendar_days d) one_more

weeks : (a n : ℕ) → (a + n + 5) % 7 ≡ ((a + 5) % 7 + n) % 7
weeks a n = omega arith

-- Adding days to a date of the calendar gives a date of the calendar, that many days on by number,
-- and moves the weekday on by as many days, modulo seven: weeks are never interrupted by months or
-- leap years.
pub add_calendar_days-weekday :
    (d : CivilDate) (n : ℕ)
    → IsCivil d
    → IsCivil (add_calendar_days d n)
      × (day_number (add_calendar_days d n) ≡ day_number d + n)
      × (weekday_of (add_calendar_days d n) ≡ (weekday_of d + n) % 7)
unfolding weekday_of
add_calendar_days-weekday d n c =
    let (last, number) = add_calendar_days-number d n c in
    (last, number, rw number (weeks (day_number d) n))
