-- ===== src/Inventory/Calendar/Opening.antt =====
-- The first open day of working-calendar.ts.
use vp_parts.Base.{
  ℕ, zero, suc, ◌+◌, ◌≤◌, ◌<◌, ◌≡◌, refl, sym, ap, ◌∙◌, inl, inr, Bool, true, false, some, arith,
  Bool-cases,
}
use vp_parts.Inventory.Calendar.{
  CivilDate, ShopCalendarConfig, add_calendar_days, is_shop_open_on, next_open_day_on_or_after,
}
use vp_parts.Inventory.Calendar.Days.{add_calendar_days-add}

module _ (config : ShopCalendarConfig) where
  abbrev pub opens : CivilDate → ℕ → Bool
  opens d n = is_shop_open_on (add_calendar_days d n) config

  pub opens-later : (d : CivilDate) (n : ℕ) → opens d (suc n) ≡ opens (add_calendar_days d 1) n
  unfolding add_calendar_days
  opens-later d n = refl

  pub days-later :
      (d : CivilDate) (n : ℕ)
      → add_calendar_days (add_calendar_days d 1) n ≡ add_calendar_days d (suc n)
  unfolding add_calendar_days
  days-later d n = refl

  opens-next : (d : CivilDate) (m n : ℕ) → opens (add_calendar_days d m) n ≡ opens d (m + n)
  opens-next d m n = ap (λ e. is_shop_open_on e config) (add_calendar_days-add d m n)

  next_open-now :
      (fuel : ℕ) (d : CivilDate)
      → opens d 0 ≡ true
      → next_open_day_on_or_after (suc fuel) d config ≡ some (add_calendar_days d 0)
  unfolding next_open_day_on_or_after add_calendar_days
  next_open-now fuel d e = ground (arith, e)

  next_open-later :
      (fuel : ℕ) (d : CivilDate)
      → opens d 0 ≡ false
      → next_open_day_on_or_after (suc fuel) d config
        ≡ next_open_day_on_or_after fuel (add_calendar_days d 1) config
  unfolding next_open_day_on_or_after add_calendar_days
  next_open-later fuel d e = ground (arith, e)

  -- `r` is the first open day from `d` on, `n` days on.
  pub record IsFirstOpen (d : CivilDate) (n : ℕ) : Type 0 where
    pub opened : opens d n ≡ true
    pub closed_before : (j : ℕ) → j < n → opens d j ≡ false

  IsFirstOpen-later :
      (d : CivilDate) (n : ℕ)
      → opens d 0 ≡ false
      → IsFirstOpen (add_calendar_days d 1) n
      → IsFirstOpen d (suc n)
  IsFirstOpen-later d n f first = record {
    opened = opens-later d n ∙ first.opened;
    closed_before = closed;
  }
    where
      closed : (j : ℕ) → j < suc n → opens d j ≡ false
      closed zero l = f
      closed (suc j) l = opens-later d j ∙ first.closed_before j (omega (arith, l))

  -- The days after `d` and before the first open one are closed.
  pub IsFirstOpen-closed :
      (d : CivilDate) (n : ℕ)
      → IsFirstOpen (add_calendar_days d 1) n
      → (j : ℕ) → 1 ≤ j
      → j < 1 + n
      → opens d j ≡ false
  IsFirstOpen-closed d n first zero l m = absurd (omega (arith, l))
  IsFirstOpen-closed d n first (suc j) l m =
      opens-later d j ∙ first.closed_before j (omega (arith, m))

  -- The loop ends once it reaches an open day, at the first one: with more fuel than an open day is
  -- away, it answers a day not after it that is open while all days before it are closed.
  pub next_open_day-first :
      (fuel : ℕ) (d : CivilDate) (k : ℕ)
      → k < fuel
      → opens d k ≡ true
      → (n : ℕ) × (next_open_day_on_or_after fuel d config ≡ some (add_calendar_days d n))
        × (n ≤ k)
        × IsFirstOpen d n
  next_open_day-first zero d k h e = absurd (omega (arith, h))
  next_open_day-first (suc fuel) d zero h e = (
    0,
    next_open-now fuel d e,
    omega arith,
    record { opened = e; closed_before = λ j l. absurd (omega (arith, l)) },
  )
  next_open_day-first (suc fuel) d (suc k) h e = elim (Bool-cases (opens d 0)) [
    | inl f ↦ (
      0,
      next_open-now fuel d f,
      omega arith,
      record { opened = f; closed_before = λ j l. absurd (omega (arith, l)) },
    )
    | inr f ↦
        let (n, found, le, first) =
          next_open_day-first fuel (add_calendar_days d 1) k (omega (arith, h))
            (sym (opens-later d k) ∙ e) in
        (
          suc n,
          next_open-later fuel d f ∙ found ∙ ap some (days-later d n),
          omega (arith, le),
          IsFirstOpen-later d n f first,
        )
  ]
