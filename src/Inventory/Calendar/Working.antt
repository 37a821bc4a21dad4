-- ===== src/Inventory/Calendar/Working.antt =====
-- The counting of open days of working-calendar.ts.
use vp_parts.Base.{
  ℕ, zero, suc, ◌+◌, ◌*◌, ◌≤◌, ◌<◌, ◌≡◌, refl, sym, ap, ◌∙◌, inl, inr, true, Option, some, arith,
  ℕ_discrete, if◌then◌else◌, Bool-cases,
}
use vp_parts.Inventory.Calendar.{
  CivilDate, ShopCalendarConfig, add_calendar_days, is_shop_open_on, add_working_days,
}
use vp_parts.Inventory.Calendar.Days.{IsCivil, add_calendar_days-number}
use vp_parts.Inventory.Calendar.Opening.{opens, opens-later, days-later}

module _ (config : ShopCalendarConfig) where
  -- The open days among the `n` days after `d`.
  abbrev pub count_open : CivilDate → ℕ → ℕ
  count_open d zero = 0
  count_open d (suc n) = (if opens config d 1 then 1 else 0) + count_open (add_calendar_days d 1) n

  -- The loop ends on the open day that is the `remaining`-th after `d`, `n` days on.
  pub record EndsOn (d : CivilDate) (remaining n : ℕ) (answer : Option CivilDate) : Type 0 where
    pub answered : answer ≡ some (add_calendar_days d n)
    pub counted : count_open d n ≡ remaining
    pub opened : 1 ≤ remaining → opens config d n ≡ true

  -- Within every `gap` days after a date of the calendar, the shop opens.
  abbrev pub OpensWithin : ℕ → Type 0
  OpensWithin gap =
      (d : CivilDate) → IsCivil d → (k : ℕ) × (k < gap) × (opens config d (suc k) ≡ true)

  step :
      (fuel : ℕ) (d : CivilDate) (remaining : ℕ)
      → add_working_days (suc fuel) d (suc remaining) config
        ≡ add_working_days fuel
            (add_calendar_days d 1)
            (if opens config d 1 then remaining else suc remaining)
            config
  unfolding add_working_days
  step fuel d remaining = refl

  -- The next open day is near enough for the fuel to reach the open days that remain.
  abbrev Reaches : ℕ → ℕ → CivilDate → ℕ → Type 0
  Reaches gap fuel d zero = Unit {0}
  Reaches gap fuel d (suc remaining) =
      (k : ℕ) × (suc k + gap * remaining ≤ fuel) × (opens config d (suc k) ≡ true)

  OpensWithin-Reaches :
      (gap fuel : ℕ) (d : CivilDate) (remaining : ℕ)
      → OpensWithin gap
      → IsCivil d
      → gap * remaining ≤ fuel
      → Reaches gap fuel d remaining
  OpensWithin-Reaches gap fuel d zero regular c h = tt
  OpensWithin-Reaches gap fuel d (suc r) regular c h =
      let (k, near, e) = regular d c in
      let spread : gap * suc r ≡ gap + gap * r = grind arith in
      (k, omega (arith, h, near, spread), e)

  Reaches-later :
      (gap fuel : ℕ) (d : CivilDate) (remaining : ℕ)
      → OpensWithin gap
      → IsCivil d
      → Reaches gap (suc fuel) d (suc remaining)
      → Reaches gap fuel
          (add_calendar_days d 1)
          (if opens config d 1 then remaining else suc remaining)
  Reaches-later gap fuel d remaining regular c (zero, h, e) =
      let next =
        OpensWithin-Reaches gap fuel (add_calendar_days d 1) remaining regular
          (add_calendar_days-number d 1 c).0 (omega (arith, h)) in
      rw e next
  Reaches-later gap fuel d remaining regular c (suc k, h, e) =
      elim (Bool-cases (opens config d 1)) [
        | inl f ↦
            let next =
              OpensWithin-Reaches gap fuel (add_calendar_days d 1) remaining regular
                (add_calendar_days-number d 1 c).0 (omega (arith, h)) in
            rw f next
        | inr f ↦ rw f (k, omega (arith, h), sym (opens-later config d (suc k)) ∙ e)
      ]

  -- One day further: the loop went on from the next day.
  EndsOn-later :
      (fuel : ℕ) (d : CivilDate) (remaining n : ℕ)
      → let left = if opens config d 1 then remaining else suc remaining in
        let next = add_calendar_days d 1 in
        (left ≡ 0 → n ≡ 0)
        → EndsOn next left n (add_working_days fuel next left config)
        → EndsOn d (suc remaining) (suc n) (add_working_days (suc fuel) d (suc remaining) config)
  EndsOn-later fuel d remaining n stop r = record {
    answered = step fuel d remaining ∙ r.answered ∙ ap some (days-later config d n);
    counted = ground (arith, r.counted);
    opened = λ _. elim (Bool-cases (opens config d 1)) [
      | inl e ↦ elim (ℕ_discrete remaining 0) [
        | yes z ↦ let at_once : n ≡ 0 = ground (arith, stop, e, z) in rw at_once e
        | no more ↦ opens-later config d n ∙ r.opened (ground (arith, e, more))
      ]
      | inr e ↦ opens-later config d n ∙ r.opened (ground (arith, e))
    ];
  }

  pub add_working_days-ends :
      (gap fuel : ℕ) (d : CivilDate) (remaining : ℕ)
      → OpensWithin gap
      → IsCivil d
      → Reaches gap fuel d remaining
      → (n : ℕ) × EndsOn d remaining n (add_working_days fuel d remaining config)
        × (remaining ≡ 0 → n ≡ 0)
  unfolding add_working_days add_calendar_days
  add_working_days-ends gap fuel d zero regular c h = (
    0,
    record { answered = refl; counted = refl; opened = λ l. absurd (omega (arith, l)) },
    λ _. refl,
  )
  add_working_days-ends gap zero d (suc r) regular c (k, h, e) = absurd (omega (arith, h))
  add_working_days-ends gap (suc fuel) d (suc r) regular c h =
      let (n, ends, stop) =
        add_working_days-ends gap fuel (add_calendar_days d 1)
          (if opens config d 1 then r else suc r) regular (add_calendar_days-number d 1 c).0
          (Reaches-later gap fuel d r regular c h) in
      (suc n, EndsOn-later fuel d r n stop ends, λ z. absurd (omega (arith, z)))

-- Advancing by working days ends on the right day: where the shop opens within every `gap` days, the
-- loop ends within `gap` steps for each of the days that are to be counted, on the date some number
-- of days on, with exactly the wanted number of open days after the start up to it, and, unless no
-- day was wanted, on an open day.
pub add_working_days-counts :
    (config : ShopCalendarConfig) (gap : ℕ) (d : CivilDate) (count : ℕ)
    → OpensWithin config gap
    → IsCivil d
    → (n : ℕ) × (add_working_days (gap * count) d count config ≡ some (add_calendar_days d n))
      × (count_open config d n ≡ count)
      × (1 ≤ count → opens config d n ≡ true)
add_working_days-counts config gap d count regular c =
    let (n, ends, _) =
      add_working_days-ends config gap (gap * count) d count regular c
        (OpensWithin-Reaches config gap (gap * count) d count regular c (omega arith)) in
    (n, ends.answered, ends.counted, ends.opened)

-- From an open day the loop ends on an open day, whatever it is to count.
pub add_working_days-open :
    (config : ShopCalendarConfig) (gap fuel : ℕ) (d : CivilDate) (count : ℕ)
    → OpensWithin config gap
    → IsCivil d
    → gap * count ≤ fuel
    → is_shop_open_on d config ≡ true
    → (n : ℕ) × (add_working_days fuel d count config ≡ some (add_calendar_days d n))
      × (count_open config d n ≡ count)
      × (opens config d n ≡ true)
unfolding add_calendar_days
add_working_days-open config gap fuel d count regular c h e =
    let (n, ends, stop) =
      add_working_days-ends config gap fuel d count regular c
        (OpensWithin-Reaches config gap fuel d count regular c h) in
    (
      n,
      ends.answered,
      ends.counted,
      elim (ℕ_discrete count 0) [
        | yes z ↦ let at_once = stop z in rw at_once e
        | no more ↦ ends.opened (omega (arith, more))
      ],
    )
