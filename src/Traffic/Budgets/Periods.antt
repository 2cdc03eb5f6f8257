-- ===== src/Traffic/Budgets/Periods.antt =====
-- `budget_period` of hy2panel/budgets.py: the period of a budget contains the day.
use hysteria2_panel.Prelude.{
  ℕ, ◌≡◌, ◌+◌, ◌-◌, ◌*◌, ◌/◌, ◌%◌, ◌≤◌, true, arith, if_cases, leb, Date, date_of, utc_date,
  month_index, day_index, month_length, date_of-day_le, date_of-month_index,
}
use hysteria2_panel.Traffic.Budgets.{reset_at, month_reset, period_of, budget_period, is_day_in}

month_length_le : (year month : ℕ) → month_length year month ≤ 31
unfolding month_length
month_length_le year month = ground arith

-- What a reset at a day of a month is as a number
day_index-reset :
    (year month reset_day : ℕ)
    → (month_index (year, month, 0) * 32 ≤ day_index (reset_at year month reset_day))
      × (day_index (reset_at year month reset_day) ≤ month_index (year, month, 0) * 32 + 31)
unfolding day_index month_index reset_at
day_index-reset year month reset_day = (omega arith, omega (arith, month_length_le year month))

day_index-month_reset :
    (index reset_day : ℕ)
    → (index * 32 ≤ day_index (month_reset index reset_day))
      × (day_index (month_reset index reset_day) ≤ index * 32 + 31)
unfolding month_index
day_index-month_reset index reset_day =
    let (low, high) = day_index-reset (index / 12) (index % 12 + 1) reset_day in
    (omega (arith, low), omega (arith, high))

period_of-day :
    (reset_day : ℕ) (date : Date)
    → 1 ≤ month_index date
    → date.2 ≤ 31
    → is_day_in (period_of reset_day date) (day_index date) ≡ true
unfolding day_index month_index
period_of-day reset_day (year, month, day) h d =
    if_cases (λ x. is_day_in x (day_index (year, month, day)) ≡ true)
      (leb (day_index (reset_at year month reset_day)) (day_index (year, month, day)))
      (reset_at year month reset_day, month_reset (month_index (year, month, day) + 1) reset_day)
      (month_reset (month_index (year, month, day) - 1) reset_day, reset_at year month reset_day)
      (λ t. ground (arith, t, next.0)) (λ f. ground (arith, f, before.1))
  where
    next :
        ((month_index (year, month, day) + 1) * 32
          ≤ day_index (month_reset (month_index (year, month, day) + 1) reset_day))
        × (day_index (month_reset (month_index (year, month, day) + 1) reset_day)
            ≤ (month_index (year, month, day) + 1) * 32 + 31)
    next = day_index-month_reset (month_index (year, month, day) + 1) reset_day

    before :
        ((month_index (year, month, day) - 1) * 32
          ≤ day_index (month_reset (month_index (year, month, day) - 1) reset_day))
        × (day_index (month_reset (month_index (year, month, day) - 1) reset_day)
            ≤ (month_index (year, month, day) - 1) * 32 + 31)
    before = day_index-month_reset (month_index (year, month, day) - 1) reset_day

-- Whatever the reset day, the period of a moment starts on its day in UTC or before it, and ends on a
-- later one.
pub today_is_in_period :
    (now reset_day : ℕ) → is_day_in (budget_period now reset_day) (day_index (utc_date now)) ≡ true
unfolding budget_period utc_date
today_is_in_period now reset_day =
    period_of-day reset_day (date_of (now / 86400)) (date_of-month_index (now / 86400))
      (date_of-day_le (now / 86400))
