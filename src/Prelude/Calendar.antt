-- ===== src/Prelude/Calendar.antt =====
-- The days of `datetime` in the Gregorian calendar, counted from 1970-01-01. A date is the triple of
-- its year, month and day; the texts "%Y-%m" and "%Y-%m-%d" are numbers, whose order is that of the
-- texts for years of four digits.
use Prim.Native.Nat.{ℕ, ◌+◌, ◌-◌, ◌*◌, ◌/◌, ◌%◌, ◌≤◌}
use native.Mathlib.Omega.{arith}
use mathlib.Core.Bool.{not, ◌&&◌, ◌||◌}
use hysteria2_panel.Prelude.Tests.{ltb, leb, ◌==◌, if◌then◌else◌}

abbrev pub Date : Type 0
Date = ℕ × ℕ × ℕ

-- The date of the day `doe` of a cycle of 400 years, which begins on the first of March
date_in_cycle : ℕ → ℕ → Date
date_in_cycle cycle doe =
    let yoe : ℕ = (doe - doe / 1460 + doe / 36524 - doe / 146096) / 365 in
    let doy : ℕ = doe - (365 * yoe + yoe / 4 - yoe / 100) in
    let mp : ℕ = (5 * doy + 2) / 153 in
    let month : ℕ = if ltb mp 10 then mp + 3 else mp - 9 in
    let year : ℕ = yoe + cycle * 400 + (if leb month 2 then 1 else 0) in
    (year, month, doy - (153 * mp + 2) / 5 + 1)

-- `datetime.fromtimestamp(days * 86400, utc).date()`
unfoldable pub date_of : ℕ → Date
unfolding date_in_cycle
date_of days = date_in_cycle ((days + 719468) / 146097) ((days + 719468) % 146097)

days_in_cycle : ℕ → ℕ → ℕ → ℕ → ℕ
days_in_cycle year yoe mp day =
    let doy : ℕ = (153 * mp + 2) / 5 + day - 1 in
    year / 400 * 146097 + yoe * 365 + yoe / 4 - yoe / 100 + doy - 719468

-- `datetime(year, month, day, tzinfo=utc).timestamp() / 86400`
unfoldable pub days_of : Date → ℕ
unfolding days_in_cycle
days_of (year, month, day) =
    let y : ℕ = if leb month 2 then year - 1 else year in
    let mp : ℕ = if leb month 2 then month + 9 else month - 3 in days_in_cycle y (y % 400) mp day

-- "%Y-%m"
unfoldable pub month_index : Date → ℕ
month_index (year, month, day) = year * 12 + month - 1

-- "%Y-%m-%d"
unfoldable pub day_index : Date → ℕ
unfolding month_index
day_index (year, month, day) = month_index (year, month, day) * 32 + day

-- The date at a moment, in UTC and in Beijing time
unfoldable pub utc_date : ℕ → Date
unfolding date_of
utc_date at = date_of (at / 86400)

unfoldable pub beijing_date : ℕ → Date
unfolding date_of
beijing_date at = date_of ((at + 28800) / 86400)

-- `calendar.monthrange(year, month)[1]`
unfoldable pub month_length : ℕ → ℕ → ℕ
month_length year month =
    if month == 2
    then (if year % 4 == 0 && (not (year % 100 == 0) || year % 400 == 0) then 29 else 28)
    else if month == 4 || month == 6 || month == 9 || month == 11
    then 30
    else 31

day_in_month : (doy : ℕ) → doy - (153 * ((5 * doy + 2) / 153) + 2) / 5 + 1 ≤ 31
day_in_month doy = omega arith

pub date_of-day_le : (days : ℕ) → (date_of days).2 ≤ 31
unfolding date_of date_in_cycle
date_of-day_le days =
    let doe : ℕ = (days + 719468) % 146097 in
    let yoe : ℕ = (doe - doe / 1460 + doe / 36524 - doe / 146096) / 365 in
    day_in_month (doe - (365 * yoe + yoe / 4 - yoe / 100))

month_index_positive :
    (yoe cycle month leap : ℕ) → 1 ≤ cycle → 1 ≤ (yoe + cycle * 400 + leap) * 12 + month - 1
month_index_positive yoe cycle month leap h = omega arith

-- The dates are those of 1970 and later; that they are later than the year 0 is enough.
pub date_of-month_index : (days : ℕ) → 1 ≤ month_index (date_of days)
unfolding date_of date_in_cycle month_index
date_of-month_index days =
    let doe : ℕ = (days + 719468) % 146097 in
    let yoe : ℕ = (doe - doe / 1460 + doe / 36524 - doe / 146096) / 365 in
    let doy : ℕ = doe - (365 * yoe + yoe / 4 - yoe / 100) in
    let mp : ℕ = (5 * doy + 2) / 153 in
    let month : ℕ = if ltb mp 10 then mp + 3 else mp - 9 in
    month_index_positive yoe ((days + 719468) / 146097) month (if leb month 2 then 1 else 0)
      (omega arith)
