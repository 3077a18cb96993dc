-- ===== src/Clock.antt =====
-- Go's time.Time, in UTC, as the services use it. An instant is the number of nanoseconds since
-- 0001-01-01 00:00, Go's zero time; every date that the services handle lies far after it, so the
-- truncated subtraction of dates is exact. A day is numbered from 0001-01-01, which is day 0; it
-- stands for the calendar date and for its text in the layout "2006-01-02".
mod Tests
use ninerlog_api.Base.{
  ℕ, zero, suc, ◌+◌, ◌-◌, ◌*◌, ◌/◌, ◌%◌, min, Bool, true, false, not, ◌&&◌, ◌||◌, ltb, leb, ◌==◌,
  if◌then◌else◌, Option, none, some,
}
use ninerlog_api.Base.Int.{ℤ, pos, neg_ℕ}

abbrev pub Instant : Type 0
Instant = ℕ

abbrev pub Day : Type 0
Day = ℕ

-- 24 * time.Hour
abbrev pub day_ns : ℕ
day_ns = 86400000000000

-- The calendar date of an instant.
abbrev pub day_of : Instant → Day
day_of t = t / day_ns

-- Midnight at the start of a day.
abbrev pub midnight : Day → Instant
midnight d = d * day_ns

-- Both on a pointer: the formatted date, and midnight.
abbrev pub day_text : Option Instant → Option Day
day_text none = none
day_text (some t) = some (day_of t)

abbrev pub midnight_of : Option Day → Option Instant
midnight_of none = none
midnight_of (some d) = some (midnight d)

-- t.Before(u), t.After(u)
abbrev pub before : Instant → Instant → Bool
before t u = ltb t u

abbrev pub after : Instant → Instant → Bool
after t u = ltb u t

-- The largest Duration in whole days: `Sub` saturates there.
abbrev pub max_sub_days : ℕ
max_sub_days = 106751

-- int(a.Sub(b).Hours() / 24), where the floating-point quotient is read as the exact one.
unfoldable pub sub_days : Instant → Instant → ℤ
sub_days a b =
    if leb b a
    then pos (min max_sub_days ((a - b) / day_ns))
    else neg_ℕ (min max_sub_days ((b - a) / day_ns))

unfoldable pub is_leap : ℕ → Bool
is_leap y = y % 4 == 0 && (not (y % 100 == 0) || y % 400 == 0)

-- The days of a year before its month, months counted from 0; `l` is the leap day.
month_start : ℕ → ℕ → ℕ
month_start zero l = 0
month_start (suc zero) l = 31
month_start (suc (suc zero)) l = 59 + l
month_start (suc (suc (suc zero))) l = 90 + l
month_start (suc (suc (suc (suc zero)))) l = 120 + l
month_start (suc (suc (suc (suc (suc zero))))) l = 151 + l
month_start (suc (suc (suc (suc (suc (suc zero)))))) l = 181 + l
month_start (suc (suc (suc (suc (suc (suc (suc zero))))))) l = 212 + l
month_start (suc (suc (suc (suc (suc (suc (suc (suc zero)))))))) l = 243 + l
month_start (suc (suc (suc (suc (suc (suc (suc (suc (suc zero))))))))) l = 273 + l
month_start (suc (suc (suc (suc (suc (suc (suc (suc (suc (suc zero)))))))))) l = 304 + l
month_start _ l = 334 + l

unfoldable pub days_before_month : Bool → ℕ → ℕ
unfolding month_start
days_before_month leap m = month_start m (if leap then 1 else 0)

-- The days before a year, the first being year 1.
unfoldable pub days_before_year : ℕ → ℕ
days_before_year y = let p = y - 1 in p * 365 + p / 4 - p / 100 + p / 400

-- The day `d` days after the first of month `i`, months counted from January of year 0: time.Date
-- with its normalisation of months and days.
unfoldable pub month_day : ℕ → ℕ → Day
unfolding is_leap days_before_month days_before_year
month_day i d = days_before_year (i / 12) + days_before_month (is_leap (i / 12)) (i % 12) + d

-- The year of a day, by the cycles of 400, 100, 4 and 1 years.
unfoldable pub year_of : Day → ℕ
year_of n =
    let r = n % 146097 in
    let c = min 3 (r / 36524) in
    let s = r - 36524 * c in
    let q = s / 1461 in 400 * (n / 146097) + 100 * c + 4 * q + min 3 (s % 1461 / 365) + 1

-- The month of a day of the year, counted from 0: the last that starts by that day.
find_month : Bool → ℕ → ℕ → ℕ
find_month leap zero yday = 0
find_month leap (suc m) yday =
    let sooner = find_month leap m yday in
    if leb (days_before_month leap (suc m)) yday then suc m else sooner

-- The month of a day, counted from January of year 0.
unfoldable pub month_index : Day → ℕ
unfolding year_of find_month is_leap days_before_year days_before_month
month_index n = let y = year_of n in y * 12 + find_month (is_leap y) 11 (n - days_before_year y)

-- The day of the month of a day, counted from 0.
unfoldable pub month_offset : Day → ℕ
unfolding month_index month_day
month_offset n = n - month_day (month_index n) 0

-- t.AddDate(-years, -months, -days)
unfoldable pub sub_date : Instant → ℕ → ℕ → ℕ → Instant
unfolding month_index month_offset month_day
sub_date t years months days =
    let n = t / day_ns in
    midnight (month_day (month_index n - (12 * years + months)) (month_offset n) - days)
    + t % day_ns

-- t.AddDate(years, months, days)
unfoldable pub add_date : Instant → ℕ → ℕ → ℕ → Instant
unfolding month_index month_offset month_day
add_date t years months days =
    let n = t / day_ns in
    midnight (month_day (month_index n + (12 * years + months)) (month_offset n) + days)
    + t % day_ns
